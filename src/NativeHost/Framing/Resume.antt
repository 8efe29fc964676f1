-- ===== src/NativeHost/Framing/Resume.antt =====
-- The loop of `push` may be stopped at any byte and resumed when more bytes have come.
use webmcp_security_lab.Prelude.{
  ℕ, zero, suc, ◌≤◌, ◌<◌, ◌≡◌, refl, ap, sym, ◌∙◌, inl, inr, List, [], ◌∷◌, ◌++◌, length,
  length-append, take, drop, take-append, drop-append, arith, ltb, Bool-cases,
}
use webmcp_security_lab.NativeHost.Framing.{
  Bytes, ByteOrder, drained, with_frame, drain, read_length,
}
use webmcp_security_lab.NativeHost.Framing.Drain.{
  drain-fuel, drain_step, drain_wait, drain_cut, length-drop-le,
}

module _ (order : ByteOrder) (max : ℕ) where
  -- The loop ends on `x`, and then on what it left followed by `y`, with the given frames in all.
  abbrev pub Resumes : Bytes → Bytes → Bytes → List Bytes → Type 0
  Resumes x y rest frames =
      (b : Bytes) × (first : List Bytes) × (second : List Bytes) × (drain (suc (length x)) order max
          x
        ≡ drained b first)
      × (drain (suc (length (b ++ y))) order max (b ++ y) ≡ drained rest second)
      × (frames ≡ first ++ second)

  keeps_all :
      (f : ℕ) (x y rest : Bytes) (frames : List Bytes)
      → length (x ++ y) < f
      → drain f order max (x ++ y) ≡ drained rest frames
      → drain (suc (length x)) order max x ≡ drained x []
      → Resumes x y rest frames
  keeps_all f x y rest frames h e left =
      (x, [], frames, left, drain-fuel order max _ f (x ++ y) (omega arith) h ∙ e, refl)

  resume_cut :
      (a b c d : ℕ) (body y rest : Bytes) (frames fs : List Bytes)
      → 0 < read_length order a b c d
      → read_length order a b c d ≤ max
      → read_length order a b c d ≤ length body
      → Resumes (drop (read_length order a b c d) body) y rest fs
      → frames ≡ take (read_length order a b c d) (body ++ y) ∷ fs
      → Resumes (a ∷ b ∷ c ∷ d ∷ body) y rest frames
  resume_cut a b c d body y rest frames fs some_bytes in_bounds long (left, first, second, p, q, r)
        e =
      let size = read_length order a b c d in
      let shorter = length-drop-le size body in
      (
        left,
        take size body ∷ first,
        second,
        drain_cut order max (length {A = ℕ} (a ∷ b ∷ c ∷ d ∷ body)) a b c d body some_bytes
              in_bounds long
            ∙ ap (with_frame (take size body)) (
                drain-fuel order max _ (suc (length (drop size body))) (drop size body)
                  (omega arith) (omega arith)
                ∙ p),
        q,
        e ∙ ap (λ t. t ∷ fs) (take-append size body y long) ∙ ap (λ t. take size body ∷ t) r,
      )

  pub resume :
      (f : ℕ) (x y rest : Bytes) (frames : List Bytes)
      → length (x ++ y) < f
      → drain f order max (x ++ y) ≡ drained rest frames
      → Resumes x y rest frames
  resume zero x y rest frames h e = absurd (omega arith)
  resume (suc f) [] y rest frames h e =
      keeps_all (suc f) [] y rest frames h e (unfold drain in refl)
  resume (suc f) (a ∷ []) y rest frames h e =
      keeps_all (suc f) (a ∷ []) y rest frames h e (unfold drain in refl)
  resume (suc f) (a ∷ b ∷ []) y rest frames h e =
      keeps_all (suc f) (a ∷ b ∷ []) y rest frames h e (unfold drain in refl)
  resume (suc f) (a ∷ b ∷ c ∷ []) y rest frames h e =
      keeps_all (suc f) (a ∷ b ∷ c ∷ []) y rest frames h e (unfold drain in refl)
  resume (suc f) (a ∷ b ∷ c ∷ d ∷ body) y rest frames h e =
      let size = read_length order a b c d in
      let (some_bytes, in_bounds, cases) =
        drain_step order max f a b c d (body ++ y) rest frames e in
      elim (Bool-cases (ltb (length body) size)) [
        | inl short ↦
            keeps_all (suc f) (a ∷ b ∷ c ∷ d ∷ body) y rest frames h e
              (drain_wait order max _ a b c d body some_bytes in_bounds (ground arith))
        | inr long ↦
            let enough : size ≤ length body = ground arith in
            let total = length-append body y in
            elim cases [
              | inl (short, _, _) ↦ absurd (omega arith)
              | inr (_, (fs, later, first)) ↦
                  resume_cut a b c d body y rest frames fs some_bytes in_bounds enough
                    (resume f (drop size body) y rest fs
                      (omega (
                        arith,
                        length-append (drop size body) y,
                        length-append body y,
                        length-drop-le size body,
                      ))
                      (ap (drain f order max) (sym (drop-append size body y enough)) ∙ later))
                    first
            ]
      ]
