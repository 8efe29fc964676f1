-- ===== src/NativeHost/Framing/Drain.antt =====
-- The loop of `push`: its fuel is enough, what it leaves is short, and it may be stopped and resumed.
use webmcp_security_lab.Prelude.{
  ℕ, zero, suc, ◌+◌, ◌≤◌, ◌<◌, ◌≡◌, ◌≢◌, refl, ◌⊎◌, inl, inr, ◌||◌, List, [], ◌∷◌, length, take,
  drop, arith, ltb, nat_beq, Bool-cases,
}
use webmcp_security_lab.NativeHost.Framing.{
  Bytes, ByteOrder, Drained, drained, out_of_bounds, out_of_fuel, with_frame, drain, read_length,
}

pub length-drop-le : (n : ℕ) (xs : Bytes) → length (drop n xs) ≤ length xs
length-drop-le zero xs = omega arith
length-drop-le (suc n) [] = omega arith
length-drop-le (suc n) (x ∷ xs) = omega (arith, length-drop-le n xs)

with_frame-eq_drained :
    (frame : Bytes) (later : Drained) (rest : Bytes) (frames : List Bytes)
    → with_frame frame later ≡ drained rest frames
    → (fs : List Bytes) × (later ≡ drained rest fs) × (frames ≡ frame ∷ fs)
with_frame-eq_drained frame (drained r fs) rest frames e = (fs, cc, cc)
with_frame-eq_drained frame out_of_bounds rest frames e = absurd (cc)
with_frame-eq_drained frame out_of_fuel rest frames e = absurd (cc)

module _ (order : ByteOrder) (max : ℕ) where
  -- With more fuel than bytes the loop ends, and more fuel does not change its outcome.
  pub drain-fuel :
      (f g : ℕ) (buffer : Bytes)
      → length buffer < f
      → length buffer < g
      → drain f order max buffer ≡ drain g order max buffer
  unfolding drain
  drain-fuel zero g buffer h k = absurd (omega arith)
  drain-fuel (suc f) zero buffer h k = absurd (omega arith)
  drain-fuel (suc f) (suc g) [] h k = refl
  drain-fuel (suc f) (suc g) (a ∷ []) h k = refl
  drain-fuel (suc f) (suc g) (a ∷ b ∷ []) h k = refl
  drain-fuel (suc f) (suc g) (a ∷ b ∷ c ∷ []) h k = refl
  drain-fuel (suc f) (suc g) (a ∷ b ∷ c ∷ d ∷ body) h k =
      let shorter = length-drop-le (read_length order a b c d) body in
      rw (drain-fuel f g (drop (read_length order a b c d) body) (omega arith) (omega arith))

  pub drain-ne-out_of_fuel :
      (f : ℕ) (buffer : Bytes) → length buffer < f → drain f order max buffer ≢ out_of_fuel
  unfolding drain
  drain-ne-out_of_fuel zero buffer h = absurd (omega arith)
  drain-ne-out_of_fuel (suc f) [] h = λ e. cc
  drain-ne-out_of_fuel (suc f) (a ∷ []) h = λ e. cc
  drain-ne-out_of_fuel (suc f) (a ∷ b ∷ []) h = λ e. cc
  drain-ne-out_of_fuel (suc f) (a ∷ b ∷ c ∷ []) h = λ e. cc
  drain-ne-out_of_fuel (suc f) (a ∷ b ∷ c ∷ d ∷ body) h =
      let shorter = length-drop-le (read_length order a b c d) body in
      let later = drain-ne-out_of_fuel f (drop (read_length order a b c d) body) (omega arith) in
      λ e. ground (arith, later)

  -- The loop ends: with more fuel than there are bytes in the buffer it never runs out of it, and
  -- what it comes to does not depend on how much more.
  pub drain_ends :
      (f g : ℕ) (buffer : Bytes)
      → length buffer < f
      → length buffer < g
      → (drain f order max buffer ≢ out_of_fuel)
        × (drain f order max buffer ≡ drain g order max buffer)
  drain_ends f g buffer h k = (drain-ne-out_of_fuel f buffer h, drain-fuel f g buffer h k)

  module _ (f a b c d : ℕ) (body : Bytes) where
    abbrev pub size : ℕ
    size = read_length order a b c d

    pub drain_wait :
        0 < size
        → size ≤ max
        → length body < size
        → drain (suc f) order max (a ∷ b ∷ c ∷ d ∷ body) ≡ drained (a ∷ b ∷ c ∷ d ∷ body) []
    unfolding drain
    drain_wait p q r = ground arith

    pub drain_cut :
        0 < size
        → size ≤ max
        → size ≤ length body
        → drain (suc f) order max (a ∷ b ∷ c ∷ d ∷ body)
          ≡ with_frame (take size body) (drain f order max (drop size body))
    unfolding drain
    drain_cut p q r = ground arith

    pub drain_step :
        (rest : Bytes) (frames : List Bytes)
        → drain (suc f) order max (a ∷ b ∷ c ∷ d ∷ body) ≡ drained rest frames
        → (0 < size)
          × (size ≤ max)
          × (((length body < size) × (rest ≡ a ∷ b ∷ c ∷ d ∷ body) × (frames ≡ []))
              ⊎ ((size ≤ length body)
                  × ((fs : List Bytes) × (drain f order max (drop size body) ≡ drained rest fs)
                      × (frames ≡ take size body ∷ fs))))
    unfolding drain
    drain_step rest frames e = elim (Bool-cases (nat_beq size 0 || ltb max size)) [
      | inl outside ↦ absurd (ground arith)
      | inr inside ↦ elim (Bool-cases (ltb (length body) size)) [
        | inl short ↦ (ground arith, ground arith, inl (ground arith, ground arith, ground arith))
        | inr long ↦ (
          ground arith,
          ground arith,
          inr (ground arith, with_frame-eq_drained _ _ rest frames (ground arith)),
        )
      ]
    ]

  -- What the loop leaves is shorter than a whole frame of the largest size.
  pub drain-short :
      (f : ℕ) (buffer rest : Bytes) (frames : List Bytes)
      → drain f order max buffer ≡ drained rest frames
      → length rest < max + 4
  unfolding drain
  drain-short zero buffer rest frames e = absurd (cc)
  drain-short (suc f) [] rest frames e = ground arith
  drain-short (suc f) (a ∷ []) rest frames e = ground arith
  drain-short (suc f) (a ∷ b ∷ []) rest frames e = ground arith
  drain-short (suc f) (a ∷ b ∷ c ∷ []) rest frames e = ground arith
  drain-short (suc f) (a ∷ b ∷ c ∷ d ∷ body) rest frames e =
      let (some_bytes, in_bounds, cases) = drain_step f a b c d body rest frames e in
      elim cases [
        | inl (short, same, none_cut) ↦ rw same (omega arith)
        | inr (long, (fs, later, first)) ↦
            drain-short f (drop (read_length order a b c d) body) rest fs later
      ]

  -- The bytes that the loop left are left again.
  pub drain-again :
      (f : ℕ) (buffer rest : Bytes) (frames : List Bytes)
      → length buffer < f
      → drain f order max buffer ≡ drained rest frames
      → drain (suc (length rest)) order max rest ≡ drained rest []
  unfolding drain
  drain-again zero buffer rest frames h e = absurd (omega arith)
  drain-again (suc f) [] rest frames h e = let same : rest ≡ [] = ground arith in rw same
  drain-again (suc f) (a ∷ []) rest frames h e = let same : rest ≡ a ∷ [] = ground arith in rw same
  drain-again (suc f) (a ∷ b ∷ []) rest frames h e =
      let same : rest ≡ a ∷ b ∷ [] = ground arith in rw same
  drain-again (suc f) (a ∷ b ∷ c ∷ []) rest frames h e =
      let same : rest ≡ a ∷ b ∷ c ∷ [] = ground arith in rw same
  drain-again (suc f) (a ∷ b ∷ c ∷ d ∷ body) rest frames h e =
      let (some_bytes, in_bounds, cases) = drain_step f a b c d body rest frames e in
      elim cases [
        | inl (short, same, none_cut) ↦ rw same (
            drain_wait (length {A = ℕ} (a ∷ b ∷ c ∷ d ∷ body)) a b c d body some_bytes in_bounds
              short)
        | inr (long, (fs, later, first)) ↦
            drain-again f (drop (read_length order a b c d) body) rest fs
              (omega (arith, length-drop-le (read_length order a b c d) body)) later
      ]
