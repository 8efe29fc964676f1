-- ===== src/NativeHost/Framing/RoundTrip.antt =====
-- What the encoder writes the decoder reads back.
use webmcp_security_lab.Prelude.{
  ℕ, zero, suc, ◌≤◌, ◌<◌, ◌≡◌, refl, ap, subst, sym, ◌∙◌, ◌||◌, List, [], ◌∷◌, ◌++◌, length,
  length-append, take, drop, take-append_length, drop-append_length, arith, ltb, nat_beq,
  Bool-cases, flatten, inl, inr,
}
use webmcp_security_lab.Prelude.Result.{Result, ok, ◌>>=◌, >>=-eq-ok, ok-injective}
use webmcp_security_lab.NativeHost.Framing.{
  Bytes, ByteOrder, drained, with_frame, drain, write_length, FrameError, encode_native_message,
  Decoder, new_decoder, finish,
}
use webmcp_security_lab.NativeHost.Framing.Drain.{drain_cut}
use webmcp_security_lab.NativeHost.Framing.Chunks.{push_all, push_all_lem, read-write}

module _ (order : ByteOrder) (max : ℕ) where
  unfoldable pub encode_all : List Bytes → Result FrameError (List Bytes)
  encode_all [] = ok []
  encode_all (body ∷ bodies) = do
    frame ← encode_native_message order max body
    frames ← encode_all bodies
    ok (frame ∷ frames)

  encode-eq-ok :
      (body frame : Bytes)
      → encode_native_message order max body ≡ ok frame
      → (0 < length body) × (length body ≤ max) × (frame ≡ write_length order (length body) ++ body)
  unfolding encode_native_message
  encode-eq-ok body frame e = elim (Bool-cases (nat_beq (length body) 0 || ltb max (length body))) [
    | inl outside ↦ absurd (ground arith)
    | inr inside ↦ (ground arith, ground arith, ground arith)
  ]

  drain-frame :
      (f : ℕ) (body later rest : Bytes) (bodies : List Bytes)
      → max < 4294967296
      → 0 < length body
      → length body ≤ max
      → drain f order max later ≡ drained rest bodies
      → drain (suc f) order max ((write_length order (length body) ++ body) ++ later)
        ≡ drained rest (body ∷ bodies)
  drain-frame f body later rest bodies small some_bytes in_bounds e =
      let (a, b, c, d, header, size) = read-write order (length body) (omega arith) in
      let whole : (write_length order (length body) ++ body) ++ later
          ≡ a ∷ b ∷ c ∷ d ∷ (body ++ later) =
        ap (λ h. (h ++ body) ++ later) header in
      ap (drain (suc f) order max) whole
      ∙ drain_cut order max f a b c d (body ++ later) (subst (λ n. 0 < n) (sym size) some_bytes)
          (subst (λ n. n ≤ max) (sym size) in_bounds)
          (subst (λ n. n ≤ length (body ++ later)) (sym size)
            (omega (arith, length-append body later)))
      ∙ ap (λ n. with_frame (take n (body ++ later)) (drain f order max (drop n (body ++ later))))
          size
      ∙ ap (λ t. with_frame t (drain f order max (drop (length body) (body ++ later))))
          (take-append_length body later)
      ∙ ap (λ t. with_frame body (drain f order max t)) (drop-append_length body later)
      ∙ ap (with_frame body) e

  drain-frames :
      (f : ℕ) (bodies frames : List Bytes)
      → max < 4294967296
      → encode_all bodies ≡ ok frames
      → length (flatten frames) < f
      → drain f order max (flatten frames) ≡ drained [] bodies
  unfolding encode_all
  drain-frames zero bodies frames small e h = absurd (omega arith)
  drain-frames (suc f) [] frames small e h =
      let none : frames ≡ [] = sym (ok-injective e) in
      ap (λ fs. drain (suc f) order max (flatten fs)) none ∙ unfold drain in refl
  drain-frames (suc f) (body ∷ bodies) frames small e h =
      let (frame, encoded, rest) = >>=-eq-ok (encode_native_message order max body) _ e in
      let (later, others, same) = >>=-eq-ok (encode_all bodies) _ rest in
      let all : frames ≡ frame ∷ later = sym (ok-injective same) in
      let (some_bytes, in_bounds, shape) = encode-eq-ok body frame encoded in
      let size = ap (λ fs. length (flatten fs)) all in
      let long = ap length shape in
      ap (λ fs. drain (suc f) order max (flatten fs)) all
      ∙ ap (λ x. drain (suc f) order max (x ++ flatten later)) shape
      ∙ drain-frame f body (flatten later) [] bodies small some_bytes in_bounds (
          drain-frames f bodies later small others (
            omega (
              arith,
              length-append frame (flatten later),
              length-append (write_length order (length body)) body,
            )))

  -- Messages that the encoder accepts, sent one after the other and received in any chunks, come out
  -- of a new decoder as they were and in their order, and the stream ends between two frames. The
  -- limit fits the 32 bits of the length.
  pub push_all-encode_all :
      (bodies frames chunks : List Bytes)
      → max < 4294967296
      → encode_all bodies ≡ ok frames
      → flatten chunks ≡ flatten frames
      → (push_all chunks (new_decoder order max) ≡ (new_decoder order max, ok bodies))
        × (finish (push_all chunks (new_decoder order max)).0 ≡ (new_decoder order max, ok tt))
  unfolding new_decoder finish
  push_all-encode_all bodies frames chunks small e same =
      let start = new_decoder order max in
      let read = push_all_lem chunks start [] bodies (unfold drain in refl) (
        ap (λ bytes. drain (suc (length bytes)) order max bytes) same
        ∙ drain-frames _ bodies frames small e (omega arith)) in
      (read, ap (λ (r : Decoder × Result FrameError (List Bytes)). finish r.0) read)
