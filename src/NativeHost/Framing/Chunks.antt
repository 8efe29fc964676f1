-- ===== src/NativeHost/Framing/Chunks.antt =====
-- However a stream is cut into chunks, the decoder gives the frames that were encoded.
use webmcp_security_lab.Prelude.{
  ℕ, suc, ◌<◌, ◌≡◌, ◌≢◌, refl, ap, subst, sym, ◌∙◌, List, [], ◌∷◌, ◌++◌, length, append-nil,
  append_assoc, arith, flatten,
}
use mathlib.Core.Path.{ap₂}
use webmcp_security_lab.Prelude.Result.{Result, ok, err, ok-injective}
use webmcp_security_lab.NativeHost.Framing.{
  Bytes, ByteOrder, big_endian, little_endian, Drained, drained, out_of_bounds, out_of_fuel, drain,
  read_length, write_length, FrameError, buffer_overflow, Decoder, settle, push,
}
use webmcp_security_lab.NativeHost.Framing.Drain.{drain-short, drain-again, drain-ne-out_of_fuel}
use webmcp_security_lab.NativeHost.Framing.Resume.{resume}

-- The chunks of a stream, pushed in turn; the first throw ends the reading.
abbrev with_frames :
    List Bytes → Decoder × Result FrameError (List Bytes) → Decoder × Result FrameError (List Bytes)
with_frames frames (s, ok later) = (s, ok (frames ++ later))
with_frames frames (s, err e) = (s, err e)

abbrev push_on :
    (Decoder → Decoder × Result FrameError (List Bytes))
    → Decoder × Result FrameError (List Bytes)
    → Decoder × Result FrameError (List Bytes)
push_on later (s, ok frames) = with_frames frames (later s)
push_on later (s, err e) = (s, err e)

unfoldable pub push_all : List Bytes → Decoder → Decoder × Result FrameError (List Bytes)
push_all [] s = (s, ok [])
push_all (chunk ∷ chunks) s = push_on (push_all chunks) (push chunk s)

settle_drained :
    (s : Decoder) (f : ℕ) (buffer rest : Bytes) (frames : List Bytes)
    → drain f s.byte_order s.max_bytes buffer ≡ drained rest frames
    → settle s (drained rest frames) ≡ (record s { buffer = rest }, ok frames)
unfolding settle
settle_drained s f buffer rest frames e =
    let short = drain-short s.byte_order s.max_bytes f buffer rest frames e in ground arith

-- The last test of `push`, which throws for a buffer that has grown too long, is never reached: no
-- chunk makes it throw, in any state of the decoder.
pub push-ne-overflow : (chunk : Bytes) (s : Decoder) → (push chunk s).1 ≢ err buffer_overflow
unfolding push
push-ne-overflow [] s = λ e. cc
push-ne-overflow (x ∷ chunk) s =
    go
      (drain (suc (length (s.buffer ++ x ∷ chunk))) s.byte_order s.max_bytes
        (s.buffer ++ x ∷ chunk))
      refl
  where
    go :
        (d : Drained)
        → drain
            (suc (length (s.buffer ++ x ∷ chunk)))
            s.byte_order
            s.max_bytes
            (s.buffer ++ x ∷ chunk)
          ≡ d
        → (settle s d).1 ≢ err buffer_overflow
    go (drained rest frames) e h = cc (settle_drained s _ (s.buffer ++ x ∷ chunk) rest frames e)
    go out_of_bounds e h = cc
    go out_of_fuel e h = cc

-- The bytes in the buffer hold no whole frame, as after every call of `push`.
abbrev pub IsSettled : Decoder → Type 0
IsSettled s = drain (suc (length s.buffer)) s.byte_order s.max_bytes s.buffer ≡ drained s.buffer []

push_drained :
    (x : ℕ) (chunk : Bytes) (s : Decoder) (rest : Bytes) (frames : List Bytes)
    → drain (suc (length (s.buffer ++ x ∷ chunk))) s.byte_order s.max_bytes (s.buffer ++ x ∷ chunk)
      ≡ drained rest frames
    → push (x ∷ chunk) s ≡ (record s { buffer = rest }, ok frames)
unfolding push
push_drained x chunk s rest frames e = ap (settle s) e ∙ settle_drained s _ _ rest frames e

with_no_frames : (r : Decoder × Result FrameError (List Bytes)) → with_frames [] r ≡ r
with_no_frames (s, ok later) = refl
with_no_frames (s, err e) = refl

push_all-none : (chunks : List Bytes) (s : Decoder) → push_all ([] ∷ chunks) s ≡ push_all chunks s
unfolding push_all push
push_all-none chunks s = with_no_frames (push_all chunks s)

push_all-cons :
    (chunk : Bytes) (chunks : List Bytes) (s t u : Decoder) (first second : List Bytes)
    → push chunk s ≡ (t, ok first)
    → push_all chunks t ≡ (u, ok second)
    → push_all (chunk ∷ chunks) s ≡ (u, ok (first ++ second))
unfolding push_all
push_all-cons chunk chunks s t u first second p q =
    ap (push_on (push_all chunks)) p ∙ ap (with_frames first) q

abbrev drain_all : Decoder → Bytes → Drained
drain_all s buffer = drain (suc (length buffer)) s.byte_order s.max_bytes buffer

pub push_all_lem :
    (chunks : List Bytes) (s : Decoder) (rest : Bytes) (frames : List Bytes)
    → IsSettled s
    → drain_all s (s.buffer ++ flatten chunks) ≡ drained rest frames
    → push_all chunks s ≡ (record s { buffer = rest }, ok frames)
push_all_lem [] s rest frames settled e =
    let all = sym settled ∙ ap (drain_all s) (sym (append-nil s.buffer)) ∙ e in
    unfold push_all in ground arith
push_all_lem ([] ∷ chunks) s rest frames settled e =
    push_all-none chunks s ∙ push_all_lem chunks s rest frames settled e
push_all_lem ((x ∷ chunk) ∷ chunks) s rest frames settled e =
    let buffer = s.buffer ++ x ∷ chunk in
    let e' : drain_all s (s.buffer ++ ((x ∷ chunk) ++ flatten chunks)) ≡ drained rest frames = e in
    let whole = ap (drain_all s) (append_assoc s.buffer (x ∷ chunk) (flatten chunks)) ∙ e' in
    let (b, first, second, p, q, r) =
      resume s.byte_order s.max_bytes _ buffer (flatten chunks) rest frames (omega arith) whole in
    push_all-cons (x ∷ chunk) chunks s (record s { buffer = b }) (record s { buffer = rest }) first
      second (push_drained x chunk s b first p)
      (push_all_lem chunks (record s { buffer = b }) rest second
        (drain-again s.byte_order s.max_bytes _ buffer b first (omega arith) p) q)
    ∙ ap (λ fs. (record s { buffer = rest }, ok fs)) (sym r)

settle_ok :
    (s t : Decoder) (d : Drained) (frames : List Bytes)
    → d ≢ out_of_fuel
    → settle s d ≡ (t, ok frames)
    → (d ≡ drained t.buffer frames) × (t ≡ record s { buffer = t.buffer })
unfolding settle
settle_ok s t (drained rest fs) frames fueled e = (ground arith, ground arith)
settle_ok s t out_of_bounds frames fueled e = absurd (cc)
settle_ok s t out_of_fuel frames fueled e = absurd (fueled refl)

push_ok :
    (bytes : Bytes) (s t : Decoder) (frames : List Bytes)
    → IsSettled s
    → push bytes s ≡ (t, ok frames)
    → (drain_all s (s.buffer ++ bytes) ≡ drained t.buffer frames)
      × (t ≡ record s { buffer = t.buffer })
unfolding push
push_ok [] s t frames settled e =
    let same : s ≡ t = ap (λ r. r.0) e in
    let none_cut : ◌≡◌ {A = List Bytes} [] frames = ok-injective (ap (λ r. r.1) e) in
    (
      ap (drain_all s) (append-nil s.buffer)
          ∙ settled
          ∙ ap₂ drained (ap (λ (d : Decoder). d.buffer) same) none_cut,
      sym same ∙ ap (λ (b : Bytes). record s { buffer = b }) (ap (λ (d : Decoder). d.buffer) same),
    )
push_ok (x ∷ chunk) s t frames settled e =
    settle_ok s t _ frames
      (drain-ne-out_of_fuel s.byte_order s.max_bytes _ (s.buffer ++ x ∷ chunk) (omega arith)) e

-- If one chunk with all the bytes is accepted, so is every way to cut the bytes into chunks, empty
-- ones included, with the same frames in the same order and the same state at the end. The decoder
-- starts in a state whose buffer holds no whole frame.
pub push_all-flatten :
    (chunks : List Bytes) (s t : Decoder) (frames : List Bytes)
    → IsSettled s
    → push (flatten chunks) s ≡ (t, ok frames)
    → push_all chunks s ≡ (t, ok frames)
push_all-flatten chunks s t frames settled e =
    let (all, same) = push_ok (flatten chunks) s t frames settled e in
    push_all_lem chunks s t.buffer frames settled all
    ∙ ap (λ (d : Decoder). (d, ok frames)) (sym same)

-- The decoder's state between two calls of `push` holds no whole frame.
pub push-IsSettled :
    (bytes : Bytes) (s t : Decoder) (frames : List Bytes)
    → IsSettled s
    → push bytes s ≡ (t, ok frames)
    → IsSettled t
push-IsSettled bytes s t frames settled e =
    let (all, same) = push_ok bytes s t frames settled e in
    subst IsSettled (sym same)
      (drain-again s.byte_order s.max_bytes _ (s.buffer ++ bytes) t.buffer frames (omega arith) all)

pub read-write :
    (order : ByteOrder) (n : ℕ)
    → n < 4294967296
    → (a : ℕ) × (b : ℕ) × (c : ℕ) × (d : ℕ) × (write_length order n ≡ a ∷ b ∷ c ∷ d ∷ [])
      × (read_length order a b c d ≡ n)
unfolding write_length read_length
read-write big_endian n h = (_, _, _, _, refl, omega arith)
read-write little_endian n h = (_, _, _, _, refl, omega arith)
