-- ===== src/NativeHost/Framing.antt =====
-- products/native-host/native-messaging.ts (`encodeNativeMessage`, `NativeMessageDecoder`) and
-- ipc-protocol.ts (`encodeLocalGuardIpcFrame`, `LocalGuardIpcFrameDecoder`), which differ in their
-- byte order and limit. A byte is a number below 256; a JSON value is given as its UTF-8 bytes.
pub mod Drain
pub mod Resume
pub mod Chunks
pub mod RoundTrip
use webmcp_security_lab.Prelude.{
  ℕ, zero, suc, ◌+◌, ◌*◌, ◌/◌, ◌%◌, Bool, true, false, ◌||◌, List, [], ◌∷◌, ◌++◌, length, take,
  drop, ltb, leb, nat_beq, if◌then◌else◌,
}
use webmcp_security_lab.Prelude.Result.{Result, ok, err}

abbrev pub Bytes : Type 0
Bytes = List ℕ

pub data ByteOrder : Type 0 where
  big_endian little_endian : ByteOrder

pub data FrameError : Type 0 where
  bad_length buffer_overflow ended_mid_frame exceeds_boundary : FrameError

-- `getUint32(0, littleEndian)` of a header's four bytes.
unfoldable pub read_length : ByteOrder → (a b c d : ℕ) → ℕ
read_length big_endian a b c d = ((a * 256 + b) * 256 + c) * 256 + d
read_length little_endian a b c d = ((d * 256 + c) * 256 + b) * 256 + a

-- `setUint32(0, length, littleEndian)`, which keeps the length's low 32 bits.
unfoldable pub write_length : ByteOrder → ℕ → Bytes
write_length big_endian n =
    (n / 16777216 % 256) ∷ (n / 65536 % 256) ∷ (n / 256 % 256) ∷ (n % 256) ∷ []
write_length little_endian n =
    (n % 256) ∷ (n / 256 % 256) ∷ (n / 65536 % 256) ∷ (n / 16777216 % 256) ∷ []

-- `encodedJson` and the header before it.
unfoldable pub encode_native_message : ByteOrder → ℕ → Bytes → Result FrameError Bytes
encode_native_message order max_bytes body =
    if nat_beq (length body) 0 || ltb max_bytes (length body)
    then err exceeds_boundary
    else ok (write_length order (length body) ++ body)

pub record Decoder : Type 0 where
  pub byte_order : ByteOrder
  pub max_bytes : ℕ
  pub buffer : Bytes

unfoldable pub new_decoder : ByteOrder → ℕ → Decoder
new_decoder order max_bytes = record { byte_order = order; max_bytes = max_bytes; buffer = [] }

-- `LOCAL_GUARD_IPC_MAX_BYTES`.
abbrev pub ipc_max_bytes : ℕ
ipc_max_bytes = 2097152

unfoldable pub new_ipc_decoder : Decoder
unfolding new_decoder
new_ipc_decoder = new_decoder big_endian ipc_max_bytes

-- What the loop of `push` comes to: the bytes left and the frames cut off, or the throw that a
-- length outside the boundary causes. `out_of_fuel` is no outcome of the source.
pub data Drained : Type 0 where
  drained : (rest : Bytes) (frames : List Bytes) → Drained
  out_of_bounds out_of_fuel : Drained

abbrev pub with_frame : Bytes → Drained → Drained
with_frame frame (drained rest frames) = drained rest (frame ∷ frames)
with_frame frame out_of_bounds = out_of_bounds
with_frame frame out_of_fuel = out_of_fuel

-- One frame of the given length, or `break` where it has not arrived in full.
abbrev pub cut : ℕ → Bytes → Bytes → Drained → Drained
cut size buffer body later =
    if ltb (length body) size then drained buffer [] else with_frame (take size body) later

unfoldable pub drain : ℕ → ByteOrder → ℕ → Bytes → Drained
drain zero order max buffer = out_of_fuel
drain (suc fuel) order max (a ∷ b ∷ c ∷ d ∷ body) =
    let size = read_length order a b c d in
    let later = drain fuel order max (drop size body) in
    if nat_beq size 0 || ltb max size
    then out_of_bounds
    else cut size (a ∷ b ∷ c ∷ d ∷ body) body later
drain (suc fuel) order max buffer = drained buffer []

-- What `push` does with the loop's outcome.
unfoldable pub settle : Decoder → Drained → Decoder × Result FrameError (List Bytes)
settle s (drained rest frames) =
    if ltb (s.max_bytes + 4) (length rest)
    then (record s { buffer = [] }, err buffer_overflow)
    else (record s { buffer = rest }, ok frames)
settle s out_of_bounds = (record s { buffer = [] }, err bad_length)
settle s out_of_fuel = (s, ok [])

-- Each round of the loop takes four bytes or more, so the buffer's length is fuel enough.
unfoldable pub push : Bytes → Decoder → Decoder × Result FrameError (List Bytes)
unfolding settle
push [] s = (s, ok [])
push (x ∷ chunk) s =
    let buffer = s.buffer ++ x ∷ chunk in
    settle s (drain (suc (length buffer)) s.byte_order s.max_bytes buffer)

unfoldable pub finish : Decoder → Decoder × Result FrameError (Unit {0})
finish s =
    if nat_beq (length s.buffer) 0
    then (s, ok tt)
    else (record s { buffer = [] }, err ended_mid_frame)
