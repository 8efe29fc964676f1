-- ===== src/NativeHost/Replay.antt =====
-- products/native-host/ipc-protocol.ts: the replay window of the local channel, and the request check
-- that consumes a nonce from it. The clock's reading is an argument; the schemas (zod) and the HMAC
-- (node:crypto) are parameters.
pub mod Window
pub mod Future
pub mod Requests
pub mod Responses
use webmcp_security_lab.Prelude.{
  ℕ, ◌+◌, ◌-◌, Bool, true, false, not, ◌||◌, Option, none, some, String, [], ltb, leb,
  if◌then◌else◌, ◌==◌, string_eq,
}
use webmcp_security_lab.Prelude.Result.{Result, ok, err, ◌>>=◌, ◌>>◌, refuse}
use webmcp_security_lab.Prelude.Dict.{Dict, has, set, discard, size}
use webmcp_security_lab.Prelude.Dates.{DateText, parse}

pub data IpcError : Type 0 where
  not_positive stale_or_future replayed at_capacity : IpcError
  bad_envelope unauthenticated bad_message inconsistent_identity : IpcError

pub record ReplayWindow : Type 0 where
  pub max_skew_ms : ℕ
  pub max_entries : ℕ
  pub seen : Dict ℕ

-- `boundedInteger` of both options.
unfoldable pub new_window : ℕ → ℕ → Result IpcError ReplayWindow
new_window max_skew_ms max_entries = do
  refuse (ltb max_skew_ms 1) not_positive
  refuse (ltb max_entries 1) not_positive
  ok (record { max_skew_ms = max_skew_ms; max_entries = max_entries; seen = [] })

-- `Math.abs(a - b)`.
abbrev pub distance : ℕ → ℕ → ℕ
distance a b = (a - b) + (b - a)

-- The condition under which `assertFresh` returns.
unfoldable pub is_fresh : Option ℕ → ℕ → ℕ → Bool
is_fresh none now max_skew_ms = false
is_fresh (some issued) now max_skew_ms = leb (distance now issued) max_skew_ms

-- `expiresAt < now`.
abbrev pub is_past : ℕ → ℕ → Bool
is_past now expires_at = ltb expires_at now

unfoldable pub consume :
    String → DateText → ℕ → ReplayWindow → ReplayWindow × Result IpcError (Unit {0})
consume nonce issued_at now w =
    let swept = record w { seen = discard (is_past now) w.seen } in
    if not (is_fresh (parse issued_at) now w.max_skew_ms)
    then (w, err stale_or_future)
    else if has nonce swept.seen
    then (swept, err replayed)
    else if leb w.max_entries (size swept.seen)
    then (swept, err at_capacity)
    else (record swept { seen = set nonce (now + w.max_skew_ms) swept.seen }, ok tt)

pub record RequestEnvelope (V : Type 0) : Type 0 where
  pub request_id : String
  pub nonce : String
  pub issued_at : DateText
  pub message : V
  pub mac : String

pub record BridgeRequest (V : Type 0) : Type 0 where
  pub request_id : String
  pub payload : V

pub record VerifiedRequest (V : Type 0) : Type 0 where
  pub envelope : RequestEnvelope V
  pub message : BridgeRequest V

module _ {V : Type 0} (parse_envelope : V → Option (RequestEnvelope V))
    (mac_matches : RequestEnvelope V → Bool) (parse_request : V → Option (BridgeRequest V)) where
  -- What follows the consumption of the nonce.
  unfoldable pub accept_message :
      RequestEnvelope V → Option (BridgeRequest V) → Result IpcError (VerifiedRequest V)
  accept_message envelope none = err bad_message
  accept_message envelope (some message) =
      if message.request_id == envelope.request_id
      then ok (record { envelope = envelope; message = message })
      else err inconsistent_identity

  unfoldable pub verify_envelope :
      RequestEnvelope V → ℕ → ReplayWindow → ReplayWindow × Result IpcError (VerifiedRequest V)
  verify_envelope envelope now w =
      let (w', outcome) = consume envelope.nonce envelope.issued_at now w in
      if not (mac_matches envelope)
      then (w, err unauthenticated)
      else (w', (do outcome; accept_message envelope (parse_request envelope.message)))

  unfoldable pub verify_request :
      V → ℕ → ReplayWindow → ReplayWindow × Result IpcError (VerifiedRequest V)
  unfolding verify_envelope accept_message
  verify_request value now w = elim (parse_envelope value) [
    | none ↦ (w, err bad_envelope)
    | some envelope ↦ verify_envelope envelope now w
  ]
