-- ===== src/NativeHost/Tests.antt =====
-- Concrete streams and windows: tests of the definitions, and the theorems at inputs that meet their
-- hypotheses.
use webmcp_security_lab.Prelude.{
  ◌≡◌, ◌≢◌, ◌↔◌, refl, Bool, Option, some, String, List, [], ◌∷◌, flatten, arith, ◌==◌, string_eq,
}
use webmcp_security_lab.Prelude.Result.{ok}
use webmcp_security_lab.Prelude.Dict.{has, discard}
use webmcp_security_lab.Prelude.Dates.{exact}
use webmcp_security_lab.NativeHost.Framing.{
  Bytes, Decoder, little_endian, big_endian, out_of_fuel, encode_native_message, new_decoder, push,
  finish, drain, read_length, write_length,
}
use webmcp_security_lab.NativeHost.Framing.Chunks.{push_all}
use webmcp_security_lab.NativeHost.Framing.Drain.{drain_ends}
use webmcp_security_lab.NativeHost.Framing.RoundTrip.{encode_all, push_all-encode_all}
use webmcp_security_lab.NativeHost.Replay.{
  ReplayWindow, RequestEnvelope, BridgeRequest, VerifiedRequest, is_fresh, consume, verify_request,
}
use webmcp_security_lab.NativeHost.Replay.Responses.{
  ResponseEnvelope, VerifiedResponse, verify_response, AnswersRequest, verify_response_iff,
}
use webmcp_security_lab.NativeHost.Replay.Window.{Arrival, run, replay_refused}
use webmcp_security_lab.NativeHost.Replay.Future.{empty_window, accepted_twice}
use webmcp_security_lab.NativeHost.Replay.Requests.{IsAccepted, verify_request_sound}

-- Two messages, of two bytes and of one.
abbrev bodies : List Bytes
bodies = (123 ∷ 125 ∷ []) ∷ (49 ∷ []) ∷ []

abbrev frames : List Bytes
frames = (2 ∷ 0 ∷ 0 ∷ 0 ∷ 123 ∷ 125 ∷ []) ∷ (1 ∷ 0 ∷ 0 ∷ 0 ∷ 49 ∷ []) ∷ []

-- Their bytes, cut inside a header and inside a body.
abbrev chunks : List Bytes
chunks = (2 ∷ 0 ∷ []) ∷ [] ∷ (0 ∷ 0 ∷ 123 ∷ []) ∷ (125 ∷ 1 ∷ 0 ∷ 0 ∷ 0 ∷ 49 ∷ []) ∷ []

abbrev host : Decoder
host = record { byte_order = little_endian; max_bytes = 64; buffer = [] }

encoded : encode_all little_endian 64 bodies ≡ ok frames
unfolding encode_all encode_native_message write_length
encoded = refl

push_all-encode_all_example :
    (push_all chunks (new_decoder little_endian 64) ≡ (new_decoder little_endian 64, ok bodies))
    × (finish (push_all chunks (new_decoder little_endian 64)).0
        ≡ (new_decoder little_endian 64, ok tt))
push_all-encode_all_example =
    push_all-encode_all little_endian 64 bodies frames chunks (omega arith) encoded refl

pushed : push (flatten chunks) host ≡ (host, ok bodies)
unfolding push drain read_length
pushed = refl

half_pushed :
    push (2 ∷ 0 ∷ 0 ∷ 0 ∷ 9 ∷ []) host ≡ (record host { buffer = 2 ∷ 0 ∷ 0 ∷ 0 ∷ 9 ∷ [] }, ok [])
unfolding push drain read_length
half_pushed = refl

abbrev window : ReplayWindow
window = record { max_skew_ms = 30; max_entries = 2; seen = [] }

accepted : (consume "n" (exact 90) 100 window).1 ≡ ok tt
unfolding consume is_fresh has discard
accepted = refl

abbrev between : List Arrival
between = record { nonce = "m"; issued_at = exact 101; now = 105 } ∷ []

replay_refused_example :
    (consume "n" (exact 90) 110 (run (consume "n" (exact 90) 100 window).0 between)).1 ≢ ok tt
replay_refused_example =
    replay_refused "n" (exact 90) 90 100 110 between window accepted refl (omega arith)
      (omega arith, tt)

accepted_twice_example :
    ((consume "n" (exact 120) 100 (empty_window 30 2)).1 ≡ ok tt)
    × ((consume "n" (exact 120) 140 (consume "n" (exact 120) 100 (empty_window 30 2)).0).1 ≡ ok tt)
accepted_twice_example =
    accepted_twice "n" 120 100 140 30 2 (omega arith) (omega arith) (omega arith) (omega arith)
      (omega arith)

-- Values are envelopes already, and every message is a request of its own identity.
abbrev envelope : RequestEnvelope String
envelope = record {
  request_id = "r";
  nonce = "n";
  issued_at = exact 100;
  message = "hello";
  mac = "good";
}

abbrev read_envelope : String → Option (RequestEnvelope String)
read_envelope text = some envelope

abbrev genuine : RequestEnvelope String → Bool
genuine e = e.mac == "good"

abbrev never_genuine : RequestEnvelope String → Bool
never_genuine e = e.mac == "better"

abbrev read_request : String → Option (BridgeRequest String)
read_request text = some (record { request_id = "r"; payload = text })

abbrev verified : VerifiedRequest String
verified = record { envelope = envelope; message = record { request_id = "r"; payload = "hello" } }

request_accepted :
    (verify_request read_envelope genuine read_request "bytes" 100 window).1 ≡ ok verified
unfolding verify_request consume is_fresh has discard
request_accepted = refl

verify_request_sound_example :
    IsAccepted read_envelope genuine read_request "bytes" 100 window verified
verify_request_sound_example =
    verify_request_sound read_envelope genuine read_request "bytes" 100 window verified
      request_accepted

abbrev response : ResponseEnvelope String
response = record {
  request_id = "r";
  request_nonce = "n";
  issued_at = exact 110;
  message = "done";
  mac = "good";
}

abbrev read_response : String → Option (ResponseEnvelope String)
read_response text = some response

abbrev genuine_response : ResponseEnvelope String → Bool
genuine_response e = e.mac == "good"

abbrev read_answer : String → String → Option String
read_answer text request_id = some text

abbrev answered : VerifiedResponse String String
answered = record { envelope = response; message = "done" }

verify_response_iff_example :
    (verify_response read_response genuine_response read_answer "bytes" envelope 120 30
      ≡ ok answered)
    ↔ AnswersRequest read_response genuine_response read_answer "bytes" envelope 120 30 answered
verify_response_iff_example =
    verify_response_iff read_response genuine_response read_answer "bytes" envelope 120 30 answered

response_accepted :
    verify_response read_response genuine_response read_answer "bytes" envelope 120 30 ≡ ok answered
unfolding verify_response is_fresh
response_accepted = refl

drain_ends_example :
    (drain 9 big_endian 5 (0 ∷ 0 ∷ 0 ∷ 1 ∷ 7 ∷ []) ≢ out_of_fuel)
    × (drain 9 big_endian 5 (0 ∷ 0 ∷ 0 ∷ 1 ∷ 7 ∷ [])
        ≡ drain 6 big_endian 5 (0 ∷ 0 ∷ 0 ∷ 1 ∷ 7 ∷ []))
drain_ends_example =
    drain_ends big_endian 5 9 6 (0 ∷ 0 ∷ 0 ∷ 1 ∷ 7 ∷ []) (omega arith) (omega arith)
