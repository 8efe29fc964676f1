-- ===== src/NativeHost/Exchange/Tests.antt =====
-- A channel whose messages are words: the theorem at one request.
use webmcp_security_lab.Prelude.{
  ◌≡◌, refl, sym, subst, Bool, true, false, Option, none, some, String, [], arith, eq_refl, ◌==◌,
  string_eq,
}
use webmcp_security_lab.Prelude.Result.{ok}
use webmcp_security_lab.Prelude.Dict.{has, discard}
use webmcp_security_lab.Prelude.Dates.{DateText, exact, to_iso}
use webmcp_security_lab.NativeHost.Replay.{
  RequestEnvelope, BridgeRequest, ReplayWindow, consume, is_fresh,
}
use webmcp_security_lab.NativeHost.Replay.Responses.{ResponseEnvelope}
use webmcp_security_lab.NativeHost.Exchange.{
  Channel, seal_request, create_request, seal_response, create_response,
}
use webmcp_security_lab.NativeHost.Exchange.RoundTrip.{
  IsChannel, host_accepts, requester_accepts, answered_request,
}

data Wire : Type 0 where
  words : String → Wire
  asked answered : (id nonce : String) (at : DateText) (message mac : String) → Wire

abbrev is_words : Wire → Bool
is_words (words s) = true
is_words _ = false

abbrev read_request : Wire → Option (BridgeRequest Wire)
read_request (words s) = some (record { request_id = "r"; payload = words s })
read_request _ = none

abbrev read_response : Wire → String → Option String
read_response (words s) id = some s
read_response _ id = none

abbrev pack_request : Wire → RequestEnvelope Wire → Wire
pack_request (words s) e = asked e.request_id e.nonce e.issued_at s e.mac
pack_request other e = other

abbrev unpack_request : Wire → Option (RequestEnvelope Wire)
unpack_request (asked id nonce at s mac) =
    some (record { request_id = id; nonce = nonce; issued_at = at; message = words s; mac = mac })
unpack_request _ = none

abbrev pack_response : Wire → ResponseEnvelope Wire → Wire
pack_response (words s) e = answered e.request_id e.request_nonce e.issued_at s e.mac
pack_response other e = other

abbrev unpack_response : Wire → Option (ResponseEnvelope Wire)
unpack_response (answered id nonce at s mac) = some (record {
  request_id = id;
  request_nonce = nonce;
  issued_at = at;
  message = words s;
  mac = mac;
})
unpack_response _ = none

abbrev channel : Channel Wire String
channel = record {
  parse_request = read_request;
  request_value = λ m. m.payload;
  request_fits = λ e. is_words e.message;
  sign_request = λ e. e.nonce;
  request_matches = λ e. e.mac == e.nonce;
  send_request = λ e. pack_request e.message e;
  receive_request = unpack_request;
  parse_response = read_response;
  response_value = words;
  response_fits = λ e. is_words e.message;
  sign_response = λ e. e.request_nonce;
  response_matches = λ e. e.mac == e.request_nonce;
  send_response = λ e. pack_response e.message e;
  receive_response = unpack_response;
}

request_unpacked :
    (v : Wire) (e : RequestEnvelope Wire)
    → e.message ≡ v
    → is_words v ≡ true
    → unpack_request (pack_request v e) ≡ some e
request_unpacked (words s) e same h =
    let back = sym same in λ i. some (record e { message = back i })
request_unpacked (asked id nonce at s mac) e same h = absurd (cc)
request_unpacked (answered id nonce at s mac) e same h = absurd (cc)

response_unpacked :
    (v : Wire) (e : ResponseEnvelope Wire)
    → e.message ≡ v
    → is_words v ≡ true
    → unpack_response (pack_response v e) ≡ some e
response_unpacked (words s) e same h =
    let back = sym same in λ i. some (record e { message = back i })
response_unpacked (asked id nonce at s mac) e same h = absurd (cc)
response_unpacked (answered id nonce at s mac) e same h = absurd (cc)

request_read_again :
    (v : Wire) (m : BridgeRequest Wire) → read_request v ≡ some m → read_request m.payload ≡ some m
request_read_again (words s) m h =
    let same : ◌≡◌ {A = BridgeRequest Wire} (record { request_id = "r"; payload = words s }) m =
      cc in
    subst (λ x. read_request x.payload ≡ some x) same refl
request_read_again (asked id nonce at s mac) m h = absurd (cc)
request_read_again (answered id nonce at s mac) m h = absurd (cc)

channel-IsChannel : IsChannel channel
channel-IsChannel = record {
  request_received = λ e. request_unpacked e.message e refl;
  response_received = λ e. response_unpacked e.message e refl;
  request_signed = λ e. eq_refl e.nonce;
  response_signed = λ e. eq_refl e.request_nonce;
  request_again = request_read_again;
  response_again = λ v id r h. refl;
}

abbrev hello : BridgeRequest Wire
hello = record { request_id = "r"; payload = words "hello" }

abbrev request : RequestEnvelope Wire
request = record {
  request_id = "r";
  nonce = "n";
  issued_at = exact 100;
  message = words "hello";
  mac = "n";
}

abbrev answer : ResponseEnvelope Wire
answer = record {
  request_id = "r";
  request_nonce = "n";
  issued_at = exact 120;
  message = words "done";
  mac = "n";
}

abbrev window : ReplayWindow
window = record { max_skew_ms = 30; max_entries = 2; seen = [] }

request_made : create_request channel (words "hello") "n" 100 ≡ ok request
unfolding create_request seal_request
request_made = refl

nonce_taken : (consume "n" (to_iso 100) 110 window).1 ≡ ok tt
unfolding consume is_fresh has discard
nonce_taken = refl

answer_made :
    create_response channel (record { envelope = request; message = hello }) (words "done") 120
    ≡ ok answer
unfolding create_response seal_response
answer_made = refl

answered_request_example :
    (r : String) × (read_response (words "done") "r" ≡ some r)
    × ((host_accepts channel (pack_request request.message request) 110 window).1
        ≡ ok (record { envelope = request; message = hello }))
    × (requester_accepts channel (pack_response answer.message answer) request 125 30
        ≡ ok (record { envelope = answer; message = r }))
answered_request_example =
    answered_request channel (words "hello") (words "done") "n" 100 110 120 125 30 window hello
      request answer channel-IsChannel refl request_made nonce_taken answer_made (omega arith)
      (omega arith) (omega arith)
