-- ===== src/NativeHost/Exchange.antt =====
-- products/native-host/ipc-protocol.ts: the envelopes of a request and of its response. The schemas
-- (zod), the HMAC (node:crypto) and the messages of native-messaging.ts are the fields of a Channel.
pub mod RoundTrip
mod Tests
use webmcp_security_lab.Prelude.{ℕ, Bool, Option, none, some, String}
use webmcp_security_lab.Prelude.Result.{Result, ok, err, ◌>>=◌, ◌>>◌, guard}
use webmcp_security_lab.Prelude.Dates.{to_iso}
use webmcp_security_lab.NativeHost.Replay.{RequestEnvelope, BridgeRequest, VerifiedRequest}
use webmcp_security_lab.NativeHost.Replay.Responses.{ResponseEnvelope}

-- The two ends of the channel. An envelope `fits` when its schema accepts it, and the MAC that `sign`
-- computes does not depend on the `mac` that stands in the envelope.
pub record Channel (V R : Type 0) : Type 0 where
  pub parse_request : V → Option (BridgeRequest V)
  pub request_value : BridgeRequest V → V
  pub request_fits : RequestEnvelope V → Bool
  pub sign_request : RequestEnvelope V → String
  pub request_matches : RequestEnvelope V → Bool
  pub send_request : RequestEnvelope V → V
  pub receive_request : V → Option (RequestEnvelope V)
  pub parse_response : V → (request_id : String) → Option R
  pub response_value : R → V
  pub response_fits : ResponseEnvelope V → Bool
  pub sign_response : ResponseEnvelope V → String
  pub response_matches : ResponseEnvelope V → Bool
  pub send_response : ResponseEnvelope V → V
  pub receive_response : V → Option (ResponseEnvelope V)

pub data CreationError : Type 0 where
  bad_message unfit_envelope : CreationError

abbrev pub parsed_or {ℓ} : {A : Type ℓ} → Option A → Result CreationError A
parsed_or none = err bad_message
parsed_or (some a) = ok a

module _ {V R : Type 0} (channel : Channel V R) where
  -- An envelope is signed over what it holds without its `mac`. The schema that is applied before, to
  -- the envelope without its `mac`, tests nothing that it does not test afterwards.
  unfoldable pub seal_request : RequestEnvelope V → Result CreationError (RequestEnvelope V)
  seal_request unsigned = do
    let signed = record unsigned { mac = channel.sign_request unsigned }
    guard (channel.request_fits signed) unfit_envelope
    ok signed

  unfoldable pub create_request :
      V → (nonce : String) (now : ℕ) → Result CreationError (RequestEnvelope V)
  unfolding seal_request
  create_request message nonce now = do
    parsed ← parsed_or (channel.parse_request message)
    seal_request (record {
      request_id = parsed.request_id;
      nonce = nonce;
      issued_at = to_iso now;
      message = channel.request_value parsed;
      mac = "";
    })

  unfoldable pub seal_response : ResponseEnvelope V → Result CreationError (ResponseEnvelope V)
  seal_response unsigned = do
    let signed = record unsigned { mac = channel.sign_response unsigned }
    guard (channel.response_fits signed) unfit_envelope
    ok signed

  unfoldable pub create_response :
      VerifiedRequest V → V → (now : ℕ) → Result CreationError (ResponseEnvelope V)
  unfolding seal_response
  create_response request message now = do
    parsed ← parsed_or (channel.parse_response message request.message.request_id)
    seal_response (record {
      request_id = request.message.request_id;
      request_nonce = request.envelope.nonce;
      issued_at = to_iso now;
      message = channel.response_value parsed;
      mac = "";
    })
