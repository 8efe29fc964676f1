-- ===== src/NativeHost/Exchange/RoundTrip.antt =====
-- ipc-protocol.ts: a request and its response, from one end of the channel to the other.
use webmcp_security_lab.Prelude.{
  ℕ, ◌+◌, ◌≤◌, ◌≡◌, refl, sym, ap, ◌∙◌, true, Option, none, some, String, eq_refl, ◌==◌, string_eq,
}
use webmcp_security_lab.Prelude.Result.{Result, ok, guard_passed, >>=-eq-ok, ok-injective}
use webmcp_security_lab.Prelude.Dates.{parse, to_iso}
use webmcp_security_lab.NativeHost.Replay.{
  IpcError, RequestEnvelope, BridgeRequest, VerifiedRequest, ReplayWindow, consume, accept_message,
  verify_request,
}
use webmcp_security_lab.NativeHost.Replay.Requests.{authenticated_consumes}
use webmcp_security_lab.NativeHost.Replay.Responses.{
  ResponseError, ResponseEnvelope, VerifiedResponse, verify_response, verify_response_iff,
}
use webmcp_security_lab.NativeHost.Exchange.{
  Channel, unfit_envelope, parsed_or, seal_request, create_request, seal_response, create_response,
}

parsed_or-eq-ok : {A : Type 0} (o : Option A) (a : A) → parsed_or o ≡ ok a → o ≡ some a
parsed_or-eq-ok none a h = absurd (cc)
parsed_or-eq-ok (some b) a h = ap some (ok-injective h)

module _ {V R : Type 0} (channel : Channel V R) where
  abbrev unsigned_request : BridgeRequest V → String → ℕ → RequestEnvelope V
  unsigned_request m nonce now = record {
    request_id = m.request_id;
    nonce = nonce;
    issued_at = to_iso now;
    message = channel.request_value m;
    mac = "";
  }

  abbrev unsigned_response : VerifiedRequest V → R → ℕ → ResponseEnvelope V
  unsigned_response v r now = record {
    request_id = v.message.request_id;
    request_nonce = v.envelope.nonce;
    issued_at = to_iso now;
    message = channel.response_value r;
    mac = "";
  }

  create_request_lem :
      (message : V) (nonce : String) (now : ℕ) (m : BridgeRequest V) (e : RequestEnvelope V)
      → channel.parse_request message ≡ some m
      → create_request channel message nonce now ≡ ok e
      → (channel.request_fits e ≡ true)
        × (e ≡ record (unsigned_request m nonce now) {
          mac = channel.sign_request (unsigned_request m nonce now);
        })
  unfolding create_request seal_request
  create_request_lem message nonce now m e parsed h =
      let (p, found, h1) = >>=-eq-ok (parsed_or (channel.parse_request message)) _ h in
      let same : p ≡ m = cc (parsed_or-eq-ok (channel.parse_request message) p found, parsed) in
      let (fits, h2) = guard_passed (channel.request_fits _) unfit_envelope h1 in
      let shape = sym (ok-injective h2) in
      (
        ap channel.request_fits shape ∙ fits,
        shape
            ∙ ap
                (λ x. record (unsigned_request x nonce now) {
                  mac = channel.sign_request (unsigned_request x nonce now);
                })
                same,
      )

  create_response_lem :
      (v : VerifiedRequest V) (reply : V) (now : ℕ) (answer : ResponseEnvelope V)
      → create_response channel v reply now ≡ ok answer
      → (r : R) × (channel.parse_response reply v.message.request_id ≡ some r)
        × (channel.response_fits answer ≡ true)
        × (answer ≡ record (unsigned_response v r now) {
          mac = channel.sign_response (unsigned_response v r now);
        })
  unfolding create_response seal_response
  create_response_lem v reply now answer h =
      let (r, found, h1) =
        >>=-eq-ok (parsed_or (channel.parse_response reply v.message.request_id)) _ h in
      let (fits, h2) = guard_passed (channel.response_fits _) unfit_envelope h1 in
      let shape = sym (ok-injective h2) in
      (
        r,
        parsed_or-eq-ok (channel.parse_response reply v.message.request_id) r found,
        ap channel.response_fits shape ∙ fits,
        shape,
      )

  -- What the two ends do with what they receive.
  abbrev pub host_accepts :
      V → ℕ → ReplayWindow → ReplayWindow × Result IpcError (VerifiedRequest V)
  host_accepts =
      verify_request channel.receive_request channel.request_matches channel.parse_request

  abbrev pub requester_accepts :
      V → RequestEnvelope V → ℕ → ℕ → Result ResponseError (VerifiedResponse V R)
  requester_accepts =
      verify_response channel.receive_response channel.response_matches channel.parse_response

  accepted_request :
      (e : RequestEnvelope V) (m : BridgeRequest V) (now : ℕ) (w : ReplayWindow)
      → channel.receive_request (channel.send_request e) ≡ some e
      → channel.request_matches e ≡ true
      → (consume e.nonce e.issued_at now w).1 ≡ ok tt
      → channel.parse_request e.message ≡ some m
      → (m.request_id == e.request_id) ≡ true
      → (host_accepts (channel.send_request e) now w).1 ≡ ok (record { envelope = e; message = m })
  unfolding accept_message
  accepted_request e m now w received authentic consumed parsed same =
      ap (λ r. r.1)
        (authenticated_consumes channel.receive_request channel.request_matches
          channel.parse_request (channel.send_request e) e now w received authentic)
      ∙ rw (consumed, parsed, same) refl

  -- What one end writes and signs the other reads and finds authentic, and a message that was read
  -- and written is read again.
  pub record IsChannel : Type 0 where
    pub request_received :
        (e : RequestEnvelope V)
        → channel.request_fits e ≡ true
        → channel.receive_request (channel.send_request e) ≡ some e
    pub response_received :
        (e : ResponseEnvelope V)
        → channel.response_fits e ≡ true
        → channel.receive_response (channel.send_response e) ≡ some e
    pub request_signed :
        (e : RequestEnvelope V)
        → channel.request_matches (record e { mac = channel.sign_request e }) ≡ true
    pub response_signed :
        (e : ResponseEnvelope V)
        → channel.response_matches (record e { mac = channel.sign_response e }) ≡ true
    pub request_again :
        (v : V) (m : BridgeRequest V)
        → channel.parse_request v ≡ some m
        → channel.parse_request (channel.request_value m) ≡ some m
    pub response_again :
        (v : V) (id : String) (r : R)
        → channel.parse_response v id ≡ some r
        → channel.parse_response (channel.response_value r) id ≡ some r

  -- A request that is made is accepted by the host, where its window takes the nonce at that time; and
  -- what the host answers the requester accepts as the answer to this request, where it comes within
  -- the skew of its own clock. The message that it gets is the one that the host's reply stands for.
  -- Of the channel it is supposed that what is sent is received, that a MAC that was computed matches,
  -- and that a message that was read is read again.
  pub answered_request :
      (message reply : V) (nonce : String) (t0 t1 t2 t3 max_skew_ms : ℕ) (w : ReplayWindow)
      (m : BridgeRequest V) (e : RequestEnvelope V) (answer : ResponseEnvelope V)
      → IsChannel
      → channel.parse_request message ≡ some m
      → create_request channel message nonce t0 ≡ ok e
      → (consume nonce (to_iso t0) t1 w).1 ≡ ok tt
      → create_response channel (record { envelope = e; message = m }) reply t2 ≡ ok answer
      → 1 ≤ max_skew_ms
      → t2 ≤ t3 + max_skew_ms
      → t3 ≤ t2 + max_skew_ms
      → (r : R) × (channel.parse_response reply m.request_id ≡ some r)
        × ((host_accepts (channel.send_request e) t1 w).1
            ≡ ok (record { envelope = e; message = m }))
        × (requester_accepts (channel.send_response answer) e t3 max_skew_ms
            ≡ ok (record { envelope = answer; message = r }))
  answered_request message reply nonce t0 t1 t2 t3 max_skew_ms w m e answer sound parsed made taken
        replied skew early ahead =
      let v : VerifiedRequest V = record { envelope = e; message = m } in
      let (fits, shape) = create_request_lem message nonce t0 m e parsed made in
      let (r, meant, fits', shape') = create_response_lem v reply t2 answer replied in
      let signed = unsigned_request m nonce t0 in
      let signed' = unsigned_response v r t2 in
      let id : e.request_id ≡ m.request_id = ap (λ (x : RequestEnvelope V). x.request_id) shape in
      (
        r,
        meant,
        accepted_request e m t1 w (sound.request_received e fits)
            (ap channel.request_matches shape ∙ sound.request_signed signed)
            (ap (λ (x : RequestEnvelope V). (consume x.nonce x.issued_at t1 w).1) shape ∙ taken)
            (ap (λ (x : RequestEnvelope V). channel.parse_request x.message) shape
              ∙ sound.request_again message m parsed)
            (ap (λ s. m.request_id == s) id ∙ eq_refl m.request_id),
        (verify_response_iff channel.receive_response channel.response_matches
              channel.parse_response (channel.send_response answer) e t3 max_skew_ms
              (record { envelope = answer; message = r })).1
            (record {
              envelope_parsed = sound.response_received answer fits';
              authentic = ap channel.response_matches shape' ∙ sound.response_signed signed';
              positive_skew = skew;
              timely = record {
                at = t2;
                dated = ap (λ (x : ResponseEnvelope V). parse x.issued_at) shape';
                not_early = ahead;
                not_ahead = early;
              };
              same_request = ap (λ (x : ResponseEnvelope V). x.request_id) shape' ∙ sym id;
              same_nonce = ap (λ (x : ResponseEnvelope V). x.request_nonce) shape';
              message_parsed =
                  ap (λ (x : ResponseEnvelope V). channel.parse_response x.message e.request_id)
                    shape'
                  ∙ ap (channel.parse_response (channel.response_value r)) id
                  ∙ sound.response_again reply m.request_id r meant;
            }),
      )
