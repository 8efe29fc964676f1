-- ===== src/NativeHost/Replay/Requests.antt =====
-- A request is authenticated before it can touch the window, and accepted once.
use webmcp_security_lab.Prelude.{
  ℕ, ◌≡◌, ap, sym, ◌∙◌, Bool, true, false, Option, none, some, arith, Bool-cases, Option-cases, inl,
  inr, eq_iff, string_eq,
}
use webmcp_security_lab.Prelude.Result.{ok, err, ◌>>◌, >>=-eq-ok}
use webmcp_security_lab.NativeHost.Replay.{
  IpcError, ReplayWindow, RequestEnvelope, BridgeRequest, VerifiedRequest, unauthenticated,
  bad_envelope, consume, accept_message, verify_envelope, verify_request,
}

module _ {V : Type 0} (parse_envelope : V → Option (RequestEnvelope V))
    (mac_matches : RequestEnvelope V → Bool) (parse_request : V → Option (BridgeRequest V)) where
  -- What an accepted request guarantees.
  pub record IsAccepted (value : V) (now : ℕ) (w : ReplayWindow) (r : VerifiedRequest V)
      : Type 0 where
    pub envelope_parsed : parse_envelope value ≡ some r.envelope
    pub authenticated : mac_matches r.envelope ≡ true
    pub nonce_consumed : (consume r.envelope.nonce r.envelope.issued_at now w).1 ≡ ok tt
    pub window_left :
        (verify_request parse_envelope mac_matches parse_request value now w).0
        ≡ (consume r.envelope.nonce r.envelope.issued_at now w).0
    pub message_parsed : parse_request r.envelope.message ≡ some r.message
    pub same_request : r.message.request_id ≡ r.envelope.request_id

  accept_message_sound :
      (e : RequestEnvelope V) (o : Option (BridgeRequest V)) (r : VerifiedRequest V)
      → accept_message parse_envelope mac_matches parse_request e o ≡ ok r
      → (r.envelope ≡ e) × (o ≡ some r.message) × (r.message.request_id ≡ r.envelope.request_id)
  unfolding accept_message
  accept_message_sound e none r h = absurd (cc)
  accept_message_sound e (some m) r h =
      (ground arith, ground arith, ground (arith, eq_iff m.request_id e.request_id))

  -- Whatever bytes come, a request without a matching MAC is refused and leaves the window as it was,
  -- so that it cannot use up a nonce or the window's capacity.
  pub unauthenticated_unchanged :
      (value : V) (e : RequestEnvelope V) (now : ℕ) (w : ReplayWindow)
      → parse_envelope value ≡ some e
      → mac_matches e ≡ false
      → verify_request parse_envelope mac_matches parse_request value now w
        ≡ (w, err unauthenticated)
  unfolding verify_request verify_envelope
  unauthenticated_unchanged value e now w parsed forged = rw (parsed, forged, verify_request)

  without_envelope :
      (value : V) (now : ℕ) (w : ReplayWindow)
      → parse_envelope value ≡ none
      → verify_request parse_envelope mac_matches parse_request value now w ≡ (w, err bad_envelope)
  unfolding verify_request
  without_envelope value now w missing = rw (missing, verify_request)

  pub authenticated_consumes :
      (value : V) (e : RequestEnvelope V) (now : ℕ) (w : ReplayWindow)
      → parse_envelope value ≡ some e
      → mac_matches e ≡ true
      → verify_request parse_envelope mac_matches parse_request value now w ≡ (
        (consume e.nonce e.issued_at now w).0,
        (do
          (consume e.nonce e.issued_at now w).1
          accept_message parse_envelope mac_matches parse_request e (parse_request e.message)),
      )
  unfolding verify_request verify_envelope
  authenticated_consumes value e now w parsed authentic = rw (parsed, authentic, verify_request)

  -- A request that is accepted was well formed and authentic, its nonce was consumed from the window,
  -- and its message is valid and bears the envelope's identity.
  pub verify_request_sound :
      (value : V) (now : ℕ) (w : ReplayWindow) (r : VerifiedRequest V)
      → (verify_request parse_envelope mac_matches parse_request value now w).1 ≡ ok r
      → IsAccepted value now w r
  verify_request_sound value now w r h = elim (Option-cases (parse_envelope value)) [
    | inl missing ↦ absurd (refusal (ap (λ p. p.1) (without_envelope value now w missing)))
    | inr (e, parsed) ↦ elim (Bool-cases (mac_matches e)) [
      | inl authentic ↦
          let step = authenticated_consumes value e now w parsed authentic in
          let (mid, consumed, accepted) =
            >>=-eq-ok (consume e.nonce e.issued_at now w).1
              (λ u.
                accept_message parse_envelope mac_matches parse_request e (parse_request e.message))
              (sym (ap (λ p. p.1) step) ∙ h) in
          let (same, valid, identity) =
            accept_message_sound e (parse_request e.message) r accepted in
          record {
            envelope_parsed = parsed ∙ ap some (sym same);
            authenticated = ap mac_matches same ∙ authentic;
            nonce_consumed = ap (λ x. (consume x.nonce x.issued_at now w).1) same ∙ consumed;
            window_left =
                ap (λ p. p.0) step ∙ ap (λ x. (consume x.nonce x.issued_at now w).0) (sym same);
            message_parsed = ap (λ x. parse_request x.message) same ∙ valid;
            same_request = identity;
          }
      | inr forged ↦
          absurd (refusal (ap (λ p. p.1) (unauthenticated_unchanged value e now w parsed forged)))
    ]
  ]
    where
      refusal :
          {code : IpcError}
          → (verify_request parse_envelope mac_matches parse_request value now w).1 ≡ err code
          → ⊥
      refusal refused = cc
