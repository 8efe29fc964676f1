-- ===== src/NativeHost/Replay/Responses.antt =====
-- ipc-protocol.ts, `verifyLocalGuardIpcResponse`: the host takes a response for its own request only.
use webmcp_security_lab.Prelude.{
  ℕ, ◌+◌, ◌≤◌, ◌≡◌, ◌↔◌, refl, ap, subst, Bool, true, false, not, ◌||◌, Option, none, some, String,
  arith, ltb, eq_iff, ◌==◌, string_eq,
}
use webmcp_security_lab.Prelude.Result.{
  Result, ok, err, ◌>>=◌, ◌>>◌, refuse, guard, refuse_passed, guard_passed, >>=-eq-ok, ok-injective,
}
use webmcp_security_lab.Prelude.Dates.{DateText, parse}
use webmcp_security_lab.NativeHost.Replay.{RequestEnvelope, is_fresh}

pub data ResponseError : Type 0 where
  bad_envelope unauthenticated bad_skew stale_or_future other_request bad_message : ResponseError

pub record ResponseEnvelope (V : Type 0) : Type 0 where
  pub request_id : String
  pub request_nonce : String
  pub issued_at : DateText
  pub message : V
  pub mac : String

pub record VerifiedResponse (V R : Type 0) : Type 0 where
  pub envelope : ResponseEnvelope V
  pub message : R

abbrev or_error {ℓ} : {A : Type ℓ} → ResponseError → Option A → Result ResponseError A
or_error e none = err e
or_error e (some a) = ok a

-- A date that can be read, and lies no further than the skew from the clock, before it or after.
pub record IsTimely (date : DateText) (now max_skew_ms : ℕ) : Type 0 where
  pub at : ℕ
  pub dated : parse date ≡ some at
  pub not_early : now ≤ at + max_skew_ms
  pub not_ahead : at ≤ now + max_skew_ms

is_fresh-IsTimely :
    (date : DateText) (now max_skew_ms : ℕ)
    → is_fresh (parse date) now max_skew_ms ≡ true
    → IsTimely date now max_skew_ms
unfolding is_fresh
is_fresh-IsTimely date now max_skew_ms h = dated (parse date) refl h
  where
    dated :
        (o : Option ℕ)
        → parse date ≡ o
        → is_fresh o now max_skew_ms ≡ true
        → IsTimely date now max_skew_ms
    dated none e k = absurd (cc)
    dated (some t) e k = record {
      at = t;
      dated = e;
      not_early = ground (arith, k);
      not_ahead = ground (arith, k);
    }

IsTimely-is_fresh :
    (date : DateText) (now max_skew_ms : ℕ)
    → IsTimely date now max_skew_ms
    → is_fresh (parse date) now max_skew_ms ≡ true
unfolding is_fresh
IsTimely-is_fresh date now max_skew_ms h = rw h.dated (ground (arith, h.not_early, h.not_ahead))

module _ {V R : Type 0} (parse_envelope : V → Option (ResponseEnvelope V))
    (mac_matches : ResponseEnvelope V → Bool)
    (parse_response : V → (request_id : String) → Option R) where
  unfoldable pub verify_response :
      V → RequestEnvelope V → (now max_skew_ms : ℕ) → Result ResponseError (VerifiedResponse V R)
  verify_response value request now max_skew_ms = do
    envelope ← or_error bad_envelope (parse_envelope value)
    guard (mac_matches envelope) unauthenticated
    refuse (ltb max_skew_ms 1) bad_skew
    guard (is_fresh (parse envelope.issued_at) now max_skew_ms) stale_or_future
    refuse
        (not (envelope.request_id == request.request_id)
          || not (envelope.request_nonce == request.nonce))
        other_request
    message ← or_error bad_message (parse_response envelope.message request.request_id)
    ok (record { envelope = envelope; message = message })

  -- What an accepted response guarantees.
  pub record AnswersRequest (value : V) (request : RequestEnvelope V) (now max_skew_ms : ℕ)
      (r : VerifiedResponse V R) : Type 0 where
    pub envelope_parsed : parse_envelope value ≡ some r.envelope
    pub authentic : mac_matches r.envelope ≡ true
    pub positive_skew : 1 ≤ max_skew_ms
    pub timely : IsTimely r.envelope.issued_at now max_skew_ms
    pub same_request : r.envelope.request_id ≡ request.request_id
    pub same_nonce : r.envelope.request_nonce ≡ request.nonce
    pub message_parsed : parse_response r.envelope.message request.request_id ≡ some r.message

  or_error-eq-ok {ℓ} :
      {A : Type ℓ} (e : ResponseError) (o : Option A) (a : A) → or_error e o ≡ ok a → o ≡ some a
  or_error-eq-ok e none a h = absurd (cc)
  or_error-eq-ok e (some b) a h = ap some (ok-injective h)

  -- A response is accepted exactly when it is well formed and authentic, the skew is positive, its
  -- date can be read and is at most the skew before the clock and at most the skew ahead of it, it
  -- bears the identity and the nonce of the request, and its message is a response to that request.
  pub verify_response_iff :
      (value : V) (request : RequestEnvelope V) (now max_skew_ms : ℕ) (r : VerifiedResponse V R)
      → (verify_response value request now max_skew_ms ≡ ok r)
        ↔ AnswersRequest value request now max_skew_ms r
  unfolding verify_response
  verify_response_iff value request now max_skew_ms r = (
    (λ h.
        let (envelope, e, h1) = >>=-eq-ok (or_error bad_envelope (parse_envelope value)) _ h in
        let (authentic, h2) = guard_passed (mac_matches envelope) unauthenticated h1 in
        let (positive, h3) = refuse_passed (ltb max_skew_ms 1) bad_skew h2 in
        let (fresh, h4) = guard_passed _ stale_or_future h3 in
        let (own, h5) = refuse_passed _ other_request h4 in
        let (message, m, h6) =
          >>=-eq-ok (or_error bad_message (parse_response envelope.message request.request_id)) _
            h5 in
        answers envelope message (or_error-eq-ok bad_envelope (parse_envelope value) envelope e)
          authentic positive fresh own (or_error-eq-ok bad_message _ message m) (ok-injective h6)),
    (λ a. accepted a),
  )
    where
      answers :
          (envelope : ResponseEnvelope V) (message : R)
          → parse_envelope value ≡ some envelope
          → mac_matches envelope ≡ true
          → ltb max_skew_ms 1 ≡ false
          → is_fresh (parse envelope.issued_at) now max_skew_ms ≡ true
          → (not (envelope.request_id == request.request_id)
              || not (envelope.request_nonce == request.nonce))
            ≡ false
          → parse_response envelope.message request.request_id ≡ some message
          → ◌≡◌ {A = VerifiedResponse V R} (record { envelope = envelope; message = message }) r
          → AnswersRequest value request now max_skew_ms r
      answers envelope message e authentic positive fresh own m same =
          subst (AnswersRequest value request now max_skew_ms) same (record {
            envelope_parsed = e;
            authentic = authentic;
            positive_skew = ground (arith, positive);
            timely = is_fresh-IsTimely envelope.issued_at now max_skew_ms fresh;
            same_request = (eq_iff envelope.request_id request.request_id).0 (ground arith);
            same_nonce = (eq_iff envelope.request_nonce request.nonce).0 (ground arith);
            message_parsed = m;
          })

      accepted :
          AnswersRequest value request now max_skew_ms r
          → verify_response value request now max_skew_ms ≡ ok r
      accepted a =
          let own : (r.envelope.request_id == request.request_id) ≡ true =
            (eq_iff r.envelope.request_id request.request_id).1 a.same_request in
          let nonce : (r.envelope.request_nonce == request.nonce) ≡ true =
            (eq_iff r.envelope.request_nonce request.nonce).1 a.same_nonce in
          let positive : ltb max_skew_ms 1 ≡ false = ground (arith, a.positive_skew) in
          let fresh = IsTimely-is_fresh r.envelope.issued_at now max_skew_ms a.timely in
          rw (a.envelope_parsed, a.authentic, positive, fresh, own, nonce, a.message_parsed)
