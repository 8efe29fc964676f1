-- ===== src/Connector/Challenges/RoundTrip.antt =====
-- What a challenge that is consumed says of the one that was issued.
use webmcp_security_lab.Prelude.{
  ℕ, ◌+◌, ◌<◌, ◌≡◌, refl, ap, ◌∙◌, inl, inr, true, false, Option, none, some, String, arith, eq_iff,
  eq_refl, Bool-cases,
}
use webmcp_security_lab.Prelude.Result.{ok, Result-cases}
use webmcp_security_lab.Prelude.Dict.{get, get-set_self, get-delete_self, get-discard_keep}
use webmcp_security_lab.Prelude.Url.{UrlParser}
use webmcp_security_lab.Connector.Challenges.{
  ChallengeBinding, StoredChallenge, Manager, IssuedChallenge, prune, is_token, is_expired,
  match_stored, same_binding, issue, consume, normalized_binding,
}
use webmcp_security_lab.Connector.Challenges.Outcomes.{
  issue_cases, issue_stored, consume_malformed, consume_taken,
}

same_binding_refl : (b : ChallengeBinding) → same_binding b b ≡ true
unfolding same_binding
same_binding_refl b = ground (
  arith,
  eq_refl b.extension_origin,
  eq_refl b.origin,
  eq_refl b.page_url,
  eq_refl b.client_label,
)

same_binding-eq : (b c : ChallengeBinding) → same_binding b c ≡ true → b ≡ c
unfolding same_binding
same_binding-eq b c h = ground (
  arith,
  eq_iff b.extension_origin c.extension_origin,
  eq_iff b.origin c.origin,
  eq_iff b.page_url c.page_url,
  eq_iff b.client_label c.client_label,
)

module _ (parse_url : UrlParser) (digest : String → String) where
  match_stored_sound :
      (later : ℕ) (stored : Option StoredChallenge) (input b : ChallengeBinding)
      → match_stored parse_url digest later stored input ≡ ok b
      → (c : StoredChallenge) × (stored ≡ some c)
        × (later < c.expires_at_ms)
        × (normalized_binding parse_url input ≡ ok b)
        × (c.binding ≡ b)
  unfolding match_stored
  match_stored_sound later none input b h = absurd (cc)
  match_stored_sound later (some c) input b h =
      elim (Result-cases (normalized_binding parse_url input)) [
        | inl (e, failed) ↦ absurd (ground arith)
        | inr (d, valid) ↦ elim (Bool-cases (same_binding c.binding d)) [
          | inl same ↦
              let e : d ≡ b = ground arith in
              (c, refl, ground arith, valid ∙ ap ok e, same_binding-eq c.binding d same ∙ e)
          | inr different ↦ absurd (ground arith)
        ]
      ]

  -- A consumption that succeeds found, among the challenges that the sweep left, one under the
  -- token's digest, not expired at the second reading, whose binding is the normalized form of the
  -- caller's; that binding is returned, and the challenge is gone.
  pub consume_sound :
      (now later : ℕ) (token : String) (input b : ChallengeBinding) (m : Manager)
      → (consume parse_url digest now later token input m).1 ≡ ok b
      → ((c : StoredChallenge) × (get (digest token) (prune now m).challenges ≡ some c)
          × (later < c.expires_at_ms)
          × (normalized_binding parse_url input ≡ ok b)
          × (c.binding ≡ b))
        × (get (digest token) (consume parse_url digest now later token input m).0.challenges
            ≡ none)
  consume_sound now later token input b m h = elim (Bool-cases (is_token token)) [
    | inl good ↦
        let e = consume_taken parse_url digest now later token input m good in
        (
          match_stored_sound later _ input b (rw e at h),
          rw e (get-delete_self (digest token) (prune now m).challenges),
        )
    | inr bad ↦ absurd (cc (consume_malformed parse_url digest now later token input m bad))
  ]

  -- A stored challenge that is not out of time matches the input that it was made from.
  match_stored_fresh :
      (later expires : ℕ) (input b : ChallengeBinding)
      → normalized_binding parse_url input ≡ ok b
      → later < expires
      → match_stored parse_url digest later
          (some (record { binding = b; expires_at_ms = expires }))
          input
        ≡ ok b
  unfolding match_stored
  match_stored_fresh later expires input b valid early =
      let fresh : is_expired later (record { binding = b; expires_at_ms = expires }) ≡ false =
        ground arith in
      rw (fresh, valid) (rw (same_binding_refl b))

  consume_fresh :
      (now later expires : ℕ) (token : String) (input b : ChallengeBinding) (m : Manager)
      → is_token token ≡ true
      → get (digest token) m.challenges ≡ some (record { binding = b; expires_at_ms = expires })
      → now < expires
      → later < expires
      → normalized_binding parse_url input ≡ ok b
      → (consume parse_url digest now later token input m).1 ≡ ok b
  unfolding prune
  consume_fresh now later expires token input b m good found early early' valid =
      let c : StoredChallenge = record { binding = b; expires_at_ms = expires } in
      let kept =
        get-discard_keep (is_expired now) (digest token) m.challenges c found (ground arith) in
      rw (consume_taken parse_url digest now later token input m good)
        (rw kept (match_stored_fresh later expires input b valid early'))

  -- A challenge that was issued is consumed by the same tab with its token, as long as no reading of
  -- the clock reaches its expiry: the normalized binding comes back.
  pub consume-issue :
      (now later now' later' : ℕ) (token : String) (input : ChallengeBinding) (m : Manager)
      (i : IssuedChallenge)
      → (issue parse_url digest now later token input m).1 ≡ ok i
      → now' < later + m.ttl_ms
      → later' < later + m.ttl_ms
      → (consume parse_url digest now' later' i.token input
          (issue parse_url digest now later token input m).0).1
        ≡ normalized_binding parse_url input
  consume-issue now later now' later' token input m i h early early' =
      elim (issue_cases parse_url digest now later token input m) [
        | inl (e, threw) ↦ absurd (cc)
        | inr (b, valid, good) ↦
            let stored = issue_stored parse_url digest now later token input m b valid good in
            let same : i.token ≡ token = ground arith in
            rw (same, stored, valid)
              (consume_fresh now' later' (later + m.ttl_ms) token input b _ good
                (get-set_self (digest token)
                  (record { binding = b; expires_at_ms = later + m.ttl_ms })
                  (prune now m).challenges)
                early early' valid)
      ]
