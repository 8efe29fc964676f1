-- ===== src/Connector/Challenges/Outcomes.antt =====
-- The ways in which `issue` and `consume` can end.
use webmcp_security_lab.Prelude.{ℕ, ◌+◌, ◌≡◌, ◌⊎◌, inl, inr, true, false, String, Bool-cases}
use webmcp_security_lab.Prelude.Result.{ok, err, Result-cases}
use webmcp_security_lab.Prelude.Dict.{get, set, delete}
use webmcp_security_lab.Prelude.Dates.{to_iso}
use webmcp_security_lab.Prelude.Url.{UrlParser}
use webmcp_security_lab.Connector.Challenges.{
  ChallengeBinding, ChallengeError, StoredChallenge, Manager, invalid_or_expired, prune, is_token,
  match_stored, issue, consume, normalized_binding,
}

-- The manager once a challenge is stored.
abbrev pub stored_under : String → StoredChallenge → Manager → Manager
stored_under key challenge m = record m { challenges = set key challenge m.challenges }

abbrev pub taken_from : String → Manager → Manager
taken_from key m = record m { challenges = delete key m.challenges }

module _ (parse_url : UrlParser) (digest : String → String) where
  module _ (now later : ℕ) (generated : String) (input : ChallengeBinding) (m : Manager) where
    issue_invalid :
        (e : ChallengeError)
        → normalized_binding parse_url input ≡ err e
        → issue parse_url digest now later generated input m ≡ (prune now m, err e)
    unfolding issue
    issue_invalid e h = rw (h, issue)

    issue_bad_token :
        (b : ChallengeBinding)
        → normalized_binding parse_url input ≡ ok b
        → is_token generated ≡ false
        → issue parse_url digest now later generated input m
          ≡ (prune now m, err ChallengeError.bad_token)
    unfolding issue
    issue_bad_token b h bad = rw (h, bad, issue)

    pub issue_stored :
        (b : ChallengeBinding)
        → normalized_binding parse_url input ≡ ok b
        → is_token generated ≡ true
        → issue parse_url digest now later generated input m ≡ (
          stored_under
              (digest generated)
              (record { binding = b; expires_at_ms = later + m.ttl_ms })
              (prune now m),
          ok (record { token = generated; expires_at = to_iso (later + m.ttl_ms) }),
        )
    unfolding issue
    issue_stored b h good = rw (h, good, issue)

    -- Either it threw, and the manager was only swept, or the challenge is stored.
    pub issue_cases :
        ((e : ChallengeError) × (issue parse_url digest now later generated input m
            ≡ (prune now m, err e)))
        ⊎ ((b : ChallengeBinding) × (normalized_binding parse_url input ≡ ok b)
            × (is_token generated ≡ true))
    issue_cases = elim (Result-cases (normalized_binding parse_url input)) [
      | inl (e, failed) ↦ inl (e, issue_invalid e failed)
      | inr (b, valid) ↦ elim (Bool-cases (is_token generated)) [
        | inl good ↦ inr (b, valid, good)
        | inr bad ↦ inl (ChallengeError.bad_token, issue_bad_token b valid bad)
      ]
    ]

  module _ (now later : ℕ) (token : String) (input : ChallengeBinding) (m : Manager) where
    pub consume_malformed :
        is_token token ≡ false
        → consume parse_url digest now later token input m ≡ (prune now m, err invalid_or_expired)
    unfolding consume
    consume_malformed bad = rw bad

    pub consume_taken :
        is_token token ≡ true
        → consume parse_url digest now later token input m ≡ (
          taken_from (digest token) (prune now m),
          match_stored parse_url digest later (get (digest token) (prune now m).challenges) input,
        )
    unfolding consume
    consume_taken good = rw good
