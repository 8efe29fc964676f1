-- ===== src/Reporting/Tests.antt =====
-- Concrete retentions and corrections: tests of the definitions, and the theorems at inputs that
-- meet their hypotheses.
use webmcp_security_lab.Prelude.{
  ℕ, ◌+◌, ◌*◌, ◌≤◌, ◌≡◌, ◌↔◌, refl, true, false, none, String, [], ◌∷◌,
}
use webmcp_security_lab.Prelude.Result.{ok, err}
use webmcp_security_lab.Prelude.Dates.{exact}
use webmcp_security_lab.Prelude.Text.{units, is_uuid, is_sha256, is_identifier, after_prefix}
use webmcp_security_lab.Reporting.Correction.{
  CorrectionBody, PublicCorrection, withdraw, consent_withdrawn, create_correction,
  parse_correction,
}
use webmcp_security_lab.Reporting.Correction.Reading.{
  IsCorrection, created_of, parse_correction_iff,
}
use webmcp_security_lab.Reporting.Retention.{
  RetentionState, RetentionEvent, EventBody, LegalHoldInput, policy_assigned, hold_body, custodian,
  system, already_held_so, custodian_required, exact_time, policy_version_of, actor_of, make_event,
  state_from_event, create_retention, parse_retention_state, transition_legal_hold,
  parse_retention_event,
}
use webmcp_security_lab.Reporting.Retention.Chain.{hold_history, IsChain, hold_history-IsChain}
use webmcp_security_lab.Reporting.Retention.Reading.{transition-parse}
use webmcp_security_lab.Reporting.Retention.Deadline.{deadline_kept}

-- A digest with the shape of SHA-256's.
abbrev digits : String
digits = "0123456789abcdef0123456789abcdef0123456789abcdef0123456789abcdef"

abbrev one_hash : EventBody → String
one_hash body = digits

abbrev id : String
id = "00000000-0000-4000-8000-000000000001"

abbrev first_state : RetentionState
first_state = record {
  report_id = id;
  revision = 1;
  updated_at = exact 1000;
  legal_hold = false;
  retain_until = exact 2592001000;
  policy_version = "retention.standard";
  last_event_sha256 = digits;
}

abbrev holds : LegalHoldInput
holds = record {
  actor = record { id = "records.custodian"; role = custodian };
  at = exact 2000;
  event_id = id;
  held = true;
  request_id = id;
}

abbrev first_event : RetentionEvent
first_event = record {
  body = record {
    event_id = id;
    report_id = id;
    revision = 1;
    at = exact 1000;
    actor = record { id = "system.retention-policy"; role = system };
    request_id = id;
    action = policy_assigned;
    legal_hold = false;
    retain_until = exact 2592001000;
    policy_version = "retention.standard";
    previous_event_sha256 = none;
  };
  event_sha256 = digits;
}

abbrev hold_event : RetentionEvent
hold_event = record { body = hold_body first_state holds; event_sha256 = digits }

abbrev held_state : RetentionState
held_state = record first_state { revision = 2; updated_at = exact 2000; legal_hold = true }

created :
    create_retention one_hash id id (exact 1000) 30 "retention.standard" id
    ≡ ok (first_state, first_event)
unfolding create_retention exact_time make_event is_uuid actor_of units is_identifier
    policy_version_of after_prefix state_from_event
created = refl

held : transition_legal_hold one_hash first_state holds ≡ ok (held_state, hold_event)
unfolding transition_legal_hold parse_retention_state is_sha256 is_uuid exact_time policy_version_of
    after_prefix is_identifier make_event actor_of state_from_event
held = refl

cleared_again :
    transition_legal_hold one_hash first_state (record holds { held = false }) ≡ err already_held_so
unfolding transition_legal_hold parse_retention_state is_sha256 is_uuid exact_time policy_version_of
    after_prefix is_identifier
cleared_again = refl

by_the_system :
    transition_legal_hold one_hash first_state
      (record holds { actor = record { id = "records.custodian"; role = system } })
    ≡ err custodian_required
unfolding transition_legal_hold parse_retention_state is_sha256 is_uuid exact_time policy_version_of
    after_prefix is_identifier
by_the_system = refl

one_hold : hold_history one_hash first_state (holds ∷ []) ≡ ok (held_state, hold_event ∷ [])
unfolding hold_history
one_hold = rw held refl

hold_history-IsChain_example : IsChain one_hash first_state (hold_event ∷ []) held_state
hold_history-IsChain_example =
    hold_history-IsChain one_hash first_state held_state (holds ∷ []) (hold_event ∷ []) one_hold

transition-parse_example :
    (parse_retention_event one_hash hold_event ≡ ok hold_event)
    × (parse_retention_state held_state ≡ ok held_state)
unfolding is_sha256
transition-parse_example =
    transition-parse one_hash first_state held_state holds hold_event (λ body. refl) held

deadline_kept_example :
    (n : ℕ) × (exact 1000 ≡ exact n)
    × (held_state.retain_until ≡ exact (n + 30 * 86400000))
    × (1 ≤ 30)
    × (30 ≤ 3650)
deadline_kept_example =
    deadline_kept one_hash id id "retention.standard" id (exact 1000) 30 first_state held_state
      first_event (holds ∷ []) (hold_event ∷ []) created one_hold

abbrev digest_of : CorrectionBody → String
digest_of body = digits

abbrev withdrawal : PublicCorrection
withdrawal = record {
  body = record {
    correction_id = id;
    public_id = id;
    corrected_at = exact 5000;
    action = withdraw;
    reason = consent_withdrawn;
    publication_record_sha256 = digits;
  };
  correction_sha256 = digits;
}

withdrawn :
    create_correction digest_of id id (exact 5000) withdraw consent_withdrawn digits ≡ ok withdrawal
unfolding create_correction is_uuid is_sha256
withdrawn = refl

parse_correction_iff_example :
    ((parse_correction digest_of withdrawal ≡ ok withdrawal)
      ↔ ((withdrawal ≡ withdrawal) × IsCorrection digest_of withdrawal))
    × (((created_of digest_of withdrawal ≡ ok withdrawal)
          × (is_sha256 withdrawal.correction_sha256 ≡ true))
        ↔ IsCorrection digest_of withdrawal)
parse_correction_iff_example = parse_correction_iff digest_of withdrawal withdrawal

withdrawal_read : parse_correction digest_of withdrawal ≡ ok withdrawal
unfolding parse_correction is_uuid is_sha256
withdrawal_read = refl
