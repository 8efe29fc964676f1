-- ===== src/Reporting/Retention.antt =====
-- products/reporting-service/retention-core.ts: the retention of a report, its legal hold, and the
-- hash-chained events of both. The values are typed: the tests of a stored value's own keys and of
-- its schema version are left out. `hash` is SHA-256 of the event's JSON.
pub mod Chain
pub mod Reading
pub mod Deadline
use webmcp_security_lab.Prelude.{
  ℕ, suc, ◌+◌, ◌*◌, Bool, true, false, not, ◌&&◌, ◌||◌, Option, none, some, String, ltb, leb,
  nat_beq, if◌then◌else◌, ◌==◌, string_eq,
}
use webmcp_security_lab.Prelude.Result.{Result, ok, err, ◌>>=◌, ◌>>◌, refuse, guard}
use webmcp_security_lab.Prelude.Dates.{DateText, exact, other, invalid, to_iso, is_exact}
use webmcp_security_lab.Prelude.Text.{
  units, is_lower_alnum, is_uuid, is_sha256, is_identifier, after_prefix,
}

pub data RetentionAction : Type 0 where
  policy_assigned legal_hold_set legal_hold_cleared : RetentionAction

pub data ActorRole : Type 0 where
  custodian system : ActorRole

pub record RetentionActor : Type 0 where
  pub id : String
  pub role : ActorRole

-- An event without its hash.
pub record EventBody : Type 0 where
  pub event_id : String
  pub report_id : String
  pub revision : ℕ
  pub at : DateText
  pub actor : RetentionActor
  pub request_id : String
  pub action : RetentionAction
  pub legal_hold : Bool
  pub retain_until : DateText
  pub policy_version : String
  pub previous_event_sha256 : Option String

pub record RetentionEvent : Type 0 where
  pub body : EventBody
  pub event_sha256 : String

pub record RetentionState : Type 0 where
  pub report_id : String
  pub revision : ℕ
  pub updated_at : DateText
  pub legal_hold : Bool
  pub retain_until : DateText
  pub policy_version : String
  pub last_event_sha256 : String

pub data RetentionError : Type 0 where
  bad_uuid bad_time bad_policy bad_actor bad_event bad_days : RetentionError
  custodian_required already_held_so moves_backward bad_state bad_event_hash : RetentionError

pub uuid : String → Result RetentionError String
uuid value = if is_uuid value then ok value else err bad_uuid

-- `exactTime`: the instant of a text that `toISOString` writes.
unfoldable pub exact_time : DateText → Result RetentionError ℕ
exact_time (exact t) = ok t
exact_time (other s t) = err bad_time
exact_time (invalid s) = err bad_time

-- `[a-z0-9._-]`, and with a colon for an actor.
unfoldable pub is_name_part : ℕ → Bool
is_name_part c = is_lower_alnum c || nat_beq c b'.' || nat_beq c b'_' || nat_beq c b'-'

unfoldable pub policy_version_of : String → Result RetentionError String
unfolding is_name_part
policy_version_of value =
    if leb (units value) 64 && after_prefix "retention." (is_identifier is_name_part 62) value
    then ok value
    else err bad_policy

unfoldable pub actor_of : RetentionActor → Result RetentionError RetentionActor
unfolding is_name_part
actor_of value =
    if leb 3 (units value.id)
      && leb (units value.id) 128
      && is_identifier (λ c. is_name_part c || nat_beq c b':') 126 value.id
    then ok value
    else err bad_actor

abbrev is_previous : Option String → Bool
is_previous none = true
is_previous (some hash) = is_sha256 hash

unfoldable pub state_from_event : RetentionEvent → RetentionState
state_from_event event = record {
  report_id = event.body.report_id;
  revision = event.body.revision;
  updated_at = event.body.at;
  legal_hold = event.body.legal_hold;
  retain_until = event.body.retain_until;
  policy_version = event.body.policy_version;
  last_event_sha256 = event.event_sha256;
}

unfoldable pub parse_retention_state : RetentionState → Result RetentionError RetentionState
unfolding uuid
parse_retention_state candidate = do
  refuse
      (ltb 9007199254740991 candidate.revision
        || ltb candidate.revision 1
        || not (is_sha256 candidate.last_event_sha256))
      bad_state
  report_id ← uuid candidate.report_id
  updated_at ← exact_time candidate.updated_at
  retain_until ← exact_time candidate.retain_until
  policy_version ← policy_version_of candidate.policy_version
  ok candidate

abbrev pub is_custodian : ActorRole → Bool
is_custodian custodian = true
is_custodian system = false

abbrev pub same_hold : Bool → Bool → Bool
same_hold true held = held
same_hold false held = not held

abbrev hold_action : Bool → RetentionAction
hold_action true = legal_hold_set
hold_action false = legal_hold_cleared

pub record LegalHoldInput : Type 0 where
  pub actor : RetentionActor
  pub at : DateText
  pub event_id : String
  pub held : Bool
  pub request_id : String

abbrev pub hold_body : RetentionState → LegalHoldInput → EventBody
hold_body parsed input = record {
  event_id = input.event_id;
  report_id = parsed.report_id;
  revision = suc parsed.revision;
  at = input.at;
  actor = input.actor;
  request_id = input.request_id;
  action = hold_action input.held;
  legal_hold = input.held;
  retain_until = parsed.retain_until;
  policy_version = parsed.policy_version;
  previous_event_sha256 = some parsed.last_event_sha256;
}

module _ (hash : EventBody → String) where
  unfoldable pub make_event : EventBody → Result RetentionError RetentionEvent
  unfolding uuid
  make_event input = do
    event_id ← uuid input.event_id
    report_id ← uuid input.report_id
    at ← exact_time input.at
    actor ← actor_of input.actor
    request_id ← uuid input.request_id
    retain_until ← exact_time input.retain_until
    policy_version ← policy_version_of input.policy_version
    refuse
        (ltb 9007199254740991 input.revision
          || ltb input.revision 1
          || not (is_previous input.previous_event_sha256))
        bad_event
    ok (record { body = input; event_sha256 = hash input })

  unfoldable pub create_retention :
      (event_id report_id : String) (received_at : DateText) (retention_days : ℕ)
      (policy_version request_id : String)
      → Result RetentionError (RetentionState × RetentionEvent)
  create_retention event_id report_id received_at retention_days policy_version request_id = do
    received ← exact_time received_at
    refuse (ltb retention_days 1 || ltb 3650 retention_days) bad_days
    event ← make_event (record {
      event_id = event_id;
      report_id = report_id;
      revision = 1;
      at = received_at;
      actor = record { id = "system.retention-policy"; role = system };
      request_id = request_id;
      action = policy_assigned;
      legal_hold = false;
      retain_until = to_iso (received + retention_days * 86400000);
      policy_version = policy_version;
      previous_event_sha256 = none;
    })
    ok (state_from_event event, event)

  -- What `transitionReportingLegalHold` does with the state that it has parsed.
  unfoldable pub change_hold :
      RetentionState → LegalHoldInput → Result RetentionError (RetentionState × RetentionEvent)
  change_hold parsed input = do
    guard (is_custodian input.actor.role) custodian_required
    refuse (same_hold input.held parsed.legal_hold) already_held_so
    at ← exact_time input.at
    updated ← exact_time parsed.updated_at
    refuse (ltb at updated) moves_backward
    event ← make_event (hold_body parsed input)
    ok (state_from_event event, event)

  unfoldable pub transition_legal_hold :
      RetentionState → LegalHoldInput → Result RetentionError (RetentionState × RetentionEvent)
  unfolding change_hold
  transition_legal_hold current input = do
    parsed ← parse_retention_state current
    change_hold parsed input

  unfoldable pub parse_retention_event : RetentionEvent → Result RetentionError RetentionEvent
  unfolding make_event
  parse_retention_event candidate = do
    guard (is_sha256 candidate.event_sha256) bad_event
    parsed ← make_event candidate.body
    guard (parsed.event_sha256 == candidate.event_sha256) bad_event_hash
    ok parsed
