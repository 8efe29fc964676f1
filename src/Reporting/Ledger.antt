-- ===== src/Reporting/Ledger.antt =====
-- products/reporting-service/ledger.ts: the hash-chained events of a report's moderation, and the
-- authority that each needs. The values are typed: the tests of a stored value's own keys and schema
-- versions are left out. A `Digests` is SHA-256 of the JSON of an event, of an intake and of a
-- transition.
pub mod Kept
pub mod Links
pub mod Chain
pub mod History
pub mod Reading
pub mod Unique
mod Tests
use webmcp_security_lab.Prelude.{
  ℕ, suc, ◌+◌, Bool, true, false, ◌&&◌, ◌||◌, Option, none, some, List, [], ◌∷◌, String, leb,
  nat_beq, length, last?, option_beq, if◌then◌else◌, ◌==◌, string_eq,
}
use webmcp_security_lab.Prelude.Result.{Result, ok, err, ◌>>=◌, ◌>>◌, guard}
use webmcp_security_lab.Prelude.Dates.{DateText, is_exact, date_eq}
use webmcp_security_lab.Prelude.Text.{units, is_uuid, is_sha256, is_identifier}
use webmcp_security_lab.Issues.Model.{
  ModerationState, received, quarantined, published, state_eq, IssueError, Runtime,
}
use webmcp_security_lab.Issues.Draft.{IssueDraft, IssueDraftInput}
use webmcp_security_lab.Issues.Publication.{PublicationGate}
use webmcp_security_lab.Issues.Moderation.{
  IssueRecord, ModerationEvent, Transition, create_record, transition, parse_record,
}
use webmcp_security_lab.Issues.Review.{rethrow}
use webmcp_security_lab.Reporting.Retention.{is_name_part}

pub data LedgerRole : Type 0 where
  intake reviewer publisher system_ : LedgerRole

pub record LedgerActor : Type 0 where
  pub id : String
  pub role : LedgerRole

-- An event without its hash.
pub record LedgerBody : Type 0 where
  pub event_id : String
  pub report_id : String
  pub sequence : ℕ
  pub revision : ℕ
  pub at : DateText
  pub actor : LedgerActor
  pub request_id : String
  pub from : ModerationState
  pub to : ModerationState
  pub payload_sha256 : String
  pub previous_event_sha256 : Option String

pub record LedgerEvent : Type 0 where
  pub body : LedgerBody
  pub event_sha256 : String

pub record LedgerRecord : Type 0 where
  pub revision : ℕ
  pub moderation : IssueRecord
  pub last_event_sha256 : String

pub record Digests : Type 0 where
  pub of_event : LedgerBody → String
  pub of_intake : (report_id : String) → DateText → IssueDraft → String
  pub of_transition : ModerationState → Option PublicationGate → String

pub data LedgerError : Type 0 where
  bad_uuid bad_time bad_actor bad_event not_intake stale_revision : LedgerError
  wrong_authority bad_record bad_event_hash broken_ledger no_intake_event : LedgerError
  bad_moderation : IssueError → LedgerError

-- `Number.isSafeInteger` of a natural number.
abbrev pub is_safe : ℕ → Bool
is_safe n = leb n 9007199254740991

abbrev pub same_role : LedgerRole → LedgerRole → Bool
same_role intake intake = true
same_role reviewer reviewer = true
same_role publisher publisher = true
same_role system_ system_ = true
same_role _ _ = false

unfoldable pub actor_fits : LedgerActor → Bool
unfolding is_name_part
actor_fits value =
    leb 3 (units value.id)
    && leb (units value.id) 128
    && is_identifier (λ c. is_name_part c || nat_beq c b':') 126 value.id

abbrev pub is_previous : Option String → Bool
is_previous none = true
is_previous (some hash) = is_sha256 hash

unfoldable pub body_fits : LedgerBody → Bool
body_fits body =
    is_safe body.sequence
    && leb 1 body.sequence
    && is_safe body.revision
    && nat_beq body.revision body.sequence
    && is_sha256 body.payload_sha256
    && is_previous body.previous_event_sha256

unfoldable pub allowed_role : ModerationState → LedgerRole
allowed_role published = publisher
allowed_role _ = reviewer

unfoldable pub ledger_of : ℕ → IssueRecord → LedgerEvent → LedgerRecord × LedgerEvent
ledger_of revision moderation event = (
  record { revision = revision; moderation = moderation; last_event_sha256 = event.event_sha256 },
  event,
)

abbrev pub ends_so : LedgerRecord → Option LedgerEvent → Bool
ends_so r none = false
ends_so r (some event) =
    r.moderation.state == event.body.to && r.last_event_sha256 == event.event_sha256

-- The time of the first event of a history.
unfoldable pub first_at : List ModerationEvent → Result LedgerError DateText
first_at [] = err no_intake_event
first_at (event ∷ events) = ok event.at

unfoldable pub parse_ledger_record : Runtime → LedgerRecord → Result LedgerError LedgerRecord
parse_ledger_record runtime value = do
  guard (is_safe value.revision && leb 1 value.revision && is_sha256 value.last_event_sha256)
      bad_record
  moderation ← rethrow bad_moderation (parse_record runtime value.moderation)
  guard (nat_beq value.revision (length moderation.history)) stale_revision
  ok (record value { moderation = moderation })

module _ (digests : Digests) where
  unfoldable pub make_event : LedgerBody → Result LedgerError LedgerEvent
  make_event body = do
    guard (is_uuid body.event_id) bad_uuid
    guard (is_uuid body.report_id) bad_uuid
    guard (is_exact body.at) bad_time
    guard (actor_fits body.actor) bad_actor
    guard (is_uuid body.request_id) bad_uuid
    guard (body_fits body) bad_event
    ok (record { body = body; event_sha256 = digests.of_event body })

  unfoldable pub intake_body : LedgerActor → String → String → IssueRecord → DateText → LedgerBody
  intake_body actor request_id event_id moderation at = record {
    event_id = event_id;
    report_id = moderation.id;
    sequence = 1;
    revision = 1;
    at = at;
    actor = actor;
    request_id = request_id;
    from = received;
    to = quarantined;
    payload_sha256 = digests.of_intake moderation.id moderation.received_at moderation.draft;
    previous_event_sha256 = none;
  }

  unfoldable pub transition_body :
      LedgerActor → String → String → LedgerRecord → IssueRecord → LedgerBody
  transition_body actor request_id event_id current moved = record {
    event_id = event_id;
    report_id = moved.id;
    sequence = current.revision + 1;
    revision = current.revision + 1;
    at = moved.updated_at;
    actor = actor;
    request_id = request_id;
    from = current.moderation.state;
    to = moved.state;
    payload_sha256 = digests.of_transition moved.state moved.publication;
    previous_event_sha256 = some current.last_event_sha256;
  }

  module _ (runtime : Runtime) where
    unfoldable pub create_intake :
        IssueDraftInput
        → LedgerActor
        → (request_id event_id id : String) → ℕ
        → Result LedgerError (LedgerRecord × LedgerEvent)
    create_intake draft actor request_id event_id id now = do
      guard (actor_fits actor) bad_actor
      guard (same_role actor.role intake) not_intake
      moderation ← rethrow bad_moderation (create_record runtime id now draft)
      at ← first_at moderation.history
      event ← make_event (intake_body actor request_id event_id moderation at)
      ok (ledger_of 1 moderation event)

    unfoldable pub transition_ledger :
        LedgerRecord
        → Transition
        → LedgerActor
        → ℕ
        → (request_id event_id : String) → Result LedgerError (LedgerRecord × LedgerEvent)
    transition_ledger current given actor expected request_id event_id = do
      guard (is_safe expected && nat_beq expected current.revision) stale_revision
      guard (actor_fits actor) bad_actor
      moved ← rethrow bad_moderation (transition runtime current.moderation given)
      guard (same_role actor.role (allowed_role moved.state)) wrong_authority
      event ← make_event (transition_body actor request_id event_id current moved)
      ok (ledger_of (current.revision + 1) moved event)

  -- The payload that the event at a place of the chain must have.
  unfoldable pub expected_payload : IssueRecord → ℕ → ModerationState → String
  expected_payload r sequence to =
      if nat_beq sequence 1
      then digests.of_intake r.id r.received_at r.draft
      else digests.of_transition to (if to == published then r.publication else none)

  unfoldable pub is_link : IssueRecord → ℕ → Option String → LedgerEvent → ModerationEvent → Bool
  is_link r sequence previous event moderated =
      event.body.report_id == r.id
      && nat_beq event.body.sequence sequence
      && nat_beq event.body.revision sequence
      && option_beq event.body.previous_event_sha256 previous
      && event.body.from == moderated.from
      && event.body.to == moderated.to
      && event.body.at == moderated.at
      && event.body.payload_sha256 == expected_payload r sequence event.body.to
      && event.event_sha256 == digests.of_event event.body

  -- The loop over the events, with the history beside it.
  unfoldable pub is_chain :
      IssueRecord → ℕ → Option String → List LedgerEvent → List ModerationEvent → Bool
  is_chain r sequence previous [] history = true
  is_chain r sequence previous (event ∷ events) [] = false
  is_chain r sequence previous (event ∷ events) (moderated ∷ history) =
      is_link r sequence previous event moderated
      && is_chain r (suc sequence) (some event.event_sha256) events history

  unfoldable pub verify_chain : LedgerRecord → List LedgerEvent → Bool
  verify_chain r events =
      nat_beq (length events) r.revision
      && nat_beq (length events) (length r.moderation.history)
      && ends_so r (last? events)
      && is_chain r.moderation 1 none events r.moderation.history

  unfoldable pub parse_event : LedgerEvent → Result LedgerError LedgerEvent
  parse_event value = do
    guard (is_sha256 value.event_sha256) bad_event
    restored ← make_event value.body
    guard (restored.event_sha256 == value.event_sha256) bad_event_hash
    ok restored

  unfoldable pub parse_events : List LedgerEvent → Result LedgerError (List LedgerEvent)
  parse_events [] = ok []
  parse_events (value ∷ values) = do
    event ← parse_event value
    events ← parse_events values
    ok (event ∷ events)

  unfoldable pub parse_bundle :
      Runtime
      → LedgerRecord
      → List LedgerEvent
      → Result LedgerError (LedgerRecord × List LedgerEvent)
  parse_bundle runtime record_value event_values = do
    ledger ← parse_ledger_record runtime record_value
    events ← parse_events event_values
    guard (verify_chain ledger events) broken_ledger
    ok (ledger, events)
