-- ===== src/Issues/Moderation.antt =====
-- products/connector/issue-moderation.ts: the states that a report goes through, from quarantine to
-- a publication or a refusal, and the reading of a stored record by replay of its history. The
-- values are typed: the tests of their own keys, words and schema versions are left out.
pub mod Reached
pub mod Replay
pub mod Rebuilt
pub mod Stored
pub mod Readable
pub mod Reading
pub mod Published
pub mod Feed
pub mod Closing
use webmcp_security_lab.Prelude.{
  ℕ, Bool, true, false, not, ◌&&◌, ◌||◌, Option, none, some, List, [], ◌∷◌, ◌++◌, map, String, ltb,
  leb, nat_beq, any, all, length, if◌then◌else◌, ◌==◌, string_eq,
}
use webmcp_security_lab.Prelude.Result.{Result, ok, err, ◌>>=◌, ◌>>◌, refuse, guard}
use webmcp_security_lab.Prelude.Dates.{
  DateText, exact, other, invalid, to_iso, parse, is_exact, is_before, date_eq,
}
use webmcp_security_lab.Prelude.Text.{is_uuid}
use webmcp_security_lab.Prelude.Url.{Url}
use webmcp_security_lab.Issues.Model.{
  ModerationState, state_eq, received, quarantined, under_review, needs_evidence, accepted_private,
  duplicate, rejected, published, IssueError, not_public_web, bad_id, bad_time,
  transition_not_allowed, moves_backward, premature_publication, hostname_mismatch, bad_site_url,
  bad_submission, no_history, history_too_long, broken_intake, broken_chain, snapshot_mismatch,
  Runtime,
}
use webmcp_security_lab.Issues.Draft.{
  IssueDraft, IssueDraftInput, Submission, SubmissionDisposition, human_review_required,
  synthetic_not_submittable, local_exercise_not_submittable, create_draft, or_empty, if_truthy,
}
use webmcp_security_lab.Issues.Publication.{
  PublicationGate, ModeratedCandidate, PublicRecord, is_public_web, is_present,
  project_public_record, project_public_feed,
}

pub record ModerationEvent : Type 0 where
  pub at : DateText
  pub from : ModerationState
  pub to : ModerationState

pub record IssueRecord : Type 0 where
  pub id : String
  pub received_at : DateText
  pub updated_at : DateText
  pub state : ModerationState
  pub draft : IssueDraft
  pub history : List ModerationEvent
  pub publication : Option PublicationGate

-- The input of a transition.
pub record Transition : Type 0 where
  pub at : DateText
  pub to : ModerationState
  pub publication : Option PublicationGate

-- `TRANSITIONS`.
unfoldable pub allowed_transitions : ModerationState → List ModerationState
allowed_transitions received = quarantined ∷ []
allowed_transitions quarantined = under_review ∷ duplicate ∷ rejected ∷ []
allowed_transitions under_review = needs_evidence ∷ accepted_private ∷ duplicate ∷ rejected ∷ []
allowed_transitions needs_evidence = under_review ∷ rejected ∷ []
allowed_transitions accepted_private = published ∷ rejected ∷ []
allowed_transitions duplicate = []
allowed_transitions rejected = []
allowed_transitions published = []

unfoldable pub is_allowed : ModerationState → ModerationState → Bool
unfolding allowed_transitions
is_allowed from to = any (λ s. s == to) (allowed_transitions from)

-- `exactIsoTime`: the instant of a text that `toISOString` writes.
unfoldable pub exact_iso_time : DateText → Result IssueError ℕ
exact_iso_time (exact t) = ok t
exact_iso_time (other s t) = err bad_time
exact_iso_time (invalid s) = err bad_time

-- `{ ...old, ...(new ? { field: new } : {}) }`.
abbrev pub or_else {ℓ} : {A : Type ℓ} → Option A → Option A → Option A
or_else none old = old
or_else (some a) old = some a

unfoldable pub same_disposition : SubmissionDisposition → SubmissionDisposition → Bool
same_disposition human_review_required human_review_required = true
same_disposition synthetic_not_submittable synthetic_not_submittable = true
same_disposition local_exercise_not_submittable local_exercise_not_submittable = true
same_disposition _ _ = false

abbrev pub same_bool : Bool → Bool → Bool
same_bool true b = b
same_bool false b = not b

abbrev pub candidate_of : IssueDraft → ModerationState → Option PublicationGate → ModeratedCandidate
candidate_of draft state publication = record {
  category = draft.input.category;
  context = draft.input.context;
  moderation_state = state;
  publication = publication;
  severity = draft.input.severity;
  stage = draft.input.stage;
}

abbrev pub event_of : ℕ → ModerationState → ModerationState → ModerationEvent
event_of at from to = record { at = to_iso at; from = from; to = to }

abbrev pub hostname_of : Option PublicRecord → Option String
hostname_of none = none
hostname_of (some projected) = projected.hostname

unfoldable pub moved : IssueRecord → ℕ → ModerationState → Option PublicationGate → IssueRecord
moved r at to publication = record r {
  updated_at = to_iso at;
  state = to;
  history = r.history ++ event_of at r.state to ∷ [];
  publication = or_else publication r.publication;
}

-- What the replay gives to `transitionIssueModeration` for an event.
unfoldable pub replay_input : Option PublicationGate → ModerationEvent → Transition
replay_input stored event = record {
  at = event.at;
  to = event.to;
  publication = if event.to == published then stored else none;
}

abbrev pub is_intake : ModerationEvent → DateText → Bool
is_intake first received_at =
    first.from == received && first.to == quarantined && first.at == received_at

unfoldable pub is_snapshot : IssueRecord → IssueRecord → Bool
is_snapshot value replayed =
    replayed.state == value.state
    && replayed.updated_at == value.updated_at
    && nat_beq (length replayed.history) (length value.history)
    && same_bool (value.state == published) (is_present value.publication)

-- The input that the replay starts from.
unfoldable pub replayed_draft : IssueDraft → IssueDraftInput
replayed_draft draft = record draft.input { site_origin = if_truthy draft.input.site_origin }

module _ (runtime : Runtime) where
  unfoldable pub create_record : String → ℕ → IssueDraftInput → Result IssueError IssueRecord
  create_record id now input = do
    draft ← create_draft runtime input
    guard (is_public_web draft.input.context) not_public_web
    guard (is_uuid id) bad_id
    ok (record {
      id = id;
      received_at = to_iso now;
      updated_at = to_iso now;
      state = quarantined;
      draft = draft;
      history = event_of now received quarantined ∷ [];
      publication = none;
    })

  unfoldable pub site_url : IssueDraft → Result IssueError Url
  site_url draft = elim (runtime.parse_url (or_empty draft.input.site_origin)) [
    | none ↦ err bad_site_url
    | some url ↦ ok url
  ]

  -- `if (projected?.hostname && new URL(siteOrigin ?? '').hostname !== projected.hostname) throw`.
  unfoldable pub check_site : IssueDraft → Option String → Result IssueError (Unit {0})
  check_site draft none = ok tt
  check_site draft (some hostname) =
      if hostname == ""
      then ok tt
      else (do url ← site_url draft; refuse (not (url.hostname == hostname)) hostname_mismatch)

  -- The publication that a transition to the given state brings.
  unfoldable pub new_publication :
      ModerationState
      → IssueDraft
      → Option PublicationGate
      → Result IssueError (Option PublicationGate)
  new_publication published draft given = do
    projected ← project_public_record runtime (candidate_of draft published given)
    check_site draft (hostname_of projected)
    ok given
  new_publication _ draft given = do refuse (is_present given) premature_publication; ok none

  unfoldable pub transition : IssueRecord → Transition → Result IssueError IssueRecord
  transition current given = do
    guard (is_allowed current.state given.to) transition_not_allowed
    at ← exact_iso_time given.at
    refuse (is_before (some at) (parse current.updated_at)) moves_backward
    publication ← new_publication given.to current.draft given.publication
    ok (moved current at given.to publication)

  unfoldable pub project_moderated_feed : List IssueRecord → Result IssueError (List PublicRecord)
  project_moderated_feed records =
      project_public_feed runtime (map (λ r. candidate_of r.draft r.state r.publication) records)

  unfoldable pub parse_stored_draft : IssueDraft → Result IssueError IssueDraft
  parse_stored_draft value = do
    canonical ← create_draft runtime value.input
    refuse
        (not (same_bool value.submission.submittable canonical.submission.submittable)
          || not (same_disposition value.submission.disposition canonical.submission.disposition))
        bad_submission
    ok (record canonical { assurance_limitation = value.assurance_limitation })

  unfoldable pub replay :
      Option PublicationGate → List ModerationEvent → IssueRecord → Result IssueError IssueRecord
  replay stored [] r = ok r
  replay stored (event ∷ events) r = do
    guard (event.from == r.state) broken_chain
    next ← transition r (replay_input stored event)
    replay stored events next

  -- The intake, then the replay of the other events.
  unfoldable pub replay_all :
      IssueRecord → List ModerationEvent → IssueRecord → Result IssueError IssueRecord
  replay_all value [] base = err broken_intake
  replay_all value (first ∷ events) base = do
    guard (is_intake first value.received_at) broken_intake
    replay value.publication events base

  unfoldable pub parse_record : IssueRecord → Result IssueError IssueRecord
  parse_record value = do
    guard (is_uuid value.id) bad_id
    received_at ← exact_iso_time value.received_at
    updated_at ← exact_iso_time value.updated_at
    draft ← parse_stored_draft value.draft
    guard (leb 1 (length value.history)) no_history
    refuse (ltb 8 (length value.history)) history_too_long
    guard (all (λ event. is_exact event.at) value.history) bad_time
    base ← create_record value.id received_at (replayed_draft draft)
    replayed ← replay_all value value.history base
    guard (is_snapshot value replayed) snapshot_mismatch
    ok (record replayed { draft = draft })
