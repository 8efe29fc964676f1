-- ===== src/Operator/Actions.antt =====
-- products/reporting-operator/reviewer-access.ts, `ReviewerActionManager`: the one-use tokens by which
-- a reviewer's page views a report, turns to a page of reports and moves a report. A call takes the
-- readings of the clock and of the generator that it makes. SHA-256 is a parameter, and so is the
-- writing of a text that was read as base64url.
pub mod Issued
pub mod Authority
use webmcp_security_lab.Prelude.{
  ℕ, suc, ◌+◌, Bool, true, false, not, ◌&&◌, ◌||◌, Option, none, some, String, List, [], ◌∷◌, any,
  filter, ltb, leb, if◌then◌else◌, ◌==◌, string_eq,
}
use webmcp_security_lab.Prelude.Result.{Result, ok, err, ◌>>=◌, ◌>>◌, refuse, guard}
use webmcp_security_lab.Prelude.Dict.{Dict, get, set, delete, discard, evict}
use webmcp_security_lab.Prelude.Text.{units, trim, every, is_base64url, is_uuid, is_sha256}
use webmcp_security_lab.Issues.Model.{
  ModerationState, received, quarantined, under_review, needs_evidence, accepted_private, duplicate,
  rejected, published,
}
use webmcp_security_lab.Issues.Moderation.{allowed_transitions}

pub data ActionError : Type 0 where
  bad_ttl bad_token bad_scope bad_report bad_cursor bad_source invalid_action : ActionError

pub data ActionKind : Type 0 where
  viewing paging transitioning : ActionKind

pub data ReviewerAction : Type 0 where
  view : (report_id : String) → ReviewerAction
  page : (cursor : String) → ReviewerAction
  transition : (report_id : String) (expected_revision : ℕ) (to : ModerationState) → ReviewerAction

abbrev pub kind_of : ReviewerAction → ActionKind
kind_of (view report_id) = viewing
kind_of (page cursor) = paging
kind_of (transition report_id expected_revision to) = transitioning

abbrev pub same_kind : ActionKind → ActionKind → Bool
same_kind viewing viewing = true
same_kind paging paging = true
same_kind transitioning transitioning = true
same_kind _ _ = false

pub record StoredAction : Type 0 where
  pub action : ReviewerAction
  pub expires_at_ms : ℕ
  pub scope : String

pub record ActionManager : Type 0 where
  pub ttl_ms : ℕ
  pub actions : Dict StoredAction

-- What one `issue` reads: the clock, twice, and the generator.
pub record Reading : Type 0 where
  pub now : ℕ
  pub later : ℕ
  pub secret : String

pub record TransitionSource : Type 0 where
  pub scope : String
  pub report_id : String
  pub expected_revision : ℕ
  pub state : ModerationState

pub record IssuedTransition : Type 0 where
  pub to : ModerationState
  pub token : String

unfoldable pub new_action_manager : ℕ → Result ActionError ActionManager
new_action_manager ttl_ms = do
  refuse (ltb ttl_ms 1000 || ltb 600000 ttl_ms) bad_ttl
  ok (record { ttl_ms = ttl_ms; actions = [] })

-- `boundedToken`.
unfoldable pub is_bounded_token : String → Bool
is_bounded_token value = leb 20 (units value) && leb (units value) 128 && value == trim value

-- `REVIEWER_TARGETS`.
unfoldable pub is_reviewer_target : ModerationState → Bool
is_reviewer_target received = false
is_reviewer_target quarantined = false
is_reviewer_target under_review = true
is_reviewer_target needs_evidence = true
is_reviewer_target accepted_private = true
is_reviewer_target duplicate = true
is_reviewer_target rejected = true
is_reviewer_target published = false

abbrev pub has_expired : ℕ → StoredAction → Bool
has_expired now stored = leb stored.expires_at_ms now

unfoldable pub sweep : ℕ → ActionManager → ActionManager
sweep now m = record m { actions = discard (has_expired now) m.actions }

-- `reviewCursor`.
unfoldable pub is_cursor : (String → String) → String → Bool
is_cursor rewritten value =
    leb 1 (units value)
    && leb (units value) 256
    && every is_base64url value
    && rewritten value == value

-- The test of `consume` on the action that it took out.
unfoldable pub match_reviewed :
    ℕ → Option StoredAction → String → ActionKind → Result ActionError ReviewerAction
match_reviewed later none scope kind = err invalid_action
match_reviewed later (some stored) scope kind = do
  refuse
      (has_expired later stored
        || not (stored.scope == scope)
        || not (same_kind (kind_of stored.action) kind))
      invalid_action
  ok stored.action

-- `revokeScope`.
unfoldable pub revoke_actions :
    String → ActionManager → ActionManager × Result ActionError (Unit {0})
revoke_actions scope m =
    if is_sha256 scope
    then (record m { actions = discard (λ stored. stored.scope == scope) m.actions }, ok tt)
    else (m, err bad_scope)

unfoldable pub dispose_reviewed : ActionManager → ActionManager
dispose_reviewed m = record m { actions = [] }

module _ (digest : String → String) where
  -- `issue` after its eviction.
  unfoldable pub store_action :
      Reading → String → ReviewerAction → ActionManager → ActionManager × Result ActionError String
  store_action reading scope action m =
      if not (is_sha256 scope)
      then (m, err bad_scope)
      else if not (is_bounded_token reading.secret)
      then (m, err bad_token)
      else (
        record m {
          actions =
              set (digest reading.secret)
                (record {
                  action = action;
                  expires_at_ms = reading.later + m.ttl_ms;
                  scope = scope;
                })
                m.actions;
        },
        ok reading.secret,
      )

  unfoldable pub issue :
      Reading → String → ReviewerAction → ActionManager → ActionManager × Result ActionError String
  issue reading scope action m =
      let swept = sweep reading.now m in
      store_action reading scope action (record swept { actions = evict 256 swept.actions })

  unfoldable pub issue_view :
      Reading
      → (scope report_id : String) → ActionManager
      → ActionManager × Result ActionError String
  issue_view reading scope report_id m =
      if is_uuid report_id then issue reading scope (view report_id) m else (m, err bad_report)

  unfoldable pub issue_page :
      (String → String)
      → Reading
      → (scope cursor : String) → ActionManager
      → ActionManager × Result ActionError String
  issue_page rewritten reading scope cursor m =
      if is_cursor rewritten cursor
      then issue reading scope (page cursor) m
      else (m, err bad_cursor)

  -- What follows a call of `issue`, where `rest` is what the calls after it come to.
  unfoldable pub join_issued :
      ActionManager
      → ModerationState
      → Result ActionError String
      → ActionManager × Result ActionError (List IssuedTransition)
      → ActionManager × Result ActionError (List IssuedTransition)
  join_issued m to (err e) rest = (m, err e)
  join_issued m to (ok token) rest =
      (rest.0, (do issued ← rest.1; ok (record { to = to; token = token } ∷ issued)))

  -- The tokens for a list of targets, of which the n-th call of `issue` makes the n-th reading. A call
  -- that throws ends it, and the tokens that were stored stay.
  unfoldable pub issue_each :
      (ℕ → Reading)
      → TransitionSource
      → List ModerationState
      → ActionManager
      → ActionManager × Result ActionError (List IssuedTransition)
  issue_each readings source [] m = (m, ok [])
  issue_each readings source (to ∷ targets) m =
      let first =
        issue (readings 0) source.scope (transition source.report_id source.expected_revision to)
          m in
      let rest = issue_each (λ n. readings (suc n)) source targets first.0 in
      join_issued first.0 to first.1 rest

  unfoldable pub issue_transitions :
      (ℕ → Reading)
      → TransitionSource
      → ActionManager
      → ActionManager × Result ActionError (List IssuedTransition)
  issue_transitions readings source m =
      if not (is_sha256 source.scope)
      then (m, err bad_scope)
      else if not (is_uuid source.report_id)
      then (m, err bad_report)
      else if not (leb 1 source.expected_revision && leb source.expected_revision 9007199254740991)
      then (m, err bad_source)
      else issue_each readings source (filter is_reviewer_target (allowed_transitions source.state))
          m

  -- `consume`: the action is gone also where the scope is refused.
  unfoldable pub consume_reviewed :
      (now later : ℕ)
      → (token scope : String) → ActionKind
      → ActionManager
      → ActionManager × Result ActionError ReviewerAction
  consume_reviewed now later token scope kind m =
      let swept = sweep now m in
      if not (is_bounded_token token) then (swept, err bad_token) else (
        record swept { actions = delete (digest token) swept.actions },
        (do
          guard (is_sha256 scope) bad_scope
          match_reviewed later (get (digest token) swept.actions) scope kind),
      )
