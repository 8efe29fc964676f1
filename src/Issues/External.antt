-- ===== src/Issues/External.antt =====
-- products/connector/external-report-action.ts: the one-use actions by which a report on a public site
-- is composed and then submitted. A call takes the readings of the clock that it makes, in order,
-- and the secret that the generator returns. SHA-256 is a parameter.
pub mod RoundTrip
mod Tests
use webmcp_security_lab.Prelude.{
  ℕ, ◌+◌, Bool, not, ◌||◌, Option, none, some, String, [], ltb, leb, if◌then◌else◌, ◌==◌, string_eq,
}
use webmcp_security_lab.Prelude.Result.{Result, ok, err, ◌>>=◌, ◌>>◌, refuse, guard}
use webmcp_security_lab.Prelude.Dict.{Dict, get, set, delete, discard, evict}
use webmcp_security_lab.Prelude.Text.{units}
use webmcp_security_lab.Issues.Model.{
  public_web, IssueCategory, unexpected_tool_change, IssueSeverity, informational, IssueStage,
  registration, IssueError, Runtime,
}
use webmcp_security_lab.Issues.Draft.{IssueDraft, IssueDraftInput, create_draft, if_truthy}
use webmcp_security_lab.Issues.Publication.{is_public_web}
use webmcp_security_lab.Issues.Review.{rethrow}

pub data ExternalError : Type 0 where
  bad_ttl unbounded_scope not_public invalid_action : ExternalError
  bad_draft : IssueError → ExternalError

-- A `CompositionRecord` holds the origin of a site, and a `SubmissionRecord` a draft.
pub record Pending (V : Type 0) : Type 0 where
  pub expires_at_ms : ℕ
  pub scope : String
  pub value : V

pub record ExternalManager : Type 0 where
  pub ttl_ms : ℕ
  pub compositions : Dict (Pending (Option String))
  pub submissions : Dict (Pending IssueDraft)

-- The choices of a form.
pub record ReportWords : Type 0 where
  pub category : IssueCategory
  pub severity : IssueSeverity
  pub stage : IssueStage

unfoldable pub new_external : ℕ → Result ExternalError ExternalManager
new_external ttl_ms = do
  refuse (ltb ttl_ms 1000 || ltb 600000 ttl_ms) bad_ttl
  ok (record { ttl_ms = ttl_ms; compositions = []; submissions = [] })

unfoldable pub external_scope : String → Result ExternalError String
external_scope value =
    if ltb (units value) 1 || ltb 256 (units value) then err unbounded_scope else ok value

abbrev pub is_over : {V : Type 0} → ℕ → Pending V → Bool
is_over now pending = leb pending.expires_at_ms now

unfoldable pub cleanup : ℕ → ExternalManager → ExternalManager
cleanup now m = record m {
  compositions = discard (is_over now) m.compositions;
  submissions = discard (is_over now) m.submissions;
}

-- The test of `consumeRecord` on the record that it took out.
unfoldable pub match_pending :
    {V : Type 0} → ℕ → Option (Pending V) → String → Result ExternalError (Pending V)
match_pending later none scope = err invalid_action
match_pending later (some pending) scope =
    if is_over later pending || not (pending.scope == scope) then err invalid_action else ok pending

abbrev pub report_input : Option String → ReportWords → IssueDraftInput
report_input origin words = record {
  context = public_web;
  category = words.category;
  severity = words.severity;
  stage = words.stage;
  site_origin = origin;
}

module _ (runtime : Runtime) where
  unfoldable pub canonical_external_origin : String → Result ExternalError (Option String)
  canonical_external_origin site_origin = do
    draft ← rethrow bad_draft (
        create_draft runtime (
          report_input (some site_origin) (record {
            category = unexpected_tool_change;
            severity = informational;
            stage = registration;
          })))
    ok draft.input.site_origin

  unfoldable pub new_composition :
      ℕ
      → (scope site_origin : String) → ExternalManager
      → Result ExternalError (Pending (Option String))
  new_composition later scope site_origin m = do
    bounded ← external_scope scope
    origin ← canonical_external_origin site_origin
    ok (record { expires_at_ms = later + m.ttl_ms; scope = bounded; value = origin })

  unfoldable pub new_submission :
      ℕ → String → IssueDraft → ExternalManager → Result ExternalError (Pending IssueDraft)
  new_submission later scope given m = do
    draft ← rethrow bad_draft (
        create_draft runtime
          (record given.input { site_origin = if_truthy given.input.site_origin }))
    guard (is_public_web draft.input.context) not_public
    bounded ← external_scope scope
    ok (record { expires_at_ms = later + m.ttl_ms; scope = bounded; value = draft })

module _ (digest : String → String) where
  -- `consumeRecord`: the record is gone also where the call is refused.
  unfoldable pub consume_record :
      {V : Type 0}
      → ℕ
      → (token scope : String) → Dict (Pending V)
      → Dict (Pending V) × Result ExternalError (Pending V)
  consume_record later token scope records =
      (delete (digest token) records, match_pending later (get (digest token) records) scope)

  module _ (runtime : Runtime) where
    unfoldable pub store_composition :
        String
        → ExternalManager
        → Result ExternalError (Pending (Option String))
        → ExternalManager × Result ExternalError String
    store_composition secret limited (err e) = (limited, err e)
    store_composition secret limited (ok pending) = (
      record limited { compositions = set (digest secret) pending limited.compositions },
      ok secret,
    )

    unfoldable pub issue_composition :
        (now later : ℕ)
        → (secret scope site_origin : String) → ExternalManager
        → ExternalManager × Result ExternalError String
    unfolding store_composition
    issue_composition now later secret scope site_origin m =
        let swept = cleanup now m in
        let limited = record swept { compositions = evict 64 swept.compositions } in
        store_composition secret limited (new_composition runtime later scope site_origin limited)

    -- `compose` after its scope was tested.
    unfoldable pub compose_in :
        ℕ
        → String
        → ReportWords
        → ExternalManager
        → Result ExternalError String
        → ExternalManager × Result ExternalError IssueDraft
    compose_in later token words swept (err e) = (swept, err e)
    compose_in later token words swept (ok scope) =
        let taken = consume_record later token scope swept.compositions in
        (
          record swept { compositions = taken.0 },
          (do
            pending ← taken.1
            rethrow bad_draft (create_draft runtime (report_input pending.value words))),
        )

    unfoldable pub compose :
        (now later : ℕ)
        → (token scope : String) → ReportWords
        → ExternalManager
        → ExternalManager × Result ExternalError IssueDraft
    unfolding compose_in
    compose now later token scope words m =
        compose_in later token words (cleanup now m) (external_scope scope)

    unfoldable pub store_submission :
        String
        → ExternalManager
        → Result ExternalError (Pending IssueDraft)
        → ExternalManager × Result ExternalError String
    store_submission secret limited (err e) = (limited, err e)
    store_submission secret limited (ok pending) = (
      record limited { submissions = set (digest secret) pending limited.submissions },
      ok secret,
    )

    unfoldable pub issue_submission :
        (now later : ℕ)
        → (secret scope : String) → IssueDraft
        → ExternalManager
        → ExternalManager × Result ExternalError String
    unfolding store_submission
    issue_submission now later secret scope given m =
        let swept = cleanup now m in
        let limited = record swept { submissions = evict 64 swept.submissions } in
        store_submission secret limited (new_submission runtime later scope given limited)

  -- `consumeSubmission` after its scope was tested.
  unfoldable pub consume_in :
      ℕ
      → String
      → ExternalManager
      → Result ExternalError String
      → ExternalManager × Result ExternalError IssueDraft
  consume_in later token swept (err e) = (swept, err e)
  consume_in later token swept (ok scope) =
      let taken = consume_record later token scope swept.submissions in
      (record swept { submissions = taken.0 }, (do pending ← taken.1; ok pending.value))

  unfoldable pub consume_submission :
      (now later : ℕ)
      → (token scope : String) → ExternalManager
      → ExternalManager × Result ExternalError IssueDraft
  unfolding consume_in
  consume_submission now later token scope m =
      consume_in later token (cleanup now m) (external_scope scope)

unfoldable pub revoke_external :
    String → ExternalManager → ExternalManager × Result ExternalError (Unit {0})
revoke_external value m = elim (external_scope value) [
  | err e ↦ (m, err e)
  | ok scope ↦ (
    record m {
      compositions = discard (λ pending. pending.scope == scope) m.compositions;
      submissions = discard (λ pending. pending.scope == scope) m.submissions;
    },
    ok tt,
  )
]

unfoldable pub dispose_external : ExternalManager → ExternalManager
dispose_external m = record m { compositions = []; submissions = [] }
