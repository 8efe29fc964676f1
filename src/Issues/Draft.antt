-- ===== src/Issues/Draft.antt =====
-- products/connector/issue-draft.ts: the draft of an issue, which names a site only for an issue of
-- the public web. The input is typed: the tests of its own keys and of its words are left out. A
-- field that the input does not have of its own is `none`.
pub mod Canonical
use webmcp_security_lab.Prelude.{
  Bool, false, not, Option, none, some, String, ltb, ◌==◌, string_eq, if◌then◌else◌, ◌||◌,
}
use webmcp_security_lab.Prelude.Result.{Result, ok, err, ◌>>=◌, ◌>>◌, refuse}
use webmcp_security_lab.Prelude.Text.{units, trim}
use webmcp_security_lab.Prelude.Url.{Url}
use webmcp_security_lab.Issues.Model.{
  IssueContext, public_web, synthetic_lab, local_exercise, IssueCategory, IssueStage, IssueSeverity,
  AssuranceLimitation, current_limitation, IssueError, unbounded_origin, spaced_origin,
  invalid_origin, impure_origin, nonpublic_origin, origin_not_allowed, Runtime, address, has_char,
  is_non_public,
}

-- `text ?? ""`, and the field that is given only where the text is not empty.
abbrev pub or_empty : Option String → String
or_empty none = ""
or_empty (some s) = s

abbrev pub if_truthy : Option String → Option String
if_truthy none = none
if_truthy (some s) = if s == "" then none else some s

pub record IssueDraftInput : Type 0 where
  pub context : IssueContext
  pub category : IssueCategory
  pub severity : IssueSeverity
  pub stage : IssueStage
  pub site_origin : Option String

pub data SubmissionDisposition : Type 0 where
  human_review_required synthetic_not_submittable : SubmissionDisposition
  local_exercise_not_submittable : SubmissionDisposition

pub record Submission : Type 0 where
  pub disposition : SubmissionDisposition
  pub submittable : Bool

-- A draft: the fields of the input and those that are added.
pub record IssueDraft : Type 0 where
  pub input : IssueDraftInput
  pub submission : Submission
  pub assurance_limitation : AssuranceLimitation

unfoldable pub submission_disposition : IssueContext → SubmissionDisposition
submission_disposition synthetic_lab = synthetic_not_submittable
submission_disposition local_exercise = local_exercise_not_submittable
submission_disposition public_web = human_review_required

module _ (runtime : Runtime) where
  unfoldable pub read_url : String → Result IssueError Url
  read_url value = elim (runtime.parse_url value) [ none ↦ err invalid_origin | some url ↦ ok url ]

  -- The tests of the parsed origin.
  unfoldable pub check_origin : String → Url → Result IssueError String
  check_origin value parsed = do
    refuse
        (not (parsed.protocol == "https:")
          || not (parsed.username == "")
          || not (parsed.password == "")
          || not (parsed.port == "")
          || not (value == parsed.origin))
        impure_origin
    let hostname = runtime.to_lower parsed.hostname
    refuse
        (hostname == "localhost"
          || runtime.is_ip (address hostname)
          || not (has_char b'.' hostname)
          || is_non_public hostname)
        nonpublic_origin
    ok parsed.origin

  unfoldable pub public_site_origin : Option String → Result IssueError String
  public_site_origin none = err unbounded_origin
  public_site_origin (some value) = do
    refuse (ltb (units value) 1 || ltb 512 (units value)) unbounded_origin
    refuse (not (value == trim value)) spaced_origin
    parsed ← read_url value
    check_origin value parsed

  -- The site of a draft, `none` where it has no such field.
  unfoldable pub draft_origin : IssueContext → Option String → Result IssueError (Option String)
  draft_origin public_web given = do origin ← public_site_origin given; ok (some origin)
  draft_origin _ none = ok none
  draft_origin _ (some given) = err origin_not_allowed

  unfoldable pub create_draft : IssueDraftInput → Result IssueError IssueDraft
  create_draft given = do
    site_origin ← draft_origin given.context given.site_origin
    ok (record {
      input = record given { site_origin = site_origin };
      submission = record {
        disposition = submission_disposition given.context;
        submittable = false;
      };
      assurance_limitation = current_limitation;
    })
