-- ===== src/Issues/Candidate.antt =====
-- products/connector/issue-candidate.ts: the fixed candidates that a lesson or a verified practice
-- receipt gives. Of a receipt, its entry's id, its scenario and its verdict are read.
use webmcp_security_lab.Prelude.{none, String}
use webmcp_security_lab.Prelude.Result.{Result, ok, ◌>>=◌}
use webmcp_security_lab.Issues.Model.{
  synthetic_lab, IssueCategory, annotation_mismatch, excess_authority, untrusted_output,
  misleading_approval, support_overclaim, IssueSeverity, informational, low, medium, IssueStage,
  result, approval, discovery, IssueError, Runtime,
}
use webmcp_security_lab.Issues.Draft.{IssueDraft, create_draft}

pub data ScenarioId : Type 0 where
  read_only_claim over_broad_schema tool_result_injection : ScenarioId
  confirmation_mismatch client_discovery_variance : ScenarioId

pub data Verdict : Type 0 where
  pass_ fail inconclusive : Verdict

pub data CandidateSource : Type 0 where
  synthetic_lesson : CandidateSource
  verified_receipt : (entry_id : String) → CandidateSource

pub record IssueCandidate : Type 0 where
  pub draft : IssueDraft
  pub explanation : String
  pub source : CandidateSource
  pub source_label : String
  pub title : String

pub record ScenarioFinding : Type 0 where
  pub category : IssueCategory
  pub stage : IssueStage
  pub title : String

-- `SCENARIO_FINDINGS`.
unfoldable pub scenario_finding : ScenarioId → ScenarioFinding
scenario_finding read_only_claim = record {
  category = annotation_mismatch;
  stage = result;
  title = "Read-only claim versus observed effect";
}
scenario_finding over_broad_schema = record {
  category = excess_authority;
  stage = approval;
  title = "More input authority than the visible task needs";
}
scenario_finding tool_result_injection = record {
  category = untrusted_output;
  stage = result;
  title = "Instruction-shaped content in a tool result";
}
scenario_finding confirmation_mismatch = record {
  category = misleading_approval;
  stage = approval;
  title = "Confirmation did not name the real effect";
}
scenario_finding client_discovery_variance = record {
  category = support_overclaim;
  stage = discovery;
  title = "One client observation was treated as universal support";
}

unfoldable pub severity_for_verdict : Verdict → IssueSeverity
severity_for_verdict fail = medium
severity_for_verdict inconclusive = low
severity_for_verdict pass_ = informational

unfoldable pub explanation_for_verdict : Verdict → String
explanation_for_verdict fail =
    "The selected verified practice receipt recorded a mismatch. This bounded draft describes the concern without copying the receipt."
explanation_for_verdict inconclusive =
    "The selected verified practice receipt could not establish the expected safety result. The draft remains a local lead, not a finding."
explanation_for_verdict pass_ =
    "The selected verified practice receipt passed. This is a teaching example of the reporting boundary, not a claim that the site is vulnerable."

module _ (runtime : Runtime) where
  unfoldable pub lesson_candidate : Result IssueError IssueCandidate
  lesson_candidate = do
    draft ← create_draft runtime (record {
      context = synthetic_lab;
      category = annotation_mismatch;
      severity = informational;
      stage = discovery;
      site_origin = none;
    })
    ok (record {
      draft = draft;
      explanation =
          "This fixed signal demonstrates the reporting path. It did not come from a real site and cannot be submitted or published.";
      source = synthetic_lesson;
      source_label = "Fixed synthetic lesson signal";
      title = "Practice annotation mismatch";
    })

  unfoldable pub receipt_candidate :
      String → ScenarioId → Verdict → Result IssueError IssueCandidate
  receipt_candidate entry_id scenario verdict = do
    let finding = scenario_finding scenario
    draft ← create_draft runtime (record {
      context = synthetic_lab;
      category = finding.category;
      severity = severity_for_verdict verdict;
      stage = finding.stage;
      site_origin = none;
    })
    ok (record {
      draft = draft;
      explanation = explanation_for_verdict verdict;
      source = verified_receipt entry_id;
      source_label = "Selected verified local receipt";
      title = finding.title;
    })
