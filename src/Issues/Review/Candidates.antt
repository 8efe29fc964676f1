-- ===== src/Issues/Review/Candidates.antt =====
-- issue-candidate.ts, issue-review.ts, external-report-action.ts and issue-moderation.ts: what can be
-- done with the candidate of a practice receipt.
use webmcp_security_lab.Prelude.{ℕ, ◌≡◌, refl, sym, ap, subst, ◌∙◌, String, none, List, ◌∷◌, take}
use webmcp_security_lab.Prelude.Result.{ok, err}
use webmcp_security_lab.Prelude.Dates.{to_iso}
use webmcp_security_lab.Connector.SaveActions.{bounded_scope}
use webmcp_security_lab.Issues.Model.{
  synthetic_lab, IssueCategory, annotation_mismatch, excess_authority, untrusted_output,
  misleading_approval, support_overclaim, IssueSeverity, informational, low, medium, IssueStage,
  result, approval, discovery, not_public_web, Runtime,
}
use webmcp_security_lab.Issues.Draft.{IssueDraft, IssueDraftInput, create_draft, draft_origin}
use webmcp_security_lab.Issues.Draft.Canonical.{draft_of}
use webmcp_security_lab.Issues.Candidate.{
  IssueCandidate, ScenarioId, read_only_claim, over_broad_schema, tool_result_injection,
  confirmation_mismatch, client_discovery_variance, Verdict, pass_, fail, inconclusive,
  scenario_finding, severity_for_verdict, receipt_candidate,
}
use webmcp_security_lab.Issues.Moderation.{create_record}
use webmcp_security_lab.Issues.External.{
  ExternalManager, not_public, new_submission, store_submission, issue_submission,
}
use webmcp_security_lab.Issues.Review.{
  ReviewItem, ReviewStore, make_item, save, saved_input, store_made, list_items,
}
use webmcp_security_lab.Issues.Review.Within.{IsWithin}
use webmcp_security_lab.Issues.Review.Newest.{list_items_lem, list_added}

-- What a lesson is about, in the words of a report.
abbrev category_of : ScenarioId → IssueCategory
category_of read_only_claim = annotation_mismatch
category_of over_broad_schema = excess_authority
category_of tool_result_injection = untrusted_output
category_of confirmation_mismatch = misleading_approval
category_of client_discovery_variance = support_overclaim

-- Where it shows: in the result, in the approval, or in the discovery of a tool.
abbrev stage_of : ScenarioId → IssueStage
stage_of read_only_claim = result
stage_of over_broad_schema = approval
stage_of tool_result_injection = result
stage_of confirmation_mismatch = approval
stage_of client_discovery_variance = discovery

-- A failure weighs more than a doubt, and a doubt more than a pass.
abbrev severity_of : Verdict → IssueSeverity
severity_of fail = medium
severity_of inconclusive = low
severity_of pass_ = informational

-- The draft that a receipt's scenario and verdict stand for.
abbrev pub practice_draft : ScenarioId → Verdict → IssueDraft
practice_draft scenario verdict = draft_of (record {
  context = synthetic_lab;
  category = category_of scenario;
  severity = severity_of verdict;
  stage = stage_of scenario;
  site_origin = none;
})

abbrev pub item_of : IssueDraft → String → ℕ → ReviewItem
item_of draft id now = record { draft = draft; id = id; saved_at = to_iso now }

scenario_finding_lem :
    (scenario : ScenarioId)
    → ((scenario_finding scenario).category ≡ category_of scenario)
      × ((scenario_finding scenario).stage ≡ stage_of scenario)
unfolding scenario_finding
scenario_finding_lem read_only_claim = (refl, refl)
scenario_finding_lem over_broad_schema = (refl, refl)
scenario_finding_lem tool_result_injection = (refl, refl)
scenario_finding_lem confirmation_mismatch = (refl, refl)
scenario_finding_lem client_discovery_variance = (refl, refl)

severity_for_verdict_lem : (verdict : Verdict) → severity_for_verdict verdict ≡ severity_of verdict
unfolding severity_for_verdict
severity_for_verdict_lem fail = refl
severity_for_verdict_lem inconclusive = refl
severity_for_verdict_lem pass_ = refl

module _ (runtime : Runtime) where
  receipt_candidate_lem :
      (entry_id : String) (scenario : ScenarioId) (verdict : Verdict)
      → (c : IssueCandidate) × (receipt_candidate runtime entry_id scenario verdict ≡ ok c)
        × (c.draft ≡ practice_draft scenario verdict)
  unfolding receipt_candidate create_draft draft_origin
  receipt_candidate_lem entry_id scenario verdict =
      let (category, stage) = scenario_finding_lem scenario in
      let severity = severity_for_verdict_lem verdict in
      (
        _,
        refl,
        (λ i. draft_of (record {
          context = synthetic_lab;
          category = category i;
          severity = severity i;
          stage = stage i;
          site_origin = none;
        })),
      )

  module _ (category : IssueCategory) (severity : IssueSeverity) (stage : IssueStage) where
    abbrev lab_input : IssueDraftInput
    lab_input = record {
      context = synthetic_lab;
      category = category;
      severity = severity;
      stage = stage;
      site_origin = none;
    }

    make_item_synthetic :
        (scope id : String) (now : ℕ)
        → bounded_scope scope ≡ ok scope
        → make_item runtime scope (draft_of lab_input) id now
          ≡ ok (item_of (draft_of lab_input) id now)
    unfolding make_item saved_input create_draft draft_origin
    make_item_synthetic scope id now bounded = rw bounded refl

    -- The draft is taken in by no one.
    create_record_synthetic :
        (report_id : String) (at : ℕ)
        → create_record runtime report_id at lab_input ≡ err not_public_web
    unfolding create_record create_draft draft_origin
    create_record_synthetic report_id at = refl

    issue_submission_synthetic :
        (digest : String → String) (now later : ℕ) (secret scope : String) (m : ExternalManager)
        → (issue_submission digest runtime now later secret scope (draft_of lab_input) m).1
          ≡ err not_public
    unfolding issue_submission store_submission new_submission create_draft draft_origin
    issue_submission_synthetic digest now later secret scope m = refl

  -- Every verified receipt gives a candidate, with a draft of the synthetic lab that names no site,
  -- whose category and stage are those of the lesson and whose severity is that of the verdict. Saved
  -- in a scope whose list is read, it stands first there, before the eleven newest; but no report is
  -- taken in with it, and no submission token is given for it.
  pub save-receipt_candidate :
      (entry_id scope id report_id secret owner : String) (scenario : ScenarioId)
      (verdict : Verdict) (now later : ℕ) (s : ReviewStore) (before : List ReviewItem)
      (digest : String → String) (m : ExternalManager)
      → IsWithin s
      → list_items scope s ≡ ok before
      → (c : IssueCandidate) × (receipt_candidate runtime entry_id scenario verdict ≡ ok c)
        × (c.draft ≡ practice_draft scenario verdict)
        × (list_items scope (save runtime scope c.draft id now s).0
            ≡ ok (item_of c.draft id now ∷ take 11 before))
        × (create_record runtime report_id now c.draft.input ≡ err not_public_web)
        × ((issue_submission digest runtime now later secret owner c.draft m).1 ≡ err not_public)
  unfolding save store_made
  save-receipt_candidate entry_id scope id report_id secret owner scenario verdict now later s
        before digest m w list =
      let (c, made, same) = receipt_candidate_lem entry_id scenario verdict in
      let (bounded, _) = list_items_lem scope s before list in
      let draft = practice_draft scenario verdict in
      let item =
        make_item_synthetic (category_of scenario) (severity_of verdict) (stage_of scenario) scope
          id now bounded in
      let (listed, refused, unissued) =
        subst
          (λ (d : IssueDraft).
            (list_items scope (save runtime scope d id now s).0
              ≡ ok (item_of d id now ∷ take 11 before))
            × (create_record runtime report_id now d.input ≡ err not_public_web)
            × ((issue_submission digest runtime now later secret owner d m).1 ≡ err not_public))
          (sym same)
          (
            ap (λ r. list_items scope (store_made scope s r).0) item
                ∙ list_added scope (item_of draft id now) s before w list,
            create_record_synthetic (category_of scenario) (severity_of verdict) (stage_of scenario)
                report_id now,
            issue_submission_synthetic (category_of scenario) (severity_of verdict)
                (stage_of scenario) digest now later secret owner m,
          ) in
      (c, made, same, listed, refused, unissued)
