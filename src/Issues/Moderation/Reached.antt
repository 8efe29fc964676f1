-- ===== src/Issues/Moderation/Reached.antt =====
-- issue-moderation.ts: the records that a report can come to, and what a transition makes.
use webmcp_security_lab.Prelude.{
  ℕ, ◌≡◌, sym, ap, ◌∙◌, true, false, Option, none, some, [], ◌∷◌, String,
}
use webmcp_security_lab.Prelude.Result.{ok, guard_passed, refuse_passed, >>=-eq-ok, ok-injective}
use webmcp_security_lab.Prelude.Dates.{parse, to_iso, is_before}
use webmcp_security_lab.Prelude.Text.{is_uuid}
use webmcp_security_lab.Issues.Model.{
  received, quarantined, not_public_web, bad_id, transition_not_allowed, moves_backward, Runtime,
}
use webmcp_security_lab.Issues.Draft.{IssueDraftInput, create_draft}
use webmcp_security_lab.Issues.Draft.Canonical.{draft_of, create_draft-eq}
use webmcp_security_lab.Issues.Publication.{PublicationGate, is_public_web}
use webmcp_security_lab.Issues.Moderation.{
  IssueRecord, Transition, event_of, is_allowed, exact_iso_time, create_record, new_publication,
  moved, transition,
}

-- The record that the intake makes.
abbrev pub intake_of : String → ℕ → IssueDraftInput → IssueRecord
intake_of id now given = record {
  id = id;
  received_at = to_iso now;
  updated_at = to_iso now;
  state = quarantined;
  draft = draft_of given;
  history = event_of now received quarantined ∷ [];
  publication = none;
}

module _ (runtime : Runtime) where
  -- A report is taken in, and then moved by any transitions.
  pub data Reached : IssueRecord → Type 0 where
    taken_in :
        (id : String) (now : ℕ) (given : IssueDraftInput) {r : IssueRecord}
        → create_record runtime id now given ≡ ok r
        → Reached r
    transitioned :
        (given : Transition) {r s : IssueRecord}
        → Reached r
        → transition runtime r given ≡ ok s
        → Reached s

  pub record Taken (id : String) (now : ℕ) (given : IssueDraftInput) (r : IssueRecord)
      : Type 0 where
    pub drafted : create_draft runtime given ≡ ok (draft_of given)
    pub public : is_public_web given.context ≡ true
    pub named : is_uuid id ≡ true
    pub shape : r ≡ intake_of id now given

  pub create_record_lem :
      (id : String) (now : ℕ) (given : IssueDraftInput) (r : IssueRecord)
      → create_record runtime id now given ≡ ok r
      → Taken id now given r
  unfolding create_record
  create_record_lem id now given r h =
      let (draft, e, h1) = >>=-eq-ok (create_draft runtime given) _ h in
      let (p, h2) = guard_passed (is_public_web draft.input.context) not_public_web h1 in
      let (u, h3) = guard_passed (is_uuid id) bad_id h2 in
      let (same, _) = create_draft-eq runtime given draft e in
      record {
        drafted = e ∙ ap ok same;
        public = ap (λ d. is_public_web d.input.context) (sym same) ∙ p;
        named = u;
        shape =
            sym (ok-injective h3) ∙ ap (λ d. record (intake_of id now given) { draft = d }) same;
      }

  pub record Moved (r : IssueRecord) (given : Transition) (s : IssueRecord) : Type 0 where
    pub at : ℕ
    pub publication : Option PublicationGate
    pub allowed : is_allowed r.state given.to ≡ true
    pub timed : exact_iso_time given.at ≡ ok at
    pub forward : is_before (some at) (parse r.updated_at) ≡ false
    pub brought : new_publication runtime given.to r.draft given.publication ≡ ok publication
    pub shape : s ≡ moved r at given.to publication

  pub transition_lem :
      (r : IssueRecord) (given : Transition) (s : IssueRecord)
      → transition runtime r given ≡ ok s
      → Moved r given s
  unfolding transition
  transition_lem r given s h =
      let (a, h1) = guard_passed (is_allowed r.state given.to) transition_not_allowed h in
      let (at, t, h2) = >>=-eq-ok (exact_iso_time given.at) _ h1 in
      let (f, h3) = refuse_passed (is_before (some at) (parse r.updated_at)) moves_backward h2 in
      let (p, b, h4) =
        >>=-eq-ok (new_publication runtime given.to r.draft given.publication) _ h3 in
      record {
        at = at;
        publication = p;
        allowed = a;
        timed = t;
        forward = f;
        brought = b;
        shape = sym (ok-injective h4);
      }

  -- And the converse: what passes the tests is moved.
  pub transition_of_Moved :
      (r : IssueRecord) (given : Transition) (s : IssueRecord)
      → Moved r given s
      → transition runtime r given ≡ ok s
  unfolding transition
  transition_of_Moved r given s m =
      rw (m.allowed, m.timed, m.forward, m.brought) (ap ok (sym m.shape))
