-- ===== src/Issues/Moderation/Stored.antt =====
-- issue-moderation.ts: the draft of a stored record, and what the replay of a stored history keeps.
use webmcp_security_lab.Prelude.{
  ◌≡◌, refl, sym, ap, ◌∙◌, Bool, true, false, not, Option, List, [], ◌∷◌, ◌++◌, arith, ◌==◌, ◌||◌,
  subst, if◌then◌else◌, append_assoc, append-nil, none, some, ℕ,
}
use webmcp_security_lab.Prelude.Result.{ok, guard_passed, refuse_passed, >>=-eq-ok, ok-injective}
use webmcp_security_lab.Prelude.Dates.{DateText, exact, other, invalid, to_iso}
use webmcp_security_lab.Issues.Model.{
  AssuranceLimitation, published, state_eq, same_state_iff, bad_submission, broken_chain, Runtime,
}
use webmcp_security_lab.Issues.Draft.{
  IssueDraft, IssueDraftInput, Submission, SubmissionDisposition, human_review_required,
  synthetic_not_submittable, local_exercise_not_submittable, create_draft, if_truthy,
}
use webmcp_security_lab.Issues.Draft.Canonical.{draft_of, create_draft-eq}
use webmcp_security_lab.Issues.Publication.{PublicationGate, is_present}
use webmcp_security_lab.Issues.Moderation.{
  IssueRecord, ModerationEvent, same_bool, same_disposition, parse_stored_draft, replay,
  replay_input, transition, exact_iso_time, moved, event_of, or_else,
}
use webmcp_security_lab.Issues.Moderation.Reached.{Reached, transitioned, transition_lem, Moved}
use webmcp_security_lab.Issues.Moderation.Replay.{new_publication_lem}

-- A draft that is made now, under the limitation that a stored one bears.
abbrev pub stored_draft : IssueDraftInput → AssuranceLimitation → IssueDraft
stored_draft given limitation = record (draft_of given) { assurance_limitation = limitation }

same_bool-eq : (a b : Bool) → same_bool a b ≡ true → a ≡ b
same_bool-eq true b h = sym h
same_bool-eq false b h = ground arith

same_disposition-eq : (a b : SubmissionDisposition) → same_disposition a b ≡ true → a ≡ b
unfolding same_disposition
same_disposition-eq a b h = ground arith

same_disposition_refl : (a : SubmissionDisposition) → same_disposition a a ≡ true
unfolding same_disposition
same_disposition_refl human_review_required = refl
same_disposition_refl synthetic_not_submittable = refl
same_disposition_refl local_exercise_not_submittable = refl

submission-eq :
    (a b : Submission)
    → (not (same_bool a.submittable b.submittable)
        || not (same_disposition a.disposition b.disposition))
      ≡ false
    → a ≡ b
submission-eq a b h =
    let p = same_bool-eq a.submittable b.submittable (ground arith) in
    let q = same_disposition-eq a.disposition b.disposition (ground arith) in
    λ i. record { disposition = q i; submittable = p i }

pub exact_iso_time-eq : (d : DateText) (t : ℕ) → exact_iso_time d ≡ ok t → to_iso t ≡ d
unfolding exact_iso_time
exact_iso_time-eq (exact u) t h = ap exact (sym (ok-injective h))
exact_iso_time-eq (other s u) t h = absurd (cc)
exact_iso_time-eq (invalid s) t h = absurd (cc)

or_else-marked :
    (b : Bool) (p old : Option PublicationGate)
    → b ≡ true
    → same_bool b (is_present p) ≡ true
    → or_else p old ≡ p
or_else-marked b none old h k = absurd (ground (arith, h, k))
or_else-marked b (some gate) old h k = refl

module _ (runtime : Runtime) where
  pub record StoredDraft (value d : IssueDraft) : Type 0 where
    pub drafted : create_draft runtime value.input ≡ ok (draft_of value.input)
    pub shape : value ≡ stored_draft value.input value.assurance_limitation
    pub unchanged : d ≡ value
    pub truthy : if_truthy value.input.site_origin ≡ value.input.site_origin

  pub parse_stored_draft_lem :
      (value d : IssueDraft) → parse_stored_draft runtime value ≡ ok d → StoredDraft value d
  unfolding parse_stored_draft
  parse_stored_draft_lem value d h =
      let (c, e, h1) = >>=-eq-ok (create_draft runtime value.input) _ h in
      let (same, truthy) = create_draft-eq runtime value.input c e in
      let (kept, h2) =
        refuse_passed
          (not (same_bool value.submission.submittable c.submission.submittable)
            || not (same_disposition value.submission.disposition c.submission.disposition))
          bad_submission h1 in
      let sub : value.submission ≡ (draft_of value.input).submission =
        submission-eq value.submission c.submission kept ∙ ap (λ x. x.submission) same in
      let shape : value ≡ stored_draft value.input value.assurance_limitation =
        λ i. record value { submission = sub i } in
      record {
        drafted = e ∙ ap ok same;
        shape = shape;
        unchanged = sym (ok-injective h2) ∙ ap relabel same ∙ sym shape;
        truthy = truthy;
      }
    where
      relabel : IssueDraft → IssueDraft
      relabel x = record x { assurance_limitation = value.assurance_limitation }

  pub parse_stored_draft_of :
      (given : IssueDraftInput) (limitation : AssuranceLimitation)
      → create_draft runtime given ≡ ok (draft_of given)
      → parse_stored_draft runtime (stored_draft given limitation)
        ≡ ok (stored_draft given limitation)
  unfolding parse_stored_draft
  parse_stored_draft_of given limitation e =
      rw (e, same_disposition_refl (draft_of given).submission.disposition) refl

  -- What a replay of events keeps of the record that it starts from, and what it adds.
  pub record Replayed (stored : Option PublicationGate) (events : List ModerationEvent)
      (b s : IssueRecord) : Type 0 where
    pub id_kept : s.id ≡ b.id
    pub received_kept : s.received_at ≡ b.received_at
    pub draft_kept : s.draft ≡ b.draft
    pub history_grown : s.history ≡ b.history ++ events
    pub publication_stored : (s.state == published) ≡ true → s.publication ≡ stored
    pub reached : Reached runtime s

  -- A replayed move to `published` takes the stored publication.
  stored_by :
      (stored : Option PublicationGate) (e : ModerationEvent) (b next : IssueRecord)
      → Moved runtime b (replay_input stored e) next
      → (next.state == published) ≡ true
      → next.publication ≡ stored
  unfolding moved replay_input
  stored_by stored e b next m now =
      let b' = new_publication_lem runtime e.to b.draft _ m.publication m.brought in
      let is : (e.to == published) ≡ true = ap (λ x. x.state == published) (sym m.shape) ∙ now in
      let given : stored ≡ m.publication =
        ap (λ x. if x then stored else none) (sym is) ∙ b'.as_given in
      ap (λ x. x.publication) m.shape
      ∙ or_else-marked (e.to == published) m.publication b.publication is b'.marked
      ∙ sym given

  none-Replayed :
      (stored : Option PublicationGate) (b : IssueRecord)
      → Reached runtime b
      → ((b.state == published) ≡ true → b.publication ≡ stored)
      → Replayed stored [] b b
  none-Replayed stored b h told = record {
    id_kept = refl;
    received_kept = refl;
    draft_kept = refl;
    history_grown = sym (append-nil b.history);
    publication_stored = told;
    reached = h;
  }

  Moved-Replayed :
      (stored : Option PublicationGate) (e : ModerationEvent) (events : List ModerationEvent)
      → (b next s : IssueRecord) → e.from ≡ b.state
      → Moved runtime b (replay_input stored e) next
      → Replayed stored events next s
      → Replayed stored (e ∷ events) b s
  unfolding moved replay_input
  Moved-Replayed stored e events b next s from m h = record {
    id_kept = h.id_kept ∙ ap (λ x. x.id) m.shape;
    received_kept = h.received_kept ∙ ap (λ x. x.received_at) m.shape;
    draft_kept = h.draft_kept ∙ ap (λ x. x.draft) m.shape;
    history_grown =
        h.history_grown
        ∙ ap (λ x. x.history ++ events) m.shape
        ∙ append_assoc b.history (event_of m.at b.state e.to ∷ []) events
        ∙ ap (λ x. b.history ++ x ∷ events) recorded;
    publication_stored = h.publication_stored;
    reached = h.reached;
  }
    where
      recorded : event_of m.at b.state e.to ≡ e
      recorded =
          let t = exact_iso_time-eq e.at m.at m.timed in
          let back = sym from in λ i. record { at = t i; from = back i; to = e.to }

  pub replay_lem :
      (stored : Option PublicationGate) (events : List ModerationEvent) (b s : IssueRecord)
      → Reached runtime b
      → ((b.state == published) ≡ true → b.publication ≡ stored)
      → replay runtime stored events b ≡ ok s
      → Replayed stored events b s
  unfolding replay
  replay_lem stored [] b s h told e =
      subst (Replayed stored [] b) (ok-injective e) (none-Replayed stored b h told)
  replay_lem stored (first ∷ events) b s h told e =
      let (same, e1) = guard_passed (first.from == b.state) broken_chain e in
      let (next, t, e2) = >>=-eq-ok (transition runtime b (replay_input stored first)) _ e1 in
      let m = transition_lem runtime b (replay_input stored first) next t in
      Moved-Replayed stored first events b next s ((same_state_iff first.from b.state).0 same) m (
        replay_lem stored events next s (transitioned (replay_input stored first) h t)
          (stored_by stored first b next m) e2)
