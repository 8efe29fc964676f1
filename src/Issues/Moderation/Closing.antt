-- ===== src/Issues/Moderation/Closing.antt =====
-- issue-moderation.ts: how a review ends.
use webmcp_security_lab.Prelude.{
  ℕ, suc, zero, ◌+◌, ◌*◌, ◌≤◌, ◌≡◌, ◌≢◌, refl, sym, ap, subst, ◌∙◌, Bool, true, false, not, none,
  some, [], ◌∷◌, ◌++◌, inl, inr, ltb, length, length-append, arith, Bool-cases,
}
use webmcp_security_lab.Prelude.Result.{Result, ok, is_ok, ◌>>=◌, Result-cases}
use webmcp_security_lab.Prelude.Dates.{exact, parse, is_before}
use webmcp_security_lab.Issues.Model.{
  ModerationState, received, quarantined, under_review, needs_evidence, accepted_private, duplicate,
  rejected, published, state_eq, same_state, rank, IssueError, Runtime,
}
use webmcp_security_lab.Issues.Moderation.{
  IssueRecord, Transition, is_allowed, allowed_transitions, transition, moved, new_publication,
  exact_iso_time, event_of, parse_record,
}
use webmcp_security_lab.Issues.Moderation.Reached.{
  Reached, taken_in, transitioned, transition_lem, transition_of_Moved, create_record_lem,
}
use webmcp_security_lab.Issues.Moderation.Reading.{parse_record_iff}

-- The states that a report stays in.
abbrev pub is_closed : ModerationState → Bool
is_closed duplicate = true
is_closed rejected = true
is_closed published = true
is_closed _ = false

abbrev pub move_to : ModerationState → ℕ → Transition
move_to to at = record { at = exact at; to = to; publication = none }

no_entry_to_received : (from : ModerationState) → is_allowed from received ≡ false
unfolding is_allowed allowed_transitions same_state rank
no_entry_to_received duplicate = refl
no_entry_to_received rejected = refl
no_entry_to_received published = refl
no_entry_to_received received = refl
no_entry_to_received quarantined = refl
no_entry_to_received under_review = refl
no_entry_to_received needs_evidence = refl
no_entry_to_received accepted_private = refl

rejects :
    (from : ModerationState) → from ≢ received → is_allowed from rejected ≡ not (is_closed from)
unfolding is_allowed allowed_transitions same_state rank
rejects duplicate n = refl
rejects rejected n = refl
rejects published n = refl
rejects received n = absurd (n refl)
rejects quarantined n = refl
rejects under_review n = refl
rejects needs_evidence n = refl
rejects accepted_private n = refl

same_time : (at : ℕ) → ltb at at ≡ false
same_time at = ground arith

module _ (runtime : Runtime) where
  pub Reached-ne-received : (r : IssueRecord) → Reached runtime r → r.state ≢ received
  unfolding moved
  Reached-ne-received r (taken_in id now given e) is =
      let t = create_record_lem runtime id now given r e in
      let bad : quarantined ≡ received = ap (λ x. x.state) (sym t.shape) ∙ is in cc
  Reached-ne-received s (transitioned given {r} h e) is =
      let m = transition_lem runtime r given s e in
      let to_so : given.to ≡ received = ap (λ x. x.state) (sym m.shape) ∙ is in
      let yes = subst (λ x. is_allowed r.state x ≡ true) to_so m.allowed in
      let no = no_entry_to_received r.state in cc

  -- The refusal of a report succeeds, at any time that is not before its last event, exactly while
  -- the report is neither a duplicate nor refused nor published: every open review can be ended at
  -- once, and no closed one is ended again.
  pub rejectable_iff_open :
      (r : IssueRecord) (at : ℕ)
      → Reached runtime r
      → is_before (some at) (parse r.updated_at) ≡ false
      → is_ok (transition runtime r (move_to rejected at)) ≡ not (is_closed r.state)
  unfolding transition new_publication exact_iso_time
  rejectable_iff_open r at h forward =
      let can = rejects r.state (Reached-ne-received r h) in
      elim (Bool-cases (is_closed r.state)) [
        | inl c ↦ rw (can, c) refl
        | inr c ↦ rw (can, c, forward) refl
      ]

  -- A report under review is sent back for evidence, and taken up again, the given times.
  abbrev pub review_rounds : ℕ → ℕ → IssueRecord → Result IssueError IssueRecord
  review_rounds zero at r = ok r
  review_rounds (suc n) at r = do
    s ← transition runtime r (move_to needs_evidence at)
    u ← transition runtime s (move_to under_review at)
    review_rounds n at u

  record Round (at : ℕ) (from to : ModerationState) (r s : IssueRecord) : Type 0 where
    made : transition runtime r (move_to to at) ≡ ok s
    state_so : s.state ≡ to
    updated_so : s.updated_at ≡ exact at
    longer : length s.history ≡ length r.history + 1

  abbrev moved_to : ℕ → ModerationState → IssueRecord → IssueRecord
  moved_to at to r = record r {
    updated_at = exact at;
    state = to;
    history = r.history ++ event_of at r.state to ∷ [];
    publication = r.publication;
  }

  move_lem :
      (r : IssueRecord) (at : ℕ) (from to : ModerationState)
      → r.state ≡ from
      → r.updated_at ≡ exact at
      → is_allowed from to ≡ true
      → new_publication runtime to r.draft none ≡ ok none
      → Round at from to r (moved_to at to r)
  unfolding transition exact_iso_time moved
  move_lem r at from to state updated allowed brought = record {
    made = transition_of_Moved runtime r (move_to to at) (moved_to at to r) (record {
      at = at;
      publication = none;
      allowed = ap (λ x. is_allowed x to) state ∙ allowed;
      timed = refl;
      forward = ap (λ x. is_before (some at) (parse x)) updated ∙ same_time at;
      brought = brought;
      shape = refl;
    });
    state_so = refl;
    updated_so = refl;
    longer = length-append r.history (event_of at r.state to ∷ []);
  }

  record Rounds (n at : ℕ) (r s : IssueRecord) : Type 0 where
    ran : review_rounds n at r ≡ ok s
    reached : Reached runtime s
    longer : length s.history ≡ length r.history + 2 * n

  review_rounds_lem :
      (n at : ℕ) (r : IssueRecord)
      → Reached runtime r
      → r.state ≡ under_review
      → r.updated_at ≡ exact at
      → (s : IssueRecord) × Rounds n at r s
  unfolding new_publication is_allowed allowed_transitions same_state rank
  review_rounds_lem zero at r h state updated =
      (r, record { ran = refl; reached = h; longer = omega arith })
  review_rounds_lem (suc n) at r h state updated =
      let a = move_lem r at under_review needs_evidence state updated refl refl in
      let b =
        move_lem (moved_to at needs_evidence r) at needs_evidence under_review refl refl refl
          refl in
      let h' =
        transitioned (move_to under_review at) (transitioned (move_to needs_evidence at) h a.made)
          b.made in
      let (s, rest) = review_rounds_lem n at _ h' refl refl in
      (
        s,
        record {
          ran = rw (a.made, b.made) rest.ran;
          reached = rest.reached;
          longer = omega (arith, rest.longer, a.longer, b.longer);
        },
      )

  -- However often a report under review is sent back for evidence and taken up again, the
  -- transitions succeed, and the record is one that a review can reach. But once its history is
  -- longer than eight events, `parseIssueModerationRecord` refuses the record.
  pub long_review_unread :
      (n at : ℕ) (r : IssueRecord)
      → Reached runtime r
      → r.state ≡ under_review
      → r.updated_at ≡ exact at
      → 9 ≤ length r.history + 2 * n
      → (s : IssueRecord) × (review_rounds n at r ≡ ok s)
        × Reached runtime s
        × (is_ok (parse_record runtime s) ≡ false)
  long_review_unread n at r h state updated long =
      let (s, x) = review_rounds_lem n at r h state updated in
      (s, x.ran, x.reached, unread s (omega (arith, x.longer)))
    where
      unread : (s : IssueRecord) → 9 ≤ length s.history → is_ok (parse_record runtime s) ≡ false
      unread s long = elim (Result-cases (parse_record runtime s)) [
        | inl (e, h) ↦ rw h refl
        | inr (x, h) ↦
            (let (_, _, short) = (parse_record_iff runtime s x).0 h in
              absurd (omega (arith, short)))
      ]
