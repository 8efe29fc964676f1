-- ===== src/Operator/Actions/Authority.antt =====
-- reviewer-access.ts: what a page can do with a token.
use webmcp_security_lab.Prelude.{
  ℕ, ◌≡◌, refl, sym, subst, ◌∙◌, true, false, not, ◌&&◌, ◌||◌, Option, none, some, String, List, [],
  ◌∷◌, inl, inr, filter, All, arith, ◌==◌, string_eq, eq_iff, Bool-cases, leb,
}
use webmcp_security_lab.Prelude.Result.{
  Result, ok, err, ◌>>◌, guard, guard_passed, refuse_passed, ok-injective,
}
use webmcp_security_lab.Prelude.Dict.{get, Each, Each-delete, Each-discard, Each-get}
use webmcp_security_lab.Prelude.Text.{is_uuid, is_sha256}
use webmcp_security_lab.Issues.Model.{
  ModerationState, same_state, received, quarantined, under_review, needs_evidence,
  accepted_private, duplicate, rejected, published,
}
use webmcp_security_lab.Issues.Moderation.{allowed_transitions, is_allowed}
use webmcp_security_lab.Operator.Actions.{
  ActionError, bad_scope, bad_token, invalid_action, ActionKind, ReviewerAction, view, page,
  kind_of, same_kind, StoredAction, ActionManager, is_bounded_token, is_reviewer_target,
  has_expired, sweep, is_cursor, match_reviewed, revoke_actions, dispose_reviewed, issue_view,
  issue_page, issue_transitions, consume_reviewed,
}
use webmcp_security_lab.Operator.Actions.Issued.{
  Call, viewed, paged, moved, consumed, revoked, disposed, step, run, Offered, Holds, IsOffered,
  tested-IsOffered, sweep-IsOffered, issue-IsOffered, issue_each-IsOffered, Offers-targets,
}

is_allowed-All :
    (state : ModerationState) → All (λ to. is_allowed state to ≡ true) (allowed_transitions state)
unfolding is_allowed allowed_transitions same_state
is_allowed-All received = (refl, tt)
is_allowed-All quarantined = (refl, (refl, (refl, tt)))
is_allowed-All under_review = (refl, (refl, (refl, (refl, tt))))
is_allowed-All needs_evidence = (refl, (refl, tt))
is_allowed-All accepted_private = (refl, (refl, tt))
is_allowed-All duplicate = tt
is_allowed-All rejected = tt
is_allowed-All published = tt

All-map :
    {A : Type 0} {P Q : A → Type 0} (xs : List A) → ((x : A) → P x → Q x) → All P xs → All Q xs
All-map [] f h = tt
All-map (x ∷ xs) f (p, h) = (f x p, All-map xs f h)

match_reviewed-ok :
    (later : ℕ) (stored : StoredAction) (scope : String) (kind : ActionKind)
    (action : ReviewerAction)
    → match_reviewed later (some stored) scope kind ≡ ok action
    → (stored.scope ≡ scope) × (stored.action ≡ action)
unfolding match_reviewed
match_reviewed-ok later stored scope kind action h =
    let (tests, last) =
      refuse_passed
        (has_expired later stored
          || not (stored.scope == scope)
          || not (same_kind (kind_of stored.action) kind))
        invalid_action h in
    let same : (stored.scope == scope) ≡ true = ground arith in
    ((eq_iff stored.scope scope).0 same, ok-injective last)

module _ (digest rewritten : String → String) where
  abbrev IsKnown : List Call → ActionManager → Type 0
  IsKnown past m = IsOffered (Offered rewritten past) m

  later_too :
      (call : Call) (past : List Call) (m : ActionManager)
      → IsKnown past m
      → IsKnown (call ∷ past) m
  later_too call past m h = All-map m.actions (λ e p. inr p) h

  step-IsKnown :
      (call : Call) (past : List Call) (m : ActionManager)
      → IsKnown past m
      → IsKnown (call ∷ past) (step digest rewritten call m)
  unfolding step issue_view issue_page issue_transitions consume_reviewed revoke_actions
      dispose_reviewed
  step-IsKnown (viewed reading scope report_id) past m h =
      let call = viewed reading scope report_id in
      let known = later_too call past m h in
      tested-IsOffered (Offered rewritten (call ∷ past)) (is_uuid report_id) _ _
        (λ shaped.
          issue-IsOffered digest (Offered rewritten (call ∷ past)) reading scope (view report_id) m
            (inl (refl, refl, shaped)) known)
        (λ other. known)
  step-IsKnown (paged reading scope cursor) past m h =
      let call = paged reading scope cursor in
      let known = later_too call past m h in
      tested-IsOffered (Offered rewritten (call ∷ past)) (is_cursor rewritten cursor) _ _
        (λ shaped.
          issue-IsOffered digest (Offered rewritten (call ∷ past)) reading scope (page cursor) m
            (inl (refl, refl, shaped)) known)
        (λ other. known)
  step-IsKnown (moved readings source) past m h =
      let call = moved readings source in
      let known = later_too call past m h in
      tested-IsOffered (Offered rewritten (call ∷ past)) (not (is_sha256 source.scope)) _ _
        (λ other. known)
        (λ scoped.
          tested-IsOffered (Offered rewritten (call ∷ past)) (not (is_uuid source.report_id)) _ _
            (λ other. known)
            (λ shaped.
              tested-IsOffered (Offered rewritten (call ∷ past))
                (not
                  (leb 1 source.expected_revision && leb source.expected_revision 9007199254740991))
                _ _ (λ other. known)
                (λ safe.
                  issue_each-IsOffered digest (Offered rewritten (call ∷ past)) readings source
                    (filter is_reviewer_target (allowed_transitions source.state)) m
                    (Offers-targets rewritten readings source past
                      (allowed_transitions source.state) (ground (arith, shaped))
                      (is_allowed-All source.state))
                    known)))
  step-IsKnown (consumed now later token scope kind) past m h =
      let call = consumed now later token scope kind in
      let swept =
        sweep-IsOffered (Offered rewritten (call ∷ past)) now m (later_too call past m h) in
      tested-IsOffered (Offered rewritten (call ∷ past)) (not (is_bounded_token token)) _ _
        (λ other. swept)
        (λ bounded.
          Each-delete (Holds (Offered rewritten (call ∷ past))) (digest token) (sweep now m).actions
            swept)
  step-IsKnown (revoked scope) past m h =
      let known = later_too (revoked scope) past m h in
      tested-IsOffered (Offered rewritten (revoked scope ∷ past)) (is_sha256 scope) _ _
        (λ shaped.
          Each-discard (Holds (Offered rewritten (revoked scope ∷ past)))
            (λ stored. stored.scope == scope) m.actions known)
        (λ other. known)
  step-IsKnown disposed past m h = tt

  run-IsKnown :
      (past : List Call) (m : ActionManager)
      → m.actions ≡ []
      → IsKnown past (run digest rewritten past m)
  unfolding run
  run-IsKnown [] m empty = subst (Each (Holds (Offered rewritten []))) (sym empty) tt
  run-IsKnown (call ∷ past) m empty =
      step-IsKnown call past (run digest rewritten past m) (run-IsKnown past m empty)

  taken :
      (later : ℕ) (found : Option StoredAction) (scope : String) (kind : ActionKind)
      (action : ReviewerAction) (P : String → ReviewerAction → Type 0)
      → ((stored : StoredAction) → found ≡ some stored → Holds P stored)
      → match_reviewed later found scope kind ≡ ok action
      → P scope action
  taken later none scope kind action P holds h = absurd (unfold match_reviewed in cc)
  taken later (some stored) scope kind action P holds h =
      let (scopes, actions) = match_reviewed-ok later stored scope kind action h in
      subst (P scope) actions (subst (λ s. P s stored.action) scopes (holds stored refl))

  module _ (now later : ℕ) (token scope : String) (kind : ActionKind) (m : ActionManager) where
    consume_bounded :
        is_bounded_token token ≡ true
        → (consume_reviewed digest now later token scope kind m).1 ≡ (do
          guard (is_sha256 scope) bad_scope
          match_reviewed later (get (digest token) (sweep now m).actions) scope kind)
    unfolding consume_reviewed
    consume_bounded bounded = rw bounded refl

    consume_unbounded :
        is_bounded_token token ≡ false
        → (consume_reviewed digest now later token scope kind m).1 ≡ err bad_token
    unfolding consume_reviewed
    consume_unbounded other = rw other refl

    consume_reviewed_lem :
        (action : ReviewerAction)
        → (consume_reviewed digest now later token scope kind m).1 ≡ ok action
        → match_reviewed later (get (digest token) (sweep now m).actions) scope kind ≡ ok action
    consume_reviewed_lem action h = elim (Bool-cases (is_bounded_token token)) [
      | inr other ↦ absurd (
          let refused : ◌≡◌ {A = Result ActionError ReviewerAction} (err bad_token) (ok action) =
            sym (consume_unbounded other) ∙ h in
          cc)
      | inl bounded ↦
          (guard_passed (is_sha256 scope) bad_scope (sym (consume_bounded bounded) ∙ h)).1
    ]

  -- Whatever calls were made of a manager that was empty, an action that a page of a scope is given
  -- for a token was offered to that very scope by one of them: a report to view, a page of reports,
  -- or a move of a report, at the revision that was shown, to a state that the moderation allows from
  -- the state that was shown and that a reviewer may reach.
  pub consume-Offered :
      (past : List Call) (empty : ActionManager) (now later : ℕ) (token scope : String)
      (kind : ActionKind) (action : ReviewerAction)
      → empty.actions ≡ []
      → (consume_reviewed digest now later token scope kind (run digest rewritten past empty)).1
        ≡ ok action
      → Offered rewritten past scope action
  consume-Offered past empty now later token scope kind action none_yet h =
      let m = run digest rewritten past empty in
      let known =
        sweep-IsOffered (Offered rewritten past) now m (run-IsKnown past empty none_yet) in
      taken later (get (digest token) (sweep now m).actions) scope kind action
        (Offered rewritten past)
        (λ stored.
          Each-get (Holds (Offered rewritten past)) (digest token) (sweep now m).actions stored
            known)
        (consume_reviewed_lem now later token scope kind m action h)
