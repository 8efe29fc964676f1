-- ===== src/Operator/Actions/Issued.antt =====
-- reviewer-access.ts: which actions a token can carry.
use webmcp_security_lab.Prelude.{
  ℕ, suc, ◌≡◌, ◌⊎◌, refl, Bool, true, false, not, String, List, [], ◌∷◌, inl, inr, filter, All,
  string_eq, Bool-cases, if◌then◌else◌,
}
use webmcp_security_lab.Prelude.Result.{Result, ok, err}
use webmcp_security_lab.Prelude.Dict.{Each, Each-set, Each-discard, Each-evict, evict}
use webmcp_security_lab.Prelude.Text.{is_uuid, is_sha256}
use webmcp_security_lab.Issues.Model.{ModerationState, state_eq}
use webmcp_security_lab.Issues.Moderation.{is_allowed}
use webmcp_security_lab.Operator.Actions.{
  ActionError, ActionKind, ReviewerAction, view, page, transition, StoredAction, ActionManager,
  Reading, TransitionSource, IssuedTransition, is_bounded_token, is_reviewer_target, has_expired,
  sweep, is_cursor, revoke_actions, dispose_reviewed, store_action, issue, issue_view, issue_page,
  join_issued, issue_each, issue_transitions, consume_reviewed,
}

-- A call of a manager's methods.
pub data Call : Type 0 where
  viewed : Reading → (scope report_id : String) → Call
  paged : Reading → (scope cursor : String) → Call
  moved : (ℕ → Reading) → TransitionSource → Call
  consumed : (now later : ℕ) (token scope : String) → ActionKind → Call
  revoked : String → Call
  disposed : Call

module _ (digest rewritten : String → String) where
  unfoldable pub step : Call → ActionManager → ActionManager
  step (viewed reading scope report_id) m = (issue_view digest reading scope report_id m).0
  step (paged reading scope cursor) m = (issue_page digest rewritten reading scope cursor m).0
  step (moved readings source) m = (issue_transitions digest readings source m).0
  step (consumed now later token scope kind) m =
      (consume_reviewed digest now later token scope kind m).0
  step (revoked scope) m = (revoke_actions scope m).0
  step disposed m = dispose_reviewed m

  -- The calls, the latest first.
  unfoldable pub run : List Call → ActionManager → ActionManager
  unfolding step
  run [] m = m
  run (call ∷ past) m = step call (run past m)

module _ (rewritten : String → String) where
  -- The actions that a call offers to the pages of a scope.
  abbrev pub Offers : Call → String → ReviewerAction → Type 0
  Offers (viewed reading scope report_id) s a =
      (s ≡ scope) × (a ≡ view report_id) × (is_uuid report_id ≡ true)
  Offers (paged reading scope cursor) s a =
      (s ≡ scope) × (a ≡ page cursor) × (is_cursor rewritten cursor ≡ true)
  Offers (moved readings source) s a =
      (to : ModerationState) × (s ≡ source.scope)
      × (a ≡ transition source.report_id source.expected_revision to)
      × (is_uuid source.report_id ≡ true)
      × (is_allowed source.state to ≡ true)
      × (is_reviewer_target to ≡ true)
  Offers (consumed now later token scope kind) s a = ⊥
  Offers (revoked scope) s a = ⊥
  Offers disposed s a = ⊥

  abbrev pub Offered : List Call → String → ReviewerAction → Type 0
  Offered [] s a = ⊥
  Offered (call ∷ past) s a = Offers call s a ⊎ Offered past s a

module _ (P : String → ReviewerAction → Type 0) where
  abbrev pub Holds : StoredAction → Type 0
  Holds stored = P stored.scope stored.action

  abbrev pub IsOffered : ActionManager → Type 0
  IsOffered m = Each Holds m.actions

  -- A test that a method makes.
  pub tested-IsOffered :
      {R : Type 0} (test : Bool) (passed refused : ActionManager × R)
      → (test ≡ true → IsOffered passed.0)
      → (test ≡ false → IsOffered refused.0)
      → IsOffered (if test then passed else refused).0
  tested-IsOffered true passed refused h k = h refl
  tested-IsOffered false passed refused h k = k refl

  pub sweep-IsOffered : (now : ℕ) (m : ActionManager) → IsOffered m → IsOffered (sweep now m)
  unfolding sweep
  sweep-IsOffered now m h = Each-discard Holds (has_expired now) m.actions h

module _ (digest : String → String) (P : String → ReviewerAction → Type 0) where
  store_action-IsOffered :
      (reading : Reading) (scope : String) (action : ReviewerAction) (m : ActionManager)
      → P scope action
      → IsOffered P m
      → IsOffered P (store_action digest reading scope action m).0
  unfolding store_action
  store_action-IsOffered reading scope action m p h =
      tested-IsOffered P (not (is_sha256 scope)) _ _ (λ e. h)
        (λ e.
          tested-IsOffered P (not (is_bounded_token reading.secret)) _ _ (λ e. h)
            (λ e. Each-set (Holds P) (digest reading.secret) _ m.actions p h))

  pub issue-IsOffered :
      (reading : Reading) (scope : String) (action : ReviewerAction) (m : ActionManager)
      → P scope action
      → IsOffered P m
      → IsOffered P (issue digest reading scope action m).0
  unfolding issue
  issue-IsOffered reading scope action m p h =
      let swept = sweep reading.now m in
      store_action-IsOffered reading scope action
        (record swept { actions = evict 256 swept.actions }) p
        (Each-evict (Holds P) 256 swept.actions (sweep-IsOffered P reading.now m h))

  pub issue_each-IsOffered :
      (readings : ℕ → Reading) (source : TransitionSource) (targets : List ModerationState)
      (m : ActionManager)
      → All (λ to. P source.scope (transition source.report_id source.expected_revision to)) targets
      → IsOffered P m
      → IsOffered P (issue_each digest readings source targets m).0
  unfolding issue_each join_issued
  issue_each-IsOffered readings source [] m p h = h
  issue_each-IsOffered readings source (to ∷ targets) m (p, ps) h =
      let action = transition source.report_id source.expected_revision to in
      let first = issue digest (readings 0) source.scope action m in
      let kept = issue-IsOffered (readings 0) source.scope action m p h in
      let later = issue_each-IsOffered (λ n. readings (suc n)) source targets first.0 ps kept in
      joined first.0 to first.1 (issue_each digest (λ n. readings (suc n)) source targets first.0)
        kept later
    where
      joined :
          (before : ActionManager) (to : ModerationState) (issued : Result ActionError String)
          (rest : ActionManager × Result ActionError (List IssuedTransition))
          → IsOffered P before
          → IsOffered P rest.0
          → IsOffered P (join_issued digest before to issued rest).0
      joined before to (err e) rest h k = h
      joined before to (ok token) rest h k = k

module _ (rewritten : String → String) where
  pub Offers-targets :
      (readings : ℕ → Reading) (source : TransitionSource) (past : List Call)
      (targets : List ModerationState)
      → is_uuid source.report_id ≡ true
      → All (λ to. is_allowed source.state to ≡ true) targets
      → All
          (λ to.
            Offered rewritten
              (moved readings source ∷ past)
              source.scope
              (transition source.report_id source.expected_revision to))
          (filter is_reviewer_target targets)
  Offers-targets readings source past [] shaped h = tt
  Offers-targets readings source past (to ∷ targets) shaped (allowed, h) =
      let later = Offers-targets readings source past targets shaped h in
      elim (Bool-cases (is_reviewer_target to)) [
        | inl reviewer ↦ rw reviewer (inl (to, refl, refl, shaped, allowed, reviewer), later)
        | inr other ↦ rw other later
      ]
