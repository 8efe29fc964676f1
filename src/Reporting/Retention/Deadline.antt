-- ===== src/Reporting/Retention/Deadline.antt =====
-- retention-core.ts: the deadline of a report is set once.
use webmcp_security_lab.Prelude.{
  ℕ, ◌≤◌, ◌+◌, ◌*◌, ◌≡◌, refl, sym, ap, ◌∙◌, false, ◌||◌, none, String, List, [], ◌∷◌, ltb, arith,
  string_eq,
}
use webmcp_security_lab.Prelude.Result.{ok, refuse_passed, >>=-eq-ok, ok-injective}
use webmcp_security_lab.Prelude.Dates.{DateText, exact, to_iso}
use webmcp_security_lab.Reporting.Retention.{
  RetentionAction, RetentionState, RetentionEvent, EventBody, LegalHoldInput, bad_days,
  create_retention, ActorRole, exact_time, make_event, state_from_event,
}
use webmcp_security_lab.Reporting.Retention.Chain.{
  IsNext, hold_history, IsChain, hold_history-IsChain, IsMade, make_event-IsMade, exact_time-parse,
}

module _ (hash : EventBody → String) where
  IsChain-deadline :
      (events : List RetentionEvent) (s t : RetentionState)
      → IsChain hash s events t
      → t.retain_until ≡ s.retain_until
  IsChain-deadline [] s t same = ap (λ (x : RetentionState). x.retain_until) (sym same)
  IsChain-deadline (event ∷ events) s t (next, later) =
      IsChain-deadline events (state_from_event event) t later ∙ kept event next
    where
      kept :
          (e : RetentionEvent)
          → IsNext hash s e
          → (state_from_event e).retain_until ≡ s.retain_until
      kept e next = unfold state_from_event in IsNext.same_deadline next

  -- The deadline of a report whose retention was created is the given days after it was received, one
  -- day at least and 3650 at most, and no history of legal holds moves it.
  pub deadline_kept :
      (event_id report_id policy request_id : String) (received_at : DateText) (days : ℕ)
      (s t : RetentionState) (event : RetentionEvent) (inputs : List LegalHoldInput)
      (events : List RetentionEvent)
      → create_retention hash event_id report_id received_at days policy request_id ≡ ok (s, event)
      → hold_history hash s inputs ≡ ok (t, events)
      → (n : ℕ) × (received_at ≡ exact n)
        × (t.retain_until ≡ exact (n + days * 86400000))
        × (1 ≤ days)
        × (days ≤ 3650)
  unfolding create_retention
  deadline_kept event_id report_id policy request_id received_at days s t event inputs events h
        held =
      let (n, time, h1) = >>=-eq-ok (exact_time received_at) _ h in
      let (within, h2) = refuse_passed (ltb days 1 || ltb 3650 days) bad_days h1 in
      let (made, e, h3) =
        >>=-eq-ok
          (make_event hash (record {
            event_id = event_id;
            report_id = report_id;
            revision = 1;
            at = received_at;
            actor = record { id = "system.retention-policy"; role = ActorRole.system };
            request_id = request_id;
            action = RetentionAction.policy_assigned;
            legal_hold = false;
            retain_until = to_iso (n + days * 86400000);
            policy_version = policy;
            previous_event_sha256 = none;
          }))
          _ h2 in
      let kept = IsChain-deadline events s t (hold_history-IsChain hash s t inputs events held) in
      (
        n,
        exact_time-parse received_at n time,
        kept ∙ start _ made (IsMade.made (make_event-IsMade hash _ made e)) (ok-injective h3),
        ground arith,
        ground arith,
      )
    where
      start :
          (body : EventBody) (made : RetentionEvent)
          → made ≡ record { body = body; event_sha256 = hash body }
          → ◌≡◌ {A = RetentionState × RetentionEvent} (state_from_event made, made) (s, event)
          → s.retain_until ≡ body.retain_until
      start body made shape pair =
          ap (λ (r : RetentionState × RetentionEvent). r.0.retain_until) (sym pair)
          ∙ ap (λ x. (state_from_event x).retain_until) shape
          ∙ unfold state_from_event in refl
