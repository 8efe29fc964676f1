-- ===== src/Reporting/Retention/Reading.antt =====
-- retention-core.ts: what is made is read back as it was.
use webmcp_security_lab.Prelude.{
  ◌≡◌, sym, ap, subst, ◌∙◌, true, false, not, ◌||◌, String, ltb, arith, eq_refl, string_eq,
}
use webmcp_security_lab.Prelude.Result.{ok}
use webmcp_security_lab.Prelude.Text.{is_sha256}
use webmcp_security_lab.Reporting.Retention.{
  RetentionState, RetentionEvent, EventBody, LegalHoldInput, hold_body, make_event,
  state_from_event, parse_retention_state, transition_legal_hold, parse_retention_event,
}
use webmcp_security_lab.Reporting.Retention.Chain.{IsMade, make_event-IsMade, transition_lem}

module _ (hash : EventBody → String) (body : EventBody)
    (hashed : is_sha256 (hash body) ≡ true) where
  abbrev event_of : RetentionEvent
  event_of = record { body = body; event_sha256 = hash body }

  event_read :
      make_event hash body ≡ ok event_of → parse_retention_event hash event_of ≡ ok event_of
  unfolding parse_retention_event
  event_read made = rw (hashed, made, eq_refl (hash body))

  state_read :
      IsMade hash body event_of
      → parse_retention_state (state_from_event event_of) ≡ ok (state_from_event event_of)
  unfolding parse_retention_state state_from_event
  state_read m =
      let (a, report) = m.report in
      let (b, time) = m.time in
      let (c, deadline) = m.deadline in
      let (d, policy) = m.policy in
      let within : (ltb 9007199254740991 body.revision
            || ltb body.revision 1
            || not (is_sha256 (hash body)))
          ≡ false =
        ground (arith, hashed, m.bounded) in
      rw (within, report, time, deadline, policy)

module _ (hash : EventBody → String) where
  -- Where SHA-256 gives 64 hexadecimal digits, a change of the hold that is made is read back as it
  -- was: its event and its state both parse to themselves.
  pub transition-parse :
      (current s : RetentionState) (input : LegalHoldInput) (event : RetentionEvent)
      → ((body : EventBody) → is_sha256 (hash body) ≡ true)
      → transition_legal_hold hash current input ≡ ok (s, event)
      → (parse_retention_event hash event ≡ ok event) × (parse_retention_state s ≡ ok s)
  transition-parse current s input event hashes h =
      let (next, same, made) = transition_lem hash current input s event h in
      let m = make_event-IsMade hash (hold_body current input) event made in
      read (hold_body current input) event s made m (IsMade.made m) same
    where
      read :
          (body : EventBody) (e : RetentionEvent) (s : RetentionState)
          → make_event hash body ≡ ok e
          → IsMade hash body e
          → e ≡ record { body = body; event_sha256 = hash body }
          → s ≡ state_from_event e
          → (parse_retention_event hash e ≡ ok e) × (parse_retention_state s ≡ ok s)
      read body e s made m shape same = (
        subst (λ x. parse_retention_event hash x ≡ ok x) (sym shape)
            (event_read hash body (hashes body) (made ∙ ap ok shape)),
        subst (λ x. parse_retention_state x ≡ ok x) (sym (same ∙ ap state_from_event shape))
            (state_read hash body (hashes body) (subst (IsMade hash body) shape m)),
      )
