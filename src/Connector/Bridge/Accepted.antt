-- ===== src/Connector/Bridge/Accepted.antt =====
-- The result of every resolved promise was sent by the page of an authenticated session, to which its
-- command had been delivered.
use webmcp_security_lab.Prelude.{
  ℕ, ◌≡◌, refl, sym, ap, ◌∙◌, Bool, true, false, Option, none, some, String, arith, eq_iff,
  Bool-cases, Option-cases, inl, inr, ◌==◌, string_eq,
}
use webmcp_security_lab.Prelude.Result.{ok, ◌>>◌, >>=-eq-ok, ok-injective, Result-cases}
use webmcp_security_lab.Prelude.Dict.{get, Each-set, Each-get}
use webmcp_security_lab.Connector.Bridge.{
  unknown_command, different_result_accepted, different_result_committing, no_longer_pending,
  BridgeCommand, BridgeCommandResult, InternalSession, PendingCommand, ClosedCommand,
  CommittingCommand, Coordinator, assert_result_binding,
}
use webmcp_security_lab.Connector.Bridge.Sessions.{authenticate}
use webmcp_security_lab.Connector.Bridge.Completion.{
  check_repeat, repeat_completed, repeat_committing, own_pending, delivered, check_first, commit_of,
  accept_result, first_result, complete_for, complete,
}
use webmcp_security_lab.Connector.Bridge.Vouching.{IsVouched, same-IsVouched}
use webmcp_security_lab.Connector.Bridge.Provenance.{
  finalize_completion-IsVouched, wait_for_commit-IsVouched,
}

-- A session, and the command that was in flight in it when a result passed the check.
pub record IsBoundTo (digest : String → String) (session_id token : String)
    (result : BridgeCommandResult) (c : Coordinator) : Type 0 where
  pub session : InternalSession
  pub command : BridgeCommand
  pub authenticated : authenticate digest session_id token c ≡ ok session
  pub in_flight : session.in_flight ≡ some command
  pub same_id : command.id ≡ result.command_id
  pub bound : assert_result_binding session command result ≡ ok tt

module _ (canonical_json : BridgeCommandResult → String) where
  delivered_lem :
      (id : String) (o : Option BridgeCommand) (command : BridgeCommand)
      → delivered canonical_json id o ≡ ok command
      → (o ≡ some command) × (command.id ≡ id)
  unfolding delivered
  delivered_lem id none command h = absurd (cc)
  delivered_lem id (some x) command h = elim (Bool-cases (x.id == id)) [
    | inl mine ↦
        let same : x ≡ command = ground arith in
        (ap some same, ap (λ (b : BridgeCommand). b.id) (sym same) ∙ (eq_iff x.id id).0 mine)
    | inr other ↦ absurd (ground arith)
  ]

  check_first_lem :
      (session_id : String) (s : InternalSession) (result : BridgeCommandResult) (c : Coordinator)
      (p : PendingCommand) (command : BridgeCommand)
      → check_first canonical_json session_id s result c ≡ ok (p, command)
      → (s.in_flight ≡ some command)
        × (command.id ≡ result.command_id)
        × (assert_result_binding s command result ≡ ok tt)
  unfolding check_first
  check_first_lem session_id s result c p command h =
      let (q, owned, rest) =
        >>=-eq-ok
          (own_pending canonical_json unknown_command session_id (get result.command_id c.pending))
          _ h in
      let (x, given, rest') =
        >>=-eq-ok (delivered canonical_json result.command_id s.in_flight) _ rest in
      let (u, bound, last) = >>=-eq-ok (assert_result_binding s x result) (λ u. ok (q, x)) rest' in
      let same : x ≡ command =
        ap (λ (r : PendingCommand × BridgeCommand). r.1) (ok-injective last) in
      let (flying, named) = delivered_lem result.command_id s.in_flight x given in
      (
        flying ∙ ap some same,
        ap (λ (b : BridgeCommand). b.id) (sym same) ∙ named,
        ap (λ b. assert_result_binding s b result) (sym same) ∙ bound,
      )

  module _ (P : BridgeCommandResult → Type 0) where
    accept_result-IsVouched :
        (commits : Bool) (now : ℕ) (session_id : String) (result : BridgeCommandResult)
        (p : PendingCommand) (command : BridgeCommand) (c : Coordinator)
        → P result
        → IsVouched P c
        → IsVouched P (accept_result canonical_json commits now session_id result p command c).0
    unfolding accept_result
    accept_result-IsVouched true now session_id result p command c vouched v =
        wait_for_commit-IsVouched P p.serial
          (commit_of canonical_json session_id c.next_serial command result) _ vouched
          (record {
            commits =
                Each-set (λ m. P m.result) result.command_id
                  (commit_of canonical_json session_id c.next_serial command result) c.committing
                  vouched v.commits;
            outcomes = v.outcomes;
          })
    accept_result-IsVouched false now session_id result p command c vouched v =
        finalize_completion-IsVouched P now session_id p.serial command result
          (canonical_json result) none c vouched v

    repeat_completed-IsVouched :
        (now : ℕ) (session_id : String) (s : InternalSession) (result : BridgeCommandResult)
        (done : ClosedCommand) (c : Coordinator)
        → IsVouched P c
        → IsVouched P (repeat_completed canonical_json now session_id s result done c).0
    unfolding repeat_completed
    repeat_completed-IsVouched now session_id s result done c v =
        elim (Result-cases (
          check_repeat canonical_json session_id s result done.session_id done.command
            done.canonical_result different_result_accepted)) [
              | inl (e, failed) ↦ rw (failed, repeat_completed) v
              | inr (u, same) ↦ rw (same, repeat_completed) (same-IsVouched P c _ refl refl v)
            ]

    repeat_committing-IsVouched :
        (session_id : String) (s : InternalSession) (result : BridgeCommandResult)
        (m : CommittingCommand) (c : Coordinator)
        → P m.result
        → IsVouched P c
        → IsVouched P (repeat_committing canonical_json session_id s result m c).0
    unfolding repeat_committing
    repeat_committing-IsVouched session_id s result m c vouched v =
        elim (Result-cases (do
          check_repeat canonical_json session_id s result m.session_id m.command m.canonical_result
              different_result_committing
          own_pending canonical_json no_longer_pending session_id
              (get result.command_id c.pending))) [
                | inl (e, failed) ↦ rw (failed, repeat_committing) v
                | inr (p, same) ↦
                    rw (same, repeat_committing)
                      (wait_for_commit-IsVouched P p.serial m c vouched v)
              ]

    pub complete-IsVouched :
        (digest : String → String) (now : ℕ) (session_id token : String)
        (result : BridgeCommandResult) (c : Coordinator)
        → (IsBoundTo digest session_id token result c → P result)
        → IsVouched P c
        → IsVouched P (complete canonical_json digest now session_id token result c).0
    unfolding complete complete_for first_result
    complete-IsVouched digest now session_id token result c vouch v =
        elim (Result-cases (authenticate digest session_id token c)) [
          | inl (e, failed) ↦ rw (failed, complete) v
          | inr (s, found) ↦ rw (found, complete) (decided s found)
        ]
      where
        first :
            (s : InternalSession)
            → authenticate digest session_id token c ≡ ok s
            → IsVouched P (first_result canonical_json now session_id s result c).0
        first s found = elim (Result-cases (check_first canonical_json session_id s result c)) [
          | inl (e, failed) ↦ rw (failed, first_result) v
          | inr ((p, command), checked) ↦
              let (flying, same, bound) = check_first_lem session_id s result c p command checked in
              rw (checked, first_result)
                (accept_result-IsVouched c.commits now session_id result p command c
                  (vouch (record {
                    session = s;
                    command = command;
                    authenticated = found;
                    in_flight = flying;
                    same_id = same;
                    bound = bound;
                  }))
                  v)
        ]

        decided :
            (s : InternalSession)
            → authenticate digest session_id token c ≡ ok s
            → IsVouched P (complete_for canonical_json now session_id s result c).0
        decided s found = elim (Option-cases (get result.command_id c.completed)) [
          | inr (done, was) ↦
              rw (was, complete_for) (repeat_completed-IsVouched now session_id s result done c v)
          | inl undone ↦ elim (Option-cases (get result.command_id c.refused)) [
            | inr (refused, was) ↦ rw (undone, was, complete_for) v
            | inl free ↦ elim (Option-cases (get result.command_id c.committing)) [
              | inr (m, latched) ↦
                  rw (undone, free, latched, complete_for)
                    (repeat_committing-IsVouched session_id s result m c
                      (Each-get (λ x. P x.result) result.command_id c.committing m v.commits
                        latched)
                      v)
              | inl new ↦ rw (undone, free, new, complete_for) (first s found)
            ]
          ]
        ]
