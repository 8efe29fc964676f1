-- ===== src/Connector/Bridge/Trace.antt =====
-- The calls and the callbacks that reach a coordinator, and the moves that they make.
use webmcp_security_lab.Prelude.{
  ℕ, ◌≡◌, refl, Bool, true, false, none, String, List, [], ◌∷◌, arith, Bool-cases, Option-cases,
  inl, inr, string_eq,
}
use webmcp_security_lab.Prelude.Result.{◌>>◌, Result-cases}
use webmcp_security_lab.Prelude.Dict.{Dict, get, discard}
use webmcp_security_lab.Prelude.Url.{UrlParser}
use webmcp_security_lab.Connector.Bridge.{
  different_result_accepted, different_result_committing, no_longer_pending, revoked, shutting_down,
  BridgeCommand, BridgeCommandResult, InternalSession, PendingCommand, ClosedCommand,
  CommittingCommand, Coordinator,
}
use webmcp_security_lab.Connector.Bridge.Sessions.{
  PairPageInput, check_pairing, pair, authenticate, heartbeat, belongs_to, revoke, end_session,
  dispose,
}
use webmcp_security_lab.Connector.Bridge.Delivery.{
  request_inspection, request_approved_invocation, poll, fire_timer,
}
use webmcp_security_lab.Connector.Bridge.Commit.{
  CommitOutcome, wait_for_commit, ensure_attempt, end_waiter, settle_attempt,
}
use webmcp_security_lab.Connector.Bridge.Completion.{
  repeat_completed, repeat_committing, own_pending, check_first, accept_result, first_result,
  complete_for, complete, check_repeat,
}
use webmcp_security_lab.Connector.Bridge.Moves.{
  Move, kept, ended, unchanged, set_timer-Move, enqueue-Move, poll-Move, fire_timer-Move,
}
use webmcp_security_lab.Connector.Bridge.CommitMoves.{
  finalize_completion-Move, settle_attempt-Move, wait_for_commit-Move,
}

pub data Event : Type 0 where
  pairs :
      (now : ℕ) (session_id bridge_token next_pair_code : String) (input : PairPageInput) → Event
  heartbeats polls : (now : ℕ) (session_id bridge_token : String) → Event
  completes : (now : ℕ) (session_id bridge_token : String) (result : BridgeCommandResult) → Event
  revokes : (now : ℕ) (session_id bridge_token : String) → Event
  inspects : (issued now : ℕ) (command_id session_id : String) → Event
  invokes : (issued now : ℕ) (command_id session_id tool_name : String) → Event
  timer_fires waiter_ends : (command_id : String) → Event
  attempt_ends : (now : ℕ) (command_id : String) (serial : ℕ) (outcome : CommitOutcome) → Event
  disposes : Event

module _ (canonical_json : BridgeCommandResult → String) where
  repeat_completed-Move :
      (now : ℕ) (session_id : String) (s : InternalSession) (result : BridgeCommandResult)
      (done : ClosedCommand) (c : Coordinator)
      → Move c (repeat_completed canonical_json now session_id s result done c).0
  unfolding repeat_completed
  repeat_completed-Move now session_id s result done c =
      elim (Result-cases (
        check_repeat canonical_json session_id s result done.session_id done.command
          done.canonical_result different_result_accepted)) [
            | inl (e, failed) ↦ rw (failed, repeat_completed) (unchanged c)
            | inr (u, same) ↦ rw (same, repeat_completed) (kept refl refl (omega arith))
          ]

  repeat_committing-Move :
      (session_id : String) (s : InternalSession) (result : BridgeCommandResult)
      (m : CommittingCommand) (c : Coordinator)
      → Move c (repeat_committing canonical_json session_id s result m c).0
  unfolding repeat_committing
  repeat_committing-Move session_id s result m c =
      elim (Result-cases (do
        check_repeat canonical_json session_id s result m.session_id m.command m.canonical_result
            different_result_committing
        own_pending canonical_json no_longer_pending session_id
            (get result.command_id c.pending))) [
              | inl (e, failed) ↦ rw (failed, repeat_committing) (unchanged c)
              | inr (p, same) ↦ rw (same, repeat_committing) (wait_for_commit-Move p.serial m c)
            ]

  accept_result-Move :
      (commits : Bool) (now : ℕ) (session_id : String) (result : BridgeCommandResult)
      (p : PendingCommand) (command : BridgeCommand) (c : Coordinator)
      → Move c (accept_result canonical_json commits now session_id result p command c).0
  unfolding accept_result wait_for_commit ensure_attempt
  accept_result-Move true now session_id result p command c =
      set_timer-Move false result.command_id p.serial c _ refl refl (omega arith)
  accept_result-Move false now session_id result p command c =
      finalize_completion-Move now session_id p.serial command result (canonical_json result) none c

  first_result-Move :
      (now : ℕ) (session_id : String) (s : InternalSession) (result : BridgeCommandResult)
      (c : Coordinator)
      → Move c (first_result canonical_json now session_id s result c).0
  unfolding first_result
  first_result-Move now session_id s result c =
      elim (Result-cases (check_first canonical_json session_id s result c)) [
        | inl (e, failed) ↦ rw (failed, first_result) (unchanged c)
        | inr ((p, command), checked) ↦
            rw (checked, first_result)
              (accept_result-Move c.commits now session_id result p command c)
      ]

  complete-Move :
      (digest : String → String) (now : ℕ) (session_id token : String)
      (result : BridgeCommandResult) (c : Coordinator)
      → Move c (complete canonical_json digest now session_id token result c).0
  unfolding complete complete_for
  complete-Move digest now session_id token result c =
      elim (Result-cases (authenticate digest session_id token c)) [
        | inl (e, failed) ↦ rw (failed, complete) (unchanged c)
        | inr (s, found) ↦ rw (found, complete) (decided s)
      ]
    where
      decided :
          (s : InternalSession) → Move c (complete_for canonical_json now session_id s result c).0
      decided s = elim (Option-cases (get result.command_id c.completed)) [
        | inr (done, was) ↦
            rw (was, complete_for) (repeat_completed-Move now session_id s result done c)
        | inl undone ↦ elim (Option-cases (get result.command_id c.refused)) [
          | inr (refused, was) ↦ rw (undone, was, complete_for) (unchanged c)
          | inl free ↦ elim (Option-cases (get result.command_id c.committing)) [
            | inr (m, latched) ↦
                rw (undone, free, latched, complete_for)
                  (repeat_committing-Move session_id s result m c)
            | inl new ↦
                rw (undone, free, new, complete_for) (first_result-Move now session_id s result c)
          ]
        ]
      ]

module _ (parse_url : UrlParser) (digest : String → String)
    (canonical_json : BridgeCommandResult → String) (is_approved : String → Bool) where
  unfoldable pub step : Coordinator → Event → Coordinator
  step c (pairs now session_id bridge_token next_pair_code input) =
      (pair parse_url digest now session_id bridge_token next_pair_code input c).0
  step c (heartbeats now session_id bridge_token) =
      (heartbeat digest now now session_id bridge_token c).0
  step c (polls now session_id bridge_token) = (poll digest now session_id bridge_token c).0
  step c (completes now session_id bridge_token result) =
      (complete canonical_json digest now session_id bridge_token result c).0
  step c (revokes now session_id bridge_token) = (revoke digest now session_id bridge_token c).0
  step c (inspects issued now command_id session_id) =
      (request_inspection issued now command_id session_id c).0
  step c (invokes issued now command_id session_id tool_name) =
      (request_approved_invocation is_approved issued now command_id session_id tool_name c).0
  step c (timer_fires id) = fire_timer id c
  step c (waiter_ends id) = end_waiter id c
  step c (attempt_ends now id serial outcome) = settle_attempt now id serial outcome c
  step c disposes = dispose c

  unfoldable pub run : Coordinator → List Event → Coordinator
  run c [] = c
  run c (e ∷ events) = run (step c e) events

  pair-Move :
      (now : ℕ) (session_id token next : String) (input : PairPageInput) (c : Coordinator)
      → Move c (pair parse_url digest now session_id token next input c).0
  unfolding pair
  pair-Move now session_id token next input c =
      elim (Result-cases (check_pairing parse_url digest input c)) [
        | inl (e, failed) ↦ rw (failed, pair) (unchanged c)
        | inr ((origin, (page, label)), valid) ↦ rw (valid, pair) (kept refl refl (omega arith))
      ]

  session-Move :
      (now : ℕ) (session_id token : String) (c : Coordinator)
      → Move c (heartbeat digest now now session_id token c).0
        × Move c (revoke digest now session_id token c).0
  unfolding heartbeat revoke end_session
  session-Move now session_id token c =
      elim (Result-cases (authenticate digest session_id token c)) [
        | inl (e, failed) ↦
            (rw (failed, heartbeat) (unchanged c), rw (failed, revoke) (unchanged c))
        | inr (s, found) ↦ (
          rw (found, heartbeat) (kept refl refl (omega arith)),
          rw (found, revoke) (ended (belongs_to session_id) revoked refl refl (omega arith)),
        )
      ]

  -- Whatever event comes, it makes one move.
  pub step-Move : (c : Coordinator) (e : Event) → Move c (step c e)
  unfolding step request_inspection request_approved_invocation end_waiter dispose discard
  step-Move c (pairs now session_id token next input) = pair-Move now session_id token next input c
  step-Move c (heartbeats now session_id token) = (session-Move now session_id token c).0
  step-Move c (polls now session_id token) = poll-Move digest now session_id token c
  step-Move c (completes now session_id token result) =
      complete-Move canonical_json digest now session_id token result c
  step-Move c (revokes now session_id token) = (session-Move now session_id token c).1
  step-Move c (inspects issued now id session_id) = enqueue-Move session_id now _ c
  step-Move c (invokes issued now id session_id tool_name) =
      elim (Bool-cases (is_approved tool_name)) [
        | inl approved ↦
            rw (approved, step, request_approved_invocation) (enqueue-Move session_id now _ c)
        | inr other ↦ rw (other, step, request_approved_invocation) (unchanged c)
      ]
  step-Move c (timer_fires id) = fire_timer-Move id c
  step-Move c (waiter_ends id) = elim (Option-cases (get id c.committing)) [
    | inl missing ↦ rw (missing, step, end_waiter) (unchanged c)
    | inr (m, found) ↦ rw (found, step, end_waiter) (kept refl refl (omega arith))
  ]
  step-Move c (attempt_ends now id serial outcome) = settle_attempt-Move now id serial outcome c
  step-Move c disposes = ended (λ p. true) shutting_down (discard_all c.pending) refl (omega arith)
    where
      discard_all : (m : Dict PendingCommand) → [] ≡ discard (λ p. true) m
      discard_all [] = refl
      discard_all (e ∷ m) = discard_all m
