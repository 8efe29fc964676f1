-- ===== src/Connector/Bridge/Replies.antt =====
-- bridge-coordinator.ts: what a second result for a command does.
use webmcp_security_lab.Prelude.{
  ℕ, ◌≡◌, refl, ap, false, Option, none, some, String, Bool-cases, Option-cases, inl, inr, ◌==◌,
  string_eq,
}
use webmcp_security_lab.Prelude.Result.{err, Result-cases}
use webmcp_security_lab.Prelude.Dict.{get}
use webmcp_security_lab.Connector.Bridge.{
  BridgeError, different_session, different_result_accepted, different_result_rejected,
  different_result_committing, BridgeCommand, BridgeCommandResult, InternalSession, ClosedCommand,
  CommittingCommand, Coordinator, assert_result_binding,
}
use webmcp_security_lab.Connector.Bridge.Sessions.{authenticate}
use webmcp_security_lab.Connector.Bridge.Completion.{
  check_repeat, repeat_completed, repeat_rejected, repeat_committing, complete_for, complete,
}

Option-injective : {A : Type 0} {a b : A} → ◌≡◌ {A = Option A} (some a) (some b) → a ≡ b
Option-injective h = cc

module _ (canonical_json : BridgeCommandResult → String) where
  -- The canonical text of the result that was accepted, refused, or is being committed, for a
  -- command.
  unfoldable pub latched_result : String → Coordinator → Option String
  latched_result id c = elim (get id c.completed) [
    | some done ↦ some done.canonical_result
    | none ↦ elim (get id c.refused) [
      | some refused ↦ some refused.canonical_result
      | none ↦ elim (get id c.committing) [ some m ↦ some m.canonical_result | none ↦ none ]
    ]
  ]

  check_repeat_different :
      (session_id : String) (s : InternalSession) (result : BridgeCommandResult) (owner : String)
      (command : BridgeCommand) (text : String) (different : BridgeError)
      → (canonical_json result == text) ≡ false
      → (e : BridgeError) × (check_repeat canonical_json session_id s result owner command text
            different
          ≡ err e)
  unfolding check_repeat
  check_repeat_different session_id s result owner command text different h =
      elim (Bool-cases (owner == session_id)) [
        | inr foreign ↦ (different_session, rw (foreign, check_repeat) refl)
        | inl mine ↦ elim (Result-cases (assert_result_binding s command result)) [
          | inl (e, unbound) ↦ (e, rw (mine, unbound, check_repeat) refl)
          | inr (u, bound) ↦ (different, rw (mine, bound, h, check_repeat) refl)
        ]
      ]

  module _ (now : ℕ) (session_id : String) (s : InternalSession) (result : BridgeCommandResult)
      (c : Coordinator) where
    repeat_completed_different :
        (done : ClosedCommand)
        → (canonical_json result == done.canonical_result) ≡ false
        → (e : BridgeError) × (repeat_completed canonical_json now session_id s result done c
            ≡ (c, err e))
    unfolding repeat_completed
    repeat_completed_different done h =
        let (e, failed) =
          check_repeat_different session_id s result done.session_id done.command
            done.canonical_result different_result_accepted h in
        (e, rw (failed, repeat_completed) refl)

    repeat_rejected_different :
        (refused : ClosedCommand)
        → (canonical_json result == refused.canonical_result) ≡ false
        → (e : BridgeError) × (repeat_rejected canonical_json session_id s result refused ≡ err e)
    unfolding repeat_rejected
    repeat_rejected_different refused h =
        let (e, failed) =
          check_repeat_different session_id s result refused.session_id refused.command
            refused.canonical_result different_result_rejected h in
        (e, rw (failed, repeat_rejected) refl)

    repeat_committing_different :
        (m : CommittingCommand)
        → (canonical_json result == m.canonical_result) ≡ false
        → (e : BridgeError) × (repeat_committing canonical_json session_id s result m c
            ≡ (c, err e))
    unfolding repeat_committing
    repeat_committing_different m h =
        let (e, failed) =
          check_repeat_different session_id s result m.session_id m.command m.canonical_result
            different_result_committing h in
        (e, rw (failed, repeat_committing) refl)

    complete_for_different :
        (text : String)
        → latched_result result.command_id c ≡ some text
        → (canonical_json result == text) ≡ false
        → (e : BridgeError) × (complete_for canonical_json now session_id s result c ≡ (c, err e))
    unfolding latched_result complete_for
    complete_for_different text latched different =
        elim (Option-cases (get result.command_id c.completed)) [
          | inr (done, was) ↦
              let same : done.canonical_result ≡ text =
                Option-injective (rw (was, latched_result) at latched) in
              let (e, failed) = repeat_completed_different done (rw same different) in
              (e, rw (was, complete_for) failed)
          | inl undone ↦ elim (Option-cases (get result.command_id c.refused)) [
            | inr (refused, was) ↦
                let same : refused.canonical_result ≡ text =
                  Option-injective (rw (undone, was, latched_result) at latched) in
                let (e, failed) = repeat_rejected_different refused (rw same different) in
                (e, rw (undone, was, complete_for) (ap (λ r. (c, r)) failed))
            | inl free ↦ elim (Option-cases (get result.command_id c.committing)) [
              | inr (m, was) ↦
                  let same : m.canonical_result ≡ text =
                    Option-injective (rw (undone, free, was, latched_result) at latched) in
                  let (e, failed) = repeat_committing_different m (rw same different) in
                  (e, rw (undone, free, was, complete_for) failed)
              | inl new ↦ absurd (cc (rw (undone, free, new, latched_result) at latched))
            ]
          ]
        ]

  -- A result for a command that has an accepted or refused result already, or one that is being
  -- committed, is refused when its canonical text is another, whoever sends it, and nothing changes.
  pub different_result_unchanged :
      (digest : String → String) (now : ℕ) (session_id token : String)
      (result : BridgeCommandResult) (text : String) (c : Coordinator)
      → latched_result result.command_id c ≡ some text
      → (canonical_json result == text) ≡ false
      → (e : BridgeError) × (complete canonical_json digest now session_id token result c
          ≡ (c, err e))
  unfolding complete
  different_result_unchanged digest now session_id token result text c latched different =
      elim (Result-cases (authenticate digest session_id token c)) [
        | inl (e, failed) ↦ (e, rw (failed, complete) refl)
        | inr (s, found) ↦
            let (e, refused) =
              complete_for_different now session_id s result c text latched different in
            (e, rw (found, complete) refused)
      ]
