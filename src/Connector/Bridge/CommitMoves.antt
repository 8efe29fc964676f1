-- ===== src/Connector/Bridge/CommitMoves.antt =====
-- bridge-coordinator.ts: what a result and its commit do to the pending commands and their promises.
use webmcp_security_lab.Prelude.{
  ℕ, ◌≤◌, ◌≡◌, refl, ap, ◌∙◌, ◌⊎◌, Bool, true, false, not, ◌||◌, Option, none, some, String, ◌∷◌,
  arith, Bool-cases, Option-cases, inl, inr, string_eq,
}
use webmcp_security_lab.Prelude.Result.{Result, ok, err}
use webmcp_security_lab.Prelude.Dict.{Dict, get, delete}
use webmcp_security_lab.Connector.Bridge.{
  BridgeError, commitment_failed, expired_before_commit, BridgeCommand, BridgeCommandResult,
  PendingCommand, CommittingCommand, Outcome, Coordinator,
}
use webmcp_security_lab.Connector.Bridge.Commit.{
  CommitOutcome, committed, threw_terminal, threw_other, outcome_of, is_pending, is_in_flight,
  finalize_completion, ensure_attempt, wait_for_commit, reject_completion, fail_attempt,
  conclude_attempt, end_attempt, attempt_of, settle_attempt,
}
use webmcp_security_lab.Connector.Bridge.Moves.{
  Move, kept, retimed, closed, ended, queued, unchanged, set_timer-Move,
}

is_pending_lem :
    (serial : ℕ) (o : Option PendingCommand)
    → is_pending serial o ≡ true
    → (p : PendingCommand) × (o ≡ some p) × (serial ≡ p.serial)
unfolding is_pending
is_pending_lem serial none h = absurd (cc)
is_pending_lem serial (some p) h = (p, refl, ground arith)

closes :
    (serial : ℕ) (id : String) (outcome : Outcome) (c c' : Coordinator)
    → is_pending serial (get id c.pending) ≡ true
    → c'.pending ≡ delete id c.pending
    → c'.settled ≡ record { command_id = id; serial = serial; outcome = outcome } ∷ c.settled
    → c.next_serial ≤ c'.next_serial
    → Move c c'
closes serial id outcome c c' mine pending log later =
    let (p, found, same) = is_pending_lem serial (get id c.pending) mine in
    closed id p outcome found pending
      (log ∙ ap (λ n. record { command_id = id; serial = n; outcome = outcome } ∷ c.settled) same)
      later

module _ (now : ℕ) (session_id : String) (serial : ℕ) (command : BridgeCommand)
    (result : BridgeCommandResult) (canonical_result : String) (commitment : Option String) where
  pub finalize_completion-Move :
      (c : Coordinator)
      → Move c
          (finalize_completion now session_id serial command result canonical_result commitment c).0
  unfolding finalize_completion
  finalize_completion-Move c =
      elim (Bool-cases (
        not (is_pending serial (get result.command_id c.pending))
        || not (is_in_flight command.id (get session_id c.sessions)))) [
          | inl stale ↦ rw (stale, finalize_completion) (unchanged c)
          | inr live ↦
              rw (live, finalize_completion)
                (closes serial result.command_id (outcome_of result commitment) c _ (ground arith)
                  refl refl (omega arith))
        ]

finalize_completion_cases :
    (now : ℕ) (session_id : String) (serial : ℕ) (command : BridgeCommand)
    (result : BridgeCommandResult) (canonical_result : String) (commitment : Option String)
    (c : Coordinator)
    → let r =
        finalize_completion now session_id serial command result canonical_result commitment c in
      (r ≡ (c, err expired_before_commit)) ⊎ (r.1 ≡ ok tt)
unfolding finalize_completion
finalize_completion_cases now session_id serial command result canonical_result commitment c =
    ground arith

-- A move that is followed by a change of the commits alone.
with_committing :
    (c c' : Coordinator) (committing : Dict CommittingCommand)
    → Move c c'
    → Move c (record c' { committing = committing })
with_committing c c' m (kept e same later) = kept e same later
with_committing c c' m (retimed id p on found e same later) = retimed id p on found e same later
with_committing c c' m (closed id p outcome found e log later) =
    closed id p outcome found e log later
with_committing c c' m (ended test reason e log later) = ended test reason e log later
with_committing c c' m (queued session_id id fresh idle e same next) =
    queued session_id id fresh idle e same next

reject_completion-Move :
    (serial : ℕ) (m : CommittingCommand) (c : Coordinator) → Move c (reject_completion serial m c)
unfolding reject_completion
reject_completion-Move serial m c =
    elim (Bool-cases (is_pending serial (get m.command.id c.pending))) [
      | inl mine ↦
          rw (mine, reject_completion)
            (closes serial m.command.id (Outcome.rejected commitment_failed) c _ mine refl refl
              (omega arith))
      | inr other ↦ rw (other, reject_completion) (unchanged c)
    ]

-- A move whose start differs in the commits alone.
from_committing :
    (c c' : Coordinator) (committing : Dict CommittingCommand)
    → Move (record c { committing = committing }) c'
    → Move c c'
from_committing c c' m (kept e same later) = kept e same later
from_committing c c' m (retimed id p on found e same later) = retimed id p on found e same later
from_committing c c' m (closed id p outcome found e log later) =
    closed id p outcome found e log later
from_committing c c' m (ended test reason e log later) = ended test reason e log later
from_committing c c' m (queued session_id id fresh idle e same next) =
    queued session_id id fresh idle e same next

fail_attempt-Move :
    (serial : ℕ) (m : CommittingCommand) (terminal : Bool) (c : Coordinator)
    → Move c (fail_attempt serial m terminal c)
unfolding fail_attempt
fail_attempt-Move serial m true c = from_committing c _ _ (reject_completion-Move serial m _)
fail_attempt-Move serial m false c =
    set_timer-Move true m.command.id serial c _ refl refl (omega arith)

conclude_attempt_ok :
    (serial : ℕ) (m : CommittingCommand) (c : Coordinator)
    (r : Coordinator × Result BridgeError (Unit {0}))
    → r.1 ≡ ok tt
    → Move c r.0
    → Move c (conclude_attempt serial m r)
unfolding conclude_attempt
conclude_attempt_ok serial m c (c', ok done) e move = with_committing c c' _ move
conclude_attempt_ok serial m c (c', err thrown) e move = absurd (cc)

end_attempt-Move :
    (now serial : ℕ) (m : CommittingCommand) (outcome : CommitOutcome) (c : Coordinator)
    → Move c (end_attempt now serial m outcome c)
unfolding end_attempt conclude_attempt
end_attempt-Move now serial m (committed receipt) c =
    elim (finalize_completion_cases now m.session_id serial m.command m.result m.canonical_result
      receipt c) [
        | inl expired ↦ rw expired (fail_attempt-Move serial m false c)
        | inr done ↦ conclude_attempt_ok serial m c _ done (
            finalize_completion-Move now m.session_id serial m.command m.result m.canonical_result
              receipt c)
      ]
end_attempt-Move now serial m threw_terminal c = fail_attempt-Move serial m true c
end_attempt-Move now serial m threw_other c = fail_attempt-Move serial m false c

pub settle_attempt-Move :
    (now : ℕ) (id : String) (commit_serial : ℕ) (outcome : CommitOutcome) (c : Coordinator)
    → Move c (settle_attempt now id commit_serial outcome c)
unfolding settle_attempt
settle_attempt-Move now id commit_serial outcome c =
    elim (Option-cases (attempt_of commit_serial (get id c.committing))) [
      | inl stale ↦ rw (stale, settle_attempt) (unchanged c)
      | inr ((serial, m), found) ↦
          rw (found, settle_attempt) (end_attempt-Move now serial m outcome c)
    ]

ensure_attempt-Move :
    (o : Option ℕ) (serial : ℕ) (m : CommittingCommand) (c : Coordinator)
    → Move c (ensure_attempt o serial m c)
unfolding ensure_attempt
ensure_attempt-Move (some running) serial m c = kept refl refl (omega arith)
ensure_attempt-Move none serial m c =
    set_timer-Move false m.result.command_id serial c _ refl refl (omega arith)

pub wait_for_commit-Move :
    (serial : ℕ) (m : CommittingCommand) (c : Coordinator) → Move c (wait_for_commit serial m c)
unfolding wait_for_commit
wait_for_commit-Move serial m c = elim (Bool-cases m.waiter) [
  | inl waits ↦ rw (waits, wait_for_commit) (unchanged c)
  | inr idle ↦ rw (idle, wait_for_commit) (ensure_attempt-Move m.attempt serial _ c)
]
