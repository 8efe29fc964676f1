-- ===== src/Connector/Bridge/Commit.antt =====
-- bridge-coordinator.ts: a checked result is committed to a receipt and its command closed. An
-- attempt to commit ends in a call of `settle_attempt`.
use webmcp_security_lab.Prelude.{
  ℕ, Bool, true, false, not, ◌||◌, Option, none, some, String, ◌∷◌, nat_beq, if◌then◌else◌, ◌==◌,
  string_eq,
}
use webmcp_security_lab.Prelude.Result.{Result, ok, err}
use webmcp_security_lab.Prelude.Dict.{Dict, get, set, delete}
use webmcp_security_lab.Connector.Bridge.{
  BridgeError, expired_before_commit, page_reported_failure, commitment_failed, BridgeCommand,
  BridgeCommandResult, InternalSession, PendingCommand, CommittingCommand, Outcome, resolved,
  rejected, Coordinator,
}
use webmcp_security_lab.Connector.Bridge.Delivery.{change_session, without_command}

-- What `complete` returns: nothing, or the promise of a commit.
pub data Reply : Type 0 where
  acknowledged awaits_commit : Reply

-- How an attempt ends: with what `commitResult` returned, or with what it threw.
pub data CommitOutcome : Type 0 where
  committed : (receipt_entry_id : Option String) → CommitOutcome
  threw_terminal threw_other : CommitOutcome

unfoldable pub is_pending : ℕ → Option PendingCommand → Bool
is_pending serial none = false
is_pending serial (some p) = nat_beq p.serial serial

unfoldable pub is_in_flight : String → Option InternalSession → Bool
is_in_flight id none = false
is_in_flight id (some s) = is_command s.in_flight
  where
    is_command : Option BridgeCommand → Bool
    is_command none = false
    is_command (some command) = command.id == id

abbrev pub outcome_of : BridgeCommandResult → Option String → Outcome
outcome_of result commitment =
    if result.succeeded then resolved result commitment else rejected page_reported_failure

unfoldable pub finalize_completion :
    (now : ℕ) (session_id : String) (serial : ℕ) (command : BridgeCommand)
    (result : BridgeCommandResult) (canonical_result : String) (commitment : Option String)
    → Coordinator
    → Coordinator × Result BridgeError (Unit {0})
finalize_completion now session_id serial command result canonical_result commitment c =
    if not (is_pending serial (get result.command_id c.pending))
      || not (is_in_flight command.id (get session_id c.sessions))
    then (c, err expired_before_commit)
    else (
      record c {
        pending = delete result.command_id c.pending;
        completed =
            set result.command_id
              (record {
                session_id = session_id;
                command = command;
                canonical_result = canonical_result;
              })
              c.completed;
        sessions =
            change_session session_id
              (λ s. record s {
                in_flight = none;
                awaiting_acknowledgement = some result.command_id;
                last_seen_at = now;
              })
              c.sessions;
        settled =
            record {
              command_id = result.command_id;
              serial = serial;
              outcome = outcome_of result commitment;
            }
            ∷ c.settled;
      },
      ok tt,
    )

-- The timer of the pending command that was captured, while it is the one in the Map.
unfoldable pub set_timer : Bool → String → ℕ → Dict PendingCommand → Dict PendingCommand
set_timer on id serial pending = elim (get id pending) [
  | none ↦ pending
  | some p ↦ if nat_beq p.serial serial then set id (record p { timer = on }) pending else pending
]

-- `ensureCommitAttempt`, and the waiter that `waitForCommit` sets after it.
unfoldable pub ensure_attempt : Option ℕ → ℕ → CommittingCommand → Coordinator → Coordinator
ensure_attempt (some running) serial m c = record c {
  committing = set m.result.command_id (record m { waiter = true }) c.committing;
}
ensure_attempt none serial m c = record c {
  pending = set_timer false m.result.command_id serial c.pending;
  committing =
      set m.result.command_id (record m { attempt = some serial; waiter = true }) c.committing;
}

-- `waitForCommit`.
unfoldable pub wait_for_commit : ℕ → CommittingCommand → Coordinator → Coordinator
unfolding ensure_attempt
wait_for_commit serial m c = if m.waiter then c else ensure_attempt m.attempt serial m c

-- The promise that `waitForCommit` returned has ended: by the attempt or by its own timeout.
unfoldable pub end_waiter : String → Coordinator → Coordinator
end_waiter id c = elim (get id c.committing) [
  | none ↦ c
  | some m ↦ record c { committing = set id (record m { waiter = false }) c.committing }
]

unfoldable pub reject_completion : ℕ → CommittingCommand → Coordinator → Coordinator
reject_completion serial m c =
    if not (is_pending serial (get m.command.id c.pending)) then c else record c {
      committing = delete m.command.id c.committing;
      pending = delete m.command.id c.pending;
      sessions = change_session m.session_id (without_command m.command.id) c.sessions;
      refused =
          set m.command.id
            (record {
              session_id = m.session_id;
              command = m.command;
              canonical_result = m.canonical_result;
            })
            c.refused;
      settled =
          record {
            command_id = m.command.id;
            serial = serial;
            outcome = rejected commitment_failed;
          }
          ∷ c.settled;
    }

-- The rejection handler of an attempt whose commit is still the one in the Map.
unfoldable pub fail_attempt : ℕ → CommittingCommand → Bool → Coordinator → Coordinator
unfolding reject_completion
fail_attempt serial m terminal c =
    let idle = record c {
      committing = set m.command.id (record m { attempt = none }) c.committing;
    } in
    if terminal
    then reject_completion serial m idle
    else record idle { pending = set_timer true m.command.id serial idle.pending }

unfoldable pub conclude_attempt :
    ℕ → CommittingCommand → Coordinator × Result BridgeError (Unit {0}) → Coordinator
unfolding fail_attempt
conclude_attempt serial m (c, ok done) = record c { committing = delete m.command.id c.committing }
conclude_attempt serial m (c, err e) = fail_attempt serial m false c

unfoldable pub running_attempt : Option ℕ → CommittingCommand → Option (ℕ × CommittingCommand)
running_attempt none m = none
running_attempt (some serial) m = some (serial, m)

-- The attempt that runs for the commit with this serial, if it is in the Map.
unfoldable pub attempt_of : ℕ → Option CommittingCommand → Option (ℕ × CommittingCommand)
unfolding running_attempt
attempt_of commit_serial none = none
attempt_of commit_serial (some m) =
    if nat_beq m.serial commit_serial then running_attempt m.attempt m else none

-- What the attempt of a commit that is still in the Map does at its end.
unfoldable pub end_attempt : ℕ → ℕ → CommittingCommand → CommitOutcome → Coordinator → Coordinator
unfolding finalize_completion fail_attempt conclude_attempt
end_attempt now serial m (committed receipt) c =
    conclude_attempt serial m
      (finalize_completion now m.session_id serial m.command m.result m.canonical_result receipt c)
end_attempt now serial m threw_terminal c = fail_attempt serial m true c
end_attempt now serial m threw_other c = fail_attempt serial m false c

-- The end of the attempt of the commit with this serial. It does nothing when that commit is no
-- longer the one in the Map.
unfoldable pub settle_attempt : ℕ → String → ℕ → CommitOutcome → Coordinator → Coordinator
unfolding end_attempt
settle_attempt now id commit_serial outcome c =
    elim (attempt_of commit_serial (get id c.committing)) [
      | none ↦ c
      | some (serial, m) ↦ end_attempt now serial m outcome c
    ]
