-- ===== src/Connector/Bridge/Completion.antt =====
-- bridge-coordinator.ts: a page's result is checked, and acknowledged at once or
-- after its commit.
use webmcp_security_lab.Prelude.{
  Bool, true, false, ℕ, suc, false, Option, none, some, String, if◌then◌else◌, ◌==◌, string_eq,
}
use webmcp_security_lab.Prelude.Result.{Result, ok, err, ◌>>=◌, ◌>>◌, guard}
use webmcp_security_lab.Prelude.Dict.{get, set}
use webmcp_security_lab.Connector.Bridge.{
  BridgeError, different_session, different_result_accepted, different_result_rejected,
  different_result_committing, permanently_rejected, no_longer_pending, unknown_command,
  not_delivered, BridgeCommand, BridgeCommandResult, InternalSession, PendingCommand, ClosedCommand,
  CommittingCommand, Coordinator, assert_result_binding,
}
use webmcp_security_lab.Connector.Bridge.Sessions.{authenticate, belongs_to}
use webmcp_security_lab.Connector.Bridge.Commit.{
  Reply, acknowledged, awaits_commit, finalize_completion, wait_for_commit,
}

module _ (canonical_json : BridgeCommandResult → String) where
  -- A result that comes for a command already decided, or being committed.
  unfoldable pub check_repeat :
      String
      → InternalSession
      → BridgeCommandResult
      → (owner : String) → BridgeCommand
      → (canonical_result : String) → BridgeError
      → Result BridgeError (Unit {0})
  check_repeat session_id s result owner command canonical_result different = do
    guard (owner == session_id) different_session
    assert_result_binding s command result
    guard (canonical_json result == canonical_result) different

  unfoldable pub repeat_completed :
      ℕ
      → String
      → InternalSession
      → BridgeCommandResult
      → ClosedCommand
      → Coordinator
      → Coordinator × Result BridgeError Reply
  repeat_completed now session_id s result done c =
      elim (check_repeat session_id s result done.session_id done.command done.canonical_result
        different_result_accepted) [
          | err e ↦ (c, err e)
          | ok checked ↦ (
            record c { sessions = set session_id (record s { last_seen_at = now }) c.sessions },
            ok acknowledged,
          )
        ]

  unfoldable pub repeat_rejected :
      String → InternalSession → BridgeCommandResult → ClosedCommand → Result BridgeError Reply
  repeat_rejected session_id s result done = do
    check_repeat session_id s result done.session_id done.command done.canonical_result
        different_result_rejected
    err permanently_rejected

  -- `!pending || pending.sessionId !== sessionId`.
  unfoldable pub own_pending :
      BridgeError → String → Option PendingCommand → Result BridgeError PendingCommand
  own_pending missing session_id none = err missing
  own_pending missing session_id (some p) = if belongs_to session_id p then ok p else err missing

  unfoldable pub delivered : String → Option BridgeCommand → Result BridgeError BridgeCommand
  delivered id none = err not_delivered
  delivered id (some command) = if command.id == id then ok command else err not_delivered

  unfoldable pub repeat_committing :
      String
      → InternalSession
      → BridgeCommandResult
      → CommittingCommand
      → Coordinator
      → Coordinator × Result BridgeError Reply
  repeat_committing session_id s result m c =
      elim (do
        check_repeat session_id s result m.session_id m.command m.canonical_result
            different_result_committing
        own_pending no_longer_pending session_id (get result.command_id c.pending)) [
          | err e ↦ (c, err e)
          | ok p ↦ (wait_for_commit p.serial m c, ok awaits_commit)
        ]

  -- The checks of a result for a command that was not decided before.
  unfoldable pub check_first :
      String
      → InternalSession
      → BridgeCommandResult
      → Coordinator
      → Result BridgeError (PendingCommand × BridgeCommand)
  check_first session_id s result c = do
    p ← own_pending unknown_command session_id (get result.command_id c.pending)
    command ← delivered result.command_id s.in_flight
    assert_result_binding s command result
    ok (p, command)

  abbrev pub commit_of : String → ℕ → BridgeCommand → BridgeCommandResult → CommittingCommand
  commit_of session_id serial command result = record {
    session_id = session_id;
    serial = serial;
    command = command;
    result = result;
    canonical_result = canonical_json result;
    attempt = none;
    waiter = false;
  }

  -- What follows the checks: a commit where the option `commitResult` is given, or the
  -- acknowledgement at once.
  unfoldable pub accept_result :
      (commits : Bool)
      → ℕ
      → String
      → BridgeCommandResult
      → PendingCommand
      → BridgeCommand
      → Coordinator
      → Coordinator × Result BridgeError Reply
  unfolding wait_for_commit
  accept_result true now session_id result p command c =
      let m = commit_of session_id c.next_serial command result in
      (
        wait_for_commit p.serial m (record c {
          committing = set result.command_id m c.committing;
          next_serial = suc c.next_serial;
        }),
        ok awaits_commit,
      )
  accept_result false now session_id result p command c =
      let (c', outcome) =
        finalize_completion now session_id p.serial command result (canonical_json result) none c in
      (c', (do outcome; ok acknowledged))

  -- A result for a command that was not decided before.
  unfoldable pub first_result :
      ℕ
      → String
      → InternalSession
      → BridgeCommandResult
      → Coordinator
      → Coordinator × Result BridgeError Reply
  first_result now session_id s result c = elim (check_first session_id s result c) [
    | err e ↦ (c, err e)
    | ok (p, command) ↦ accept_result c.commits now session_id result p command c
  ]

  unfoldable pub complete_for :
      ℕ
      → String
      → InternalSession
      → BridgeCommandResult
      → Coordinator
      → Coordinator × Result BridgeError Reply
  unfolding repeat_completed repeat_rejected repeat_committing first_result
  complete_for now session_id s result c = elim (get result.command_id c.completed) [
    | some done ↦ repeat_completed now session_id s result done c
    | none ↦ elim (get result.command_id c.refused) [
      | some refused ↦ (c, repeat_rejected session_id s result refused)
      | none ↦ elim (get result.command_id c.committing) [
        | some m ↦ repeat_committing session_id s result m c
        | none ↦ first_result now session_id s result c
      ]
    ]
  ]

  unfoldable pub complete :
      (digest : String → String) (now : ℕ) (session_id bridge_token : String)
      (result : BridgeCommandResult)
      → Coordinator
      → Coordinator × Result BridgeError Reply
  unfolding complete_for
  complete digest now session_id bridge_token result c =
      elim (authenticate digest session_id bridge_token c) [
        | err e ↦ (c, err e)
        | ok s ↦ complete_for now session_id s result c
      ]
