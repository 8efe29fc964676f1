-- ===== src/Connector/Bridge/Delivery.antt =====
-- bridge-coordinator.ts: a command is queued for a page, handed to it by `poll`, and given up when
-- its timer fires.
use webmcp_security_lab.Prelude.{
  ℕ, suc, ◌-◌, Bool, true, not, ◌||◌, Option, none, some, String, List, [], ◌∷◌, ◌++◌, ltb, any,
  filter, if◌then◌else◌, ◌==◌, string_eq,
}
use webmcp_security_lab.Prelude.Result.{Result, ok, err, ◌>>◌, refuse}
use webmcp_security_lab.Prelude.Dict.{Dict, get, has, set, delete, discard}
use webmcp_security_lab.Connector.Bridge.{
  BridgeError, session_not_found, not_connected, command_in_progress, command_not_unique,
  tool_not_approved, timed_out, BridgeCommand, inspect_tools, invoke_approved_capability,
  InternalSession, PendingCommand, CommittingCommand, rejected, Coordinator,
}
use webmcp_security_lab.Connector.Bridge.Sessions.{authenticate, belongs_to, closed_for}

-- `session.queue.filter((item) => item.id !== commandId)`, and the same for the command in flight.
unfoldable pub without_command : String → InternalSession → InternalSession
without_command id s = record s {
  queue = filter (λ (item : BridgeCommand). not (item.id == id)) s.queue;
  in_flight = not_command id s.in_flight;
}
  where
    not_command : String → Option BridgeCommand → Option BridgeCommand
    not_command id none = none
    not_command id (some command) = if command.id == id then none else some command

-- An assignment to a field of the session in the Map.
unfoldable pub change_session :
    String → (InternalSession → InternalSession) → Dict InternalSession → Dict InternalSession
change_session session_id change sessions = elim (get session_id sessions) [
  | none ↦ sessions
  | some s ↦ set session_id (change s) sessions
]

unfoldable pub refuse_enqueue :
    ℕ
    → String
    → BridgeCommand
    → Option InternalSession
    → Coordinator
    → Result BridgeError InternalSession
refuse_enqueue now session_id command none c = err session_not_found
refuse_enqueue now session_id command (some s) c = do
  refuse (ltb c.connected_window_ms (now - s.last_seen_at)) not_connected
  refuse (any (λ e. belongs_to session_id e.1) c.pending) command_in_progress
  refuse
      (has command.id c.pending
        || has command.id c.completed
        || has command.id c.committing
        || has command.id c.refused)
      command_not_unique
  ok s

-- The promise's serial is returned in its place.
unfoldable pub enqueue :
    ℕ → String → BridgeCommand → Coordinator → Coordinator × Result BridgeError ℕ
enqueue now session_id command c =
    elim (refuse_enqueue now session_id command (get session_id c.sessions) c) [
      | err e ↦ (c, err e)
      | ok s ↦ (
        record c {
          refused = discard (closed_for session_id) c.refused;
          pending =
              set command.id
                (record { session_id = session_id; serial = c.next_serial; timer = true })
                c.pending;
          sessions = set session_id (record s { queue = s.queue ++ command ∷ [] }) c.sessions;
          next_serial = suc c.next_serial;
        },
        ok c.next_serial,
      )
    ]

unfoldable pub request_inspection :
    (issued now : ℕ) (command_id session_id : String)
    → Coordinator
    → Coordinator × Result BridgeError ℕ
unfolding enqueue
request_inspection issued now command_id session_id c =
    enqueue now session_id (record { id = command_id; kind = inspect_tools; issued_at = issued }) c

-- `is_approved` is isApprovedCapabilityToolName of lesson-capability-policy.ts.
unfoldable pub request_approved_invocation :
    (is_approved : String → Bool) (issued now : ℕ) (command_id session_id tool_name : String)
    → Coordinator
    → Coordinator × Result BridgeError ℕ
unfolding enqueue
request_approved_invocation is_approved issued now command_id session_id tool_name c =
    if not (is_approved tool_name)
    then (c, err tool_not_approved)
    else enqueue now session_id
        (record {
          id = command_id;
          kind = invoke_approved_capability tool_name;
          issued_at = issued;
        })
        c

-- `poll` forgets the result that the page has now seen acknowledged.
unfoldable pub acknowledge : String → InternalSession → Coordinator → InternalSession × Coordinator
acknowledge session_id s c = elim s.awaiting_acknowledgement [
  | none ↦ (s, c)
  | some id ↦
      (record s { awaiting_acknowledgement = none }, record c { completed = delete id c.completed })
]

-- The timer of a pending command of this session is set anew.
unfoldable pub restart_timer : String → String → Dict PendingCommand → Dict PendingCommand
restart_timer session_id id pending = elim (get id pending) [
  | none ↦ pending
  | some p ↦ if belongs_to session_id p then set id (record p { timer = true }) pending else pending
]

-- `poll` takes the next command of the queue where none is in flight.
unfoldable pub next_command :
    String
    → InternalSession
    → Coordinator
    → Option BridgeCommand
    → List BridgeCommand
    → InternalSession × Coordinator
next_command session_id s c (some command) queue = (s, c)
next_command session_id s c none [] = (s, c)
next_command session_id s c none (command ∷ queue) = (
  record s { in_flight = some command; queue = queue },
  record c { pending = restart_timer session_id command.id c.pending },
)

-- A command whose result is latched is not handed out.
unfoldable pub handed_out : Option BridgeCommand → Dict CommittingCommand → Option BridgeCommand
handed_out none committing = none
handed_out (some command) committing = if has command.id committing then none else some command

unfoldable pub deliver :
    ℕ → String → InternalSession → Coordinator → Coordinator × Option BridgeCommand
deliver now session_id seen c =
    let (s, c') = acknowledge session_id (record seen { last_seen_at = now }) c in
    let (s', c'') = next_command session_id s c' s.in_flight s.queue in
    (
      record c'' { sessions = set session_id s' c''.sessions },
      handed_out s'.in_flight c''.committing,
    )

unfoldable pub poll :
    (digest : String → String) (now : ℕ) (session_id bridge_token : String)
    → Coordinator
    → Coordinator × Result BridgeError (Option BridgeCommand)
unfolding deliver
poll digest now session_id bridge_token c = elim (authenticate digest session_id bridge_token c) [
  | err e ↦ (c, err e)
  | ok s ↦ let (c', command) = deliver now session_id s c in (c', ok command)
]

-- The commit that a command's timer finds is refused for good.
unfoldable pub refuse_commit : String → String → Coordinator → Coordinator
refuse_commit session_id id c = elim (get id c.committing) [
  | none ↦ c
  | some m ↦ record c {
    committing = delete id c.committing;
    refused =
        set id
          (record {
            session_id = session_id;
            command = m.command;
            canonical_result = m.canonical_result;
          })
          c.refused;
  }
]

-- The callback of `commandTimer`, for a pending command that was found.
unfoldable pub give_up : String → PendingCommand → Coordinator → Coordinator
unfolding refuse_commit
give_up id p c =
    let c' = refuse_commit p.session_id id c in
    record c' {
      pending = delete id c'.pending;
      sessions = change_session p.session_id (without_command id) c'.sessions;
      settled =
          record { command_id = id; serial = p.serial; outcome = rejected timed_out } ∷ c'.settled;
    }

-- The firing of the timer that runs for a command, if one does.
unfoldable pub fire_timer : String → Coordinator → Coordinator
unfolding give_up
fire_timer id c = elim (get id c.pending) [
  | none ↦ c
  | some p ↦ if p.timer then give_up id p c else c
]
