-- ===== src/Connector/Bridge/Moves.antt =====
-- bridge-coordinator.ts: what each operation does to the pending commands and their promises.
use webmcp_security_lab.Prelude.{
  ℕ, suc, ◌≤◌, ◌≡◌, refl, ap, Bool, true, false, Option, none, some, String, List, [], ◌∷◌, any,
  arith, Bool-cases, Option-cases, inl, inr, nat_beq, string_eq,
}
use webmcp_security_lab.Prelude.Result.{ok, Result-cases}
use webmcp_security_lab.Prelude.Dict.{Dict, get, has, set, delete, discard}
use webmcp_security_lab.Connector.Bridge.{
  BridgeError, timed_out, BridgeCommand, InternalSession, PendingCommand, Outcome, Coordinator,
}
use webmcp_security_lab.Connector.Bridge.Sessions.{authenticate, reject_all, belongs_to}
use webmcp_security_lab.Connector.Bridge.Delivery.{
  refuse_enqueue, enqueue, acknowledge, restart_timer, next_command, deliver, poll, refuse_commit,
  give_up, fire_timer,
}
use webmcp_security_lab.Connector.Bridge.Commit.{set_timer}

-- What one event does to the promises: nothing, a timer set or cleared, one command closed, a
-- session's or all commands rejected, or a new command for a page that has none.
pub data Move (c c' : Coordinator) : Type 0 where
  kept :
      c'.pending ≡ c.pending → c'.settled ≡ c.settled → c.next_serial ≤ c'.next_serial → Move c c'
  retimed :
      (id : String) (p : PendingCommand) (on : Bool)
      → get id c.pending ≡ some p
      → c'.pending ≡ set id (record p { timer = on }) c.pending
      → c'.settled ≡ c.settled
      → c.next_serial ≤ c'.next_serial
      → Move c c'
  closed :
      (id : String) (p : PendingCommand) (outcome : Outcome)
      → get id c.pending ≡ some p
      → c'.pending ≡ delete id c.pending
      → c'.settled ≡ record { command_id = id; serial = p.serial; outcome = outcome } ∷ c.settled
      → c.next_serial ≤ c'.next_serial
      → Move c c'
  ended :
      (test : PendingCommand → Bool) (reason : BridgeError)
      → c'.pending ≡ discard test c.pending
      → c'.settled ≡ reject_all test reason c.pending c.settled
      → c.next_serial ≤ c'.next_serial
      → Move c c'
  queued :
      (session_id id : String)
      → has id c.pending ≡ false
      → any (λ e. belongs_to session_id e.1) c.pending ≡ false
      → c'.pending
        ≡ set id
            (record { session_id = session_id; serial = c.next_serial; timer = true })
            c.pending
      → c'.settled ≡ c.settled
      → c'.next_serial ≡ suc c.next_serial
      → Move c c'

pub unchanged : (c : Coordinator) → Move c c
unchanged c = kept refl refl (omega arith)

pub set_timer-Move :
    (on : Bool) (id : String) (serial : ℕ) (c c' : Coordinator)
    → c'.pending ≡ set_timer on id serial c.pending
    → c'.settled ≡ c.settled
    → c.next_serial ≤ c'.next_serial
    → Move c c'
unfolding set_timer
set_timer-Move on id serial c c' e same later = elim (Option-cases (get id c.pending)) [
  | inl missing ↦ kept (rw (missing, set_timer) at e) same later
  | inr (p, found) ↦ elim (Bool-cases (nat_beq p.serial serial)) [
    | inl mine ↦ retimed id p on found (rw (found, mine, set_timer) at e) same later
    | inr other ↦ kept (rw (found, other, set_timer) at e) same later
  ]
]

restart_timer-Move :
    (session_id id : String) (c c' : Coordinator)
    → c'.pending ≡ restart_timer session_id id c.pending
    → c'.settled ≡ c.settled
    → c.next_serial ≤ c'.next_serial
    → Move c c'
unfolding restart_timer
restart_timer-Move session_id id c c' e same later = elim (Option-cases (get id c.pending)) [
  | inl missing ↦ kept (rw (missing, restart_timer) at e) same later
  | inr (p, found) ↦ elim (Bool-cases (belongs_to session_id p)) [
    | inl mine ↦ retimed id p true found (rw (found, mine, restart_timer) at e) same later
    | inr other ↦ kept (rw (found, other, restart_timer) at e) same later
  ]
]

module _ (session_id : String) where
  pub enqueue-Move :
      (now : ℕ) (command : BridgeCommand) (c : Coordinator)
      → Move c (enqueue now session_id command c).0
  unfolding enqueue refuse_enqueue
  enqueue-Move now command c =
      elim (Result-cases (refuse_enqueue now session_id command (get session_id c.sessions) c)) [
        | inl (e, failed) ↦ rw (failed, enqueue) (unchanged c)
        | inr (s, allowed) ↦
            let (fresh, idle) = allowed_lem (get session_id c.sessions) s allowed in
            rw (allowed, enqueue) (queued session_id command.id fresh idle refl refl refl)
      ]
    where
      allowed_lem :
          (o : Option InternalSession) (s : InternalSession)
          → refuse_enqueue now session_id command o c ≡ ok s
          → (has command.id c.pending ≡ false)
            × (any (λ e. belongs_to session_id e.1) c.pending ≡ false)
      allowed_lem none s e = absurd (cc)
      allowed_lem (some t) s e = (ground arith, ground arith)

acknowledge_kept :
    (session_id : String) (s : InternalSession) (c : Coordinator)
    → ((acknowledge session_id s c).1.pending ≡ c.pending)
      × ((acknowledge session_id s c).1.settled ≡ c.settled)
      × ((acknowledge session_id s c).1.next_serial ≡ c.next_serial)
unfolding acknowledge
acknowledge_kept session_id s c = elim (Option-cases s.awaiting_acknowledgement) [
  | inl nothing ↦ rw (nothing, acknowledge) (refl, refl, refl)
  | inr (id, due) ↦ rw (due, acknowledge) (refl, refl, refl)
]

next_command-Move :
    (session_id : String) (s : InternalSession) (c c' : Coordinator) (o : Option BridgeCommand)
    (queue : List BridgeCommand)
    → c'.pending ≡ c.pending
    → c'.settled ≡ c.settled
    → c'.next_serial ≡ c.next_serial
    → Move c (next_command session_id s c' o queue).1
unfolding next_command
next_command-Move session_id s c c' (some command) queue e same later =
    kept e same (omega (arith, later))
next_command-Move session_id s c c' none [] e same later = kept e same (omega (arith, later))
next_command-Move session_id s c c' none (command ∷ queue) e same later =
    restart_timer-Move session_id command.id c _ (ap (restart_timer session_id command.id) e) same
      (omega (arith, later))

pub with_sessions :
    (c c' : Coordinator) (sessions : Dict InternalSession)
    → Move c c'
    → Move c (record c' { sessions = sessions })
with_sessions c c' sessions (kept e same later) = kept e same later
with_sessions c c' sessions (retimed id p on found e same later) =
    retimed id p on found e same later
with_sessions c c' sessions (closed id p outcome found e log later) =
    closed id p outcome found e log later
with_sessions c c' sessions (ended test reason e log later) = ended test reason e log later
with_sessions c c' sessions (queued session_id id fresh idle e same next) =
    queued session_id id fresh idle e same next

pub poll-Move :
    (digest : String → String) (now : ℕ) (session_id token : String) (c : Coordinator)
    → Move c (poll digest now session_id token c).0
unfolding poll deliver
poll-Move digest now session_id token c =
    elim (Result-cases (authenticate digest session_id token c)) [
      | inl (e, failed) ↦ rw (failed, poll) (unchanged c)
      | inr (s, found) ↦
          let seen : InternalSession = record s { last_seen_at = now } in
          let (pending, log, later) = acknowledge_kept session_id seen c in
          rw (found, poll)
            (with_sessions c _ _ (next_command-Move session_id _ c _ _ _ pending log later))
    ]

refuse_commit_kept :
    (session_id id : String) (c : Coordinator)
    → ((refuse_commit session_id id c).pending ≡ c.pending)
      × ((refuse_commit session_id id c).settled ≡ c.settled)
      × ((refuse_commit session_id id c).next_serial ≡ c.next_serial)
unfolding refuse_commit
refuse_commit_kept session_id id c = elim (Option-cases (get id c.committing)) [
  | inl nothing ↦ rw (nothing, refuse_commit) (refl, refl, refl)
  | inr (m, found) ↦ rw (found, refuse_commit) (refl, refl, refl)
]

pub fire_timer-Move : (id : String) (c : Coordinator) → Move c (fire_timer id c)
unfolding fire_timer give_up
fire_timer-Move id c = elim (Option-cases (get id c.pending)) [
  | inl missing ↦ rw (missing, fire_timer) (unchanged c)
  | inr (p, found) ↦ elim (Bool-cases p.timer) [
    | inl running ↦
        let (pending, log, later) = refuse_commit_kept p.session_id id c in
        rw (found, running, fire_timer)
          (closed id p (Outcome.rejected timed_out) found (ap (delete id) pending)
            (ap
              (λ l.
                record { command_id = id; serial = p.serial; outcome = Outcome.rejected timed_out }
                ∷ l)
              log)
            (omega (arith, later)))
    | inr stopped ↦ rw (found, stopped, fire_timer) (unchanged c)
  ]
]
