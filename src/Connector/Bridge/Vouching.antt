-- ===== src/Connector/Bridge/Vouching.antt =====
-- Where the results of resolved promises come from.
use webmcp_security_lab.Prelude.{
  ℕ, ◌≡◌, refl, Bool, true, Option, none, some, String, List, [], ◌∷◌, All, Bool-cases,
  Option-cases, inl, inr, string_eq,
}
use webmcp_security_lab.Prelude.Result.{Result-cases}
use webmcp_security_lab.Prelude.Dict.{Dict, get, Each, Each-delete}
use webmcp_security_lab.Connector.Bridge.{
  BridgeError, revoked, shutting_down, BridgeCommand, BridgeCommandResult, InternalSession,
  PendingCommand, CommittingCommand, Outcome, resolved, rejected, Settlement, Coordinator,
}
use webmcp_security_lab.Connector.Bridge.Sessions.{
  authenticate, reject_all, delete_commits, belongs_to, revoke, end_session, dispose,
}
use webmcp_security_lab.Connector.Bridge.Delivery.{
  acknowledge, next_command, deliver, poll, refuse_enqueue, enqueue, refuse_commit, give_up,
  fire_timer,
}

module _ (P : BridgeCommandResult → Type 0) where
  abbrev pub Holds : Outcome → Type 0
  Holds (resolved result receipt) = P result
  Holds (rejected reason) = Unit

  -- The results that are being committed, and those of the resolved promises, have the property.
  pub record IsVouched (c : Coordinator) : Type 0 where
    pub commits : Each (λ m. P m.result) c.committing
    pub outcomes : All (λ s. Holds s.outcome) c.settled

  pub same-IsVouched :
      (c c' : Coordinator)
      → c'.committing ≡ c.committing
      → c'.settled ≡ c.settled
      → IsVouched c
      → IsVouched c'
  same-IsVouched c c' e log v = record { commits = rw e v.commits; outcomes = rw log v.outcomes }

  acknowledge-IsVouched :
      (session_id : String) (s : InternalSession) (c : Coordinator)
      → IsVouched c
      → IsVouched (acknowledge session_id s c).1
  unfolding acknowledge
  acknowledge-IsVouched session_id s c v = elim (Option-cases s.awaiting_acknowledgement) [
    | inl nothing ↦ rw (nothing, acknowledge) v
    | inr (id, due) ↦ rw (due, acknowledge) (same-IsVouched c _ refl refl v)
  ]

  next_command-IsVouched :
      (session_id : String) (s : InternalSession) (c : Coordinator) (o : Option BridgeCommand)
      (queue : List BridgeCommand)
      → IsVouched c
      → IsVouched (next_command session_id s c o queue).1
  unfolding next_command
  next_command-IsVouched session_id s c (some command) queue v = v
  next_command-IsVouched session_id s c none [] v = v
  next_command-IsVouched session_id s c none (command ∷ queue) v = same-IsVouched c _ refl refl v

  pub poll-IsVouched :
      (digest : String → String) (now : ℕ) (session_id token : String) (c : Coordinator)
      → IsVouched c
      → IsVouched (poll digest now session_id token c).0
  unfolding poll deliver
  poll-IsVouched digest now session_id token c v =
      elim (Result-cases (authenticate digest session_id token c)) [
        | inl (e, failed) ↦ rw (failed, poll) v
        | inr (s, found) ↦
            let seen : InternalSession = record s { last_seen_at = now } in
            let first = acknowledge session_id seen c in
            rw (found, poll)
              (same-IsVouched
                (next_command session_id first.0 first.1 first.0.in_flight first.0.queue).1 _ refl
                refl
                (next_command-IsVouched session_id first.0 first.1 _ _
                  (acknowledge-IsVouched session_id seen c v)))
      ]

  pub enqueue-IsVouched :
      (now : ℕ) (session_id : String) (command : BridgeCommand) (c : Coordinator)
      → IsVouched c
      → IsVouched (enqueue now session_id command c).0
  unfolding enqueue
  enqueue-IsVouched now session_id command c v =
      elim (Result-cases (refuse_enqueue now session_id command (get session_id c.sessions) c)) [
        | inl (e, failed) ↦ rw (failed, enqueue) v
        | inr (s, allowed) ↦ rw (allowed, enqueue) (same-IsVouched c _ refl refl v)
      ]

  pub fire_timer-IsVouched :
      (id : String) (c : Coordinator) → IsVouched c → IsVouched (fire_timer id c)
  unfolding fire_timer give_up refuse_commit
  fire_timer-IsVouched id c v = elim (Option-cases (get id c.pending)) [
    | inl missing ↦ rw (missing, fire_timer) v
    | inr (p, found) ↦ elim (Bool-cases p.timer) [
      | inr stopped ↦ rw (found, stopped, fire_timer) v
      | inl running ↦ elim (Option-cases (get id c.committing)) [
        | inl nothing ↦
            rw (found, running, nothing, fire_timer, give_up, refuse_commit)
              (record { commits = v.commits; outcomes = (tt, v.outcomes) })
        | inr (m, latched) ↦
            rw (found, running, latched, fire_timer, give_up, refuse_commit)
              (record {
                commits = Each-delete (λ m. P m.result) id c.committing v.commits;
                outcomes = (tt, v.outcomes);
              })
      ]
    ]
  ]

  reject_all-Holds :
      (test : PendingCommand → Bool) (reason : BridgeError) (m : Dict PendingCommand)
      (log : List Settlement)
      → All (λ s. Holds s.outcome) log
      → All (λ s. Holds s.outcome) (reject_all test reason m log)
  unfolding reject_all
  reject_all-Holds test reason [] log h = h
  reject_all-Holds test reason ((id, p) ∷ m) log h = elim (Bool-cases (test p)) [
    | inl chosen ↦ rw (chosen, reject_all) (reject_all-Holds test reason m _ (tt, h))
    | inr spared ↦ rw (spared, reject_all) (reject_all-Holds test reason m log h)
  ]

  delete_commits-Each :
      (test : PendingCommand → Bool) (ps : Dict PendingCommand) (m : Dict CommittingCommand)
      → Each (λ m. P m.result) m
      → Each (λ m. P m.result) (delete_commits test ps m)
  unfolding delete_commits
  delete_commits-Each test [] m h = h
  delete_commits-Each test ((id, p) ∷ ps) m h = elim (Bool-cases (test p)) [
    | inl chosen ↦
        rw (chosen, delete_commits)
          (delete_commits-Each test ps _ (Each-delete (λ m. P m.result) id m h))
    | inr spared ↦ rw (spared, delete_commits) (delete_commits-Each test ps m h)
  ]

  pub revoke-IsVouched :
      (digest : String → String) (now : ℕ) (session_id token : String) (c : Coordinator)
      → IsVouched c
      → IsVouched (revoke digest now session_id token c).0
  unfolding revoke end_session
  revoke-IsVouched digest now session_id token c v =
      elim (Result-cases (authenticate digest session_id token c)) [
        | inl (e, failed) ↦ rw (failed, revoke) v
        | inr (s, found) ↦
            rw (found, revoke)
              (record {
                commits =
                    delete_commits-Each (belongs_to session_id) c.pending c.committing v.commits;
                outcomes =
                    reject_all-Holds (belongs_to session_id) revoked c.pending c.settled v.outcomes;
              })
      ]

  pub dispose-IsVouched : (c : Coordinator) → IsVouched c → IsVouched (dispose c)
  unfolding dispose
  dispose-IsVouched c v = record {
    commits = tt;
    outcomes = reject_all-Holds (λ p. true) shutting_down c.pending c.settled v.outcomes;
  }
