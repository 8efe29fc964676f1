-- ===== src/Connector/Access/Capacity.antt =====
-- Neither table of the manager grows beyond 32 entries, whatever calls are made.
use webmcp_security_lab.Prelude.{
  ℕ, ◌≤◌, Option, none, some, String, List, [], ◌∷◌, arith, Bool-cases, inl, inr,
}
use webmcp_security_lab.Prelude.Dict.{
  Dict, size, get, set, delete, evict, size-set-le, size-delete-le, size-discard-le, size-evict-lt,
}
use webmcp_security_lab.Connector.Access.{
  LocalPageTarget, LaunchTicket, AccessManager, cleanup, ticket_expired, session_expired, issue,
  consume, open_session, authorize, revoke_binding, dispose,
}

pub record IsBounded (m : AccessManager) : Type 0 where
  pub few_tickets : size m.tickets ≤ 32
  pub few_sessions : size m.sessions ≤ 32

size-set-evict : {V : Type 0} (k : String) (v : V) (m : Dict V) → size (set k v (evict 32 m)) ≤ 32
size-set-evict k v m = omega (arith, size-set-le k v (evict 32 m), size-evict-lt 31 m)

cleanup-IsBounded : (now : ℕ) (m : AccessManager) → IsBounded m → IsBounded (cleanup now m)
unfolding cleanup
cleanup-IsBounded now m b = record {
  few_tickets = omega (arith, b.few_tickets, size-discard-le (ticket_expired now) m.tickets);
  few_sessions = omega (arith, b.few_sessions, size-discard-le (session_expired now) m.sessions);
}

-- A call on the manager, with the clock readings and the secret that it takes.
pub data Call : Type 0 where
  issues :
      (now later : ℕ) (secret : String) (target : LocalPageTarget) (binding : Option String) → Call
  consumes : (now checked opened : ℕ) (secret ticket : String) → Call
  authorizes : (now checked : ℕ) (session_token : String) (target : LocalPageTarget) → Call
  revokes : (binding : String) → Call
  disposes : Call

module _ (digest : String → String) where
  unfoldable pub step : AccessManager → Call → AccessManager
  step m (issues now later secret target binding) =
      (issue digest now later secret target binding m).0
  step m (consumes now checked opened secret ticket) =
      (consume digest now checked opened secret ticket m).0
  step m (authorizes now checked token target) = (authorize digest now checked token target m).0
  step m (revokes binding) = revoke_binding binding m
  step m disposes = dispose m

  unfoldable pub run : AccessManager → List Call → AccessManager
  run m [] = m
  run m (c ∷ calls) = run (step m c) calls

  open_session-IsBounded :
      (checked opened : ℕ) (secret : String) (ticket : Option LaunchTicket) (m : AccessManager)
      → IsBounded m
      → IsBounded (open_session digest checked opened secret ticket m).0
  unfolding open_session
  open_session-IsBounded checked opened secret none m b = b
  open_session-IsBounded checked opened secret (some t) m b =
      elim (Bool-cases (ticket_expired checked t)) [
        | inl late ↦ rw (late, open_session) b
        | inr early ↦
            rw (early, open_session)
              (record {
                few_tickets = b.few_tickets;
                few_sessions = size-set-evict (digest secret) _ m.sessions;
              })
      ]

  step-IsBounded : (m : AccessManager) (c : Call) → IsBounded m → IsBounded (step m c)
  unfolding step issue consume authorize revoke_binding dispose
  step-IsBounded m (issues now later secret target binding) b =
      let swept = cleanup-IsBounded now m b in
      record { few_tickets = size-set-evict (digest secret) _ _; few_sessions = swept.few_sessions }
  step-IsBounded m (consumes now checked opened secret ticket) b =
      let swept = cleanup-IsBounded now m b in
      open_session-IsBounded checked opened secret (get (digest ticket) (cleanup now m).tickets)
        (record (cleanup now m) { tickets = delete (digest ticket) (cleanup now m).tickets })
        (record {
          few_tickets =
              omega
                (arith, swept.few_tickets, size-delete-le (digest ticket) (cleanup now m).tickets);
          few_sessions = swept.few_sessions;
        })
  step-IsBounded m (authorizes now checked token target) b = cleanup-IsBounded now m b
  step-IsBounded m (revokes binding) b = record {
    few_tickets = omega (arith, b.few_tickets, size-discard-le _ m.tickets);
    few_sessions = omega (arith, b.few_sessions, size-discard-le _ m.sessions);
  }
  step-IsBounded m disposes b = record { few_tickets = omega arith; few_sessions = omega arith }

  -- From a manager with at most 32 tickets and 32 sessions, as a new one is, every history of calls
  -- leads to such a manager.
  pub run-IsBounded :
      (m : AccessManager) (calls : List Call) → IsBounded m → IsBounded (run m calls)
  unfolding run
  run-IsBounded m [] b = b
  run-IsBounded m (c ∷ calls) b = run-IsBounded (step m c) calls (step-IsBounded m c b)
