-- ===== src/Connector/Bridge/Promises.antt =====
-- The promises of the commands, over any history of events.
use webmcp_security_lab.Prelude.{
  ℕ, suc, ◌+◌, ◌≤◌, ◌⊎◌, ◌≡◌, refl, sym, ap, ◌∙◌, Bool, true, false, String, List, [], ◌∷◌, any,
  arith, eq_iff, Bool-cases, inl, inr, nat_beq, if◌then◌else◌, ◌==◌, string_eq,
}
use webmcp_security_lab.Prelude.Dict.{
  Dict, discard, count, count-set_new, count-set_over, count-delete_found, count-discard-le,
}
use webmcp_security_lab.Prelude.Url.{UrlParser}
use webmcp_security_lab.Connector.Bridge.{
  BridgeError, BridgeCommandResult, Outcome, PendingCommand, Settlement, Coordinator,
}
use webmcp_security_lab.Connector.Bridge.Sessions.{reject_all, belongs_to}
use webmcp_security_lab.Connector.Bridge.Moves.{Move, kept, retimed, closed, ended, queued}
use webmcp_security_lab.Connector.Bridge.Trace.{Event, step, run, step-Move}

abbrev pub has_serial : ℕ → PendingCommand → Bool
has_serial n p = nat_beq p.serial n

-- How often the promise with the serial was resolved or rejected.
unfoldable pub times_settled : ℕ → List Settlement → ℕ
times_settled n [] = 0
times_settled n (s ∷ log) = (if nat_beq s.serial n then 1 else 0) + times_settled n log

-- The settlements of a promise, and 1 while its command is pending.
abbrev pub claims : ℕ → Coordinator → ℕ
claims n c = times_settled n c.settled + count (has_serial n) c.pending

reject_all-claims :
    (n : ℕ) (test : PendingCommand → Bool) (reason : BridgeError) (m : Dict PendingCommand)
    (log : List Settlement)
    → times_settled n (reject_all test reason m log) + count (has_serial n) (discard test m)
      ≡ times_settled n log + count (has_serial n) m
unfolding reject_all discard count times_settled
reject_all-claims n test reason [] log = refl
reject_all-claims n test reason ((id, p) ∷ m) log =
    let s : Settlement = record {
      command_id = id;
      serial = p.serial;
      outcome = Outcome.rejected reason;
    } in
    ground
      (arith, reject_all-claims n test reason m (s ∷ log), reject_all-claims n test reason m log)

module _ (n : ℕ) (c c' : Coordinator) where
  -- A move adds a claim only for the serial that it takes.
  Move-claims :
      Move c c'
      → (c.next_serial ≤ c'.next_serial)
        × ((claims n c' ≤ claims n c)
            ⊎ ((n ≡ c.next_serial)
                × (claims n c' ≤ claims n c + 1)
                × (c'.next_serial ≡ suc c.next_serial)))
  unfolding times_settled
  Move-claims (kept e log later) = (later, inl (rw (e, log) (omega arith)))
  Move-claims (retimed id p on found e log later) =
      let same =
        count-set_over (has_serial n) id (record p { timer = on }) p c.pending found refl in
      (later, inl (rw (e, log) (omega (arith, same))))
  Move-claims (closed id p outcome found e log later) =
      let gone = count-delete_found (has_serial n) id p c.pending found in
      (later, inl (rw (e, log, times_settled) (ground (arith, gone))))
  Move-claims (ended test reason e log later) = (
    later,
    inl (rw (e, log) (omega (arith, reject_all-claims n test reason c.pending c.settled))),
  )
  Move-claims (queued session_id id fresh idle e log next) =
      let p : PendingCommand = record {
        session_id = session_id;
        serial = c.next_serial;
        timer = true;
      } in
      let more = count-set_new (has_serial n) id p c.pending fresh in
      (
        omega (arith, next),
        elim (Bool-cases (nat_beq c.next_serial n)) [
          | inl same ↦ inr (ground arith, rw (e, log) (ground (arith, more)), next)
          | inr other ↦ inl (rw (e, log) (ground (arith, more)))
        ],
      )

-- No promise has more than one claim, and none has a serial that is still to come.
pub record IsClaimed (n : ℕ) (c : Coordinator) : Type 0 where
  pub at_most_one : claims n c ≤ 1
  pub unused : c.next_serial ≤ n → claims n c ≡ 0

Move-IsClaimed : (n : ℕ) (c c' : Coordinator) → Move c c' → IsClaimed n c → IsClaimed n c'
Move-IsClaimed n c c' move h =
    let (later, change) = Move-claims n c c' move in
    elim change [
      | inl fewer ↦ record {
        at_most_one = omega (arith, fewer, h.at_most_one);
        unused = λ ahead. omega (arith, fewer, h.unused (omega (arith, later, ahead)));
      }
      | inr (same, more, next) ↦ record {
        at_most_one = omega (arith, more, h.unused (omega (arith, same)));
        unused = λ ahead. absurd (omega (arith, same, next, ahead));
      }
    ]

any-count :
    (session_id : String) (m : Dict PendingCommand)
    → any (λ e. belongs_to session_id e.1) m ≡ false
    → count (belongs_to session_id) m ≡ 0
unfolding count
any-count session_id [] idle = refl
any-count session_id ((id, p) ∷ m) idle = ground (arith, any-count session_id m)

-- A page has no more than one command in progress.
abbrev pub IsOneEach : Coordinator → Type 0
IsOneEach c = (session_id : String) → count (belongs_to session_id) c.pending ≤ 1

Move-IsOneEach : (c c' : Coordinator) → Move c c' → IsOneEach c → IsOneEach c'
Move-IsOneEach c c' (kept e log later) h sid = rw e (h sid)
Move-IsOneEach c c' (retimed id p on found e log later) h sid =
    let same =
      count-set_over (belongs_to sid) id (record p { timer = on }) p c.pending found refl in
    rw e (omega (arith, same, h sid))
Move-IsOneEach c c' (closed id p outcome found e log later) h sid =
    let gone = count-delete_found (belongs_to sid) id p c.pending found in
    rw e (omega (arith, gone, h sid))
Move-IsOneEach c c' (ended test reason e log later) h sid =
    rw e (omega (arith, count-discard-le (belongs_to sid) test c.pending, h sid))
Move-IsOneEach c c' (queued session_id id fresh idle e log next) h sid =
    let p : PendingCommand = record {
      session_id = session_id;
      serial = c.next_serial;
      timer = true;
    } in
    let more = count-set_new (belongs_to sid) id p c.pending fresh in
    elim (Bool-cases (session_id == sid)) [
      | inl same ↦
          let mine : count (belongs_to sid) c.pending ≡ 0 =
            ap (λ s. count (belongs_to s) c.pending) (sym ((eq_iff session_id sid).0 same))
            ∙ any-count session_id c.pending idle in
          rw e (ground (arith, more, mine))
      | inr other ↦ rw e (ground (arith, more, h sid))
    ]

module _ (parse_url : UrlParser) (digest : String → String)
    (canonical_json : BridgeCommandResult → String) (is_approved : String → Bool) where
  run-IsClaimed :
      (n : ℕ) (c : Coordinator) (events : List Event)
      → IsClaimed n c
      → IsClaimed n (run parse_url digest canonical_json is_approved c events)
  unfolding run
  run-IsClaimed n c [] h = h
  run-IsClaimed n c (e ∷ events) h =
      run-IsClaimed n (step parse_url digest canonical_json is_approved c e) events
        (Move-IsClaimed n c _ (step-Move parse_url digest canonical_json is_approved c e) h)

  -- From a coordinator with no pending command and no settled promise, as a new one is, whatever
  -- calls, timers and ends of commits follow, the promise of a command is resolved or rejected at
  -- most once, and never while the command is still pending.
  pub settled_once :
      (n : ℕ) (c : Coordinator) (events : List Event)
      → c.pending ≡ []
      → c.settled ≡ []
      → let c' = run parse_url digest canonical_json is_approved c events in
        times_settled n c'.settled + count (has_serial n) c'.pending ≤ 1
  unfolding times_settled count
  settled_once n c events idle blank =
      let none_yet : claims n c ≡ 0 = rw (idle, blank) refl in
      (run-IsClaimed n c events
        (record { at_most_one = omega (arith, none_yet); unused = λ ahead. none_yet })).at_most_one

  -- From a coordinator in which no page has two commands in progress, as a new one is, no page ever
  -- comes to have two, whatever calls, timers and ends of commits follow.
  pub run-IsOneEach :
      (c : Coordinator) (events : List Event)
      → IsOneEach c
      → IsOneEach (run parse_url digest canonical_json is_approved c events)
  unfolding run
  run-IsOneEach c [] h = h
  run-IsOneEach c (e ∷ events) h =
      run-IsOneEach (step parse_url digest canonical_json is_approved c e) events
        (Move-IsOneEach c _ (step-Move parse_url digest canonical_json is_approved c e) h)
