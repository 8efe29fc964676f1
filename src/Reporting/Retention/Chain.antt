-- ===== src/Reporting/Retention/Chain.antt =====
-- retention-core.ts: the events of a legal hold form a chain, and what is made is read back.
use webmcp_security_lab.Prelude.{
  ℕ, suc, ◌≤◌, ◌≡◌, refl, sym, ap, subst, ◌∙◌, Bool, true, false, not, ◌||◌, some, String, List, [],
  ◌∷◌, ltb, arith, string_eq,
}
use webmcp_security_lab.Prelude.Result.{
  Result, ok, ◌>>=◌, refuse_passed, guard_passed, >>=-eq-ok, ok-injective,
}
use webmcp_security_lab.Prelude.Dates.{DateText, exact}
use webmcp_security_lab.Reporting.Retention.{
  RetentionError, RetentionState, RetentionEvent, EventBody, LegalHoldInput, bad_event, bad_state,
  custodian_required, already_held_so, moves_backward, ActorRole, custodian, uuid, exact_time,
  policy_version_of, actor_of, is_previous, is_custodian, same_hold, hold_body, make_event,
  state_from_event, parse_retention_state, change_hold, transition_legal_hold,
}

pub exact_time-parse : (t : DateText) (n : ℕ) → exact_time t ≡ ok n → t ≡ exact n
unfolding exact_time
exact_time-parse (exact t) n h = ap exact (ok-injective h)
exact_time-parse (DateText.other s t) n h = absurd (cc)
exact_time-parse (DateText.invalid s) n h = absurd (cc)

module _ (hash : EventBody → String) where
  -- An event is made of valid parts, and carries the hash of the others.
  pub record IsMade (body : EventBody) (event : RetentionEvent) : Type 0 where
    pub report : (s : String) × (uuid body.report_id ≡ ok s)
    pub time : (n : ℕ) × (exact_time body.at ≡ ok n)
    pub deadline : (n : ℕ) × (exact_time body.retain_until ≡ ok n)
    pub policy : (s : String) × (policy_version_of body.policy_version ≡ ok s)
    pub bounded :
        (ltb 9007199254740991 body.revision
          || ltb body.revision 1
          || not (is_previous body.previous_event_sha256))
        ≡ false
    pub made : event ≡ record { body = body; event_sha256 = hash body }

  pub make_event-IsMade :
      (body : EventBody) (event : RetentionEvent)
      → make_event hash body ≡ ok event
      → IsMade body event
  unfolding make_event
  make_event-IsMade body event h =
      let (a, ea, h1) = >>=-eq-ok (uuid body.event_id) _ h in
      let (b, eb, h2) = >>=-eq-ok (uuid body.report_id) _ h1 in
      let (c, ec, h3) = >>=-eq-ok (exact_time body.at) _ h2 in
      let (d, ed, h4) = >>=-eq-ok (actor_of body.actor) _ h3 in
      let (f, ef, h5) = >>=-eq-ok (uuid body.request_id) _ h4 in
      let (g, eg, h6) = >>=-eq-ok (exact_time body.retain_until) _ h5 in
      let (i, ei, h7) = >>=-eq-ok (policy_version_of body.policy_version) _ h6 in
      let (within, h8) = refuse_passed _ bad_event h7 in
      record {
        report = (b, eb);
        time = (c, ec);
        deadline = (g, eg);
        policy = (i, ei);
        bounded = within;
        made = sym (ok-injective h8);
      }

parse_retention_state-eq :
    (s parsed : RetentionState) → parse_retention_state s ≡ ok parsed → s ≡ parsed
unfolding parse_retention_state
parse_retention_state-eq s parsed h =
    let (sound, h1) = refuse_passed _ bad_state h in
    let (a, ea, h2) = >>=-eq-ok (uuid s.report_id) _ h1 in
    let (b, eb, h3) = >>=-eq-ok (exact_time s.updated_at) _ h2 in
    let (c, ec, h4) = >>=-eq-ok (exact_time s.retain_until) _ h3 in
    let (d, ed, h5) = >>=-eq-ok (policy_version_of s.policy_version) _ h4 in ok-injective h5

module _ (hash : EventBody → String) where
  -- What an event says of the state that it follows.
  pub record IsNext (s : RetentionState) (event : RetentionEvent) : Type 0 where
    pub by_custodian : event.body.actor.role ≡ custodian
    pub linked : event.body.previous_event_sha256 ≡ some s.last_event_sha256
    pub hashed : event.event_sha256 ≡ hash event.body
    pub counted : event.body.revision ≡ suc s.revision
    pub flipped : event.body.legal_hold ≡ not s.legal_hold
    pub same_report : event.body.report_id ≡ s.report_id
    pub same_deadline : event.body.retain_until ≡ s.retain_until
    pub same_policy : event.body.policy_version ≡ s.policy_version
    pub not_earlier :
        (n : ℕ) × (m : ℕ) × (s.updated_at ≡ exact n) × (event.body.at ≡ exact m) × (n ≤ m)

  is_custodian-eq : (r : ActorRole) → is_custodian r ≡ true → r ≡ custodian
  is_custodian-eq custodian h = refl
  is_custodian-eq ActorRole.system h = absurd (cc)

  same_hold-not : (a b : Bool) → same_hold a b ≡ false → a ≡ not b
  same_hold-not true true h = absurd (cc)
  same_hold-not true false h = refl
  same_hold-not false true h = refl
  same_hold-not false false h = absurd (cc)

  module _ (current : RetentionState) (input : LegalHoldInput) where
    hold_body-IsNext :
        (event : RetentionEvent) (at updated : ℕ)
        → is_custodian input.actor.role ≡ true
        → same_hold input.held current.legal_hold ≡ false
        → exact_time input.at ≡ ok at
        → exact_time current.updated_at ≡ ok updated
        → ltb at updated ≡ false
        → event
          ≡ record { body = hold_body current input; event_sha256 = hash (hold_body current input) }
        → IsNext current event
    hold_body-IsNext event at updated may changes time before forward made =
        subst (IsNext current) (sym made) (record {
          by_custodian = is_custodian-eq input.actor.role may;
          linked = refl;
          hashed = refl;
          counted = refl;
          flipped = same_hold-not input.held current.legal_hold changes;
          same_report = refl;
          same_deadline = refl;
          same_policy = refl;
          not_earlier = (
            updated,
            at,
            exact_time-parse current.updated_at updated before,
            exact_time-parse input.at at time,
            ground arith,
          );
        })

    change_hold_lem :
        (s : RetentionState) (event : RetentionEvent)
        → change_hold hash current input ≡ ok (s, event)
        → IsNext current event
          × (s ≡ state_from_event event)
          × (make_event hash (hold_body current input) ≡ ok event)
    unfolding change_hold
    change_hold_lem s event h =
        let (may, h2) = guard_passed (is_custodian input.actor.role) custodian_required h in
        let (changes, h3) =
          refuse_passed (same_hold input.held current.legal_hold) already_held_so h2 in
        let (at, time, h4) = >>=-eq-ok (exact_time input.at) _ h3 in
        let (updated, before, h5) = >>=-eq-ok (exact_time current.updated_at) _ h4 in
        let (forward, h6) = refuse_passed (ltb at updated) moves_backward h5 in
        let (made, e, h7) = >>=-eq-ok (make_event hash (hold_body current input)) _ h6 in
        pack at updated may changes time before forward made e (ok-injective h7)
      where
        pack :
            (at updated : ℕ)
            → is_custodian input.actor.role ≡ true
            → same_hold input.held current.legal_hold ≡ false
            → exact_time input.at ≡ ok at
            → exact_time current.updated_at ≡ ok updated
            → ltb at updated ≡ false
            → (made : RetentionEvent) → make_event hash (hold_body current input) ≡ ok made
            → ◌≡◌ {A = RetentionState × RetentionEvent} (state_from_event made, made) (s, event)
            → IsNext current event
              × (s ≡ state_from_event event)
              × (make_event hash (hold_body current input) ≡ ok event)
        pack at updated may changes time before forward made e pair =
            let same : made ≡ event = ap (λ (r : RetentionState × RetentionEvent). r.1) pair in
            let first : state_from_event made ≡ s =
              ap (λ (r : RetentionState × RetentionEvent). r.0) pair in
            let e' = e ∙ ap ok same in
            (
              hold_body-IsNext event at updated may changes time before forward
                  (IsMade.made (make_event-IsMade hash (hold_body current input) event e')),
              sym first ∙ ap state_from_event same,
              e',
            )

    pub transition_lem :
        (s : RetentionState) (event : RetentionEvent)
        → transition_legal_hold hash current input ≡ ok (s, event)
        → IsNext current event
          × (s ≡ state_from_event event)
          × (make_event hash (hold_body current input) ≡ ok event)
    unfolding transition_legal_hold
    transition_lem s event h =
        let (parsed, e, h1) =
          >>=-eq-ok (parse_retention_state current) (λ p. change_hold hash p input) h in
        let same = parse_retention_state-eq current parsed e in
        change_hold_lem s event (ap (λ p. change_hold hash p input) same ∙ h1)

  -- The holds that are asked for one after the other, and the events that they make.
  unfoldable pub hold_history :
      RetentionState
      → List LegalHoldInput
      → Result RetentionError (RetentionState × List RetentionEvent)
  hold_history s [] = ok (s, [])
  hold_history s (input ∷ inputs) = do
    changed ← transition_legal_hold hash s input
    rest ← hold_history changed.0 inputs
    ok (rest.0, changed.1 ∷ rest.1)

  -- Each event says what it should of the state that the events before it left.
  abbrev pub IsChain : RetentionState → List RetentionEvent → RetentionState → Type 0
  IsChain s [] t = s ≡ t
  IsChain s (event ∷ events) t = IsNext s event × IsChain (state_from_event event) events t

  transition-IsChain :
      (s : RetentionState) (input : LegalHoldInput) (changed : RetentionState × RetentionEvent)
      (events : List RetentionEvent) (t : RetentionState)
      → transition_legal_hold hash s input ≡ ok changed
      → IsChain changed.0 events t
      → IsChain s (changed.1 ∷ events) t
  transition-IsChain s input (s', event) events t e later =
      let (next, same, made) = transition_lem s input s' event e in
      (next, subst (λ x. IsChain x events t) same later)

  hold_history_lem :
      (inputs : List LegalHoldInput) (s : RetentionState) (r : RetentionState × List RetentionEvent)
      → hold_history s inputs ≡ ok r
      → IsChain s r.1 r.0
  unfolding hold_history
  hold_history_lem [] s r h =
      subst (λ (x : RetentionState × List RetentionEvent). IsChain s x.1 x.0) (ok-injective h) refl
  hold_history_lem (input ∷ inputs) s r h =
      let (changed, e, h1) = >>=-eq-ok (transition_legal_hold hash s input) _ h in
      let (rest, e', h2) = >>=-eq-ok (hold_history changed.0 inputs) _ h1 in
      subst (λ (x : RetentionState × List RetentionEvent). IsChain s x.1 x.0) (ok-injective h2)
        (transition-IsChain s input changed rest.1 rest.0 e
          (hold_history_lem inputs changed.0 rest e'))

  -- The events of a history of legal holds form a chain that leads from the first state to the last:
  -- each was made by a custodian at a time not before the last change, carries the hash of its own
  -- parts and the hash of the event before it, counts one further and flips the hold, and leaves the
  -- report, the deadline and the policy as they were.
  pub hold_history-IsChain :
      (s t : RetentionState) (inputs : List LegalHoldInput) (events : List RetentionEvent)
      → hold_history s inputs ≡ ok (t, events)
      → IsChain s events t
  hold_history-IsChain s t inputs events h = hold_history_lem inputs s (t, events) h
