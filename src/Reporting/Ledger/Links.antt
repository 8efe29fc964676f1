-- ===== src/Reporting/Ledger/Links.antt =====
-- ledger.ts: how the chain of a ledger grows by an event.
use webmcp_security_lab.Prelude.{
  ℕ, suc, ◌+◌, ◌≤◌, ◌≡◌, refl, subst, Bool, true, false, Option, none, some, List, [], ◌∷◌, ◌++◌,
  String, nat_beq, nat_beq_iff, length, arith, All, ◌==◌, ◌&&◌, string_eq, eq_refl, if◌then◌else◌,
}
use webmcp_security_lab.Prelude.Dates.{date_eq, same_date}
use webmcp_security_lab.Issues.Model.{ModerationState, published, state_eq, same_state_iff}
use webmcp_security_lab.Issues.Publication.{PublicationGate}
use webmcp_security_lab.Issues.Moderation.{IssueRecord, ModerationEvent, moved, event_of}
use webmcp_security_lab.Reporting.Ledger.{
  LedgerActor, LedgerEvent, LedgerRecord, Digests, expected_payload, is_link, is_chain,
  transition_body,
}

-- The hash that the next event has to carry.
abbrev pub last_hash : Option String → List LedgerEvent → Option String
last_hash previous [] = previous
last_hash previous (event ∷ events) = last_hash (some event.event_sha256) events

-- An event that publishes nothing.
abbrev pub IsPrivate : LedgerEvent → Type 0
IsPrivate event = (event.body.to == published) ≡ false

pub both : (a b : Bool) → (a && b) ≡ true → (a ≡ true) × (b ≡ true)
both true b h = (refl, h)
both false b h = absurd (cc)

module _ (digests : Digests) where
  expected_payload-moved :
      (r : IssueRecord) (at sequence : ℕ) (to later : ModerationState) (p : Option PublicationGate)
      → (to == published) ≡ false
      → expected_payload digests (moved r at later p) sequence to
        ≡ expected_payload digests r sequence to
  unfolding expected_payload moved
  expected_payload-moved r at sequence to later p h = rw h refl

  -- A transition leaves the links of the earlier events as they were.
  pub is_chain-moved :
      (r : IssueRecord) (at sequence : ℕ) (later : ModerationState) (p : Option PublicationGate)
      (previous : Option String) (events : List LedgerEvent) (history : List ModerationEvent)
      → All IsPrivate events
      → is_chain digests r sequence previous events history ≡ true
      → is_chain digests (moved r at later p) sequence previous events history ≡ true
  unfolding is_chain is_link moved
  is_chain-moved r at sequence later p previous [] history u h = refl
  is_chain-moved r at sequence later p previous (e ∷ es) [] u h = h
  is_chain-moved r at sequence later p previous (e ∷ es) (m ∷ history) (u, us) h = ground (
    arith,
    expected_payload-moved r at sequence e.body.to later p u,
    is_chain-moved r at (suc sequence) later p (some e.event_sha256) es history us,
    h,
  )

  pub is_chain-snoc :
      (r : IssueRecord) (sequence place : ℕ) (previous : Option String) (events : List LedgerEvent)
      (history : List ModerationEvent) (e : LedgerEvent) (m : ModerationEvent)
      → is_chain digests r sequence previous events history ≡ true
      → length events ≡ length history
      → place ≡ sequence + length events
      → is_link digests r place (last_hash previous events) e m ≡ true
      → is_chain digests r sequence previous (events ++ e ∷ []) (history ++ m ∷ []) ≡ true
  unfolding is_chain
  is_chain-snoc r sequence place previous [] [] e m h n s l =
      let here : place ≡ sequence = omega (arith, s) in
      rw (subst (λ k. is_link digests r k previous e m ≡ true) here l) refl
  is_chain-snoc r sequence place previous [] (x ∷ history) e m h n s l = absurd (omega (arith, n))
  is_chain-snoc r sequence place previous (x ∷ events) [] e m h n s l = absurd (omega (arith, n))
  is_chain-snoc r sequence place previous (x ∷ events) (y ∷ history) e m h n s l =
      let (first, rest) =
        both (is_link digests r sequence previous x y)
          (is_chain digests r (suc sequence) (some x.event_sha256) events history) h in
      rw
        (
          first,
          is_chain-snoc r (suc sequence) place (some x.event_sha256) events history e m rest
              (omega (arith, n)) (omega (arith, s)) l,
        )
        refl

  -- The link of an event that a transition has made.
  pub is_link-transition_body :
      (actor : LedgerActor) (request_id event_id : String) (current : LedgerRecord) (at : ℕ)
      (to : ModerationState) (p : Option PublicationGate) (previous : Option String)
      → 1 ≤ current.revision
      → previous ≡ some current.last_event_sha256
      → (let r = moved current.moderation at to p in
          let body = transition_body digests actor request_id event_id current r in
          (if to == published then r.publication else none) ≡ r.publication
          → is_link digests r
              (current.revision + 1)
              previous
              (record { body = body; event_sha256 = digests.of_event body })
              (event_of at current.moderation.state to)
            ≡ true)
  unfolding is_link transition_body expected_payload moved same_date
  is_link-transition_body actor request_id event_id current at to p previous later last shown =
      let r = moved current.moderation at to p in
      let body = transition_body digests actor request_id event_id current r in
      let n = current.revision + 1 in
      let not_first : nat_beq n 1 ≡ false = ground arith in
      rw
        (
          last,
          eq_refl r.id,
          (nat_beq_iff n n).1 refl,
          eq_refl current.last_event_sha256,
          (same_state_iff current.moderation.state current.moderation.state).1 refl,
          (same_state_iff to to).1 refl,
          (nat_beq_iff at at).1 refl,
          not_first,
          shown,
          eq_refl (digests.of_transition to r.publication),
          eq_refl (digests.of_event body),
        )
        refl
