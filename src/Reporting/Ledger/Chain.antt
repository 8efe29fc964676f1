-- ===== src/Reporting/Ledger/Chain.antt =====
-- ledger.ts: what every ledger that is kept is like.
use webmcp_security_lab.Prelude.{
  ℕ, ◌+◌, ◌≤◌, ◌≡◌, ◌≢◌, refl, sym, ap, subst, ◌∙◌, true, false, Option, none, some, List, [], ◌∷◌,
  ◌++◌, String, length, length-append, last?, last?-append, arith, All, All-append, ◌==◌, string_eq,
  eq_refl, if◌then◌else◌, Bool-cases, inl, inr,
}
use webmcp_security_lab.Prelude.Result.{ok}
use webmcp_security_lab.Prelude.Dates.{date_eq}
use webmcp_security_lab.Issues.Model.{
  ModerationState, received, quarantined, under_review, needs_evidence, accepted_private, duplicate,
  rejected, published, same_state, state_eq, same_state_iff, Runtime,
}
use webmcp_security_lab.Issues.Publication.{PublicationGate}
use webmcp_security_lab.Issues.Moderation.{IssueRecord, moved, event_of}
use webmcp_security_lab.Issues.Moderation.Reached.{Reached, transitioned, transition_lem}
use webmcp_security_lab.Issues.Moderation.Replay.{is_marked, not_published_of_allowed}
use webmcp_security_lab.Issues.Moderation.Rebuilt.{Reached-Replayable, none_of_marked}
use webmcp_security_lab.Issues.Moderation.Closing.{Reached-ne-received}
use webmcp_security_lab.Reporting.Ledger.{
  intake, reviewer, publisher, LedgerActor, LedgerBody, LedgerEvent, LedgerRecord, Digests, is_safe,
  body_fits, allowed_role, make_event, transition_body, is_chain, ends_so,
}
use webmcp_security_lab.Reporting.Ledger.Kept.{Continued, make_event-eq}
use webmcp_security_lab.Reporting.Ledger.Links.{
  last_hash, IsPrivate, is_chain-moved, is_chain-snoc, is_link-transition_body,
}

-- The intake was made by an actor of the intake, a publication by a publisher, and any other event
-- by a reviewer.
abbrev pub HasAuthority : LedgerEvent → Type 0
HasAuthority e = e.body.actor.role ≡ (
    if e.body.from == received
    then intake
    else if e.body.to == published
    then publisher
    else reviewer)

allowed_role_lem :
    (to : ModerationState) → allowed_role to ≡ (if to == published then publisher else reviewer)
unfolding allowed_role same_state
allowed_role_lem received = refl
allowed_role_lem quarantined = refl
allowed_role_lem under_review = refl
allowed_role_lem needs_evidence = refl
allowed_role_lem accepted_private = refl
allowed_role_lem duplicate = refl
allowed_role_lem rejected = refl
allowed_role_lem published = refl

not_same : (x y : ModerationState) → x ≢ y → (x == y) ≡ false
not_same x y n = elim (Bool-cases (x == y)) [
  | inl e ↦ absurd (n ((same_state_iff x y).0 e))
  | inr e ↦ e
]

ends_self :
    (r : LedgerRecord) (e : LedgerEvent)
    → r.moderation.state ≡ e.body.to
    → r.last_event_sha256 ≡ e.event_sha256
    → ends_so r (some e) ≡ true
ends_self r e s h =
    let a = (same_state_iff r.moderation.state e.body.to).1 s in
    rw (a, h, eq_refl e.event_sha256) refl

module _ (digests : Digests) (runtime : Runtime) where
  abbrev pub WasMade : LedgerEvent → Type 0
  WasMade e = make_event digests e.body ≡ ok e

  pub record IsLedger (r : LedgerRecord) (es : List LedgerEvent) : Type 0 where
    pub reached : Reached runtime r.moderation
    pub counted : length es ≡ r.revision
    pub aligned : length es ≡ length r.moderation.history
    pub begun : 1 ≤ r.revision
    pub safe : is_safe r.revision ≡ true
    pub chained : is_chain digests r.moderation 1 none es r.moderation.history ≡ true
    pub hashed : last_hash none es ≡ some r.last_event_sha256
    pub ends : ends_so r (last? es) ≡ true
    pub private_so : (r.moderation.state == published) ≡ false → All IsPrivate es
    pub made : All WasMade es
    pub staffed : All HasAuthority es
    pub last_so : (body : LedgerBody) × (r.last_event_sha256 ≡ digests.of_event body)

  abbrev pub hashed_event : LedgerBody → LedgerEvent
  hashed_event body = record { body = body; event_sha256 = digests.of_event body }

  abbrev record_after : LedgerRecord → IssueRecord → LedgerEvent → LedgerRecord
  record_after r m e = record {
    revision = r.revision + 1;
    moderation = m;
    last_event_sha256 = e.event_sha256;
  }

  body_safe : (body : LedgerBody) → body_fits body ≡ true → is_safe body.revision ≡ true
  unfolding body_fits
  body_safe body h = ground (arith, h)

  last_hash-snoc :
      (previous : Option String) (es : List LedgerEvent) (e : LedgerEvent)
      → last_hash previous (es ++ e ∷ []) ≡ some e.event_sha256
  last_hash-snoc previous [] e = refl
  last_hash-snoc previous (x ∷ es) e = last_hash-snoc (some x.event_sha256) es e

  shown_of_marked :
      (to : ModerationState) (p : Option PublicationGate)
      → is_marked to p ≡ true
      → (if to == published then p else none) ≡ p
  shown_of_marked to p h = elim (Bool-cases (to == published)) [
    | inl e ↦ rw e refl
    | inr e ↦ rw e (sym (none_of_marked runtime to p e h))
  ]

  -- An event and the record after it, as a transition makes them.
  grown :
      (r : LedgerRecord) (es : List LedgerEvent) (actor : LedgerActor)
      (request_id event_id : String) (at : ℕ) (to : ModerationState) (p : Option PublicationGate)
      → (let m = moved r.moderation at to p in
          let body = transition_body digests actor request_id event_id r m in
          let e = hashed_event body in
          IsLedger r es
          → Reached runtime m
          → (r.moderation.state == published) ≡ false
          → actor.role ≡ allowed_role to
          → make_event digests body ≡ ok e
          → IsLedger (record_after r m e) (es ++ e ∷ []))
  unfolding moved transition_body
  grown r es actor request_id event_id at to p h reached open_ role made =
      let m = moved r.moderation at to p in
      let body = transition_body digests actor request_id event_id r m in
      let e = hashed_event body in
      let marked = (Reached-Replayable runtime m reached).marked in
      let link =
        is_link-transition_body digests actor request_id event_id r at to p (last_hash none es)
          h.begun h.hashed (shown_of_marked to m.publication marked) in
      let kept =
        is_chain-moved digests r.moderation at 1 to p none es r.moderation.history
          (h.private_so open_) h.chained in
      let not_intake =
        not_same r.moderation.state received (Reached-ne-received runtime r.moderation h.reached) in
      let longer = length-append es (e ∷ []) in
      record {
        reached = reached;
        counted = omega (arith, longer, h.counted);
        aligned = omega (
          arith,
          longer,
          h.aligned,
          length-append r.moderation.history (event_of at r.moderation.state to ∷ []),
        );
        begun = omega arith;
        safe = body_safe body (make_event-eq digests body e made).1;
        chained =
            is_chain-snoc digests m 1 (r.revision + 1) none es r.moderation.history e
              (event_of at r.moderation.state to) kept h.aligned (omega (arith, h.counted)) link;
        hashed = last_hash-snoc none es e;
        ends =
            ap (ends_so (record_after r m e)) (last?-append es e)
            ∙ ends_self (record_after r m e) e refl refl;
        private_so = λ q. All-append IsPrivate es (e ∷ []) (h.private_so open_) (q, tt);
        made = All-append WasMade es (e ∷ []) h.made (made, tt);
        staffed = All-append HasAuthority es (e ∷ []) h.staffed (
          role
              ∙ allowed_role_lem to
              ∙ ap (λ b. if b then intake else if to == published then publisher else reviewer)
                  (sym not_intake),
          tt,
        );
        last_so = (body, refl);
      }

  abbrev IsStep :
      LedgerRecord → List LedgerEvent → LedgerActor → String → String → IssueRecord → Type 0
  IsStep r es actor request_id event_id m =
      let body = transition_body digests actor request_id event_id r m in
      Reached runtime m
      → actor.role ≡ allowed_role m.state
      → make_event digests body ≡ ok (hashed_event body)
      → IsLedger (record_after r m (hashed_event body)) (es ++ hashed_event body ∷ [])

  grown-IsStep :
      (r : LedgerRecord) (es : List LedgerEvent) (actor : LedgerActor)
      (request_id event_id : String) (at : ℕ) (to : ModerationState) (p : Option PublicationGate)
      → IsLedger r es
      → (r.moderation.state == published) ≡ false
      → IsStep r es actor request_id event_id (moved r.moderation at to p)
  unfolding moved
  grown-IsStep r es actor request_id event_id at to p h open_ reached role made =
      grown r es actor request_id event_id at to p h reached open_ role made

  pub Continued-IsLedger :
      (r s : LedgerRecord) (es : List LedgerEvent) (e : LedgerEvent)
      → IsLedger r es
      → Continued digests runtime r s e
      → IsLedger s (es ++ e ∷ [])
  Continued-IsLedger r s es e h c =
      let m = transition_lem runtime r.moderation c.given c.after c.moves in
      let there = transitioned c.given h.reached c.moves in
      let open_ = not_published_of_allowed r.moderation.state c.given.to m.allowed in
      let body : IssueRecord → LedgerBody =
        transition_body digests c.actor c.request_id c.event_id r in
      let (same, _) = make_event-eq digests (body c.after) e c.made in
      let made : make_event digests (body c.after) ≡ ok (hashed_event (body c.after)) =
        c.made ∙ ap ok same in
      let result : IsLedger (record_after r c.after (hashed_event (body c.after)))
          (es ++ hashed_event (body c.after) ∷ []) =
        subst (IsStep r es c.actor c.request_id c.event_id) (sym m.shape)
          (grown-IsStep r es c.actor c.request_id c.event_id m.at c.given.to m.publication h open_)
          there c.role_so made in
      subst (λ x. IsLedger x (es ++ e ∷ [])) (sym c.shape)
        (subst (λ x. IsLedger (record_after r c.after x) (es ++ x ∷ [])) (sym same) result)
