-- ===== src/Reporting/Ledger/Kept.antt =====
-- ledger.ts: the ledgers that an intake and transitions make, and what their events are.
use webmcp_security_lab.Prelude.{
  ℕ, ◌+◌, ◌≡◌, sym, ap, ◌∙◌, true, List, [], ◌∷◌, ◌++◌, String, nat_beq, arith, ◌&&◌,
}
use webmcp_security_lab.Prelude.Result.{ok, guard_passed, >>=-eq-ok, ok-injective}
use webmcp_security_lab.Prelude.Dates.{DateText, is_exact}
use webmcp_security_lab.Prelude.Text.{is_uuid}
use webmcp_security_lab.Issues.Model.{state_eq, Runtime}
use webmcp_security_lab.Issues.Draft.{IssueDraftInput}
use webmcp_security_lab.Issues.Moderation.{IssueRecord, Transition, create_record, transition}
use webmcp_security_lab.Issues.Review.{rethrow}
use webmcp_security_lab.Issues.Review.Within.{rethrow-ok}
use webmcp_security_lab.Reporting.Ledger.{
  LedgerRole, intake, LedgerActor, LedgerBody, LedgerEvent, LedgerRecord, Digests, bad_uuid,
  bad_time, bad_actor, bad_event, not_intake, stale_revision, wrong_authority, bad_moderation,
  is_safe, same_role, actor_fits, body_fits, allowed_role, make_event, intake_body, transition_body,
  ledger_of, first_at, create_intake, transition_ledger,
}

role-eq : (a b : LedgerRole) → same_role a b ≡ true → a ≡ b
role-eq a b h = ground arith

module _ (digests : Digests) where
  pub make_event-eq :
      (body : LedgerBody) (e : LedgerEvent)
      → make_event digests body ≡ ok e
      → (e ≡ record { body = body; event_sha256 = digests.of_event body }) × (body_fits body ≡ true)
  unfolding make_event
  make_event-eq body e h =
      let (_, h1) = guard_passed (is_uuid body.event_id) bad_uuid h in
      let (_, h2) = guard_passed (is_uuid body.report_id) bad_uuid h1 in
      let (_, h3) = guard_passed (is_exact body.at) bad_time h2 in
      let (_, h4) = guard_passed (actor_fits body.actor) bad_actor h3 in
      let (_, h5) = guard_passed (is_uuid body.request_id) bad_uuid h4 in
      let (fits, h6) = guard_passed (body_fits body) bad_event h5 in (sym (ok-injective h6), fits)

  module _ (runtime : Runtime) where
    -- A ledger is opened by an intake, and then kept by any transitions.
    pub data Kept : LedgerRecord → List LedgerEvent → Type 0 where
      opened :
          (draft : IssueDraftInput) (actor : LedgerActor) (request_id event_id id : String)
          (now : ℕ) {r : LedgerRecord} {e : LedgerEvent}
          → create_intake digests runtime draft actor request_id event_id id now ≡ ok (r, e)
          → Kept r (e ∷ [])
      continued :
          (given : Transition) (actor : LedgerActor) (expected : ℕ) (request_id event_id : String)
          {r s : LedgerRecord} {es : List LedgerEvent} {e : LedgerEvent}
          → Kept r es
          → transition_ledger digests runtime r given actor expected request_id event_id ≡ ok (s, e)
          → Kept s (es ++ e ∷ [])

    pub record Opened (r : LedgerRecord) (e : LedgerEvent) : Type 0 where
      pub draft : IssueDraftInput
      pub actor : LedgerActor
      pub request_id : String
      pub event_id : String
      pub id : String
      pub now : ℕ
      pub moderation : IssueRecord
      pub at : DateText
      pub role_so : actor.role ≡ intake
      pub taken : create_record runtime id now draft ≡ ok moderation
      pub timed : first_at moderation.history ≡ ok at
      pub made :
          make_event digests (intake_body digests actor request_id event_id moderation at) ≡ ok e
      pub shape :
          r ≡ record { revision = 1; moderation = moderation; last_event_sha256 = e.event_sha256 }

    pub create_intake_lem :
        (draft : IssueDraftInput) (actor : LedgerActor) (request_id event_id id : String) (now : ℕ)
        (r : LedgerRecord) (e : LedgerEvent)
        → create_intake digests runtime draft actor request_id event_id id now ≡ ok (r, e)
        → Opened r e
    unfolding create_intake ledger_of
    create_intake_lem draft actor request_id event_id id now r e h =
        let (_, h1) = guard_passed (actor_fits actor) bad_actor h in
        let (role, h2) = guard_passed (same_role actor.role intake) not_intake h1 in
        let (m, t, h3) =
          >>=-eq-ok (rethrow bad_moderation (create_record runtime id now draft)) _ h2 in
        let (at, a, h4) = >>=-eq-ok (first_at m.history) _ h3 in
        let (event, f, h5) =
          >>=-eq-ok (make_event digests (intake_body digests actor request_id event_id m at)) _
            h4 in
        conclude m at event (role-eq actor.role intake role)
          (rethrow-ok bad_moderation (create_record runtime id now draft) m t) a f (ok-injective h5)
      where
        conclude :
            (m : IssueRecord) (at : DateText) (event : LedgerEvent)
            → actor.role ≡ intake
            → create_record runtime id now draft ≡ ok m
            → first_at m.history ≡ ok at
            → make_event digests (intake_body digests actor request_id event_id m at) ≡ ok event
            → ledger_of 1 m event ≡ (r, e)
            → Opened r e
        conclude m at event role t a f both =
            let same : event ≡ e = ap (λ x. x.1) both in
            record {
              draft = draft;
              actor = actor;
              request_id = request_id;
              event_id = event_id;
              id = id;
              now = now;
              moderation = m;
              at = at;
              role_so = role;
              taken = t;
              timed = a;
              made = f ∙ ap ok same;
              shape = sym (ap (λ x. x.0) both) ∙ ap (λ x. (ledger_of 1 m x).0) same;
            }

    pub record Continued (r : LedgerRecord) (s : LedgerRecord) (e : LedgerEvent) : Type 0 where
      pub given : Transition
      pub actor : LedgerActor
      pub request_id : String
      pub event_id : String
      pub after : IssueRecord
      pub role_so : actor.role ≡ allowed_role after.state
      pub moves : transition runtime r.moderation given ≡ ok after
      pub made :
          make_event digests (transition_body digests actor request_id event_id r after) ≡ ok e
      pub shape : s ≡ record {
        revision = r.revision + 1;
        moderation = after;
        last_event_sha256 = e.event_sha256;
      }

    pub transition_ledger_lem :
        (given : Transition) (actor : LedgerActor) (expected : ℕ) (request_id event_id : String)
        (r s : LedgerRecord) (e : LedgerEvent)
        → transition_ledger digests runtime r given actor expected request_id event_id ≡ ok (s, e)
        → Continued r s e
    unfolding transition_ledger ledger_of
    transition_ledger_lem given actor expected request_id event_id r s e h =
        let (_, h1) =
          guard_passed (is_safe expected && nat_beq expected r.revision) stale_revision h in
        let (_, h2) = guard_passed (actor_fits actor) bad_actor h1 in
        let (m, t, h3) =
          >>=-eq-ok (rethrow bad_moderation (transition runtime r.moderation given)) _ h2 in
        let (role, h4) =
          guard_passed (same_role actor.role (allowed_role m.state)) wrong_authority h3 in
        let (event, f, h5) =
          >>=-eq-ok (make_event digests (transition_body digests actor request_id event_id r m)) _
            h4 in
        conclude m event (role-eq actor.role (allowed_role m.state) role)
          (rethrow-ok bad_moderation (transition runtime r.moderation given) m t) f
          (ok-injective h5)
      where
        conclude :
            (m : IssueRecord) (event : LedgerEvent)
            → actor.role ≡ allowed_role m.state
            → transition runtime r.moderation given ≡ ok m
            → make_event digests (transition_body digests actor request_id event_id r m) ≡ ok event
            → ledger_of (r.revision + 1) m event ≡ (s, e)
            → Continued r s e
        conclude m event role t f both =
            let same : event ≡ e = ap (λ x. x.1) both in
            record {
              given = given;
              actor = actor;
              request_id = request_id;
              event_id = event_id;
              after = m;
              role_so = role;
              moves = t;
              made = f ∙ ap ok same;
              shape = sym (ap (λ x. x.0) both) ∙ ap (λ x. (ledger_of (r.revision + 1) m x).0) same;
            }
