-- ===== src/Reporting/Ledger/History.antt =====
-- ledger.ts: every ledger that is kept is a ledger of this kind, from its intake on.
use webmcp_security_lab.Prelude.{
  ℕ, ◌≡◌, refl, sym, ap, subst, ◌∙◌, List, [], ◌∷◌, String, nat_beq_iff, arith, string_eq, eq_refl,
}
use webmcp_security_lab.Prelude.Result.{ok, ok-injective}
use webmcp_security_lab.Prelude.Dates.{DateText, to_iso, date_eq, same_date}
use webmcp_security_lab.Issues.Model.{state_eq, same_state, rank, Runtime}
use webmcp_security_lab.Issues.Draft.{IssueDraftInput}
use webmcp_security_lab.Issues.Moderation.{IssueRecord}
use webmcp_security_lab.Issues.Moderation.Reached.{Reached, taken_in, intake_of, create_record_lem}
use webmcp_security_lab.Reporting.Ledger.{
  intake, LedgerActor, LedgerBody, LedgerEvent, LedgerRecord, Digests, make_event, intake_body,
  first_at, is_link, is_chain, expected_payload,
}
use webmcp_security_lab.Reporting.Ledger.Kept.{
  Kept, opened, continued, Opened, create_intake_lem, transition_ledger_lem, make_event-eq,
}
use webmcp_security_lab.Reporting.Ledger.Chain.{IsLedger, hashed_event, Continued-IsLedger}

module _ (digests : Digests) (runtime : Runtime) where
  abbrev first_record : IssueRecord → LedgerEvent → LedgerRecord
  first_record m e = record { revision = 1; moderation = m; last_event_sha256 = e.event_sha256 }

  abbrev IsStart : LedgerActor → String → String → IssueRecord → DateText → Type 0
  IsStart actor request_id event_id m at =
      let body = intake_body digests actor request_id event_id m at in
      Reached runtime m
      → actor.role ≡ intake
      → make_event digests body ≡ ok (hashed_event digests runtime body)
      → IsLedger digests runtime (first_record m (hashed_event digests runtime body))
          (hashed_event digests runtime body ∷ [])

  started :
      (actor : LedgerActor) (request_id event_id id : String) (now : ℕ) (draft : IssueDraftInput)
      → IsStart actor request_id event_id (intake_of id now draft) (to_iso now)
  unfolding intake_body is_chain is_link expected_payload same_state rank same_date
  started actor request_id event_id id now draft reached role made =
      let m = intake_of id now draft in
      let body = intake_body digests actor request_id event_id m (to_iso now) in
      record {
        reached = reached;
        counted = refl;
        aligned = refl;
        begun = omega arith;
        safe = refl;
        chained =
            rw
              (
                eq_refl id,
                (nat_beq_iff now now).1 refl,
                eq_refl (digests.of_intake id m.received_at m.draft),
                eq_refl (digests.of_event body),
              )
              refl;
        hashed = refl;
        ends = rw (eq_refl (digests.of_event body)) refl;
        private_so = λ q. (refl, tt);
        made = (made, tt);
        staffed = (role, tt);
        last_so = (body, refl);
      }

  Opened-IsLedger :
      (r : LedgerRecord) (e : LedgerEvent)
      → Opened digests runtime r e
      → IsLedger digests runtime r (e ∷ [])
  unfolding first_at
  Opened-IsLedger r e o =
      let t = create_record_lem runtime o.id o.now o.draft o.moderation o.taken in
      let m = intake_of o.id o.now o.draft in
      let body : IssueRecord → DateText → LedgerBody =
        intake_body digests o.actor o.request_id o.event_id in
      let at_so : to_iso o.now ≡ o.at =
        ok-injective (sym (ap (λ x. first_at x.history) t.shape) ∙ o.timed) in
      let made : make_event digests (body m (to_iso o.now)) ≡ ok e =
        ap (λ x. make_event digests (body x (to_iso o.now))) (sym t.shape)
        ∙ ap (λ x. make_event digests (body o.moderation x)) at_so
        ∙ o.made in
      let (same, _) = make_event-eq digests (body m (to_iso o.now)) e made in
      let result =
        started o.actor o.request_id o.event_id o.id o.now o.draft
          (taken_in o.id o.now o.draft (o.taken ∙ ap ok t.shape)) o.role_so (made ∙ ap ok same) in
      subst (λ x. IsLedger digests runtime x (e ∷ []))
        (sym (o.shape ∙ ap (λ x. first_record x e) t.shape))
        (subst (λ x. IsLedger digests runtime (first_record m x) (x ∷ [])) (sym same) result)

  pub Kept-IsLedger :
      (r : LedgerRecord) (es : List LedgerEvent)
      → Kept digests runtime r es
      → IsLedger digests runtime r es
  Kept-IsLedger r es (opened draft actor request_id event_id id now {e = e} h) =
      Opened-IsLedger r e
        (create_intake_lem digests runtime draft actor request_id event_id id now r e h)
  Kept-IsLedger s es' (continued given actor expected request_id event_id {r} {es = es} {e} k h) =
      Continued-IsLedger digests runtime r s es e (Kept-IsLedger r es k)
        (transition_ledger_lem digests runtime given actor expected request_id event_id r s e h)
