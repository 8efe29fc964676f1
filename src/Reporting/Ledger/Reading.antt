-- ===== src/Reporting/Ledger/Reading.antt =====
-- ledger.ts: which ledgers are read, and that a chain cannot be replaced.
use webmcp_security_lab.Prelude.{
  ◌≤◌, ◌≡◌, ◌↔◌, refl, sym, ap, subst, ◌∙◌, true, List, [], ◌∷◌, nat_beq_iff, leb, length, arith,
  All, ◌&&◌, string_eq, eq_refl,
}
use webmcp_security_lab.Prelude.Result.{ok, guard_passed, >>=-eq-ok}
use webmcp_security_lab.Prelude.Text.{is_sha256}
use webmcp_security_lab.Prelude.Dates.{date_eq}
use webmcp_security_lab.Issues.Model.{state_eq, current_limitation, Runtime}
use webmcp_security_lab.Issues.Moderation.{IssueRecord, parse_record}
use webmcp_security_lab.Issues.Moderation.Reached.{Reached}
use webmcp_security_lab.Issues.Moderation.Rebuilt.{Reached-Replayable}
use webmcp_security_lab.Issues.Moderation.Readable.{modernized, relabel}
use webmcp_security_lab.Issues.Moderation.Reading.{parse_record_iff}
use webmcp_security_lab.Issues.Review.{rethrow}
use webmcp_security_lab.Issues.Review.Within.{rethrow-ok}
use webmcp_security_lab.Reporting.Ledger.{
  LedgerBody, LedgerEvent, LedgerRecord, Digests, bad_moderation, bad_record, is_safe, make_event,
  verify_chain, parse_event, parse_events, parse_ledger_record, parse_bundle,
}
use webmcp_security_lab.Reporting.Ledger.Kept.{Kept, make_event-eq}
use webmcp_security_lab.Reporting.Ledger.Chain.{IsLedger, WasMade, HasAuthority}
use webmcp_security_lab.Reporting.Ledger.History.{Kept-IsLedger}

module _ (digests : Digests) (runtime : Runtime) where
  -- Each event of a ledger that is kept was recorded by one who may: the intake by the intake, a
  -- publication by a publisher, and every other event by a reviewer.
  pub Kept-HasAuthority :
      (r : LedgerRecord) (es : List LedgerEvent) → Kept digests runtime r es → All HasAuthority es
  Kept-HasAuthority r es k = (Kept-IsLedger digests runtime r es k).staffed

  verify_kept :
      (r : LedgerRecord) (es : List LedgerEvent)
      → IsLedger digests runtime r es
      → verify_chain digests r es ≡ true
  unfolding verify_chain
  verify_kept r es h =
      let a = (nat_beq_iff (length es) r.revision).1 h.counted in
      let b = (nat_beq_iff (length es) (length r.moderation.history)).1 h.aligned in
      rw (a, b, h.ends, h.chained) refl

  parse_made :
      (e : LedgerEvent)
      → ((body : LedgerBody) → is_sha256 (digests.of_event body) ≡ true)
      → make_event digests e.body ≡ ok e
      → parse_event digests e ≡ ok e
  unfolding parse_event
  parse_made e hashes h =
      let (shape, _) = make_event-eq digests e.body e h in
      let shaped = ap (λ x. is_sha256 x.event_sha256) shape ∙ hashes e.body in
      rw (shaped, h, eq_refl e.event_sha256) refl

  parse_events-made :
      (es : List LedgerEvent)
      → ((body : LedgerBody) → is_sha256 (digests.of_event body) ≡ true)
      → All (WasMade digests runtime) es
      → parse_events digests es ≡ ok es
  unfolding parse_events
  parse_events-made [] hashes h = refl
  parse_events-made (e ∷ es) hashes (h, hs) =
      rw (parse_made e hashes h, parse_events-made es hashes hs) refl

  modernized-eq : (r : IssueRecord) → Reached runtime r → modernized r ≡ r
  modernized-eq r h =
      let d = (Reached-Replayable runtime r h).draft_so in
      let same : relabel current_limitation r.draft ≡ r.draft =
        ap (relabel current_limitation) d ∙ sym d in
      λ i. record r { draft = same i }

  record_read :
      (r : LedgerRecord) (es : List LedgerEvent)
      → ((body : LedgerBody) → is_sha256 (digests.of_event body) ≡ true)
      → IsLedger digests runtime r es
      → length es ≤ 8
      → parse_ledger_record runtime r ≡ ok r
  unfolding parse_ledger_record
  record_read r es hashes h short =
      let (body, last) = h.last_so in
      let shaped = ap is_sha256 last ∙ hashes body in
      let some_event : leb 1 r.revision ≡ true = ground (arith, h.begun) in
      let back = sym (modernized-eq r.moderation h.reached) in
      let read =
        (parse_record_iff runtime r.moderation r.moderation).1
          (refl, subst (Reached runtime) back h.reached, omega (arith, h.aligned)) in
      let n =
        (nat_beq_iff r.revision (length r.moderation.history)).1 (sym h.counted ∙ h.aligned) in
      rw (h.safe, some_event, shaped, read, n) refl

  record_short :
      (r x : LedgerRecord) → parse_ledger_record runtime r ≡ ok x → length r.moderation.history ≤ 8
  unfolding parse_ledger_record
  record_short r x e =
      let (_, e1) =
        guard_passed (is_safe r.revision && leb 1 r.revision && is_sha256 r.last_event_sha256)
          bad_record e in
      let (m, e2, _) =
        >>=-eq-ok (rethrow bad_moderation (parse_record runtime r.moderation)) _ e1 in
      let read = rethrow-ok bad_moderation (parse_record runtime r.moderation) m e2 in
      let (_, _, short) = (parse_record_iff runtime r.moderation m).0 read in short

  -- Where SHA-256 gives 64 hexadecimal digits, a ledger that is kept is read back as it was, its
  -- chain verified, exactly when it has at most eight events.
  pub Kept-parse_bundle :
      (r : LedgerRecord) (es : List LedgerEvent)
      → ((body : LedgerBody) → is_sha256 (digests.of_event body) ≡ true)
      → Kept digests runtime r es
      → (parse_bundle digests runtime r es ≡ ok (r, es)) ↔ (length es ≤ 8)
  unfolding parse_bundle
  Kept-parse_bundle r es hashes k =
      let h = Kept-IsLedger digests runtime r es k in
      (
        (λ e.
            let (x, read, _) = >>=-eq-ok (parse_ledger_record runtime r) _ e in
            omega (arith, h.aligned, record_short r x read)),
        (λ short.
            rw
              (
                record_read r es hashes h short,
                parse_events-made es hashes h.made,
                verify_kept r es h,
              )
              refl),
      )
