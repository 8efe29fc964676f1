-- ===== src/Issues/External/RoundTrip.antt =====
-- external-report-action.ts: a report from its composition to its submission.
use webmcp_security_lab.Prelude.{
  ℕ, ◌+◌, ◌<◌, ◌≡◌, refl, ap, ◌∙◌, false, Option, none, some, String, leb, arith, string_eq,
  eq_refl,
}
use webmcp_security_lab.Prelude.Result.{Result, ok, err, is_ok, ◌>>=◌, >>=-eq-ok}
use webmcp_security_lab.Prelude.Dict.{
  Dict, get, discard, evict, get-set_self, get-discard_keep, get-discard-none, get-delete_self,
}
use webmcp_security_lab.Issues.Model.{Runtime}
use webmcp_security_lab.Issues.Draft.{IssueDraft, create_draft}
use webmcp_security_lab.Issues.Draft.Canonical.{draft_of, create_draft-eq, create_draft_like}
use webmcp_security_lab.Issues.Review.{rethrow}
use webmcp_security_lab.Issues.Review.Within.{rethrow-ok}
use webmcp_security_lab.Issues.External.{
  Pending, ExternalManager, ReportWords, ExternalError, bad_draft, external_scope, is_over, cleanup,
  match_pending, report_input, consume_record, store_composition, store_submission, compose_in,
  consume_in, canonical_external_origin, new_composition, issue_composition, compose,
  new_submission, issue_submission, consume_submission,
}

abbrev pub report_of : String → ReportWords → IssueDraft
report_of site_origin words = draft_of (report_input (some site_origin) words)

match_found :
    {V : Type 0} (later : ℕ) (scope : String) (pending : Pending V)
    → is_over later pending ≡ false
    → pending.scope ≡ scope
    → match_pending later (some pending) scope ≡ ok pending
unfolding match_pending
match_found later scope pending fresh same = rw (fresh, same, eq_refl scope) refl

is_ok_bind :
    {A B : Type 0} (r : Result ExternalError A) (f : A → Result ExternalError B)
    → is_ok r ≡ false
    → is_ok (r >>= f) ≡ false
is_ok_bind (err e) f h = refl
is_ok_bind (ok a) f h = absurd (cc)

module _ (digest : String → String) where
  consume_found :
      {V : Type 0} (now later : ℕ) (token scope : String) (records : Dict (Pending V))
      (pending : Pending V)
      → get (digest token) records ≡ some pending
      → is_over now pending ≡ false
      → is_over later pending ≡ false
      → pending.scope ≡ scope
      → (consume_record digest later token scope (discard (is_over now) records)).1 ≡ ok pending
  unfolding consume_record
  consume_found now later token scope records pending found fresh fresh' same =
      let kept = get-discard_keep (is_over now) (digest token) records pending found fresh in
      ap (λ o. match_pending later o scope) kept ∙ match_found later scope pending fresh' same

  consume_gone :
      {V : Type 0} (now later : ℕ) (token scope : String) (records : Dict (Pending V))
      → get (digest token) records ≡ none
      → is_ok (consume_record digest later token scope (discard (is_over now) records)).1 ≡ false
  unfolding consume_record match_pending
  consume_gone now later token scope records gone =
      ap (λ o. is_ok (match_pending later o scope))
        (get-discard-none (is_over now) (digest token) records gone)

  submission_found :
      (now later : ℕ) (token scope : String) (m : ExternalManager) (pending : Pending IssueDraft)
      → external_scope scope ≡ ok scope
      → get (digest token) m.submissions ≡ some pending
      → is_over now pending ≡ false
      → is_over later pending ≡ false
      → pending.scope ≡ scope
      → (consume_submission digest now later token scope m).1 ≡ ok pending.value
  unfolding consume_submission consume_in cleanup
  submission_found now later token scope m pending bounded found fresh fresh' same =
      ap (λ r. (consume_in digest later token (cleanup now m) r).1) bounded
      ∙ ap (λ r. r >>= λ x. ok x.value)
          (consume_found now later token scope m.submissions pending found fresh fresh' same)

  submission_taken :
      (now later : ℕ) (token scope : String) (m : ExternalManager)
      → external_scope scope ≡ ok scope
      → get (digest token) (consume_submission digest now later token scope m).0.submissions ≡ none
  unfolding consume_submission consume_in consume_record cleanup
  submission_taken now later token scope m bounded =
      ap (λ r. get (digest token) (consume_in digest later token (cleanup now m) r).0.submissions)
        bounded
      ∙ get-delete_self (digest token) (discard (is_over now) m.submissions)

  submission_gone :
      (now later : ℕ) (token scope : String) (m : ExternalManager)
      → get (digest token) m.submissions ≡ none
      → is_ok (consume_submission digest now later token scope m).1 ≡ false
  unfolding consume_submission consume_in cleanup
  submission_gone now later token scope m gone = gone_in (external_scope scope)
    where
      gone_in :
          (r : Result ExternalError String)
          → is_ok (consume_in digest later token (cleanup now m) r).1 ≡ false
      gone_in (err e) = refl
      gone_in (ok b) =
          is_ok_bind (consume_record digest later token b (discard (is_over now) m.submissions)).1
            (λ x. ok x.value) (consume_gone now later token b m.submissions gone)

  module _ (runtime : Runtime) where
    -- What the issue of a composition leaves, for a site that is accepted.
    composition_issued :
        (now later : ℕ) (secret scope site_origin : String) (m : ExternalManager)
        → external_scope scope ≡ ok scope
        → canonical_external_origin runtime site_origin ≡ ok (some site_origin)
        → (let done = issue_composition digest runtime now later secret scope site_origin m in
            (done.1 ≡ ok secret)
            × (done.0.ttl_ms ≡ m.ttl_ms)
            × (get (digest secret) done.0.compositions
                ≡ some (record {
                  expires_at_ms = later + m.ttl_ms;
                  scope = scope;
                  value = some site_origin;
                })))
    unfolding issue_composition new_composition store_composition cleanup
    composition_issued now later secret scope site_origin m bounded accepted =
        let limited = record (cleanup now m) {
          compositions = evict 64 (cleanup now m).compositions;
        } in
        let pending : Pending (Option String) = record {
          expires_at_ms = later + m.ttl_ms;
          scope = scope;
          value = some site_origin;
        } in
        let made : new_composition runtime later scope site_origin limited ≡ ok pending =
          rw (bounded, accepted) refl in
        let done = ap (store_composition digest runtime secret limited) made in
        (
          ap (λ x. x.1) done,
          ap (λ x. x.0.ttl_ms) done,
          ap (λ x. get (digest secret) x.0.compositions) done
              ∙ get-set_self (digest secret) pending limited.compositions,
        )

    -- A site that is accepted is so with any words.
    accepted_words :
        (site_origin : String) (words : ReportWords)
        → canonical_external_origin runtime site_origin ≡ ok (some site_origin)
        → create_draft runtime (report_input (some site_origin) words)
          ≡ ok (report_of site_origin words)
    unfolding canonical_external_origin
    accepted_words site_origin words h =
        let (d, e, _) = >>=-eq-ok (rethrow bad_draft (create_draft runtime _)) _ h in
        let made = rethrow-ok bad_draft (create_draft runtime _) d e in
        create_draft_like runtime _ (report_input (some site_origin) words) d made refl refl

    composed :
        (now later : ℕ) (token scope site_origin : String) (words : ReportWords)
        (m : ExternalManager) (pending : Pending (Option String))
        → external_scope scope ≡ ok scope
        → canonical_external_origin runtime site_origin ≡ ok (some site_origin)
        → get (digest token) m.compositions ≡ some pending
        → is_over now pending ≡ false
        → is_over later pending ≡ false
        → pending.scope ≡ scope
        → pending.value ≡ some site_origin
        → (let done = compose digest runtime now later token scope words m in
            (done.1 ≡ ok (report_of site_origin words)) × (done.0.ttl_ms ≡ m.ttl_ms))
    unfolding compose compose_in cleanup
    composed now later token scope site_origin words m pending bounded accepted found fresh fresh'
          same value =
        let done = ap (compose_in digest runtime later token words (cleanup now m)) bounded in
        let taken =
          consume_found now later token scope m.compositions pending found fresh fresh' same in
        let made : rethrow bad_draft (create_draft runtime (report_input pending.value words))
            ≡ ok (report_of site_origin words) =
          ap (λ o. rethrow bad_draft (create_draft runtime (report_input o words))) value
          ∙ ap (rethrow bad_draft) (accepted_words site_origin words accepted) in
        (
          ap (λ x. x.1) done
              ∙ ap
                  (λ r. r >>= λ x.
                    rethrow bad_draft (create_draft runtime (report_input x.value words)))
                  taken
              ∙ made,
          ap (λ x. x.0.ttl_ms) done,
        )

    submission_issued :
        (now later : ℕ) (secret scope site_origin : String) (words : ReportWords)
        (m : ExternalManager)
        → external_scope scope ≡ ok scope
        → canonical_external_origin runtime site_origin ≡ ok (some site_origin)
        → (let done =
              issue_submission digest runtime now later secret scope
                (report_of site_origin words)
                m in
            (done.1 ≡ ok secret)
            × (get (digest secret) done.0.submissions
                ≡ some (record {
                  expires_at_ms = later + m.ttl_ms;
                  scope = scope;
                  value = report_of site_origin words;
                })))
    unfolding issue_submission new_submission store_submission cleanup
    submission_issued now later secret scope site_origin words m bounded accepted =
        let limited = record (cleanup now m) {
          submissions = evict 64 (cleanup now m).submissions;
        } in
        let pending : Pending IssueDraft = record {
          expires_at_ms = later + m.ttl_ms;
          scope = scope;
          value = report_of site_origin words;
        } in
        let fits = accepted_words site_origin words accepted in
        let (_, truthy) = create_draft-eq runtime _ _ fits in
        let made : new_submission runtime later scope (report_of site_origin words) limited
            ≡ ok pending =
          rw (truthy, fits, bounded) refl in
        let done = ap (store_submission digest runtime secret limited) made in
        (
          ap (λ x. x.1) done,
          ap (λ x. get (digest secret) x.0.submissions) done
              ∙ get-set_self (digest secret) pending limited.submissions,
        )

    fresh_before : (t deadline : ℕ) → t < deadline → leb deadline t ≡ false
    fresh_before t deadline h = ground (arith, h)

    -- A site that is accepted, as it is written, can be reported with any words: while the actions
    -- last, the composition gives the draft of this site and these words, the draft is given a
    -- submission, and its token gives this very draft back, once: no later use of the token
    -- succeeds, in any scope and at any time.
    pub consume_submission-compose :
        (m : ExternalManager) (scope other site_origin secret secret' : String)
        (words : ReportWords) (t1 t1' t2 t2' t3 t3' t4 t4' t5 t5' : ℕ)
        → external_scope scope ≡ ok scope
        → canonical_external_origin runtime site_origin ≡ ok (some site_origin)
        → t2 < t1' + m.ttl_ms
        → t2' < t1' + m.ttl_ms
        → t4 < t3' + m.ttl_ms
        → t4' < t3' + m.ttl_ms
        → (let draft = report_of site_origin words in
            let begun = issue_composition digest runtime t1 t1' secret scope site_origin m in
            let composed = compose digest runtime t2 t2' secret scope words begun.0 in
            let issued = issue_submission digest runtime t3 t3' secret' scope draft composed.0 in
            let sent = consume_submission digest t4 t4' secret' scope issued.0 in
            (begun.1 ≡ ok secret)
            × (composed.1 ≡ ok draft)
            × (issued.1 ≡ ok secret')
            × (sent.1 ≡ ok draft)
            × (is_ok (consume_submission digest t5 t5' secret' other sent.0).1 ≡ false))
    consume_submission-compose m scope other site_origin secret secret' words t1 t1' t2 t2' t3 t3'
          t4 t4' t5 t5' bounded accepted h2 h2' h4 h4' =
        let begun = issue_composition digest runtime t1 t1' secret scope site_origin m in
        let (a, ttl, found) =
          composition_issued t1 t1' secret scope site_origin m bounded accepted in
        let done = compose digest runtime t2 t2' secret scope words begun.0 in
        let (b, ttl') =
          composed t2 t2' secret scope site_origin words begun.0 _ bounded accepted found
            (fresh_before t2 (t1' + m.ttl_ms) h2) (fresh_before t2' (t1' + m.ttl_ms) h2') refl
            refl in
        let issued =
          issue_submission digest runtime t3 t3' secret' scope (report_of site_origin words)
            done.0 in
        let (c, found') =
          submission_issued t3 t3' secret' scope site_origin words done.0 bounded accepted in
        let until : t3' + done.0.ttl_ms ≡ t3' + m.ttl_ms = ap (λ x. t3' + x) (ttl' ∙ ttl) in
        let d =
          submission_found t4 t4' secret' scope issued.0 _ bounded found'
            (ap (λ x. leb x t4) until ∙ fresh_before t4 (t3' + m.ttl_ms) h4)
            (ap (λ x. leb x t4') until ∙ fresh_before t4' (t3' + m.ttl_ms) h4') refl in
        let e =
          submission_gone t5 t5' secret' other _
            (submission_taken t4 t4' secret' scope issued.0 bounded) in
        (a, b, c, d, e)
