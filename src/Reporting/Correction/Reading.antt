-- ===== src/Reporting/Correction/Reading.antt =====
-- correction-core.ts: which stored corrections are read.
use webmcp_security_lab.Prelude.{
  ℕ, ◌≡◌, ◌↔◌, refl, sym, ap, ◌∙◌, true, String, eq_iff, eq_refl, ◌==◌, string_eq,
}
use webmcp_security_lab.Prelude.Result.{Result, ok, guard_passed, >>=-eq-ok, ok-injective}
use webmcp_security_lab.Prelude.Dates.{DateText, exact, other, invalid, is_exact}
use webmcp_security_lab.Prelude.Text.{is_uuid, is_sha256}
use webmcp_security_lab.Reporting.Correction.{
  CorrectionBody, CorrectionError, PublicCorrection, bad_id, bad_time, bad_digest, bad_correction,
  bad_hash, make_correction, create_correction, parse_correction,
}

module _ (hash : CorrectionBody → String) where
  -- A correction with UUIDs, an exact time and two digests of the form of SHA-256, of which one is its
  -- own hash.
  pub record IsCorrection (c : PublicCorrection) : Type 0 where
    pub own_id : is_uuid c.body.correction_id ≡ true
    pub report_id : is_uuid c.body.public_id ≡ true
    pub at : ℕ
    pub timed : c.body.corrected_at ≡ exact at
    pub digest_shaped : is_sha256 c.body.publication_record_sha256 ≡ true
    pub hash_shaped : is_sha256 c.correction_sha256 ≡ true
    pub hashed : c.correction_sha256 ≡ hash c.body

  is_exact-eq : (d : DateText) → is_exact d ≡ true → (t : ℕ) × (d ≡ exact t)
  is_exact-eq (exact t) h = (t, refl)
  is_exact-eq (other s t) h = absurd (cc)
  is_exact-eq (invalid s) h = absurd (cc)

  abbrev pub created_of : PublicCorrection → Result CorrectionError PublicCorrection
  created_of c =
      create_correction hash c.body.correction_id c.body.public_id c.body.corrected_at c.body.action
        c.body.reason c.body.publication_record_sha256

  made :
      (c m : PublicCorrection)
      → is_sha256 c.correction_sha256 ≡ true
      → make_correction hash c.body ≡ ok m
      → m.correction_sha256 ≡ c.correction_sha256
      → (m ≡ c) × IsCorrection c
  unfolding make_correction
  made c m shaped h hashes =
      let (a, h1) = guard_passed (is_uuid c.body.correction_id) bad_id h in
      let (b, h2) = guard_passed (is_uuid c.body.public_id) bad_id h1 in
      let (e, h3) = guard_passed (is_exact c.body.corrected_at) bad_time h2 in
      let (d, h4) = guard_passed (is_sha256 c.body.publication_record_sha256) bad_digest h3 in
      let (t, timed) = is_exact-eq c.body.corrected_at e in
      let own : hash c.body ≡ c.correction_sha256 =
        ap (λ (x : PublicCorrection). x.correction_sha256) (ok-injective h4) ∙ hashes in
      (
        sym (ok-injective h4) ∙ ap (λ s. record { body = c.body; correction_sha256 = s }) own,
        record {
          own_id = a;
          report_id = b;
          at = t;
          timed = timed;
          digest_shaped = d;
          hash_shaped = shaped;
          hashed = sym own;
        },
      )

  make_correction-IsCorrection :
      (c : PublicCorrection) → IsCorrection c → make_correction hash c.body ≡ ok c
  unfolding make_correction
  make_correction-IsCorrection c k =
      rw (k.own_id, k.report_id, ap is_exact k.timed, k.digest_shaped)
        (λ i. ok (record { body = c.body; correction_sha256 = sym k.hashed i }))

  -- A stored correction is read, as it is, exactly when its two identities are UUIDs, its time is an
  -- exact instant, the digest of the publication has the form of SHA-256, and its hash has this form
  -- and is the hash of the rest of it. These are also exactly the corrections that creating makes of
  -- their parts with a hash of this form.
  pub parse_correction_iff :
      (c d : PublicCorrection)
      → ((parse_correction hash c ≡ ok d) ↔ ((d ≡ c) × IsCorrection c))
        × (((created_of c ≡ ok c) × (is_sha256 c.correction_sha256 ≡ true)) ↔ IsCorrection c)
  unfolding parse_correction create_correction
  parse_correction_iff c d = (
    (
      (λ h.
          let (shaped, h1) = guard_passed (is_sha256 c.correction_sha256) bad_correction h in
          let (m, e, h2) = >>=-eq-ok (make_correction hash c.body) _ h1 in
          let (matches, last) =
            guard_passed (m.correction_sha256 == c.correction_sha256) bad_hash h2 in
          let (same, k) =
            made c m shaped e ((eq_iff m.correction_sha256 c.correction_sha256).0 matches) in
          (sym (ok-injective last) ∙ same, k)),
      (λ (same, k).
          rw (k.hash_shaped, make_correction-IsCorrection c k, eq_refl c.correction_sha256)
            (ap ok (sym same))),
    ),
    (
      (λ (h, shaped). (made c c shaped h refl).1),
      (λ k. (make_correction-IsCorrection c k, k.hash_shaped)),
    ),
  )
