-- ===== src/Capability/Bindings/Observed.antt =====
-- An observation made from the live tool, checked against what was approved.
use webmcp_security_lab.Prelude.{ℕ, ◌≡◌, refl, ap, subst, sym, ◌∙◌, Option, none, some, String}
use webmcp_security_lab.Prelude.Result.{Result, ok, >>=-eq-ok, ok-injective}
use webmcp_security_lab.Capability.Bindings.{
  Moment, Expectations, Observation, bound, hash_optional, check_capability_bindings,
  observe_capability_bindings,
}
use webmcp_security_lab.Capability.Bindings.Drift.{Agrees, Binds, check_iff}

module _ {V E : Type 0} (hash : V → Result E String) where
  -- What was approved: the hashes of a source, of its schema and of its baseline.
  pub record Approved (source schema : V) (baseline : Option V) (expected : Expectations)
      : Type 0 where
    pub source_hashed : hash source ≡ ok expected.source_hash
    pub schema_hashed : (h : String) × (expected.schema_hash ≡ some h) × (hash schema ≡ ok h)
    pub baseline_hashed : hash_optional hash baseline ≡ ok expected.baseline_hash

  observe_lem :
      (source schema : V) (handler origin : String) (baseline : Option V) (calls : ℕ) (now : Moment)
      (o : Observation)
      → observe_capability_bindings hash source schema handler origin baseline calls now ≡ ok o
      → (hash source ≡ ok o.source_hash)
        × ((h : String) × (o.schema_hash ≡ some h) × (hash schema ≡ ok h))
        × (hash_optional hash baseline ≡ ok o.baseline_hash)
  unfolding observe_capability_bindings
  observe_lem source schema handler origin baseline calls now o h =
      let (s, hs, rest) = >>=-eq-ok (hash source) _ h in
      let (k, hk, rest') = >>=-eq-ok (hash schema) _ rest in
      let (b, hb, same) = >>=-eq-ok (hash_optional hash baseline) _ rest' in
      let e = ok-injective same in
      (
        hs ∙ ap (λ (r : Observation). ok r.source_hash) e,
        (k, sym (ap (λ (r : Observation). r.schema_hash) e), hk),
        hb ∙ ap (λ (r : Observation). ok r.baseline_hash) e,
      )

  hash_optional-some :
      (x : Option V) (d : String)
      → hash_optional hash x ≡ ok (some d)
      → (v : V) × (x ≡ some v) × (hash v ≡ ok d)
  hash_optional-some none d h = absurd (cc)
  hash_optional-some (some v) d h =
      let (d', hashed, same) = >>=-eq-ok (hash v) _ h in
      let e : d' ≡ d = cc in (v, refl, hashed ∙ ap ok e)

  hash_optional_of_some :
      (v : V) (x : Option String)
      → hash_optional hash (some v) ≡ ok x
      → (d : String) × (hash v ≡ ok d) × (x ≡ some d)
  hash_optional_of_some v x h =
      let (d, hashed, same) = >>=-eq-ok (hash v) _ h in (d, hashed, sym (ok-injective same))

  module _ (distinct : (v w : V) (h : String) → hash v ≡ ok h → hash w ≡ ok h → v ≡ w) where
    -- With a hash that tells values apart, a live tool that passes the check has the source and the
    -- schema that were approved, and the same baseline if one was approved.
    pub observed_is_Approved :
        (source schema live_source live_schema : V) (baseline live_baseline : Option V)
        (expected : Expectations) (handler origin : String) (calls : ℕ) (now : Moment)
        (o : Observation)
        → Approved source schema baseline expected
        → observe_capability_bindings hash live_source live_schema handler origin live_baseline
            calls now
          ≡ ok o
        → check_capability_bindings expected o ≡ bound
        → (live_source ≡ source)
          × (live_schema ≡ schema)
          × ((b : V) → baseline ≡ some b → live_baseline ≡ some b)
    observed_is_Approved source schema live_source live_schema baseline live_baseline expected
          handler origin calls now o approved observed passed =
        let b = (check_iff expected o).0 passed in
        let (hs, (k, ek, hk), hb) =
          observe_lem live_source live_schema handler origin live_baseline calls now o observed in
        let (h, eh, hh) = approved.schema_hashed in
        let seen = subst (λ x. Agrees x o.schema_hash) eh b.same_schema in
        let same : k ≡ h = cc in
        (
          distinct live_source source _ (hs ∙ ap ok b.same_source) approved.source_hashed,
          distinct live_schema schema _ (hk ∙ ap ok same) hh,
          baselines b hb,
        )
      where
        baselines :
            Binds expected o
            → hash_optional hash live_baseline ≡ ok o.baseline_hash
            → (b : V) → baseline ≡ some b
            → live_baseline ≡ some b
        baselines binds hb b e =
            let approved_hash =
              subst (λ x. hash_optional hash x ≡ ok expected.baseline_hash) e
                approved.baseline_hashed in
            let (d, hashed, known) = hash_optional_of_some b _ approved_hash in
            let seen = subst (λ x. Agrees x o.baseline_hash) known binds.same_baseline in
            let (v, live, hv) = hash_optional-some live_baseline d (hb ∙ ap ok seen) in
            live ∙ ap some (distinct v b d hv hashed)
