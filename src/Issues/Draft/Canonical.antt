-- ===== src/Issues/Draft/Canonical.antt =====
-- issue-draft.ts: a draft that is made has the fields of its input.
use webmcp_security_lab.Prelude.{
  ◌≡◌, ◌≢◌, refl, sym, ap, ◌∙◌, false, not, Option, none, some, String, ltb, arith, eq_iff, ◌==◌,
  string_eq, ◌||◌, Bool-cases, inl, inr, subst,
}
use webmcp_security_lab.Prelude.Result.{ok, refuse_passed, >>=-eq-ok, ok-injective}
use webmcp_security_lab.Prelude.Text.{units, trim}
use webmcp_security_lab.Prelude.Url.{Url}
use webmcp_security_lab.Issues.Model.{
  IssueContext, public_web, synthetic_lab, local_exercise, current_limitation, unbounded_origin,
  spaced_origin, impure_origin, nonpublic_origin, Runtime, address, has_char, is_non_public,
}
use webmcp_security_lab.Issues.Draft.{
  IssueDraftInput, IssueDraft, submission_disposition, read_url, check_origin, public_site_origin,
  draft_origin, create_draft, if_truthy,
}

-- What `create_draft` makes of an input that it accepts.
abbrev pub draft_of : IssueDraftInput → IssueDraft
draft_of given = record {
  input = given;
  submission = record { disposition = submission_disposition given.context; submittable = false };
  assurance_limitation = current_limitation;
}

empty_bounded : (ltb (units "") 1 || ltb 512 (units "")) ≢ false
unfolding units
empty_bounded h = cc

module _ (runtime : Runtime) where
  check_origin-eq :
      (value o : String) (parsed : Url) → check_origin runtime value parsed ≡ ok o → o ≡ value
  unfolding check_origin
  check_origin-eq value o parsed h =
      let hostname = runtime.to_lower parsed.hostname in
      let (pure_, h1) =
        refuse_passed
          (not (parsed.protocol == "https:")
            || not (parsed.username == "")
            || not (parsed.password == "")
            || not (parsed.port == "")
            || not (value == parsed.origin))
          impure_origin h in
      let (public, h2) =
        refuse_passed
          (hostname == "localhost"
            || runtime.is_ip (address hostname)
            || not (has_char b'.' hostname)
            || is_non_public hostname)
          nonpublic_origin h1 in
      let same : value ≡ parsed.origin = ground (arith, pure_, eq_iff value parsed.origin) in
      sym (ok-injective h2) ∙ sym same

  public_site_origin-eq :
      (given : Option String) (o : String)
      → public_site_origin runtime given ≡ ok o
      → (given ≡ some o) × (if_truthy given ≡ given)
  unfolding public_site_origin
  public_site_origin-eq none o h = absurd (cc)
  public_site_origin-eq (some value) o h =
      let (bounded, h1) =
        refuse_passed (ltb (units value) 1 || ltb 512 (units value)) unbounded_origin h in
      let (spaceless, h2) = refuse_passed (not (value == trim value)) spaced_origin h1 in
      let (parsed, e, h3) = >>=-eq-ok (read_url runtime value) _ h2 in
      (ap some (sym (check_origin-eq value o parsed h3)), truthy bounded)
    where
      truthy :
          (ltb (units value) 1 || ltb 512 (units value)) ≡ false
          → if_truthy (some value) ≡ some value
      truthy bounded = elim (Bool-cases (value == "")) [
        | inl e ↦ absurd (
            empty_bounded (
              subst (λ s. (ltb (units s) 1 || ltb 512 (units s)) ≡ false) ((eq_iff value "").0 e)
                bounded))
        | inr e ↦ rw e
      ]

  draft_origin-eq :
      (context : IssueContext) (given o : Option String)
      → draft_origin runtime context given ≡ ok o
      → (given ≡ o) × (if_truthy given ≡ given)
  unfolding draft_origin
  draft_origin-eq public_web given o h =
      let (origin, e, h1) = >>=-eq-ok (public_site_origin runtime given) _ h in
      let (same, truthy) = public_site_origin-eq given origin e in (same ∙ ok-injective h1, truthy)
  draft_origin-eq synthetic_lab none o h = (ok-injective h, refl)
  draft_origin-eq local_exercise none o h = (ok-injective h, refl)
  draft_origin-eq synthetic_lab (some g) o h = absurd (cc)
  draft_origin-eq local_exercise (some g) o h = absurd (cc)

  pub create_draft-eq :
      (given : IssueDraftInput) (d : IssueDraft)
      → create_draft runtime given ≡ ok d
      → (d ≡ draft_of given) × (if_truthy given.site_origin ≡ given.site_origin)
  unfolding create_draft
  create_draft-eq given d h =
      let (o, e, h1) = >>=-eq-ok (draft_origin runtime given.context given.site_origin) _ h in
      let (same, truthy) = draft_origin-eq given.context given.site_origin o e in
      (
        sym (ok-injective h1) ∙ ap (λ x. draft_of (record given { site_origin = x })) (sym same),
        truthy,
      )

  -- The site of a draft is judged apart from its words.
  pub create_draft_like :
      (given other : IssueDraftInput) (d : IssueDraft)
      → create_draft runtime given ≡ ok d
      → other.context ≡ given.context
      → other.site_origin ≡ given.site_origin
      → create_draft runtime other ≡ ok (draft_of other)
  unfolding create_draft
  create_draft_like given other d h context origin =
      let (o, e, _) = >>=-eq-ok (draft_origin runtime given.context given.site_origin) _ h in
      let (same, _) = draft_origin-eq given.context given.site_origin o e in
      let accepted : draft_origin runtime other.context other.site_origin ≡ ok other.site_origin =
        ap (λ c. draft_origin runtime c other.site_origin) context
        ∙ ap (draft_origin runtime given.context) origin
        ∙ e
        ∙ ap ok (sym same ∙ sym origin) in
      rw accepted refl
