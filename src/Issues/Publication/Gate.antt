-- ===== src/Issues/Publication/Gate.antt =====
-- issue-publication.ts: what passes the gate of a publication, and what is made public of it.
use webmcp_security_lab.Prelude.{
  ◌≡◌, refl, sym, ap, ◌∙◌, true, false, not, ◌||◌, Option, none, some, String, ltb, ◌⊎◌, inl, inr,
  arith, ◌==◌, string_eq, eq_iff, subst,
}
use Prim.Native.String.{◌++◌}
use webmcp_security_lab.Prelude.Result.{ok, guard_passed, refuse_passed, >>=-eq-ok, ok-injective}
use webmcp_security_lab.Prelude.Text.{units, trim}
use webmcp_security_lab.Prelude.Url.{Url}
use webmcp_security_lab.Issues.Model.{
  ModerationState, received, quarantined, under_review, needs_evidence, accepted_private, duplicate,
  rejected, published, state_eq, same_state, rank, HostnameVisibility, HostnameConsent, withheld,
  named, not_granted, explicit, withheld_with_hostname, withheld_with_consent, consent_required,
  evidence_required, unnormalized_hostname, nonpublic_hostname, not_publishable, Runtime, address,
  has_char, is_non_public,
}
use webmcp_security_lab.Issues.Publication.{
  PublicationGate, ModeratedCandidate, PublicRecord, is_granted, has_evidence, is_present,
  is_dns_name, is_public_web, projection, read_host, check_hostname, public_hostname, gate_for,
  publication_gate, optional_gate, candidate, project_published, project_state,
  project_public_record,
}

granted-eq : (consent : HostnameConsent) → is_granted consent ≡ true → consent ≡ explicit
granted-eq not_granted h = absurd (ground arith)
granted-eq explicit h = refl

not_granted-eq : (consent : HostnameConsent) → is_granted consent ≡ false → consent ≡ not_granted
not_granted-eq not_granted h = refl
not_granted-eq explicit h = absurd (ground arith)

absent-eq : (o : Option String) → is_present o ≡ false → o ≡ none
absent-eq none h = refl
absent-eq (some s) h = absurd (ground arith)

module _ (runtime : Runtime) where
  -- What a gate lets a reader see: no hostname, or one that was agreed to and is supported.
  pub record Named (gate : PublicationGate) (hostname : String) : Type 0 where
    pub visible : gate.hostname_visibility ≡ named
    pub agreed : gate.hostname_consent ≡ explicit
    pub supported : has_evidence gate.evidence_basis ≡ true
    pub shown : gate.hostname ≡ some hostname
    pub public : public_hostname runtime (some hostname) ≡ ok hostname

  pub record Withheld (gate : PublicationGate) : Type 0 where
    pub hidden : gate.hostname_visibility ≡ withheld
    pub not_agreed : gate.hostname_consent ≡ not_granted
    pub absent : gate.hostname ≡ none

  abbrev pub PassesGate : PublicationGate → Type 0
  PassesGate gate = Withheld gate ⊎ ((hostname : String) × Named gate hostname)

  check_hostname-eq :
      (value h : String) (parsed : Url) → check_hostname runtime value parsed ≡ ok h → h ≡ value
  unfolding check_hostname
  check_hostname-eq value h parsed e =
      let hostname = runtime.to_lower parsed.hostname in
      let (tests_, e1) =
        refuse_passed
          (not (hostname == value)
            || not (parsed.origin == "https://" ++ value)
            || runtime.is_ip (address hostname)
            || not (has_char b'.' hostname)
            || not (is_dns_name hostname)
            || is_non_public hostname)
          nonpublic_hostname e in
      let same : hostname ≡ value = ground (arith, tests_, eq_iff hostname value) in
      sym (ok-injective e1) ∙ same

  hostname_given :
      (given : Option String) (h : String) → public_hostname runtime given ≡ ok h → given ≡ some h
  unfolding public_hostname
  hostname_given none h e = absurd (cc)
  hostname_given (some value) h e =
      let (_, e1) =
        refuse_passed
          (ltb (units value) 3
            || ltb 253 (units value)
            || not (value == trim value)
            || not (value == runtime.to_lower value))
          unnormalized_hostname e in
      let (parsed, _, e2) = >>=-eq-ok (read_host runtime value) _ e1 in
      ap some (sym (check_hostname-eq value h parsed e2))

  public_hostname-eq :
      (given : Option String) (h : String)
      → public_hostname runtime given ≡ ok h
      → (given ≡ some h) × (public_hostname runtime (some h) ≡ ok h)
  public_hostname-eq given h e =
      let same = hostname_given given h e in
      (same, subst (λ g. public_hostname runtime g ≡ ok h) same e)

  gate_for-lem :
      (v : HostnameVisibility) (gate g : PublicationGate)
      → gate.hostname_visibility ≡ v
      → gate_for runtime v gate ≡ ok g
      → (g ≡ gate) × PassesGate gate
  unfolding gate_for
  gate_for-lem withheld gate g seen h =
      let (a, h1) = refuse_passed (is_present gate.hostname) withheld_with_hostname h in
      let (b, h2) = refuse_passed (is_granted gate.hostname_consent) withheld_with_consent h1 in
      let absent = absent-eq gate.hostname a in
      let back = sym absent in
      (
        sym (ok-injective h2) ∙ (λ i. record gate { hostname = back i }),
        inl (record {
          hidden = seen;
          not_agreed = not_granted-eq gate.hostname_consent b;
          absent = absent;
        }),
      )
  gate_for-lem named gate g seen h =
      let (a, h1) = guard_passed (is_granted gate.hostname_consent) consent_required h in
      let (b, h2) = guard_passed (has_evidence gate.evidence_basis) evidence_required h1 in
      let (hostname, e, h3) = >>=-eq-ok (public_hostname runtime gate.hostname) _ h2 in
      let (same, public) = public_hostname-eq gate.hostname hostname e in
      let back = sym same in
      (
        sym (ok-injective h3) ∙ (λ i. record gate { hostname = back i }),
        inr (
          hostname,
          record {
            visible = seen;
            agreed = granted-eq gate.hostname_consent a;
            supported = b;
            shown = same;
            public = public;
          },
        ),
      )

  -- A gate that passes is returned as it was.
  pub publication_gate_lem :
      (gate g : PublicationGate)
      → publication_gate runtime (some gate) ≡ ok g
      → (g ≡ gate) × PassesGate gate
  unfolding publication_gate
  publication_gate_lem gate g h = gate_for-lem gate.hostname_visibility gate g refl h

  state_unpublished :
      (s : ModerationState) (m : ModeratedCandidate)
      → (s == published) ≡ false
      → project_state runtime s m ≡ ok none
  unfolding project_state same_state rank
  state_unpublished received m h = refl
  state_unpublished quarantined m h = refl
  state_unpublished under_review m h = refl
  state_unpublished needs_evidence m h = refl
  state_unpublished accepted_private m h = refl
  state_unpublished duplicate m h = refl
  state_unpublished rejected m h = refl
  state_unpublished published m h = absurd (cc)

  -- A candidate in any state but the public one makes nothing public.
  pub project_unpublished :
      (c : ModeratedCandidate)
      → c.publication ≡ none
      → (c.moderation_state == published) ≡ false
      → project_public_record runtime c ≡ ok none
  unfolding project_public_record candidate optional_gate
  project_unpublished c empty h = rw empty (state_unpublished c.moderation_state _ h)

  pub record Projected (c : ModeratedCandidate) (gate : PublicationGate) (x : Option PublicRecord)
      : Type 0 where
    pub passes : PassesGate gate
    pub public_web_so : is_public_web c.context ≡ true
    pub view : x ≡ some (projection c gate)

  pub project_lem :
      (c : ModeratedCandidate) (gate : PublicationGate) (x : Option PublicRecord)
      → project_public_record runtime
          (record c { moderation_state = published; publication = some gate })
        ≡ ok x
      → Projected c gate x
  unfolding project_public_record candidate optional_gate project_state project_published projection
  project_lem c gate x h =
      let m = record c { moderation_state = published; publication = some gate } in
      let (m', e, h1) = >>=-eq-ok (candidate runtime m) _ h in
      let (o, e1, e2) = >>=-eq-ok (optional_gate runtime (some gate)) _ e in
      let (g, e3, e4) = >>=-eq-ok (publication_gate runtime (some gate)) _ e1 in
      let (same, passes) = publication_gate_lem gate g e3 in
      let kept : m' ≡ m =
        sym (ok-injective e2)
        ∙ ap (λ y. record m { publication = y }) (sym (ok-injective e4) ∙ ap some same) in
      let h2 = subst (λ y. project_state runtime y.moderation_state y ≡ ok x) kept h1 in
      let (pr, f, f1) = >>=-eq-ok (project_published runtime m) _ h2 in
      let (open_web, f2) = guard_passed (is_public_web c.context) not_publishable f in
      let (g2, f3, f4) = >>=-eq-ok (publication_gate runtime (some gate)) _ f2 in
      let (same2, _) = publication_gate_lem gate g2 f3 in
      record {
        passes = passes;
        public_web_so = open_web;
        view = sym (ok-injective f1) ∙ ap some (sym (ok-injective f4) ∙ ap (projection m) same2);
      }
