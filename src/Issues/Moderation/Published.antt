-- ===== src/Issues/Moderation/Published.antt =====
-- issue-moderation.ts: what the records that are published have passed, and the public feed.
use webmcp_security_lab.Prelude.{
  ℕ, ◌≡◌, ◌≢◌, refl, sym, ap, subst, ◌∙◌, Bool, true, false, not, Option, none, some, List, [], ◌∷◌,
  ◌++◌, String, inl, inr, ◌==◌, string_eq, Bool-cases, if◌then◌else◌, eq_iff,
}
use webmcp_security_lab.Prelude.Url.{Url}
use webmcp_security_lab.Prelude.Text.{units}
use webmcp_security_lab.Prelude.Result.{Result, ok, err, ◌>>=◌, refuse, >>=-eq-ok, ok-injective}
use webmcp_security_lab.Issues.Model.{
  ModerationState, received, quarantined, under_review, needs_evidence, duplicate, rejected,
  accepted_private, published, state_eq, same_state, rank, same_state_iff, hostname_mismatch,
  bad_site_url, IssueError, Runtime,
}
use webmcp_security_lab.Issues.Draft.{IssueDraft, or_empty}
use webmcp_security_lab.Issues.Publication.{
  PublicationGate, projection, project_public_record, is_present, public_hostname,
}
use webmcp_security_lab.Issues.Publication.Gate.{Named, PassesGate, project_lem}
use webmcp_security_lab.Issues.Moderation.{
  IssueRecord, ModerationEvent, Transition, candidate_of, event_of, is_allowed, allowed_transitions,
  new_publication, check_site, site_url, hostname_of, or_else, same_bool, moved,
}
use webmcp_security_lab.Issues.Moderation.Reached.{
  Reached, taken_in, transitioned, Moved, transition_lem, create_record_lem,
}
use webmcp_security_lab.Issues.Moderation.Replay.{new_publication_lem, not_published_of_allowed}
use webmcp_security_lab.Issues.Moderation.Rebuilt.{Reached-Replayable, none_of_marked}

accepted_of_allowed :
    (from : ModerationState) → is_allowed from published ≡ true → from ≡ accepted_private
unfolding is_allowed allowed_transitions same_state rank
accepted_of_allowed accepted_private h = refl
accepted_of_allowed received h = absurd (cc)
accepted_of_allowed quarantined h = absurd (cc)
accepted_of_allowed under_review h = absurd (cc)
accepted_of_allowed needs_evidence h = absurd (cc)
accepted_of_allowed duplicate h = absurd (cc)
accepted_of_allowed rejected h = absurd (cc)
accepted_of_allowed published h = absurd (cc)

url_found :
    (o : Option Url) (url : Url)
    → ◌≡◌ {A = Result IssueError Url} (elim o [ none ↦ err bad_site_url | some u ↦ ok u ]) (ok url)
    → o ≡ some url
url_found none url h = absurd (cc)
url_found (some u) url h = ap some (ok-injective h)

matched : (b : Bool) (done : Unit {0}) → refuse (not b) hostname_mismatch ≡ ok done → b ≡ true
matched true done h = refl
matched false done h = absurd (cc)

unmarked : (p : Option PublicationGate) → none ≡ p → same_bool true (is_present p) ≢ true
unmarked none h k = cc
unmarked (some gate) h k = cc

not_quarantined : (quarantined == published) ≢ true
unfolding same_state rank
not_quarantined h = cc

module _ (runtime : Runtime) where
  abbrev pub IsSite : Option String → String → Type 0
  IsSite origin hostname =
      (url : Url) × (runtime.parse_url (or_empty origin) ≡ some url) × (url.hostname ≡ hostname)

  empty_refused : public_hostname runtime (some "") ≢ ok ""
  unfolding public_hostname units
  empty_refused h = cc

  hostname_nonempty : (h : String) → public_hostname runtime (some h) ≡ ok h → (h == "") ≡ false
  hostname_nonempty h e = elim (Bool-cases (h == "")) [
    | inl is ↦ absurd (
        empty_refused (subst (λ s. public_hostname runtime (some s) ≡ ok s) ((eq_iff h "").0 is) e))
    | inr other ↦ other
  ]

  site_url_lem :
      (draft : IssueDraft) (url : Url)
      → site_url runtime draft ≡ ok url
      → runtime.parse_url (or_empty draft.input.site_origin) ≡ some url
  unfolding site_url
  site_url_lem draft url h = url_found (runtime.parse_url (or_empty draft.input.site_origin)) url h

  check_site_lem :
      (draft : IssueDraft) (hostname : String)
      → (hostname == "") ≡ false
      → (done : Unit {0}) → check_site runtime draft (some hostname) ≡ ok done
      → IsSite draft.input.site_origin hostname
  unfolding check_site
  check_site_lem draft hostname nonempty done h =
      let (url, e, h1) =
        >>=-eq-ok (site_url runtime draft)
          (λ u. refuse (not (u.hostname == hostname)) hostname_mismatch)
          (subst
            (λ b.
              (if b
                then ok tt
                else (site_url runtime draft >>= λ u.
                    refuse (not (u.hostname == hostname)) hostname_mismatch))
              ≡ ok done)
            nonempty h) in
      (
        url,
        site_url_lem draft url e,
        (eq_iff url.hostname hostname).0 (matched (url.hostname == hostname) done h1),
      )

  -- A published record: its gate passes, a hostname that it names is the one of the reviewed site,
  -- and its last event made an accepted report public.
  pub record Vetted (r : IssueRecord) : Type 0 where
    pub gate : PublicationGate
    pub at : ℕ
    pub before : List ModerationEvent
    pub kept : r.publication ≡ some gate
    pub passes : PassesGate runtime gate
    pub of_site :
        (hostname : String)
        → Named runtime gate hostname
        → IsSite r.draft.input.site_origin hostname
    pub reviewed : r.history ≡ before ++ event_of at accepted_private published ∷ []
    pub projected :
        project_public_record runtime (candidate_of r.draft published (some gate))
        ≡ ok (some (projection (candidate_of r.draft published (some gate)) gate))

  publish_lem :
      (r s : IssueRecord) (at : ℕ) (gate : PublicationGate) (p : Option PublicationGate)
      → new_publication runtime published r.draft (some gate) ≡ ok p
      → r.state ≡ accepted_private
      → r.publication ≡ none
      → s ≡ moved r at published p
      → Vetted s
  unfolding new_publication moved projection
  publish_lem r s at gate p h from empty shape =
      let c = candidate_of r.draft published (some gate) in
      let (x, e, h1) = >>=-eq-ok (project_public_record runtime c) _ h in
      let (done, e2, h2) = >>=-eq-ok (check_site runtime r.draft (hostname_of x)) _ h1 in
      let v = project_lem runtime c gate x e in
      subst Vetted (sym shape) (record {
        gate = gate;
        at = at;
        before = r.history;
        kept = ap (λ y. or_else y r.publication) (sym (ok-injective h2));
        passes = v.passes;
        of_site = λ hostname n.
            check_site_lem r.draft hostname (hostname_nonempty hostname n.public) done (
              subst (λ y. check_site runtime r.draft y ≡ ok done) (ap hostname_of v.view ∙ n.shown)
                e2);
        reviewed = ap (λ y. r.history ++ event_of at y published ∷ []) from;
        projected = e ∙ ap ok v.view;
      })

  publication_given :
      (to : ModerationState) (draft : IssueDraft) (given p : Option PublicationGate)
      → (to == published) ≡ true
      → new_publication runtime to draft given ≡ ok p
      → (gate : PublicationGate) × (new_publication runtime published draft (some gate) ≡ ok p)
  publication_given to draft none p now h =
      let b = new_publication_lem runtime to draft none p h in
      absurd (unmarked p b.as_given (subst (λ x. same_bool x (is_present p) ≡ true) now b.marked))
  publication_given to draft (some gate) p now h = (
    gate,
    subst (λ x. new_publication runtime x draft (some gate) ≡ ok p)
        ((same_state_iff to published).0 now) h,
  )

  published_by :
      (r s : IssueRecord) (given : Transition)
      → Reached runtime r
      → Moved runtime r given s
      → (s.state == published) ≡ true
      → Vetted s
  unfolding moved
  published_by r s given h m now =
      let to_so : (given.to == published) ≡ true =
        ap (λ x. x.state == published) (sym m.shape) ∙ now in
      let is = (same_state_iff given.to published).0 to_so in
      let (gate, e) =
        publication_given given.to r.draft given.publication m.publication to_so m.brought in
      let empty =
        none_of_marked runtime r.state r.publication
          (not_published_of_allowed r.state given.to m.allowed)
          (Reached-Replayable runtime r h).marked in
      publish_lem r s m.at gate m.publication e
        (accepted_of_allowed r.state (subst (λ x. is_allowed r.state x ≡ true) is m.allowed)) empty
        (m.shape ∙ ap (λ x. moved r m.at x m.publication) is)

  -- A published record, however it was reached, was accepted by a review before, and its gate passes:
  -- either it shows no hostname, or one whose publication was explicitly agreed to, that evidence
  -- supports, and that is the hostname of the site that was reported.
  pub published-Vetted :
      (r : IssueRecord) → Reached runtime r → (r.state == published) ≡ true → Vetted r
  unfolding same_state rank
  published-Vetted r (taken_in id now given e) is =
      let t = create_record_lem runtime id now given r e in
      absurd (not_quarantined (ap (λ x. x.state == published) (sym t.shape) ∙ is))
  published-Vetted s (transitioned given {r} h e) is =
      published_by r s given h (transition_lem runtime r given s e) is
