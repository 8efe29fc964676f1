-- ===== src/Issues/Moderation/Replay.antt =====
-- issue-moderation.ts: an event that is replayed makes the transition that it records.
use webmcp_security_lab.Prelude.{
  ◌≡◌, ◌≢◌, refl, sym, ap, subst, ◌∙◌, Bool, true, false, Option, none, some, List, [], ◌∷◌, ◌++◌,
  all, arith, ◌==◌, if◌then◌else◌,
}
use webmcp_security_lab.Prelude.Result.{ok, ◌>>◌, refuse, guard_passed, >>=-eq-ok, ok-injective}
use webmcp_security_lab.Issues.Model.{
  ModerationState, state_eq, same_state, rank, same_state_iff, received, quarantined, under_review,
  needs_evidence, accepted_private, duplicate, rejected, published, not_publishable, broken_chain,
  premature_publication, Runtime,
}
use webmcp_security_lab.Issues.Draft.{IssueDraft}
use webmcp_security_lab.Issues.Publication.{
  PublicationGate, PublicRecord, is_public_web, is_present, project_public_record, candidate,
  optional_gate, project_state, project_published, publication_gate,
}
use webmcp_security_lab.Issues.Moderation.{
  IssueRecord, ModerationEvent, Transition, event_of, is_allowed, allowed_transitions,
  new_publication, moved, transition, exact_iso_time, replay, replay_input, candidate_of,
  check_site, hostname_of, same_bool, or_else,
}
use webmcp_security_lab.Issues.Moderation.Reached.{Moved, transition_of_Moved}

-- Whether a publication is there exactly in the state that has one.
abbrev pub is_marked : ModerationState → Option PublicationGate → Bool
is_marked state publication = same_bool (state == published) (is_present publication)

pub not_published_of_allowed :
    (from to : ModerationState) → is_allowed from to ≡ true → (from == published) ≡ false
unfolding is_allowed allowed_transitions same_state rank
not_published_of_allowed received to h = refl
not_published_of_allowed quarantined to h = refl
not_published_of_allowed under_review to h = refl
not_published_of_allowed needs_evidence to h = refl
not_published_of_allowed accepted_private to h = refl
not_published_of_allowed duplicate to h = refl
not_published_of_allowed rejected to h = refl
not_published_of_allowed published to h = absurd (cc)

pub all-snoc {ℓ} :
    {A : Type ℓ} (p : A → Bool) (xs : List A) (y : A)
    → all p xs ≡ true
    → p y ≡ true
    → all p (xs ++ y ∷ []) ≡ true
all-snoc p [] y h k = ground arith
all-snoc p (x ∷ xs) y h k = ground (arith, all-snoc p xs y)

-- A publication comes with the move to `published`, and with no other.
pub record Brought (to : ModerationState) (given p : Option PublicationGate) : Type 0 where
  pub marked : is_marked to p ≡ true
  pub unmarked : (to == published) ≡ false → p ≡ none
  pub as_given : given ≡ p

pub or_else-none : {A : Type 0} (o : Option A) → or_else o none ≡ o
or_else-none none = refl
or_else-none (some a) = refl

choose :
    {A : Type 0} (b : Bool) (x y : Option A)
    → (b ≡ true → x ≡ y)
    → (b ≡ false → y ≡ none)
    → (if b then x else none) ≡ y
choose true x y h k = h refl
choose false x y h k = sym (k refl)

none-Brought :
    (to : ModerationState) (given p : Option PublicationGate)
    → is_marked to none ≡ true
    → (refuse (is_present given) premature_publication >> ok none) ≡ ok p
    → Brought to given p
none-Brought to none p m h =
    subst (Brought to none) (ok-injective h)
      (record { marked = m; unmarked = λ e. refl; as_given = refl })
none-Brought to (some gate) p m h = absurd (cc)

module _ (runtime : Runtime) where
  project_needs_gate :
      (draft : IssueDraft) (x : Option PublicRecord)
      → project_public_record runtime (candidate_of draft published none) ≢ ok x
  unfolding project_public_record candidate optional_gate project_state project_published
      publication_gate
  project_needs_gate draft x h =
      let (y, e, h1) =
        >>=-eq-ok (project_published runtime (candidate_of draft published none)) _ h in
      let (_, h2) = guard_passed (is_public_web draft.input.context) not_publishable e in cc

  pub new_publication_lem :
      (to : ModerationState) (draft : IssueDraft) (given p : Option PublicationGate)
      → new_publication runtime to draft given ≡ ok p
      → Brought to given p
  unfolding new_publication same_state rank
  new_publication_lem published draft none p h =
      let (x, e, _) =
        >>=-eq-ok (project_public_record runtime (candidate_of draft published none)) _ h in
      absurd (project_needs_gate draft x e)
  new_publication_lem published draft (some gate) p h =
      let (x, _, h1) =
        >>=-eq-ok (project_public_record runtime (candidate_of draft published (some gate))) _ h in
      let (u, _, h2) = >>=-eq-ok (check_site runtime draft (hostname_of x)) _ h1 in
      subst (Brought published (some gate)) (ok-injective h2)
        (record { marked = refl; unmarked = λ e. cc; as_given = refl })
  new_publication_lem received draft given p h = none-Brought received given p refl h
  new_publication_lem quarantined draft given p h = none-Brought quarantined given p refl h
  new_publication_lem under_review draft given p h = none-Brought under_review given p refl h
  new_publication_lem needs_evidence draft given p h = none-Brought needs_evidence given p refl h
  new_publication_lem accepted_private draft given p h =
      none-Brought accepted_private given p refl h
  new_publication_lem duplicate draft given p h = none-Brought duplicate given p refl h
  new_publication_lem rejected draft given p h = none-Brought rejected given p refl h

  -- The event that a transition records makes the same transition when it is replayed.
  pub replay_one :
      (r s : IssueRecord) (given : Transition) (stored : Option PublicationGate)
      → r.publication ≡ none
      → (m : Moved runtime r given s) → ((given.to == published) ≡ true → stored ≡ s.publication)
      → replay runtime stored (event_of m.at r.state given.to ∷ []) r ≡ ok s
  unfolding replay replay_input exact_iso_time moved
  replay_one r s given stored empty m told =
      let same : (r.state == r.state) ≡ true = (same_state_iff r.state r.state).1 refl in
      let b = new_publication_lem given.to r.draft given.publication m.publication m.brought in
      let kept : s.publication ≡ m.publication =
        ap (λ x. x.publication) m.shape
        ∙ ap (or_else m.publication) empty
        ∙ or_else-none m.publication in
      let chosen =
        choose (given.to == published) stored given.publication
          (λ e. told e ∙ kept ∙ sym b.as_given) (λ e. b.as_given ∙ b.unmarked e) in
      let again =
        transition_of_Moved runtime r (replay_input stored (event_of m.at r.state given.to)) s
          (record {
            at = m.at;
            publication = m.publication;
            allowed = m.allowed;
            timed = refl;
            forward = m.forward;
            brought =
                subst (λ x. new_publication runtime given.to r.draft x ≡ ok m.publication)
                  (sym chosen) m.brought;
            shape = m.shape;
          }) in
      rw (same, again) refl

  pub replay-snoc :
      (stored : Option PublicationGate) (events : List ModerationEvent) (last : ModerationEvent)
      (b r s : IssueRecord)
      → replay runtime stored events b ≡ ok r
      → replay runtime stored (last ∷ []) r ≡ ok s
      → replay runtime stored (events ++ last ∷ []) b ≡ ok s
  unfolding replay
  replay-snoc stored [] last b r s h k =
      subst (λ x. replay runtime stored (last ∷ []) x ≡ ok s) (sym (ok-injective h)) k
  replay-snoc stored (e ∷ events) last b r s h k =
      let (same, h1) = guard_passed (e.from == b.state) broken_chain h in
      let (next, t, h2) = >>=-eq-ok (transition runtime b (replay_input stored e)) _ h1 in
      rw (same, t) (replay-snoc stored events last next r s h2 k)
