-- ===== src/Issues/Moderation/Rebuilt.antt =====
-- issue-moderation.ts: the replay of the history of a record that is reached makes it again.
use webmcp_security_lab.Prelude.{
  ℕ, ◌≡◌, refl, sym, ap, subst, ◌∙◌, String, true, false, Option, none, some, List, [], ◌∷◌, ◌++◌,
  all, arith, ◌==◌,
}
use webmcp_security_lab.Prelude.Result.{ok}
use webmcp_security_lab.Prelude.Dates.{to_iso, is_exact}
use webmcp_security_lab.Prelude.Text.{is_uuid}
use webmcp_security_lab.Issues.Model.{
  ModerationState, state_eq, same_state, rank, received, quarantined, published, Runtime,
}
use webmcp_security_lab.Issues.Draft.{IssueDraftInput, create_draft}
use webmcp_security_lab.Issues.Draft.Canonical.{draft_of}
use webmcp_security_lab.Issues.Publication.{PublicationGate, is_public_web}
use webmcp_security_lab.Issues.Moderation.{
  IssueRecord, ModerationEvent, Transition, event_of, moved, replay, or_else,
}
use webmcp_security_lab.Issues.Moderation.Reached.{
  Reached, taken_in, transitioned, Taken, create_record_lem, Moved, transition_lem, intake_of,
}
use webmcp_security_lab.Issues.Moderation.Replay.{
  is_marked, not_published_of_allowed, all-snoc, or_else-none, Brought, new_publication_lem,
  replay_one, replay-snoc,
}

module _ (runtime : Runtime) where
  -- What a record that is reached consists of: its intake, and a history that makes it again.
  pub record Replayable (r : IssueRecord) : Type 0 where
    pub now : ℕ
    pub given : IssueDraftInput
    pub last : ℕ
    pub events : List ModerationEvent
    pub drafted : create_draft runtime given ≡ ok (draft_of given)
    pub public : is_public_web given.context ≡ true
    pub named : is_uuid r.id ≡ true
    pub received_so : r.received_at ≡ to_iso now
    pub draft_so : r.draft ≡ draft_of given
    pub updated_so : r.updated_at ≡ to_iso last
    pub history_so : r.history ≡ event_of now received quarantined ∷ events
    pub timed : all (λ e. is_exact e.at) r.history ≡ true
    pub marked : is_marked r.state r.publication ≡ true
    pub replays :
        (stored : Option PublicationGate)
        → ((r.state == published) ≡ true → stored ≡ r.publication)
        → replay runtime stored events (intake_of r.id now given) ≡ ok r

  pub none_of_marked :
      (state : ModerationState) (p : Option PublicationGate)
      → (state == published) ≡ false
      → is_marked state p ≡ true
      → p ≡ none
  none_of_marked state none h k = refl
  none_of_marked state (some gate) h k = ground (arith, h, k)

  marked_after :
      (from to : ModerationState) (given p old : Option PublicationGate)
      → Brought to given p
      → old ≡ none
      → is_marked to (or_else p old) ≡ true
  marked_after from to given p old b empty =
      subst (λ x. is_marked to x ≡ true) (sym (ap (or_else p) empty ∙ or_else-none p)) b.marked

  transition-Replayable :
      (r s : IssueRecord) (given : Transition)
      → Replayable r
      → Moved runtime r given s
      → Replayable s
  unfolding moved
  transition-Replayable r s given h m =
      let b =
        new_publication_lem runtime given.to r.draft given.publication m.publication m.brought in
      let still = not_published_of_allowed r.state given.to m.allowed in
      let empty = none_of_marked r.state r.publication still h.marked in
      let t = moved r m.at given.to m.publication in
      subst Replayable (sym m.shape) (record {
        now = h.now;
        given = h.given;
        last = m.at;
        events = h.events ++ event_of m.at r.state given.to ∷ [];
        drafted = h.drafted;
        public = h.public;
        named = h.named;
        received_so = h.received_so;
        draft_so = h.draft_so;
        updated_so = refl;
        history_so = ap (λ es. es ++ event_of m.at r.state given.to ∷ []) h.history_so;
        timed = all-snoc _ r.history _ h.timed refl;
        marked =
            marked_after r.state given.to given.publication m.publication r.publication b empty;
        replays = λ stored told.
            replay-snoc runtime stored h.events (event_of m.at r.state given.to)
              (intake_of r.id h.now h.given) r t (h.replays stored (λ e. absurd (cc)))
              (replay_one runtime r s given stored empty m
                  (λ e. told e ∙ ap (λ x. x.publication) (sym m.shape))
                ∙ ap ok m.shape);
      })

  Taken-Replayable :
      (id : String) (now : ℕ) (given : IssueDraftInput) (r : IssueRecord)
      → Taken runtime id now given r
      → Replayable (intake_of id now given)
  unfolding replay same_state rank
  Taken-Replayable id now given r t = record {
    now = now;
    given = given;
    last = now;
    events = [];
    drafted = t.drafted;
    public = t.public;
    named = t.named;
    received_so = refl;
    draft_so = refl;
    updated_so = refl;
    history_so = refl;
    timed = refl;
    marked = refl;
    replays = λ stored told. refl;
  }

  pub Reached-Replayable : (r : IssueRecord) → Reached runtime r → Replayable r
  Reached-Replayable r (taken_in id now given e) =
      let t = create_record_lem runtime id now given r e in
      subst Replayable (sym t.shape) (Taken-Replayable id now given r t)
  Reached-Replayable s (transitioned given {r} h e) =
      transition-Replayable r s given (Reached-Replayable r h) (transition_lem runtime r given s e)
