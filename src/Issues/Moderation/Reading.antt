-- ===== src/Issues/Moderation/Reading.antt =====
-- issue-moderation.ts: which stored records are read.
use webmcp_security_lab.Prelude.{
  ℕ, ◌≤◌, ◌≡◌, ◌↔◌, refl, sym, ap, subst, ◌∙◌, true, List, [], ◌∷◌, ltb, leb, all, length, arith,
  ◌==◌, string_eq, Bool-cases, inl, inr,
}
use webmcp_security_lab.Prelude.Result.{ok, guard_passed, refuse_passed, >>=-eq-ok, ok-injective}
use webmcp_security_lab.Prelude.Dates.{DateText, is_exact, to_iso, date_eq, same_date_iff}
use webmcp_security_lab.Prelude.Text.{is_uuid}
use webmcp_security_lab.Issues.Model.{
  current_limitation, received, quarantined, published, state_eq, same_state, rank, same_state_iff,
  bad_id, bad_time, no_history, history_too_long, broken_intake, snapshot_mismatch, Runtime,
}
use webmcp_security_lab.Issues.Draft.{IssueDraft, IssueDraftInput}
use webmcp_security_lab.Issues.Draft.Canonical.{draft_of}
use webmcp_security_lab.Issues.Moderation.{
  IssueRecord, ModerationEvent, event_of, exact_iso_time, create_record, parse_stored_draft,
  replay_all, replayed_draft, is_intake, is_snapshot, parse_record,
}
use webmcp_security_lab.Issues.Moderation.Reached.{Reached, taken_in, create_record_lem, intake_of}
use webmcp_security_lab.Issues.Moderation.Replay.{is_marked}
use webmcp_security_lab.Issues.Moderation.Rebuilt.{Reached-Replayable}
use webmcp_security_lab.Issues.Moderation.Stored.{
  stored_draft, parse_stored_draft_lem, StoredDraft, replay_lem, exact_iso_time-eq,
}
use webmcp_security_lab.Issues.Moderation.Rebuilt.{none_of_marked}
use webmcp_security_lab.Issues.Moderation.Readable.{modernized, relabel, readable}

intake_lem :
    (first : ModerationEvent) (received_at : DateText) (now : ℕ)
    → received_at ≡ to_iso now
    → is_intake first received_at ≡ true
    → first ≡ event_of now received quarantined
intake_lem first received_at now same h =
    let from = (same_state_iff first.from received).0 (ground arith) in
    let to = (same_state_iff first.to quarantined).0 (ground arith) in
    let at = (same_date_iff first.at received_at).0 (ground arith) ∙ same in
    λ i. record { at = at i; from = from i; to = to i }

record Snapshot (v w : IssueRecord) : Type 0 where
  state_same : w.state ≡ v.state
  updated_same : w.updated_at ≡ v.updated_at
  marked : is_marked v.state v.publication ≡ true

is_snapshot_lem : (v w : IssueRecord) → is_snapshot v w ≡ true → Snapshot v w
unfolding is_snapshot
is_snapshot_lem v w h = record {
  state_same = (same_state_iff w.state v.state).0 (ground arith);
  updated_same = (same_date_iff w.updated_at v.updated_at).0 (ground arith);
  marked = ground arith;
}

module _ (runtime : Runtime) where
  -- What the replay of a stored record comes to.
  record Rebuilt (v : IssueRecord) (given : IssueDraftInput) (w : IssueRecord) : Type 0 where
    id_same : w.id ≡ v.id
    received_same : w.received_at ≡ v.received_at
    draft_same : w.draft ≡ draft_of given
    history_same : w.history ≡ v.history
    publication_stored : (w.state == published) ≡ true → w.publication ≡ v.publication
    reached : Reached runtime w

  replay_all_lem :
      (v w : IssueRecord) (now : ℕ) (given : IssueDraftInput) (history : List ModerationEvent)
      → v.received_at ≡ to_iso now
      → v.history ≡ history
      → Reached runtime (intake_of v.id now given)
      → replay_all runtime v history (intake_of v.id now given) ≡ ok w
      → Rebuilt v given w
  unfolding replay_all same_state rank
  replay_all_lem v w now given [] at es h e = absurd (cc)
  replay_all_lem v w now given (first ∷ events) at es h e =
      let (intake, e1) = guard_passed (is_intake first v.received_at) broken_intake e in
      let f = intake_lem first v.received_at now at intake in
      let p =
        replay_lem runtime v.publication events (intake_of v.id now given) w h (λ x. absurd (cc))
          e1 in
      record {
        id_same = p.id_kept;
        received_same = p.received_kept ∙ sym at;
        draft_same = p.draft_kept;
        history_same = p.history_grown ∙ ap (λ x. x ∷ events) (sym f) ∙ sym es;
        publication_stored = p.publication_stored;
        reached = p.reached;
      }

  publication_same :
      (v w : IssueRecord) (given : IssueDraftInput)
      → Snapshot v w
      → Rebuilt v given w
      → w.publication ≡ v.publication
  publication_same v w given s h = elim (Bool-cases (w.state == published)) [
    | inl now ↦ h.publication_stored now
    | inr still ↦
        none_of_marked runtime w.state w.publication still
          (Reached-Replayable runtime w h.reached).marked
        ∙ sym (
            none_of_marked runtime v.state v.publication
              (ap (λ x. x == published) (sym s.state_same) ∙ still) s.marked)
  ]

  stored_is_made :
      (v w : IssueRecord) (given : IssueDraftInput)
      → v.draft ≡ stored_draft given v.draft.assurance_limitation
      → Snapshot v w
      → Rebuilt v given w
      → w ≡ modernized v
  stored_is_made v w given d s h =
      let draft : w.draft ≡ (modernized v).draft =
        h.draft_same ∙ ap (relabel current_limitation) (sym d) in
      let publication = publication_same v w given s h in
      λ i. record {
        id = h.id_same i;
        received_at = h.received_same i;
        updated_at = s.updated_same i;
        state = s.state_same i;
        draft = draft i;
        history = h.history_same i;
        publication = publication i;
      }

  abbrev Sound : IssueRecord → IssueRecord → Type 0
  Sound v r = (r ≡ v) × Reached runtime (modernized v) × (length v.history ≤ 8)

  replayed_input :
      (v : IssueRecord) (d : IssueDraft)
      → StoredDraft runtime v.draft d
      → v.draft ≡ stored_draft (replayed_draft d) v.draft.assurance_limitation
  unfolding replayed_draft
  replayed_input v d h =
      let kept : v.draft.input ≡ replayed_draft v.draft =
        (let back = sym h.truthy in λ i. record v.draft.input { site_origin = back i }) in
      h.shape
      ∙ ap (λ x. stored_draft x v.draft.assurance_limitation)
          (kept ∙ ap replayed_draft (sym h.unchanged))

  replay_all-Sound :
      (v base w : IssueRecord) (d : IssueDraft) (now : ℕ)
      → exact_iso_time v.received_at ≡ ok now
      → StoredDraft runtime v.draft d
      → length v.history ≤ 8
      → create_record runtime v.id now (replayed_draft d) ≡ ok base
      → replay_all runtime v v.history base ≡ ok w
      → is_snapshot v w ≡ true
      → Sound v (record w { draft = d })
  replay_all-Sound v base w d now at stored short created replayed snap =
      let given = replayed_draft d in
      let t = create_record_lem runtime v.id now given base created in
      let start = taken_in v.id now given (created ∙ ap ok t.shape) in
      let again = subst (λ x. replay_all runtime v v.history x ≡ ok w) t.shape replayed in
      let h =
        replay_all_lem v w now given v.history (sym (exact_iso_time-eq v.received_at now at)) refl
          start again in
      let same =
        stored_is_made v w given (replayed_input v d stored) (is_snapshot_lem v w snap) h in
      let draft = stored.unchanged in
      (
        ap {A = IssueRecord} (λ x. record x { draft = d }) same
            ∙ (λ i. record v { draft = draft i }),
        subst (Reached runtime) same h.reached,
        short,
      )

  sound : (v r : IssueRecord) → parse_record runtime v ≡ ok r → Sound v r
  unfolding parse_record
  sound v r e =
      let (named, e1) = guard_passed (is_uuid v.id) bad_id e in
      let (now, at, e2) = >>=-eq-ok (exact_iso_time v.received_at) _ e1 in
      let (last, _, e3) = >>=-eq-ok (exact_iso_time v.updated_at) _ e2 in
      let (d, stored, e4) = >>=-eq-ok (parse_stored_draft runtime v.draft) _ e3 in
      let (_, e5) = guard_passed (leb 1 (length v.history)) no_history e4 in
      let (few, e6) = refuse_passed (ltb 8 (length v.history)) history_too_long e5 in
      let (_, e7) = guard_passed (all (λ event. is_exact event.at) v.history) bad_time e6 in
      let (base, created, e8) =
        >>=-eq-ok (create_record runtime v.id now (replayed_draft d)) _ e7 in
      let (w, replayed, e9) = >>=-eq-ok (replay_all runtime v v.history base) _ e8 in
      let (snap, e10) = guard_passed (is_snapshot v w) snapshot_mismatch e9 in
      subst (Sound v) (ok-injective e10) (
        replay_all-Sound v base w d now at (parse_stored_draft_lem runtime v.draft d stored)
          (ground (arith, few)) created replayed snap)

  -- A stored record is read, as it is, exactly when it has at most eight events and is a record that
  -- an intake and transitions make, but for the wording of its limitation, which may be the older
  -- one.
  pub parse_record_iff :
      (v r : IssueRecord)
      → (parse_record runtime v ≡ ok r)
        ↔ ((r ≡ v) × Reached runtime (modernized v) × (length v.history ≤ 8))
  parse_record_iff v r =
      (sound v r, λ (same, reached, short). readable runtime v reached short ∙ ap ok (sym same))
