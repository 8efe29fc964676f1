-- ===== src/Issues/Moderation/Readable.antt =====
-- issue-moderation.ts: a record that is made is read.
use webmcp_security_lab.Prelude.{
  ℕ, ◌≤◌, ◌≡◌, refl, sym, ap, subst, ◌∙◌, true, false, Option, List, ◌∷◌, String, ltb, leb,
  nat_beq_iff, all, length, arith, string_eq,
}
use webmcp_security_lab.Prelude.Result.{ok}
use webmcp_security_lab.Prelude.Dates.{is_exact, to_iso, date_eq, same_date, same_date_iff}
use webmcp_security_lab.Prelude.Text.{is_uuid}
use webmcp_security_lab.Issues.Model.{
  AssuranceLimitation, current_limitation, ModerationState, received, quarantined, state_eq,
  same_state, rank, same_state_iff, Runtime,
}
use webmcp_security_lab.Issues.Draft.{IssueDraft, IssueDraftInput, create_draft, if_truthy}
use webmcp_security_lab.Issues.Draft.Canonical.{draft_of, create_draft-eq}
use webmcp_security_lab.Issues.Publication.{PublicationGate, is_public_web}
use webmcp_security_lab.Issues.Moderation.{
  IssueRecord, ModerationEvent, event_of, exact_iso_time, create_record, replay, replay_all,
  replayed_draft, is_snapshot, parse_record,
}
use webmcp_security_lab.Issues.Moderation.Reached.{Reached, intake_of}
use webmcp_security_lab.Issues.Moderation.Replay.{is_marked}
use webmcp_security_lab.Issues.Moderation.Rebuilt.{Reached-Replayable}
use webmcp_security_lab.Issues.Moderation.Stored.{stored_draft, parse_stored_draft_of}

-- The record under the limitation that drafts bear now.
abbrev pub modernized : IssueRecord → IssueRecord
modernized r = record r { draft = record r.draft { assurance_limitation = current_limitation } }

abbrev pub relabel : AssuranceLimitation → IssueDraft → IssueDraft
relabel limitation d = record d { assurance_limitation = limitation }

module _ (runtime : Runtime) where
  -- A stored record with the parts that a reached one has.
  abbrev stored_record :
      String
      → (now last : ℕ) → ModerationState
      → IssueDraftInput
      → AssuranceLimitation
      → List ModerationEvent
      → Option PublicationGate
      → IssueRecord
  stored_record id now last state given limitation events publication = record {
    id = id;
    received_at = to_iso now;
    updated_at = to_iso last;
    state = state;
    draft = stored_draft given limitation;
    history = event_of now received quarantined ∷ events;
    publication = publication;
  }

  create_record_of :
      (id : String) (now : ℕ) (given : IssueDraftInput)
      → create_draft runtime given ≡ ok (draft_of given)
      → is_public_web given.context ≡ true
      → is_uuid id ≡ true
      → create_record runtime id now given ≡ ok (intake_of id now given)
  unfolding create_record
  create_record_of id now given drafted public named = rw (drafted, public, named) refl

  replayed_draft-eq :
      (given : IssueDraftInput) (limitation : AssuranceLimitation)
      → if_truthy given.site_origin ≡ given.site_origin
      → replayed_draft (stored_draft given limitation) ≡ given
  unfolding replayed_draft
  replayed_draft-eq given limitation truthy = λ i. record given { site_origin = truthy i }

  is_snapshot_refl :
      (v w : IssueRecord)
      → w.state ≡ v.state
      → w.updated_at ≡ v.updated_at
      → w.history ≡ v.history
      → is_marked v.state v.publication ≡ true
      → is_snapshot v w ≡ true
  unfolding is_snapshot
  is_snapshot_refl v w s u h m =
      let a = (same_state_iff w.state v.state).1 s in
      let b = (same_date_iff w.updated_at v.updated_at).1 u in
      let c = (nat_beq_iff (length w.history) (length v.history)).1 (ap length h) in
      rw (a, b, c, m) refl

  read_stored :
      (id : String) (now last : ℕ) (state : ModerationState) (given : IssueDraftInput)
      (limitation : AssuranceLimitation) (events : List ModerationEvent)
      (publication : Option PublicationGate)
      → (let v = stored_record id now last state given limitation events publication in
          create_draft runtime given ≡ ok (draft_of given)
          → is_public_web given.context ≡ true
          → is_uuid id ≡ true
          → all (λ e. is_exact e.at) v.history ≡ true
          → is_marked state publication ≡ true
          → replay runtime publication events (intake_of id now given) ≡ ok (modernized v)
          → length v.history ≤ 8
          → parse_record runtime v ≡ ok v)
  unfolding parse_record exact_iso_time replay_all same_state rank same_date
  read_stored id now last state given limitation events publication drafted public named timed
        marked again short =
      let (_, truthy) = create_draft-eq runtime given (draft_of given) drafted in
      let v = stored_record id now last state given limitation events publication in
      let base = create_record_of id now given drafted public named in
      let some_event : leb 1 (length v.history) ≡ true = ground arith in
      let fits : ltb 8 (length v.history) ≡ false = ground (arith, short) in
      let here = (nat_beq_iff now now).1 refl in
      rw
        (
          named,
          parse_stored_draft_of runtime given limitation drafted,
          some_event,
          fits,
          timed,
          replayed_draft-eq given limitation truthy,
          base,
          here,
          again,
          is_snapshot_refl v (modernized v) refl refl refl marked,
        )
        refl

  pub readable :
      (v : IssueRecord)
      → Reached runtime (modernized v)
      → length v.history ≤ 8
      → parse_record runtime v ≡ ok v
  readable v reached short =
      let h = Reached-Replayable runtime (modernized v) reached in
      let f = v.draft.assurance_limitation in
      let made = stored_record v.id h.now h.last v.state h.given f h.events v.publication in
      let drafted : v.draft ≡ stored_draft h.given f = ap (λ d. relabel f d) h.draft_so in
      let shape : v ≡ made = λ i. record {
        id = v.id;
        received_at = h.received_so i;
        updated_at = h.updated_so i;
        state = v.state;
        draft = drafted i;
        history = h.history_so i;
        publication = v.publication;
      } in
      let back = sym shape in
      subst (λ x. parse_record runtime x ≡ ok x) back
        (read_stored v.id h.now h.last v.state h.given f h.events v.publication h.drafted h.public
          h.named (subst (λ es. all (λ e. is_exact e.at) es ≡ true) h.history_so h.timed) h.marked
          (h.replays v.publication (λ _. refl) ∙ ap (λ x. ok (modernized x)) shape)
          (subst (λ es. length es ≤ 8) h.history_so short))
