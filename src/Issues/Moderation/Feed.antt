-- ===== src/Issues/Moderation/Feed.antt =====
-- issue-moderation.ts: the public feed of the records that can be reached.
use webmcp_security_lab.Prelude.{
  ◌≡◌, refl, sym, ap, ◌∙◌, Option, none, some, List, [], ◌∷◌, All, ◌==◌, inl, inr, Bool-cases,
  if◌then◌else◌,
}
use webmcp_security_lab.Prelude.Result.{ok}
use webmcp_security_lab.Issues.Model.{
  published, state_eq, same_state_iff, current_limitation, Runtime,
}
use webmcp_security_lab.Issues.Publication.{
  PublicationGate, PublicRecord, projection, keep_present, project_public_record,
  project_public_feed,
}
use webmcp_security_lab.Issues.Publication.Gate.{project_unpublished}
use webmcp_security_lab.Issues.Moderation.{IssueRecord, candidate_of, project_moderated_feed}
use webmcp_security_lab.Issues.Moderation.Reached.{Reached}
use webmcp_security_lab.Issues.Moderation.Rebuilt.{Reached-Replayable, none_of_marked}
use webmcp_security_lab.Issues.Moderation.Published.{published-Vetted}

-- What the world may see of a record: the words of a published report, and what its gate shows.
abbrev pub shown : IssueRecord → Option PublicationGate → Option PublicRecord
shown r none = none
shown r (some gate) = some (record {
  category = r.draft.input.category;
  severity = r.draft.input.severity;
  stage = r.draft.input.stage;
  hostname_visibility = gate.hostname_visibility;
  evidence_basis = gate.evidence_basis;
  hostname = gate.hostname;
  assurance_limitation = current_limitation;
})

abbrev pub public_views : List IssueRecord → List PublicRecord
public_views [] = []
public_views (r ∷ rs) =
    if r.state == published
    then keep_present (shown r r.publication) (public_views rs)
    else public_views rs

module _ (runtime : Runtime) where
  -- The candidate that a reached record is projected as.
  view_lem :
      (r : IssueRecord)
      → Reached runtime r
      → project_public_record runtime (candidate_of r.draft r.state r.publication)
        ≡ ok (if r.state == published then shown r r.publication else none)
  unfolding projection
  view_lem r h = elim (Bool-cases (r.state == published)) [
    | inl now ↦
        (let v = published-Vetted runtime r h now in
          let state = (same_state_iff r.state published).0 now in
          ap (λ s. project_public_record runtime (candidate_of r.draft s r.publication)) state
          ∙ ap (λ p. project_public_record runtime (candidate_of r.draft published p)) v.kept
          ∙ v.projected
          ∙ ap (λ p. ok (shown r p)) (sym v.kept)
          ∙ ap (λ b. ok (if b then shown r r.publication else none)) (sym now))
    | inr still ↦
        project_unpublished runtime (candidate_of r.draft r.state r.publication)
          (none_of_marked runtime r.state r.publication still
            (Reached-Replayable runtime r h).marked)
          still
        ∙ ap (λ b. ok (if b then shown r r.publication else none)) (sym still)
  ]

  kept :
      (r : IssueRecord) (rest : List PublicRecord)
      → keep_present (if r.state == published then shown r r.publication else none) rest
        ≡ (if r.state == published then keep_present (shown r r.publication) rest else rest)
  kept r rest = elim (Bool-cases (r.state == published)) [ inl h ↦ rw h refl | inr h ↦ rw h refl ]

  -- The feed of records that were reached never throws. It has one entry for each published record,
  -- in their order, and none for any other; the entry is made of the words of the report and of
  -- what its gate shows, and of nothing else in the record.
  pub feed_shows_published :
      (records : List IssueRecord)
      → All (Reached runtime) records
      → project_moderated_feed runtime records ≡ ok (public_views records)
  unfolding project_moderated_feed project_public_feed
  feed_shows_published [] h = refl
  feed_shows_published (r ∷ records) (h, hs) =
      rw (view_lem r h, feed_shows_published records hs, kept r (public_views records)) refl
