-- ===== src/Issues/Tests.antt =====
-- Concrete reports: tests of the definitions, and the theorems at inputs that meet their hypotheses.
use webmcp_security_lab.Prelude.{
  ◌≤◌, ◌≡◌, ◌↔◌, refl, false, not, none, some, String, [], ◌∷◌, arith, length, take, string_eq,
}
use webmcp_security_lab.Prelude.Result.{ok, err, is_ok}
use webmcp_security_lab.Prelude.Dates.{exact}
use webmcp_security_lab.Prelude.Text.{units, trim, is_uuid, ends_in, is_lower_alnum}
use webmcp_security_lab.Prelude.Url.{Url}
use webmcp_security_lab.Issues.Model.{
  public_web, unexpected_tool_change, high, registration, received, quarantined, under_review,
  accepted_private, published, rejected, named, explicit, not_granted, human_reproduced, Runtime,
  state_eq, same_state, rank, consent_required, not_public_web, address, has_char, is_non_public,
  without_first, ends_with,
}
use webmcp_security_lab.Issues.Draft.{
  IssueDraft, IssueDraftInput, create_draft, draft_origin, public_site_origin, read_url,
  check_origin,
}
use webmcp_security_lab.Issues.Draft.Canonical.{draft_of}
use webmcp_security_lab.Issues.Publication.{
  PublicationGate, project_public_record, candidate, optional_gate, publication_gate, gate_for,
  public_hostname, read_host, check_hostname, is_dns_name, is_label, labels, project_published,
  project_state, projection,
}
use webmcp_security_lab.Issues.Moderation.{
  IssueRecord, event_of, create_record, transition, is_allowed, allowed_transitions, exact_iso_time,
  new_publication, moved, check_site, site_url, parse_record, project_moderated_feed,
}
use webmcp_security_lab.Issues.Moderation.Reached.{Reached, taken_in, transitioned}
use webmcp_security_lab.Issues.Moderation.Readable.{modernized}
use webmcp_security_lab.Issues.Moderation.Reading.{parse_record_iff}
use webmcp_security_lab.Issues.Moderation.Published.{Vetted, published-Vetted}
use webmcp_security_lab.Issues.Moderation.Feed.{public_views, feed_shows_published}
use webmcp_security_lab.Issues.Moderation.Closing.{
  is_closed, move_to, rejectable_iff_open, review_rounds, long_review_unread,
}
use webmcp_security_lab.Prelude.Dict.{get, set, evict}
use webmcp_security_lab.Connector.SaveActions.{bounded_scope}
use webmcp_security_lab.Issues.Candidate.{
  IssueCandidate, over_broad_schema, inconclusive, receipt_candidate,
}
use webmcp_security_lab.Issues.Review.{
  ReviewItem, ReviewStore, new_review_store, save, make_item, saved_input, add_item, list_items,
}
use webmcp_security_lab.Issues.Review.Within.{
  IsLocal, IsWithin, saving, revoking, run_reviews, run_reviews-IsWithin,
}
use webmcp_security_lab.Issues.External.{ExternalManager, not_public, issue_submission}
use webmcp_security_lab.Issues.Review.Newest.{IsKeptOrOldest, save-list_items}
use webmcp_security_lab.Issues.Review.Candidates.{practice_draft, item_of, save-receipt_candidate}

-- A runtime that knows one site.
abbrev pub shop : Url
shop = record {
  protocol = "https:";
  origin = "https://shop.example";
  hostname = "shop.example";
  port = "";
  username = "";
  password = "";
  bare = "https://shop.example/";
}

abbrev pub one_site : Runtime
one_site = record { parse_url = λ text. some shop; is_ip = λ text. false; to_lower = λ text. text }

abbrev pub report : IssueDraftInput
report = record {
  context = public_web;
  category = unexpected_tool_change;
  severity = high;
  stage = registration;
  site_origin = some "https://shop.example";
}

abbrev pub id : String
id = "123e4567-e89b-42d3-a456-426614174000"

abbrev pub intake : IssueRecord
intake = record {
  id = id;
  received_at = exact 100;
  updated_at = exact 100;
  state = quarantined;
  draft = draft_of report;
  history = event_of 100 received quarantined ∷ [];
  publication = none;
}

abbrev pub reviewing : IssueRecord
reviewing = record intake {
  updated_at = exact 200;
  state = under_review;
  history = event_of 100 received quarantined ∷ event_of 200 quarantined under_review ∷ [];
}

abbrev accepted : IssueRecord
accepted = record reviewing {
  updated_at = exact 300;
  state = accepted_private;
  history =
      event_of 100 received quarantined
      ∷ event_of 200 quarantined under_review
      ∷ event_of 300 under_review accepted_private
      ∷ [];
}

abbrev gate : PublicationGate
gate = record {
  evidence_basis = human_reproduced;
  hostname = some "shop.example";
  hostname_consent = explicit;
  hostname_visibility = named;
}

abbrev public_report : IssueRecord
public_report = record accepted {
  updated_at = exact 400;
  state = published;
  history =
      event_of 100 received quarantined
      ∷ event_of 200 quarantined under_review
      ∷ event_of 300 under_review accepted_private
      ∷ event_of 400 accepted_private published
      ∷ [];
  publication = some gate;
}

pub taken : create_record one_site id 100 report ≡ ok intake
unfolding create_record create_draft draft_origin public_site_origin units trim read_url
    check_origin has_char is_non_public is_uuid
taken = refl

pub taken_up : transition one_site intake (move_to under_review 200) ≡ ok reviewing
unfolding transition is_allowed same_state exact_iso_time new_publication moved
taken_up = refl

accepted_then : transition one_site reviewing (move_to accepted_private 300) ≡ ok accepted
unfolding transition is_allowed same_state exact_iso_time new_publication moved
accepted_then = refl

published_then :
    transition one_site accepted
      (record { at = exact 400; to = published; publication = some gate })
    ≡ ok public_report
unfolding transition is_allowed same_state exact_iso_time new_publication moved
    project_public_record candidate optional_gate publication_gate gate_for public_hostname units
    trim read_host check_hostname has_char is_dns_name is_lower_alnum address is_non_public rank
    without_first allowed_transitions check_site site_url is_label labels project_published
    project_state projection ends_in ends_with
published_then = refl

in_review : Reached one_site reviewing
in_review = transitioned (move_to under_review 200) (taken_in id 100 report taken) taken_up

at_large : Reached one_site public_report
at_large =
    transitioned (record { at = exact 400; to = published; publication = some gate })
      (transitioned (move_to accepted_private 300) in_review accepted_then) published_then

parse_record_iff_example : (parse_record one_site public_report ≡ ok public_report) ↔ (
    (public_report ≡ public_report)
    × Reached one_site (modernized public_report)
    × (length public_report.history ≤ 8))
parse_record_iff_example = parse_record_iff one_site public_report public_report

public_report_read : parse_record one_site public_report ≡ ok public_report
public_report_read = parse_record_iff_example.1 (refl, at_large, omega arith)

published-Vetted_example : Vetted one_site public_report
unfolding same_state rank
published-Vetted_example = published-Vetted one_site public_report at_large refl

feed_shows_published_example :
    project_moderated_feed one_site (reviewing ∷ public_report ∷ [])
    ≡ ok (public_views (reviewing ∷ public_report ∷ []))
feed_shows_published_example =
    feed_shows_published one_site (reviewing ∷ public_report ∷ []) (in_review, (at_large, tt))

rejectable_iff_open_example :
    is_ok (transition one_site reviewing (move_to rejected 250)) ≡ not (is_closed under_review)
rejectable_iff_open_example = rejectable_iff_open one_site reviewing 250 in_review refl

long_review_unread_example :
    (s : IssueRecord) × (review_rounds one_site 4 200 reviewing ≡ ok s)
    × Reached one_site s
    × (is_ok (parse_record one_site s) ≡ false)
long_review_unread_example =
    long_review_unread one_site 4 200 reviewing in_review refl refl (omega arith)

-- A hostname is not made public without consent.
without_consent :
    transition one_site
      (record accepted { draft = draft_of report })
      (record {
        at = exact 400;
        to = published;
        publication = some (record gate { hostname_consent = not_granted });
      })
    ≡ err consent_required
unfolding transition is_allowed same_state exact_iso_time new_publication moved
    project_public_record candidate optional_gate publication_gate gate_for
without_consent = refl

abbrev practice : IssueDraft
practice = practice_draft over_broad_schema inconclusive

abbrev first_item : ReviewItem
first_item = item_of practice id 7

abbrev one_item : ReviewStore
one_item = record { items = ("lab", first_item ∷ []) ∷ [] }

empty-IsWithin : IsWithin new_review_store
unfolding new_review_store
empty-IsWithin = record { few_scopes = omega arith; distinct = tt; few_items = tt; all_local = tt }

saved : save one_site "lab" practice id 7 new_review_store ≡ (one_item, ok first_item)
unfolding save make_item bounded_scope units create_draft draft_origin saved_input add_item evict
    set new_review_store get
saved = refl

run_reviews-IsWithin_example :
    IsWithin
      (run_reviews one_site new_review_store (saving "lab" practice id 7 ∷ revoking "lab" ∷ []))
run_reviews-IsWithin_example =
    run_reviews-IsWithin one_site new_review_store
      (saving "lab" practice id 7 ∷ revoking "lab" ∷ []) empty-IsWithin

nothing_yet : list_items "lab" new_review_store ≡ ok []
unfolding list_items bounded_scope units get new_review_store
nothing_yet = refl

save-list_items_example :
    IsLocal first_item
    × IsWithin one_item
    × (list_items "lab" one_item ≡ ok (first_item ∷ take 11 []))
    × IsKeptOrOldest "lab" "desk" new_review_store one_item
save-list_items_example =
    save-list_items one_site "lab" "desk" practice id 7 new_review_store one_item first_item []
      empty-IsWithin nothing_yet refl saved

abbrev actions : ExternalManager
actions = record { ttl_ms = 300000; compositions = []; submissions = [] }

abbrev plain : String → String
plain text = text

save-receipt_candidate_example :
    (c : IssueCandidate) × (receipt_candidate one_site "entry" over_broad_schema inconclusive
      ≡ ok c)
    × (c.draft ≡ practice)
    × (list_items "lab" (save one_site "lab" c.draft id 7 new_review_store).0
        ≡ ok (item_of c.draft id 7 ∷ take 11 []))
    × (create_record one_site id 7 c.draft.input ≡ err not_public_web)
    × ((issue_submission plain one_site 7 8 "token" "owner" c.draft actions).1 ≡ err not_public)
save-receipt_candidate_example =
    save-receipt_candidate one_site "entry" "lab" id id "token" "owner" over_broad_schema
      inconclusive 7 8 new_review_store [] plain actions empty-IsWithin nothing_yet
