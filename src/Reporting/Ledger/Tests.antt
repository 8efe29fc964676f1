-- ===== src/Reporting/Ledger/Tests.antt =====
-- A concrete ledger: tests of the definitions, and the theorems at inputs that meet their hypotheses.
use webmcp_security_lab.Prelude.{
  ◌≤◌, ◌≡◌, ◌≢◌, sym, eq_iff, ◌↔◌, refl, true, Option, none, some, String, [], ◌∷◌, All, length,
}
use webmcp_security_lab.Prelude.Result.{ok, err}
use webmcp_security_lab.Prelude.Text.{units, is_uuid, is_sha256, is_identifier}
use webmcp_security_lab.Prelude.Dates.{exact, same_date}
use webmcp_security_lab.Issues.Model.{quarantined, under_review, received, same_state, rank}
use webmcp_security_lab.Issues.Moderation.Closing.{move_to}
use webmcp_security_lab.Issues.Tests.{one_site, report, id, intake, reviewing, taken, taken_up}
use webmcp_security_lab.Reporting.Ledger.{
  LedgerActor, LedgerBody, LedgerEvent, LedgerRecord, Digests, reviewer, publisher, wrong_authority,
  stale_revision, intake_body, transition_body, create_intake, transition_ledger, actor_fits,
  make_event, body_fits, first_at, ledger_of, allowed_role, verify_chain, parse_bundle, is_chain,
  is_link, expected_payload,
}
use webmcp_security_lab.Reporting.Ledger
use webmcp_security_lab.Reporting.Ledger.Kept.{Kept, opened, continued}
use webmcp_security_lab.Reporting.Ledger.Chain.{HasAuthority}
use webmcp_security_lab.Reporting.Ledger.Reading.{Kept-HasAuthority, Kept-parse_bundle}
use webmcp_security_lab.Reporting.Ledger.Unique.{verified_unique}

abbrev digits : String
digits = "0123456789abcdef0123456789abcdef0123456789abcdef0123456789abcdef"

abbrev more_digits : String
more_digits = "1123456789abcdef0123456789abcdef0123456789abcdef0123456789abcdef"

-- A hash that tells a first event from a later one.
abbrev by_place : Option String → String
by_place none = digits
by_place (some previous) = more_digits

abbrev one_digest : Digests
one_digest = record {
  of_event = λ body. by_place body.previous_event_sha256;
  of_intake = λ report_id at draft. digits;
  of_transition = λ to publication. digits;
}

abbrev desk : LedgerActor
desk = record { id = "reporting.intake"; role = Ledger.intake }

abbrev judge : LedgerActor
judge = record { id = "reporting.reviewer"; role = reviewer }

abbrev first_event : LedgerEvent
first_event = record {
  body = record {
    event_id = id;
    report_id = id;
    sequence = 1;
    revision = 1;
    at = exact 100;
    actor = desk;
    request_id = id;
    from = received;
    to = quarantined;
    payload_sha256 = digits;
    previous_event_sha256 = none;
  };
  event_sha256 = digits;
}

abbrev second_event : LedgerEvent
second_event = record {
  body = record {
    event_id = id;
    report_id = id;
    sequence = 2;
    revision = 2;
    at = exact 200;
    actor = judge;
    request_id = id;
    from = quarantined;
    to = under_review;
    payload_sha256 = digits;
    previous_event_sha256 = some digits;
  };
  event_sha256 = more_digits;
}

abbrev first_ledger : LedgerRecord
first_ledger = record { revision = 1; moderation = intake; last_event_sha256 = digits }

abbrev second_ledger : LedgerRecord
second_ledger = record { revision = 2; moderation = reviewing; last_event_sha256 = more_digits }

opened_so :
    create_intake one_digest one_site report desk id id id 100 ≡ ok (first_ledger, first_event)
unfolding create_intake actor_fits units is_identifier first_at make_event is_uuid intake_body
    body_fits is_sha256 ledger_of
opened_so = rw taken refl

moved_so :
    transition_ledger one_digest one_site first_ledger (move_to under_review 200) judge 1 id id
    ≡ ok (second_ledger, second_event)
unfolding transition_ledger actor_fits units is_identifier make_event is_uuid transition_body
    body_fits is_sha256 ledger_of allowed_role
moved_so = rw taken_up refl

by_another_role :
    transition_ledger one_digest one_site first_ledger
      (move_to under_review 200)
      (record judge { role = publisher })
      1
      id
      id
    ≡ err wrong_authority
unfolding transition_ledger actor_fits units is_identifier allowed_role
by_another_role = rw taken_up refl

stale :
    transition_ledger one_digest one_site first_ledger (move_to under_review 200) judge 2 id id
    ≡ err stale_revision
unfolding transition_ledger
stale = refl

kept : Kept one_digest one_site second_ledger (first_event ∷ second_event ∷ [])
kept =
    continued (move_to under_review 200) judge 1 id id (opened report desk id id id 100 opened_so)
      moved_so

Kept-HasAuthority_example : All HasAuthority (first_event ∷ second_event ∷ [])
Kept-HasAuthority_example =
    Kept-HasAuthority one_digest one_site second_ledger (first_event ∷ second_event ∷ []) kept

shaped : (previous : Option String) → is_sha256 (by_place previous) ≡ true
unfolding is_sha256
shaped none = refl
shaped (some previous) = refl

Kept-parse_bundle_example :
    (parse_bundle one_digest one_site second_ledger (first_event ∷ second_event ∷ [])
      ≡ ok (second_ledger, first_event ∷ second_event ∷ []))
    ↔ (length (first_event ∷ second_event ∷ []) ≤ 8)
Kept-parse_bundle_example =
    Kept-parse_bundle one_digest one_site second_ledger (first_event ∷ second_event ∷ [])
      (λ body. shaped body.previous_event_sha256) kept

verified : verify_chain one_digest second_ledger (first_event ∷ second_event ∷ []) ≡ true
unfolding verify_chain is_chain is_link expected_payload same_date same_state rank
verified = refl

differ : digits ≢ more_digits
differ h = let same = (eq_iff digits more_digits).1 h in cc

verified_unique_example : (first_event ∷ second_event ∷ []) ≡ (first_event ∷ second_event ∷ [])
verified_unique_example =
    verified_unique one_digest second_ledger (first_event ∷ second_event ∷ [])
      (first_event ∷ second_event ∷ [])
      (
        ((λ h. refl), ((λ h. absurd (differ h)), tt)),
        (((λ h. absurd (differ (sym h))), ((λ h. refl), tt)), tt),
      )
      verified verified
