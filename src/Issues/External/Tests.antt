-- ===== src/Issues/External/Tests.antt =====
-- A concrete report on a public site: tests of the definitions, and the theorem at inputs that meet
-- its hypotheses.
use webmcp_security_lab.Prelude.{◌≡◌, refl, false, some, String, [], arith}
use webmcp_security_lab.Prelude.Result.{ok, err, is_ok}
use webmcp_security_lab.Prelude.Text.{units, trim}
use webmcp_security_lab.Issues.Model.{
  unexpected_tool_change, high, registration, has_char, is_non_public,
}
use webmcp_security_lab.Issues.Draft.{
  create_draft, draft_origin, public_site_origin, read_url, check_origin,
}
use webmcp_security_lab.Issues.External.{
  ExternalManager, ReportWords, invalid_action, external_scope, cleanup, canonical_external_origin,
  issue_composition, compose, issue_submission, consume_submission, consume_in, consume_record,
  match_pending,
}
use webmcp_security_lab.Prelude.Dict.{get, discard}
use webmcp_security_lab.Issues.External.RoundTrip.{report_of, consume_submission-compose}
use webmcp_security_lab.Issues.Tests.{one_site}

abbrev plain : String → String
plain s = s

abbrev quiet : ExternalManager
quiet = record { ttl_ms = 300_000; compositions = []; submissions = [] }

abbrev words : ReportWords
words = record { category = unexpected_tool_change; severity = high; stage = registration }

in_scope : external_scope "page" ≡ ok "page"
unfolding external_scope units
in_scope = refl

accepted :
    canonical_external_origin one_site "https://shop.example" ≡ ok (some "https://shop.example")
unfolding canonical_external_origin create_draft draft_origin public_site_origin units trim read_url
    check_origin has_char is_non_public
accepted = refl

unknown_token : (consume_submission plain 1 1 "guess" "page" quiet).1 ≡ err invalid_action
unfolding consume_submission consume_in consume_record match_pending external_scope units cleanup
    discard get
unknown_token = refl

consume_submission-compose_example :
    (let draft = report_of "https://shop.example" words in
      let begun =
        issue_composition plain one_site 1000 1000 "a" "page" "https://shop.example" quiet in
      let composed = compose plain one_site 2000 2000 "a" "page" words begun.0 in
      let issued = issue_submission plain one_site 3000 3000 "b" "page" draft composed.0 in
      let sent = consume_submission plain 4000 4000 "b" "page" issued.0 in
      (begun.1 ≡ ok "a")
      × (composed.1 ≡ ok draft)
      × (issued.1 ≡ ok "b")
      × (sent.1 ≡ ok draft)
      × (is_ok (consume_submission plain 5000 5000 "b" "page" sent.0).1 ≡ false))
consume_submission-compose_example =
    consume_submission-compose plain one_site quiet "page" "page" "https://shop.example" "a" "b"
      words 1000 1000 2000 2000 3000 3000 4000 4000 5000 5000 in_scope accepted (omega arith)
      (omega arith) (omega arith) (omega arith)
