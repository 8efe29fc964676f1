-- ===== src/Connector/Tests.antt =====
-- Concrete challenges, tickets and sessions: tests of the definitions, and the theorems at inputs
-- that meet their hypotheses.
use webmcp_security_lab.Prelude.{
  ◌≡◌, ◌↔◌, ◌≤◌, refl, ap, ◌∙◌, Option, some, String, List, [], ◌∷◌, arith, string_eq,
}
use webmcp_security_lab.Prelude.Result.{ok, err}
use webmcp_security_lab.Prelude.Dict.{get, set, delete, discard, evict}
use webmcp_security_lab.Prelude.Text.{
  trim, units, after_prefix, matches_class, is_a_to_p, is_base64url,
}
use webmcp_security_lab.Prelude.Dates.{exact}
use webmcp_security_lab.Prelude.Url.{Url, UrlParser}
use webmcp_security_lab.Connector.Challenges.{
  ChallengeBinding, StoredChallenge, Manager, bad_label, prune, is_token, same_binding,
  normalized_binding,
}
use webmcp_security_lab.Connector.Challenges
use webmcp_security_lab.Connector.Challenges.OneUse.{
  Call, issues, consumes, issued, consumed, consumed-le-issued,
}
use webmcp_security_lab.Connector.Challenges.RoundTrip.{consume-issue}
use webmcp_security_lab.Connector.SaveActions.{SaveManager, bounded_scope, issue_action}
use webmcp_security_lab.Connector.Access.{
  AccessManager, OpenedSession, receipts, setup, allowed, invalid_ticket, authorize, revoke_binding,
}
use webmcp_security_lab.Connector.Access
use webmcp_security_lab.Connector.Access.Scope.{rank, consume-authorize}
use webmcp_security_lab.Connector.Access.Capacity.{IsBounded, run, run-IsBounded, disposes}
use webmcp_security_lab.Connector.Access.Capacity

-- A parser that knows one page.
abbrev page : Url
page = record {
  protocol = "http:";
  origin = "http://127.0.0.1:3000";
  hostname = "127.0.0.1";
  port = "3000";
  username = "";
  password = "";
  bare = "http://127.0.0.1:3000/";
}

abbrev one_page : UrlParser
one_page text = some page

abbrev plain : String → String
plain s = s

abbrev tab : ChallengeBinding
tab = record {
  extension_origin = "chrome-extension://abcdefghijklmnopabcdefghijklmnop";
  origin = "http://127.0.0.1:3000";
  page_url = "http://127.0.0.1:3000/?x=1";
  client_label = " Lab ";
}

abbrev clean_tab : ChallengeBinding
clean_tab = record tab { page_url = "http://127.0.0.1:3000/"; client_label = "Lab" }

abbrev token : String
token = "0123456789abcdefghijklmnopqrstuv"

abbrev empty : Manager
empty = record { ttl_ms = 60000; challenges = [] }

abbrev history : List Call
history = issues 5 6 token tab ∷ consumes 7 8 token tab ∷ consumes 9 9 token tab ∷ []

tab_kept : normalized_binding one_page tab ≡ ok clean_tab
unfolding normalized_binding trim units after_prefix matches_class is_a_to_p
tab_kept = refl

unnamed_tab : normalized_binding one_page (record tab { client_label = "  " }) ≡ err bad_label
unfolding normalized_binding trim units
unnamed_tab = refl

tab_issued : Challenges.issue one_page plain 5 6 token tab empty ≡ (
  record empty { challenges = (token, record { binding = clean_tab; expires_at_ms = 60006 }) ∷ [] },
  ok (record { token = token; expires_at = exact 60006 }),
)
unfolding Challenges.issue normalized_binding trim units after_prefix matches_class is_a_to_p
    is_token is_base64url set discard
tab_issued = refl

consumed-le-issued_example :
    consumed one_page plain token empty history ≤ issued one_page plain token empty history
unfolding get
consumed-le-issued_example = consumed-le-issued one_page plain token empty history refl

consumed_once : consumed one_page plain token empty history ≡ 1
unfolding consumed Challenges.issue Challenges.consume is_token matches_class is_base64url get
    discard normalized_binding trim units after_prefix is_a_to_p set same_binding delete
consumed_once = refl

abbrev after_issue : Manager
after_issue = (Challenges.issue one_page plain 5 6 token tab empty).0

consume-issue_example :
    (Challenges.consume one_page plain 7 8 token tab after_issue).1
    ≡ normalized_binding one_page tab
consume-issue_example =
    consume-issue one_page plain 5 6 7 8 token tab empty
      (record { token = token; expires_at = exact 60006 }) (ap (λ r. r.1) tab_issued) (omega arith)
      (omega arith)

tab_consumed : (Challenges.consume one_page plain 7 8 token tab after_issue).1 ≡ ok clean_tab
tab_consumed = consume-issue_example ∙ tab_kept

abbrev opened_pages : AccessManager
opened_pages = record {
  ticket_ttl_ms = 60000;
  session_ttl_ms = 900000;
  tickets = [];
  sessions = [];
}

abbrev with_ticket : AccessManager
with_ticket = (Access.issue plain 1 2 "T" receipts (some "reviewer") opened_pages).0

abbrev session : OpenedSession
session = record {
  session_token = "S";
  target = receipts;
  expires_at = exact 900005;
  max_age_seconds = 900;
}

session_opened : (Access.consume plain 3 4 5 "S" "T" with_ticket).1 ≡ ok session
unfolding Access.consume Access.issue get discard set evict
session_opened = refl

consume-authorize_example :
    ((binding : Option String) × ((authorize plain 10 11 "S" setup
          (Access.consume plain 3 4 5 "S" "T" with_ticket).0).1
        ≡ allowed binding))
    ↔ (rank setup ≤ rank receipts)
unfolding Access.issue
consume-authorize_example =
    consume-authorize plain 3 4 5 "S" "T" with_ticket session 10 11 setup session_opened (λ h. cc)
      (omega arith) (omega arith)

run-IsBounded_example :
    IsBounded (run plain opened_pages (Capacity.consumes 3 4 5 "S" "T" ∷ disposes ∷ []))
run-IsBounded_example =
    run-IsBounded plain opened_pages (Capacity.consumes 3 4 5 "S" "T" ∷ disposes ∷ [])
      (record { few_tickets = omega arith; few_sessions = omega arith })

abbrev stranger : String
stranger = "stranger"

abbrev reviewer : String
reviewer = "reviewer"

abbrev save_actions : SaveManager String
save_actions = record { ttl_ms = 300000; actions = [] }

abbrev with_action : SaveManager String
with_action = (issue_action plain 1 2 "A" reviewer "lesson" save_actions).0

action_issued : (issue_action plain 1 2 "A" reviewer "lesson" save_actions).1 ≡ ok "A"
unfolding issue_action bounded_scope units
action_issued = refl
