-- ===== src/Connector/Bridge/Tests.antt =====
-- A page that is paired, asked for its tools and answers: tests of the definitions, and the
-- theorems at inputs that meet their hypotheses.
use webmcp_security_lab.Prelude.{
  ◌+◌, ◌≤◌, ◌≡◌, refl, Bool, true, none, some, String, List, [], ◌∷◌, All, arith, string_eq,
}
use webmcp_security_lab.Prelude.Result.{ok, err}
use webmcp_security_lab.Prelude.Dates.{exact}
use webmcp_security_lab.Prelude.Dict.{get, set, has, delete, discard, count}
use webmcp_security_lab.Prelude.Text.{trim, units}
use webmcp_security_lab.Prelude.Json.{text, object, member, no_members, is_text, member_of}
use webmcp_security_lab.Prelude.Url.{Url, UrlParser}
use webmcp_security_lab.Connector.Bridge.{
  BridgeCommand, inspect_tools, BridgeCommandResult, resolved, is_page_identity, names_capability,
  assert_result_binding, InternalSession, PendingCommand, Coordinator, authentication_failed,
  BridgeError,
}
use webmcp_security_lab.Connector.Bridge.Sessions.{
  PairPageInput, revoke, normalized_origin, check_pairing, pair, check_token, authenticate,
}
use webmcp_security_lab.Connector.Bridge.Delivery.{
  request_inspection, enqueue, refuse_enqueue, request_approved_invocation, acknowledge,
  restart_timer, next_command, handed_out, deliver, poll, change_session, without_command,
}
use webmcp_security_lab.Connector.Bridge.Commit.{
  committed, is_pending, is_in_flight, finalize_completion, set_timer, ensure_attempt,
  wait_for_commit, conclude_attempt, end_attempt, running_attempt, attempt_of, settle_attempt,
}
use webmcp_security_lab.Connector.Bridge.Completion.{
  own_pending, delivered, check_first, accept_result, first_result, complete_for, complete,
}
use webmcp_security_lab.Connector.Bridge.Trace.{
  Event, pairs, polls, completes, inspects, attempt_ends, step, run,
}
use webmcp_security_lab.Connector.Bridge.Promises.{
  times_settled, has_serial, settled_once, IsOneEach, run-IsOneEach,
}
use webmcp_security_lab.Connector.Bridge.Replies.{latched_result, different_result_unchanged}
use webmcp_security_lab.Connector.Bridge.Revoked.{revocation, WasSettled, IsGone, revoke_final}
use webmcp_security_lab.Connector.Bridge.Vouching.{Holds}
use webmcp_security_lab.Connector.Bridge.History.{WasDelivered, resolved-WasDelivered}

abbrev page : Url
page = record {
  protocol = "http:";
  origin = "http://127.0.0.1:3000";
  hostname = "127.0.0.1";
  port = "3000";
  username = "";
  password = "";
  bare = "http://127.0.0.1:3000/";
}

abbrev one_page : UrlParser
one_page written = some page

abbrev plain : String → String
plain s = s

-- A text that tells results apart by their time and origin.
abbrev summary : BridgeCommandResult → String
summary result = result.observed_origin

abbrev approved : String → Bool
approved name = true

abbrev start : Coordinator
start = record {
  pair_code = "12345678";
  allowed_origins = "http://127.0.0.1:3000" ∷ [];
  connected_window_ms = 5000;
  commits = true;
  sessions = [];
  pending = [];
  completed = [];
  committing = [];
  refused = [];
  next_serial = 0;
  settled = [];
}

abbrev request : PairPageInput
request = record {
  pair_code = "12345678";
  origin = "http://127.0.0.1:3000";
  page_url = "http://127.0.0.1:3000/?q=1";
  client_label = "Lab";
}

abbrev answer : BridgeCommandResult
answer = record {
  command_id = "c1";
  observed_at = exact 40;
  observed_origin = "http://127.0.0.1:3000";
  succeeded = true;
  payload = some (
      object (
        member "origin" (text "http://127.0.0.1:3000")
          (member "pageUrl" (text "http://127.0.0.1:3000/") no_members)));
  error = none;
}

abbrev asked : List Event
asked = pairs 10 "s1" "t1" "87654321" request ∷ inspects 20 21 "c1" "s1" ∷ polls 30 "s1" "t1" ∷ []

abbrev answered : List Event
answered =
    pairs 10 "s1" "t1" "87654321" request
    ∷ inspects 20 21 "c1" "s1"
    ∷ polls 30 "s1" "t1"
    ∷ completes 40 "s1" "t1" answer
    ∷ attempt_ends 50 "c1" 1 (committed (some "r1"))
    ∷ []

abbrev command : BridgeCommand
command = record { id = "c1"; kind = inspect_tools; issued_at = 20 }

abbrev session : InternalSession
session = record {
  id = "s1";
  bridge_token_hash = "t1";
  origin = "http://127.0.0.1:3000";
  page_url = "http://127.0.0.1:3000/";
  client_label = "Lab";
  paired_at = 10;
  last_seen_at = 30;
  queue = [];
  in_flight = some command;
  awaiting_acknowledgement = none;
}

abbrev asked_command : PendingCommand
asked_command = record { session_id = "s1"; serial = 0; timer = true }

abbrev waiting : Coordinator
waiting = record start {
  pair_code = "87654321";
  sessions = ("s1", session) ∷ [];
  pending = ("c1", asked_command) ∷ [];
  next_serial = 1;
}

abbrev done : Coordinator
done = record start {
  pair_code = "87654321";
  sessions =
      (
        "s1",
        record session {
          in_flight = none;
          awaiting_acknowledgement = some "c1";
          last_seen_at = 50;
        },
      )
      ∷ [];
  completed =
      (
        "c1",
        record { session_id = "s1"; command = command; canonical_result = "http://127.0.0.1:3000" },
      )
      ∷ [];
  next_serial = 2;
  settled = record { command_id = "c1"; serial = 0; outcome = resolved answer (some "r1") } ∷ [];
}

asked_runs : run one_page plain summary approved start asked ≡ waiting
unfolding run step get set has discard trim units normalized_origin check_pairing pair check_token
    authenticate request_inspection enqueue refuse_enqueue acknowledge restart_timer next_command
    handed_out deliver poll
asked_runs = refl

answered_runs : run one_page plain summary approved start answered ≡ done
unfolding run step get set has delete discard trim units is_page_identity names_capability
    assert_result_binding is_text member_of normalized_origin check_pairing pair check_token
    authenticate request_inspection enqueue refuse_enqueue request_approved_invocation acknowledge
    restart_timer next_command handed_out deliver poll change_session without_command is_pending
    is_in_flight finalize_completion set_timer ensure_attempt wait_for_commit conclude_attempt
    end_attempt running_attempt attempt_of settle_attempt own_pending delivered check_first
    accept_result first_result complete_for complete
answered_runs = refl

settled_once_example :
    let c' = run one_page plain summary approved start answered in
    times_settled 0 c'.settled + count (has_serial 0) c'.pending ≤ 1
settled_once_example = settled_once one_page plain summary approved 0 start answered refl refl

resolved-WasDelivered_example :
    All
      (λ s. Holds (λ r. WasDelivered one_page plain summary approved r start answered) s.outcome)
      (run one_page plain summary approved start answered).settled
resolved-WasDelivered_example =
    resolved-WasDelivered one_page plain summary approved start answered refl refl

run-IsOneEach_example : IsOneEach (run one_page plain summary approved start asked)
run-IsOneEach_example =
    run-IsOneEach one_page plain summary approved start asked
      (λ session_id. unfold count in omega arith)

asked_found : get "c1" waiting.pending ≡ some asked_command
unfolding get
asked_found = refl

signed_in : authenticate plain "s1" "t1" waiting ≡ ok session
unfolding authenticate check_token get
signed_in = refl

revoke_final_example :
    let c' = (revoke plain 60 "s1" "t1" waiting).0 in
    (authenticate plain "s1" "t2" c' ≡ err authentication_failed)
    × IsGone "s1" "s2" waiting c'
    × (get "c1" c'.committing ≡ none)
    × WasSettled (revocation "c1" asked_command) c'.settled
revoke_final_example =
    revoke_final plain 60 "s1" "t1" "t2" "s2" "c1" session asked_command waiting signed_in refl
      asked_found refl

accepted : latched_result summary "c1" done ≡ some "http://127.0.0.1:3000"
unfolding latched_result get
accepted = refl

different_result_unchanged_example :
    (e : BridgeError) × (complete summary plain 70 "s1" "t1"
        (record answer { observed_origin = "http://evil" })
        done
      ≡ (done, err e))
different_result_unchanged_example =
    different_result_unchanged summary plain 70 "s1" "t1"
      (record answer { observed_origin = "http://evil" }) "http://127.0.0.1:3000" done accepted refl
