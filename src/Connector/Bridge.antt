-- ===== src/Connector/Bridge.antt =====
-- products/connector/bridge-coordinator.ts: the coordinator's state, the paired sessions, and the
-- check that binds a result to a session and a command. Each call takes the readings of the clock
-- that it makes, in order, and what its generators return. SHA-256 and the URL parser are
-- parameters.
--
-- A promise or a timer that the code compares by identity carries a serial number. `settled` is the
-- history of the calls to `resolve` and `reject`, the latest first. The generator of session ids
-- never returns an id again, so that a session that a closure holds is the one in the Map, and no
-- generated id is the empty text (randomUUID).
pub mod Delivery
pub mod Commit
pub mod Completion
pub mod Sessions
pub mod Moves
pub mod CommitMoves
pub mod Trace
pub mod Promises
pub mod Replies
pub mod Revoked
pub mod Vouching
pub mod Provenance
pub mod Accepted
pub mod History
mod Tests
use webmcp_security_lab.Prelude.{
  ℕ, ◌-◌, Bool, true, false, not, ◌||◌, Option, none, some, String, List, [], ◌∷◌, ltb, leb, any,
  map, if◌then◌else◌, ◌==◌, string_eq,
}
use webmcp_security_lab.Prelude.Result.{Result, ok, err, ◌>>=◌, ◌>>◌, refuse, guard}
use webmcp_security_lab.Prelude.Dict.{Dict, get, set, delete, discard}
use webmcp_security_lab.Prelude.Dates.{DateText, parse}
use webmcp_security_lab.Prelude.Json.{Json, object, member_of, is_text}
use webmcp_security_lab.Prelude.Text.{trim, units}
use webmcp_security_lab.Prelude.Url.{Url, UrlParser}

pub data BridgeError : Type 0 where
  no_allowed_origin empty_pair_code unreadable_url only_http_origins : BridgeError
  bad_pair_code origin_mismatch page_credentials origin_not_allowed bad_label : BridgeError
  authentication_failed session_not_found not_connected command_in_progress : BridgeError
  command_not_unique tool_not_approved : BridgeError
  different_session different_result_accepted different_result_rejected : BridgeError
  different_result_committing permanently_rejected no_longer_pending : BridgeError
  unknown_command not_delivered expired_before_commit : BridgeError
  other_page_origin observation_time_required error_on_success : BridgeError
  other_page_identity other_capability payload_on_failure : BridgeError
  page_reported_failure timed_out revoked shutting_down commitment_failed : BridgeError

pub data CommandKind : Type 0 where
  inspect_tools : CommandKind
  invoke_approved_capability : (tool_name : String) → CommandKind

pub record BridgeCommand : Type 0 where
  pub id : String
  pub kind : CommandKind
  pub issued_at : ℕ

pub record BridgeCommandResult : Type 0 where
  pub command_id : String
  pub observed_at : DateText
  pub observed_origin : String
  -- The source's `ok`.
  pub succeeded : Bool
  pub payload : Option Json
  pub error : Option String

pub record InternalSession : Type 0 where
  pub id : String
  pub bridge_token_hash : String
  pub origin : String
  pub page_url : String
  pub client_label : String
  pub paired_at : ℕ
  pub last_seen_at : ℕ
  pub queue : List BridgeCommand
  pub in_flight : Option BridgeCommand
  pub awaiting_acknowledgement : Option String

-- `timer` tells whether the timer runs.
pub record PendingCommand : Type 0 where
  pub session_id : String
  pub serial : ℕ
  pub timer : Bool

-- The entries of `#completed` and of `#rejected`.
pub record ClosedCommand : Type 0 where
  pub session_id : String
  pub command : BridgeCommand
  pub canonical_result : String

-- `attempt` holds the serial of the pending command that the running attempt captured.
pub record CommittingCommand : Type 0 where
  pub session_id : String
  pub serial : ℕ
  pub command : BridgeCommand
  pub result : BridgeCommandResult
  pub canonical_result : String
  pub attempt : Option ℕ
  pub waiter : Bool

pub data Outcome : Type 0 where
  resolved : (result : BridgeCommandResult) (receipt_entry_id : Option String) → Outcome
  rejected : BridgeError → Outcome

pub record Settlement : Type 0 where
  pub command_id : String
  pub serial : ℕ
  pub outcome : Outcome

-- `refused` is `#rejected`. The time that a timer takes is left out: it may fire whenever it runs.
pub record Coordinator : Type 0 where
  pub pair_code : String
  pub allowed_origins : List String
  pub connected_window_ms : ℕ
  -- Whether the option `commitResult` is given.
  pub commits : Bool
  pub sessions : Dict InternalSession
  pub pending : Dict PendingCommand
  pub completed : Dict ClosedCommand
  pub committing : Dict CommittingCommand
  pub refused : Dict ClosedCommand
  pub next_serial : ℕ
  pub settled : List Settlement

pub record PairedPageSummary : Type 0 where
  pub session_id : String
  pub origin : String
  pub page_url : String
  pub client_label : String
  pub paired_at : ℕ
  pub last_seen_at : ℕ
  pub connected : Bool

unfoldable pub to_summary : ℕ → Coordinator → InternalSession → PairedPageSummary
to_summary now c s = record {
  session_id = s.id;
  origin = s.origin;
  page_url = s.page_url;
  client_label = s.client_label;
  paired_at = s.paired_at;
  last_seen_at = s.last_seen_at;
  connected = leb (now - s.last_seen_at) c.connected_window_ms;
}

-- `assertResultBinding`.
unfoldable pub is_page_identity : InternalSession → Option Json → Bool
is_page_identity s (some (object fields)) =
    if is_text s.origin (member_of "origin" fields)
    then is_text s.page_url (member_of "pageUrl" fields)
    else false
is_page_identity s _ = false

unfoldable pub names_capability : CommandKind → Option Json → Bool
names_capability inspect_tools payload = true
names_capability (invoke_approved_capability tool_name) (some (object fields)) =
    is_text tool_name (member_of "toolName" fields)
names_capability (invoke_approved_capability tool_name) _ = false

abbrev pub is_given {ℓ} : {A : Type ℓ} → Option A → Bool
is_given none = false
is_given (some a) = true

unfoldable pub assert_result_binding :
    InternalSession → BridgeCommand → BridgeCommandResult → Result BridgeError (Unit {0})
assert_result_binding s command result = do
  guard (result.observed_origin == s.origin) other_page_origin
  guard (is_given (parse result.observed_at)) observation_time_required
  if result.succeeded
      then (do
        refuse (is_given result.error) error_on_success
        guard (is_page_identity s result.payload) other_page_identity
        guard (names_capability command.kind result.payload) other_capability)
      else refuse (is_given result.payload) payload_on_failure
