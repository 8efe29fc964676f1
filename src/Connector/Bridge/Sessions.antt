-- ===== src/Connector/Bridge/Sessions.antt =====
-- bridge-coordinator.ts: pairing a page, its session, and the session's end.
use webmcp_security_lab.Prelude.{
  ℕ, Bool, true, ◌||◌, Option, none, some, String, List, [], ◌∷◌, ltb, any, if◌then◌else◌, ◌==◌,
  string_eq, nat_beq, length,
}
use webmcp_security_lab.Prelude.Result.{Result, ok, err, ◌>>=◌, ◌>>◌, refuse, guard}
use webmcp_security_lab.Prelude.Dict.{Dict, get, set, delete, discard}
use webmcp_security_lab.Prelude.Text.{trim, units}
use webmcp_security_lab.Prelude.Url.{UrlParser}
use webmcp_security_lab.Connector.Bridge.{
  BridgeError, no_allowed_origin, empty_pair_code, unreadable_url, only_http_origins, bad_pair_code,
  origin_mismatch, page_credentials, origin_not_allowed, bad_label, authentication_failed,
  session_not_found, revoked, shutting_down, InternalSession, PendingCommand, ClosedCommand,
  CommittingCommand, Settlement, rejected, Coordinator, PairedPageSummary, to_summary,
}

pub record PairPageInput : Type 0 where
  pub pair_code : String
  pub origin : String
  pub page_url : String
  pub client_label : String

pub record PairedPage : Type 0 where
  pub session_id : String
  pub bridge_token : String
  pub origin : String
  pub page_url : String
  pub paired_at : ℕ

abbrev of_option {ℓ} : {A : Type ℓ} → BridgeError → Option A → Result BridgeError A
of_option e none = err e
of_option e (some a) = ok a

module _ (parse_url : UrlParser) where
  unfoldable pub normalized_origin : String → Result BridgeError String
  normalized_origin value = do
    url ← of_option unreadable_url (parse_url value)
    guard (url.protocol == "http:" || url.protocol == "https:") only_http_origins
    ok url.origin

  -- `allowedOrigins.map(normalizedOrigin)`.
  unfoldable pub normalized_origins : List String → Result BridgeError (List String)
  normalized_origins [] = ok []
  normalized_origins (value ∷ values) = do
    origin ← normalized_origin value
    origins ← normalized_origins values
    ok (origin ∷ origins)

  -- `option` is the option `pairCode`, `generated` what `defaultPairCode` returns.
  unfoldable pub new_coordinator :
      (option : Option String) (generated : String) (allowed_origins : List String)
      (connected_window_ms : ℕ) (commits : Bool)
      → Result BridgeError Coordinator
  new_coordinator option generated allowed_origins connected_window_ms commits = do
    refuse (nat_beq (length allowed_origins) 0) no_allowed_origin
    code ← configured option
    origins ← normalized_origins allowed_origins
    ok (record {
      pair_code = code;
      allowed_origins = origins;
      connected_window_ms = connected_window_ms;
      commits = commits;
      sessions = [];
      pending = [];
      completed = [];
      committing = [];
      refused = [];
      next_serial = 0;
      settled = [];
    })
    where
      configured : Option String → Result BridgeError String
      configured none = ok generated
      configured (some code) = do refuse (nat_beq (units (trim code)) 0) empty_pair_code; ok code

  module _ (digest : String → String) where
    -- The checks of `pair`, and what it records: the origin, the page and the label.
    unfoldable pub check_pairing :
        PairPageInput → Coordinator → Result BridgeError (String × (String × String))
    check_pairing input c = do
      guard (digest input.pair_code == digest c.pair_code) bad_pair_code
      page ← of_option unreadable_url (parse_url input.page_url)
      origin ← normalized_origin input.origin
      guard (page.origin == origin) origin_mismatch
      guard (page.username == "") page_credentials
      guard (page.password == "") page_credentials
      guard (any (λ allowed. allowed == origin) c.allowed_origins) origin_not_allowed
      let label = trim input.client_label
      refuse (ltb (units label) 1 || ltb 80 (units label)) bad_label
      ok (origin, (page.bare, label))

    unfoldable pub pair :
        (now : ℕ) (session_id bridge_token next_pair_code : String) (input : PairPageInput)
        (c : Coordinator)
        → Coordinator × Result BridgeError PairedPage
    pair now session_id bridge_token next_pair_code input c = elim (check_pairing input c) [
      | err e ↦ (c, err e)
      | ok (origin, (page_url, label)) ↦ (
        record c {
          pair_code = next_pair_code;
          sessions =
              set session_id
                (record {
                  id = session_id;
                  bridge_token_hash = digest bridge_token;
                  origin = origin;
                  page_url = page_url;
                  client_label = label;
                  paired_at = now;
                  last_seen_at = now;
                  queue = [];
                  in_flight = none;
                  awaiting_acknowledgement = none;
                })
                c.sessions;
        },
        ok (record {
          session_id = session_id;
          bridge_token = bridge_token;
          origin = origin;
          page_url = page_url;
          paired_at = now;
        }),
      )
    ]

module _ (digest : String → String) where
  unfoldable pub check_token : String → Option InternalSession → Result BridgeError InternalSession
  check_token bridge_token none = err authentication_failed
  check_token bridge_token (some s) =
      if digest bridge_token == s.bridge_token_hash then ok s else err authentication_failed

  unfoldable pub authenticate :
      (session_id bridge_token : String) → Coordinator → Result BridgeError InternalSession
  authenticate session_id bridge_token c = check_token bridge_token (get session_id c.sessions)

  unfoldable pub heartbeat :
      (now later : ℕ) (session_id bridge_token : String) (c : Coordinator)
      → Coordinator × Result BridgeError PairedPageSummary
  heartbeat now later session_id bridge_token c = elim (authenticate session_id bridge_token c) [
    | err e ↦ (c, err e)
    | ok s ↦
        let s' : InternalSession = record s { last_seen_at = now } in
        (record c { sessions = set session_id s' c.sessions }, ok (to_summary later c s'))
  ]

-- The loop of `revoke` and of `dispose` that rejects the pending commands it selects.
unfoldable pub reject_all :
    (PendingCommand → Bool) → BridgeError → Dict PendingCommand → List Settlement → List Settlement
reject_all test reason [] log = log
reject_all test reason ((id, p) ∷ m) log =
    let s : Settlement = record { command_id = id; serial = p.serial; outcome = rejected reason } in
    reject_all test reason m (if test p then s ∷ log else log)

-- The commits that the loop of `revoke` deletes with them.
unfoldable pub delete_commits :
    (PendingCommand → Bool) → Dict PendingCommand → Dict CommittingCommand → Dict CommittingCommand
delete_commits test [] m = m
delete_commits test ((id, p) ∷ ps) m = delete_commits test ps (if test p then delete id m else m)

abbrev pub belongs_to : String → PendingCommand → Bool
belongs_to session_id p = p.session_id == session_id

abbrev pub closed_for : String → ClosedCommand → Bool
closed_for session_id closed = closed.session_id == session_id

-- What `revoke` does once the session is authenticated.
unfoldable pub end_session : String → Coordinator → Coordinator
end_session session_id c = record c {
  sessions = delete session_id c.sessions;
  pending = discard (belongs_to session_id) c.pending;
  committing = delete_commits (belongs_to session_id) c.pending c.committing;
  settled = reject_all (belongs_to session_id) revoked c.pending c.settled;
  completed = discard (closed_for session_id) c.completed;
  refused = discard (closed_for session_id) c.refused;
}

unfoldable pub revoke :
    (digest : String → String) (now : ℕ) (session_id bridge_token : String) (c : Coordinator)
    → Coordinator × Result BridgeError PairedPageSummary
unfolding end_session
revoke digest now session_id bridge_token c = elim (authenticate digest session_id bridge_token c) [
  | err e ↦ (c, err e)
  | ok s ↦ (end_session session_id c, ok (to_summary now c s))
]

unfoldable pub dispose : Coordinator → Coordinator
dispose c = record c {
  sessions = [];
  pending = [];
  completed = [];
  committing = [];
  refused = [];
  settled = reject_all (λ p. true) shutting_down c.pending c.settled;
}

unfoldable pub get_paired_page : ℕ → String → Coordinator → Result BridgeError PairedPageSummary
get_paired_page now session_id c = elim (get session_id c.sessions) [
  | none ↦ err session_not_found
  | some s ↦ ok (to_summary now c s)
]
