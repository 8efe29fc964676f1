-- ===== src/Connector/Access.antt =====
-- products/connector/report-access.ts: launch tickets for the connector's local pages, and the
-- sessions that they open. Each call takes the readings of the clock that it makes, in order, and
-- the secret that the generator returns. SHA-256 is a parameter.
pub mod Scope
pub mod Capacity
use webmcp_security_lab.Prelude.{
  ℕ, ◌+◌, ◌/◌, Bool, true, false, not, ◌&&◌, ◌||◌, Option, none, some, String, List, [], ◌∷◌, ltb,
  leb, any, if◌then◌else◌, ◌==◌, string_eq, option_beq,
}
use webmcp_security_lab.Prelude.Result.{Result, ok, err, ◌>>=◌, ◌>>◌, refuse}
use webmcp_security_lab.Prelude.Dict.{Dict, get, set, delete, discard, evict}
use webmcp_security_lab.Prelude.Dates.{DateText, to_iso}

pub data LocalPageTarget : Type 0 where
  setup receipts issues_preview : LocalPageTarget

pub record LaunchTicket : Type 0 where
  pub expires_at_ms : ℕ
  pub target : LocalPageTarget
  pub binding : Option String

pub record ReportSession : Type 0 where
  pub expires_at_ms : ℕ
  pub allowed_targets : List LocalPageTarget
  pub binding : Option String

pub data AccessError : Type 0 where
  bad_ticket_ttl bad_session_ttl invalid_ticket : AccessError

pub record AccessManager : Type 0 where
  pub ticket_ttl_ms : ℕ
  pub session_ttl_ms : ℕ
  pub tickets : Dict LaunchTicket
  pub sessions : Dict ReportSession

pub record IssuedTicket : Type 0 where
  pub ticket : String
  pub target : LocalPageTarget
  pub expires_at : DateText

pub record OpenedSession : Type 0 where
  pub session_token : String
  pub target : LocalPageTarget
  pub expires_at : DateText
  pub max_age_seconds : ℕ

unfoldable pub new_manager : ℕ → ℕ → Result AccessError AccessManager
new_manager ticket_ttl_ms session_ttl_ms = do
  refuse (ltb ticket_ttl_ms 1000 || ltb 300000 ticket_ttl_ms) bad_ticket_ttl
  refuse (ltb session_ttl_ms 60000 || ltb 3600000 session_ttl_ms) bad_session_ttl
  ok (record {
    ticket_ttl_ms = ticket_ttl_ms;
    session_ttl_ms = session_ttl_ms;
    tickets = [];
    sessions = [];
  })

abbrev pub ticket_expired : ℕ → LaunchTicket → Bool
ticket_expired now ticket = leb ticket.expires_at_ms now

abbrev pub session_expired : ℕ → ReportSession → Bool
session_expired now session = leb session.expires_at_ms now

unfoldable pub cleanup : ℕ → AccessManager → AccessManager
cleanup now m = record m {
  tickets = discard (ticket_expired now) m.tickets;
  sessions = discard (session_expired now) m.sessions;
}

-- `...(binding ? { binding } : {})`: an empty text is left out.
abbrev pub given : Option String → Option String
given none = none
given (some b) = if b == "" then none else some b

-- The targets that a ticket's session may open.
unfoldable pub targets_for : LocalPageTarget → List LocalPageTarget
targets_for setup = setup ∷ receipts ∷ issues_preview ∷ []
targets_for receipts = receipts ∷ issues_preview ∷ []
targets_for issues_preview = issues_preview ∷ []

abbrev pub same_target : LocalPageTarget → LocalPageTarget → Bool
same_target setup setup = true
same_target receipts receipts = true
same_target issues_preview issues_preview = true
same_target _ _ = false

-- A result of `authorize`: `undefined`, or an object that carries the binding.
pub data Authorization : Type 0 where
  denied : Authorization
  allowed : (binding : Option String) → Authorization

-- The answer for the session found under the token's digest.
unfoldable pub decide : ℕ → LocalPageTarget → Option ReportSession → Authorization
decide checked target none = denied
decide checked target (some session) =
    if ltb checked session.expires_at_ms && any (same_target target) session.allowed_targets
    then allowed session.binding
    else denied

module _ (digest : String → String) where
  unfoldable pub issue :
      (now later : ℕ) (secret : String) (target : LocalPageTarget) (binding : Option String)
      (m : AccessManager)
      → AccessManager × IssuedTicket
  unfolding cleanup
  issue now later secret target binding m =
      let swept = cleanup now m in
      let expires = later + m.ticket_ttl_ms in
      let ticket : LaunchTicket = record {
        expires_at_ms = expires;
        target = target;
        binding = given binding;
      } in
      (
        record swept { tickets = set (digest secret) ticket (evict 32 swept.tickets) },
        record { ticket = secret; target = target; expires_at = to_iso expires },
      )

  -- `checked` is read for the ticket's expiry, `opened` for the session's.
  unfoldable pub open_session :
      (checked opened : ℕ) (secret : String)
      → Option LaunchTicket
      → AccessManager
      → AccessManager × Result AccessError OpenedSession
  unfolding targets_for
  open_session checked opened secret none m = (m, err invalid_ticket)
  open_session checked opened secret (some ticket) m =
      let expires = opened + m.session_ttl_ms in
      let session : ReportSession = record {
        expires_at_ms = expires;
        allowed_targets = targets_for ticket.target;
        binding = ticket.binding;
      } in
      if ticket_expired checked ticket then (m, err invalid_ticket) else (
        record m { sessions = set (digest secret) session (evict 32 m.sessions) },
        ok (record {
          session_token = secret;
          target = ticket.target;
          expires_at = to_iso expires;
          max_age_seconds = m.session_ttl_ms / 1000;
        }),
      )

  unfoldable pub consume :
      (now checked opened : ℕ) (secret ticket : String) (m : AccessManager)
      → AccessManager × Result AccessError OpenedSession
  unfolding cleanup open_session
  consume now checked opened secret ticket m =
      let swept = cleanup now m in
      open_session checked opened secret (get (digest ticket) swept.tickets)
        (record swept { tickets = delete (digest ticket) swept.tickets })

  unfoldable pub authorize :
      (now checked : ℕ) (session_token : String) (target : LocalPageTarget) (m : AccessManager)
      → AccessManager × Authorization
  unfolding cleanup decide
  authorize now checked session_token target m =
      let swept = cleanup now m in
      (
        swept,
        if session_token == ""
            then denied
            else decide checked target (get (digest session_token) swept.sessions),
      )

unfoldable pub revoke_binding : String → AccessManager → AccessManager
revoke_binding binding m = record m {
  tickets = discard (λ ticket. option_beq ticket.binding (some binding)) m.tickets;
  sessions = discard (λ session. option_beq session.binding (some binding)) m.sessions;
}

unfoldable pub dispose : AccessManager → AccessManager
dispose m = record m { tickets = []; sessions = [] }
