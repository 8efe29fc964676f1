-- ===== src/Connector/Access/Scope.antt =====
-- What a launch ticket and its session give access to.
use webmcp_security_lab.Prelude.{
  ℕ, ◌+◌, ◌≤◌, ◌<◌, ◌≡◌, ◌≢◌, refl, ap, sym, subst, ◌∙◌, ◌↔◌, true, false, Option, none, some,
  String, arith, eq_iff, eq_refl, any, option_beq, Bool-cases, inl, inr, ◌==◌, string_eq,
}
use webmcp_security_lab.Prelude.Result.{ok, err}
use webmcp_security_lab.Prelude.Dict.{
  Dict, get, delete, discard, evict, get-set_self, get-delete_self, get-discard_keep,
  get-discard-none, Each, Each-get, discard-Each, Each-discard,
}
use webmcp_security_lab.Connector.Access.{
  LocalPageTarget, setup, receipts, issues_preview, LaunchTicket, ReportSession, AccessManager,
  OpenedSession, invalid_ticket, allowed, targets_for, same_target, cleanup, ticket_expired,
  session_expired, consume, open_session, decide, authorize, revoke_binding,
}

-- A page opens itself and the pages below it.
abbrev pub rank : LocalPageTarget → ℕ
rank setup = 2
rank receipts = 1
rank issues_preview = 0

targets_for-rank :
    (from to : LocalPageTarget)
    → (any (same_target to) (targets_for from) ≡ true) ↔ (rank to ≤ rank from)
unfolding targets_for
targets_for-rank setup setup = ((λ h. omega arith), (λ h. refl))
targets_for-rank setup receipts = ((λ h. omega arith), (λ h. refl))
targets_for-rank setup issues_preview = ((λ h. omega arith), (λ h. refl))
targets_for-rank receipts setup = ((λ h. absurd (cc)), (λ h. absurd (omega arith)))
targets_for-rank receipts receipts = ((λ h. omega arith), (λ h. refl))
targets_for-rank receipts issues_preview = ((λ h. omega arith), (λ h. refl))
targets_for-rank issues_preview setup = ((λ h. absurd (cc)), (λ h. absurd (omega arith)))
targets_for-rank issues_preview receipts = ((λ h. absurd (cc)), (λ h. absurd (omega arith)))
targets_for-rank issues_preview issues_preview = ((λ h. omega arith), (λ h. refl))

abbrev session_of : ℕ → LaunchTicket → ReportSession
session_of expires t = record {
  expires_at_ms = expires;
  allowed_targets = targets_for t.target;
  binding = t.binding;
}

decide_allowed :
    (checked : ℕ) (to : LocalPageTarget) (session : ReportSession) (b : Option String)
    → decide checked to (some session) ≡ allowed b
    → decide checked to (some session) ≡ allowed session.binding
unfolding decide
decide_allowed checked to session b h = ground arith

decide-session_of :
    (checked expires : ℕ) (from : LaunchTicket) (to : LocalPageTarget)
    → checked < expires
    → (decide checked to (some (session_of expires from)) ≡ allowed from.binding)
      ↔ (rank to ≤ rank from.target)
unfolding decide
decide-session_of checked expires from to early = (
  (λ h. (targets_for-rank from.target to).0 (ground arith)),
  (λ h. let reached = (targets_for-rank from.target to).1 h in rw reached (ground arith)),
)

module _ (digest : String → String) where
  open_session-tickets :
      (checked opened : ℕ) (secret : String) (t : Option LaunchTicket) (m : AccessManager)
      → (open_session digest checked opened secret t m).0.tickets ≡ m.tickets
  unfolding open_session
  open_session-tickets checked opened secret none m = refl
  open_session-tickets checked opened secret (some t) m = ground arith

  open_session_ok :
      (checked opened : ℕ) (secret : String) (o : Option LaunchTicket) (m : AccessManager)
      (s : OpenedSession)
      → (open_session digest checked opened secret o m).1 ≡ ok s
      → (t : LaunchTicket) × (o ≡ some t)
        × (checked < t.expires_at_ms)
        × (s.target ≡ t.target)
        × (s.session_token ≡ secret)
        × (get (digest secret) (open_session digest checked opened secret o m).0.sessions
            ≡ some (session_of (opened + m.session_ttl_ms) t))
  unfolding open_session
  open_session_ok checked opened secret none m s h = absurd (cc)
  open_session_ok checked opened secret (some t) m s h =
      elim (Bool-cases (ticket_expired checked t)) [
        | inl late ↦ absurd (ground arith)
        | inr early ↦ (
          t,
          refl,
          ground arith,
          ground arith,
          ground arith,
          rw (early, open_session)
              (get-set_self (digest secret) (session_of (opened + m.session_ttl_ms) t)
                (evict 32 m.sessions)),
        )
      ]

  consume_missing :
      (now checked opened : ℕ) (secret ticket : String) (m : AccessManager)
      → get (digest ticket) m.tickets ≡ none
      → (consume digest now checked opened secret ticket m).1 ≡ err invalid_ticket
  unfolding consume cleanup open_session
  consume_missing now checked opened secret ticket m h =
      rw (get-discard-none (ticket_expired now) (digest ticket) m.tickets h)

  consume_spent :
      (now checked opened : ℕ) (secret ticket : String) (m : AccessManager)
      → get (digest ticket) (consume digest now checked opened secret ticket m).0.tickets ≡ none
  unfolding consume cleanup
  consume_spent now checked opened secret ticket m =
      let swept = cleanup now m in
      ap (get (digest ticket)) (
        open_session-tickets checked opened secret (get (digest ticket) swept.tickets)
          (record swept { tickets = delete (digest ticket) swept.tickets }))
      ∙ get-delete_self (digest ticket) swept.tickets

  -- A ticket opens at most one session: the second use of a ticket is refused, at any times and with
  -- any secrets.
  pub consume_twice :
      (now checked opened now' checked' opened' : ℕ) (secret secret' ticket : String)
      (m : AccessManager)
      → (consume digest now' checked' opened' secret' ticket
          (consume digest now checked opened secret ticket m).0).1
        ≡ err invalid_ticket
  consume_twice now checked opened now' checked' opened' secret secret' ticket m =
      consume_missing now' checked' opened' secret' ticket _
        (consume_spent now checked opened secret ticket m)

  module _ (now checked opened : ℕ) (secret ticket : String) (m : AccessManager)
      (s : OpenedSession) where
    consumed_lem :
        (consume digest now checked opened secret ticket m).1 ≡ ok s
        → (t : LaunchTicket) × (s.target ≡ t.target)
          × (s.session_token ≡ secret)
          × (get (digest secret) (consume digest now checked opened secret ticket m).0.sessions
              ≡ some (session_of (opened + m.session_ttl_ms) t))
    unfolding consume cleanup
    consumed_lem h =
        let swept = cleanup now m in
        let (t, found, early, same, token, stored) =
          open_session_ok checked opened secret (get (digest ticket) swept.tickets)
            (record swept { tickets = delete (digest ticket) swept.tickets }) s h in
        (t, same, token, stored)

    authorize_found :
        (now' checked' : ℕ) (to : LocalPageTarget) (m' : AccessManager) (session : ReportSession)
        → s.session_token ≢ ""
        → get (digest s.session_token) m'.sessions ≡ some session
        → now' < session.expires_at_ms
        → (authorize digest now' checked' s.session_token to m').1
          ≡ decide checked' to (some session)
    unfolding authorize cleanup
    authorize_found now' checked' to m' session named found early =
        let kept =
          get-discard_keep (session_expired now') (digest s.session_token) m'.sessions session found
            (ground arith) in
        let real : (s.session_token == "") ≡ false = ground (arith, eq_iff s.session_token "") in
        rw (real, kept)

    -- While a session lasts, its token opens exactly the pages at or below the one that the launch
    -- ticket was made for: setup opens all three, receipts itself and the issue preview, and the
    -- issue preview itself alone. The empty text is not taken for a session token.
    pub consume-authorize :
        (now' checked' : ℕ) (to : LocalPageTarget)
        → (consume digest now checked opened secret ticket m).1 ≡ ok s
        → s.session_token ≢ ""
        → now' < opened + m.session_ttl_ms
        → checked' < opened + m.session_ttl_ms
        → ((binding : Option String) × ((authorize digest now' checked' s.session_token to
                (consume digest now checked opened secret ticket m).0).1
              ≡ allowed binding))
          ↔ (rank to ≤ rank s.target)
    consume-authorize now' checked' to h named early early' =
        let (t, same, token, stored) = consumed_lem h in
        let found =
          subst
            (λ k.
              get (digest k) (consume digest now checked opened secret ticket m).0.sessions
              ≡ some (session_of (opened + m.session_ttl_ms) t))
            (sym token) stored in
        let e =
          authorize_found now' checked' to _ (session_of (opened + m.session_ttl_ms) t) named found
            early in
        let (there, back) = decide-session_of checked' (opened + m.session_ttl_ms) t to early' in
        (
          (λ a.
              subst (λ x. rank to ≤ rank x) (sym same)
                (there (decide_allowed checked' to _ a.0 (sym e ∙ a.1)))),
          (λ below. (t.binding, e ∙ back (subst (λ x. rank to ≤ rank x) same below))),
        )

  -- After a binding is revoked no session token, for any page and at any time, is authorized with it.
  pub revoke-authorize :
      (now checked : ℕ) (token binding : String) (target : LocalPageTarget) (m : AccessManager)
      → (authorize digest now checked token target (revoke_binding binding m)).1
        ≢ allowed (some binding)
  unfolding authorize revoke_binding cleanup
  revoke-authorize now checked token binding target m = elim (Bool-cases (token == "")) [
    | inl empty ↦ rw empty (λ h. cc)
    | inr named ↦ rw named (decided _ (kept_lem _ refl))
  ]
    where
      kept : Dict ReportSession
      kept =
          discard (session_expired now)
            (discard (λ session. option_beq session.binding (some binding)) m.sessions)

      Foreign : ReportSession → Type 0
      Foreign session = option_beq session.binding (some binding) ≡ false

      all_foreign : Each Foreign kept
      all_foreign = Each-discard Foreign (session_expired now) _ (discard-Each _ m.sessions)

      kept_lem :
          (o : Option ReportSession)
          → get (digest token) kept ≡ o
          → (s : ReportSession) → o ≡ some s
          → Foreign s
      kept_lem o e s found = Each-get Foreign (digest token) kept s all_foreign (e ∙ found)

      decided :
          (o : Option ReportSession)
          → ((s : ReportSession) → o ≡ some s → Foreign s)
          → decide checked target o ≢ allowed (some binding)
      decided none foreign h = cc
      decided (some s) foreign h = ground (arith, foreign s refl, eq_refl binding)
