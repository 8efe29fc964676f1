-- ===== src/Connector/Bridge/History.antt =====
-- Every resolved promise goes back to a call of `complete` in the history.
use webmcp_security_lab.Prelude.{
  ℕ, ◌≡◌, refl, ◌⊎◌, Bool, false, String, List, [], ◌∷◌, All, Bool-cases, Option-cases, inl, inr,
  string_eq,
}
use webmcp_security_lab.Prelude.Result.{Result-cases}
use webmcp_security_lab.Prelude.Dict.{get, Each-set, Each-get}
use webmcp_security_lab.Prelude.Url.{UrlParser}
use webmcp_security_lab.Connector.Bridge.{BridgeCommandResult, Coordinator}
use webmcp_security_lab.Connector.Bridge.Sessions.{
  PairPageInput, check_pairing, pair, authenticate, heartbeat,
}
use webmcp_security_lab.Connector.Bridge.Delivery.{request_inspection, request_approved_invocation}
use webmcp_security_lab.Connector.Bridge.Commit.{end_waiter}
use webmcp_security_lab.Connector.Bridge.Trace.{
  Event, pairs, heartbeats, polls, completes, revokes, inspects, invokes, timer_fires, waiter_ends,
  attempt_ends, disposes, step, run,
}
use webmcp_security_lab.Connector.Bridge.Vouching.{
  Holds, IsVouched, same-IsVouched, poll-IsVouched, enqueue-IsVouched, fire_timer-IsVouched,
  revoke-IsVouched, dispose-IsVouched,
}
use webmcp_security_lab.Connector.Bridge.Provenance.{settle_attempt-IsVouched}
use webmcp_security_lab.Connector.Bridge.Accepted.{IsBoundTo, complete-IsVouched}

module _ (parse_url : UrlParser) (digest : String → String)
    (canonical_json : BridgeCommandResult → String) (is_approved : String → Bool) where
  -- The event is a call of `complete` with this result, by an authenticated session that has the
  -- result's command in flight and to which the result is bound.
  abbrev pub Delivers : BridgeCommandResult → Coordinator → Event → Type 0
  Delivers r c (completes now session_id token result) =
      (result ≡ r) × IsBoundTo digest session_id token r c
  Delivers r c _ = ⊥

  -- Some event of the history is.
  unfoldable pub WasDelivered : BridgeCommandResult → Coordinator → List Event → Type 0
  WasDelivered r c [] = ⊥
  WasDelivered r c (e ∷ events) =
      Delivers r c e ⊎ WasDelivered r (step parse_url digest canonical_json is_approved c e) events

  module _ (P : BridgeCommandResult → Type 0) where
    pair-IsVouched :
        (now : ℕ) (session_id token next : String) (input : PairPageInput) (c : Coordinator)
        → IsVouched P c
        → IsVouched P (pair parse_url digest now session_id token next input c).0
    unfolding pair
    pair-IsVouched now session_id token next input c v =
        elim (Result-cases (check_pairing parse_url digest input c)) [
          | inl (e, failed) ↦ rw (failed, pair) v
          | inr ((origin, (page, label)), valid) ↦
              rw (valid, pair) (same-IsVouched P c _ refl refl v)
        ]

    heartbeat-IsVouched :
        (now : ℕ) (session_id token : String) (c : Coordinator)
        → IsVouched P c
        → IsVouched P (heartbeat digest now now session_id token c).0
    unfolding heartbeat
    heartbeat-IsVouched now session_id token c v =
        elim (Result-cases (authenticate digest session_id token c)) [
          | inl (e, failed) ↦ rw (failed, heartbeat) v
          | inr (s, found) ↦ rw (found, heartbeat) (same-IsVouched P c _ refl refl v)
        ]

    end_waiter-IsVouched :
        (id : String) (c : Coordinator) → IsVouched P c → IsVouched P (end_waiter id c)
    unfolding end_waiter
    end_waiter-IsVouched id c v = elim (Option-cases (get id c.committing)) [
      | inl missing ↦ rw (missing, end_waiter) v
      | inr (m, found) ↦
          let vouched = Each-get (λ x. P x.result) id c.committing m v.commits found in
          rw (found, end_waiter)
            (record {
              commits =
                  Each-set (λ x. P x.result) id (record m { waiter = false }) c.committing vouched
                    v.commits;
              outcomes = v.outcomes;
            })
    ]

    step-IsVouched :
        (c : Coordinator) (e : Event)
        → ((r : BridgeCommandResult) → Delivers r c e → P r)
        → IsVouched P c
        → IsVouched P (step parse_url digest canonical_json is_approved c e)
    unfolding step request_inspection request_approved_invocation
    step-IsVouched c (pairs now session_id token next input) vouch v =
        pair-IsVouched now session_id token next input c v
    step-IsVouched c (heartbeats now session_id token) vouch v =
        heartbeat-IsVouched now session_id token c v
    step-IsVouched c (polls now session_id token) vouch v =
        poll-IsVouched P digest now session_id token c v
    step-IsVouched c (completes now session_id token result) vouch v =
        complete-IsVouched canonical_json P digest now session_id token result c
          (λ bound. vouch result (refl, bound)) v
    step-IsVouched c (revokes now session_id token) vouch v =
        revoke-IsVouched P digest now session_id token c v
    step-IsVouched c (inspects issued now id session_id) vouch v =
        enqueue-IsVouched P now session_id _ c v
    step-IsVouched c (invokes issued now id session_id tool_name) vouch v =
        elim (Bool-cases (is_approved tool_name)) [
          | inl approved ↦
              rw (approved, step, request_approved_invocation)
                (enqueue-IsVouched P now session_id _ c v)
          | inr other ↦ rw (other, step, request_approved_invocation) v
        ]
    step-IsVouched c (timer_fires id) vouch v = fire_timer-IsVouched P id c v
    step-IsVouched c (waiter_ends id) vouch v = end_waiter-IsVouched id c v
    step-IsVouched c (attempt_ends now id serial outcome) vouch v =
        settle_attempt-IsVouched P now id serial outcome c v
    step-IsVouched c disposes vouch v = dispose-IsVouched P c v

    run-IsVouched :
        (c : Coordinator) (events : List Event)
        → ((r : BridgeCommandResult) → WasDelivered r c events → P r)
        → IsVouched P c
        → IsVouched P (run parse_url digest canonical_json is_approved c events)
    unfolding run WasDelivered
    run-IsVouched c [] vouch v = v
    run-IsVouched c (e ∷ events) vouch v =
        run-IsVouched (step parse_url digest canonical_json is_approved c e) events
          (λ r later. vouch r (inr later)) (step-IsVouched c e (λ r now. vouch r (inl now)) v)

  -- From a coordinator with no commit under way and no settled promise, as a new one is: the result
  -- of every promise that is resolved, over any history of calls, timers and ends of commits, was
  -- sent in a call of `complete` by an authenticated session which had the command in flight and to
  -- whose origin, page and command the result was bound.
  pub resolved-WasDelivered :
      (c : Coordinator) (events : List Event)
      → c.committing ≡ []
      → c.settled ≡ []
      → All
          (λ s. Holds (λ r. WasDelivered r c events) s.outcome)
          (run parse_url digest canonical_json is_approved c events).settled
  resolved-WasDelivered c events idle blank =
      (run-IsVouched (λ r. WasDelivered r c events) c events (λ r delivered. delivered)
        (record { commits = rw idle tt; outcomes = rw blank tt })).outcomes
