-- ===== src/Connector/SaveActions/OneUse.antt =====
-- A save action is used once, in the scope that it was made for.
use webmcp_security_lab.Prelude.{
  ℕ, ◌+◌, ◌<◌, ◌≡◌, ◌≢◌, ◌↔◌, sym, ap, ◌∙◌, not, ◌||◌, Option, none, some, String, arith,
  Bool-cases, inl, inr, eq_iff, eq_refl, ◌==◌, string_eq,
}
use webmcp_security_lab.Prelude.Result.{ok, ◌>>=◌, >>=-eq-ok, ok-injective, Result-cases}
use webmcp_security_lab.Prelude.Dict.{
  get, evict, get-set_self, get-delete_self, get-discard_keep, get-discard-none,
}
use webmcp_security_lab.Connector.SaveActions.{
  SaveAction, SaveManager, bounded_scope, action_expired, drop_expired, match_action, issue_action,
  consume_action,
}

bounded_scope-eq : (value scope : String) → bounded_scope value ≡ ok scope → value ≡ scope
unfolding bounded_scope
bounded_scope-eq value scope h = ground arith

module _ {S : Type 0} where
  match_action_ok :
      (later : ℕ) (action : SaveAction S) (scope : String) (x : S)
      → match_action later (some action) scope ≡ ok x
      → (scope ≡ action.scope) × (x ≡ action.source)
  unfolding match_action
  match_action_ok later action scope x h =
      elim (Bool-cases (action_expired later action || not (action.scope == scope))) [
        | inl wrong ↦ absurd (ground arith)
        | inr right ↦ (
          sym ((eq_iff action.scope scope).0 (ground arith)),
          sym (ok-injective (rw (right, match_action) at h)),
        )
      ]

  match_action_fresh :
      (later : ℕ) (action : SaveAction S)
      → later < action.expires_at_ms
      → match_action later (some action) action.scope ≡ ok action.source
  unfolding match_action
  match_action_fresh later action early = ground (arith, eq_refl action.scope)

  match_action-none :
      (later : ℕ) (o : Option (SaveAction S)) (scope : String) (x : S)
      → o ≡ none
      → match_action later o scope ≢ ok x
  unfolding match_action
  match_action-none later none scope x e h = cc
  match_action-none later (some action) scope x e h = cc

  module _ (digest : String → String) where
    consume_action_spent :
        (now later : ℕ) (token scope : String) (m : SaveManager S)
        → get (digest token) (consume_action digest now later token scope m).0.actions ≡ none
    unfolding consume_action drop_expired
    consume_action_spent now later token scope m =
        get-delete_self (digest token) (drop_expired now m).actions

    consume_action_missing :
        (now later : ℕ) (token scope : String) (m : SaveManager S) (x : S)
        → get (digest token) m.actions ≡ none
        → (consume_action digest now later token scope m).1 ≢ ok x
    unfolding consume_action drop_expired
    consume_action_missing now later token scope m x gone h =
        let (bounded, e, rest) = >>=-eq-ok (bounded_scope scope) _ h in
        match_action-none later _ bounded x
          (get-discard-none (action_expired now) (digest token) m.actions gone) rest

    -- A save action is used up by the first call that names it, also by one that is refused for its
    -- scope or its time: no later call with the same token succeeds.
    pub consume_action_twice :
        (now later now' later' : ℕ) (token scope scope' : String) (m : SaveManager S) (x : S)
        → (consume_action digest now' later' token scope'
            (consume_action digest now later token scope m).0).1
          ≢ ok x
    consume_action_twice now later now' later' token scope scope' m x =
        consume_action_missing now' later' token scope' _ x
          (consume_action_spent now later token scope m)

    issued_action :
        (now later : ℕ) (secret scope token : String) (source : S) (m : SaveManager S)
        → (issue_action digest now later secret scope source m).1 ≡ ok token
        → (bounded_scope scope ≡ ok scope)
          × (token ≡ secret)
          × (get (digest secret) (issue_action digest now later secret scope source m).0.actions
              ≡ some (record { expires_at_ms = later + m.ttl_ms; scope = scope; source = source }))
    unfolding issue_action drop_expired
    issued_action now later secret scope token source m h =
        elim (Result-cases (bounded_scope scope)) [
          | inl (e, failed) ↦ absurd (cc (rw (failed, issue_action) at h))
          | inr (s, bounded) ↦
              let same = bounded_scope-eq scope s bounded in
              (
                bounded ∙ ap ok (sym same),
                sym (ok-injective (rw (bounded, issue_action) at h)),
                rw (bounded, issue_action)
                    (get-set_self (digest secret) _ (evict 64 (drop_expired now m).actions)
                      ∙ ap
                          (λ x. some (record {
                            expires_at_ms = later + m.ttl_ms;
                            scope = x;
                            source = source;
                          }))
                          (sym same)),
              )
        ]

    consume_action_found :
        (now later : ℕ) (token scope : String) (m : SaveManager S) (action : SaveAction S)
        → get (digest token) m.actions ≡ some action
        → now < action.expires_at_ms
        → (consume_action digest now later token scope m).1
          ≡ (bounded_scope scope >>= λ bounded. match_action later (some action) bounded)
    unfolding consume_action drop_expired
    consume_action_found now later token scope m action found early =
        ap (λ o. bounded_scope scope >>= λ bounded. match_action later o bounded)
          (get-discard_keep (action_expired now) (digest token) m.actions action found
            (ground arith))

    -- While a save action lasts, its token gives the issue's source back in the scope that it was
    -- made for, and in no other.
    pub consume-issue_action :
        (now later now' later' : ℕ) (secret scope scope' token : String) (source : S)
        (m : SaveManager S)
        → (issue_action digest now later secret scope source m).1 ≡ ok token
        → now' < later + m.ttl_ms
        → later' < later + m.ttl_ms
        → let r =
            (consume_action digest now' later' token scope'
              (issue_action digest now later secret scope source m).0).1 in
          ((r ≡ ok source) ↔ (scope' ≡ scope)) × (((x : S) × (r ≡ ok x)) ↔ (scope' ≡ scope))
    consume-issue_action now later now' later' secret scope scope' token source m h early early' =
        let (bounded, same, stored) = issued_action now later secret scope token source m h in
        let action : SaveAction S = record {
          expires_at_ms = later + m.ttl_ms;
          scope = scope;
          source = source;
        } in
        let found =
          ap (λ k. get (digest k) (issue_action digest now later secret scope source m).0.actions)
            same
          ∙ stored in
        let e = consume_action_found now' later' token scope' _ action found early in
        let given : (scope' ≡ scope)
            → (consume_action digest now' later' token scope'
                (issue_action digest now later secret scope source m).0).1
              ≡ ok source =
          λ mine.
            e
            ∙ ap (λ k. bounded_scope k >>= λ b. match_action later' (some action) b) mine
            ∙ ap (λ r. r >>= λ b. match_action later' (some action) b) bounded
            ∙ match_action_fresh later' action early' in
        (
          ((λ r. within source (sym e ∙ r)), given),
          ((λ (x, r). within x (sym e ∙ r)), (λ mine. (source, given mine))),
        )
      where
        within :
            (x : S)
            → (bounded_scope scope' >>= λ bounded.
                match_action later'
                  (some
                    (record { expires_at_ms = later + m.ttl_ms; scope = scope; source = source }))
                  bounded)
              ≡ ok x
            → scope' ≡ scope
        within x r =
            let (b, inside, matched) = >>=-eq-ok (bounded_scope scope') _ r in
            let (there, what) = match_action_ok later' _ b x matched in
            bounded_scope-eq scope' b inside ∙ there
