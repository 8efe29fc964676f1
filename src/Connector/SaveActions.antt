-- ===== src/Connector/SaveActions.antt =====
-- products/connector/issue-review.ts, `IssueSaveActionManager`: the one-use tokens by which a local
-- form saves an issue. Each call takes the readings of the clock that it makes, in order, and the
-- secret that the generator returns. SHA-256 is a parameter, and the source of an issue is any
-- type.
pub mod OneUse
use webmcp_security_lab.Prelude.{
  ℕ, ◌+◌, Bool, true, false, not, ◌&&◌, ◌||◌, Option, none, some, String, [], ltb, leb,
  if◌then◌else◌, ◌==◌, string_eq,
}
use webmcp_security_lab.Prelude.Result.{Result, ok, err, ◌>>=◌, ◌>>◌, refuse}
use webmcp_security_lab.Prelude.Dict.{Dict, get, set, delete, discard, evict}
use webmcp_security_lab.Prelude.Text.{units}

pub data SaveError : Type 0 where
  bad_ttl unbounded_scope invalid_action : SaveError

pub record SaveAction (S : Type 0) : Type 0 where
  pub expires_at_ms : ℕ
  pub scope : String
  pub source : S

pub record SaveManager (S : Type 0) : Type 0 where
  pub ttl_ms : ℕ
  pub actions : Dict (SaveAction S)

unfoldable pub bounded_scope : String → Result SaveError String
bounded_scope value =
    if ltb (units value) 1 || ltb 256 (units value) then err unbounded_scope else ok value

module _ {S : Type 0} where
  unfoldable pub new_save_manager : ℕ → Result SaveError (SaveManager S)
  new_save_manager ttl_ms = do
    refuse (ltb ttl_ms 1000 || ltb 600000 ttl_ms) bad_ttl
    ok (record { ttl_ms = ttl_ms; actions = [] })

  abbrev pub action_expired : ℕ → SaveAction S → Bool
  action_expired now action = leb action.expires_at_ms now

  unfoldable pub drop_expired : ℕ → SaveManager S → SaveManager S
  drop_expired now m = record m { actions = discard (action_expired now) m.actions }

  -- What `consume` does with the action that it took out.
  unfoldable pub match_action : ℕ → Option (SaveAction S) → String → Result SaveError S
  match_action later none scope = err invalid_action
  match_action later (some action) scope =
      if action_expired later action || not (action.scope == scope)
      then err invalid_action
      else ok action.source

  module _ (digest : String → String) where
    unfoldable pub issue_action :
        (now later : ℕ) (secret scope : String) (source : S) (m : SaveManager S)
        → SaveManager S × Result SaveError String
    unfolding drop_expired
    issue_action now later secret scope source m =
        let swept = drop_expired now m in
        let limited = evict 64 swept.actions in
        elim (bounded_scope scope) [
          | err e ↦ (record swept { actions = limited }, err e)
          | ok scope ↦ (
            record swept {
              actions =
                  set (digest secret)
                    (record { expires_at_ms = later + m.ttl_ms; scope = scope; source = source })
                    limited;
            },
            ok secret,
          )
        ]

    unfoldable pub consume_action :
        (now later : ℕ) (token scope : String) (m : SaveManager S)
        → SaveManager S × Result SaveError S
    unfolding drop_expired match_action
    consume_action now later token scope m =
        let swept = drop_expired now m in
        (
          record swept { actions = delete (digest token) swept.actions },
          (do
            bounded ← bounded_scope scope
            match_action later (get (digest token) swept.actions) bounded),
        )

  unfoldable pub revoke_scope : String → SaveManager S → SaveManager S × Result SaveError (Unit {0})
  revoke_scope value m = elim (bounded_scope value) [
    | err e ↦ (m, err e)
    | ok scope ↦ (record m { actions = discard (λ action. action.scope == scope) m.actions }, ok tt)
  ]

  unfoldable pub dispose_actions : SaveManager S → SaveManager S
  dispose_actions m = record m { actions = [] }
