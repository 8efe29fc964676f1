-- ===== src/Connector/Challenges/OneUse.antt =====
-- A challenge is consumed at most once for each time that it was issued, over any history of calls.
use webmcp_security_lab.Prelude.{
  ℕ, ◌+◌, ◌≤◌, ◌≡◌, ap, subst, inl, inr, Bool, true, false, Option, none, some, String, List, [],
  ◌∷◌, arith, eq_iff, eq_refl, if◌then◌else◌, ◌==◌, string_eq, Bool-cases, Option-cases,
}
use webmcp_security_lab.Prelude.Result.{Result, ok, err}
use webmcp_security_lab.Prelude.Dict.{
  Dict, get, set, delete, discard, get-set, get-delete, get-delete_self, get-discard-none,
}
use webmcp_security_lab.Prelude.Url.{UrlParser}
use webmcp_security_lab.Connector.Challenges.Outcomes.{
  issue_cases, issue_stored, stored_under, consume_malformed, consume_taken,
}
use webmcp_security_lab.Connector.Challenges.{
  ChallengeBinding, ChallengeError, StoredChallenge, Manager, IssuedChallenge, invalid_or_expired,
  prune, is_token, is_expired, match_stored, issue, consume,
}

pub data Call : Type 0 where
  issues : (now later : ℕ) (generated : String) (input : ChallengeBinding) → Call
  consumes : (now later : ℕ) (token : String) (input : ChallengeBinding) → Call

-- 1 for a call that returned, 0 for one that threw, if it concerns the key.
abbrev counted : {A : Type 0} → Bool → Result ChallengeError A → ℕ
counted true (ok a) = 1
counted _ _ = 0

-- 1 while the key has a stored challenge.
abbrev pub live : Option StoredChallenge → ℕ
live none = 0
live (some c) = 1

live-discard :
    (p : StoredChallenge → Bool) (key : String) (m : Dict StoredChallenge)
    → live (get key (discard p m)) ≤ live (get key m)
live-discard p key m = elim (Option-cases (get key m)) [
  | inl missing ↦ rw (missing, get-discard-none p key m missing) (omega arith)
  | inr (c, found) ↦ rw found (live_le_one (get key (discard p m)))
]
  where
    live_le_one : (o : Option StoredChallenge) → live o ≤ 1
    live_le_one none = omega arith
    live_le_one (some c) = omega arith

live-set :
    (j key : String) (c : StoredChallenge) (m : Dict StoredChallenge)
    → live (get key (set j c m)) ≤ live (get key m) + (if j == key then 1 else 0)
live-set j key c m = rw (get-set j key c m) (ground arith)

live-delete :
    (j key : String) (m : Dict StoredChallenge) → live (get key (delete j m)) ≤ live (get key m)
live-delete j key m = rw (get-delete j key m) (ground arith)

module _ (parse_url : UrlParser) (digest : String → String) where
  after : Manager → Call → Manager
  after m (issues now later generated input) =
      (issue parse_url digest now later generated input m).0
  after m (consumes now later token input) = (consume parse_url digest now later token input m).0

  -- How many calls issued, and how many consumed, a challenge under the key.
  unfoldable pub issued : String → Manager → List Call → ℕ
  unfolding after
  issued key m [] = 0
  issued key m (issues now later generated input ∷ calls) =
      counted (digest generated == key) (issue parse_url digest now later generated input m).1
      + issued key (after m (issues now later generated input)) calls
  issued key m (consumes now later token input ∷ calls) =
      issued key (after m (consumes now later token input)) calls

  unfoldable pub consumed : String → Manager → List Call → ℕ
  unfolding after
  consumed key m [] = 0
  consumed key m (issues now later generated input ∷ calls) =
      consumed key (after m (issues now later generated input)) calls
  consumed key m (consumes now later token input ∷ calls) =
      counted (digest token == key) (consume parse_url digest now later token input m).1
      + consumed key (after m (consumes now later token input)) calls

  issue_threw :
      (key : String) (now later : ℕ) (generated : String) (input : ChallengeBinding) (m : Manager)
      {e : ChallengeError}
      → issue parse_url digest now later generated input m ≡ (prune now m, err e)
      → live (get key (issue parse_url digest now later generated input m).0.challenges)
        ≤ live (get key m.challenges)
          + counted (digest generated == key) (issue parse_url digest now later generated input m).1
  unfolding prune
  issue_threw key now later generated input m h =
      rw h (omega (arith, live-discard (is_expired now) key m.challenges))

  issue_ok :
      (key : String) (now later : ℕ) (generated : String) (input : ChallengeBinding) (m : Manager)
      (c : StoredChallenge) (i : IssuedChallenge)
      → issue parse_url digest now later generated input m
        ≡ (stored_under (digest generated) c (prune now m), ok i)
      → live (get key (issue parse_url digest now later generated input m).0.challenges)
        ≤ live (get key m.challenges)
          + counted (digest generated == key) (issue parse_url digest now later generated input m).1
  unfolding prune
  issue_ok key now later generated input m c i h =
      let swept = discard (is_expired now) m.challenges in
      rw h (
        ground (
          arith,
          live-discard (is_expired now) key m.challenges,
          live-set (digest generated) key c swept,
        ))

  issue-live :
      (key : String) (now later : ℕ) (generated : String) (input : ChallengeBinding) (m : Manager)
      → live (get key (issue parse_url digest now later generated input m).0.challenges)
        ≤ live (get key m.challenges)
          + counted (digest generated == key) (issue parse_url digest now later generated input m).1
  issue-live key now later generated input m =
      elim (issue_cases parse_url digest now later generated input m) [
        | inl (e, threw) ↦ issue_threw key now later generated input m threw
        | inr (b, valid, good) ↦
            issue_ok key now later generated input m _ _
              (issue_stored parse_url digest now later generated input m b valid good)
      ]

  match_stored-live :
      (later : ℕ) (stored : Option StoredChallenge) (input : ChallengeBinding)
      → counted true (match_stored parse_url digest later stored input) ≤ live stored
  unfolding match_stored
  match_stored-live later none input = omega arith
  match_stored-live later (some c) input = counted-le-one _
    where
      counted-le-one : (r : Result ChallengeError ChallengeBinding) → counted true r ≤ 1
      counted-le-one (ok b) = omega arith
      counted-le-one (err e) = omega arith

  taken-live :
      (j key : String) (later : ℕ) (input : ChallengeBinding) (m : Dict StoredChallenge)
      → live (get key (delete j m))
          + counted (j == key) (match_stored parse_url digest later (get j m) input)
        ≤ live (get key m)
  taken-live j key later input m = elim (Bool-cases (j == key)) [
    | inl same ↦
        let e = (eq_iff j key).0 same in
        subst
          (λ k.
            live (get k (delete j m))
              + counted (j == k) (match_stored parse_url digest later (get j m) input)
            ≤ live (get k m))
          e
          (rw (get-delete_self j m, eq_refl j)
            (omega (arith, match_stored-live later (get j m) input)))
    | inr other ↦ rw other (omega (arith, live-delete j key m))
  ]

  consume-live :
      (key : String) (now later : ℕ) (token : String) (input : ChallengeBinding) (m : Manager)
      → live (get key (consume parse_url digest now later token input m).0.challenges)
          + counted (digest token == key) (consume parse_url digest now later token input m).1
        ≤ live (get key m.challenges)
  unfolding prune
  consume-live key now later token input m = elim (Bool-cases (is_token token)) [
    | inl good ↦ rw (consume_taken parse_url digest now later token input m good) (
        omega (
          arith,
          swept,
          taken-live (digest token) key later input (discard (is_expired now) m.challenges),
        ))
    | inr bad ↦
        rw (consume_malformed parse_url digest now later token input m bad)
          (failed (digest token == key))
  ]
    where
      swept : live (get key (discard (is_expired now) m.challenges)) ≤ live (get key m.challenges)
      swept = live-discard (is_expired now) key m.challenges

      failed :
          (b : Bool)
          → live (get key (discard (is_expired now) m.challenges))
              + counted {A = ChallengeBinding} b (err invalid_or_expired)
            ≤ live (get key m.challenges)
      failed true = omega (arith, swept)
      failed false = omega (arith, swept)

  consumed-le-live :
      (key : String) (m : Manager) (calls : List Call)
      → consumed key m calls ≤ live (get key m.challenges) + issued key m calls
  unfolding consumed issued
  consumed-le-live key m [] = omega arith
  consumed-le-live key m (issues now later generated input ∷ calls) = omega (
    arith,
    issue-live key now later generated input m,
    consumed-le-live key (issue parse_url digest now later generated input m).0 calls,
  )
  consumed-le-live key m (consumes now later token input ∷ calls) = omega (
    arith,
    consume-live key now later token input m,
    consumed-le-live key (consume parse_url digest now later token input m).0 calls,
  )

  -- From a manager with no challenge under a token's digest, over any history of calls and clock
  -- readings, the challenges consumed under that digest are at most as many as were issued under it.
  pub consumed-le-issued :
      (key : String) (m : Manager) (calls : List Call)
      → get key m.challenges ≡ none
      → consumed key m calls ≤ issued key m calls
  consumed-le-issued key m calls fresh =
      let absent : live (get key m.challenges) ≡ 0 = ap live fresh in
      omega (arith, consumed-le-live key m calls)
