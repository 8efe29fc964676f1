-- ===== src/NativeHost/Replay/Window.antt =====
-- A nonce whose message was not dated ahead of the receiver's clock is accepted once.
use webmcp_security_lab.Prelude.{
  ℕ, ◌+◌, ◌≤◌, ◌≡◌, ◌≢◌, refl, ap, ◌∙◌, ◌⊎◌, inl, inr, true, false, some, String, List, [], ◌∷◌,
  arith, Bool-cases, eq_iff, if◌then◌else◌, ◌==◌, string_eq,
}
use webmcp_security_lab.Prelude.Result.{ok}
use webmcp_security_lab.Prelude.Dict.{
  Dict, get, has, set, discard, size, get-set, get-set_self, has-get, get-discard_keep, size-set-le,
  size-discard-le,
}
use webmcp_security_lab.Prelude.Dates.{DateText, parse}
use webmcp_security_lab.NativeHost.Replay.{ReplayWindow, is_fresh, is_past, consume}

-- The messages that reach the window, each with the clock's reading.
pub record Arrival : Type 0 where
  pub nonce : String
  pub issued_at : DateText
  pub now : ℕ

unfoldable pub run : ReplayWindow → List Arrival → ReplayWindow
run w [] = w
run w (a ∷ arrivals) = run (consume a.nonce a.issued_at a.now w).0 arrivals

abbrev pub NoLater : ℕ → List Arrival → Type 0
NoLater limit [] = Unit
NoLater limit (a ∷ arrivals) = (a.now ≤ limit) × NoLater limit arrivals

consume-skew :
    (nonce : String) (issued_at : DateText) (now : ℕ) (w : ReplayWindow)
    → (consume nonce issued_at now w).0.max_skew_ms ≡ w.max_skew_ms
unfolding consume
consume-skew nonce issued_at now w = ground arith

-- What a call does to the entries: nothing, a sweep, or a sweep and a new entry under a nonce that
-- the sweep did not leave.
consume-seen :
    (nonce : String) (issued_at : DateText) (now : ℕ) (w : ReplayWindow)
    → let seen' = (consume nonce issued_at now w).0.seen in
      let swept = discard (is_past now) w.seen in
      (seen' ≡ w.seen)
      ⊎ (seen' ≡ swept)
      ⊎ ((has nonce swept ≡ false) × (seen' ≡ set nonce (now + w.max_skew_ms) swept))
unfolding consume
consume-seen nonce issued_at now w = ground arith

other_key :
    (nonce k : String) (swept : Dict ℕ) (fresh expires : ℕ)
    → has nonce swept ≡ false
    → get k swept ≡ some expires
    → (if nonce == k then some fresh else get k swept) ≡ some expires
other_key nonce k swept fresh expires absent kept = elim (Bool-cases (nonce == k)) [
  | inl same ↦
      let present = has-get k swept kept in
      let e = (eq_iff nonce k).0 same in absurd (clash (ap (λ n. has n swept) e) present)
  | inr different ↦ rw different kept
]
  where
    clash : has nonce swept ≡ has k swept → has k swept ≡ true → ⊥
    clash e present = cc

-- An entry outlives every call whose clock has not passed it.
consume-keeps :
    (k nonce : String) (issued_at : DateText) (now expires : ℕ) (w : ReplayWindow)
    → get k w.seen ≡ some expires
    → now ≤ expires
    → get k (consume nonce issued_at now w).0.seen ≡ some expires
consume-keeps k nonce issued_at now expires w found early =
    let kept = get-discard_keep (is_past now) k w.seen expires found (ground arith) in
    elim (consume-seen nonce issued_at now w) [
      | inl same ↦ ap (get k) same ∙ found
      | inr (inl swept) ↦ ap (get k) swept ∙ kept
      | inr (inr (absent, stored)) ↦
          ap (get k) stored
          ∙ get-set nonce k (now + w.max_skew_ms) (discard (is_past now) w.seen)
          ∙ other_key nonce k _ _ expires absent kept
    ]

run-keeps :
    (k : String) (expires : ℕ) (arrivals : List Arrival) (w : ReplayWindow)
    → get k w.seen ≡ some expires
    → NoLater expires arrivals
    → get k (run w arrivals).seen ≡ some expires
unfolding run
run-keeps k expires [] w found early = found
run-keeps k expires (a ∷ arrivals) w found (early, later) =
    run-keeps k expires arrivals (consume a.nonce a.issued_at a.now w).0
      (consume-keeps k a.nonce a.issued_at a.now expires w found early) later

run-skew :
    (arrivals : List Arrival) (w : ReplayWindow) → (run w arrivals).max_skew_ms ≡ w.max_skew_ms
unfolding run
run-skew [] w = refl
run-skew (a ∷ arrivals) w =
    run-skew arrivals (consume a.nonce a.issued_at a.now w).0
    ∙ consume-skew a.nonce a.issued_at a.now w

NoLater-weaken :
    (n m : ℕ) (arrivals : List Arrival) → n ≤ m → NoLater n arrivals → NoLater m arrivals
NoLater-weaken n m [] h l = tt
NoLater-weaken n m (a ∷ arrivals) h (early, later) =
    (omega arith, NoLater-weaken n m arrivals h later)

-- An accepted nonce is stored until the skew has passed.
consume_ok :
    (nonce : String) (issued_at : DateText) (now : ℕ) (w : ReplayWindow)
    → (consume nonce issued_at now w).1 ≡ ok tt
    → get nonce (consume nonce issued_at now w).0.seen ≡ some (now + w.max_skew_ms)
unfolding consume
consume_ok nonce issued_at now w h =
    let stored : (consume nonce issued_at now w).0.seen
        ≡ set nonce (now + w.max_skew_ms) (discard (is_past now) w.seen) =
      ground arith in
    ap (get nonce) stored ∙ get-set_self nonce (now + w.max_skew_ms) (discard (is_past now) w.seen)

-- A stored nonce is refused as long as its entry has not passed.
consume_stored :
    (nonce : String) (issued_at : DateText) (now expires : ℕ) (w : ReplayWindow)
    → get nonce w.seen ≡ some expires
    → now ≤ expires
    → (consume nonce issued_at now w).1 ≢ ok tt
unfolding consume
consume_stored nonce issued_at now expires w found early =
    let kept = get-discard_keep (is_past now) nonce w.seen expires found (ground arith) in
    let present = has-get nonce (discard (is_past now) w.seen) kept in λ h. ground arith

fresh_limit :
    (issued_at : DateText) (issued now skew : ℕ)
    → parse issued_at ≡ some issued
    → is_fresh (parse issued_at) now skew ≡ true
    → now ≤ issued + skew
unfolding is_fresh
fresh_limit issued_at issued now skew e h = ground arith

consume_ok-fresh :
    (nonce : String) (issued_at : DateText) (now : ℕ) (w : ReplayWindow)
    → (consume nonce issued_at now w).1 ≡ ok tt
    → is_fresh (parse issued_at) now w.max_skew_ms ≡ true
unfolding consume
consume_ok-fresh nonce issued_at now w h = ground arith

-- A message whose nonce was accepted, and which was not dated ahead of the clock then, is never
-- accepted again under that nonce and date, whatever other messages arrive in between with a clock
-- that does not run past the reading of the second attempt.
pub replay_refused :
    (nonce : String) (issued_at : DateText) (issued now now' : ℕ) (arrivals : List Arrival)
    (w : ReplayWindow)
    → (consume nonce issued_at now w).1 ≡ ok tt
    → parse issued_at ≡ some issued
    → issued ≤ now
    → NoLater now' arrivals
    → (consume nonce issued_at now' (run (consume nonce issued_at now w).0 arrivals)).1 ≢ ok tt
replay_refused nonce issued_at issued now now' arrivals w accepted dated past clocks again =
    let w' = (consume nonce issued_at now w).0 in
    let skew = run-skew arrivals w' ∙ consume-skew nonce issued_at now w in
    let fresh = consume_ok-fresh nonce issued_at now' (run w' arrivals) again in
    let limit = fresh_limit issued_at issued now' (run w' arrivals).max_skew_ms dated fresh in
    let in_time : now' ≤ now + w.max_skew_ms = omega arith in
    let held =
      run-keeps nonce (now + w.max_skew_ms) arrivals w' (consume_ok nonce issued_at now w accepted)
        (NoLater-weaken now' (now + w.max_skew_ms) arrivals in_time clocks) in
    consume_stored nonce issued_at now' (now + w.max_skew_ms) (run w' arrivals) held in_time again

consume-size :
    (nonce : String) (issued_at : DateText) (now : ℕ) (w : ReplayWindow)
    → size w.seen ≤ w.max_entries
    → ((consume nonce issued_at now w).0.max_entries ≡ w.max_entries)
      × (size (consume nonce issued_at now w).0.seen ≤ w.max_entries)
unfolding consume
consume-size nonce issued_at now w h =
    let swept = size-discard-le (is_past now) w.seen in
    let added = size-set-le nonce (now + w.max_skew_ms) (discard (is_past now) w.seen) in
    (ground arith, ground arith)

-- A window that holds no more entries than its capacity, as a new one does, never holds more.
pub run-size-le :
    (arrivals : List Arrival) (w : ReplayWindow)
    → size w.seen ≤ w.max_entries
    → size (run w arrivals).seen ≤ w.max_entries
unfolding run
run-size-le [] w h = h
run-size-le (a ∷ arrivals) w h =
    let (same, bounded) = consume-size a.nonce a.issued_at a.now w h in
    let w' : ReplayWindow = (consume a.nonce a.issued_at a.now w).0 in
    omega (arith, same, bounded, run-size-le arrivals w' (omega (arith, same, bounded)))
