-- ===== src/NativeHost/Replay/Future.antt =====
-- A message that is dated ahead of the receiver's clock can be accepted twice.
use webmcp_security_lab.Prelude.{ℕ, ◌+◌, ◌≤◌, ◌<◌, ◌≡◌, ap, ◌∙◌, String, arith, [], ◌∷◌}
use webmcp_security_lab.Prelude.Result.{ok}
use webmcp_security_lab.Prelude.Dict.{has, set, discard}
use webmcp_security_lab.Prelude.Dates.{exact}
use webmcp_security_lab.NativeHost.Replay.{ReplayWindow, is_fresh, consume}

-- A new window, its capacity not 0.
abbrev pub empty_window : ℕ → ℕ → ReplayWindow
empty_window skew capacity = record { max_skew_ms = skew; max_entries = capacity; seen = [] }

-- A message dated ahead of the clock, by no more than the skew, is accepted by a new window, and
-- accepted a second time when the clock has passed the first reading by more than the skew but its
-- date by no more: the nonce is kept for the skew after the reading, not after the date.
pub accepted_twice :
    (nonce : String) (issued now now' skew capacity : ℕ)
    → 0 < capacity
    → now < issued
    → issued ≤ now + skew
    → now + skew < now'
    → now' ≤ issued + skew
    → ((consume nonce (exact issued) now (empty_window skew capacity)).1 ≡ ok tt)
      × ((consume nonce
            (exact issued)
            now'
            (consume nonce (exact issued) now (empty_window skew capacity)).0).1
          ≡ ok tt)
accepted_twice nonce issued now now' skew capacity room ahead near past late =
    (ap (λ r. r.1) first, ap (λ r. (consume nonce (exact issued) now' r.0).1) first ∙ second)
  where
    first : consume nonce (exact issued) now (empty_window skew capacity) ≡ (
      record { max_skew_ms = skew; max_entries = capacity; seen = (nonce, now + skew) ∷ [] },
      ok tt,
    )
    first = unfold consume is_fresh discard has set in ground arith

    second :
        (consume nonce (exact issued) now' (record {
          max_skew_ms = skew;
          max_entries = capacity;
          seen = (nonce, now + skew) ∷ [];
        })).1
        ≡ ok tt
    second = unfold consume is_fresh discard has set in ground arith
