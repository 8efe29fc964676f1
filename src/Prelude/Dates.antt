-- ===== src/Prelude/Dates.antt =====
-- JavaScript dates. An instant is counted in milliseconds from the earliest that `Date` can hold,
-- so that every instant is a natural number; differences and comparisons do not depend on it.
use Prim.Native.Nat.{ℕ}
use Prim.Native.String.{String}
use mathlib.Core.Path.{◌≡◌, refl}
use mathlib.Core.Logic.{◌↔◌}
use mathlib.Core.Bool.{Bool, true, false, ◌&&◌}
use mathlib.Core.Option.{Option, none, some}
use native.Mathlib.Omega.{arith}
use text.Mathlib.TextEquality.{eq_iff}
use webmcp_security_lab.Prelude.Tests.{ltb, nat_beq, StrictEquality, ◌==◌, string_eq}

-- A text as `Date` reads it: the one that `toISOString` writes for an instant, another text for the
-- same instant, or a text for which `Date.parse` is NaN.
pub data DateText : Type 0 where
  exact : ℕ → DateText
  other : String → ℕ → DateText
  invalid : String → DateText

-- `Date.parse`; `none` is NaN.
abbrev pub parse : DateText → Option ℕ
parse (exact t) = some t
parse (other s t) = some t
parse (invalid s) = none

-- `new Date(t).toISOString()`.
abbrev pub to_iso : ℕ → DateText
to_iso t = exact t

-- `Number.isFinite(Date.parse(v)) && new Date(v).toISOString() === v`.
abbrev pub is_exact : DateText → Bool
is_exact (exact t) = true
is_exact _ = false

pub parse-to_iso : (t : ℕ) → parse (to_iso t) ≡ some t
parse-to_iso t = refl

-- `===` of two such texts.
unfoldable pub same_date : DateText → DateText → Bool
same_date (exact t) (exact u) = nat_beq t u
same_date (other r t) (other s u) = r == s && nat_beq t u
same_date (invalid r) (invalid s) = r == s
same_date _ _ = false

pub same_date_iff : (d e : DateText) → (same_date d e ≡ true) ↔ (d ≡ e)
unfolding same_date
same_date_iff (exact t) (exact u) = ground arith
same_date_iff (other r t) (other s u) = ground (arith, eq_iff r s)
same_date_iff (invalid r) (invalid s) = ground (arith, eq_iff r s)
same_date_iff (exact t) (other s u) = ground arith
same_date_iff (exact t) (invalid s) = ground arith
same_date_iff (other r t) (exact u) = ground arith
same_date_iff (other r t) (invalid s) = ground arith
same_date_iff (invalid r) (exact u) = ground arith
same_date_iff (invalid r) (other s u) = ground arith

instance abbrev pub date_eq : StrictEquality DateText
date_eq = record { same = same_date; same_iff = same_date_iff }

-- `Date.parse(d) < Date.parse(e)`, false of NaN.
abbrev pub is_before : Option ℕ → Option ℕ → Bool
is_before (some t) (some u) = ltb t u
is_before _ _ = false
