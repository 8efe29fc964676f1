-- ===== src/Prelude/Tests.antt =====
-- Boolean tests, the conditional, and equality as an interface (the source's `===`).
use Prim.Native.Nat.{ℕ, ◌≤◌, ◌<◌, compare, Ordering}
use Prim.Native.String.{String}
use mathlib.Core.Path.{◌≡◌, refl}
use mathlib.Core.Logic.{◌↔◌, ◌⊎◌, inl, inr}
use mathlib.Core.Bool.{Bool, true, false}
use mathlib.Core.Option.{Option, none, some}
use native.Mathlib.Omega.{arith}
use text.Mathlib.Text.{◌==◌ as str_beq}
use text.Mathlib.TextEquality.{eq_iff}

abbrev pub ltb : ℕ → ℕ → Bool
ltb a b = elim (compare a b) [ Ordering.lt ↦ true | _ ↦ false ]

abbrev pub leb : ℕ → ℕ → Bool
leb a b = elim (compare a b) [ Ordering.gt ↦ false | _ ↦ true ]

abbrev pub nat_beq : ℕ → ℕ → Bool
nat_beq a b = elim (compare a b) [ Ordering.eq ↦ true | _ ↦ false ]

infix 1 if◌then◌else◌
abbrev pub if◌then◌else◌ {ℓ} : {A : Type ℓ} → Bool → A → A → A
if true then x else y = x
if false then x else y = y

pub ltb→lt : (a b : ℕ) → ltb a b ≡ true → a < b
ltb→lt a b h = ground arith

pub lt→ltb : (a b : ℕ) → a < b → ltb a b ≡ true
lt→ltb a b h = ground arith

pub leb→le : (a b : ℕ) → leb a b ≡ true → a ≤ b
leb→le a b h = ground arith

pub nat_beq_iff : (a b : ℕ) → (nat_beq a b ≡ true) ↔ (a ≡ b)
nat_beq_iff a b = ground arith

pub Bool-cases : (b : Bool) → (b ≡ true) ⊎ (b ≡ false)
Bool-cases true = inl refl
Bool-cases false = inr refl

pub Option-cases {ℓ} : {A : Type ℓ} (o : Option A) → (o ≡ none) ⊎ ((a : A) × (o ≡ some a))
Option-cases none = inl refl
Option-cases (some a) = inr (a, refl)

-- The source's `===` at a type of texts or numbers: a test that decides equality.
pub record StrictEquality {ℓ} (A : Type ℓ) : Type ℓ where
  pub same : A → A → Bool
  pub same_iff : (x y : A) → (same x y ≡ true) ↔ (x ≡ y)

instance abbrev pub string_eq : StrictEquality String
string_eq = record { same = str_beq; same_iff = eq_iff }

infix 50 ◌==◌
abbrev pub ◌==◌ {ℓ} : {A : Type ℓ} ⦃strict : StrictEquality A⦄ → A → A → Bool
◌==◌ ⦃strict⦄ x y = strict.same x y

-- Equality of optional values: `undefined === undefined`.
abbrev pub option_beq {ℓ} : {A : Type ℓ} ⦃strict : StrictEquality A⦄ → Option A → Option A → Bool
option_beq none none = true
option_beq (some x) (some y) = x == y
option_beq _ _ = false

pub option_beq_refl {ℓ} :
    {A : Type ℓ} ⦃strict : StrictEquality A⦄ (o : Option A) → option_beq o o ≡ true
option_beq_refl none = refl
option_beq_refl ⦃strict⦄ (some x) = (strict.same_iff x x).1 refl

instance abbrev pub nat_eq : StrictEquality ℕ
nat_eq = record { same = nat_beq; same_iff = nat_beq_iff }

pub ruleset tests = (arith, ltb→lt, lt→ltb, leb→le)
