-- ===== src/Prelude/Result.antt =====
-- Throwing code: a `throw` is an error value, and what was assigned before it stays assigned.
use mathlib.Core.Path.{◌≡◌, refl}
use mathlib.Core.Logic.{◌⊎◌, inl, inr}
use mathlib.Core.Bool.{Bool, true, false}

pub data Result {ℓ κ} (E : Type ℓ) (A : Type κ) : Type (ℓ ⊔ κ) where
  err : (thrown : E) → Result E A
  ok : (value : A) → Result E A

-- `if (test) throw e`.
abbrev pub refuse {ℓ} : {E : Type ℓ} → Bool → E → Result E (Unit {0})
refuse test e = elim test [ true ↦ err e | false ↦ ok tt ]

infixl 5 ◌>>◌ ◌>>=◌
abbrev pub ◌>>=◌ {ℓ κ μ} :
    {E : Type ℓ} {A : Type κ} {B : Type μ} → Result E A → (A → Result E B) → Result E B
err thrown >>= next = err thrown
ok value >>= next = next value

-- `if (!test) throw e`.
abbrev pub guard {ℓ} : {E : Type ℓ} → Bool → E → Result E (Unit {0})
guard test e = elim test [ true ↦ ok tt | false ↦ err e ]

abbrev pub ◌>>◌ {ℓ μ} : {E : Type ℓ} {B : Type μ} → Result E (Unit {0}) → Result E B → Result E B
first >> second = first >>= λ _. second

abbrev pub IsOk {ℓ κ} : {E : Type ℓ} {A : Type κ} → Result E A → Type 0
IsOk (ok a) = Unit
IsOk (err e) = ⊥

abbrev pub is_ok {ℓ κ} : {E : Type ℓ} {A : Type κ} → Result E A → Bool
is_ok (ok a) = true
is_ok (err e) = false

-- Inversion of a bind that succeeded.
pub >>=-eq-ok {ℓ κ μ} :
    {E : Type ℓ} {A : Type κ} {B : Type μ} (run : Result E A) (next : A → Result E B) {value : B}
    → (run >>= next) ≡ ok value
    → (mid : A) × (run ≡ ok mid) × (next mid ≡ ok value)
>>=-eq-ok (err thrown) next e = absurd (cc)
>>=-eq-ok (ok mid) next e = (mid, refl, e)

pub ok-injective {ℓ κ} :
    {E : Type ℓ} {A : Type κ} {a b : A} → ◌≡◌ {A = Result E A} (ok a) (ok b) → a ≡ b
ok-injective h = cc

pub Result-cases {ℓ κ} :
    {E : Type ℓ} {A : Type κ} (r : Result E A) → ((e : E) × (r ≡ err e)) ⊎ ((a : A) × (r ≡ ok a))
Result-cases (err e) = inl (e, refl)
Result-cases (ok a) = inr (a, refl)

-- What a test that throws has let through.
module _ {E : Type 0} {B : Type 0} {next : Result E B} {value : B} where
  pub refuse_passed :
      (b : Bool) (e : E) → (refuse b e >> next) ≡ ok value → (b ≡ false) × (next ≡ ok value)
  refuse_passed true e h = absurd (cc)
  refuse_passed false e h = (refl, h)

  pub guard_passed :
      (b : Bool) (e : E) → (guard b e >> next) ≡ ok value → (b ≡ true) × (next ≡ ok value)
  guard_passed true e h = (refl, h)
  guard_passed false e h = absurd (cc)
