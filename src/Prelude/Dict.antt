-- ===== src/Prelude/Dict.antt =====
-- A JavaScript `Map` with text keys: its entries in insertion order.
use Prim.Native.Nat.{ℕ, suc, ◌+◌, ◌≤◌}
use Prim.Native.String.{String}
use mathlib.Core.Path.{◌≡◌, refl, subst}
use mathlib.Core.Logic.{◌⊎◌, inl, inr}
use mathlib.Core.Bool.{Bool, true, false}
use mathlib.Core.Option.{Option, none, some}
use mathlib.Core.List.{List, [], ◌∷◌}
use native.Mathlib.Omega.{arith}
use text.Mathlib.TextEquality.{eq_iff}
use text.Mathlib.TextPositions.{eq_refl}
use webmcp_security_lab.Prelude.Tests.{◌==◌, string_eq, leb, if◌then◌else◌}
use webmcp_security_lab.Prelude.Lists.{length, All}

abbrev pub Dict : Type 0 → Type 0
Dict V = List (String × V)

module _ {V : Type 0} where
  -- `map.get(key)`.
  unfoldable pub get : String → Dict V → Option V
  get k [] = none
  get k ((j, v) ∷ m) = if j == k then some v else get k m

  -- `map.has(key)`.
  unfoldable pub has : String → Dict V → Bool
  has k [] = false
  has k ((j, v) ∷ m) = if j == k then true else has k m

  -- `map.set(key, value)`: a known key keeps its place, a new one goes to the end.
  unfoldable pub set : String → V → Dict V → Dict V
  set k v [] = (k, v) ∷ []
  set k v ((j, w) ∷ m) = if j == k then (k, v) ∷ m else (j, w) ∷ set k v m

  -- `map.delete(key)`.
  unfoldable pub delete : String → Dict V → Dict V
  delete k [] = []
  delete k ((j, v) ∷ m) = if j == k then delete k m else (j, v) ∷ delete k m

  -- `for (const [k, v] of map) if (test) map.delete(k)`.
  unfoldable pub discard : (V → Bool) → Dict V → Dict V
  discard p [] = []
  discard p ((j, v) ∷ m) = if p v then discard p m else (j, v) ∷ discard p m

  -- `map.size`.
  abbrev pub size : Dict V → ℕ
  size m = length m

  -- What holds of every value.
  abbrev pub Each {κ} : (V → Type κ) → Dict V → Type κ
  Each P m = All (λ e. P e.1) m

  pub get-set :
      (k j : String) (v : V) (m : Dict V) → get j (set k v m) ≡ (if k == j then some v else get j m)
  unfolding get set
  get-set k j v [] = refl
  get-set k j v ((i, w) ∷ m) = ground (arith, eq_iff k j, eq_iff i k, eq_iff i j, get-set k j v m)

  pub get-delete :
      (k j : String) (m : Dict V) → get j (delete k m) ≡ (if k == j then none else get j m)
  unfolding get delete
  get-delete k j [] = ground arith
  get-delete k j ((i, w) ∷ m) = ground (arith, eq_iff k j, eq_iff i k, eq_iff i j, get-delete k j m)

  pub has-get : (k : String) (m : Dict V) {v : V} → get k m ≡ some v → has k m ≡ true
  unfolding get has
  has-get k [] e = ground arith
  has-get k ((j, w) ∷ m) {v} e = ground (arith, has-get k m {v = v})

  pub get_of_has_not : (k : String) (m : Dict V) → has k m ≡ false → get k m ≡ none
  unfolding get has
  get_of_has_not k [] h = refl
  get_of_has_not k ((j, w) ∷ m) h = ground (arith, get_of_has_not k m)

  pub has_of_get-none : (k : String) (m : Dict V) → get k m ≡ none → has k m ≡ false
  unfolding get has
  has_of_get-none k [] h = refl
  has_of_get-none k ((j, w) ∷ m) h = ground (arith, has_of_get-none k m)

  pub size-set-le : (k : String) (v : V) (m : Dict V) → size (set k v m) ≤ size m + 1
  unfolding set
  size-set-le k v [] = omega arith
  size-set-le k v ((j, w) ∷ m) = ground (arith, size-set-le k v m)

  pub size-delete-le : (k : String) (m : Dict V) → size (delete k m) ≤ size m
  unfolding delete
  size-delete-le k [] = omega arith
  size-delete-le k ((j, w) ∷ m) = ground (arith, size-delete-le k m)

  pub size-discard-le : (p : V → Bool) (m : Dict V) → size (discard p m) ≤ size m
  unfolding discard
  size-discard-le p [] = omega arith
  size-discard-le p ((j, w) ∷ m) = ground (arith, size-discard-le p m)

  pub Each-set {κ} :
      (P : V → Type κ) (k : String) (v : V) (m : Dict V) → P v → Each P m → Each P (set k v m)
  unfolding set
  Each-set P k v [] p h = (p, tt)
  Each-set P k v ((j, w) ∷ m) p (q, h) = ground (arith, Each-set P k v m p h)

  pub Each-delete {κ} : (P : V → Type κ) (k : String) (m : Dict V) → Each P m → Each P (delete k m)
  unfolding delete
  Each-delete P k [] h = tt
  Each-delete P k ((j, w) ∷ m) (q, h) = ground (arith, Each-delete P k m h)

  pub Each-discard {κ} :
      (P : V → Type κ) (p : V → Bool) (m : Dict V) → Each P m → Each P (discard p m)
  unfolding discard
  Each-discard P p [] h = tt
  Each-discard P p ((j, w) ∷ m) (q, h) = ground (arith, Each-discard P p m h)

  -- What is left after a sweep fails the test.
  pub discard-Each : (p : V → Bool) (m : Dict V) → Each (λ v. p v ≡ false) (discard p m)
  unfolding discard
  discard-Each p [] = tt
  discard-Each p ((j, w) ∷ m) = ground (arith, discard-Each p m)

  get-cons_cases :
      (k j : String) (w : V) (m : Dict V) (v : V)
      → get k ((j, w) ∷ m) ≡ some v
      → (w ≡ v) ⊎ (get k m ≡ some v)
  unfolding get
  get-cons_cases k j w m v e = ground arith

  pub Each-get {κ} :
      (P : V → Type κ) (k : String) (m : Dict V) (v : V) → Each P m → get k m ≡ some v → P v
  Each-get P k [] v h e = absurd (get-nil e)
    where
      get-nil : get k [] ≡ some v → ⊥
      get-nil e = unfold get in cc
  Each-get P k ((j, w) ∷ m) v (q, h) e = elim (get-cons_cases k j w m v e) [
    | inl same ↦ subst P same q
    | inr later ↦ Each-get P k m v h later
  ]

  pub get-set_self : (k : String) (v : V) (m : Dict V) → get k (set k v m) ≡ some v
  get-set_self k v m = rw (get-set k k v m, eq_refl k)

  pub get-delete_self : (k : String) (m : Dict V) → get k (delete k m) ≡ none
  get-delete_self k m = rw (get-delete k k m, eq_refl k)

  -- An entry that a sweep keeps is found, and what is found was there.
  pub get-discard_keep :
      (p : V → Bool) (k : String) (m : Dict V) (v : V)
      → get k m ≡ some v
      → p v ≡ false
      → get k (discard p m) ≡ some v
  unfolding get discard
  get-discard_keep p k [] v e h = e
  get-discard_keep p k ((j, w) ∷ m) v e h = ground (arith, get-discard_keep p k m v)

  pub get-discard-none :
      (p : V → Bool) (k : String) (m : Dict V) → get k m ≡ none → get k (discard p m) ≡ none
  unfolding get discard
  get-discard-none p k [] e = refl
  get-discard-none p k ((j, w) ∷ m) e = ground (arith, get-discard-none p k m)

  -- `while (map.size >= limit) map.delete(map.keys().next().value)`: the oldest entries go.
  unfoldable pub evict : ℕ → Dict V → Dict V
  evict limit [] = []
  evict limit (e ∷ m) = if leb limit (size (e ∷ m)) then evict limit m else e ∷ m

  pub size-evict-lt : (limit : ℕ) (m : Dict V) → size (evict (suc limit) m) ≤ limit
  unfolding evict
  size-evict-lt limit [] = omega arith
  size-evict-lt limit (e ∷ m) = ground (arith, size-evict-lt limit m)

  pub Each-evict {κ} : (P : V → Type κ) (limit : ℕ) (m : Dict V) → Each P m → Each P (evict limit m)
  unfolding evict
  Each-evict P limit [] h = tt
  Each-evict P limit ((j, w) ∷ m) (q, h) = ground (arith, Each-evict P limit m h)

-- How many values pass a test.
module _ {V : Type 0} (q : V → Bool) where
  abbrev pub bit : Bool → ℕ
  bit true = 1
  bit false = 0

  unfoldable pub count : Dict V → ℕ
  count [] = 0
  count ((k, v) ∷ m) = bit (q v) + count m

  pub count-set_new :
      (k : String) (v : V) (m : Dict V) → has k m ≡ false → count (set k v m) ≡ count m + bit (q v)
  unfolding count set has
  count-set_new k v [] h = omega arith
  count-set_new k v ((j, w) ∷ m) h = ground (arith, count-set_new k v m)

  pub count-set_over :
      (k : String) (v w : V) (m : Dict V)
      → get k m ≡ some w
      → q v ≡ q w
      → count (set k v m) ≡ count m
  unfolding count set get
  count-set_over k v w [] e same = absurd (cc)
  count-set_over k v w ((j, u) ∷ m) e same = ground (arith, count-set_over k v w m)

  pub count-delete-le : (k : String) (m : Dict V) → count (delete k m) ≤ count m
  unfolding count delete
  count-delete-le k [] = omega arith
  count-delete-le k ((j, w) ∷ m) = ground (arith, count-delete-le k m)

  pub count-delete_found :
      (k : String) (w : V) (m : Dict V)
      → get k m ≡ some w
      → count (delete k m) + bit (q w) ≤ count m
  unfolding count delete get
  count-delete_found k w [] e = absurd (cc)
  count-delete_found k w ((j, u) ∷ m) e =
      ground (arith, count-delete_found k w m, count-delete-le k m)

  pub count-discard-le : (p : V → Bool) (m : Dict V) → count (discard p m) ≤ count m
  unfolding count discard
  count-discard-le p [] = omega arith
  count-discard-le p ((j, w) ∷ m) = ground (arith, count-discard-le p m)

  pub count-discard_self : (m : Dict V) → count (discard q m) ≡ 0
  unfolding count discard
  count-discard_self [] = refl
  count-discard_self ((j, w) ∷ m) = ground (arith, count-discard_self m)
