-- ===== src/Prelude/Distinct.antt =====
-- A `Map` has each key once.
use Prim.Native.Nat.{ℕ, suc, ◌≤◌}
use Prim.Native.String.{String}
use mathlib.Core.Path.{◌≡◌, refl, sym, ap, subst, ◌∙◌}
use mathlib.Core.Logic.{◌⊎◌, inl, inr}
use mathlib.Core.Bool.{true, false}
use mathlib.Core.Option.{Option, none, some}
use mathlib.Core.List.{[], ◌∷◌}
use native.Mathlib.Omega.{arith}
use native.Mathlib.Decide.{dec_lt}
use text.Mathlib.TextEquality.{eq_iff}
use text.Mathlib.TextPositions.{eq_refl}
use webmcp_security_lab.Prelude.Tests.{◌==◌, string_eq, leb, if◌then◌else◌, Bool-cases}
use webmcp_security_lab.Prelude.Dict.{
  Dict, get, has, set, delete, evict, size, get_of_has_not, get-set, get-set_self, size-set-le,
}

pub swapped : (j k : String) → (j == k) ≡ false → (k == j) ≡ false
swapped j k e = ground (arith, eq_iff j k, eq_iff k j)

module _ {V : Type 0} where
  abbrev pub IsDistinct : Dict V → Type 0
  IsDistinct [] = Unit
  IsDistinct ((k, v) ∷ m) = (has k m ≡ false) × IsDistinct m

  has-set :
      (k j : String) (v : V) (m : Dict V) → has j (set k v m) ≡ (if k == j then true else has j m)
  unfolding has set
  has-set k j v [] = refl
  has-set k j v ((i, w) ∷ m) = ground (arith, eq_iff k j, eq_iff i k, eq_iff i j, has-set k j v m)

  pub set-IsDistinct : (k : String) (v : V) (m : Dict V) → IsDistinct m → IsDistinct (set k v m)
  unfolding set has
  set-IsDistinct k v [] h = (refl, tt)
  set-IsDistinct k v ((j, w) ∷ m) (n, h) = elim (Bool-cases (j == k)) [
    | inl e ↦ rw e (subst (λ x. has x m ≡ false) ((eq_iff j k).0 e) n, h)
    | inr e ↦ rw e (
      has-set k j v m ∙ ap (λ b. if b then true else has j m) (swapped j k e) ∙ n,
      set-IsDistinct k v m h,
    )
  ]

  has-delete_not : (k j : String) (m : Dict V) → has j m ≡ false → has j (delete k m) ≡ false
  unfolding has delete
  has-delete_not k j [] h = refl
  has-delete_not k j ((i, w) ∷ m) h = ground (arith, has-delete_not k j m)

  pub delete-IsDistinct : (k : String) (m : Dict V) → IsDistinct m → IsDistinct (delete k m)
  unfolding delete
  delete-IsDistinct k [] h = tt
  delete-IsDistinct k ((j, w) ∷ m) (n, h) =
      ground (arith, has-delete_not k j m, delete-IsDistinct k m h)

  pub evict-IsDistinct : (limit : ℕ) (m : Dict V) → IsDistinct m → IsDistinct (evict limit m)
  unfolding evict
  evict-IsDistinct limit [] h = tt
  evict-IsDistinct limit ((j, w) ∷ m) (n, h) = ground (arith, evict-IsDistinct limit m h)

  get-skip : (k j : String) (w : V) (m : Dict V) → (j == k) ≡ false → get k m ≡ get k ((j, w) ∷ m)
  unfolding get
  get-skip k j w m e = rw e refl

  get_first : (k : String) (v : V) (m : Dict V) → get k ((k, v) ∷ m) ≡ some v
  unfolding get
  get_first k v m = rw (eq_refl k) refl

  pub evict_small : (n : ℕ) (m : Dict V) → size m ≤ n → evict (suc n) m ≡ m
  unfolding evict
  evict_small n [] h = refl
  evict_small n (e ∷ m) h = ground (arith, h)

  -- A value that is set in a Map within the limit outlasts the eviction that follows.
  pub get-evict-set :
      (n : ℕ) (k : String) (v : V) (m : Dict V)
      → size m ≤ suc n
      → get k (evict (suc (suc n)) (set k v m)) ≡ some v
  unfolding set evict
  get-evict-set n k v [] h =
      ap (get k) (evict_small (suc n) ((k, v) ∷ []) (omega arith)) ∙ get-set_self k v []
  get-evict-set n k v ((j, w) ∷ m) h = elim (Bool-cases (j == k)) [
    | inl e ↦ rw e (ap (get k) (evict_small (suc n) ((k, v) ∷ m) h) ∙ get_first k v m)
    | inr e ↦ rw e (elim (Bool-cases (leb (suc (suc n)) (size ((j, w) ∷ set k v m)))) [
      | inl full ↦ rw full (
          ap (get k) (evict_small (suc n) (set k v m) (omega (arith, size-set-le k v m)))
          ∙ get-set_self k v m)
      | inr room ↦ rw room (sym (get-skip k j w (set k v m) e) ∙ get-set_self k v m)
    ])
  ]

  -- The key that went in first.
  abbrev pub first_key : Dict V → Option String
  first_key [] = none
  first_key ((j, w) ∷ m) = some j

  size-set_known : (k : String) (v : V) (m : Dict V) → has k m ≡ true → size (set k v m) ≡ size m
  unfolding set has
  size-set_known k v [] h = absurd (cc)
  size-set_known k v ((j, w) ∷ m) h = ground (arith, size-set_known k v m)

  size-set_new :
      (k : String) (v : V) (m : Dict V) → has k m ≡ false → size (set k v m) ≡ suc (size m)
  unfolding set has
  size-set_new k v [] h = refl
  size-set_new k v ((j, w) ∷ m) h = ground (arith, size-set_new k v m)

  set-cons_new :
      (k j : String) (v w : V) (m : Dict V)
      → has k ((j, w) ∷ m) ≡ false
      → (set k v ((j, w) ∷ m) ≡ (j, w) ∷ set k v m) × (has k m ≡ false)
  unfolding set has
  set-cons_new k j v w m h = ground arith

  get-set_other :
      (k j : String) (v : V) (m : Dict V) → (j == k) ≡ false → get j (set k v m) ≡ get j m
  get-set_other k j v m apart =
      get-set k j v m ∙ ap (λ b. if b then some v else get j m) (swapped j k apart)

  -- What is left of the other keys, where a new key is set in a Map that is full.
  get-drop_first :
      (k j i : String) (v w : V) (m : Dict V)
      → IsDistinct ((i, w) ∷ m)
      → (j == k) ≡ false
      → (get j (set k v m) ≡ get j ((i, w) ∷ m)) ⊎ ((i ≡ j) × (get j (set k v m) ≡ none))
  get-drop_first k j i v w m (n, h) apart = elim (Bool-cases (i == j)) [
    | inl e ↦
        let same = (eq_iff i j).0 e in
        inr (
          same,
          get-set_other k j v m apart ∙ get_of_has_not j m (subst (λ x. has x m ≡ false) same n),
        )
    | inr e ↦ inl (get-set_other k j v m apart ∙ get-skip j i w m e)
  ]

  evict_one :
      (n : ℕ) (i : String) (w : V) (m : Dict V) → size m ≡ n → evict (suc n) ((i, w) ∷ m) ≡ m
  unfolding evict
  evict_one n i w m h =
      let full : leb (suc n) (size ((i, w) ∷ m)) ≡ true = ground (arith, h) in
      rw full (evict_small n m (omega (arith, h)))

  -- Setting a key in a Map within the limit, and evicting, leaves another key as it was, but for the
  -- key that went in first, where the Map was full and the set key is new.
  pub get-evict-set_other :
      (n : ℕ) (k j : String) (v : V) (m : Dict V)
      → IsDistinct m
      → size m ≤ suc n
      → (j == k) ≡ false
      → (get j (evict (suc (suc n)) (set k v m)) ≡ get j m)
        ⊎ ((size m ≡ suc n)
            × (has k m ≡ false)
            × (first_key m ≡ some j)
            × (get j (evict (suc (suc n)) (set k v m)) ≡ none))
  get-evict-set_other n k j v m d within apart = elim (Bool-cases (has k m)) [
    | inl known ↦
        let small : size (set k v m) ≤ suc n = omega (arith, size-set_known k v m known, within) in
        inl (ap (get j) (evict_small (suc n) (set k v m) small) ∙ get-set_other k j v m apart)
    | inr new ↦ elim (dec_lt (size m) (suc n)) [
      | yes room ↦
          let small : size (set k v m) ≤ suc n = omega (arith, size-set-le k v m, room) in
          inl (ap (get j) (evict_small (suc n) (set k v m) small) ∙ get-set_other k j v m apart)
      | no crowded ↦ full m d new (omega arith)
    ]
  ]
    where
      full :
          (m : Dict V)
          → IsDistinct m
          → has k m ≡ false
          → size m ≡ suc n
          → (get j (evict (suc (suc n)) (set k v m)) ≡ get j m)
            ⊎ ((size m ≡ suc n)
                × (has k m ≡ false)
                × (first_key m ≡ some j)
                × (get j (evict (suc (suc n)) (set k v m)) ≡ none))
      full [] d new h = absurd (omega (arith, h))
      full ((i, w) ∷ m) d new h =
          let (shape, fresh) = set-cons_new k i v w m new in
          let left : evict (suc (suc n)) (set k v ((i, w) ∷ m)) ≡ set k v m =
            ap (evict (suc (suc n))) shape
            ∙ evict_one (suc n) i w (set k v m) (size-set_new k v m fresh ∙ h) in
          elim (get-drop_first k j i v w m d apart) [
            | inl same ↦ inl (ap (get j) left ∙ same)
            | inr (first, gone) ↦ inr (h, new, ap some first, ap (get j) left ∙ gone)
          ]
