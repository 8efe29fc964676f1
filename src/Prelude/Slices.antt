-- ===== src/Prelude/Slices.antt =====
-- The end of an array, and its reversal.
use Prim.Native.Nat.{ℕ, zero, suc, ◌-◌, ◌≤◌}
use mathlib.Core.Path.{◌≡◌, refl, sym, ap, ◌∙◌}
use mathlib.Core.List.{List, [], ◌∷◌, reverse, reverse-append}
use native.Mathlib.Omega.{arith}
use native.Mathlib.Decide.{dec_lt}
use webmcp_security_lab.Prelude.Lists.{length, take, drop, length-append, take-append, All}

module _ {ℓ} {A : Type ℓ} where
  -- `array.slice(-n)`, for a positive n.
  abbrev pub last_items : ℕ → List A → List A
  last_items n xs = drop (length xs - n) xs

  pub length-reverse : (xs : List A) → length (reverse xs) ≡ length xs
  length-reverse [] = refl
  length-reverse (x ∷ xs) =
      ap length (reverse-append (x ∷ []) xs)
      ∙ length-append (reverse xs) (x ∷ [])
      ∙ omega (arith, length-reverse xs)

  pub take_all : (n : ℕ) (xs : List A) → length xs ≤ n → take n xs ≡ xs
  take_all zero [] h = refl
  take_all (suc n) [] h = refl
  take_all zero (x ∷ xs) h = absurd (omega arith)
  take_all (suc n) (x ∷ xs) h = ap (λ ys. x ∷ ys) (take_all n xs (omega arith))

  drop-nil : (k : ℕ) → ◌≡◌ {A = List A} (drop k []) []
  drop-nil zero = refl
  drop-nil (suc k) = refl

  length-drop : (k : ℕ) (xs : List A) → length (drop k xs) ≡ length xs - k
  length-drop zero xs = omega arith
  length-drop (suc k) [] = omega arith
  length-drop (suc k) (x ∷ xs) = omega (arith, length-drop k xs)

  pub reverse-last_items : (n : ℕ) (xs : List A) → reverse (last_items n xs) ≡ take n (reverse xs)
  reverse-last_items n [] = ap reverse (drop-nil (0 - n)) ∙ sym (take_all n [] (omega arith))
  reverse-last_items n (x ∷ xs) = elim (dec_lt (length xs) n) [
    | yes short ↦
        (let none_dropped : length (x ∷ xs) - n ≡ 0 = omega arith in
          ap (λ k. reverse (drop k (x ∷ xs))) none_dropped
          ∙ sym (take_all n (reverse (x ∷ xs)) (omega (arith, length-reverse (x ∷ xs)))))
    | no long ↦
        (let one_more : length (x ∷ xs) - n ≡ suc (length xs - n) = omega arith in
          ap (λ k. reverse (drop k (x ∷ xs))) one_more
          ∙ reverse-last_items n xs
          ∙ sym (take-append n (reverse xs) (x ∷ []) (omega (arith, length-reverse xs)))
          ∙ ap (take n) (sym (reverse-append (x ∷ []) xs)))
  ]

  pub length-last_items-le : (n : ℕ) (xs : List A) → length (last_items n xs) ≤ n
  length-last_items-le n xs = omega (arith, length-drop (length xs - n) xs)

module _ {ℓ κ} {A : Type ℓ} (P : A → Type κ) where
  pub All-drop : (k : ℕ) (xs : List A) → All P xs → All P (drop k xs)
  All-drop zero xs h = h
  All-drop (suc k) [] h = tt
  All-drop (suc k) (x ∷ xs) (p, h) = All-drop k xs h
