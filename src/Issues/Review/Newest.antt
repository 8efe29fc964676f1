-- ===== src/Issues/Review/Newest.antt =====
-- issue-review.ts, `LocalIssueReviewStore`: what a save adds to the lists.
use webmcp_security_lab.Prelude.{
  ℕ, ◌≡◌, refl, sym, ap, subst, ◌∙◌, Bool, true, false, Option, some, List, [], ◌∷◌, ◌++◌, reverse,
  take, String, ◌⊎◌, inl, inr, ◌==◌, string_eq, ltb, ◌||◌, if◌then◌else◌,
}
use webmcp_security_lab.Prelude.Slices.{last_items, reverse-last_items}
use mathlib.Core.List.{reverse-append}
use webmcp_security_lab.Prelude.Result.{
  Result, ok, err, ◌>>=◌, >>=-eq-ok, ok-injective, Result-cases,
}
use webmcp_security_lab.Prelude.Text.{units}
use webmcp_security_lab.Prelude.Dict.{get, has, size}
use webmcp_security_lab.Prelude.Distinct.{first_key, get-evict-set, get-evict-set_other}
use webmcp_security_lab.Connector.SaveActions.{bounded_scope, unbounded_scope}
use webmcp_security_lab.Issues.Model.{Runtime}
use webmcp_security_lab.Issues.Draft.{IssueDraft}
use webmcp_security_lab.Issues.Review.{
  ReviewItem, ReviewStore, ReviewError, or_nil, add_item, save, list_items, rethrow, bad_scope,
  new_review_store,
}
use webmcp_security_lab.Issues.Review.Within.{
  IsLocal, IsWithin, add_item-IsWithin, rethrow-ok, make_item-IsLocal, save_lem,
}

-- A bounded scope is returned as it is.
bounded_scope-eq : (value b : String) → bounded_scope value ≡ ok b → b ≡ value
unfolding bounded_scope
bounded_scope-eq value b h = chosen (ltb (units value) 1 || ltb 256 (units value)) h
  where
    chosen : (t : Bool) → (if t then err unbounded_scope else ok value) ≡ ok b → b ≡ value
    chosen true k = absurd (cc)
    chosen false k = sym (ok-injective k)

-- The list of a scope, with the scope that is looked up written out.
listing : String → Option (List ReviewItem) → Result ReviewError (List ReviewItem)
listing scope found = rethrow bad_scope (bounded_scope scope) >>= λ _. ok (reverse (or_nil found))

list_items-listing :
    (scope : String) (s : ReviewStore) → list_items scope s ≡ listing scope (get scope s.items)
unfolding list_items listing
list_items-listing scope s = elim (Result-cases (bounded_scope scope)) [
  | inl (e, h) ↦ rw h refl
  | inr (b, h) ↦ rw h (ap (λ x. ok (reverse (or_nil (get x s.items)))) (bounded_scope-eq scope b h))
]

-- The list of a scope is bounded or an error, whatever the store.
pub list_items_lem :
    (scope : String) (s : ReviewStore) (before : List ReviewItem)
    → list_items scope s ≡ ok before
    → (bounded_scope scope ≡ ok scope) × (before ≡ reverse (or_nil (get scope s.items)))
unfolding list_items
list_items_lem scope s before h =
    let (b, e, h1) = >>=-eq-ok (rethrow bad_scope (bounded_scope scope)) _ h in
    let bounded = rethrow-ok bad_scope (bounded_scope scope) b e in
    let same = bounded_scope-eq scope b bounded in
    (bounded ∙ ap ok same, sym (ok-injective h1) ∙ ap (λ x. reverse (or_nil (get x s.items))) same)

pub list_added :
    (scope : String) (item : ReviewItem) (s : ReviewStore) (before : List ReviewItem)
    → IsWithin s
    → list_items scope s ≡ ok before
    → list_items scope (add_item scope item s) ≡ ok (item ∷ take 11 before)
unfolding list_items add_item
list_added scope item s before w h =
    let (bounded, was) = list_items_lem scope s before h in
    let old = or_nil (get scope s.items) in
    let found = get-evict-set 31 scope (last_items 11 old ++ item ∷ []) s.items w.few_scopes in
    rw
      (
        bounded,
        found,
        reverse-append (last_items 11 old) (item ∷ []),
        reverse-last_items 11 old,
        ← was,
      )
      refl

-- The list of another scope, where a scope is added: it is as it was, or it was the list of the scope
-- that was saved first, in a store of 32 scopes, and the added scope is new.
abbrev pub IsKeptOrOldest : String → String → ReviewStore → ReviewStore → Type 0
IsKeptOrOldest scope other s s' =
    (list_items other s' ≡ list_items other s)
    ⊎ ((size s.items ≡ 32)
        × (has scope s.items ≡ false)
        × (first_key s.items ≡ some other)
        × (list_items other s' ≡ list_items other new_review_store))

other_added :
    (scope other : String) (item : ReviewItem) (s : ReviewStore)
    → IsWithin s
    → (other == scope) ≡ false
    → IsKeptOrOldest scope other s (add_item scope item s)
unfolding add_item new_review_store get
other_added scope other item s w apart =
    elim (get-evict-set_other 31 scope other
      (last_items 11 (or_nil (get scope s.items)) ++ item ∷ []) s.items w.distinct w.few_scopes
      apart) [
        | inl same ↦ inl (
            list_items-listing other (add_item scope item s)
            ∙ ap (listing other) same
            ∙ sym (list_items-listing other s))
        | inr (full, new, oldest, gone) ↦ inr (
          full,
          new,
          oldest,
          list_items-listing other (add_item scope item s)
              ∙ ap (listing other) gone
              ∙ sym (list_items-listing other new_review_store),
        )
      ]

module _ (runtime : Runtime) where
  -- A save that succeeds puts its item, which is of the synthetic lab and names no site, before the
  -- eleven newest of its scope, and the store stays within its bounds. The list of any other scope is
  -- as it was, but for one case: the store has 32 scopes already, the saved one is new, and the other
  -- is the one that was put in first, whose list is then empty.
  pub save-list_items :
      (scope other : String) (draft : IssueDraft) (id : String) (now : ℕ) (s s' : ReviewStore)
      (item : ReviewItem) (before : List ReviewItem)
      → IsWithin s
      → list_items scope s ≡ ok before
      → (other == scope) ≡ false
      → save runtime scope draft id now s ≡ (s', ok item)
      → IsLocal item
        × IsWithin s'
        × (list_items scope s' ≡ ok (item ∷ take 11 before))
        × IsKeptOrOldest scope other s s'
  save-list_items scope other draft id now s s' item before w list apart h =
      let (made, shape) = save_lem runtime scope draft id now s s' item h in
      let safe = make_item-IsLocal runtime scope draft id now item made in
      subst
        (λ x.
          IsLocal item
          × IsWithin x
          × (list_items scope x ≡ ok (item ∷ take 11 before))
          × IsKeptOrOldest scope other s x)
        (sym shape)
        (
          safe,
          add_item-IsWithin scope item s safe w,
          list_added scope item s before w list,
          other_added scope other item s w apart,
        )
