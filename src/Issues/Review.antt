-- ===== src/Issues/Review.antt =====
-- products/connector/issue-review.ts, `LocalIssueReviewStore`: the drafts that a connector keeps for
-- review, by the scope that saved them. A save takes the reading of the clock and the identity that
-- the generators return.
pub mod Within
pub mod Newest
pub mod Candidates
use webmcp_security_lab.Prelude.{
  ℕ, ◌-◌, Bool, true, false, Option, none, some, List, [], ◌∷◌, ◌++◌, reverse, String, length, drop,
  if◌then◌else◌,
}
use webmcp_security_lab.Prelude.Result.{Result, ok, err, ◌>>=◌, ◌>>◌, guard}
use webmcp_security_lab.Prelude.Dates.{DateText, to_iso}
use webmcp_security_lab.Prelude.Dict.{Dict, get, set, delete, evict}
use webmcp_security_lab.Prelude.Slices.{last_items}
use webmcp_security_lab.Connector.SaveActions.{SaveError, bounded_scope}
use webmcp_security_lab.Issues.Model.{
  IssueContext, public_web, synthetic_lab, local_exercise, IssueError, Runtime,
}
use webmcp_security_lab.Issues.Draft.{IssueDraft, IssueDraftInput, create_draft}
use webmcp_security_lab.Issues.Publication.{is_public_web}

-- An item; its review state is always `local-only`.
pub record ReviewItem : Type 0 where
  pub draft : IssueDraft
  pub id : String
  pub saved_at : DateText

pub data ReviewError : Type 0 where
  bad_scope : SaveError → ReviewError
  bad_draft : IssueError → ReviewError
  synthetic_only : ReviewError

pub record ReviewStore : Type 0 where
  pub items : Dict (List ReviewItem)

unfoldable pub new_review_store : ReviewStore
new_review_store = record { items = [] }

abbrev pub rethrow {ℓ κ μ} :
    {E : Type ℓ} {F : Type κ} {A : Type μ} → (E → F) → Result E A → Result F A
rethrow f (err e) = err (f e)
rethrow f (ok a) = ok a

abbrev pub is_synthetic : IssueContext → Bool
is_synthetic synthetic_lab = true
is_synthetic _ = false

-- `items.get(scope) ?? []`.
abbrev pub or_nil {ℓ} : {A : Type ℓ} → Option (List A) → List A
or_nil none = []
or_nil (some xs) = xs

-- The input that `save` takes from the draft it is given.
unfoldable pub saved_input : IssueDraft → IssueDraftInput
saved_input draft = record draft.input {
  site_origin = if is_public_web draft.input.context then draft.input.site_origin else none;
}

-- The Map with an item added, within its limit of 32 scopes.
unfoldable pub add_item : String → ReviewItem → ReviewStore → ReviewStore
add_item scope item s = record s {
  items = evict 33 (set scope (last_items 11 (or_nil (get scope s.items)) ++ item ∷ []) s.items);
}

-- What `save` does with the item that it has made, or failed to make.
unfoldable pub store_made :
    String
    → ReviewStore
    → Result ReviewError ReviewItem
    → ReviewStore × Result ReviewError ReviewItem
store_made scope s (err e) = (s, err e)
store_made scope s (ok item) = (add_item scope item s, ok item)

module _ (runtime : Runtime) where
  -- The item that `save` makes.
  unfoldable pub make_item : String → IssueDraft → String → ℕ → Result ReviewError ReviewItem
  make_item scope draft id now = do
    bounded ← rethrow bad_scope (bounded_scope scope)
    safe ← rethrow bad_draft (create_draft runtime (saved_input draft))
    guard (is_synthetic safe.input.context) synthetic_only
    ok (record { draft = safe; id = id; saved_at = to_iso now })

  unfoldable pub save :
      String → IssueDraft → String → ℕ → ReviewStore → ReviewStore × Result ReviewError ReviewItem
  unfolding store_made
  save scope draft id now s = store_made scope s (make_item scope draft id now)

unfoldable pub list_items : String → ReviewStore → Result ReviewError (List ReviewItem)
list_items value s = do
  scope ← rethrow bad_scope (bounded_scope value)
  ok (reverse (or_nil (get scope s.items)))

unfoldable pub revoke_reviews : String → ReviewStore → ReviewStore × Result ReviewError (Unit {0})
revoke_reviews value s = elim (bounded_scope value) [
  | err e ↦ (s, err (bad_scope e))
  | ok scope ↦ (record s { items = delete scope s.items }, ok tt)
]

unfoldable pub dispose_reviews : ReviewStore → ReviewStore
dispose_reviews s = record s { items = [] }
