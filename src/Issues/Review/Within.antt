-- ===== src/Issues/Review/Within.antt =====
-- issue-review.ts, `LocalIssueReviewStore`: what the store can come to hold.
use webmcp_security_lab.Prelude.{
  ℕ, ◌≤◌, ◌≡◌, refl, sym, ap, subst, ◌∙◌, true, none, List, [], ◌∷◌, ◌++◌, String, length,
  length-append, arith, inl, inr, string_eq, Option-cases, All, All-append, if◌then◌else◌,
}
use webmcp_security_lab.Prelude.Slices.{last_items, length-last_items-le, All-drop}
use webmcp_security_lab.Prelude.Result.{
  Result, ok, err, >>=-eq-ok, ok-injective, guard_passed, Result-cases,
}
use webmcp_security_lab.Prelude.Dict.{
  get, set, size, Each, Each-set, Each-get, Each-evict, size-evict-lt,
}
use webmcp_security_lab.Prelude.Distinct.{IsDistinct, set-IsDistinct, evict-IsDistinct}
use webmcp_security_lab.Connector.SaveActions.{bounded_scope}
use webmcp_security_lab.Issues.Model.{
  Runtime, synthetic_lab, IssueContext, public_web, local_exercise,
}
use webmcp_security_lab.Issues.Draft.{IssueDraft, create_draft}
use webmcp_security_lab.Issues.Publication.{is_public_web}
use webmcp_security_lab.Issues.Draft.Canonical.{create_draft-eq}
use webmcp_security_lab.Issues.Review.{
  ReviewItem, ReviewStore, ReviewError, or_nil, is_synthetic, add_item, make_item, save, rethrow,
  bad_scope, bad_draft, synthetic_only, saved_input, store_made,
}
use webmcp_security_lab.Prelude.Dict.{size-delete-le, Each-delete}
use webmcp_security_lab.Prelude.Distinct.{delete-IsDistinct}
use webmcp_security_lab.Issues.Review.{revoke_reviews, dispose_reviews}
use webmcp_security_lab.Prelude.Result.{Result-cases}

-- A draft of the synthetic lab, as `createPrivacySafeIssueDraft` makes it: without a site.
abbrev pub IsLocal : ReviewItem → Type 0
IsLocal item = (item.draft.input.context ≡ synthetic_lab) × (item.draft.input.site_origin ≡ none)

-- At most 32 scopes, each once and with at most twelve items, all of them synthetic.
pub record IsWithin (s : ReviewStore) : Type 0 where
  pub few_scopes : size s.items ≤ 32
  pub distinct : IsDistinct s.items
  pub few_items : Each (λ xs. length xs ≤ 12) s.items
  pub all_local : Each (All IsLocal) s.items

get-IsLocal :
    (scope : String) (s : ReviewStore) → IsWithin s → All IsLocal (or_nil (get scope s.items))
get-IsLocal scope s w = elim (Option-cases (get scope s.items)) [
  | inl gone ↦ subst (λ o. All IsLocal (or_nil o)) (sym gone) tt
  | inr (xs, found) ↦
      subst (λ o. All IsLocal (or_nil o)) (sym found)
        (Each-get (All IsLocal) scope s.items xs w.all_local found)
]

pub add_item-IsWithin :
    (scope : String) (item : ReviewItem) (s : ReviewStore)
    → IsLocal item
    → IsWithin s
    → IsWithin (add_item scope item s)
unfolding add_item
add_item-IsWithin scope item s h w = record {
  few_scopes = size-evict-lt 32 (set scope added s.items);
  distinct =
      evict-IsDistinct 33 (set scope added s.items) (set-IsDistinct scope added s.items w.distinct);
  few_items =
      Each-evict (λ xs. length xs ≤ 12) 33 (set scope added s.items)
        (Each-set (λ xs. length xs ≤ 12) scope added s.items few w.few_items);
  all_local =
      Each-evict (All IsLocal) 33 (set scope added s.items)
        (Each-set (All IsLocal) scope added s.items safe w.all_local);
}
  where
    added : List ReviewItem
    added = last_items 11 (or_nil (get scope s.items)) ++ item ∷ []

    few : length added ≤ 12
    few = omega (
      arith,
      length-append (last_items 11 (or_nil (get scope s.items))) (item ∷ []),
      length-last_items-le 11 (or_nil (get scope s.items)),
    )

    safe : All IsLocal added
    safe =
        All-append IsLocal (last_items 11 (or_nil (get scope s.items))) (item ∷ [])
          (All-drop IsLocal _ _ (get-IsLocal scope s w)) (h, tt)

pub rethrow-ok :
    {E F A : Type 0} (f : E → F) (r : Result E A) (a : A) → rethrow f r ≡ ok a → r ≡ ok a
rethrow-ok f (err e) a h = absurd (cc)
rethrow-ok f (ok b) a h = ap ok (ok-injective h)

synthetic-eq : (c : IssueContext) → is_synthetic c ≡ true → c ≡ synthetic_lab
synthetic-eq synthetic_lab h = refl
synthetic-eq public_web h = absurd (cc)
synthetic-eq local_exercise h = absurd (cc)

no_site :
    (draft : IssueDraft)
    → draft.input.context ≡ synthetic_lab
    → (saved_input draft).site_origin ≡ none
unfolding saved_input
no_site draft h = ap (λ c. if is_public_web c then draft.input.site_origin else none) h

pub store_made_lem :
    (scope : String) (s s' : ReviewStore) (r : Result ReviewError ReviewItem) (item : ReviewItem)
    → store_made scope s r ≡ (s', ok item)
    → (r ≡ ok item) × (s' ≡ add_item scope item s)
unfolding store_made
store_made_lem scope s s' (err e) item h = absurd (let bad = ap (λ x. x.1) h in cc)
store_made_lem scope s s' (ok i) item h =
    let same = ok-injective (ap (λ x. x.1) h) in
    (ap ok same, sym (ap (λ x. x.0) h) ∙ ap (λ x. add_item scope x s) same)

store_made-IsWithin :
    (scope : String) (s : ReviewStore) (r : Result ReviewError ReviewItem)
    → IsWithin s
    → ((item : ReviewItem) → r ≡ ok item → IsLocal item)
    → IsWithin (store_made scope s r).0
unfolding store_made
store_made-IsWithin scope s (err e) w safe = w
store_made-IsWithin scope s (ok item) w safe = add_item-IsWithin scope item s (safe item refl) w

module _ (runtime : Runtime) where
  -- The item that is saved is synthetic and names no site.
  pub make_item-IsLocal :
      (scope : String) (draft : IssueDraft) (id : String) (now : ℕ) (item : ReviewItem)
      → make_item runtime scope draft id now ≡ ok item
      → IsLocal item
  unfolding make_item saved_input
  make_item-IsLocal scope draft id now item h =
      let (b, e, h1) = >>=-eq-ok (rethrow bad_scope (bounded_scope scope)) _ h in
      let (d, e2, h2) =
        >>=-eq-ok (rethrow bad_draft (create_draft runtime (saved_input draft))) _ h1 in
      let (syn, h3) = guard_passed (is_synthetic d.input.context) synthetic_only h2 in
      let made = rethrow-ok bad_draft (create_draft runtime (saved_input draft)) d e2 in
      let (same, _) = create_draft-eq runtime (saved_input draft) d made in
      let context = synthetic-eq d.input.context syn in
      let origin = no_site draft (ap (λ x. x.input.context) (sym same) ∙ context) in
      subst IsLocal (ok-injective h3) (context, ap (λ x. x.input.site_origin) same ∙ origin)

  pub save_lem :
      (scope : String) (draft : IssueDraft) (id : String) (now : ℕ) (s s' : ReviewStore)
      (item : ReviewItem)
      → save runtime scope draft id now s ≡ (s', ok item)
      → (make_item runtime scope draft id now ≡ ok item) × (s' ≡ add_item scope item s)
  unfolding save
  save_lem scope draft id now s s' item h =
      store_made_lem scope s s' (make_item runtime scope draft id now) item h

  pub data ReviewCall : Type 0 where
    saving : (scope : String) (draft : IssueDraft) (id : String) (now : ℕ) → ReviewCall
    revoking : (scope : String) → ReviewCall
    disposing : ReviewCall

  abbrev pub call_reviews : ReviewStore → ReviewCall → ReviewStore
  call_reviews s (saving scope draft id now) = (save runtime scope draft id now s).0
  call_reviews s (revoking scope) = (revoke_reviews scope s).0
  call_reviews s disposing = dispose_reviews s

  abbrev pub run_reviews : ReviewStore → List ReviewCall → ReviewStore
  run_reviews s [] = s
  run_reviews s (call ∷ calls) = run_reviews (call_reviews s call) calls

  call_reviews-IsWithin :
      (s : ReviewStore) (call : ReviewCall) → IsWithin s → IsWithin (call_reviews s call)
  unfolding save store_made revoke_reviews dispose_reviews
  call_reviews-IsWithin s (saving scope draft id now) w =
      store_made-IsWithin scope s (make_item runtime scope draft id now) w
        (make_item-IsLocal scope draft id now)
  call_reviews-IsWithin s (revoking scope) w = elim (Result-cases (bounded_scope scope)) [
    | inl (e, h) ↦ rw (h, call_reviews) w
    | inr (b, h) ↦
        rw (h, call_reviews)
          (record {
            few_scopes = omega (arith, w.few_scopes, size-delete-le b s.items);
            distinct = delete-IsDistinct b s.items w.distinct;
            few_items = Each-delete (λ xs. length xs ≤ 12) b s.items w.few_items;
            all_local = Each-delete (All IsLocal) b s.items w.all_local;
          })
  ]
  call_reviews-IsWithin s disposing w = record {
    few_scopes = omega arith;
    distinct = tt;
    few_items = tt;
    all_local = tt;
  }

  -- Whatever is saved, revoked and disposed of, a store that is within its bounds, as a new one is,
  -- stays so: at most 32 scopes with at most twelve items each, and every item is of the synthetic
  -- lab and names no site.
  pub run_reviews-IsWithin :
      (s : ReviewStore) (calls : List ReviewCall) → IsWithin s → IsWithin (run_reviews s calls)
  run_reviews-IsWithin s [] w = w
  run_reviews-IsWithin s (call ∷ calls) w =
      run_reviews-IsWithin (call_reviews s call) calls (call_reviews-IsWithin s call w)
