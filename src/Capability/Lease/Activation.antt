-- ===== src/Capability/Lease/Activation.antt =====
-- A lease that replaces a broader source, and the teardown that its claim runs.
use webmcp_security_lab.Prelude.{
  ℕ, ◌+◌, ◌-◌, ◌<◌, ◌≤◌, ◌≡◌, ◌≢◌, refl, ◌⊎◌, inl, inr, some, List, [], ◌∷◌, arith, subst, ap, ◌∙◌,
  ◌↔◌,
}
use webmcp_security_lab.Prelude.Result.{ok}
use webmcp_security_lab.Prelude.Dates.{DateText, parse}
use webmcp_security_lab.Capability.Lease.{
  Lease, active, refused, Source, offered, withdrawn, activated, claim, prepare_one_use_activation,
  consume_one_use_before_await,
}
use webmcp_security_lab.Capability.Lease.OneUse.{Call, grants, granted_claim, ClaimsBefore}

-- A successful activation has an instant to expire at, still ahead; its lease is active with the
-- remaining lifetime; and the source is withdrawn.
activation_lem :
    (expires_at : DateText) (wall mono : ℕ) (source : Source) (lease : Lease)
    → (prepare_one_use_activation expires_at wall mono source).1 ≡ ok (activated lease)
    → (at : ℕ) × (parse expires_at ≡ some at)
      × (wall < at)
      × (lease.current ≡ active)
      × (lease.deadline + wall ≡ mono + at)
      × ((prepare_one_use_activation expires_at wall mono source).0 ≡ withdrawn)
unfolding prepare_one_use_activation
activation_lem (DateText.exact at) wall mono source lease h =
    (at, refl, ground arith, ground arith, ground arith, ground arith)
activation_lem (DateText.other s at) wall mono source lease h =
    (at, refl, ground arith, ground arith, ground arith, ground arith)
activation_lem (DateText.invalid s) wall mono source lease h = absurd (ground arith)

abbrev replacement : ℕ → ℕ → ℕ → Lease
replacement at wall mono = record { deadline = mono + (at - wall); current = active }

-- The source is withdrawn exactly when a replacement lease was created: an expired approval or an
-- unreadable date leaves it offered.
pub withdrawn_iff_activated :
    (expires_at : DateText) (wall mono : ℕ)
    → ((prepare_one_use_activation expires_at wall mono offered).0 ≡ withdrawn) ↔ (
        (lease : Lease) × ((prepare_one_use_activation expires_at wall mono offered).1
          ≡ ok (activated lease)))
unfolding prepare_one_use_activation
withdrawn_iff_activated (DateText.exact at) wall mono =
    (λ h. (replacement at wall mono, ground arith), λ h. let e = h.1 in ground arith)
withdrawn_iff_activated (DateText.other s at) wall mono =
    (λ h. (replacement at wall mono, ground arith), λ h. let e = h.1 in ground arith)
withdrawn_iff_activated (DateText.invalid s) wall mono =
    (λ h. absurd (ground arith), λ h. let e = h.1 in ground arith)

-- When a claim on an activated lease is granted, the broader source had been withdrawn, and some
-- claim was made while the approval's lifetime lasted: the monotonic time since the activation was
-- less than the wall time that then remained.
pub activated_claim :
    (expires_at : DateText) (wall mono : ℕ) (source : Source) (lease : Lease) (calls : List Call)
    → (prepare_one_use_activation expires_at wall mono source).1 ≡ ok (activated lease)
    → 0 < grants lease calls
    → ((prepare_one_use_activation expires_at wall mono source).0 ≡ withdrawn)
      × ((at : ℕ) × (parse expires_at ≡ some at) × ClaimsBefore (mono + (at - wall)) calls)
activated_claim expires_at wall mono source lease calls h g =
    let (at, parsed, ahead, fresh, ends, gone) =
      activation_lem expires_at wall mono source lease h in
    let deadline : lease.deadline ≡ mono + (at - wall) = omega arith in
    (gone, (at, parsed, subst (λ d. ClaimsBefore d calls) deadline (granted_claim lease calls g).0))

-- The callers that consume one lease in turn, each with the clock's reading.
pub consume_all : {W : Type 0} → (ℕ → W → W) → List ℕ → Lease → W → Lease × W
consume_all f [] lease world = (lease, world)
consume_all f (now ∷ later) lease world =
    let (lease', world', outcome) = consume_one_use_before_await f now lease world in
    consume_all f later lease' world'

consume_inactive :
    {W : Type 0} (f : ℕ → W → W) (now : ℕ) (lease : Lease) (world : W)
    → lease.current ≢ active
    → consume_one_use_before_await f now lease world ≡ (lease, world, refused lease.current)
unfolding consume_one_use_before_await claim
consume_inactive f now lease world h = ground arith

consume_all-inactive :
    {W : Type 0} (f : ℕ → W → W) (times : List ℕ) (lease : Lease) (world : W)
    → lease.current ≢ active
    → consume_all f times lease world ≡ (lease, world)
unfolding consume_all
consume_all-inactive f [] lease world h = refl
consume_all-inactive f (now ∷ times) lease world h =
    rw (consume_inactive f now lease world h) (consume_all-inactive f times lease world h)

consume_cases :
    {W : Type 0} (f : ℕ → W → W) (now : ℕ) (lease : Lease) (world : W)
    → lease.current ≡ active
    → let r = consume_one_use_before_await f now lease world in
      (r.0.current ≢ active)
      × (((now < lease.deadline) × (r.1 ≡ f 1 world)) ⊎ ((lease.deadline ≤ now) × (r.1 ≡ world)))
unfolding consume_one_use_before_await claim
consume_cases f now lease world h = ground arith

-- Whoever tries to consume an active lease, and however often, the teardown runs exactly once if
-- the first attempt is in time, and never otherwise.
pub consume_all_once :
    {W : Type 0} (f : ℕ → W → W) (now : ℕ) (later : List ℕ) (lease : Lease) (world : W)
    → lease.current ≡ active
    → ((now < lease.deadline) × ((consume_all f (now ∷ later) lease world).1 ≡ f 1 world))
      ⊎ ((lease.deadline ≤ now) × ((consume_all f (now ∷ later) lease world).1 ≡ world))
unfolding consume_all
consume_all_once f now later lease world h =
    let (ended, outcome) = consume_cases f now lease world h in
    let r = consume_one_use_before_await f now lease world in
    let rest = ap (λ s. s.1) (consume_all-inactive f later r.0 r.1 ended) in
    elim outcome [
      | inl (early, once) ↦ inl (early, rest ∙ once)
      | inr (late, kept) ↦ inr (late, rest ∙ kept)
    ]
