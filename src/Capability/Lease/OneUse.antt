-- ===== src/Capability/Lease/OneUse.antt =====
-- A lease is claimed at most once, whatever the order of the calls.
use webmcp_security_lab.Prelude.{
  ℕ, ◌+◌, ◌≤◌, ◌<◌, ◌≡◌, ◌≢◌, refl, ◌⊎◌, inl, ap, List, [], ◌∷◌, arith,
}
use webmcp_security_lab.Capability.Lease.{
  Lease, active, consumed, OneUseClaim, claimed, refused, InvalidationReason, claim, invalidate,
}

-- The calls that holders of a lease make, each claim with the clock's reading.
pub data Call : Type 0 where
  claims : ℕ → Call
  invalidates : InvalidationReason → Call

unfoldable pub step : Lease → Call → Lease
step lease (claims now) = (claim now lease).0
step lease (invalidates reason) = invalidate reason lease

abbrev granted : OneUseClaim → ℕ
granted (claimed n) = 1
granted (refused reason) = 0

-- How many of the calls are claims that were granted.
unfoldable pub grants : Lease → List Call → ℕ
grants lease [] = 0
grants lease (claims now ∷ calls) = granted (claim now lease).1 + grants (claim now lease).0 calls
grants lease (invalidates reason ∷ calls) = grants (invalidate reason lease) calls

unfoldable pub run : Lease → List Call → Lease
run lease [] = lease
run lease (c ∷ calls) = run (step lease c) calls

claim-inactive :
    (now : ℕ) (lease : Lease)
    → lease.current ≢ active
    → claim now lease ≡ (lease, refused lease.current)
unfolding claim
claim-inactive now lease h = ground arith

invalidate-inactive :
    (reason : InvalidationReason) (lease : Lease)
    → lease.current ≢ active
    → invalidate reason lease ≡ lease
unfolding invalidate
invalidate-inactive reason lease h = ground arith

claim-ends : (now : ℕ) (lease : Lease) → (claim now lease).0.current ≢ active
unfolding claim
claim-ends now lease = ground arith

invalidate-ends :
    (reason : InvalidationReason) (lease : Lease) → (invalidate reason lease).current ≢ active
unfolding invalidate
invalidate-ends reason lease = ground arith

grants-inactive :
    (lease : Lease) (calls : List Call) → lease.current ≢ active → grants lease calls ≡ 0
unfolding grants
grants-inactive lease [] h = refl
grants-inactive lease (claims now ∷ calls) h =
    rw (claim-inactive now lease h) (omega (arith, grants-inactive lease calls h))
grants-inactive lease (invalidates reason ∷ calls) h =
    rw (invalidate-inactive reason lease h) (grants-inactive lease calls h)

step-inactive : (lease : Lease) (c : Call) → lease.current ≢ active → step lease c ≡ lease
unfolding step
step-inactive lease (claims now) h = ap (λ r. r.0) (claim-inactive now lease h)
step-inactive lease (invalidates reason) h = invalidate-inactive reason lease h

run-inactive :
    (lease : Lease) (calls : List Call) → lease.current ≢ active → run lease calls ≡ lease
unfolding run
run-inactive lease [] h = refl
run-inactive lease (c ∷ calls) h = rw (step-inactive lease c h) (run-inactive lease calls h)

-- Whatever calls are made on a lease, in any order and at any times, at most one claim is granted.
pub grants-le-one : (lease : Lease) (calls : List Call) → grants lease calls ≤ 1
unfolding grants
grants-le-one lease [] = omega arith
grants-le-one lease (claims now ∷ calls) =
    rw (grants-inactive (claim now lease).0 calls (claim-ends now lease)) (ground arith)
grants-le-one lease (invalidates reason ∷ calls) =
    rw (grants-inactive (invalidate reason lease) calls (invalidate-ends reason lease))
      (omega arith)

-- One of the calls is a claim whose clock reading lies before the deadline.
abbrev pub ClaimsBefore : ℕ → List Call → Type 0
ClaimsBefore deadline [] = ⊥
ClaimsBefore deadline (claims now ∷ calls) = (now < deadline) ⊎ ClaimsBefore deadline calls
ClaimsBefore deadline (invalidates reason ∷ calls) = ClaimsBefore deadline calls

claim-granted :
    (now : ℕ) (lease : Lease)
    → 0 < granted (claim now lease).1
    → (now < lease.deadline) × ((claim now lease).0.current ≡ consumed)
unfolding claim
claim-granted now lease h = ground arith

-- If some claim is granted, then a claim was made before the lease's deadline, and the lease ends
-- consumed.
pub granted_claim :
    (lease : Lease) (calls : List Call)
    → 0 < grants lease calls
    → ClaimsBefore lease.deadline calls × ((run lease calls).current ≡ consumed)
unfolding grants run step
granted_claim lease [] h = absurd (omega arith)
granted_claim lease (claims now ∷ calls) h =
    let inactive = claim-ends now lease in
    let later = grants-inactive (claim now lease).0 calls inactive in
    let (early, done) = claim-granted now lease (omega arith) in
    (inl early, rw (run-inactive (claim now lease).0 calls inactive) done)
granted_claim lease (invalidates reason ∷ calls) h =
    let later = grants-inactive (invalidate reason lease) calls (invalidate-ends reason lease) in
    absurd (omega arith)
