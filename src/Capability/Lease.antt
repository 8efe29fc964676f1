-- ===== src/Capability/Lease.antt =====
-- lib/capability-core/lease.ts. A clock is the reading that a call takes from it, in milliseconds.
pub mod OneUse
pub mod Activation
use webmcp_security_lab.Prelude.{
  ℕ, ◌+◌, ◌-◌, Bool, true, false, not, ◌||◌, Option, none, some, ltb, leb, if◌then◌else◌,
}
use webmcp_security_lab.Prelude.Result.{Result, ok, err, ◌>>◌, ◌>>=◌, refuse}
use webmcp_security_lab.Prelude.Numbers.{
  Number, thousandths, negative, infinite, not_a_number, is_finite, is_not_positive,
}
use webmcp_security_lab.Prelude.Dates.{DateText, parse}

pub data LeaseState : Type 0 where
  active consumed expired revoked : LeaseState

-- A refusal carries the state that the lease was found in.
pub data OneUseClaim : Type 0 where
  claimed : (call_number : ℕ) → OneUseClaim
  refused : (reason : LeaseState) → OneUseClaim

-- The argument of `invalidate`.
pub data InvalidationReason : Type 0 where
  by_expiry by_revocation : InvalidationReason

-- What the closure of `createOneUseLease` holds.
pub record Lease : Type 0 where
  pub deadline : ℕ
  pub current : LeaseState

pub data LeaseError : Type 0 where
  lifetime_required : LeaseError

-- `now() + ttlSeconds * 1_000`, reached with a finite positive lifetime only.
deadline_of : ℕ → Number → ℕ
deadline_of now (thousandths ttl) = now + ttl
deadline_of now _ = now

unfoldable pub create_one_use_lease : Number → ℕ → Result LeaseError Lease
unfolding deadline_of
create_one_use_lease ttl now = do
  refuse (not (is_finite ttl) || is_not_positive ttl) lifetime_required
  ok (record { deadline = deadline_of now ttl; current = active })

unfoldable pub claim_from : LeaseState → ℕ → Lease → Lease × OneUseClaim
claim_from active now lease =
    if leb lease.deadline now
    then (record lease { current = expired }, refused expired)
    else (record lease { current = consumed }, claimed 1)
claim_from consumed now lease = (lease, refused consumed)
claim_from expired now lease = (lease, refused expired)
claim_from revoked now lease = (lease, refused revoked)

unfoldable pub claim : ℕ → Lease → Lease × OneUseClaim
unfolding claim_from
claim now lease = claim_from lease.current now lease

abbrev state_for : InvalidationReason → LeaseState
state_for by_expiry = expired
state_for by_revocation = revoked

invalidate_from : LeaseState → InvalidationReason → Lease → Lease
invalidate_from active reason lease = record lease { current = state_for reason }
invalidate_from _ reason lease = lease

unfoldable pub invalidate : InvalidationReason → Lease → Lease
unfolding invalidate_from
invalidate reason lease = invalidate_from lease.current reason lease

-- Whether the broader source is still offered; `suppressSource` withdraws it.
pub data Source : Type 0 where
  offered withdrawn : Source

suppress_source : Source → Source
suppress_source source = withdrawn

pub data ActivationResult : Type 0 where
  too_late : ActivationResult
  activated : Lease → ActivationResult

-- `Date.parse(expiresAt) - wallNow()`.
abbrev pub remaining_lifetime : Option ℕ → ℕ → Number
remaining_lifetime none wall = not_a_number
remaining_lifetime (some at) wall =
    if ltb at wall then negative (wall - at - 1) else thousandths (at - wall)

-- The lease is built before the source is withdrawn; a throw leaves the source as it was.
unfoldable pub prepare_one_use_activation :
    DateText → ℕ → ℕ → Source → Source × Result LeaseError ActivationResult
unfolding create_one_use_lease suppress_source
prepare_one_use_activation expires_at wall_now monotonic_now source =
    let remaining = remaining_lifetime (parse expires_at) wall_now in
    if is_not_positive remaining
    then (source, ok too_late)
    else elim (create_one_use_lease remaining monotonic_now) [
      | err e ↦ (source, err e)
      | ok lease ↦ (suppress_source source, ok (activated lease))
    ]

-- `onConsumed` runs on the caller's state, before any awaited work, and only for a granted claim.
unfoldable pub consume_one_use_before_await {ℓ} :
    {W : Type ℓ} → (ℕ → W → W) → ℕ → Lease → W → Lease × W × OneUseClaim
consume_one_use_before_await on_consumed now lease world =
    let (lease', outcome) = claim now lease in
    elim outcome [
      | claimed call_number ↦ (lease', on_consumed call_number world, claimed call_number)
      | refused reason ↦ (lease', world, refused reason)
    ]
