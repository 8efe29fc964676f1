-- ===== src/Capability/Bindings/Drift.antt =====
-- What a binding check accepts, and what it says otherwise.
use webmcp_security_lab.Prelude.{
  ℕ, ◌≤◌, ◌<◌, ◌≡◌, ◌≢◌, refl, ◌↔◌, Option, none, some, String, arith, eq_iff, false, string_eq,
}
use webmcp_security_lab.Prelude.Dates.{parse}
use webmcp_security_lab.Capability.Bindings.{
  timestamp, BindingFailure, Expectations, Observation, bound, unbound, is_over, differs,
  check_capability_bindings, consumed, expired, origin_drift, handler_drift, schema_drift,
  source_drift, baseline_drift,
}

-- An expected hash that is given is the one observed.
abbrev pub Agrees : Option String → Option String → Type 0
Agrees none observed = Unit
Agrees (some h) observed = observed ≡ some h

-- The observed instant is readable and lies before a readable expiry.
abbrev pub IsBefore : Option ℕ → Option ℕ → Type 0
IsBefore (some t) (some u) = t < u
IsBefore _ _ = ⊥

-- What the caller of a capability relies on.
pub record Binds (expected : Expectations) (observed : Observation) : Type 0 where
  pub unused : observed.calls_claimed < expected.max_calls
  pub in_time : IsBefore (timestamp observed.now) (parse expected.expires_at)
  pub same_origin : observed.origin ≡ expected.origin
  pub same_handler : observed.handler_version ≡ expected.handler_version
  pub same_source : observed.source_hash ≡ expected.source_hash
  pub same_schema : Agrees expected.schema_hash observed.schema_hash
  pub same_baseline : Agrees expected.baseline_hash observed.baseline_hash

pub differs_iff : (e o : Option String) → (differs e o ≡ false) ↔ Agrees e o
unfolding differs
differs_iff none o = (λ h. tt, λ h. refl)
differs_iff (some h) none = (λ e. cc, λ e. cc)
differs_iff (some h) (some k) = (λ e. ground (arith, eq_iff k h), λ e. ground (arith, eq_iff k h))

is_over_iff : (t u : Option ℕ) → (is_over t u ≡ false) ↔ IsBefore t u
unfolding is_over
is_over_iff none u = (λ h. cc, λ h. elim h [ ])
is_over_iff (some t) none = (λ h. cc, λ h. elim h [ ])
is_over_iff (some t) (some u) = (λ h. ground arith, λ h. ground arith)

module _ (expected : Expectations) (observed : Observation) where
  -- The check passes exactly when every binding holds.
  pub check_iff : (check_capability_bindings expected observed ≡ bound) ↔ Binds expected observed
  unfolding check_capability_bindings
  check_iff = (to, from)
    where
      open observed use {origin, handler_version, source_hash}

      to : check_capability_bindings expected observed ≡ bound → Binds expected observed
      to h = ground (
        arith,
        is_over_iff (timestamp observed.now) (parse expected.expires_at),
        eq_iff origin expected.origin,
        eq_iff handler_version expected.handler_version,
        eq_iff source_hash expected.source_hash,
        differs_iff expected.schema_hash observed.schema_hash,
        differs_iff expected.baseline_hash observed.baseline_hash,
      )

      from : Binds expected observed → check_capability_bindings expected observed ≡ bound
      from b = ground (
        arith,
        is_over_iff (timestamp observed.now) (parse expected.expires_at),
        eq_iff origin expected.origin,
        eq_iff handler_version expected.handler_version,
        eq_iff source_hash expected.source_hash,
        differs_iff expected.schema_hash observed.schema_hash,
        differs_iff expected.baseline_hash observed.baseline_hash,
      )

-- The binding that a reason names does not hold.
abbrev pub Drifted : BindingFailure → Expectations → Observation → Type 0
Drifted consumed e o = e.max_calls ≤ o.calls_claimed
Drifted expired e o = ¬ (IsBefore (timestamp o.now) (parse e.expires_at))
Drifted origin_drift e o = o.origin ≢ e.origin
Drifted handler_drift e o = o.handler_version ≢ e.handler_version
Drifted schema_drift e o = ¬ (Agrees e.schema_hash o.schema_hash)
Drifted source_drift e o = o.source_hash ≢ e.source_hash
Drifted baseline_drift e o = ¬ (Agrees e.baseline_hash o.baseline_hash)

-- A refusal names a binding that really does not hold.
pub check-Drifted :
    (reason : BindingFailure) (expected : Expectations) (observed : Observation)
    → check_capability_bindings expected observed ≡ unbound reason
    → Drifted reason expected observed
unfolding check_capability_bindings
check-Drifted consumed e o h = ground arith
check-Drifted expired e o h =
    λ b. ground (arith, (is_over_iff (timestamp o.now) (parse e.expires_at)).1 b)
check-Drifted origin_drift e o h = λ q. ground (arith, eq_iff o.origin e.origin)
check-Drifted handler_drift e o h = λ q. ground (arith, eq_iff o.handler_version e.handler_version)
check-Drifted schema_drift e o h =
    λ q. ground (arith, (differs_iff e.schema_hash o.schema_hash).1 q)
check-Drifted source_drift e o h = λ q. ground (arith, eq_iff o.source_hash e.source_hash)
check-Drifted baseline_drift e o h =
    λ q. ground (arith, (differs_iff e.baseline_hash o.baseline_hash).1 q)
