-- ===== src/Capability/Bindings.antt =====
-- lib/capability-core/bindings.ts: the bindings that a capability is checked against when it is used.
pub mod Drift
pub mod Observed
use webmcp_security_lab.Prelude.{
  ℕ, Bool, true, false, not, ◌&&◌, ◌||◌, Option, none, some, String, ltb, leb, if◌then◌else◌, ◌==◌,
  string_eq, option_beq,
}
use webmcp_security_lab.Prelude.Result.{Result, ok, err, ◌>>=◌}
use webmcp_security_lab.Prelude.Dates.{DateText, parse}

-- `now: string | number`; `unreadable` is a number that is not finite.
pub data Moment : Type 0 where
  millis : ℕ → Moment
  text : DateText → Moment
  unreadable : Moment

-- `timestamp`; `none` is a value that `Number.isFinite` refuses.
abbrev pub timestamp : Moment → Option ℕ
timestamp (millis t) = some t
timestamp (text s) = parse s
timestamp unreadable = none

pub data BindingFailure : Type 0 where
  consumed expired origin_drift handler_drift schema_drift source_drift baseline_drift :
      BindingFailure

pub record Expectations : Type 0 where
  pub max_calls : ℕ
  pub expires_at : DateText
  pub origin : String
  pub handler_version : String
  pub source_hash : String
  pub schema_hash : Option String
  pub baseline_hash : Option String

pub record Observation : Type 0 where
  pub calls_claimed : ℕ
  pub now : Moment
  pub origin : String
  pub handler_version : String
  pub source_hash : String
  pub schema_hash : Option String
  pub baseline_hash : Option String

pub data BindingResult : Type 0 where
  bound : BindingResult
  unbound : BindingFailure → BindingResult

-- `!Number.isFinite(observedAt) || !Number.isFinite(expiresAt) || observedAt >= expiresAt`.
unfoldable pub is_over : Option ℕ → Option ℕ → Bool
is_over none expires_at = true
is_over (some observed_at) none = true
is_over (some observed_at) (some expires_at) = leb expires_at observed_at

-- `expected !== undefined && observed !== expected`.
unfoldable pub differs : Option String → Option String → Bool
differs none observed = false
differs (some h) observed = not (option_beq observed (some h))

unfoldable pub check_capability_bindings : Expectations → Observation → BindingResult
check_capability_bindings expected observed =
    if leb expected.max_calls observed.calls_claimed
    then unbound consumed
    else if is_over (timestamp observed.now) (parse expected.expires_at)
    then unbound expired
    else if not (observed.origin == expected.origin)
    then unbound origin_drift
    else if not (observed.handler_version == expected.handler_version)
    then unbound handler_drift
    else if differs expected.schema_hash observed.schema_hash
    then unbound schema_drift
    else if not (observed.source_hash == expected.source_hash)
    then unbound source_drift
    else if differs expected.baseline_hash observed.baseline_hash
    then unbound baseline_drift
    else bound

-- A `HashValue` of the caller: it fails on a value that it cannot encode.
module _ {V E : Type 0} (hash : V → Result E String) where
  -- `baseline === undefined ? undefined : hash(baseline)`.
  abbrev pub hash_optional : Option V → Result E (Option String)
  hash_optional none = ok none
  hash_optional (some v) = do ok (some (← hash v))

  -- `source` is the object `{ tool, handlerVersion, origin }` that `hashSourceBinding` hashes, and
  -- `schema` the tool's input schema. The hashes run together; the model reports the first failure.
  unfoldable pub observe_capability_bindings :
      (source schema : V) (handler_version origin : String) (baseline : Option V)
      (calls_claimed : ℕ) (now : Moment)
      → Result E Observation
  observe_capability_bindings source schema handler_version origin baseline calls_claimed now = do
    source_hash ← hash source
    schema_hash ← hash schema
    baseline_hash ← hash_optional baseline
    ok (record {
      calls_claimed = calls_claimed;
      now = now;
      origin = origin;
      handler_version = handler_version;
      source_hash = source_hash;
      schema_hash = some schema_hash;
      baseline_hash = baseline_hash;
    })
