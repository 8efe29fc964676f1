-- ===== src/Capability/Tests.antt =====
-- Concrete leases, bindings and receipts: tests of the definitions, and the theorems at inputs that
-- meet their hypotheses.
use webmcp_security_lab.Prelude.{◌≡◌, ◌↔◌, ◌≤◌, refl, some, String, List, [], ◌∷◌, arith}
use webmcp_security_lab.Prelude.Result.{Result, ok, err}
use webmcp_security_lab.Prelude.Dates.{DateText, exact}
use webmcp_security_lab.Capability.Lease.{
  Lease, active, by_revocation, offered, withdrawn, activated, too_late, lifetime_required, claim,
  invalidate, prepare_one_use_activation,
}
use webmcp_security_lab.Capability.Lease.OneUse.{Call, claims, invalidates, grants, grants-le-one}
use webmcp_security_lab.Capability.Lease.Activation.{withdrawn_iff_activated}
use webmcp_security_lab.Capability.Bindings.{
  Expectations, Observation, millis, bound, check_capability_bindings, observe_capability_bindings,
}
use webmcp_security_lab.Capability.Bindings.Drift.{Binds, check_iff}
use webmcp_security_lab.Capability.Bindings.Observed.{observed_is_Approved}
use webmcp_security_lab.Capability.Receipt.{Contract}

abbrev fresh : Lease
fresh = record { deadline = 100; current = active }

abbrev busy : List Call
busy = claims 40 ∷ invalidates by_revocation ∷ claims 50 ∷ claims 60 ∷ []

busy-grants : grants fresh busy ≡ 1
unfolding grants claim invalidate
busy-grants = refl

grants-le-one_example : grants fresh busy ≤ 1
grants-le-one_example = grants-le-one fresh busy

late_activation : prepare_one_use_activation (exact 10) 10 0 offered ≡ (offered, ok too_late)
unfolding prepare_one_use_activation
late_activation = refl

unreadable_activation :
    prepare_one_use_activation (DateText.invalid "soon") 10 0 offered
    ≡ (offered, err lifetime_required)
unfolding prepare_one_use_activation
unreadable_activation = refl

withdrawn_iff_activated_example :
    ((prepare_one_use_activation (exact 90) 10 5 offered).0 ≡ withdrawn) ↔ (
      (lease : Lease) × ((prepare_one_use_activation (exact 90) 10 5 offered).1
        ≡ ok (activated lease)))
withdrawn_iff_activated_example = withdrawn_iff_activated (exact 90) 10 5

abbrev replacement : Lease
replacement = record { deadline = 85; current = active }

-- A hash that gives a text back, marked.
abbrev mark : String → Result String String
mark s = ok s

abbrev approved : Expectations
approved = record {
  max_calls = 1;
  expires_at = exact 500;
  origin = "https://lab.example";
  handler_version = "1";
  source_hash = "tool";
  schema_hash = some "schema";
  baseline_hash = some "base";
}

abbrev seen : Observation
seen = record {
  calls_claimed = 0;
  now = millis 400;
  origin = "https://lab.example";
  handler_version = "1";
  source_hash = "tool";
  schema_hash = some "schema";
  baseline_hash = some "base";
}

seen-Binds : Binds approved seen
seen-Binds = record {
  unused = omega arith;
  in_time = omega arith;
  same_origin = refl;
  same_handler = refl;
  same_source = refl;
  same_schema = refl;
  same_baseline = refl;
}

check_iff_example : (check_capability_bindings approved seen ≡ bound) ↔ Binds approved seen
check_iff_example = check_iff approved seen

observed_is_Approved_example :
    ◌≡◌ {A = String} "tool" "tool"
    × ◌≡◌ {A = String} "schema" "schema"
    × ((b : String) → some "base" ≡ some b → some "base" ≡ some b)
unfolding observe_capability_bindings
observed_is_Approved_example =
    observed_is_Approved mark (λ v w h p q. cc) "tool" "schema" "tool" "schema" (some "base")
      (some "base") approved "1" "https://lab.example" 0 (millis 400) seen
      (record {
        source_hashed = refl;
        schema_hashed = ("schema", refl, refl);
        baseline_hashed = refl;
      })
      refl ((check_iff approved seen).1 seen-Binds)

abbrev contract : Contract String
contract = record { protocol = "p/1"; contract_hash = "hash"; rest = "intent" }
