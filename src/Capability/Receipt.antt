-- ===== src/Capability/Receipt.antt =====
-- lib/capability-core/receipt.ts: the receipt that ties an approval to its one invocation.
pub mod Link
use webmcp_security_lab.Prelude.{
  ℕ, Bool, true, false, not, ◌&&◌, ◌||◌, Option, none, some, String, List, [], ◌∷◌, map, ltb, any,
  if◌then◌else◌, ◌==◌, string_eq,
}
use webmcp_security_lab.Prelude.Dates.{DateText, parse}

-- `Contract extends { protocol: string; contractHash: string }`; `rest` is what else it holds.
pub record Contract (C : Type 0) : Type 0 where
  pub protocol : String
  pub contract_hash : String
  pub rest : C

pub record ApprovalEvent : Type 0 where
  pub approved_at : DateText
  pub contract_hash : String

pub record Invocation : Type 0 where
  pub claimed_at : DateText
  pub call_number : ℕ

pub record Invalidation (R : Type 0) : Type 0 where
  pub reason : R
  pub at : DateText

pub record CapabilityReceipt (P C V R : Type 0) : Type 0 where
  pub protocol : String
  pub scope : String
  pub receipt_persistence : String
  pub proposal : P
  pub contract : Contract C
  pub approval_event : ApprovalEvent
  pub invocation : Invocation
  pub verification : V
  pub invalidation : Invalidation R

unfoldable pub link_capability_receipt :
    {P C V R : Type 0} (scope receipt_persistence : String) (proposal : P) (contract : Contract C)
    (approved_at claimed_at : DateText) (verification : V) (invalidated_at : DateText) (reason : R)
    → CapabilityReceipt P C V R
link_capability_receipt scope persistence proposal contract approved_at claimed_at verification
      invalidated_at reason =
    record {
      protocol = contract.protocol;
      scope = scope;
      receipt_persistence = persistence;
      proposal = proposal;
      contract = contract;
      approval_event = record { approved_at = approved_at; contract_hash = contract.contract_hash };
      invocation = record { claimed_at = claimed_at; call_number = 1 };
      verification = verification;
      invalidation = record { reason = reason; at = invalidated_at };
    }

pub data LinkResult : Type 0 where
  linked hash_mismatch chronology : LinkResult

-- `!Number.isFinite(time)`.
abbrev pub is_nan : Option ℕ → Bool
is_nan none = true
is_nan (some t) = false

-- `time < times[index - 1]`, false where either is NaN.
abbrev pub is_earlier : Option ℕ → Option ℕ → Bool
is_earlier (some t) (some u) = ltb t u
is_earlier _ _ = false

-- `times.some((time, index) => index > 0 && time < times[index - 1])`.
goes_back : List (Option ℕ) → Bool
goes_back [] = false
goes_back (t ∷ []) = false
goes_back (t ∷ u ∷ times) = is_earlier u t || goes_back (u ∷ times)

unfoldable pub verify_receipt_link :
    (contract_hash approval_contract_hash : String)
    (prepared_at approved_at claimed_at invalidated_at : DateText)
    → LinkResult
unfolding goes_back
verify_receipt_link contract_hash approval_hash prepared_at approved_at claimed_at invalidated_at =
    let times = map parse (prepared_at ∷ approved_at ∷ claimed_at ∷ invalidated_at ∷ []) in
    if not (contract_hash == approval_hash)
    then hash_mismatch
    else if any is_nan times || goes_back times
    then chronology
    else linked
