-- ===== src/Connector/Receipts.antt =====
-- products/connector/receipt-store.ts: the ledger of the receipts that paired pages returned. The file
-- is the list of its entries in the order of its lines, so a line that is not JSON is left out. The
-- write chain runs one append at a time. `validate` is validateConnectorCapabilityReceipt, `hash` and
-- `hash_entry` are sha256Hex of a receipt and of an entry without its own hash.
pub mod Store
pub mod Verified
pub mod Retry
mod Tests
use webmcp_security_lab.Prelude.{
  ℕ, Bool, true, false, ◌&&◌, Option, none, some, String, List, [], ◌∷◌, last?, option_beq,
  StrictEquality, if◌then◌else◌, ◌==◌, string_eq, ◌↔◌, ◌≡◌, eq_iff, arith,
}
use webmcp_security_lab.Prelude.Dates.{DateText, parse, same_date, same_date_iff}
use webmcp_security_lab.Prelude.Text.{is_sha256}
use webmcp_security_lab.Connector.Bridge.{PairedPageSummary}

pub data ReportLimitation : Type 0 where
  report_limitation legacy_self_reported : ReportLimitation

pub data ReceiptError : Type 0 where
  bad_receipt origin_mismatch other_capability already_recorded : ReceiptError
  chain_failed adapter_failed integrity_failed schema_failed : (line : ℕ) → ReceiptError
  not_found : ReceiptError

-- What the store reads of an `EvidenceReceipt`; `rest` is the rest of it.
pub record EvidenceReceipt (V : Type 0) : Type 0 where
  pub id : String
  pub origin : String
  pub declaration_name : String
  pub rest : V

-- Its `enforcement` has one value.
pub record Adapter : Type 0 where
  pub capability_permit_sha256 : String
  pub consumed_at : DateText

unfoldable pub same_adapter : Adapter → Adapter → Bool
same_adapter a b =
    a.capability_permit_sha256 == b.capability_permit_sha256
    && same_date a.consumed_at b.consumed_at

pub same_adapter_iff : (a b : Adapter) → (same_adapter a b ≡ true) ↔ (a ≡ b)
unfolding same_adapter
same_adapter_iff a b = ground (
  arith,
  eq_iff a.capability_permit_sha256 b.capability_permit_sha256,
  same_date_iff a.consumed_at b.consumed_at,
)

-- `canonicalJson` of two adapters is equal when they are.
instance abbrev pub adapter_eq : StrictEquality Adapter
adapter_eq = record { same = same_adapter; same_iff = same_adapter_iff }

pub record Connection : Type 0 where
  pub session_id : String
  pub origin : String
  pub page_url : String
  pub client_label : String

-- A `ConnectorReceiptEntry` without its hash.
pub record EntryBody (V : Type 0) : Type 0 where
  pub entry_id : String
  pub recorded_at : DateText
  pub connection : Connection
  pub receipt_id : String
  pub receipt_hash : String
  pub adapter : Option Adapter
  pub previous_entry_hash : Option String
  pub receipt : EvidenceReceipt V
  pub limitation : ReportLimitation

pub record ReceiptEntry (V : Type 0) : Type 0 where
  pub body : EntryBody V
  pub entry_hash : String

pub record AppendOptions : Type 0 where
  pub accept_exact_duplicate : Bool
  pub adapter : Option Adapter

pub record Validator (V : Type 0) : Type 0 where
  pub validate : EvidenceReceipt V → Option (EvidenceReceipt V)
  pub hash : EvidenceReceipt V → String
  pub hash_entry : EntryBody V → String

abbrev pub connection_of : PairedPageSummary → Connection
connection_of page = record {
  session_id = page.session_id;
  origin = page.origin;
  page_url = page.page_url;
  client_label = page.client_label;
}

abbrev pub is_finite : Option ℕ → Bool
is_finite none = false
is_finite (some t) = true

-- The test of an entry's adapter.
unfoldable pub is_evidence : Option Adapter → Bool
is_evidence none = true
is_evidence (some adapter) =
    is_sha256 adapter.capability_permit_sha256 && is_finite (parse adapter.consumed_at)

abbrev pub is_valid {ℓ} : {A : Type ℓ} → Option A → Bool
is_valid none = false
is_valid (some a) = true

-- `entries.find`.
abbrev pub find : {A : Type 0} → (A → Bool) → List A → Option A
find p [] = none
find p (x ∷ xs) = if p x then some x else find p xs

module _ {V : Type 0} where
  abbrev pub previous_of : List (ReceiptEntry V) → Option String
  previous_of entries = elim (last? entries) [ none ↦ none | some e ↦ some e.entry_hash ]

  -- The test of a duplicate that is returned as it is.
  unfoldable pub is_exact_duplicate :
      ReceiptEntry V → String → PairedPageSummary → AppendOptions → Bool
  is_exact_duplicate duplicate receipt_hash page options =
      options.accept_exact_duplicate
      && duplicate.body.receipt_hash == receipt_hash
      && duplicate.body.connection.session_id == page.session_id
      && duplicate.body.connection.origin == page.origin
      && duplicate.body.connection.page_url == page.page_url
      && duplicate.body.connection.client_label == page.client_label
      && option_beq duplicate.body.adapter options.adapter
