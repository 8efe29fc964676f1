-- ===== src/Connector/Receipts/Store.antt =====
-- receipt-store.ts: the verification of the ledger's chain, and `append`. Its parts are functions by
-- clauses of what the step before them came to.
use webmcp_security_lab.Prelude.{
  ℕ, suc, Bool, true, not, ◌&&◌, Option, none, some, String, List, [], ◌∷◌, ◌++◌, any, option_beq,
  if◌then◌else◌, ◌==◌, string_eq,
}
use webmcp_security_lab.Prelude.Result.{Result, ok, err, ◌>>=◌, ◌>>◌, guard}
use webmcp_security_lab.Prelude.Dates.{to_iso, date_eq}
use webmcp_security_lab.Connector.Bridge.{PairedPageSummary}
use webmcp_security_lab.Connector.Receipts.{
  EvidenceReceipt, ReceiptEntry, EntryBody, AppendOptions, Validator, ReceiptError, bad_receipt,
  origin_mismatch, other_capability, already_recorded, chain_failed, adapter_failed,
  integrity_failed, schema_failed, not_found, report_limitation, connection_of, is_evidence,
  is_valid, find, previous_of, is_exact_duplicate,
}

module _ {V : Type 0} (with_validator : Validator V) where
  -- One round of the loop of `listVerified`, for the entry of a line.
  unfoldable pub check_entry :
      (line : ℕ)
      → Option String
      → (entry_ids receipt_ids : List String) → ReceiptEntry V
      → Result ReceiptError (Unit {0})
  check_entry line previous entry_ids receipt_ids entry = do
    guard
        (option_beq entry.body.previous_entry_hash previous
          && not (any (λ id. id == entry.body.entry_id) entry_ids)
          && not (any (λ id. id == entry.body.receipt_id) receipt_ids))
        (chain_failed line)
    guard (is_evidence entry.body.adapter) (adapter_failed line)
    guard
        (entry.entry_hash == with_validator.hash_entry entry.body
          && entry.body.receipt_hash == with_validator.hash entry.body.receipt
          && entry.body.receipt.id == entry.body.receipt_id
          && entry.body.receipt.origin == entry.body.connection.origin)
        (integrity_failed line)
    guard (is_valid (with_validator.validate entry.body.receipt)) (schema_failed line)
    ok tt

  unfoldable pub check_entries :
      ℕ
      → Option String
      → (entry_ids receipt_ids : List String) → List (ReceiptEntry V)
      → Result ReceiptError (Unit {0})
  check_entries line previous entry_ids receipt_ids [] = ok tt
  check_entries line previous entry_ids receipt_ids (e ∷ es) = do
    check_entry line previous entry_ids receipt_ids e
    check_entries (suc line) (some e.entry_hash) (e.body.entry_id ∷ entry_ids)
        (e.body.receipt_id ∷ receipt_ids) es

  unfoldable pub list_verified : List (ReceiptEntry V) → Result ReceiptError (List (ReceiptEntry V))
  list_verified file = do check_entries 1 none [] [] file; ok file

  abbrev pub is_expected : EvidenceReceipt V → Option String → Bool
  is_expected receipt none = true
  is_expected receipt (some name) = receipt.declaration_name == name

  -- `append` up to its reading of the ledger.
  unfoldable pub admit_receipt :
      Option (EvidenceReceipt V)
      → PairedPageSummary
      → Option String
      → Result ReceiptError (EvidenceReceipt V)
  admit_receipt none page expected = err bad_receipt
  admit_receipt (some receipt) page expected = do
    guard (receipt.origin == page.origin) origin_mismatch
    guard (is_expected receipt expected) other_capability
    ok receipt

  unfoldable pub new_entry :
      (entry_id : String) (now : ℕ)
      → EvidenceReceipt V
      → PairedPageSummary
      → AppendOptions
      → List (ReceiptEntry V)
      → ReceiptEntry V
  new_entry entry_id now receipt page options entries =
      let body : EntryBody V = record {
        entry_id = entry_id;
        recorded_at = to_iso now;
        connection = connection_of page;
        receipt_id = receipt.id;
        receipt_hash = with_validator.hash receipt;
        adapter = options.adapter;
        previous_entry_hash = previous_of entries;
        receipt = receipt;
        limitation = report_limitation;
      } in
      record { body = body; entry_hash = with_validator.hash_entry body }

  -- The answer to a receipt whose id an entry has.
  unfoldable pub answer_duplicate :
      ReceiptEntry V
      → EvidenceReceipt V
      → PairedPageSummary
      → AppendOptions
      → Result ReceiptError (ReceiptEntry V)
  answer_duplicate duplicate receipt page options =
      if is_exact_duplicate duplicate (with_validator.hash receipt) page options
      then ok duplicate
      else err already_recorded

  -- The rest of `append`; `found` is the entry with the receipt's id.
  unfoldable pub store_receipt :
      (entry_id : String) (now : ℕ)
      → PairedPageSummary
      → AppendOptions
      → EvidenceReceipt V
      → List (ReceiptEntry V)
      → Option (ReceiptEntry V)
      → List (ReceiptEntry V) × Result ReceiptError (ReceiptEntry V)
  store_receipt entry_id now page options receipt entries (some duplicate) =
      (entries, answer_duplicate duplicate receipt page options)
  store_receipt entry_id now page options receipt entries none =
      let entry = new_entry entry_id now receipt page options entries in
      (entries ++ entry ∷ [], ok entry)

  unfoldable pub append_verified :
      (entry_id : String) (now : ℕ)
      → PairedPageSummary
      → AppendOptions
      → List (ReceiptEntry V)
      → EvidenceReceipt V
      → Result ReceiptError (List (ReceiptEntry V))
      → List (ReceiptEntry V) × Result ReceiptError (ReceiptEntry V)
  append_verified entry_id now page options file receipt (err e) = (file, err e)
  append_verified entry_id now page options file receipt (ok entries) =
      store_receipt entry_id now page options receipt entries
        (find (λ e. e.body.receipt_id == receipt.id) entries)

  unfoldable pub append_admitted :
      (entry_id : String) (now : ℕ)
      → PairedPageSummary
      → AppendOptions
      → List (ReceiptEntry V)
      → Result ReceiptError (EvidenceReceipt V)
      → List (ReceiptEntry V) × Result ReceiptError (ReceiptEntry V)
  append_admitted entry_id now page options file (err e) = (file, err e)
  append_admitted entry_id now page options file (ok receipt) =
      append_verified entry_id now page options file receipt (list_verified file)

  -- `entry_id` is what the generator returns.
  unfoldable pub append :
      (entry_id : String) (now : ℕ)
      → EvidenceReceipt V
      → PairedPageSummary
      → Option String
      → AppendOptions
      → List (ReceiptEntry V)
      → List (ReceiptEntry V) × Result ReceiptError (ReceiptEntry V)
  append entry_id now value page expected options file =
      append_admitted entry_id now page options file
        (admit_receipt (with_validator.validate value) page expected)

  unfoldable pub get_verified :
      String → List (ReceiptEntry V) → Result ReceiptError (ReceiptEntry V)
  get_verified entry_id file = do
    entries ← list_verified file
    elim (find (λ e. e.body.entry_id == entry_id) entries) [ none ↦ err not_found | some e ↦ ok e ]
