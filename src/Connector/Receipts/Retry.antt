-- ===== src/Connector/Receipts/Retry.antt =====
-- receipt-store.ts: an append that is made again.
use webmcp_security_lab.Prelude.{
  ℕ, ◌≡◌, refl, sym, ap, ◌∙◌, true, false, Option, none, some, String, List, any, option_beq_refl,
  ◌==◌, string_eq, eq_refl,
}
use webmcp_security_lab.Prelude.Result.{Result, ok, err, is_ok}
use webmcp_security_lab.Connector.Bridge.{PairedPageSummary}
use webmcp_security_lab.Connector.Receipts.{
  ReceiptError, EvidenceReceipt, ReceiptEntry, AppendOptions, Validator, find, adapter_eq,
  is_evidence, is_valid, is_exact_duplicate,
}
use webmcp_security_lab.Connector.Receipts.Store.{
  list_verified, admit_receipt, new_entry, answer_duplicate, store_receipt, append_verified,
  append_admitted, append,
}
use webmcp_security_lab.Connector.Receipts.Verified.{find-snoc, append-list_verified}

module _ {V : Type 0} (with_validator : Validator V) where
  module _ (page : PairedPageSummary) (options : AppendOptions)
      (accepting : options.accept_exact_duplicate ≡ true) where
    new_entry-duplicate :
        (entry_id : String) (now : ℕ) (r : EvidenceReceipt V) (entries : List (ReceiptEntry V))
        → (let e = new_entry with_validator entry_id now r page options entries in
            answer_duplicate with_validator e r page options ≡ ok e)
    unfolding new_entry answer_duplicate is_exact_duplicate
    new_entry-duplicate entry_id now r entries =
        rw
          (
            accepting,
            eq_refl (with_validator.hash r),
            eq_refl page.session_id,
            eq_refl page.origin,
            eq_refl page.page_url,
            eq_refl page.client_label,
            option_beq_refl options.adapter,
          )
          refl

    module _ (entry_id entry_id' : String) (now now' : ℕ) (r : EvidenceReceipt V) where
      stored_again :
          (entries later : List (ReceiptEntry V)) (found : Option (ReceiptEntry V))
          → find (λ e. e.body.receipt_id == r.id) entries ≡ found
          → later ≡ (store_receipt with_validator entry_id now page options r entries found).0
          → store_receipt with_validator entry_id' now' page options r later
              (find (λ e. e.body.receipt_id == r.id) later)
            ≡ store_receipt with_validator entry_id now page options r entries found
      unfolding store_receipt new_entry
      stored_again entries later (some d) h same = rw (same, h) refl
      stored_again entries later none h same =
          let e = new_entry with_validator entry_id now r page options entries in
          let seen : find (λ e. e.body.receipt_id == r.id) later ≡ some e =
            ap (find (λ e. e.body.receipt_id == r.id)) same
            ∙ find-snoc (λ e. e.body.receipt_id == r.id) entries e h (eq_refl r.id) in
          ap (store_receipt with_validator entry_id' now' page options r later) seen
          ∙ (λ i. (same i, new_entry-duplicate entry_id now r entries i))

    admitted_again :
        (entry_id entry_id' : String) (now now' : ℕ) (file : List (ReceiptEntry V))
        (admission : Result ReceiptError (EvidenceReceipt V))
        → list_verified with_validator file ≡ ok file
        → (let first = append_admitted with_validator entry_id now page options file admission in
            is_ok first.1 ≡ true
            → list_verified with_validator first.0 ≡ ok first.0
            → append_admitted with_validator entry_id' now' page options first.0 admission ≡ first)
    unfolding append_admitted append_verified
    admitted_again entry_id entry_id' now now' file (err e) h done h' = absurd (cc)
    admitted_again entry_id entry_id' now now' file (ok r) h done h' =
        let found = find (λ e. e.body.receipt_id == r.id) file in
        let first : append_admitted with_validator entry_id now page options file (ok r)
            ≡ store_receipt with_validator entry_id now page options r file found =
          ap (append_verified with_validator entry_id now page options file r) h in
        let later = (append_admitted with_validator entry_id now page options file (ok r)).0 in
        ap (append_verified with_validator entry_id' now' page options later r) h'
        ∙ stored_again entry_id entry_id' now now' r file later found refl (ap (λ p. p.0) first)
        ∙ sym first

  -- An append that answered with an entry, and that accepts its exact duplicate, can be made again,
  -- at any time and whatever entry id is generated: it answers with the very same entry, and the
  -- ledger stays as it is. This is under the conditions under which an append keeps a ledger that
  -- verifies.
  pub append_again :
      (entry_id entry_id' : String) (now now' : ℕ) (value : EvidenceReceipt V)
      (page : PairedPageSummary) (expected : Option String) (options : AppendOptions)
      (file : List (ReceiptEntry V))
      → ((v r : EvidenceReceipt V)
          → with_validator.validate v ≡ some r
          → is_valid (with_validator.validate r) ≡ true)
      → is_evidence options.adapter ≡ true
      → any (λ e. e.body.entry_id == entry_id) file ≡ false
      → list_verified with_validator file ≡ ok file
      → options.accept_exact_duplicate ≡ true
      → (let first = append with_validator entry_id now value page expected options file in
          is_ok first.1 ≡ true
          → append with_validator entry_id' now' value page expected options first.0 ≡ first)
  unfolding append
  append_again entry_id entry_id' now now' value page expected options file again evident fresh h
        accepting done =
      admitted_again page options accepting entry_id entry_id' now now' file
        (admit_receipt with_validator (with_validator.validate value) page expected) h done
        (append-list_verified with_validator entry_id now value page expected options file again
          evident fresh h)
