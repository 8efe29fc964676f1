-- ===== src/Connector/Receipts/Verified.antt =====
-- receipt-store.ts: an append to a ledger that verifies.
use webmcp_security_lab.Prelude.{
  ℕ, suc, ◌≡◌, refl, sym, ap, subst, ◌∙◌, Bool, true, false, Option, none, some, String, List, [],
  ◌∷◌, ◌++◌, any, option_beq, option_beq_refl, arith, ◌==◌, string_eq, eq_refl,
}
use webmcp_security_lab.Prelude.Result.{Result, ok, err, guard_passed, >>=-eq-ok, ok-injective}
use webmcp_security_lab.Connector.Bridge.{PairedPageSummary}
use webmcp_security_lab.Connector.Receipts.{
  ReceiptError, origin_mismatch, other_capability, EvidenceReceipt, ReceiptEntry, AppendOptions,
  Validator, find, previous_of, is_evidence, is_valid,
}
use webmcp_security_lab.Connector.Receipts.Store.{
  is_expected, check_entry, check_entries, list_verified, admit_receipt, new_entry, store_receipt,
  append_verified, append_admitted, append,
}

pub find-none : {A : Type 0} (p : A → Bool) (xs : List A) → find p xs ≡ none → any p xs ≡ false
find-none p [] h = refl
find-none p (x ∷ xs) h = ground (arith, find-none p xs)

pub find-snoc :
    {A : Type 0} (p : A → Bool) (xs : List A) (x : A)
    → find p xs ≡ none
    → p x ≡ true
    → find p (xs ++ x ∷ []) ≡ some x
find-snoc p [] x h t = rw t refl
find-snoc p (y ∷ xs) x h t = ground (arith, find-snoc p xs x)

module _ {V : Type 0} where
  abbrev previous_from : Option String → List (ReceiptEntry V) → Option String
  previous_from previous [] = previous
  previous_from previous (e ∷ es) = previous_from (some e.entry_hash) es

  previous_from-some :
      (previous : Option String) (e : ReceiptEntry V) (es : List (ReceiptEntry V))
      → previous_of (e ∷ es) ≡ previous_from previous (e ∷ es)
  previous_from-some previous e [] = refl
  previous_from-some previous e (f ∷ es) = previous_from-some (some e.entry_hash) f es

  previous_from_lem : (es : List (ReceiptEntry V)) → previous_of es ≡ previous_from none es
  previous_from_lem [] = refl
  previous_from_lem (e ∷ es) = previous_from-some none e es

module _ {V : Type 0} (with_validator : Validator V) where
  record IsSound (e : ReceiptEntry V) : Type 0 where
    evident : is_evidence e.body.adapter ≡ true
    hashed : (e.entry_hash == with_validator.hash_entry e.body) ≡ true
    receipt_hashed : (e.body.receipt_hash == with_validator.hash e.body.receipt) ≡ true
    same_id : (e.body.receipt.id == e.body.receipt_id) ≡ true
    same_origin : (e.body.receipt.origin == e.body.connection.origin) ≡ true
    valid : is_valid (with_validator.validate e.body.receipt) ≡ true

  check_entry-IsSound :
      (line : ℕ) (previous : Option String) (entry_ids receipt_ids : List String)
      (e : ReceiptEntry V)
      → IsSound e
      → e.body.previous_entry_hash ≡ previous
      → any (λ id. id == e.body.entry_id) entry_ids ≡ false
      → any (λ id. id == e.body.receipt_id) receipt_ids ≡ false
      → check_entry with_validator line previous entry_ids receipt_ids e ≡ ok tt
  unfolding check_entry
  check_entry-IsSound line previous entry_ids receipt_ids e sound p a b =
      let linked : option_beq e.body.previous_entry_hash previous ≡ true =
        ap (option_beq e.body.previous_entry_hash) (sym p)
        ∙ option_beq_refl e.body.previous_entry_hash in
      rw
        (
          linked, a, b, sound.evident, sound.hashed, sound.receipt_hashed, sound.same_id,
          sound.same_origin, sound.valid,
        )
        refl

  -- An entry that comes after those that were checked.
  check_entries-snoc :
      (line : ℕ) (previous : Option String) (entry_ids receipt_ids : List String)
      (es : List (ReceiptEntry V)) (new : ReceiptEntry V)
      → check_entries with_validator line previous entry_ids receipt_ids es ≡ ok tt
      → IsSound new
      → new.body.previous_entry_hash ≡ previous_from previous es
      → any (λ id. id == new.body.entry_id) entry_ids ≡ false
      → any (λ id. id == new.body.receipt_id) receipt_ids ≡ false
      → any (λ e. e.body.entry_id == new.body.entry_id) es ≡ false
      → any (λ e. e.body.receipt_id == new.body.receipt_id) es ≡ false
      → check_entries with_validator line previous entry_ids receipt_ids (es ++ new ∷ []) ≡ ok tt
  unfolding check_entries
  check_entries-snoc line previous entry_ids receipt_ids [] new h sound p a b c d =
      rw (check_entry-IsSound line previous entry_ids receipt_ids new sound p a b) refl
  check_entries-snoc line previous entry_ids receipt_ids (e ∷ es) new h sound p a b c d =
      let (u, checked, rest) =
        >>=-eq-ok (check_entry with_validator line previous entry_ids receipt_ids e) _ h in
      rw checked (
        check_entries-snoc (suc line) (some e.entry_hash) (e.body.entry_id ∷ entry_ids)
          (e.body.receipt_id ∷ receipt_ids) es new rest sound p (ground arith) (ground arith)
          (ground arith) (ground arith))

  abbrev pub IsVerified : List (ReceiptEntry V) → Type 0
  IsVerified file = check_entries with_validator 1 none [] [] file ≡ ok tt

  pub list_verified_lem :
      (file : List (ReceiptEntry V)) → IsVerified file → list_verified with_validator file ≡ ok file
  unfolding list_verified
  list_verified_lem file h = rw h refl

  pub list_verified-IsVerified :
      (file entries : List (ReceiptEntry V))
      → list_verified with_validator file ≡ ok entries
      → IsVerified file
  unfolding list_verified
  list_verified-IsVerified file entries h =
      let (u, checked, last) = >>=-eq-ok (check_entries with_validator 1 none [] [] file) _ h in
      checked

  abbrev IsAdmitted : PairedPageSummary → EvidenceReceipt V → Type 0
  IsAdmitted page r =
      ((r.origin == page.origin) ≡ true) × (is_valid (with_validator.validate r) ≡ true)

  admit_receipt-IsAdmitted :
      (value : EvidenceReceipt V) (page : PairedPageSummary) (expected : Option String)
      (found : Option (EvidenceReceipt V)) (r : EvidenceReceipt V)
      → ((s : EvidenceReceipt V) → found ≡ some s → is_valid (with_validator.validate s) ≡ true)
      → admit_receipt with_validator found page expected ≡ ok r
      → IsAdmitted page r
  unfolding admit_receipt
  admit_receipt-IsAdmitted value page expected none r again h = absurd (cc)
  admit_receipt-IsAdmitted value page expected (some s) r again h =
      let (a, h1) = guard_passed (s.origin == page.origin) origin_mismatch h in
      let (b, h2) = guard_passed (is_expected with_validator s expected) other_capability h1 in
      let same : s ≡ r = ok-injective h2 in subst (IsAdmitted page) same (a, again s refl)

  module _ (page : PairedPageSummary) (options : AppendOptions)
      (evident : is_evidence options.adapter ≡ true) where
    new_entry-IsSound :
        (entry_id : String) (now : ℕ) (r : EvidenceReceipt V) (entries : List (ReceiptEntry V))
        → IsAdmitted page r
        → IsSound (new_entry with_validator entry_id now r page options entries)
    unfolding new_entry
    new_entry-IsSound entry_id now r entries (o, v) = record {
      evident = evident;
      hashed = eq_refl _;
      receipt_hashed = eq_refl (with_validator.hash r);
      same_id = eq_refl r.id;
      same_origin = o;
      valid = v;
    }

    store_receipt-IsVerified :
        (entry_id : String) (now : ℕ) (r : EvidenceReceipt V) (entries : List (ReceiptEntry V))
        (found : Option (ReceiptEntry V))
        → IsAdmitted page r
        → any (λ e. e.body.entry_id == entry_id) entries ≡ false
        → (found ≡ none → any (λ e. e.body.receipt_id == r.id) entries ≡ false)
        → IsVerified entries
        → IsVerified (store_receipt with_validator entry_id now page options r entries found).0
    unfolding store_receipt new_entry
    store_receipt-IsVerified entry_id now r entries (some d) admitted fresh unseen h = h
    store_receipt-IsVerified entry_id now r entries none admitted fresh unseen h =
        check_entries-snoc 1 none [] [] entries
          (new_entry with_validator entry_id now r page options entries) h
          (new_entry-IsSound entry_id now r entries admitted) (previous_from_lem entries) refl refl
          fresh (unseen refl)

    append_admitted-IsVerified :
        (entry_id : String) (now : ℕ) (file : List (ReceiptEntry V))
        (admission : Result ReceiptError (EvidenceReceipt V))
        → ((r : EvidenceReceipt V) → admission ≡ ok r → IsAdmitted page r)
        → any (λ e. e.body.entry_id == entry_id) file ≡ false
        → IsVerified file
        → IsVerified (append_admitted with_validator entry_id now page options file admission).0
    unfolding append_admitted append_verified
    append_admitted-IsVerified entry_id now file (err e) admitted fresh h = h
    append_admitted-IsVerified entry_id now file (ok r) admitted fresh h =
        subst
          (λ listed.
            IsVerified (append_verified with_validator entry_id now page options file r listed).0)
          (sym (list_verified_lem file h))
          (store_receipt-IsVerified entry_id now r file (find (λ e. e.body.receipt_id == r.id) file)
            (admitted r refl) fresh (find-none (λ e. e.body.receipt_id == r.id) file) h)

  -- Where what the validator returns is valid again, an append keeps a ledger that verifies, whatever
  -- it is given and whatever it answers, if the adapter it is given is evidence and its entry id is
  -- new.
  pub append-list_verified :
      (entry_id : String) (now : ℕ) (value : EvidenceReceipt V) (page : PairedPageSummary)
      (expected : Option String) (options : AppendOptions) (file : List (ReceiptEntry V))
      → ((v r : EvidenceReceipt V)
          → with_validator.validate v ≡ some r
          → is_valid (with_validator.validate r) ≡ true)
      → is_evidence options.adapter ≡ true
      → any (λ e. e.body.entry_id == entry_id) file ≡ false
      → list_verified with_validator file ≡ ok file
      → (let later = (append with_validator entry_id now value page expected options file).0 in
          list_verified with_validator later ≡ ok later)
  unfolding append
  append-list_verified entry_id now value page expected options file again evident fresh h =
      list_verified_lem (append with_validator entry_id now value page expected options file).0 (
        append_admitted-IsVerified page options evident entry_id now file
          (admit_receipt with_validator (with_validator.validate value) page expected)
          (λ r.
            admit_receipt-IsAdmitted value page expected (with_validator.validate value) r
              (again value))
          fresh (list_verified-IsVerified file file h))
