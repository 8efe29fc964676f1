-- ===== src/Connector/Receipts/Tests.antt =====
-- A ledger of one receipt: tests of the store, and the theorems at it.
use webmcp_security_lab.Prelude.{
  ◌≡◌, refl, true, Option, none, some, String, List, [], ◌∷◌, ◌==◌, string_eq, if◌then◌else◌, arith,
}
use webmcp_security_lab.Prelude.Result.{ok, err, is_ok}
use webmcp_security_lab.Prelude.Dates.{exact}
use webmcp_security_lab.Prelude.Text.{is_sha256}
use webmcp_security_lab.Connector.Bridge.{PairedPageSummary}
use webmcp_security_lab.Connector.Receipts.{
  EvidenceReceipt, ReceiptEntry, AppendOptions, Validator, chain_failed, already_recorded,
  origin_mismatch, is_evidence, is_valid, is_exact_duplicate,
}
use webmcp_security_lab.Connector.Receipts.Store.{
  check_entry, check_entries, list_verified, admit_receipt, new_entry, answer_duplicate,
  store_receipt, append_verified, append_admitted, append, get_verified,
}
use webmcp_security_lab.Connector.Receipts.Verified.{append-list_verified}
use webmcp_security_lab.Connector.Receipts.Retry.{append_again}

abbrev digits : String
digits = "0123456789abcdef0123456789abcdef0123456789abcdef0123456789abcdef"

-- A receipt is valid when its rest is: what the validator returns is what it was given.
abbrev checked : EvidenceReceipt String → Option (EvidenceReceipt String)
checked r = if r.rest == "valid" then some r else none

abbrev store : Validator String
store = record { validate = checked; hash = λ r. r.id; hash_entry = λ body. body.entry_id }

abbrev receipt_of : String → EvidenceReceipt String
receipt_of id = record { id = id; origin = "https://a"; declaration_name = "tool"; rest = "valid" }

abbrev page : PairedPageSummary
page = record {
  session_id = "s";
  origin = "https://a";
  page_url = "https://a/p";
  client_label = "c";
  paired_at = 1;
  last_seen_at = 2;
  connected = true;
}

abbrev options : AppendOptions
options = record {
  accept_exact_duplicate = true;
  adapter = some (record { capability_permit_sha256 = digits; consumed_at = exact 5 });
}

abbrev file : List (ReceiptEntry String)
file = new_entry store "e1" 7 (receipt_of "r1") page options [] ∷ []

file_verified : list_verified store file ≡ ok file
unfolding list_verified check_entries check_entry new_entry is_evidence is_sha256
file_verified = refl

valid_again : (v r : EvidenceReceipt String) → checked v ≡ some r → is_valid (checked r) ≡ true
valid_again v r h = ground arith

abbrev later : List (ReceiptEntry String)
later = (append store "e2" 9 (receipt_of "r2") page (some "tool") options file).0

evident : is_evidence options.adapter ≡ true
unfolding is_evidence is_sha256
evident = refl

stored : is_ok (append store "e2" 9 (receipt_of "r2") page (some "tool") options file).1 ≡ true
unfolding append append_admitted append_verified store_receipt admit_receipt list_verified
    check_entries check_entry new_entry is_evidence is_sha256
stored = refl

append-list_verified_example : list_verified store later ≡ ok later
unfolding new_entry
append-list_verified_example =
    append-list_verified store "e2" 9 (receipt_of "r2") page (some "tool") options file valid_again
      evident refl file_verified

append_again_example :
    append store "e3" 12 (receipt_of "r2") page (some "tool") options later
    ≡ append store "e2" 9 (receipt_of "r2") page (some "tool") options file
unfolding new_entry
append_again_example =
    append_again store "e2" "e3" 9 12 (receipt_of "r2") page (some "tool") options file valid_again
      evident refl file_verified refl stored

-- The second entry names the first.
chained :
    later
    ≡ new_entry store "e1" 7 (receipt_of "r1") page options []
      ∷ new_entry store "e2" 9 (receipt_of "r2") page options file
      ∷ []
unfolding append append_admitted append_verified store_receipt admit_receipt list_verified
    check_entries check_entry new_entry is_evidence is_sha256
chained = refl

-- Taking the first line out breaks the chain.
line_missing :
    list_verified store (new_entry store "e2" 9 (receipt_of "r2") page options file ∷ [])
    ≡ err (chain_failed 1)
unfolding list_verified check_entries check_entry new_entry
line_missing = refl

other_origin :
    (append store "e2" 9
      (record (receipt_of "r2") { origin = "https://b" })
      page
      none
      options
      file).1
    ≡ err origin_mismatch
unfolding append append_admitted admit_receipt
other_origin = refl

-- A duplicate from another session is refused.
other_session :
    (append store "e2" 9 (receipt_of "r1") (record page { session_id = "t" }) none options file).1
    ≡ err already_recorded
unfolding append append_admitted append_verified store_receipt answer_duplicate is_exact_duplicate
    admit_receipt list_verified check_entries check_entry new_entry is_evidence is_sha256
other_session = refl

found_entry :
    get_verified store "e1" file ≡ ok (new_entry store "e1" 7 (receipt_of "r1") page options [])
unfolding get_verified list_verified check_entries check_entry new_entry is_evidence is_sha256
found_entry = refl
