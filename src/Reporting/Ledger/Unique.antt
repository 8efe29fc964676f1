-- ===== src/Reporting/Ledger/Unique.antt =====
-- ledger.ts: a verified chain cannot be replaced by another.
use webmcp_security_lab.Prelude.{
  ℕ, suc, ◌≡◌, refl, sym, ap, ◌∙◌, true, Option, none, some, List, [], ◌∷◌, String, nat_beq_iff,
  length, last?, arith, All, option_beq, string_eq, eq_iff,
}
use webmcp_security_lab.Prelude.Dates.{date_eq}
use webmcp_security_lab.Issues.Model.{state_eq}
use webmcp_security_lab.Issues.Moderation.{IssueRecord, ModerationEvent}
use webmcp_security_lab.Reporting.Ledger.{
  LedgerEvent, LedgerRecord, Digests, is_link, is_chain, ends_so, verify_chain,
}
use webmcp_security_lab.Reporting.Ledger.Links.{last_hash, both}

some-eq : (a b : String) → ◌≡◌ {A = Option String} (some a) (some b) → a ≡ b
some-eq a b h = cc

option_beq-eq : (a b : Option String) → option_beq a b ≡ true → a ≡ b
option_beq-eq none none h = refl
option_beq-eq (some a) (some b) h = ap some ((eq_iff a b).0 h)
option_beq-eq none (some b) h = absurd (cc)
option_beq-eq (some a) none h = absurd (cc)

module _ (digests : Digests) where
  -- The hash tells the two events apart, if they differ.
  abbrev pub IsToldApart : LedgerEvent → LedgerEvent → Type 0
  IsToldApart a b = digests.of_event a.body ≡ digests.of_event b.body → a.body ≡ b.body

  abbrev pub AreToldApart : List LedgerEvent → List LedgerEvent → Type 0
  AreToldApart es fs = All (λ a. All (IsToldApart a) fs) es

  tails_apart :
      (es fs : List LedgerEvent) (f : LedgerEvent) → AreToldApart es (f ∷ fs) → AreToldApart es fs
  tails_apart [] fs f h = tt
  tails_apart (e ∷ es) fs f ((_, h), hs) = (h, tails_apart es fs f hs)

  record Linked (previous : Option String) (e : LedgerEvent) : Type 0 where
    follows : e.body.previous_event_sha256 ≡ previous
    hashes : e.event_sha256 ≡ digests.of_event e.body

  is_link_lem :
      (r : IssueRecord) (sequence : ℕ) (previous : Option String) (e : LedgerEvent)
      (m : ModerationEvent)
      → is_link digests r sequence previous e m ≡ true
      → Linked previous e
  unfolding is_link
  is_link_lem r sequence previous e m h = record {
    follows = option_beq-eq e.body.previous_event_sha256 previous (ground (arith, h));
    hashes = (eq_iff e.event_sha256 (digests.of_event e.body)).0 (ground (arith, h));
  }

  same_chain :
      (r : IssueRecord) (sequence : ℕ) (p q : Option String) (es fs : List LedgerEvent)
      (history : List ModerationEvent)
      → AreToldApart es fs
      → length es ≡ length fs
      → is_chain digests r sequence p es history ≡ true
      → is_chain digests r sequence q fs history ≡ true
      → last_hash p es ≡ last_hash q fs
      → (es ≡ fs) × (p ≡ q)
  unfolding is_chain
  same_chain r sequence p q [] [] history a n h k l = (refl, l)
  same_chain r sequence p q [] (f ∷ fs) history a n h k l = absurd (omega (arith, n))
  same_chain r sequence p q (e ∷ es) [] history a n h k l = absurd (omega (arith, n))
  same_chain r sequence p q (e ∷ es) (f ∷ fs) [] a n h k l = absurd (cc)
  same_chain r sequence p q (e ∷ es) (f ∷ fs) (m ∷ history) ((apart, _), a) n h k l =
      let (h1, h2) =
        both (is_link digests r sequence p e m)
          (is_chain digests r (suc sequence) (some e.event_sha256) es history) h in
      let (k1, k2) =
        both (is_link digests r sequence q f m)
          (is_chain digests r (suc sequence) (some f.event_sha256) fs history) k in
      let (rest, hash) =
        same_chain r (suc sequence) (some e.event_sha256) (some f.event_sha256) es fs history
          (tails_apart es fs f a) (omega (arith, n)) h2 k2 l in
      let x = is_link_lem r sequence p e m h1 in
      let y = is_link_lem r sequence q f m k1 in
      let hash_so = some-eq e.event_sha256 f.event_sha256 hash in
      let body = apart (sym x.hashes ∙ hash_so ∙ y.hashes) in
      let head : e ≡ f = λ i. record { body = body i; event_sha256 = hash_so i } in
      ((λ i. head i ∷ rest i), sym x.follows ∙ ap (λ b. b.previous_event_sha256) body ∙ y.follows)

  last_hash-last? :
      (r : LedgerRecord) (p : Option String) (es : List LedgerEvent)
      → ends_so r (last? es) ≡ true
      → last_hash p es ≡ some r.last_event_sha256
  last_hash-last? r p [] h = absurd (cc)
  last_hash-last? r p (e ∷ []) h =
      ap some (sym ((eq_iff r.last_event_sha256 e.event_sha256).0 (ground (arith, h))))
  last_hash-last? r p (e ∷ f ∷ es) h = last_hash-last? r (some e.event_sha256) (f ∷ es) h

  record Verified (r : LedgerRecord) (es : List LedgerEvent) : Type 0 where
    counted : length es ≡ r.revision
    ends : ends_so r (last? es) ≡ true
    chained : is_chain digests r.moderation 1 none es r.moderation.history ≡ true

  verify_chain_lem :
      (r : LedgerRecord) (es : List LedgerEvent) → verify_chain digests r es ≡ true → Verified r es
  unfolding verify_chain
  verify_chain_lem r es h = record {
    counted = (nat_beq_iff (length es) r.revision).0 (ground (arith, h));
    ends = ground (arith, h);
    chained = ground (arith, h);
  }

  -- Two chains of events that verify against the same record are the same, event by event, where the
  -- hash tells the events of the one from those of the other: the last hash that a record keeps
  -- fixes the whole of its history, with every actor, request and payload.
  pub verified_unique :
      (r : LedgerRecord) (es fs : List LedgerEvent)
      → AreToldApart es fs
      → verify_chain digests r es ≡ true
      → verify_chain digests r fs ≡ true
      → es ≡ fs
  verified_unique r es fs apart h k =
      let x = verify_chain_lem r es h in
      let y = verify_chain_lem r fs k in
      (same_chain r.moderation 1 none none es fs r.moderation.history apart
        (x.counted ∙ sym y.counted) x.chained y.chained
        (last_hash-last? r none es x.ends ∙ sym (last_hash-last? r none fs y.ends))).0
