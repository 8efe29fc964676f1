-- ===== src/Capability/Receipt/Link.antt =====
-- A receipt that the code linked verifies exactly when its four times are in order.
use webmcp_security_lab.Prelude.{
  ℕ, ◌≤◌, ◌≡◌, refl, ◌↔◌, ◌⊎◌, inl, inr, Option, some, String, arith, eq_iff, eq_refl,
}
use webmcp_security_lab.Prelude.Dates.{DateText, parse}
use webmcp_security_lab.Capability.Receipt.{
  Contract, link_capability_receipt, linked, chronology, verify_receipt_link,
}

-- Four readable instants, none before the one that precedes it.
abbrev pub InOrder : (a b c d : Option ℕ) → Type 0
InOrder (some a) (some b) (some c) (some d) = (a ≤ b) × (b ≤ c) × (c ≤ d)
InOrder _ _ _ _ = ⊥

linked_iff :
    (h k : String) (a b c d : DateText)
    → (verify_receipt_link h k a b c d ≡ linked)
      ↔ ((h ≡ k) × InOrder (parse a) (parse b) (parse c) (parse d))
unfolding verify_receipt_link
linked_iff h k a b c d = (λ e. ground (arith, eq_iff h k), λ e. ground (arith, eq_iff h k))

same_hash_cases :
    (h : String) (a b c d : DateText)
    → (verify_receipt_link h h a b c d ≡ linked) ⊎ (verify_receipt_link h h a b c d ≡ chronology)
unfolding verify_receipt_link
same_hash_cases h a b c d = ground (arith, eq_refl h)

chronology_iff :
    (h : String) (a b c d : DateText)
    → (verify_receipt_link h h a b c d ≡ chronology)
      ↔ (¬ InOrder (parse a) (parse b) (parse c) (parse d))
chronology_iff h a b c d = (λ e o. clash e ((linked_iff h h a b c d).1 (refl, o)), from)
  where
    clash :
        verify_receipt_link h h a b c d ≡ chronology → verify_receipt_link h h a b c d ≡ linked → ⊥
    clash e f = cc

    from :
        (¬ InOrder (parse a) (parse b) (parse c) (parse d))
        → verify_receipt_link h h a b c d ≡ chronology
    from disordered = elim (same_hash_cases h a b c d) [
      | inl passed ↦ absurd (disordered ((linked_iff h h a b c d).0 passed).1)
      | inr failed ↦ failed
    ]

module _ {P C V R : Type 0} where
  -- The link of a receipt that the code built is judged on its times alone, since building copies
  -- the contract's hash into the approval event: it verifies exactly when preparation, approval,
  -- claim and invalidation are readable times in this order, and fails as bad chronology otherwise.
  pub linked_receipt :
      (scope persistence : String) (proposal : P) (contract : Contract C)
      (prepared_at approved_at claimed_at : DateText) (verification : V) (invalidated_at : DateText)
      (reason : R)
      → let r =
          link_capability_receipt scope persistence proposal contract approved_at claimed_at
            verification invalidated_at reason in
        let v =
          verify_receipt_link r.contract.contract_hash r.approval_event.contract_hash prepared_at
            r.approval_event.approved_at r.invocation.claimed_at r.invalidation.at in
        let Ordered =
          InOrder
            (parse prepared_at)
            (parse approved_at)
            (parse claimed_at)
            (parse invalidated_at) in
        ((v ≡ linked) ↔ Ordered) × ((v ≡ chronology) ↔ (¬ Ordered))
  unfolding link_capability_receipt
  linked_receipt scope persistence proposal contract p a c verification i reason =
      let hash = contract.contract_hash in
      let (to, from) = linked_iff hash hash p a c i in
      ((λ e. (to e).1, λ o. from (refl, o)), chronology_iff hash p a c i)
