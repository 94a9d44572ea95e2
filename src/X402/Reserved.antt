-- ===== src/X402/Reserved.antt =====
-- The reservation of packages/engine/src/x402.ts, against the caps of the card's chain.
use t3_spend.Prelude.{
  arith, ℕ, ◌+◌, ◌≡◌, refl, sym, ap, ◌∙◌, none, some, List, Option-cases, inl, inr,
}
use t3_spend.Prelude.Failures.{ok, Result-cases}
use t3_spend.Types.{CardId}
use t3_spend.Money.{parse_atoms}
use t3_spend.Store.{CardRow, ChargeRow, Store}
use t3_spend.Store.Tree.{ancestor_chain}
use t3_spend.Store.Tree.Members.{All}
use t3_spend.Store.Charges.{insert_charge}
use t3_spend.Spend.Validate.{assert_chain_spendable, validate_spend}
use t3_spend.Spend.Budget.{HasRoom, validate_spend-HasRoom, All-HasRoom-insert}
use t3_spend.X402.{
  X402Requirement, X402PayloadBody, Payer, x402_fee_headroom_atoms, x402_request, x402_charge,
  requirement_matches_rail, head?, reserve_payload, build_x402_payload,
}

module _ (payer : Payer) (card_id : CardId) (req : X402Requirement) where
  reserve_payload-inv :
      (amount : ℕ) (chain : List CardRow) (card : CardRow) (s : Store) {body : X402PayloadBody}
      {s' : Store}
      → reserve_payload payer card_id req amount chain card s ≡ (ok body, s')
      → (validate_spend payer.kit payer.chain_id s chain
            (x402_request req amount)
            (amount + x402_fee_headroom_atoms)
            payer.now
          ≡ ok tt)
        × (insert_charge (x402_charge payer card_id req amount) (payer.between s) ≡ ok s')
  unfolding reserve_payload
  reserve_payload-inv amount chain card s h = (ground (arith, h), ground (arith, h))

  build_x402_payload-inv :
      (s : Store) {body : X402PayloadBody} {amount : ℕ} {s' : Store}
      → build_x402_payload payer card_id req s ≡ (ok (body, amount), s')
      → (requirement_matches_rail req payer.chain_id ≡ none)
        × (parse_atoms req.amount ≡ ok amount)
        × (assert_chain_spendable (ancestor_chain card_id s) payer.now ≡ ok tt)
        × (card : CardRow) × (reserve_payload payer card_id req amount
              (ancestor_chain card_id s)
              card
              s
            ≡ (ok body, s'))
  unfolding build_x402_payload
  build_x402_payload-inv s {body} {amount} {s'} h = elim (Result-cases (parse_atoms req.amount)) [
    | inr (e, failed) ↦ absurd (ground (arith, h, failed))
    | inl (n, parsed) ↦ elim (Option-cases (head? (ancestor_chain card_id s))) [
      | inl missing ↦ absurd (ground (arith, h, parsed, missing))
      | inr (card, found) ↦ (
        ground (arith, h),
        ground (arith, h, parsed, found),
        ground (arith, h, parsed, found),
        card,
        ground (arith, h, parsed, found),
      )
    ]
  ]

  -- A payload is handed out only for a rail that is supported and a card that is spendable, when
  -- every card of the chain has room within its caps and uses for the charge: the amount that the
  -- requirement asks for, to its recipient, and the headroom for the fee. That charge is what is
  -- reserved, on top of whatever other requests wrote while the leaf was signed.
  pub build_x402_payload-HasRoom :
      (s : Store) {body : X402PayloadBody} {amount : ℕ} {s' : Store}
      → build_x402_payload payer card_id req s ≡ (ok (body, amount), s')
      → (requirement_matches_rail req payer.chain_id ≡ none)
        × (assert_chain_spendable (ancestor_chain card_id s) payer.now ≡ ok tt)
        × (row : ChargeRow) × (row.card_id ≡ card_id)
        × (parse_atoms req.amount ≡ ok row.amount_atoms)
        × (row.to_addr ≡ some req.pay_to)
        × (row.fee_atoms ≡ x402_fee_headroom_atoms)
        × All (HasRoom s payer.now (row.amount_atoms + row.fee_atoms) 1) (ancestor_chain card_id s)
        × (insert_charge row (payer.between s) ≡ ok s')
  unfolding x402_charge
  build_x402_payload-HasRoom s {body} {amount} {s'} h =
      let (rail, parsed, spendable, card, reserved) =
        build_x402_payload-inv s {body = body} {amount = amount} {s' = s'} h in
      let (fine, written) =
        reserve_payload-inv amount (ancestor_chain card_id s) card s {body = body} {s' = s'}
          reserved in
      (
        rail,
        spendable,
        x402_charge payer card_id req amount,
        refl,
        parsed,
        refl,
        refl,
        validate_spend-HasRoom payer.kit payer.chain_id s (ancestor_chain card_id s)
            (x402_request req amount) (amount + x402_fee_headroom_atoms) payer.now fine,
        written,
      )

  -- If the others wrote nothing meanwhile, every card of the chain is within its caps and uses with the
  -- reservation counted.
  pub build_x402_payload-quiet :
      (s : Store) {body : X402PayloadBody} {amount : ℕ} {s' : Store}
      → payer.between s ≡ s
      → build_x402_payload payer card_id req s ≡ (ok (body, amount), s')
      → All (HasRoom s' payer.now 0 0) (ancestor_chain card_id s)
  build_x402_payload-quiet s {body} {amount} {s'} quiet h =
      let (_, _, row, _, _, _, _, room, written) =
        build_x402_payload-HasRoom s {body = body} {amount = amount} {s' = s'} h in
      All-HasRoom-insert row s (ap (insert_charge row) (sym quiet) ∙ written) payer.now
        (ancestor_chain card_id s) room
