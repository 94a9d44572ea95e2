-- ===== src/X402.antt =====
-- packages/engine/src/x402.ts: payments over the x402 handshake. The payer's side is here, with its
-- reservation of budget; the facilitator's side is in a module below, and so are the proofs. The
-- encoding of delegations and the signer are parameters.
pub mod Facilitator
pub mod Reserved
pub mod Settled
use t3_spend.Prelude.{
  ℕ, ◌+◌, Bool, true, false, not, Option, none, some, List, [], ◌∷◌, ◌++◌, if◌then◌else◌, is_some,
}
use t3_spend.Prelude.Texts.{Text, codes, text_eq, same_address}
use t3_spend.Prelude.Lists.{get_last?}
use t3_spend.Prelude.Failures.{
  Failure, refusal, bare, invalid_terms, card_not_found, Result, ok, err, or_throw, throw_if,
}
use t3_spend.Prelude.Exec.{◌>>=◌, ◌>>◌, pure, lift, gets, reads, writes}
use t3_spend.Types.{CardId, ChargeId, WireDelegation, WireCaveat, ReceiptStatus, SpendMode}
use t3_spend.Chains.{ChainId, usdc, delegation_manager}
use t3_spend.Money.{parse_atoms}
use t3_spend.Compiler.{Kit}
use t3_spend.Compiler.Scope.{LeafScope, pay_leaf_scope}
use t3_spend.Store.{CardRow, ChargeKind, ChargeRow, Store}
use t3_spend.Store.Users.{get_user}
use t3_spend.Store.Tree.{ancestor_chain}
use t3_spend.Store.Charges.{insert_charge, update_charge, no_fields}
use t3_spend.Spend.{SpendRequest}
use t3_spend.Spend.Validate.{assert_chain_spendable, validate_spend}
use t3_spend.Spend.Pipeline.Leaves.{delegations_for_mode}

pub record X402Requirement : Type 0 where
  pub scheme : Text
  pub network : Text
  pub amount : Text
  pub asset : Text
  pub pay_to : Text
  -- `extra?.assetTransferMethod`
  pub transfer_method : Option Text

pub record X402PayloadBody : Type 0 where
  pub delegation_manager : Text
  pub permission_context : Text
  pub delegator : Text

abbrev pub x402_fee_headroom_atoms : ℕ
x402_fee_headroom_atoms = 30000

unfoldable pub caip2_for : ChainId → Text
caip2_for ChainId.base = codes "eip155:8453"
caip2_for ChainId.base_sepolia = codes "eip155:84532"

-- Why a requirement cannot be paid here: the text that the code returns, without the offending value.
pub data RailProblem : Type 0 where
  bad_scheme bad_network bad_asset bad_method : RailProblem

abbrev pub bad_transfer_method : Option Text → Bool
bad_transfer_method none = false
bad_transfer_method (some m) = not (text_eq m (codes "erc7710"))

unfoldable pub requirement_matches_rail : X402Requirement → ChainId → Option RailProblem
unfolding caip2_for
requirement_matches_rail req chain =
    if not (text_eq req.scheme (codes "exact"))
    then some bad_scheme
    else if not (text_eq req.network (caip2_for chain))
    then some bad_network
    else if not (same_address req.asset (usdc chain))
    then some bad_asset
    else if bad_transfer_method req.transfer_method
    then some bad_method
    else none

pub record Payer : Type 0 where
  pub kit : Kit
  pub chain_id : ChainId
  pub now : ℕ
  -- the leaf that is carved from a parent and signed with a card's key
  pub sign_leaf :
      Text → WireDelegation → Text → LeafScope → Option (List WireCaveat) → Result WireDelegation
  pub encode_delegations : List WireDelegation → Result Text
  pub fresh_charge : ChargeId
  -- what the other requests write while the leaf is signed
  pub between : Store → Store

unfoldable pub x402_request : X402Requirement → ℕ → SpendRequest
x402_request req amount = record {
  kind = ChargeKind.x402;
  mode = SpendMode.pay;
  to = some req.pay_to;
  amount_atoms = some amount;
  work_executions = none;
  memo = none;
  idempotency_key = none;
  settle_charge_id = none;
}

-- The reservation: the fee is the headroom until the settlement.
unfoldable pub x402_charge : Payer → CardId → X402Requirement → ℕ → ChargeRow
x402_charge payer card_id req amount = record {
  id = payer.fresh_charge;
  card_id = card_id;
  idempotency_key = none;
  kind = ChargeKind.x402;
  to_addr = some req.pay_to;
  amount_atoms = amount;
  fee_atoms = x402_fee_headroom_atoms;
  request_id = none;
  tx_hash = none;
  status = ReceiptStatus.pending;
  memo = some (codes "x402 " ++ req.pay_to);
  created_at = payer.now;
  since_block = none;
}

unfoldable pub x402_leaf : Payer → CardRow → ℕ → List WireDelegation → Result WireDelegation
x402_leaf payer card amount [] = err bare
x402_leaf payer card amount (parent ∷ _) =
    payer.sign_leaf card.k_agent_enc parent card.k_agent_address
      (pay_leaf_scope (amount + x402_fee_headroom_atoms) payer.chain_id) none

-- A delegation manager, the encoded chain, and the user of the root card.
unfoldable pub payload_body : Text → Option Text → Result X402PayloadBody
payload_body context none = err bare
payload_body context (some address) = ok (record {
  delegation_manager = delegation_manager;
  permission_context = context;
  delegator = address;
})

abbrev pub head? : List CardRow → Option CardRow
head? [] = none
head? (c ∷ cs) = some c

abbrev root_address : List CardRow → Store → Option Text
root_address chain s = elim (get_last? chain) [
  | none ↦ none
  | some root ↦ elim (get_user root.user_id s) [ none ↦ none | some u ↦ some u.address ]
]

-- The leaf is signed after the budget check and before the reservation.
unfoldable pub reserve_payload :
    Payer
    → CardId
    → X402Requirement
    → ℕ
    → List CardRow
    → CardRow
    → Store
    → Result X402PayloadBody × Store
unfolding payload_body
reserve_payload payer card_id req amount chain card = do
  reads (λ s.
      validate_spend payer.kit payer.chain_id s chain (x402_request req amount)
        (amount + x402_fee_headroom_atoms) payer.now)
  delegations ← lift (delegations_for_mode payer.kit SpendMode.pay chain)
  leaf ← (λ s. (x402_leaf payer card amount delegations, payer.between s))
  context ← lift (payer.encode_delegations (leaf ∷ delegations))
  writes (insert_charge (x402_charge payer card_id req amount))
  reads (λ s. payload_body context (root_address chain s))

unfoldable pub build_x402_payload :
    Payer → CardId → X402Requirement → Store → Result (X402PayloadBody × ℕ) × Store
build_x402_payload payer card_id req = do
  lift (throw_if (is_some (requirement_matches_rail req payer.chain_id)) (refusal invalid_terms))
  amount ← lift (parse_atoms req.amount)
  chain ← gets (ancestor_chain card_id)
  card ← lift (or_throw (head? chain) (refusal card_not_found))
  lift (assert_chain_spendable chain payer.now)
  body ← reserve_payload payer card_id req amount chain card
  pure (body, amount)

-- The outcome of a handshake: it failed, or it settled with a fee and perhaps a transaction.
pub data X402Outcome : Type 0 where
  fell_through : X402Outcome
  settled : Option Text → ℕ → X402Outcome

-- Without a transaction the settlement counts as unconfirmed.
abbrev pub settled_status : Option Text → ReceiptStatus
settled_status none = ReceiptStatus.settlement_unconfirmed
settled_status (some []) = ReceiptStatus.settlement_unconfirmed
settled_status (some (c ∷ t)) = ReceiptStatus.confirmed

unfoldable pub finalize_x402_charge : Store → ChargeId → X402Outcome → Store
finalize_x402_charge s id fell_through =
    update_charge id (record no_fields { status = some ReceiptStatus.failed }) s
finalize_x402_charge s id (settled tx fee) =
    update_charge id
      (record no_fields { status = some (settled_status tx); tx_hash = tx; fee_atoms = some fee }) s
