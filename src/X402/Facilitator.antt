-- ===== src/X402/Facilitator.antt =====
-- The facilitator of packages/engine/src/x402.ts: a payload is verified by its form and by the relayer's
-- simulation, then settled. The relayer, the chain and the decoding are parameters.
use t3_spend.Prelude.{
  ℕ, zero, suc, Bool, true, false, not, Option, none, some, List, [], ◌∷◌, ltb, if◌then◌else◌,
}
use t3_spend.Prelude.Texts.{Text, codes, same_address}
use t3_spend.Prelude.Lists.{get_last?}
use t3_spend.Prelude.Failures.{
  Failure, engine, Stage, Result, ok, err, ◌>>=◌, ◌>>◌, or_throw, throw_if,
}
use t3_spend.Types.{WireDelegation, WireExecution}
use t3_spend.Chains.{ChainId, usdc, target_address, fee_collector, delegation_manager}
use t3_spend.Money.{parse_atoms, usdc_to_atoms, usdc_text}
use t3_spend.Delegations.{DelegationKit, erc20_transfer_execution}
use t3_spend.Spend.Validate.{truthy}
use t3_spend.Spend.Network.{Transaction, Estimate}
use t3_spend.Spend.Confirm.{
  Poll, RelayerStatus, Confirmation, ConfirmStatus, confirm_redemption, status_to_confirmation,
}
use t3_spend.Spend.Pipeline.{required_fee}
use t3_spend.X402.{X402Requirement, X402PayloadBody, RailProblem, requirement_matches_rail}

pub record Facility : Type 0 where
  pub delegations : DelegationKit
  pub chain_id : ChainId
  -- `decodeDelegations`, with the delegations in wire form; `none` where it throws
  pub decode : Text → Option (List WireDelegation)
  pub has_code : Text → Result Bool
  pub jitter : ℕ → ℕ
  pub min_fee : Result Text
  -- the relayer's simulation, and its estimate with a number of attempts left
  pub simulate : Transaction → Result Estimate
  pub estimate : ℕ → Transaction → Result Estimate
  pub via_chain : Bool
  pub block_number : Result ℕ
  pub send : Transaction → Text → Result Text
  -- what the polls of a request read from a block on, and its status at the relayer
  pub polls : Text → ℕ → List Poll
  pub wait_for_status : Text → Result RelayerStatus

pub data InvalidReason : Type 0 where
  rail : RailProblem → InvalidReason
  wrong_manager undecodable empty_context not_redeemable : InvalidReason
  delegator_mismatch not_upgraded simulation_failed : InvalidReason

pub data Verdict : Type 0 where
  valid : Text → Verdict
  invalid : InvalidReason → Verdict

abbrev x402_error : Failure
x402_error = engine Stage.x402

unfoldable pub decode_x402_delegations : Facility → Text → Result (List WireDelegation)
decode_x402_delegations f context = or_throw (f.decode context) x402_error

-- The payment, then the fee.
unfoldable pub build_executions : Facility → X402Requirement → ℕ → Result (List WireExecution)
build_executions f req fee = do
  amount ← parse_atoms req.amount
  payment ← erc20_transfer_execution f.delegations (usdc f.chain_id) req.pay_to amount
  fee_leg ← erc20_transfer_execution f.delegations (usdc f.chain_id) fee_collector fee
  ok (payment ∷ fee_leg ∷ [])

-- The checks of the decoded chain, from its leaf to its root, before anything is asked of the chain.
unfoldable pub check_ends :
    Facility
    → X402PayloadBody
    → Option WireDelegation
    → Option WireDelegation
    → Option InvalidReason
check_ends f body none root = some empty_context
check_ends f body (some leaf) none = some empty_context
check_ends f body (some leaf) (some root) =
    if not (same_address leaf.delegate (target_address f.chain_id))
    then some not_redeemable
    else if not (same_address root.delegator body.delegator)
    then some delegator_mismatch
    else none

abbrev first? : List WireDelegation → Option WireDelegation
first? [] = none
first? (d ∷ ds) = some d

unfoldable pub check_form : Facility → X402PayloadBody → X402Requirement → Option InvalidReason
unfolding check_ends
check_form f body req = elim (requirement_matches_rail req f.chain_id) [
  | some problem ↦ some (rail problem)
  | none ↦
      if not (same_address body.delegation_manager delegation_manager)
      then some wrong_manager
      else elim (f.decode body.permission_context) [
        | none ↦ some undecodable
        | some ds ↦ check_ends f body (first? ds) (get_last? ds)
      ]
]

unfoldable pub simulated : Facility → X402PayloadBody → X402Requirement → Result Verdict
unfolding decode_x402_delegations build_executions
simulated f body req = do
  delegations ← decode_x402_delegations f body.permission_context
  min_fee ← usdc_to_atoms (codes "0.01")
  executions ← build_executions f req min_fee
  est ← f.simulate (record { permission_context = delegations; executions = executions })
  ok (if est.success then valid body.delegator else invalid simulation_failed)

unfoldable pub verify_x402 : Facility → X402PayloadBody → X402Requirement → Result Verdict
verify_x402 f body req = elim (check_form f body req) [
  | some reason ↦ ok (invalid reason)
  | none ↦ (do
    coded ← f.has_code body.delegator
    if coded then simulated f body req else ok (invalid not_upgraded))
]

pub record Settlement : Type 0 where
  pub tx_hash : Option Text
  pub fee_atoms : ℕ
  pub payer : Text

unfoldable pub confirmation : Facility → Text → ℕ → ℕ → Result Confirmation
confirmation f request since fee =
    if f.via_chain
    then confirm_redemption (f.polls request since) fee
    else elim (f.wait_for_status request) [ ok st ↦ ok (status_to_confirmation st) | err e ↦ err e ]

unfoldable pub sent_transaction : Facility → Transaction → Text → ℕ → Text → Result Settlement
unfolding confirmation
sent_transaction f tx context fee payer = do
  since_block ← (if f.via_chain then f.block_number else ok 0)
  request ← f.send tx context
  seen ← confirmation f request since_block fee
  elim seen.status [
    | ConfirmStatus.confirmed ↦
        ok (record { tx_hash = seen.tx_hash; fee_atoms = fee; payer = payer })
    | ConfirmStatus.failed ↦ err x402_error
    | ConfirmStatus.pending ↦ err x402_error
  ]

-- The loop over the fee; the number is that of the attempts left.
unfoldable pub settle_loop :
    ℕ → Facility → X402PayloadBody → X402Requirement → List WireDelegation → ℕ → Result Settlement
unfolding build_executions sent_transaction
settle_loop zero f body req delegations fee = err x402_error
settle_loop (suc left) f body req delegations fee = do
  executions ← build_executions f req fee
  let tx : Transaction = record { permission_context = delegations; executions = executions }
  est ← f.estimate left tx
  throw_if (not est.success) x402_error
  required ← required_fee est fee
  elim (ltb fee required) [
    | true ↦ settle_loop left f body req delegations (f.jitter required)
    | false ↦ (do
      context ← or_throw (truthy est.context) x402_error
      sent_transaction f tx context fee body.delegator)
  ]

abbrev pub settle_attempts : ℕ
settle_attempts = 3

unfoldable pub settle_x402 : Facility → X402PayloadBody → X402Requirement → Result Settlement
unfolding decode_x402_delegations
settle_x402 f body req = do
  verdict ← verify_x402 f body req
  elim verdict [
    | invalid reason ↦ err x402_error
    | valid payer ↦ (do
      delegations ← decode_x402_delegations f body.permission_context
      min_fee ← f.min_fee
      base ← usdc_to_atoms min_fee
      settle_loop settle_attempts f body req delegations (f.jitter base))
  ]

unfoldable pub fee_atoms_to_usdc : ℕ → Text
fee_atoms_to_usdc fee = usdc_text fee
