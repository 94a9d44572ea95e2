-- ===== src/Spend/Pipeline.antt =====
-- `spend` of packages/engine/src/spend.ts, from the request to the receipt.
pub mod Enter
pub mod Leaves
pub mod Broadcast
use t3_spend.Prelude.{
  ℕ, zero, suc, ◌+◌, true, false, ◌&&◌, not, Option, none, some, List, [], ◌∷◌, ◌++◌, ltb, ◌==◌,
  if◌then◌else◌, is_some, or_else,
}
use t3_spend.Prelude.Lists.{get_last?}
use t3_spend.Prelude.Texts.{Text, codes}
use t3_spend.Prelude.Failures.{
  Failure, refusal, engine, bare, settle, estimate, send, spend as spending, card_not_found, Result,
  ok, err, or_throw, throw_if,
}
use t3_spend.Prelude.Failures
use t3_spend.Prelude.Exec.{Exec, pure, throw, lift, gets, reads, modify, or_cleanup, ◌>>=◌, ◌>>◌}
use t3_spend.Types.{
  CardId, ChargeId, ReceiptStatus, Receipt, WireDelegation, WireExecution, WireCaveat, SpendMode,
}
use t3_spend.Chains.{ChainId, usdc, fee_collector}
use t3_spend.Money.{to_text, usdc_to_atoms, usdc_text, parse_atoms}
use t3_spend.Store.{StoredAuth, CardRow, ChargeRow, UserRow, Store, is_failed, is_pending}
use t3_spend.Store.Users.{get_user}
use t3_spend.Store.Tree.{ancestor_chain}
use t3_spend.Store.Charges.{
  get_charge, insert_charge, delete_charge, update_charge, charge_by_idempotency, no_fields,
}
use t3_spend.Compiler.{Kit}
use t3_spend.Compiler.Scope.{LeafScope, pay_leaf_scope, contract_leaf_scope}
use t3_spend.Compiler.Allowance.{allowance_leaf_scope, allowance_pin_caveats}
use t3_spend.Compiler.Compile.{apply_or_args}
use t3_spend.Spend.{SpendRequest}
use t3_spend.Spend.Validate.{truthy, assert_chain_spendable, validate_spend}
use t3_spend.Spend.Balance.{card_state}
use t3_spend.Spend.Plan.{Item, plan_items, add_fee}
use t3_spend.Spend.Confirm.{Confirmation, ConfirmStatus, status_to_confirmation, confirm_redemption}
use t3_spend.Spend.Network.{
  Transaction, Estimate, Await, Network, await, resolve_stored_auth, refusal_from_estimate_error,
}
use t3_spend.Spend.Reserve.{reserve}
use t3_spend.Spend.Pipeline.Leaves.{
  Run, delegation_for_mode, delegations_for_mode, amount_of, leaf_scope, sign_item, sign_items,
}
use t3_spend.Spend.Pipeline.Enter.{
  Entry, replayed, proceed, receipt_from_charge, enter_settlement, enter_by_key, enter,
}
use t3_spend.Spend.Pipeline.Broadcast.{broadcast}

abbrev fee_item : Run → ℕ → Result WireExecution
fee_item run fee =
    Failures.◌>>=◌ (run.net.encode_transfer (some fee_collector) fee)
      (λ payload. ok (record { target = usdc run.chain_id; value = codes "0"; payload = payload }))

unfoldable pub revalidate : Run → ℕ → Exec Store (Unit {0})
revalidate run fee = elim run.settle_row [
  | none ↦ reads (λ s.
      validate_spend run.kit run.chain_id s run.chain run.req (amount_of run.req + fee) run.now)
  | some _ ↦ pure tt
]

-- A failed estimate is a refusal where the error names an enforcer.
unfoldable pub estimate_failure : Run → Estimate → Failure
estimate_failure run est = elim est.error [
  | none ↦ engine estimate
  | some e ↦ elim (refusal_from_estimate_error e run.req.mode) [
    | none ↦ engine estimate
    | some code ↦ refusal code
  ]
]

unfoldable pub required_fee : Estimate → ℕ → Result ℕ
required_fee est fee = elim (truthy est.required_payment_amount) [
  | none ↦ ok fee
  | some t ↦ parse_atoms t
]

-- The estimate loop; the number is that of the attempts left.
unfoldable pub estimate_loop : ℕ → Run → ℕ → Exec Store Receipt
unfolding sign_items broadcast revalidate estimate_failure required_fee
estimate_loop zero run fee = throw (engine estimate)
estimate_loop (suc left) run fee = do
  items ← lift (plan_items run.kit run.req.mode run.work)
  fee_leg ← lift (fee_item run fee)
  txs ← await run.net (Await.signed left) (sign_items run fee (add_fee fee_leg items))
  est ← await run.net (Await.estimated left) (run.net.estimate left txs run.auth)
  lift (throw_if (not est.success) (estimate_failure run est))
  required ← lift (required_fee est fee)
  elim (ltb fee required) [
    | true ↦
        (revalidate run (run.net.jitter required)
          >> estimate_loop left run (run.net.jitter required))
    | false ↦ (do
      context ← lift (or_throw (truthy est.context) (engine estimate))
      broadcast run fee txs context)
  ]

abbrev pub estimate_retries : ℕ
estimate_retries = 3

unfoldable pub work_executions : Network → ChainId → SpendRequest → Result (List WireExecution)
work_executions net chain_id req = elim req.mode [
  | SpendMode.contract ↦ ok (or_else req.work_executions [])
  | SpendMode.pay ↦
      Failures.◌>>=◌ (net.encode_transfer req.to (amount_of req)) (λ payload.
        ok (record { target = usdc chain_id; value = codes "0"; payload = payload } ∷ []))
]

unfoldable pub auth_list : Network → UserRow → Exec Store (Option StoredAuth)
unfolding resolve_stored_auth
auth_list net user = do
  coded ← await net Await.code net.has_code
  if coded then pure none else (do
    auth ← await net Await.auth (resolve_stored_auth spending user net.account_nonce)
    pure (some auth))

-- Settlement mode skips the validation: its row holds the budget already.
unfoldable pub first_check :
    Kit → ChainId → List CardRow → Option ChargeRow → SpendRequest → ℕ → ℕ → Exec Store (Unit {0})
first_check kit chain_id chain settle_row req fee now =
    if is_some settle_row
    then pure tt
    else reads (λ s. validate_spend kit chain_id s chain req (amount_of req + fee) now)

unfoldable pub carry_out :
    Network → Kit → ChainId → ℕ → CardId → Option ChargeRow → SpendRequest → Exec Store Receipt
unfolding first_check work_executions auth_list estimate_loop
carry_out net kit chain_id now card_id settle_row req = do
  chain ← gets (ancestor_chain card_id)
  card ← lift (or_throw (elim chain [ [] ↦ none | c ∷ _ ↦ some c ]) (refusal card_not_found))
  lift (assert_chain_spendable chain now)
  user ← reads (λ s.
      or_throw (elim (get_last? chain) [ none ↦ none | some root ↦ get_user root.user_id s ])
        (engine spending))
  min_fee ← await net Await.fee_data net.min_fee
  base_fee ← lift (usdc_to_atoms min_fee)
  work ← lift (work_executions net chain_id req)
  first_check kit chain_id chain settle_row req (net.jitter base_fee) now
  auth ← auth_list net user
  delegations ← lift (delegations_for_mode kit req.mode chain)
  estimate_loop estimate_retries
      (record {
        net = net;
        kit = kit;
        chain_id = chain_id;
        now = now;
        card = card;
        chain = chain;
        delegations = delegations;
        work = work;
        auth = auth;
        settle_row = settle_row;
        req = req;
      })
      (net.jitter base_fee)

unfoldable pub spend : Network → Kit → ChainId → ℕ → CardId → SpendRequest → Exec Store Receipt
unfolding enter carry_out
spend net kit chain_id now card req = do
  entry ← enter card now req
  elim entry [
    | replayed r ↦ pure r
    | proceed row req' ↦ carry_out net kit chain_id now card row req'
  ]
