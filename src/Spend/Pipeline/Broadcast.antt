-- ===== src/Spend/Pipeline/Broadcast.antt =====
-- From the reservation to the receipt in `spend` of packages/engine/src/spend.ts: the charge is booked,
-- the statuses are read again, the transactions are sent and their confirmation is awaited.
use t3_spend.Prelude.{ℕ, none, some, List, ◌++◌, if◌then◌else◌, or_else}
use t3_spend.Prelude.Texts.{Text, codes}
use t3_spend.Prelude.Failures.{
  Failure, refusal, engine, bare, settle, estimate, send, spend as spending, card_not_found, Result,
  ok, err, or_throw, throw_if,
}
use t3_spend.Prelude.Failures
use t3_spend.Prelude.Exec.{Exec, pure, throw, modify, or_cleanup, ◌>>=◌, ◌>>◌}
use t3_spend.Types.{ChargeId, ReceiptStatus, Receipt}
use t3_spend.Chains.{fee_collector}
use t3_spend.Money.{to_text}
use t3_spend.Store.{ChargeRow, Store}
use t3_spend.Store.Tree.{ancestor_chain}
use t3_spend.Store.Charges.{insert_charge, update_charge, no_fields}
use t3_spend.Spend.Validate.{assert_chain_spendable, validate_spend}
use t3_spend.Spend.Confirm.{Confirmation, ConfirmStatus, status_to_confirmation, confirm_redemption}
use t3_spend.Spend.Network.{Transaction, Await, await}
use t3_spend.Spend.Reserve.{reserve}
use t3_spend.Spend.Pipeline.Leaves.{Run, amount_of}
use t3_spend.Spend.Pipeline.Enter.{receipt_from_charge}

unfoldable pub charge_row : Run → ℕ → ChargeRow
charge_row run fee = record {
  id = run.net.fresh_id;
  card_id = run.card.id;
  idempotency_key = run.req.idempotency_key;
  kind = run.req.kind;
  to_addr = run.req.to;
  amount_atoms = amount_of run.req;
  fee_atoms = fee;
  request_id = none;
  tx_hash = none;
  status = ReceiptStatus.pending;
  memo = run.req.memo;
  created_at = run.now;
  since_block = none;
}

-- The row that stands for this run in the books.
abbrev pub charge_of : Run → ChargeId
charge_of run = elim run.settle_row [ none ↦ run.net.fresh_id | some row ↦ row.id ]

-- Outside settlement mode a failure before the broadcast releases the row.
abbrev pub release : Run → Store → Store
release run s = elim run.settle_row [
  | none ↦
      update_charge run.net.fresh_id (record no_fields { status = some ReceiptStatus.failed }) s
  | some _ ↦ s
]

unfoldable pub book : Run → ℕ → Exec Store (Unit {0})
unfolding reserve validate_spend insert_charge charge_row
book run fee = elim run.settle_row [
  | none ↦ reserve run.kit run.chain_id run.chain run.req run.now (charge_row run fee)
  | some row ↦ modify (update_charge row.id (record no_fields { fee_atoms = some fee }))
]

unfoldable pub receipt : Run → ReceiptStatus → Confirmation → ℕ → Exec Store Receipt
unfolding receipt_from_charge
receipt run status c fee =
    receipt_from_charge run.card.id status c.tx_hash (or_else run.req.to fee_collector)
      (amount_of run.req) fee run.now run.req.memo (charge_of run)

unfoldable pub conclude : Run → ℕ → Confirmation → Exec Store Receipt
unfolding receipt
conclude run fee c = elim c.status [
  | ConfirmStatus.confirmed ↦ (do
    modify (
        update_charge (charge_of run)
          (record no_fields { status = some ReceiptStatus.confirmed; tx_hash = c.tx_hash }))
    receipt run ReceiptStatus.confirmed c fee)
  | ConfirmStatus.failed ↦ (do
    modify (
        update_charge (charge_of run) (record no_fields {
          status = some (elim run.settle_row [
            | none ↦ ReceiptStatus.failed
            | some _ ↦ ReceiptStatus.settlement_unconfirmed
          ]);
          tx_hash = c.tx_hash;
        }))
    throw (engine send))
  | ConfirmStatus.pending ↦ receipt run ReceiptStatus.pending c fee
]

-- From the reservation on: the block, the second look at the statuses, the send, the confirmation.
unfoldable pub broadcast : Run → ℕ → List Transaction → Text → Exec Store Receipt
unfolding book conclude
broadcast run fee txs context = do
  book run fee
  since ← if run.net.via_chain then await run.net Await.block run.net.block_number else pure 0
  (λ s. or_cleanup (assert_chain_spendable (ancestor_chain run.card.id s) run.now) (release run) s)
  modify (λ s. elim run.settle_row [
    | none ↦ s
    | some row ↦
        update_charge row.id
          (record no_fields {
            request_id = some (codes "claim-" ++ to_text row.id);
            since_block = some since;
          })
          s
  ])
  request ← (λ s.
      or_cleanup (run.net.send txs context run.auth) (release run) (run.net.between Await.sent s))
  modify (
      update_charge (charge_of run)
        (record no_fields { request_id = some request; since_block = some since }))
  c ← await run.net Await.confirmed (
      if run.net.via_chain
      then confirm_redemption run.net.polls fee
      else Failures.◌>>=◌ run.net.wait_for_status (λ st. ok (status_to_confirmation st)))
  conclude run fee c
