-- ===== src/Spend/Pipeline/Enter.antt =====
-- How a request enters `spend` in packages/engine/src/spend.ts: answered from a row of the books, or
-- to be carried out.
use t3_spend.Prelude.{ℕ, ◌&&◌, not, Option, none, some, ◌==◌, if◌then◌else◌, is_some, or_else}
use t3_spend.Prelude.Texts.{Text}
use t3_spend.Prelude.Failures.{engine, settle, or_throw, throw_if}
use t3_spend.Prelude.Exec.{Exec, pure, lift, gets, reads, modify, ◌>>=◌, ◌>>◌}
use t3_spend.Types.{CardId, ChargeId, ReceiptStatus, Receipt, SpendMode}
use t3_spend.Chains.{fee_collector}
use t3_spend.Money.{usdc_text}
use t3_spend.Store.{ChargeRow, Store, is_failed, is_pending}
use t3_spend.Store.Charges.{get_charge, delete_charge, charge_by_idempotency}
use t3_spend.Spend.{SpendRequest}
use t3_spend.Spend.Validate.{truthy}
use t3_spend.Spend.Balance.{card_state}

-- `receiptFromCharge`
unfoldable pub receipt_from_charge :
    CardId
    → ReceiptStatus
    → Option Text
    → Text
    → ℕ
    → ℕ
    → ℕ
    → Option Text
    → ChargeId
    → Exec Store Receipt
unfolding card_state
receipt_from_charge card status tx to amount fee now memo charge = do
  state ← reads (λ s. card_state s card now)
  pure (record {
    status = status;
    charge_id = charge;
    tx = tx;
    to = to;
    amount = usdc_text amount;
    fee = usdc_text fee;
    remaining_this_period = elim state [ none ↦ none | some st ↦ st.remaining_this_period ];
    memo = truthy memo;
  })

-- A receipt for a row that is there already.
unfoldable pub replay_row : CardId → ReceiptStatus → ChargeRow → Text → ℕ → Exec Store Receipt
unfolding receipt_from_charge
replay_row card status row to now =
    receipt_from_charge card status row.tx_hash to row.amount_atoms row.fee_atoms now row.memo
      row.id

-- How a request enters the pipeline: answered from a row, or to be carried out.
pub data Entry : Type 0 where
  replayed : Receipt → Entry
  proceed : Option ChargeRow → SpendRequest → Entry

abbrev replay : Exec Store Receipt → Exec Store Entry
replay m = m >>= λ r. pure (replayed r)

-- A row that is pending and was never broadcast is adopted, any other is answered from the books.
unfoldable pub settle_with : CardId → ℕ → SpendRequest → ChargeRow → Exec Store Entry
unfolding replay_row
settle_with card now req row =
    if not (is_pending row.status)
    then replay (replay_row card row.status row (or_else row.to_addr fee_collector) now)
    else if is_some row.request_id
    then replay (replay_row card ReceiptStatus.pending row (or_else row.to_addr fee_collector) now)
    else (do
      to ← lift (or_throw (truthy row.to_addr) (engine settle))
      pure (
          proceed (some row) (record req {
            to = some to;
            amount_atoms = some row.amount_atoms;
            kind = row.kind;
            mode = SpendMode.pay;
            memo = row.memo;
          })))

-- Settlement mode: an existing row is driven through the pipeline.
unfoldable pub enter_settlement : CardId → ℕ → SpendRequest → ChargeId → Exec Store Entry
unfolding settle_with
enter_settlement card now req id = do
  row ← reads (λ s. or_throw (get_charge id s) (engine settle))
  lift (throw_if (not (row.card_id == card)) (engine settle))
  settle_with card now req row

-- Idempotency: a charge that failed before it was sent is cleared, any other is replayed.
unfoldable pub enter_by_key : CardId → ℕ → SpendRequest → Text → Exec Store Entry
unfolding replay_row
enter_by_key card now req key = do
  existing ← gets (charge_by_idempotency card key)
  elim existing [
    | none ↦ pure (proceed none req)
    | some row ↦
        if is_failed row.status && not (is_some row.request_id)
        then (do modify (delete_charge row.id); pure (proceed none req))
        else replay (
            replay_row card row.status row (or_else row.to_addr (or_else req.to fee_collector)) now)
  ]

unfoldable pub enter : CardId → ℕ → SpendRequest → Exec Store Entry
unfolding enter_settlement enter_by_key
enter card now req = elim req.settle_charge_id [
  | some id ↦ enter_settlement card now req id
  | none ↦ elim (truthy req.idempotency_key) [
    | none ↦ pure (proceed none req)
    | some key ↦ enter_by_key card now req key
  ]
]
