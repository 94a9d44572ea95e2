-- ===== src/Spend/Reserve.antt =====
-- The budget check and the insertion of the charge in `spend` (packages/engine/src/spend.ts), one
-- synchronous pair: no other request writes between the two.
use t3_spend.Prelude.{ℕ, ◌+◌, List}
use t3_spend.Prelude.Failures.{Result}
use t3_spend.Prelude.Exec.{◌>>◌, reads, writes}
use t3_spend.Chains.{ChainId}
use t3_spend.Store.{CardRow, ChargeRow, Store}
use t3_spend.Store.Charges.{insert_charge}
use t3_spend.Compiler.{Kit}
use t3_spend.Spend.{SpendRequest}
use t3_spend.Spend.Validate.{validate_spend}

unfoldable pub reserve :
    Kit → ChainId → List CardRow → SpendRequest → ℕ → ChargeRow → Store → Result (Unit {0}) × Store
reserve kit chain_id chain req now row = do
  reads (λ s. validate_spend kit chain_id s chain req (row.amount_atoms + row.fee_atoms) now)
  writes (insert_charge row)
