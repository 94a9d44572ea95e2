-- ===== src/Spend.antt =====
-- packages/engine/src/spend.ts: the requests. The functions are in the modules below, and so are the
-- proofs.
pub mod Validate
pub mod Balance
pub mod Plan
pub mod Confirm
pub mod Network
pub mod Reserve
pub mod Pipeline
pub mod Reconcile
pub mod Budget
pub mod Solvent
use t3_spend.Prelude.{ℕ, Option, List}
use t3_spend.Prelude.Texts.{Text}
use t3_spend.Types.{ChargeId, WireExecution, SpendMode}
use t3_spend.Store.{ChargeKind}

pub record SpendRequest : Type 0 where
  pub kind : ChargeKind
  pub mode : SpendMode
  pub to : Option Text
  pub amount_atoms : Option ℕ
  pub work_executions : Option (List WireExecution)
  pub memo : Option Text
  pub idempotency_key : Option Text
  pub settle_charge_id : Option ChargeId
