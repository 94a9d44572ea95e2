-- ===== src/Store.antt =====
-- packages/engine/src/store.ts: the rows, and the database as its three tables. A table lists its
-- rows from the newest to the oldest. The operations are in the modules below, and so are the proofs.
pub mod Window
pub mod Users
pub mod Cards
pub mod Tree
pub mod Charges
pub mod Accounting
pub mod Reachable
use t3_spend.Prelude.{ℕ, Option, List, Bool, true, false}
use t3_spend.Prelude.Texts.{Text}
use t3_spend.Types.{
  CardId, UserId, ChargeId, CardTerms, CardKind, CompiledCard, WireDelegation, ReceiptStatus,
}

pub data CardStatus : Type 0 where
  active frozen revoked nuked : CardStatus

-- ChargeStatus has the values of a receipt's status.
abbrev pub ChargeStatus : Type 0
ChargeStatus = ReceiptStatus

pub data ChargeKind : Type 0 where
  pay x402 execute admin fiat : ChargeKind

-- A stored 7702 authorization: its text, and the account's nonce that it was signed for.
pub record StoredAuth : Type 0 where
  pub wire : Text
  pub nonce : ℕ

pub record UserRow : Type 0 where
  pub id : UserId
  pub address : Text
  pub auth7702 : Option StoredAuth
  pub revocation_nonce : ℕ
  pub privy_did : Option Text
  pub created_at : ℕ

pub record CardRow : Type 0 where
  pub id : CardId
  pub user_id : UserId
  pub parent_card_id : Option CardId
  pub name : Text
  pub secret_hash : Text
  pub secret_enc : Option Text
  pub terms : CardTerms
  pub kind : CardKind
  pub compiled : CompiledCard
  pub delegation : WireDelegation
  pub k_agent_enc : Text
  pub k_agent_address : Text
  pub t3n_did : Option Text
  pub t3n_binding : Option Text
  pub status : CardStatus
  pub created_at : ℕ

pub record ChargeRow : Type 0 where
  pub id : ChargeId
  pub card_id : CardId
  pub idempotency_key : Option Text
  pub kind : ChargeKind
  pub to_addr : Option Text
  pub amount_atoms : ℕ
  pub fee_atoms : ℕ
  pub request_id : Option Text
  pub tx_hash : Option Text
  pub status : ChargeStatus
  pub memo : Option Text
  pub created_at : ℕ
  pub since_block : Option ℕ

pub record Store : Type 0 where
  pub users : List UserRow
  pub cards : List CardRow
  pub charges : List ChargeRow

abbrev pub is_failed : ChargeStatus → Bool
is_failed ReceiptStatus.failed = true
is_failed _ = false

abbrev pub is_pending : ChargeStatus → Bool
is_pending ReceiptStatus.pending = true
is_pending _ = false
