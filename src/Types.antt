-- ===== src/Types.antt =====
-- packages/engine/src/types.ts: the terms of a card, its compiled form, and the wire shapes.
-- Ids are UUIDs, which are only compared, so they are numbers here; times are Unix seconds.
use t3_spend.Prelude.{ℕ, Bool, Option, List}
use t3_spend.Prelude.Texts.{Text}

abbrev pub CardId : Type 0
CardId = ℕ

abbrev pub UserId : Type 0
UserId = ℕ

abbrev pub ChargeId : Type 0
ChargeId = ℕ

pub record PeriodCap : Type 0 where
  pub amount : Text
  pub seconds : ℕ

pub record PayTerms : Type 0 where
  pub period : Option PeriodCap
  -- `lifetime?: { amount }`
  pub lifetime : Option Text

pub record ContractTerms : Type 0 where
  pub targets : List Text
  pub selectors : List Text
  pub tokens : Option (List Text)
  pub per_trade_max : Option Text

pub record CardTerms : Type 0 where
  pub pay : Option PayTerms
  pub contract : Option ContractTerms
  pub expiry : Option ℕ
  pub max_uses : Option ℕ
  pub per_tx_max : Option Text
  pub merchants : Option (List Text)
  pub subcards : Option Bool

pub record WireCaveat : Type 0 where
  pub enforcer : Text
  pub terms : Text
  pub args : Text

pub data CardKind : Type 0 where
  pay contract composite : CardKind

pub record OrGroupInfo : Type 0 where
  pub pay_index : ℕ
  pub contract_index : ℕ
  pub sizes : List ℕ
  pub caveat_position : ℕ

pub record CarvePolicy : Type 0 where
  pub per_tx_max_atoms : Option ℕ
  pub merchants : Option (List Text)

pub record CompiledCard : Type 0 where
  pub kind : CardKind
  pub root_caveats : List WireCaveat
  pub or_groups : Option OrGroupInfo
  pub carve_policy : CarvePolicy
  pub period_start_date : Option ℕ
  pub terms : CardTerms

pub record WireDelegation : Type 0 where
  pub delegate : Text
  pub delegator : Text
  pub authority : Text
  pub caveats : List WireCaveat
  pub salt : Text
  pub signature : Text

pub record WireExecution : Type 0 where
  pub target : Text
  pub value : Text
  pub payload : Text

pub data ReceiptStatus : Type 0 where
  confirmed pending failed settlement_unconfirmed : ReceiptStatus

pub record Receipt : Type 0 where
  pub status : ReceiptStatus
  pub charge_id : ChargeId
  pub tx : Option Text
  pub to : Text
  pub amount : Text
  pub fee : Text
  pub remaining_this_period : Option Text
  pub memo : Option Text

pub data LiveStatus : Type 0 where
  active frozen revoked nuked expired : LiveStatus

pub record CardState : Type 0 where
  pub card_id : CardId
  pub name : Text
  pub status : LiveStatus
  pub terms : CardTerms
  pub remaining_this_period : Option Text
  pub remaining_lifetime : Option Text
  pub period_resets_at : Option ℕ
  pub expires_at : Option ℕ
  pub uses_remaining : Option ℕ
  pub subcards : List CardId

-- `SpendMode` of packages/engine/src/spend.ts
pub data SpendMode : Type 0 where
  pay contract : SpendMode
