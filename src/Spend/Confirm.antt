-- ===== src/Spend/Confirm.antt =====
-- Confirmation in packages/engine/src/spend.ts: chain logs are the truth, the relayer's status a hint.
pub mod Truth
use t3_spend.Prelude.{ℕ, Bool, false, Option, none, some, List, [], ◌∷◌, ◌==◌, if◌then◌else◌}
use t3_spend.Prelude.Lists.{find}
use t3_spend.Prelude.Texts.{Text}
use t3_spend.Prelude.Failures.{Result, ok, err}

pub data ConfirmStatus : Type 0 where
  confirmed failed pending : ConfirmStatus

pub record Confirmation : Type 0 where
  pub status : ConfirmStatus
  pub tx_hash : Option Text

-- `RelayerStatus`; a status that is unknown is absent.
pub record RelayerStatus : Type 0 where
  pub status : Option ℕ
  pub tx_hash : Option Text

-- A Transfer log from the delegator to the fee collector.
pub record FeeLog : Type 0 where
  pub value : ℕ
  pub tx_hash : Text

-- One round of polling: the relayer's answer or its failure, and the logs unless the read failed.
pub record Poll : Type 0 where
  pub hint : Result RelayerStatus
  pub logs : Option (List FeeLog)

abbrev pub has_status : ℕ → Option ℕ → Bool
has_status n none = false
has_status n (some m) = m == n

unfoldable pub status_to_confirmation : RelayerStatus → Confirmation
status_to_confirmation st =
    if has_status 200 st.status
    then record { status = confirmed; tx_hash = st.tx_hash }
    else if has_status 500 st.status
    then record { status = failed; tx_hash = st.tx_hash }
    else record { status = pending; tx_hash = st.tx_hash }

-- `logs.find((l) => l.value === feeAtoms)`, none where the logs could not be read
unfoldable pub fee_hit : Option (List FeeLog) → ℕ → Option FeeLog
fee_hit none fee = none
fee_hit (some logs) fee = find (λ l. l.value == fee) logs

-- What one round decides, and `none` where it polls on.
unfoldable pub judge : RelayerStatus → Option FeeLog → Option Confirmation
judge st hit =
    if has_status 200 st.status
    then some (record { status = confirmed; tx_hash = st.tx_hash })
    else elim hit [
      | some l ↦ some (record { status = confirmed; tx_hash = some l.tx_hash })
      | none ↦
          if has_status 500 st.status
          then some (record { status = failed; tx_hash = st.tx_hash })
          else none
    ]

-- The loop until the deadline, over the rounds that time allows.
unfoldable pub confirm_redemption : List Poll → ℕ → Result Confirmation
unfolding fee_hit judge
confirm_redemption [] fee = ok (record { status = pending; tx_hash = none })
confirm_redemption (p ∷ ps) fee = elim p.hint [
  | err e ↦ err e
  | ok st ↦ elim (judge st (fee_hit p.logs fee)) [
    | some c ↦ ok c
    | none ↦ confirm_redemption ps fee
  ]
]
