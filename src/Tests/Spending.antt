-- ===== src/Tests/Spending.antt =====
-- Runs of the theorems on spends.
use t3_spend.Prelude.{ℕ, ◌+◌, ◌*◌, ◌≤◌, ◌<◌, ◌++◌, arith, ◌≡◌, refl, none, some, List, [], ◌∷◌, inl}
use t3_spend.Prelude.Failures.{ok}
use t3_spend.Store.{CardRow}
use t3_spend.Store.Charges.{insert_charge}
use t3_spend.Store.Cards.{find_card}
use t3_spend.Store.Tree.{subtree_ids, ancestor_chain}
use t3_spend.Store.Accounting.{subtree_spent_since, subtree_spent_lifetime, subtree_uses_count}
use t3_spend.Chains.{ChainId}
use t3_spend.Spend.Validate.{validate_spend}
use t3_spend.Store.Tree.Members.{All}
use t3_spend.Money.{usdc_to_atoms}
use t3_spend.Spend.Reserve.{reserve}
use t3_spend.Store.Tree.Forest.{IsForest}
use t3_spend.Store.Window.{period_window}
use t3_spend.Store.Window.Bounds.{period_window-bounds}
use t3_spend.Spend.Solvent.{IsSolvent, reserve-IsSolvent}
use t3_spend.Spend.Plan.{Item, plan_items, add_fee}
use t3_spend.Spend.Plan.Shape.{all_executions, IsIsolated, plan_items-work, plan_items-IsIsolated}
use t3_spend.Compiler.Allowance.{decode_allowance_call}
use t3_spend.Types.{WireExecution, SpendMode}
use t3_spend.Spend.Confirm.{ConfirmStatus, Confirmation, Poll, fee_hit, confirm_redemption}
use t3_spend.Spend.Confirm.Truth.{
  FailsUnseen, confirm_redemption-FailsUnseen, confirm_redemption-Lands,
}
use t3_spend.Prelude.Texts.{codes}
use t3_spend.Prelude.Lists.{drop, replicate}
use t3_spend.Compiler.{approve_sig, increase_allowance_sig}
use t3_spend.Spend.Budget.{HasRoom, reserve-HasRoom}
use t3_spend.Tests.{card, tree, charge, before, after, request, plain_kit}

abbrev chain : List CardRow
chain = card 2 (some 1) ∷ card 1 none ∷ []

reserved : reserve plain_kit ChainId.base_sepolia chain request 60 charge before ≡ (ok tt, after)
unfolding reserve validate_spend insert_charge find_card subtree_spent_since subtree_spent_lifetime
    subtree_uses_count subtree_ids usdc_to_atoms
reserved = refl

reserve-HasRoom_example : All (HasRoom after 60 0 0) chain
reserve-HasRoom_example =
    reserve-HasRoom plain_kit ChainId.base_sepolia chain request 60 charge before reserved

tree-IsForest : IsForest tree
unfolding find_card
tree-IsForest = (refl, tt, (refl, refl, (refl, refl, (refl, tt, tt))))

before-IsSolvent : IsSolvent before
unfolding subtree_spent_lifetime subtree_spent_since subtree_uses_count subtree_ids usdc_to_atoms
before-IsSolvent = (room, (room, (room, (room, tt))))
  where
    room : ((cap : ℕ) × (usdc_to_atoms (codes "3") ≡ ok cap) × (0 + 0 ≤ cap)) × (0 + 0 ≤ 2)
    room = ((3000000, refl, omega arith), omega arith)

find_card-charge : find_card 2 tree ≡ some (card 2 (some 1))
unfolding find_card
find_card-charge = refl

reserved_up :
    reserve plain_kit ChainId.base_sepolia (ancestor_chain 2 before) request 60 charge before
    ≡ (ok tt, after)
unfolding reserve validate_spend insert_charge find_card subtree_spent_since subtree_spent_lifetime
    subtree_uses_count subtree_ids usdc_to_atoms ancestor_chain
reserved_up = refl

reserve-IsSolvent_example : IsSolvent after
reserve-IsSolvent_example =
    reserve-IsSolvent plain_kit ChainId.base_sepolia request 60 charge before tree-IsForest
      find_card-charge before-IsSolvent reserved_up

period_window-bounds_example :
    ((k : ℕ) × ((period_window 100 60 250).start ≡ 100 + k * 60))
    × ((period_window 100 60 250).start ≤ 250)
    × (250 < (period_window 100 60 250).resets_at)
    × ((period_window 100 60 250).resets_at ≡ (period_window 100 60 250).start + 60)
period_window-bounds_example = period_window-bounds 100 60 250 (omega arith) (omega arith)

abbrev work : List WireExecution
work =
    record { target = codes "0x0a"; value = codes "0"; payload = codes "0x12345678" }
    ∷ record {
      target = codes "0x0b";
      value = codes "0";
      payload = codes "approve(ad" ++ replicate 64 48 ++ replicate 63 48 ++ codes "7";
    }
    ∷ []

abbrev fee : WireExecution
fee = record { target = codes "0x0c"; value = codes "0"; payload = codes "0xa9059cbb" }

-- The swap, and then the allowance in an item of its own.
abbrev items : List Item
items =
    record {
      executions =
          record { target = codes "0x0a"; value = codes "0"; payload = codes "0x12345678" } ∷ [];
      pin = none;
    }
    ∷ record {
      executions = drop 1 work;
      pin = some (record {
        token = codes "0x0b";
        spender = codes "0x" ++ replicate 40 48;
        amount_atoms = 7;
        sig = approve_sig;
      });
    }
    ∷ []

planned : plan_items plain_kit SpendMode.contract work ≡ ok items
unfolding plan_items decode_allowance_call increase_allowance_sig approve_sig
planned = refl

plan_items-work_example : all_executions (add_fee fee items) ≡ work ++ fee ∷ []
plan_items-work_example = plan_items-work plain_kit SpendMode.contract work fee planned

plan_items-IsIsolated_example : All (IsIsolated plain_kit) items
plan_items-IsIsolated_example = plan_items-IsIsolated plain_kit work planned

-- The relayer says nothing, then it says failed while the chain shows no fee.
abbrev lost : List Poll
lost =
    record { hint = ok (record { status = none; tx_hash = none }); logs = some [] }
    ∷ record { hint = ok (record { status = some 500; tx_hash = none }); logs = some [] }
    ∷ []

confirm_redemption-FailsUnseen_example : FailsUnseen 10000 lost
unfolding confirm_redemption
confirm_redemption-FailsUnseen_example =
    confirm_redemption-FailsUnseen lost 10000
      {c = record { status = ConfirmStatus.failed; tx_hash = none }} ended refl
  where
    ended :
        confirm_redemption lost 10000
        ≡ ok (record { status = ConfirmStatus.failed; tx_hash = none })
    ended = refl

-- The relayer says failed, but the chain shows the fee.
abbrev landed : List Poll
landed =
    record {
      hint = ok (record { status = some 500; tx_hash = none });
      logs = some (record { value = 10000; tx_hash = codes "0xfe" } ∷ []);
    }
    ∷ []

confirm_redemption-Lands_example :
    (c : Confirmation) × (confirm_redemption landed 10000 ≡ ok c)
    × (c.status ≡ ConfirmStatus.confirmed)
unfolding fee_hit
confirm_redemption-Lands_example =
    confirm_redemption-Lands landed 10000
      (record { status = some 500; tx_hash = none }, refl, inl refl)
