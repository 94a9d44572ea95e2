-- ===== src/Tests/Trees.antt =====
-- Runs of the theorems on the tree of cards and its accounting.
use t3_spend.Store.{CardRow, Store, is_failed}
use t3_spend.Prelude.Texts.{codes}
use t3_spend.Store.Users.{UserFields, fresh_user}
use t3_spend.Prelude.{
  List, ◌≡◌, ◌+◌, ◌≤◌, refl, none, some, [], ◌∷◌, if◌then◌else◌, ◌&&◌, not, leb, ◌==◌,
}
use t3_spend.Prelude.Lists.{any, contains}
use t3_spend.Prelude.Failures.{ok}
use t3_spend.Store.Cards.{find_card, get_card}
use t3_spend.Store.Tree.{subtree_ids, ancestor_chain}
use t3_spend.Store.Tree.Forest.{IsForest}
use t3_spend.Store.Tree.Duality.{subtree_ids-ancestor_chain}
use t3_spend.Store.Tree.Fuel.{IsLineage, ancestor_chain-IsLineage}
use t3_spend.Store.Charges.{insert_charge, update_charge, no_fields}
use t3_spend.Store.Accounting.{subtree_spent_since}
use t3_spend.Store.Accounting.Effects.{insert_charge-spent, update_charge-spent-le}
use t3_spend.Types.{ReceiptStatus}
use t3_spend.Tests.{card, tree, charge, before, after}

tree-IsForest : IsForest tree
unfolding find_card
tree-IsForest = (refl, tt, (refl, refl, (refl, refl, (refl, tt, tt))))

find_card-tree : find_card 3 tree ≡ some (card 3 (some 2))
unfolding find_card
find_card-tree = refl

find_card-charge : find_card 2 tree ≡ some (card 2 (some 1))
unfolding find_card
find_card-charge = refl

get_card-tree : get_card 3 before ≡ some (card 3 (some 2))
unfolding get_card find_card
get_card-tree = refl

subtree_ids-ancestor_chain_example :
    contains 3 (subtree_ids 1 before) ≡ any (λ x. x.id == 1) (ancestor_chain 3 before)
subtree_ids-ancestor_chain_example =
    subtree_ids-ancestor_chain 1 3 before tree-IsForest find_card-tree

ancestor_chain-IsLineage_example :
    ((card 3 (some 2)).id ≡ 3)
    × (above : List CardRow) × (ancestor_chain 3 before ≡ card 3 (some 2) ∷ above)
    × IsLineage (card 3 (some 2) ∷ above)
ancestor_chain-IsLineage_example = ancestor_chain-IsLineage 3 before tree-IsForest get_card-tree

charged : insert_charge charge before ≡ ok after
unfolding insert_charge find_card
charged = refl

insert_charge-spent_example :
    subtree_spent_since 1 0 after
    ≡ (if any (λ x. x.id == 1) (ancestor_chain 2 before)
          && not (is_failed charge.status)
          && leb 0 charge.created_at
        then 1000000 + 10000
        else 0)
      + subtree_spent_since 1 0 before
insert_charge-spent_example =
    insert_charge-spent 1 0 charge before tree-IsForest find_card-charge charged

update_charge-spent-le_example :
    subtree_spent_since 1 0
      (update_charge 1 (record no_fields { status = some ReceiptStatus.confirmed }) after)
    ≤ subtree_spent_since 1 0 after
update_charge-spent-le_example =
    update_charge-spent-le 1 0 1 (record no_fields { status = some ReceiptStatus.confirmed }) after
      refl ((λ e. refl), tt)

abbrev owner : UserFields
owner = record { id = 7; address = codes "0x01"; auth7702 = none; privy_did = none }

abbrev with_owner : Store
with_owner = record { users = fresh_user owner 0 ∷ []; cards = []; charges = [] }
