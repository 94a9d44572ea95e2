-- ===== src/Store/Tree.antt =====
-- The card tree of packages/engine/src/store.ts: the subtree of a card by the recursive query, the
-- chain of its ancestors, and the operations on a whole subtree. The fuel of the two walks is the
-- number of cards: a parent is an older row, so no walk is longer.
pub mod Forest
pub mod Duality
pub mod Fuel
pub mod Invariant
pub mod Members
pub mod Updates
use t3_spend.Prelude.{
  ℕ, zero, suc, Bool, not, ◌||◌, Option, none, some, List, [], ◌∷◌, ◌++◌, map, ◌==◌, if◌then◌else◌,
}
use mathlib.Core.List.{reverse}
use t3_spend.Prelude.Lists.{length, any, filter, update}
use t3_spend.Prelude.Failures.{Result, ok, err, constraint, ◌>>=◌}
use t3_spend.Types.{CardId, UserId}
use t3_spend.Store.{CardStatus, CardRow, Store}
use t3_spend.Store.Cards.{find_card, get_card, is_child_of, with_status, set_card_status}

-- SELECT c.id FROM cards c JOIN sub s ON c.parent_card_id = s.id
unfoldable pub children_ids : List CardRow → List CardId → List CardId
unfolding is_child_of
children_ids cards [] = []
children_ids cards (i ∷ is) =
    map (λ c. c.id) (filter (is_child_of i) cards) ++ children_ids cards is

-- WITH RECURSIVE … UNION ALL: what one round adds is the next round's `sub`.
unfoldable pub subtree_from : ℕ → List CardRow → List CardId → List CardId
unfolding children_ids
subtree_from zero cards frontier = []
subtree_from (suc fuel) cards frontier =
    frontier ++ subtree_from fuel cards (children_ids cards frontier)

unfoldable pub subtree_ids : CardId → Store → List CardId
unfolding subtree_from
subtree_ids id s =
    subtree_from (length s.cards) s.cards (map (λ c. c.id) (filter (λ c. c.id == id) s.cards))

-- `cur.parent_card_id ? this.getCard(cur.parent_card_id) : null`
unfoldable pub parent_row : List CardRow → CardRow → Option CardRow
unfolding find_card
parent_row cards c = elim c.parent_card_id [ none ↦ none | some p ↦ find_card p cards ]

-- `while (cur)`
unfoldable pub chain_from : ℕ → List CardRow → Option CardRow → List CardRow
unfolding parent_row
chain_from zero cards cur = []
chain_from (suc fuel) cards none = []
chain_from (suc fuel) cards (some c) = c ∷ chain_from fuel cards (parent_row cards c)

unfoldable pub ancestor_chain : CardId → Store → List CardRow
unfolding chain_from
ancestor_chain id s = chain_from (length s.cards) s.cards (find_card id s.cards)

unfoldable pub delete_charges : List CardId → Store → Store
delete_charges [] s = s
delete_charges (id ∷ ids) s =
    delete_charges ids (record s { charges = filter (λ ch. not (ch.card_id == id)) s.charges })

-- DELETE FROM cards WHERE id = $id, refused while a card or a charge refers to the row.
unfoldable pub is_referred : CardId → Store → Bool
unfolding is_child_of
is_referred id s = any (is_child_of id) s.cards || any (λ ch. ch.card_id == id) s.charges

unfoldable pub delete_card : CardId → Store → Result Store
unfolding is_referred
delete_card id s =
    if is_referred id s
    then err constraint
    else ok (record s { cards = filter (λ c. not (c.id == id)) s.cards })

unfoldable pub delete_cards : List CardId → Store → Result Store
unfolding delete_card
delete_cards [] s = ok s
delete_cards (id ∷ ids) s = do s' ← delete_card id s; delete_cards ids s'

-- One transaction: the charges of the subtree, then its cards from the leaves up.
unfoldable pub delete_ids : List CardId → Store → Result (ℕ × Store)
unfolding delete_charges delete_cards
delete_ids [] s = ok (0, s)
delete_ids (i ∷ is) s = do
  s' ← delete_cards (reverse (i ∷ is)) (delete_charges (i ∷ is) s)
  ok (length (i ∷ is), s')

unfoldable pub delete_card_tree : CardId → Store → Result (ℕ × Store)
unfolding subtree_ids delete_ids
delete_card_tree id s = delete_ids (subtree_ids id s) s

unfoldable pub set_status_of : List CardId → CardStatus → Store → Store
unfolding set_card_status
set_status_of [] status s = s
set_status_of (id ∷ ids) status s = set_status_of ids status (set_card_status id status s)

unfoldable pub set_subtree_status : CardId → CardStatus → Store → Store
unfolding subtree_ids set_status_of
set_subtree_status id status s = set_status_of (subtree_ids id s) status s
