-- ===== src/Store/Tree/Updates.antt =====
-- A change of statuses, and the chain of a card.
use t3_spend.Prelude.{
  ℕ, zero, suc, ◌≡◌, refl, ap, ◌∙◌, Option, none, some, List, [], ◌∷◌, map, ◌==◌, arith,
  if◌then◌else◌, Option-cases, inl, inr,
}
use t3_spend.Prelude.Lists.{length, length-update, update}
use t3_spend.Types.{CardId}
use t3_spend.Store.{CardStatus, CardRow, Store}
use t3_spend.Store.Cards.{find_card, with_status, set_card_status}
use t3_spend.Store.Tree.{parent_row, chain_from, ancestor_chain}

-- The row as it stands after `set_card_status`.
abbrev pub rewritten : CardId → CardStatus → CardRow → CardRow
rewritten id status c = if c.id == id then with_status status c else c

abbrev mapped : (CardRow → CardRow) → Option CardRow → Option CardRow
mapped g none = none
mapped g (some c) = some (g c)

module _ (t : CardId) (status : CardStatus) where
  find_card-rewritten :
      (id : CardId) (cs : List CardRow)
      → find_card id (update (λ c. c.id == t) (with_status status) cs)
        ≡ mapped (rewritten t status) (find_card id cs)
  unfolding find_card
  find_card-rewritten id [] = refl
  find_card-rewritten id (c ∷ cs) = ground (arith, find_card-rewritten id cs)

  parent_row-rewritten :
      (cs : List CardRow) (c : CardRow)
      → parent_row (update (λ c. c.id == t) (with_status status) cs) (rewritten t status c)
        ≡ mapped (rewritten t status) (parent_row cs c)
  unfolding parent_row
  parent_row-rewritten cs c = elim (Option-cases c.parent_card_id) [
    | inl e ↦ ground (arith, e)
    | inr (p, e) ↦ ground (arith, e, find_card-rewritten p cs)
  ]

  chain_from-rewritten :
      (fuel : ℕ) (cs : List CardRow) (o : Option CardRow)
      → chain_from fuel
          (update (λ c. c.id == t) (with_status status) cs)
          (mapped (rewritten t status) o)
        ≡ map (rewritten t status) (chain_from fuel cs o)
  unfolding chain_from
  chain_from-rewritten zero cs o = refl
  chain_from-rewritten (suc fuel) cs none = refl
  chain_from-rewritten (suc fuel) cs (some c) =
      ap (λ r. rewritten t status c ∷ r)
        (ap (chain_from fuel (update (λ c. c.id == t) (with_status status) cs))
            (parent_row-rewritten cs c)
          ∙ chain_from-rewritten fuel cs (parent_row cs c))

  pub ancestor_chain-set_card_status :
      (d : CardId) (s : Store)
      → ancestor_chain d (set_card_status t status s)
        ≡ map (rewritten t status) (ancestor_chain d s)
  unfolding ancestor_chain set_card_status
  ancestor_chain-set_card_status d s =
      rw
        (find_card-rewritten d s.cards, length-update (λ c. c.id == t) (with_status status) s.cards)
        (chain_from-rewritten (length s.cards) s.cards (find_card d s.cards))
