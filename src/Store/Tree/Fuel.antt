-- ===== src/Store/Tree/Fuel.antt =====
-- The fuel of the walk over parents is enough: the chain of a card runs to a root, and obeys the
-- equation of the loop.
use mathlib.Core.Path.{subst}
use t3_spend.Prelude.{
  ℕ, zero, suc, ◌≤◌, ◌≡◌, refl, sym, ap, ◌∙◌, none, some, List, [], ◌∷◌, arith, inl, inr,
  Bool-cases, ==_iff, ◌==◌,
}
use t3_spend.Prelude.Lists.{length}
use t3_spend.Store.{CardRow, Store}
use t3_spend.Store.Cards.{find_card, get_card}
use t3_spend.Store.Tree.{parent_row, chain_from, ancestor_chain}
use t3_spend.Store.Tree.Forest.{
  IsForest, find_card-inv, find_card-cons, parent-cases, newest-cases, parent_row-root,
  parent_row-found, chain_from-none,
}
use t3_spend.Types.{CardId}

-- A newer row does not change the chain of an older one.
chain_from-cons :
    (fuel : ℕ) (d : CardId) (b : CardRow) (cs : List CardRow) (c : CardRow)
    → IsForest (b ∷ cs)
    → find_card d cs ≡ some c
    → chain_from fuel (b ∷ cs) (some c) ≡ chain_from fuel cs (some c)
unfolding chain_from
chain_from-cons zero d b cs c f h = refl
chain_from-cons (suc fuel) d b cs c f h = elim (parent-cases d cs c f.2 h) [
  | inl (root, above) ↦
      rw (above, parent_row-root (b ∷ cs) c root)
        (ap (λ r. c ∷ r) (chain_from-none fuel (b ∷ cs) ∙ sym (chain_from-none fuel cs)))
  | inr (q, e, found, above) ↦
      rw (above, parent_row-found (b ∷ cs) c e (find_card-cons q.id b cs f.0 found))
        (ap (λ r. c ∷ r) (chain_from-cons fuel q.id b cs q f found))
]

-- From a card up to a root, each row the parent of the one before it.
abbrev pub IsLineage : List CardRow → Type 0
IsLineage [] = ⊥
IsLineage (c ∷ []) = c.parent_card_id ≡ none
IsLineage (c ∷ d ∷ cs) = (c.parent_card_id ≡ some d.id) × IsLineage (d ∷ cs)

IsLineage-cons :
    (fuel : ℕ) (b : CardRow) (cs : List CardRow) (q : CardRow)
    → b.parent_card_id ≡ some q.id
    → IsLineage (chain_from fuel cs (some q))
    → IsLineage (b ∷ chain_from fuel cs (some q))
unfolding chain_from
IsLineage-cons zero b cs q e h = absurd h
IsLineage-cons (suc fuel) b cs q e h = (e, h)

IsLineage-newest :
    (fuel : ℕ) (b : CardRow) (cs : List CardRow)
    → IsForest (b ∷ cs)
    → ((q : CardRow) → find_card q.id cs ≡ some q → IsLineage (chain_from fuel cs (some q)))
    → IsLineage (chain_from (suc fuel) (b ∷ cs) (some b))
unfolding chain_from
IsLineage-newest fuel b cs f older = elim (newest-cases b cs f) [
  | inl root ↦ rw (parent_row-root (b ∷ cs) b root, chain_from-none fuel (b ∷ cs)) root
  | inr (q, e, found) ↦
      rw
        (
          parent_row-found (b ∷ cs) b e (find_card-cons q.id b cs f.0 found),
          chain_from-cons fuel q.id b cs q f found,
        )
        (IsLineage-cons fuel b cs q e (older q found))
]

chain_from-IsLineage :
    (fuel : ℕ) (d : CardId) (cs : List CardRow) (c : CardRow)
    → IsForest cs
    → find_card d cs ≡ some c
    → length cs ≤ fuel
    → IsLineage (chain_from fuel cs (some c))
chain_from-IsLineage fuel d [] c f h le = unfold find_card in cc
chain_from-IsLineage zero d (b ∷ cs) c f h le = absurd (omega arith)
chain_from-IsLineage (suc fuel) d (b ∷ cs) c f h le = elim (find_card-inv d b cs c h) [
  | inl (e, same) ↦
      subst (λ x. IsLineage (chain_from (suc fuel) (b ∷ cs) (some x))) same
        (IsLineage-newest fuel b cs f
          (λ q found. chain_from-IsLineage fuel q.id cs q f.2 found (omega arith)))
  | inr (ne, below) ↦
      rw (chain_from-cons (suc fuel) d b cs c f below)
        (chain_from-IsLineage (suc fuel) d cs c f.2 below (omega arith))
]

IsLineage-tail :
    (fuel : ℕ) (cs : List CardRow) (b q : CardRow)
    → b.parent_card_id ≡ some q.id
    → IsLineage (b ∷ chain_from fuel cs (some q))
    → IsLineage (chain_from fuel cs (some q))
unfolding chain_from
IsLineage-tail zero cs b q e l = cc
IsLineage-tail (suc fuel) cs b q e l = l.1

-- One more round of the walk finds nothing more.
chain_from-suc :
    (fuel : ℕ) (d : CardId) (cs : List CardRow) (c : CardRow)
    → IsForest cs
    → find_card d cs ≡ some c
    → IsLineage (chain_from fuel cs (some c))
    → chain_from (suc fuel) cs (some c) ≡ chain_from fuel cs (some c)
unfolding chain_from
chain_from-suc zero d cs c f h l = absurd l
chain_from-suc (suc fuel) d cs c f h l = elim (parent-cases d cs c f h) [
  | inl (root, above) ↦
      rw above (ap (λ r. c ∷ r) (chain_from-none (suc fuel) cs ∙ sym (chain_from-none fuel cs)))
  | inr (q, e, found, above) ↦ rw above (
      ap (λ r. c ∷ r)
        (chain_from-suc fuel q.id cs q f found (IsLineage-tail fuel cs c q e (rw above at l))))
]

-- In a forest the walk over parents obeys the equation of its loop: the card, then the chain of its
-- parent, if it has one.
pub ancestor_chain_lem :
    (d : CardId) (s : Store) {c : CardRow}
    → IsForest s.cards
    → get_card d s ≡ some c
    → ancestor_chain d s ≡ c ∷ elim c.parent_card_id [ none ↦ [] | some p ↦ ancestor_chain p s ]
unfolding ancestor_chain get_card
ancestor_chain_lem d s {c} f h = rw h (
    sym (chain_from-suc n d s.cards c f h (chain_from-IsLineage n d s.cards c f h (omega arith)))
    ∙ unfold chain_from parent_row in ground (arith, chain_from-none n s.cards))
  where
    n : ℕ
    n = length s.cards

find_card-id : (d : CardId) (cs : List CardRow) {c : CardRow} → find_card d cs ≡ some c → c.id ≡ d
unfolding find_card
find_card-id d [] h = cc
find_card-id d (b ∷ cs) {c} h = elim (Bool-cases (b.id == d)) [
  | inl e ↦ let named = (==_iff b.id d).0 e in ground (arith, h, e, named)
  | inr e ↦ find_card-id d cs {c = c} (ground (arith, h, e))
]

-- In a forest the walk over parents starts with the row of the card that it is asked for, and each
-- row is followed by its parent's, up to a root.
pub ancestor_chain-IsLineage :
    (d : CardId) (s : Store) {c : CardRow}
    → IsForest s.cards
    → get_card d s ≡ some c
    → (c.id ≡ d) × (above : List CardRow) × (ancestor_chain d s ≡ c ∷ above) × IsLineage (c ∷ above)
unfolding ancestor_chain get_card
ancestor_chain-IsLineage d s {c} f h = (
  find_card-id d s.cards {c = c} h,
  elim c.parent_card_id [ none ↦ [] | some p ↦ ancestor_chain p s ],
  ancestor_chain_lem d s f h,
  subst IsLineage (ancestor_chain_lem d s {c = c} f h)
      (rw h (chain_from-IsLineage (length s.cards) d s.cards c f h (omega arith))),
)
