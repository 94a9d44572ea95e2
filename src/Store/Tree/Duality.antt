-- ===== src/Store/Tree/Duality.antt =====
-- The two walks over the card tree of packages/engine/src/store.ts, compared.
use mathlib.Core.Path.{subst}
use t3_spend.Prelude.{
  ℕ, zero, suc, ◌≡◌, refl, sym, ap, ◌∙◌, Bool, false, Option, none, some, List, [], ◌∷◌, map, ◌==◌,
  arith, inl, inr,
}
use t3_spend.Prelude.Lists.{length, filter, any, contains, contains-append}
use t3_spend.Store.{CardRow, Store}
use t3_spend.Store.Cards.{find_card, is_child_of}
use t3_spend.Store.Tree.{
  children_ids, subtree_from, subtree_ids, parent_row, chain_from, ancestor_chain,
}
use t3_spend.Store.Tree.Forest.{IsForest, find_card-id, parent-cases, chain_from-none}
use t3_spend.Types.{CardId}

abbrev pub matches : (CardRow → Bool) → Option CardRow → Bool
matches P none = false
matches P (some c) = P c

-- The ids that a query selects, by the one row that has the id.
pub contains-filter :
    (d : CardId) (P : CardRow → Bool) (cs : List CardRow)
    → IsForest cs
    → contains d (map (λ c. c.id) (filter P cs)) ≡ matches P (find_card d cs)
unfolding find_card
contains-filter d P [] f = refl
contains-filter d P (c ∷ cs) (fresh, closed, f) = ground (arith, contains-filter d P cs f)

abbrev pub under : List CardId → Option CardId → Bool
under ids none = false
under ids (some p) = contains p ids

contains-children :
    (d : CardId) (cs : List CardRow) (fr : List CardId) {c : CardRow}
    → IsForest cs
    → find_card d cs ≡ some c
    → contains d (children_ids cs fr) ≡ under fr c.parent_card_id
unfolding children_ids is_child_of
contains-children d cs [] f h = ground arith
contains-children d cs (i ∷ is) {c} f h = ground (
  arith,
  contains-append d (map (λ (r : CardRow). r.id) (filter (is_child_of i) cs)) (children_ids cs is),
  contains-filter d (is_child_of i) cs f,
  contains-children d cs is f h,
)

abbrev pub in_frontier : List CardId → CardRow → Bool
in_frontier fr a = contains a.id fr

-- One step down from the frontier is one step up from the card.
any-children :
    (fuel : ℕ) (d : CardId) (cs : List CardRow) (fr : List CardId) (c : CardRow)
    → IsForest cs
    → find_card d cs ≡ some c
    → any (in_frontier (children_ids cs fr)) (chain_from fuel cs (some c))
      ≡ any (in_frontier fr) (chain_from fuel cs (parent_row cs c))
unfolding chain_from
any-children zero d cs fr c f h = refl
any-children (suc fuel) d cs fr c f h = elim (parent-cases d cs c f h) [
  | inl (root, above) ↦
      rw (above, chain_from-none fuel cs) (ground (arith, contains-children c.id cs fr f found))
  | inr (q, e, found_q, above) ↦ rw above (
      ground
        (arith, contains-children c.id cs fr f found, any-children fuel q.id cs fr q f found_q))
]
  where
    found : find_card c.id cs ≡ some c
    found = subst (λ x. find_card x cs ≡ some c) (sym (find_card-id d cs c h)) h

-- With the same fuel for both walks a card is reached from a frontier exactly if the frontier meets
-- the chain of its ancestors.
pub contains-subtree_from :
    (fuel : ℕ) (d : CardId) (cs : List CardRow) (fr : List CardId) (c : CardRow)
    → IsForest cs
    → find_card d cs ≡ some c
    → contains d (subtree_from fuel cs fr) ≡ any (in_frontier fr) (chain_from fuel cs (some c))
unfolding subtree_from chain_from
contains-subtree_from zero d cs fr c f h = refl
contains-subtree_from (suc fuel) d cs fr c f h = ground (
  arith,
  find_card-id d cs c h,
  contains-append d fr (subtree_from fuel cs (children_ids cs fr)),
  contains-subtree_from fuel d cs (children_ids cs fr) c f h,
  any-children fuel d cs fr c f h,
)

-- Two tests that agree on the rows of the table agree on every chain of ancestors.
pub any-chain_from :
    (P Q : CardRow → Bool) (fuel : ℕ) (d : CardId) (cs : List CardRow) (c : CardRow)
    → IsForest cs
    → find_card d cs ≡ some c
    → ((x : CardRow) → find_card x.id cs ≡ some x → P x ≡ Q x)
    → any P (chain_from fuel cs (some c)) ≡ any Q (chain_from fuel cs (some c))
unfolding chain_from
any-chain_from P Q zero d cs c f h same = refl
any-chain_from P Q (suc fuel) d cs c f h same = elim (parent-cases d cs c f h) [
  | inl (root, above) ↦ rw (above, chain_from-none fuel cs) (ground (arith, same c found))
  | inr (q, e, found_q, above) ↦
      rw above (ground (arith, same c found, any-chain_from P Q fuel q.id cs q f found_q same))
]
  where
    found : find_card c.id cs ≡ some c
    found = subst (λ x. find_card x cs ≡ some c) (sym (find_card-id d cs c h)) h

-- In a forest a card `d` is in the subtree of `a`, by the recursive query, exactly if `a` is on the
-- chain of ancestors of `d`, by the walk over parents.
pub subtree_ids-ancestor_chain :
    (a d : CardId) (s : Store) {c : CardRow}
    → IsForest s.cards
    → find_card d s.cards ≡ some c
    → contains d (subtree_ids a s) ≡ any (λ x. x.id == a) (ancestor_chain d s)
unfolding subtree_ids ancestor_chain
subtree_ids-ancestor_chain a d s {c} f h =
    contains-subtree_from (length s.cards) d s.cards _ c f h
    ∙ any-chain_from _ (λ x. x.id == a) (length s.cards) d s.cards c f h
        (λ x e. contains-filter x.id (λ r. r.id == a) s.cards f ∙ ap (matches (λ r. r.id == a)) e)
    ∙ ap (λ o. any (λ x. x.id == a) (chain_from (length s.cards) s.cards o)) (sym h)
