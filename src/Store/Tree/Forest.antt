-- ===== src/Store/Tree/Forest.antt =====
-- The invariant of the card table: ids are unique and a parent is an older row; what a look-up finds
-- under it.
use mathlib.Core.Path.{subst}
use t3_spend.Prelude.{
  zero, suc, ◌⊎◌, ap, sym, ◌∙◌, ℕ, ◌≡◌, ◌≢◌, refl, true, Option, none, some, List, [], ◌∷◌, ◌==◌,
  is_some, ==_iff, if-inv, some_inj, arith, Option-cases, inl, inr, Bool-cases,
}
use t3_spend.Store.{CardRow}
use t3_spend.Store.Cards.{find_card}
use t3_spend.Store.Tree.{parent_row, chain_from}
use t3_spend.Types.{CardId}

abbrev pub ParentIn : Option CardId → List CardRow → Type 0
ParentIn none cs = Unit
ParentIn (some p) cs = is_some (find_card p cs) ≡ true

abbrev pub IsForest : List CardRow → Type 0
IsForest [] = Unit
IsForest (c ∷ cs) = (find_card c.id cs ≡ none) × ParentIn c.parent_card_id cs × IsForest cs

pub find_card-id :
    (id : CardId) (cs : List CardRow) (c : CardRow) → find_card id cs ≡ some c → c.id ≡ id
unfolding find_card
find_card-id id [] c h = cc
find_card-id id (d ∷ cs) c h = ground (arith, find_card-id id cs c)

-- What a look-up finds is the first row, or it is found below a row with another id.
pub find_card-inv :
    (id : CardId) (d : CardRow) (cs : List CardRow) (c : CardRow)
    → find_card id (d ∷ cs) ≡ some c
    → ((d.id ≡ id) × (d ≡ c)) ⊎ ((d.id ≢ id) × (find_card id cs ≡ some c))
unfolding find_card
find_card-inv id d cs c h = elim (if-inv (d.id == id) h) [
  | inl (e, p) ↦ inl ((==_iff d.id id).0 e, some_inj p)
  | inr (e, p) ↦ inr (λ q. cc ((==_iff d.id id).1 q), p)
]

-- A row that is found further down is found in the whole table.
pub find_card-cons :
    (id : CardId) (c : CardRow) (cs : List CardRow) {d : CardRow}
    → find_card c.id cs ≡ none
    → find_card id cs ≡ some d
    → find_card id (c ∷ cs) ≡ some d
unfolding find_card
find_card-cons id c cs fresh h = elim (Bool-cases (c.id == id)) [
  | inl e ↦ cc ((==_iff c.id id).0 e)
  | inr e ↦ rw e h
]

pub is_some-value {ℓ} : {A : Type ℓ} (o : Option A) → is_some o ≡ true → (a : A) × (o ≡ some a)
is_some-value none h = cc
is_some-value (some a) h = (a, refl)

-- The parent of a row in the table is in the table.
pub find_card-parent :
    (id p : CardId) (cs : List CardRow) {c : CardRow}
    → IsForest cs
    → find_card id cs ≡ some c
    → c.parent_card_id ≡ some p
    → (q : CardRow) × (find_card p cs ≡ some q)
find_card-parent id p [] f h e = unfold find_card in cc
find_card-parent id p (d ∷ cs) {c} (fresh, closed, f) h e = elim (find_card-inv id d cs c h) [
  | inl (_, same) ↦
      (let (q, found) =
          is_some-value (find_card p cs)
            (subst (λ o. ParentIn o cs) (ap (λ (r : CardRow). r.parent_card_id) same ∙ e) closed) in
        (q, find_card-cons p d cs fresh found))
  | inr (_, below) ↦
      (let (q, found) = find_card-parent id p cs f below e in
        (q, find_card-cons p d cs fresh found))
]

pub parent_row-root :
    (cs : List CardRow) (c : CardRow) → c.parent_card_id ≡ none → parent_row cs c ≡ none
unfolding parent_row
parent_row-root cs c e = ground arith

pub parent_row-found :
    (cs : List CardRow) (c : CardRow) {p : CardId} {q : CardRow}
    → c.parent_card_id ≡ some p
    → find_card p cs ≡ some q
    → parent_row cs c ≡ some q
unfolding parent_row
parent_row-found cs c e h = ground arith

pub chain_from-none : (fuel : ℕ) (cs : List CardRow) → chain_from fuel cs none ≡ []
unfolding chain_from
chain_from-none zero cs = refl
chain_from-none (suc fuel) cs = refl

-- A row of the table is a root, or its parent is a row of the table.
pub parent-cases :
    (id : CardId) (cs : List CardRow) (c : CardRow)
    → IsForest cs
    → find_card id cs ≡ some c
    → ((c.parent_card_id ≡ none) × (parent_row cs c ≡ none))
      ⊎ ((q : CardRow) × (c.parent_card_id ≡ some q.id)
          × (find_card q.id cs ≡ some q)
          × (parent_row cs c ≡ some q))
parent-cases id cs c f h = elim (Option-cases c.parent_card_id) [
  | inl e ↦ inl (e, parent_row-root cs c e)
  | inr (p, e) ↦ inr (
      let (q, found) = find_card-parent id p cs f h e in
      let same = find_card-id p cs q found in
      (
        q,
        rw same e,
        subst (λ x. find_card x cs ≡ some q) (sym same) found,
        parent_row-found cs c e found,
      ))
]

-- The parent of the newest row is an older row.
pub newest-cases :
    (b : CardRow) (cs : List CardRow)
    → IsForest (b ∷ cs)
    → (b.parent_card_id ≡ none)
      ⊎ ((q : CardRow) × (b.parent_card_id ≡ some q.id) × (find_card q.id cs ≡ some q))
newest-cases b cs (fresh, closed, f) = elim (Option-cases b.parent_card_id) [
  | inl e ↦ inl e
  | inr (p, e) ↦ inr (
      let (q, found) = is_some-value (find_card p cs) (subst (λ o. ParentIn o cs) e closed) in
      let same = find_card-id p cs q found in
      (q, rw same e, subst (λ x. find_card x cs ≡ some q) (sym same) found))
]
