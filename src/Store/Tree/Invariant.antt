-- ===== src/Store/Tree/Invariant.antt =====
-- The operations of packages/engine/src/store.ts and the invariant of the card table.
use mathlib.Core.Path.{subst}
use t3_spend.Prelude.{
  ◌≡◌, ◌≢◌, refl, sym, ap, ◌∙◌, Bool, false, not, Option, none, some, List, [], ◌∷◌, ◌==◌, arith,
  is_some, Bool-cases, inl, inr, if-inv, if◌then◌else◌,
}
use t3_spend.Prelude.Lists.{any, filter, update}
use t3_spend.Prelude.Failures.{ok, ok_inj}
use t3_spend.Store.{CardStatus, CardRow, Store}
use t3_spend.Store.Cards.{
  find_card, is_child_of, parent_missing, card_conflicts, create_card, with_status, set_card_status,
}
use t3_spend.Store.Tree.{set_status_of, is_referred, delete_card}
use t3_spend.Store.Tree.Forest.{IsForest, ParentIn}
use t3_spend.Types.{CardId}

any-find_card :
    (id : CardId) (cs : List CardRow) → any (λ r. r.id == id) cs ≡ is_some (find_card id cs)
unfolding find_card
any-find_card id [] = refl
any-find_card id (c ∷ cs) = ground (arith, any-find_card id cs)

is_some-false {ℓ} : {A : Type ℓ} (o : Option A) → is_some o ≡ false → o ≡ none
is_some-false none h = refl
is_some-false (some a) h = cc

ParentIn-present :
    (p : Option CardId) (cs : List CardRow) → parent_missing p cs ≡ false → ParentIn p cs
unfolding parent_missing
ParentIn-present none cs h = tt
ParentIn-present (some p) cs h = ground (arith, any-find_card p cs)

no_conflict :
    (c : CardRow) (s : Store)
    → card_conflicts c s ≡ false
    → (any (λ r. r.id == c.id) s.cards ≡ false) × (parent_missing c.parent_card_id s.cards ≡ false)
unfolding card_conflicts
no_conflict c s h = ground arith

IsForest-newest :
    (c : CardRow) (s : Store)
    → IsForest s.cards
    → card_conflicts c s ≡ false
    → IsForest (c ∷ s.cards)
IsForest-newest c s f h =
    let (fresh, present) = no_conflict c s h in
    (
      is_some-false (find_card c.id s.cards) (sym (any-find_card c.id s.cards) ∙ fresh),
      ParentIn-present c.parent_card_id s.cards present,
      f,
    )

-- A card that the database accepts is added to a forest, and the table stays a forest.
pub create_card-IsForest :
    (c : CardRow) (s : Store) {s' : Store}
    → IsForest s.cards
    → create_card c s ≡ ok s'
    → IsForest s'.cards
unfolding create_card
create_card-IsForest c s {s'} f h = elim (if-inv (card_conflicts c s) h) [
  | inl (_, refused) ↦ cc
  | inr (fine, stored) ↦
      subst IsForest (ap (λ (t : Store). t.cards) (ok_inj stored)) (IsForest-newest c s f fine)
]

-- A rewrite of rows that leaves ids and parents alone.
abbrev pub KeepsTree : (CardRow → CardRow) → Type 0
KeepsTree f = (c : CardRow) → ((f c).id ≡ c.id) × ((f c).parent_card_id ≡ c.parent_card_id)

is_some-update :
    (id : CardId) (p : CardRow → Bool) (f : CardRow → CardRow) (cs : List CardRow)
    → KeepsTree f
    → is_some (find_card id (update p f cs)) ≡ is_some (find_card id cs)
unfolding find_card
is_some-update id p f [] k = refl
is_some-update id p f (c ∷ cs) k = ground (arith, k c, is_some-update id p f cs k)

pub update-IsForest :
    (p : CardRow → Bool) (f : CardRow → CardRow) (cs : List CardRow)
    → KeepsTree f
    → IsForest cs
    → IsForest (update p f cs)
update-IsForest p f [] k h = tt
update-IsForest p f (c ∷ cs) k (fresh, closed, h) = (
  is_some-false (find_card d.id (update p f cs))
      (is_some-update d.id p f cs k ∙ ap (λ i. is_some (find_card i cs)) same.0 ∙ ap is_some fresh),
  ParentIn-update d.parent_card_id (subst (λ o. ParentIn o cs) (sym same.1) closed),
  update-IsForest p f cs k h,
)
  where
    d : CardRow
    d = if p c then f c else c

    same : (d.id ≡ c.id) × (d.parent_card_id ≡ c.parent_card_id)
    same = ground (arith, k c)

    ParentIn-update : (o : Option CardId) → ParentIn o cs → ParentIn o (update p f cs)
    ParentIn-update none h = tt
    ParentIn-update (some q) h = is_some-update q p f cs k ∙ h

set_card_status-IsForest :
    (id : CardId) (status : CardStatus) (s : Store)
    → IsForest s.cards
    → IsForest (set_card_status id status s).cards
unfolding set_card_status
set_card_status-IsForest id status s h =
    update-IsForest (λ c. c.id == id) (with_status status) s.cards (λ c. (refl, refl)) h

-- Setting the status of the cards with the given ids keeps the forest.
pub set_status_of-IsForest :
    (ids : List CardId) (status : CardStatus) (s : Store)
    → IsForest s.cards
    → IsForest (set_status_of ids status s).cards
unfolding set_status_of
set_status_of-IsForest [] status s h = h
set_status_of-IsForest (id ∷ ids) status s h =
    set_status_of-IsForest ids status (set_card_status id status s)
      (set_card_status-IsForest id status s h)

-- The rows that a deletion leaves, where none of them is a child of the deleted card.
find_card-filter :
    (id x : CardId) (cs : List CardRow)
    → x ≢ id
    → find_card x (filter (λ c. not (c.id == id)) cs) ≡ find_card x cs
unfolding find_card
find_card-filter id x [] ne = refl
find_card-filter id x (c ∷ cs) ne = ground (arith, find_card-filter id x cs ne)

find_card-filter-none :
    (id x : CardId) (cs : List CardRow)
    → find_card x cs ≡ none
    → find_card x (filter (λ c. not (c.id == id)) cs) ≡ none
unfolding find_card
find_card-filter-none id x [] h = refl
find_card-filter-none id x (c ∷ cs) h = ground (arith, find_card-filter-none id x cs)

ParentIn-filter :
    (id : CardId) (c : CardRow) (cs : List CardRow)
    → is_child_of id c ≡ false
    → ParentIn c.parent_card_id cs
    → ParentIn c.parent_card_id (filter (λ r. not (r.id == id)) cs)
ParentIn-filter id c cs other closed = go c.parent_card_id refl closed
  where
    go :
        (o : Option CardId)
        → c.parent_card_id ≡ o
        → ParentIn o cs
        → ParentIn o (filter (λ r. not (r.id == id)) cs)
    go none e h = tt
    go (some p) e h =
        ap is_some (find_card-filter id p cs (λ q. unfold is_child_of in ground arith)) ∙ h

filter-IsForest :
    (id : CardId) (cs : List CardRow)
    → any (is_child_of id) cs ≡ false
    → IsForest cs
    → IsForest (filter (λ c. not (c.id == id)) cs)
filter-IsForest id [] none_below h = tt
filter-IsForest id (c ∷ cs) none_below (fresh, closed, h) = elim (Bool-cases (c.id == id)) [
  | inl e ↦ rw e (filter-IsForest id cs (below.1) h)
  | inr e ↦ rw e (
    find_card-filter-none id c.id cs fresh,
    ParentIn-filter id c cs below.0 closed,
    filter-IsForest id cs below.1 h,
  )
]
  where
    below : (is_child_of id c ≡ false) × (any (is_child_of id) cs ≡ false)
    below = ground arith

-- A card that the database lets go is taken out of a forest, and the table stays a forest: no row is
-- left without its parent.
pub delete_card-IsForest :
    (id : CardId) (s : Store) {s' : Store}
    → IsForest s.cards
    → delete_card id s ≡ ok s'
    → IsForest s'.cards
unfolding delete_card
delete_card-IsForest id s {s'} f h = elim (if-inv (is_referred id s) h) [
  | inl (_, refused) ↦ cc
  | inr (free, stored) ↦
      subst IsForest (ap (λ (t : Store). t.cards) (ok_inj stored))
        (filter-IsForest id s.cards (unfold is_referred in ground arith) f)
]
