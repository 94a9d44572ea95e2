-- ===== src/Store/Tree/Members.antt =====
-- The rows of the card table and of a chain, and the look-up by their ids.
use mathlib.Core.Path.{subst}
use t3_spend.Prelude.{
  ℕ, zero, suc, ◌≡◌, refl, sym, true, Bool, Option, none, some, List, [], ◌∷◌, arith, inl, inr,
  Bool-cases, Option-cases, ==_refl,
}
use t3_spend.Prelude.Lists.{length, any}
use t3_spend.Types.{CardId}
use t3_spend.Store.{CardRow, Store}
use t3_spend.Store.Cards.{find_card}
use t3_spend.Store.Tree.{parent_row, chain_from, ancestor_chain}
use t3_spend.Store.Tree.Forest.{IsForest, find_card-id, find_card-cons}

abbrev pub All {ℓ κ} : {A : Type ℓ} → (A → Type κ) → List A → Type κ
All P [] = Unit
All P (x ∷ xs) = P x × All P xs

pub All-any {ℓ κ} :
    {A : Type ℓ} (P : A → Type κ) (f : A → Bool) (xs : List A)
    → All P xs
    → any f xs ≡ true
    → (x : A) × P x × (f x ≡ true)
All-any P f [] h e = cc
All-any P f (x ∷ xs) h e = elim (Bool-cases (f x)) [
  | inl here ↦ (x, h.0, here)
  | inr below ↦ All-any P f xs h.1 (ground arith)
]

abbrev pub IsFound : List CardRow → CardRow → Type 0
IsFound cs c = find_card c.id cs ≡ some c

find_card-IsFound :
    (id : CardId) (cs : List CardRow) (c : CardRow) → find_card id cs ≡ some c → IsFound cs c
find_card-IsFound id cs c h = subst (λ i. find_card i cs ≡ some c) (sym (find_card-id id cs c h)) h

parent_row-IsFound : (cs : List CardRow) (c q : CardRow) → parent_row cs c ≡ some q → IsFound cs q
unfolding parent_row
parent_row-IsFound cs c q h = elim (Option-cases c.parent_card_id) [
  | inl e ↦ cc
  | inr (p, e) ↦ find_card-IsFound p cs q (rw e at h)
]

chain_from-IsFound :
    (fuel : ℕ) (cs : List CardRow) (o : Option CardRow)
    → ((c : CardRow) → o ≡ some c → IsFound cs c)
    → All (IsFound cs) (chain_from fuel cs o)
unfolding chain_from
chain_from-IsFound zero cs o h = tt
chain_from-IsFound (suc fuel) cs none h = tt
chain_from-IsFound (suc fuel) cs (some c) h =
    (h c refl, chain_from-IsFound fuel cs (parent_row cs c) (λ q e. parent_row-IsFound cs c q e))

pub ancestor_chain-IsFound : (d : CardId) (s : Store) → All (IsFound s.cards) (ancestor_chain d s)
unfolding ancestor_chain
ancestor_chain-IsFound d s =
    chain_from-IsFound (length s.cards) s.cards (find_card d s.cards)
      (λ c e. find_card-IsFound d s.cards c e)

IsFound-below :
    (b : CardRow) (cs xs : List CardRow)
    → find_card b.id cs ≡ none
    → All (IsFound cs) xs
    → All (IsFound (b ∷ cs)) xs
IsFound-below b cs [] fresh h = tt
IsFound-below b cs (x ∷ xs) fresh h =
    (find_card-cons x.id b cs fresh h.0, IsFound-below b cs xs fresh h.1)

pub IsForest-IsFound : (cs : List CardRow) → IsForest cs → All (IsFound cs) cs
unfolding find_card
IsForest-IsFound [] f = tt
IsForest-IsFound (c ∷ cs) f =
    (rw (==_refl c.id) refl, IsFound-below c cs cs f.0 (IsForest-IsFound cs f.2))
