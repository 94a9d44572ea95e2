-- ===== src/Spend/Solvent.antt =====
-- The lifetime caps and the uses of all cards of the store, on the spending card's chain or off it,
-- under the reservation of packages/engine/src/spend.ts.
use mathlib.Core.Path.{subst}
use t3_spend.Prelude.{
  ℕ, ◌≡◌, sym, ap, ◌∙◌, Option, none, some, List, [], ◌∷◌, ◌==◌, arith, Bool-cases, some_inj, inl,
  inr, ==_iff,
}
use t3_spend.Prelude.Texts.{Text}
use t3_spend.Prelude.Lists.{any}
use t3_spend.Prelude.Failures.{ok}
use t3_spend.Types.{PayTerms}
use t3_spend.Chains.{ChainId}
use t3_spend.Store.{CardRow, ChargeRow, Store}
use t3_spend.Store.Cards.{find_card}
use t3_spend.Store.Charges.{insert_charge}
use t3_spend.Store.Tree.{ancestor_chain}
use t3_spend.Store.Tree.Forest.{IsForest}
use t3_spend.Store.Tree.Members.{All, All-any, IsFound, ancestor_chain-IsFound, IsForest-IsFound}
use t3_spend.Store.Accounting.{subtree_spent_lifetime, subtree_uses_count}
use t3_spend.Store.Accounting.Effects.{
  insert_charge-inv, insert_charge-spent, insert_charge-uses_off,
}
use t3_spend.Compiler.{Kit}
use t3_spend.Spend.{SpendRequest}
use t3_spend.Spend.Reserve.{reserve}
use t3_spend.Spend.Budget.{LifetimeRoom, PayRoom, UsesRoom, HasRoom, reserve-inv, reserve-HasRoom}

-- The lifetime cap of a card's terms, if it has one, is not passed.
abbrev pub WithinLifetime : Store → CardRow → Option PayTerms → Type 0
WithinLifetime s c none = Unit
WithinLifetime s c (some pay) = LifetimeRoom s c pay.lifetime 0

-- Every card of the store is within its lifetime cap and its uses.
abbrev pub IsSolvent : Store → Type 0
IsSolvent s = All (λ c. WithinLifetime s c c.terms.pay × UsesRoom s c c.terms.max_uses 0) s.cards

module _ (s s' : Store) (c : CardRow) where
  LifetimeRoom-same :
      (l : Option Text)
      → subtree_spent_lifetime c.id s' ≡ subtree_spent_lifetime c.id s
      → LifetimeRoom s c l 0
      → LifetimeRoom s' c l 0
  LifetimeRoom-same none e h = tt
  LifetimeRoom-same (some l) e (cap, parsed, fits) = (cap, parsed, omega (arith, e, fits))

  WithinLifetime-same :
      (o : Option PayTerms)
      → subtree_spent_lifetime c.id s' ≡ subtree_spent_lifetime c.id s
      → WithinLifetime s c o
      → WithinLifetime s' c o
  WithinLifetime-same none e h = tt
  WithinLifetime-same (some pay) e h = LifetimeRoom-same pay.lifetime e h

  UsesRoom-same :
      (o : Option ℕ)
      → subtree_uses_count c.id s' ≡ subtree_uses_count c.id s
      → UsesRoom s c o 0
      → UsesRoom s' c o 0
  UsesRoom-same none e h = tt
  UsesRoom-same (some n) e h = omega (arith, e, h)

WithinLifetime-room :
    (s : Store) (c : CardRow) (now : ℕ) (o : Option PayTerms)
    → PayRoom s c o now 0
    → WithinLifetime s c o
WithinLifetime-room s c now none h = tt
WithinLifetime-room s c now (some pay) h = h.1

All-both :
    (P Q : CardRow → Type 0) (xs : List CardRow) → All P xs → All Q xs → All (λ x. P x × Q x) xs
All-both P Q [] p q = tt
All-both P Q (x ∷ xs) p q = ((p.0, q.0), All-both P Q xs p.1 q.1)

All-map :
    (P Q : CardRow → Type 0) (xs : List CardRow) → ((x : CardRow) → P x → Q x) → All P xs → All Q xs
All-map P Q [] f p = tt
All-map P Q (x ∷ xs) f p = (f x p.0, All-map P Q xs f p.1)

-- In a forest in which every card is within its lifetime cap and its uses, a reservation that goes
-- through for the chain of the charge's card leaves every card of the store so.
pub reserve-IsSolvent :
    (kit : Kit) (chain_id : ChainId) (req : SpendRequest) (now : ℕ) (row : ChargeRow) (s : Store)
    {s' : Store} {c : CardRow}
    → IsForest s.cards
    → find_card row.card_id s.cards ≡ some c
    → IsSolvent s
    → reserve kit chain_id (ancestor_chain row.card_id s) req now row s ≡ (ok tt, s')
    → IsSolvent s'
unfolding subtree_spent_lifetime
reserve-IsSolvent kit chain_id req now row s {s'} {c} f found solvent h =
    subst (λ cs. All (λ b. WithinLifetime s' b b.terms.pay × UsesRoom s' b b.terms.max_uses 0) cs)
      (sym (ap (λ (t : Store). t.cards) (insert_charge-inv row s written)))
      (All-map _ _ s.cards keep (All-both _ _ s.cards (IsForest-IsFound s.cards f) solvent))
  where
    chain : List CardRow
    chain = ancestor_chain row.card_id s

    written : insert_charge row s ≡ ok s'
    written = (reserve-inv kit chain_id chain req now row s h).1

    on_chain : All (λ b. IsFound s.cards b × HasRoom s' now 0 0 b) chain
    on_chain =
        All-both _ _ chain (ancestor_chain-IsFound row.card_id s)
          (reserve-HasRoom kit chain_id chain req now row s h)

    keep :
        (b : CardRow)
        → IsFound s.cards b × (WithinLifetime s b b.terms.pay × UsesRoom s b b.terms.max_uses 0)
        → WithinLifetime s' b b.terms.pay × UsesRoom s' b b.terms.max_uses 0
    keep b (here, (within, uses)) = elim (Bool-cases (any (λ x. x.id == b.id) chain)) [
      | inl on ↦
          (let (x, (there, room), same) = All-any _ _ chain on_chain on in
            let e =
              some_inj
                (sym there ∙ ap (λ i. find_card i s.cards) ((==_iff x.id b.id).0 same) ∙ here) in
            subst
              (λ (y : CardRow). WithinLifetime s' y y.terms.pay × UsesRoom s' y y.terms.max_uses 0)
              e (WithinLifetime-room s' x now x.terms.pay room.0, room.1))
      | inr off ↦ (
        WithinLifetime-same s s' b b.terms.pay
            (omega (arith, rw off at (insert_charge-spent b.id 0 row s f found written))) within,
        UsesRoom-same s s' b b.terms.max_uses
            (insert_charge-uses_off b.id row s f found written off) uses,
      )
    ]
