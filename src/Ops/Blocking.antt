-- ===== src/Ops/Blocking.antt =====
-- Freezing and revoking in packages/engine/src/ops.ts, and what they mean for the chains of ancestors.
use mathlib.Core.Path.{subst}
use t3_spend.Prelude.{
  ℕ, ◌≡◌, ◌≢◌, refl, ◌∙◌, true, false, not, some, List, [], ◌∷◌, map, ◌==◌, arith, Bool-cases, inl,
  inr, ==_iff,
}
use t3_spend.Prelude.Lists.{any, contains}
use t3_spend.Prelude.Failures.{
  refusal, card_expired, card_not_found, card_revoked, not_your_subcard, after_guard, ok, ◌>>◌,
  >>=-eq-ok, throw_if, or_throw, ok_inj,
}
use t3_spend.Types.{CardId}
use t3_spend.Store.{CardStatus, CardRow, Store}
use t3_spend.Store.Cards.{find_card, get_card, set_card_status}
use t3_spend.Store.Tree.{subtree_ids, ancestor_chain, set_status_of, set_subtree_status}
use t3_spend.Store.Tree.Forest.{IsForest}
use t3_spend.Store.Tree.Members.{All-any, ancestor_chain-IsFound}
use t3_spend.Store.Tree.Duality.{subtree_ids-ancestor_chain}
use t3_spend.Store.Tree.Fuel.{ancestor_chain_lem}
use t3_spend.Store.Tree.Updates.{rewritten, ancestor_chain-set_card_status}
use t3_spend.Spend.Validate.{is_expired, assert_status, assert_chain_spendable}
use t3_spend.Ops.{is_active, freeze_card, agent_revoke_subcard}

-- A chain that is spendable has active cards only.
assert_chain_spendable-active :
    (cs : List CardRow) (now : ℕ) {u : Unit {0}}
    → assert_chain_spendable cs now ≡ ok u
    → any (λ c. not (is_active c.status)) cs ≡ false
unfolding assert_chain_spendable
assert_chain_spendable-active [] now h = refl
assert_chain_spendable-active (c ∷ cs) now h =
    let (_, active, h') = >>=-eq-ok (assert_status c.status) _ h in
    let (_, _, rest) =
      >>=-eq-ok (throw_if (is_expired c.terms.expiry now) (refusal card_expired))
        (λ _. assert_chain_spendable cs now) h' in
    ground (arith, active_status c.status active, assert_chain_spendable-active cs now rest)
  where
    active_status : (st : CardStatus) {u : Unit {0}} → assert_status st ≡ ok u → is_active st ≡ true
    active_status CardStatus.active e = refl
    active_status CardStatus.frozen e = unfold assert_status in cc
    active_status CardStatus.revoked e = unfold assert_status in cc
    active_status CardStatus.nuked e = unfold assert_status in cc

module _ (t : CardId) (status : CardStatus) (off : is_active status ≡ false) where
  any-rewritten :
      (cs : List CardRow)
      → any (λ c. c.id == t) cs ≡ true
      → any (λ c. not (is_active c.status)) (map (rewritten t status) cs) ≡ true
  any-rewritten [] h = cc
  any-rewritten (c ∷ cs) h = ground (arith, off, any-rewritten cs)

  any-rewritten_on :
      (cs : List CardRow)
      → any (λ c. not (is_active c.status)) cs ≡ true
      → any (λ c. not (is_active c.status)) (map (rewritten t status) cs) ≡ true
  any-rewritten_on [] h = cc
  any-rewritten_on (c ∷ cs) h = ground (arith, off, any-rewritten_on cs)

  any-rewritten_id :
      (i : CardId) (cs : List CardRow)
      → any (λ c. c.id == i) (map (rewritten t status) cs) ≡ any (λ c. c.id == i) cs
  any-rewritten_id i [] = refl
  any-rewritten_id i (c ∷ cs) = ground (arith, any-rewritten_id i cs)

-- Some card of the chain is not active.
abbrev IsBlocked : CardId → Store → Type 0
IsBlocked d s = any (λ c. not (is_active c.status)) (ancestor_chain d s) ≡ true

IsBlocked-refused :
    (d : CardId) (s : Store) (now : ℕ)
    → IsBlocked d s
    → assert_chain_spendable (ancestor_chain d s) now ≢ ok tt
IsBlocked-refused d s now h e = cc (assert_chain_spendable-active (ancestor_chain d s) now e)

freeze_card-inv :
    (t : CardId) (s : Store) {s' : Store}
    → freeze_card t s ≡ ok s'
    → set_card_status t CardStatus.frozen s ≡ s'
unfolding freeze_card
freeze_card-inv t s h =
    let (c, _, h') =
      >>=-eq-ok (or_throw (get_card t s) (refusal card_not_found))
        (λ c.
          throw_if (not (is_active c.status)) (refusal card_revoked)
          >> ok (set_card_status t CardStatus.frozen s))
        h in
    ok_inj (after_guard (not (is_active c.status)) (refusal card_revoked) h')

agent_revoke_subcard-inv :
    (requester t : CardId) (s : Store) {s' : Store}
    → agent_revoke_subcard requester t s ≡ ok s'
    → set_subtree_status t CardStatus.revoked s ≡ s'
unfolding agent_revoke_subcard
agent_revoke_subcard-inv requester t s h = ok_inj (
    after_guard (not (contains t (subtree_ids requester s))) (refusal not_your_subcard)
      (after_guard (requester == t) (refusal not_your_subcard) h))

-- After a card is frozen, no card with it on its chain of ancestors is spendable.
pub freeze_card-blocks :
    (t d : CardId) (s : Store) {s' : Store} (now : ℕ)
    → freeze_card t s ≡ ok s'
    → any (λ c. c.id == t) (ancestor_chain d s) ≡ true
    → assert_chain_spendable (ancestor_chain d s') now ≢ ok tt
freeze_card-blocks t d s {s'} now h on = IsBlocked-refused d s' now (
    subst (IsBlocked d) {x = set_card_status t CardStatus.frozen s} (freeze_card-inv t s h) (
      rw (ancestor_chain-set_card_status t CardStatus.frozen d s)
        (any-rewritten t CardStatus.frozen refl (ancestor_chain d s) on)))

module _ (status : CardStatus) (off : is_active status ≡ false) (d : CardId) where
  set_status_of-IsBlocked :
      (ids : List CardId) (s : Store) → IsBlocked d s → IsBlocked d (set_status_of ids status s)
  unfolding set_status_of
  set_status_of-IsBlocked [] s h = h
  set_status_of-IsBlocked (i ∷ is) s h = set_status_of-IsBlocked is (set_card_status i status s) (
      rw (ancestor_chain-set_card_status i status d s)
        (any-rewritten_on i status off (ancestor_chain d s) h))

  set_status_of-blocks :
      (t : CardId) (ids : List CardId) (s : Store)
      → contains t ids ≡ true
      → any (λ c. c.id == t) (ancestor_chain d s) ≡ true
      → IsBlocked d (set_status_of ids status s)
  unfolding set_status_of
  set_status_of-blocks t [] s h on = cc
  set_status_of-blocks t (i ∷ is) s h on = elim (Bool-cases (t == i)) [
    | inl e ↦ set_status_of-IsBlocked is (set_card_status i status s) (
        rw (ancestor_chain-set_card_status i status d s)
          (any-rewritten i status off (ancestor_chain d s) (rw⁻¹ ((==_iff t i).0 e) on)))
    | inr e ↦ set_status_of-blocks t is (set_card_status i status s) (ground arith) (
        rw (ancestor_chain-set_card_status i status d s)
          (any-rewritten_id i status off t (ancestor_chain d s) ∙ on))
  ]

-- A card on some chain is in its own subtree.
contains_self :
    (t d : CardId) (s : Store)
    → IsForest s.cards
    → any (λ c. c.id == t) (ancestor_chain d s) ≡ true
    → contains t (subtree_ids t s) ≡ true
unfolding get_card
contains_self t d s f on =
    let (c, here, same) = All-any _ _ (ancestor_chain d s) (ancestor_chain-IsFound d s) on in
    let found = subst (λ i. find_card i s.cards ≡ some c) ((==_iff c.id t).0 same) here in
    subtree_ids-ancestor_chain t t s f found
    ∙ rw (ancestor_chain_lem t s f found) (ground (arith, same))

-- In a forest, after an agent revokes a sub-card, no card with it on its chain of ancestors is
-- spendable.
pub agent_revoke_subcard-blocks :
    (requester t d : CardId) (s : Store) {s' : Store} (now : ℕ)
    → IsForest s.cards
    → agent_revoke_subcard requester t s ≡ ok s'
    → any (λ c. c.id == t) (ancestor_chain d s) ≡ true
    → assert_chain_spendable (ancestor_chain d s') now ≢ ok tt
unfolding set_subtree_status
agent_revoke_subcard-blocks requester t d s {s'} now f h on = IsBlocked-refused d s' now (
    subst (IsBlocked d) (agent_revoke_subcard-inv requester t s h) (
      set_status_of-blocks CardStatus.revoked refl d t (subtree_ids t s) s
        (contains_self t d s f on) on))
