-- ===== src/Store/Accounting/Effects.antt =====
-- What an insertion and an update of a charge do to the accounting of every card.
use t3_spend.Prelude.{
  ℕ, ◌+◌, ◌≤◌, ◌≡◌, sym, ap, ◌∙◌, false, ◌&&◌, not, none, some, List, [], ◌∷◌, leb, ◌==◌, arith,
  if◌then◌else◌, if-inv, inl, inr,
}
use t3_spend.Prelude.Lists.{any, filter, update}
use t3_spend.Prelude.Failures.{ok, ok_inj}
use t3_spend.Store.{CardRow, ChargeRow, Store, is_failed}
use t3_spend.Store.Cards.{find_card}
use t3_spend.Store.Tree.{subtree_ids, ancestor_chain}
use t3_spend.Store.Tree.Forest.{IsForest}
use t3_spend.Store.Tree.Duality.{subtree_ids-ancestor_chain}
use t3_spend.Store.Charges.{
  ChargeFields, charge_conflicts, insert_charge, update_charge, set_fields,
}
use t3_spend.Store.Accounting.{
  debit, sum_debits, counts_since, subtree_spent_since, subtree_uses_count,
}
use t3_spend.Types.{CardId, ChargeId}

pub insert_charge-inv :
    (ch : ChargeRow) (s : Store) {s' : Store}
    → insert_charge ch s ≡ ok s'
    → s' ≡ record s { charges = ch ∷ s.charges }
unfolding insert_charge
insert_charge-inv ch s h = elim (if-inv (charge_conflicts ch s) h) [
  | inl (_, refused) ↦ cc
  | inr (_, stored) ↦ sym (ok_inj stored)
]

abbrev with_charge : ChargeRow → Store → Store
with_charge ch s = record s { charges = ch ∷ s.charges }

spent-with_charge :
    (a : CardId) (start : ℕ) (ch : ChargeRow) (s : Store)
    → subtree_spent_since a start (with_charge ch s)
      ≡ (if counts_since (subtree_ids a s) start ch then debit ch else 0)
        + subtree_spent_since a start s
unfolding subtree_spent_since subtree_ids
spent-with_charge a start ch s = ground arith

-- In a forest a charge of a card of the table adds amount and fee to each card on the chain of
-- ancestors of that card, once, if it has not failed and is not older than the start; it adds nothing
-- to any other card.
pub insert_charge-spent :
    (a : CardId) (start : ℕ) (ch : ChargeRow) (s : Store) {s' : Store} {c : CardRow}
    → IsForest s.cards
    → find_card ch.card_id s.cards ≡ some c
    → insert_charge ch s ≡ ok s'
    → subtree_spent_since a start s'
      ≡ (if any (λ x. x.id == a) (ancestor_chain ch.card_id s)
            && not (is_failed ch.status)
            && leb start ch.created_at
          then ch.amount_atoms + ch.fee_atoms
          else 0)
        + subtree_spent_since a start s
insert_charge-spent a start ch s f h e = rw (insert_charge-inv ch s e) (
    spent-with_charge a start ch s
    ∙ ap
        (λ b.
          (if b && not (is_failed ch.status) && leb start ch.created_at then debit ch else 0)
          + subtree_spent_since a start s)
        (subtree_ids-ancestor_chain a ch.card_id s f h))

-- A charge adds at most its amount and fee to any card.
pub insert_charge-spent-le :
    (a : CardId) (start : ℕ) (ch : ChargeRow) (s : Store) {s' : Store}
    → insert_charge ch s ≡ ok s'
    → subtree_spent_since a start s'
      ≤ subtree_spent_since a start s + (ch.amount_atoms + ch.fee_atoms)
insert_charge-spent-le a start ch s e =
    rw (insert_charge-inv ch s e) (ground (arith, spent-with_charge a start ch s))

pub insert_charge-uses-le :
    (a : CardId) (ch : ChargeRow) (s : Store) {s' : Store}
    → insert_charge ch s ≡ ok s'
    → subtree_uses_count a s' ≤ subtree_uses_count a s + 1
unfolding subtree_uses_count subtree_ids
insert_charge-uses-le a ch s e = rw (insert_charge-inv ch s e) (ground arith)

-- A charge is no use of a card that is not on the chain of its card.
pub insert_charge-uses_off :
    (a : CardId) (ch : ChargeRow) (s : Store) {s' : Store} {c : CardRow}
    → IsForest s.cards
    → find_card ch.card_id s.cards ≡ some c
    → insert_charge ch s ≡ ok s'
    → any (λ x. x.id == a) (ancestor_chain ch.card_id s) ≡ false
    → subtree_uses_count a s' ≡ subtree_uses_count a s
unfolding subtree_uses_count subtree_ids
insert_charge-uses_off a ch s f h e off =
    let out = subtree_ids-ancestor_chain a ch.card_id s f h ∙ off in
    rw (insert_charge-inv ch s e) (ground (arith, out))

-- The rows with the id have not failed.
abbrev pub NotFailed : ChargeId → List ChargeRow → Type 0
NotFailed id [] = Unit
NotFailed id (ch ∷ chs) = (ch.id ≡ id → is_failed ch.status ≡ false) × NotFailed id chs

sum-update-le :
    (ids : List CardId) (start : ℕ) (id : ChargeId) (f : ChargeFields) (chs : List ChargeRow)
    → f.fee_atoms ≡ none
    → NotFailed id chs
    → sum_debits (filter (counts_since ids start) (update (λ ch. ch.id == id) (set_fields f) chs))
      ≤ sum_debits (filter (counts_since ids start) chs)
unfolding sum_debits
sum-update-le ids start id f [] same live = omega arith
sum-update-le ids start id f (ch ∷ chs) same live =
    ground (arith, sum-update-le ids start id f chs same live.1, live.0)

-- An update of a charge that has not failed, and that leaves the fee alone, spends nothing: the
-- accounting of no card grows.
pub update_charge-spent-le :
    (a : CardId) (start : ℕ) (id : ChargeId) (f : ChargeFields) (s : Store)
    → f.fee_atoms ≡ none
    → NotFailed id s.charges
    → subtree_spent_since a start (update_charge id f s) ≤ subtree_spent_since a start s
unfolding subtree_spent_since update_charge subtree_ids
update_charge-spent-le a start id f s same live =
    sum-update-le (subtree_ids a s) start id f s.charges same live
