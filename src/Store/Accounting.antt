-- ===== src/Store/Accounting.antt =====
-- The accounting of packages/engine/src/store.ts: amount and fee of every charge that has not failed,
-- over the whole subtree of a card.
pub mod Effects
use t3_spend.Prelude.{ℕ, ◌+◌, Bool, ◌&&◌, not, List, [], ◌∷◌, leb, ◌==◌}
use t3_spend.Prelude.Lists.{length, filter, contains}
use t3_spend.Types.{CardId}
use t3_spend.Store.{ChargeRow, Store, is_failed}
use t3_spend.Store.Tree.{subtree_ids}

abbrev pub debit : ChargeRow → ℕ
debit ch = ch.amount_atoms + ch.fee_atoms

-- `rows.reduce((acc, r) => acc + amount + fee, 0n)`
unfoldable pub sum_debits : List ChargeRow → ℕ
sum_debits [] = 0
sum_debits (ch ∷ chs) = debit ch + sum_debits chs

abbrev pub counts_since : List CardId → ℕ → ChargeRow → Bool
counts_since ids start ch =
    contains ch.card_id ids && not (is_failed ch.status) && leb start ch.created_at

unfoldable pub subtree_spent_since : CardId → ℕ → Store → ℕ
unfolding sum_debits subtree_ids
subtree_spent_since id start s =
    sum_debits (filter (counts_since (subtree_ids id s) start) s.charges)

unfoldable pub subtree_spent_lifetime : CardId → Store → ℕ
unfolding subtree_spent_since
subtree_spent_lifetime id = subtree_spent_since id 0

unfoldable pub uses_count : CardId → Store → ℕ
uses_count id s = length (filter (λ ch. ch.card_id == id && not (is_failed ch.status)) s.charges)

unfoldable pub subtree_uses_count : CardId → Store → ℕ
unfolding subtree_ids
subtree_uses_count id s =
    let ids = subtree_ids id s in
    length (filter (λ ch. contains ch.card_id ids && not (is_failed ch.status)) s.charges)
