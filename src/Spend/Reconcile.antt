-- ===== src/Spend/Reconcile.antt =====
-- `reconcilePending` of packages/engine/src/spend.ts: pending charges are settled by the fee logs of
-- the chain, and stale x402 reservations are freed.
use t3_spend.Prelude.{
  ℕ, ◌+◌, ◌-◌, ◌*◌, ◌&&◌, not, Option, none, some, List, [], ◌∷◌, ◌++◌, ltb, ◌==◌, if◌then◌else◌,
  or_else,
}
use mathlib.Core.List.{reverse}
use t3_spend.Prelude.Lists.{length, find, get_last?}
use t3_spend.Prelude.Texts.{Text, has_text}
use t3_spend.Types.{UserId, ReceiptStatus}
use t3_spend.Store.{ChargeRow, UserRow, Store}
use t3_spend.Store.Users.{get_user}
use t3_spend.Store.Tree.{ancestor_chain}
use t3_spend.Store.Charges.{
  pending_charges_older_than, pending_x402_charges_older_than, update_charge, no_fields, is_fiat,
}
use t3_spend.Spend.Confirm.{FeeLog}

-- The logs and the chain head; `none` is a read that failed.
pub record Scan : Type 0 where
  pub scan_fee_logs : Text → ℕ → Option (List FeeLog)
  pub head : Option ℕ
  -- what other requests write during the scan of a user's logs
  pub between : Store → Store

pub record Sweep : Type 0 where
  pub reconciled : ℕ
  pub still_pending : ℕ

-- The stale charges of one user, and the earliest block to scan from.
pub record Group : Type 0 where
  pub user : UserId
  pub address : Text
  pub charges : List ChargeRow
  pub min_from : ℕ

unfoldable pub fail_all : List ChargeRow → Store → Store
fail_all [] s = s
fail_all (ch ∷ chs) s =
    fail_all chs (update_charge ch.id (record no_fields { status = some ReceiptStatus.failed }) s)

-- The user at the root of a charge's card.
unfoldable pub charge_user : Store → ChargeRow → Option UserRow
charge_user s ch = elim (get_last? (ancestor_chain ch.card_id s)) [
  | none ↦ none
  | some root ↦ get_user root.user_id s
]

-- `byUser`: a user's group keeps its place in the order of first appearance.
unfoldable pub add_to_group : UserRow → ChargeRow → ℕ → List Group → List Group
add_to_group u ch from [] =
    record { user = u.id; address = u.address; charges = ch ∷ []; min_from = from } ∷ []
add_to_group u ch from (g ∷ gs) =
    if g.user == u.id
    then record g {
      charges = g.charges ++ ch ∷ [];
      min_from = if ltb from g.min_from then from else g.min_from;
    }
      ∷ gs
    else g ∷ add_to_group u ch from gs

-- The groups, and the number of charges whose user is gone.
unfoldable pub group_charges : Store → ℕ → List Group → ℕ → List ChargeRow → List Group × ℕ
unfolding charge_user add_to_group
group_charges s fallback groups orphans [] = (groups, orphans)
group_charges s fallback groups orphans (ch ∷ chs) =
    let user = charge_user s ch in
    group_charges s fallback
      (elim user [
        | none ↦ groups
        | some u ↦ add_to_group u ch (or_else ch.since_block fallback) groups
      ])
      (elim user [ none ↦ orphans + 1 | some _ ↦ orphans ]) chs

-- `logs.find((l) => l.value === charge.fee_atoms && !consumed.has(l.txHash))`
unfoldable pub unclaimed : List FeeLog → List Text → ChargeRow → Option FeeLog
unclaimed logs consumed ch =
    find (λ l. l.value == ch.fee_atoms && not (has_text consumed l.tx_hash)) logs

-- A charge is confirmed by an unclaimed log; without one it fails, unless it is a fiat charge.
unfoldable pub settle_charge : ChargeRow → Option FeeLog → Store → Store
settle_charge ch (some l) =
    update_charge ch.id
      (record no_fields { status = some ReceiptStatus.confirmed; tx_hash = some l.tx_hash })
settle_charge ch none = update_charge ch.id (record no_fields {
  status =
      some (if is_fiat ch.kind then ReceiptStatus.settlement_unconfirmed else ReceiptStatus.failed);
})

abbrev pub claim : Option FeeLog → List Text → List Text
claim none consumed = consumed
claim (some l) consumed = l.tx_hash ∷ consumed

unfoldable pub settle_charges : List FeeLog → List Text → List ChargeRow → Store → Store
unfolding unclaimed settle_charge
settle_charges logs consumed [] s = s
settle_charges logs consumed (ch ∷ chs) s =
    let hit = unclaimed logs consumed ch in
    settle_charges logs (claim hit consumed) chs (settle_charge ch hit s)

unfoldable pub settle_groups : Scan → List Group → Sweep → Store → Sweep × Store
unfolding settle_charges
settle_groups scan [] sweep s = (sweep, s)
settle_groups scan (g ∷ gs) sweep s =
    let s' = scan.between s in
    let logs = scan.scan_fee_logs g.address g.min_from in
    settle_groups scan gs
      (elim logs [
        | none ↦ record sweep { still_pending = sweep.still_pending + length g.charges }
        | some _ ↦ record sweep { reconciled = sweep.reconciled + length g.charges }
      ])
      (elim logs [ none ↦ s' | some ls ↦ settle_charges ls [] g.charges s' ])

abbrev pub lookback_blocks : ℕ
lookback_blocks = 5000

-- `head > lookback ? head - lookback : 0n`
abbrev pub fallback_from : ℕ → ℕ
fallback_from head = if ltb lookback_blocks head then head - lookback_blocks else 0

-- The rows that a query lists stand in table order, oldest first.
unfoldable pub settle_stale : Scan → List ChargeRow → ℕ → Store → Sweep × Store
unfolding group_charges settle_groups
settle_stale scan [] reconciled s = (record { reconciled = reconciled; still_pending = 0 }, s)
settle_stale scan (ch ∷ chs) reconciled s = elim scan.head [
  | none ↦ (record { reconciled = reconciled; still_pending = length (ch ∷ chs) }, scan.between s)
  | some head ↦
      (let s' = scan.between s in
        let (groups, orphans) = group_charges s' (fallback_from head) [] 0 (ch ∷ chs) in
        settle_groups scan groups (record { reconciled = reconciled; still_pending = orphans }) s')
]

unfoldable pub reconcile_pending : Scan → ℕ → ℕ → Store → Sweep × Store
unfolding fail_all settle_stale
reconcile_pending scan now older_than s =
    let stale = reverse (pending_charges_older_than (now - older_than) s) in
    let orphans = reverse (pending_x402_charges_older_than (now - older_than * 6) s) in
    settle_stale scan stale (length orphans) (fail_all orphans s)
