-- ===== src/Ops.antt =====
-- packages/engine/src/ops.ts: freeze, revoke, nuke and delete. The controls on the server's side
-- are here; the ones that send a transaction are in the module below, and so are the proofs.
pub mod Admin
pub mod Blocking
use t3_spend.Prelude.{
  ℕ, Bool, true, false, ◌||◌, not, Option, none, some, List, [], ◌∷◌, ◌==◌, if◌then◌else◌,
}
use t3_spend.Prelude.Lists.{contains}
use t3_spend.Prelude.Failures.{
  refusal, card_not_found, card_revoked, invalid_terms, not_your_subcard, Result, ok, err, or_throw,
  throw_if, ◌>>=◌, ◌>>◌,
}
use t3_spend.Types.{CardId}
use t3_spend.Store.{CardStatus, CardRow, Store}
use t3_spend.Store.Cards.{get_card, set_card_status}
use t3_spend.Store.Tree.{subtree_ids, set_subtree_status, delete_card_tree}
use t3_spend.Spend.Validate.{is_expired}

abbrev pub is_active : CardStatus → Bool
is_active CardStatus.active = true
is_active _ = false

abbrev pub is_frozen : CardStatus → Bool
is_frozen CardStatus.frozen = true
is_frozen _ = false

-- Revoked or nuked.
abbrev pub is_dead : CardStatus → Bool
is_dead CardStatus.revoked = true
is_dead CardStatus.nuked = true
is_dead _ = false

unfoldable pub freeze_card : CardId → Store → Result Store
freeze_card id s = do
  card ← or_throw (get_card id s) (refusal card_not_found)
  throw_if (not (is_active card.status)) (refusal card_revoked)
  ok (set_card_status id CardStatus.frozen s)

unfoldable pub unfreeze_card : CardId → Store → Result Store
unfreeze_card id s = do
  card ← or_throw (get_card id s) (refusal card_not_found)
  throw_if (not (is_frozen card.status)) (refusal invalid_terms)
  ok (set_card_status id CardStatus.active s)

-- `isLive`: expiry is derived at read time.
unfoldable pub is_live : ℕ → CardRow → Bool
is_live now c = not (is_dead c.status || is_expired c.terms.expiry now)

-- Some row of the list of ids is live.
unfoldable pub any_live : ℕ → List CardId → Store → Bool
unfolding is_live
any_live now [] s = false
any_live now (id ∷ ids) s =
    elim (get_card id s) [ none ↦ false | some c ↦ is_live now c ] || any_live now ids s

unfoldable pub delete_dead_card : CardId → ℕ → Store → Result (ℕ × Store)
unfolding is_live any_live
delete_dead_card id now s = do
  card ← or_throw (get_card id s) (refusal card_not_found)
  throw_if (is_live now card) (refusal invalid_terms)
  throw_if (any_live now (subtree_ids id s) s) (refusal invalid_terms)
  delete_card_tree id s

-- A card may revoke its descendants, and neither itself nor any other card.
unfoldable pub agent_revoke_subcard : CardId → CardId → Store → Result Store
agent_revoke_subcard requester target s = do
  throw_if (requester == target) (refusal not_your_subcard)
  throw_if (not (contains target (subtree_ids requester s))) (refusal not_your_subcard)
  ok (set_subtree_status target CardStatus.revoked s)
