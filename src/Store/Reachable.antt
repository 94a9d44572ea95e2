-- ===== src/Store/Reachable.antt =====
-- The stores that the operations of packages/engine/src/store.ts lead to from an empty database.
use t3_spend.Prelude.{ℕ, ◌≡◌, Option, List, []}
use t3_spend.Prelude.Texts.{Text}
use t3_spend.Prelude.Failures.{ok}
use t3_spend.Types.{CardId, UserId, ChargeId}
use t3_spend.Store.{CardStatus, CardRow, ChargeRow, Store}
use t3_spend.Store.Users.{UserFields, upsert_user, set_revocation_nonce}
use t3_spend.Store.Cards.{
  create_card, set_card_status, bind_card_to_did, unbind_card_did, set_all_user_cards_status,
  rotate_secret,
}
use t3_spend.Store.Tree.{delete_card_tree, set_subtree_status}
use t3_spend.Store.Charges.{ChargeFields, insert_charge, update_charge, delete_charge}

-- One write to the database.
pub data Step : Store → Store → Type 0 where
  user_upserted :
      (u : UserFields) (now : ℕ) {s s' : Store} → upsert_user u now s ≡ ok s' → Step s s'
  nonce_set : (id : UserId) (nonce : ℕ) (s : Store) → Step s (set_revocation_nonce id nonce s)
  card_created : (c : CardRow) {s s' : Store} → create_card c s ≡ ok s' → Step s s'
  card_status_set :
      (id : CardId) (status : CardStatus) (s : Store) → Step s (set_card_status id status s)
  subtree_status_set :
      (id : CardId) (status : CardStatus) (s : Store) → Step s (set_subtree_status id status s)
  user_cards_status_set :
      (user : UserId) (status : CardStatus) (s : Store)
      → Step s (set_all_user_cards_status user status s)
  card_bound :
      (id : CardId) (did binding : Text) (s : Store) → Step s (bind_card_to_did id did binding s)
  card_unbound : (id : CardId) (s : Store) → Step s (unbind_card_did id s)
  secret_rotated :
      (id : CardId) (hash : Text) (enc : Option Text) {s s' : Store}
      → rotate_secret id hash enc s ≡ ok s'
      → Step s s'
  tree_deleted :
      (id : CardId) (n : ℕ) {s s' : Store} → delete_card_tree id s ≡ ok (n, s') → Step s s'
  charge_inserted : (ch : ChargeRow) {s s' : Store} → insert_charge ch s ≡ ok s' → Step s s'
  charge_updated : (id : ChargeId) (f : ChargeFields) (s : Store) → Step s (update_charge id f s)
  charge_deleted : (id : ChargeId) (s : Store) → Step s (delete_charge id s)

-- The stores that writes lead to from an empty database.
pub data Reachable : Store → Type 0 where
  created : Reachable (record { users = []; cards = []; charges = [] })
  written : {s s' : Store} → Reachable s → Step s s' → Reachable s'
