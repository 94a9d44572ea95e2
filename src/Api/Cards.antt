-- ===== src/Api/Cards.antt =====
-- The controls on cards in packages/server/src/api/routes.ts that stay on the server: freeze, unfreeze,
-- delete and unbind, with the tokens of the cards that are deleted.
use t3_spend.Prelude.{ℕ, List, [], ◌∷◌}
use t3_spend.Prelude.Failures.{Result, ok, err}
use t3_spend.Types.{CardId, UserId}
use t3_spend.Store.{CardRow, Store}
use t3_spend.Store.Cards.{list_cards, unbind_card_did}
use t3_spend.Store.Tree.{subtree_ids}
use t3_spend.Ops.{freeze_card, unfreeze_card, delete_dead_card}
use t3_spend.OAuth.{OAuthDb}
use t3_spend.OAuth.Tokens.{revoke_tokens_by_card_id}
use t3_spend.Api.{AuthCtx, Reply, done, forbidden, failed, ApiState, owned_card}

unfoldable pub revoke_tokens_of : List CardId → OAuthDb → OAuthDb
revoke_tokens_of [] db = db
revoke_tokens_of (id ∷ ids) db = revoke_tokens_of ids (revoke_tokens_by_card_id id db)

unfoldable pub cascade_revoke_tokens : CardId → ApiState → ApiState
unfolding revoke_tokens_of
cascade_revoke_tokens card a = record a {
  oauth = revoke_tokens_of (subtree_ids card a.store) a.oauth;
}

abbrev ids_of : List CardRow → List CardId
ids_of [] = []
ids_of (c ∷ cs) = c.id ∷ ids_of cs

unfoldable pub cascade_revoke_user_tokens : UserId → ApiState → ApiState
unfolding revoke_tokens_of
cascade_revoke_user_tokens user a = record a {
  oauth = revoke_tokens_of (ids_of (list_cards user a.store)) a.oauth;
}

-- A control on a card of the user's, which writes the store or throws.
unfoldable pub with_owned_card :
    (CardId → Store → Result Store) → AuthCtx → CardId → ApiState → Reply (Unit {0}) × ApiState
unfolding owned_card
with_owned_card f auth id a = elim (owned_card auth id a.store) [
  | forbidden ↦ (forbidden, a)
  | failed e ↦ (failed e, a)
  | done card ↦ elim (f card.id a.store) [
    | err e ↦ (failed e, a)
    | ok s ↦ (done tt, record a { store = s })
  ]
]

unfoldable pub freeze : AuthCtx → CardId → ApiState → Reply (Unit {0}) × ApiState
unfolding with_owned_card
freeze = with_owned_card freeze_card

unfoldable pub unfreeze : AuthCtx → CardId → ApiState → Reply (Unit {0}) × ApiState
unfolding with_owned_card
unfreeze = with_owned_card unfreeze_card

unfoldable pub unbind_did : AuthCtx → CardId → ApiState → Reply (Unit {0}) × ApiState
unfolding with_owned_card
unbind_did = with_owned_card (λ id s. ok (unbind_card_did id s))

-- The ids are taken before the rows go, and the tokens are revoked once the deletion is through.
unfoldable pub delete_owned_card : AuthCtx → CardId → ℕ → ApiState → Reply ℕ × ApiState
unfolding owned_card revoke_tokens_of
delete_owned_card auth id now a = elim (owned_card auth id a.store) [
  | forbidden ↦ (forbidden, a)
  | failed e ↦ (failed e, a)
  | done card ↦ elim (delete_dead_card card.id now a.store) [
    | err e ↦ (failed e, a)
    | ok (removed, s) ↦ (
      done removed,
      record { store = s; oauth = revoke_tokens_of (subtree_ids card.id a.store) a.oauth },
    )
  ]
]
