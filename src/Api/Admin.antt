-- ===== src/Api/Admin.antt =====
-- The operator's calls in packages/server/src/api/routes.ts that send a transaction: a card is revoked or
-- all cards of a user are nuked, and then the tokens of the cards are revoked. The tables of the
-- authorization server are written by other requests in the meantime.
use t3_spend.Prelude.{Option, none, some}
use t3_spend.Prelude.Texts.{Text}
use t3_spend.Prelude.Failures.{Stage, engine, Result, ok, err}
use t3_spend.Types.{CardId, UserId}
use t3_spend.Chains.{ChainId}
use t3_spend.Store.{Store}
use t3_spend.Ops.Admin.{AdminKit, AdminResult, revoke_card, nuke_all}
use t3_spend.OAuth.{OAuthDb}
use t3_spend.Api.{AuthCtx, admin, privy, Reply, done, forbidden, failed, ApiState, owned_card}
use t3_spend.Api.Cards.{cascade_revoke_tokens, cascade_revoke_user_tokens}

-- The transaction's outcome; the tokens go only once it is through.
unfoldable pub answer_admin :
    (ApiState → ApiState)
    → (OAuthDb → OAuthDb)
    → ApiState
    → Result AdminResult × Store
    → Reply AdminResult × ApiState
answer_admin cascade meanwhile a (ok result, s) =
    (done result, cascade (record { store = s; oauth = meanwhile a.oauth }))
answer_admin cascade meanwhile a (err e, s) =
    (failed e, record { store = s; oauth = meanwhile a.oauth })

-- `signer` is the address of the server's own key, if it has one.
unfoldable pub revoke_owned_card :
    AdminKit
    → ChainId
    → Option Text
    → (OAuthDb → OAuthDb)
    → AuthCtx
    → CardId
    → ApiState
    → Reply AdminResult × ApiState
unfolding answer_admin owned_card cascade_revoke_tokens
revoke_owned_card kit chain signer meanwhile (privy did) id a = (forbidden, a)
revoke_owned_card kit chain signer meanwhile admin id a = elim (owned_card admin id a.store) [
  | forbidden ↦ (forbidden, a)
  | failed e ↦ (failed e, a)
  | done card ↦ elim signer [
    | none ↦ (failed (engine Stage.api), a)
    | some address ↦
        answer_admin (cascade_revoke_tokens card.id) meanwhile a
          (revoke_card kit chain address card.id a.store)
  ]
]

unfoldable pub nuke_user :
    AdminKit
    → ChainId
    → Option Text
    → (OAuthDb → OAuthDb)
    → AuthCtx
    → UserId
    → ApiState
    → Reply AdminResult × ApiState
unfolding answer_admin cascade_revoke_user_tokens
nuke_user kit chain signer meanwhile (privy did) user a = (forbidden, a)
nuke_user kit chain signer meanwhile admin user a = elim signer [
  | none ↦ (failed (engine Stage.api), a)
  | some address ↦
      answer_admin (cascade_revoke_user_tokens user) meanwhile a
        (nuke_all kit chain address user a.store)
]
