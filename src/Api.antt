-- ===== src/Api.antt =====
-- packages/server/src/api/routes.ts: who a request acts for, over the engine's store and the tables of the
-- authorization server. The consent page's calls and the controls on cards are in the modules below, and so
-- are the proofs. A user id that a request of the operator names comes folded to lower case.
pub mod Consent
pub mod Cards
pub mod Admin
pub mod Pending
pub mod Sections
pub mod Claims
pub mod Finalized
pub mod Approved
pub mod Exchange
pub mod Deleted
use t3_spend.Prelude.{
  ℕ, Bool, Option, none, some, List, [], ◌∷◌, ◌==◌, ◌≡◌, ◌⊎◌, refl, inl, inr, if◌then◌else◌,
}
use t3_spend.Prelude.Texts.{Text}
use t3_spend.Prelude.Failures.{Failure, refusal, card_not_found, Result, ok, err}
use t3_spend.Types.{CardId, UserId}
use t3_spend.Store.{UserRow, CardRow, Store}
use t3_spend.Store.Users.{get_user_by_privy_did}
use t3_spend.Store.Cards.{get_card}
use t3_spend.OAuth.{OAuthDb}

-- The operator's token, or a verified session with its DID.
pub data AuthCtx : Type 0 where
  admin : AuthCtx
  privy : Text → AuthCtx

-- What a handler answers: a result, a 403, or what the engine threw.
pub data Reply {ℓ} (A : Type ℓ) : Type ℓ where
  done : A → Reply A
  forbidden : Reply A
  failed : Failure → Reply A

pub Reply-cases {ℓ} :
    {A : Type ℓ} (r : Reply A)
    → ((a : A) × (r ≡ done a)) ⊎ ((r ≡ forbidden) ⊎ ((e : Failure) × (r ≡ failed e)))
Reply-cases (done a) = inl (a, refl)
Reply-cases forbidden = inr (inl refl)
Reply-cases (failed e) = inr (inr (e, refl))

pub record ApiState : Type 0 where
  pub store : Store
  pub oauth : OAuthDb

unfoldable pub bound_user : AuthCtx → Store → Reply UserRow
bound_user admin s = forbidden
bound_user (privy did) s = elim (get_user_by_privy_did did s) [ none ↦ forbidden | some u ↦ done u ]

abbrev pub user_id_of : Reply UserRow → Reply UserId
user_id_of (done u) = done u.id
user_id_of forbidden = forbidden
user_id_of (failed e) = failed e

-- The operator picks a user; a session has its own.
unfoldable pub scoped_user_id : AuthCtx → UserId → Store → Reply UserId
unfolding bound_user
scoped_user_id admin requested s = done requested
scoped_user_id (privy did) requested s = user_id_of (bound_user (privy did) s)

unfoldable pub card_of_user : CardRow → Reply UserRow → Reply CardRow
card_of_user card (done u) =
    if card.user_id == u.id then done card else failed (refusal card_not_found)
card_of_user card forbidden = forbidden
card_of_user card (failed e) = failed e

-- Other users' cards look like cards that are not there.
unfoldable pub owned_card : AuthCtx → CardId → Store → Reply CardRow
unfolding bound_user card_of_user
owned_card auth id s = elim (get_card id s) [
  | none ↦ failed (refusal card_not_found)
  | some card ↦ elim auth [
    | admin ↦ done card
    | privy did ↦ card_of_user card (bound_user (privy did) s)
  ]
]
