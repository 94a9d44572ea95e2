-- ===== src/Api/Deleted.antt =====
-- The tokens of the cards that packages/server/src/api/routes.ts deletes.
use t3_spend.Prelude.{
  arith, ℕ, ◌≡◌, ◌⊎◌, refl, sym, ap, ◌∙◌, Bool, true, false, not, ◌||◌, List, [], ◌∷◌, ◌==◌, ==_iff,
  Bool-cases, inl, inr,
}
use t3_spend.Prelude.Lists.{all, update, contains}
use t3_spend.Prelude.Failures.{Failure, ok, err, Result-cases}
use t3_spend.Types.{CardId}
use t3_spend.Store.{CardRow, Store}
use t3_spend.Store.Tree.{subtree_ids}
use t3_spend.Ops.{delete_dead_card}
use t3_spend.OAuth.{OAuthTokenRow, OAuthDb}
use t3_spend.OAuth.Tokens.{revoke_tokens_by_card_id}
use t3_spend.Api.{AuthCtx, Reply, done, failed, Reply-cases, ApiState, owned_card}
use t3_spend.Api.Cards.{revoke_tokens_of, delete_owned_card}

-- A token of the card is revoked.
abbrev pub is_cut : CardId → OAuthTokenRow → Bool
is_cut card t = not (t.card_id == card) || t.revoked

abbrev revoke_row : OAuthTokenRow → OAuthTokenRow
revoke_row t = record t { revoked = true }

update-cut :
    (card : CardId) (ts : List OAuthTokenRow)
    → all (is_cut card) (update (λ t. t.card_id == card) revoke_row ts) ≡ true
update-cut card [] = refl
update-cut card (t ∷ ts) = elim (Bool-cases (t.card_id == card)) [
  | inl e ↦ let rest = update-cut card ts in ground (arith, rest, e)
  | inr e ↦ let rest = update-cut card ts in ground (arith, rest, e)
]

update-keeps_cut :
    (card : CardId) (p : OAuthTokenRow → Bool) (ts : List OAuthTokenRow)
    → all (is_cut card) ts ≡ true
    → all (is_cut card) (update p revoke_row ts) ≡ true
update-keeps_cut card p [] h = refl
update-keeps_cut card p (t ∷ ts) h = elim (Bool-cases (p t)) [
  | inl e ↦ let rest = update-keeps_cut card p ts (ground (arith, h)) in ground (arith, rest, e, h)
  | inr e ↦ let rest = update-keeps_cut card p ts (ground (arith, h)) in ground (arith, rest, e, h)
]

revoke_tokens_of-keeps :
    (card : CardId) (ids : List CardId) (db : OAuthDb)
    → all (is_cut card) db.tokens ≡ true
    → all (is_cut card) (revoke_tokens_of ids db).tokens ≡ true
unfolding revoke_tokens_of revoke_tokens_by_card_id
revoke_tokens_of-keeps card [] db h = h
revoke_tokens_of-keeps card (id ∷ ids) db h =
    revoke_tokens_of-keeps card ids (revoke_tokens_by_card_id id db)
      (update-keeps_cut card (λ t. t.card_id == id) db.tokens h)

revoke_tokens_of-cuts :
    (card : CardId) (ids : List CardId) (db : OAuthDb)
    → contains card ids ≡ true
    → all (is_cut card) (revoke_tokens_of ids db).tokens ≡ true
unfolding revoke_tokens_of revoke_tokens_by_card_id
revoke_tokens_of-cuts card [] db h = cc
revoke_tokens_of-cuts card (id ∷ ids) db h = elim (Bool-cases (contains card ids)) [
  | inl later ↦ revoke_tokens_of-cuts card ids (revoke_tokens_by_card_id id db) later
  | inr not_later ↦
      let same : id ≡ card = sym ((==_iff card id).0 (ground (arith, h, not_later))) in
      revoke_tokens_of-keeps card ids (revoke_tokens_by_card_id id db)
        (rw (same) (update-cut card db.tokens))
]

delete_owned_card-thrown :
    (auth : AuthCtx) (id : CardId) (now : ℕ) (a : ApiState) {card : CardRow} {e : Failure}
    → owned_card auth id a.store ≡ done card
    → delete_dead_card card.id now a.store ≡ err e
    → delete_owned_card auth id now a ≡ (failed e, a)
unfolding delete_owned_card
delete_owned_card-thrown auth id now a owned thrown = rw (delete_owned_card, owned, thrown) refl

abbrev pub is_done {ℓ} : {A : Type ℓ} → Reply A → Bool
is_done (done a) = true
is_done _ = false

delete_owned_card-done :
    (auth : AuthCtx) (id : CardId) (now : ℕ) (a : ApiState) {card : CardRow} {removed : ℕ}
    {s : Store}
    → owned_card auth id a.store ≡ done card
    → delete_dead_card card.id now a.store ≡ ok (removed, s)
    → delete_owned_card auth id now a ≡ (
      done removed,
      record { store = s; oauth = revoke_tokens_of (subtree_ids card.id a.store) a.oauth },
    )
unfolding delete_owned_card
delete_owned_card-done auth id now a owned gone = rw (delete_owned_card, owned, gone) refl

-- A deletion that is refused changes nothing; one that goes through revokes every token of every card
-- below the one that was deleted, itself included, and leaves the cards that deleteDeadCard leaves.
pub delete_owned_card-cuts :
    (auth : AuthCtx) (id : CardId) (now : ℕ) (a : ApiState)
    → (((delete_owned_card auth id now a).1 ≡ a)
        × (is_done ((delete_owned_card auth id now a).0) ≡ false))
      ⊎ ((card : CardRow) × (removed : ℕ) × (owned_card auth id a.store ≡ done card)
          × ((delete_owned_card auth id now a).0 ≡ done removed)
          × (delete_dead_card card.id now a.store
              ≡ ok (removed, (delete_owned_card auth id now a).1.store))
          × ((d : CardId)
              → contains d (subtree_ids card.id a.store) ≡ true
              → all (is_cut d) (delete_owned_card auth id now a).1.oauth.tokens ≡ true))
unfolding delete_owned_card
delete_owned_card-cuts auth id now a = elim (Reply-cases (owned_card auth id a.store)) [
  | inr (inl e) ↦ inl (rw (delete_owned_card, e) refl, rw (delete_owned_card, is_done, e) refl)
  | inr (inr (e, thrown)) ↦
      inl (rw (delete_owned_card, thrown) refl, rw (delete_owned_card, is_done, thrown) refl)
  | inl (card, owned) ↦ elim (Result-cases (delete_dead_card card.id now a.store)) [
    | inr (e, thrown) ↦
        let same = delete_owned_card-thrown auth id now a {card = card} {e = e} owned thrown in
        inl (
          ap (λ (x : Reply ℕ × ApiState). x.1) same,
          ap (λ (x : Reply ℕ × ApiState). is_done x.0) same,
        )
    | inl ((removed, s), gone) ↦
        let e =
          delete_owned_card-done auth id now a {card = card} {removed = removed} {s = s} owned
            gone in
        inr (
          card,
          removed,
          owned,
          ap (λ (x : Reply ℕ × ApiState). x.0) e,
          gone ∙ ap (λ (x : Reply ℕ × ApiState). ok (removed, x.1.store)) (sym e),
          λ d below.
              ap (λ (x : Reply ℕ × ApiState). all (is_cut d) x.1.oauth.tokens) e
              ∙ revoke_tokens_of-cuts d (subtree_ids card.id a.store) a.oauth below,
        )
  ]
]
