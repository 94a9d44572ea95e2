-- ===== src/OAuth/Families.antt =====
-- The families of tokens in packages/server/src/oauth: rotation, replay and revocation.
use t3_spend.Prelude.{
  arith, ℕ, ◌+◌, ◌≡◌, refl, sym, ap, ◌∙◌, Bool, true, false, not, ◌&&◌, ◌||◌, none, some, List, [],
  ◌∷◌, ltb, ◌==◌, or_else, some_inj, Bool-cases, Option-cases, inl, inr,
}
use t3_spend.Prelude.Lists.{any, find, update}
use t3_spend.Prelude.Texts.{Text, text_eq, text_eq_sound, text_eq_sym}
use t3_spend.Custody.{Vault, hash_card_secret}
use t3_spend.OAuth.{OAuthTokenRow, OAuthDb, same_text}
use t3_spend.OAuth.Tokens.{
  revoke_where, revoke_family, live_row, get_by_access_token, kept_tokens, token_conflicts,
}

-- Every token of the family is revoked.
abbrev pub IsDead : ℕ → OAuthDb → Type 0
IsDead family db = any (λ t. t.family_id == family && not t.revoked) db.tokens ≡ false

revoke_family-tokens :
    (family : ℕ) (ts : List OAuthTokenRow)
    → any
        (λ t. t.family_id == family && not t.revoked)
        (update (λ t. t.family_id == family) (λ t. record t { revoked = true }) ts)
      ≡ false
revoke_family-tokens family [] = refl
revoke_family-tokens family (t ∷ ts) = ground (arith, revoke_family-tokens family ts)

pub revoke_family-IsDead : (family : ℕ) (db : OAuthDb) → IsDead family (revoke_family family db)
unfolding revoke_family revoke_where
revoke_family-IsDead family db = revoke_family-tokens family db.tokens

find-all :
    (p q : OAuthTokenRow → Bool) (ts : List OAuthTokenRow) {row : OAuthTokenRow}
    → any q ts ≡ false
    → find p ts ≡ some row
    → q row ≡ false
find-all p q [] n h = cc
find-all p q (t ∷ ts) {row} n h = elim (Bool-cases (p t)) [
  | inl e ↦ ground (arith, n, h, e)
  | inr e ↦ find-all p q ts (ground (arith, n)) (ground (arith, h, e))
]

-- A bearer token of a dead family is not accepted at any time.
IsDead-rejects :
    (v : Vault) (token : Text) (now family : ℕ) (db : OAuthDb) {row : OAuthTokenRow}
    → IsDead family db
    → get_by_access_token v token now db ≡ some row
    → (row.family_id == family) ≡ false
unfolding get_by_access_token live_row
IsDead-rejects v token now family db {row} dead h =
    elim (Option-cases (find (λ t. text_eq t.access_hash (hash_card_secret v token)) db.tokens)) [
      | inl missing ↦ absurd (ground (arith, h, missing))
      | inr (t, found) ↦
          let gone =
            find-all (λ t. text_eq t.access_hash (hash_card_secret v token))
              (λ t. t.family_id == family && not t.revoked) db.tokens dead found in
          ground (arith, h, found, gone)
    ]

-- Once a family is revoked no token of it is accepted, at any time.
pub revoke_family-rejects :
    (v : Vault) (token : Text) (now family : ℕ) (db : OAuthDb) {row : OAuthTokenRow}
    → get_by_access_token v token now (revoke_family family db) ≡ some row
    → (row.family_id == family) ≡ false
revoke_family-rejects v token now family db h =
    IsDead-rejects v token now family (revoke_family family db) (revoke_family-IsDead family db) h

abbrev pub has_refresh : Text → OAuthTokenRow → Bool
has_refresh hash t = same_text t.refresh_hash hash

abbrev pub is_claimed : ℕ → OAuthTokenRow → Bool
is_claimed id t = t.id == id && not t.revoked

abbrev pub revoked : OAuthTokenRow → OAuthTokenRow
revoked t = record t { revoked = true }

-- The rotated row is still found by its refresh token, and it is revoked.
pub find-rotated :
    (hash : Text) (id later : ℕ) (ts : List OAuthTokenRow) {row : OAuthTokenRow}
    → find (has_refresh hash) ts ≡ some row
    → is_claimed id row ≡ true
    → ltb (or_else row.refresh_expires_at row.access_expires_at + 86400) later ≡ false
    → find (has_refresh hash) (kept_tokens later (update (is_claimed id) revoked ts))
      ≡ some (revoked row)
unfolding kept_tokens
find-rotated hash id later [] f c k = cc
find-rotated hash id later (t ∷ ts) {row} f c k = elim (Bool-cases (has_refresh hash t)) [
  | inl e ↦
      let same : t ≡ row = ground (arith, f, e) in
      let c' : is_claimed id t ≡ true = rw same c in
      let k' : ltb (or_else t.refresh_expires_at t.access_expires_at + 86400) later ≡ false =
        rw same k in
      rw c' (rw k' (rw e (ap (λ (x : OAuthTokenRow). some (revoked x)) same)))
  | inr e ↦
      let rest = find-rotated hash id later ts {row = row} (ground (arith, f, e)) c k in
      ground (arith, rest, e)
]

find-hit :
    (p : OAuthTokenRow → Bool) (ts : List OAuthTokenRow) {row : OAuthTokenRow}
    → find p ts ≡ some row
    → p row ≡ true
find-hit p [] f = cc
find-hit p (t ∷ ts) {row} f = elim (Bool-cases (p t)) [
  | inl e ↦ rw (sym (some_inj (rw e at f))) e
  | inr e ↦ find-hit p ts (rw e at f)
]

-- A row that has the new token's hash is a conflict.
pub fresh_refresh :
    (row : OAuthTokenRow) (hash : Text) (ts : List OAuthTokenRow) {old : OAuthTokenRow}
    → token_conflicts row ts ≡ false
    → find (has_refresh hash) ts ≡ some old
    → has_refresh hash row ≡ false
unfolding token_conflicts
fresh_refresh row hash ts {old} n f =
    let differs = find-all (has_refresh hash) (λ t. conflicts t) ts n f in
    let hit = find-hit (has_refresh hash) ts f in
    elim (Option-cases row.refresh_hash) [
      | inl none_new ↦ rw none_new refl
      | inr (h, new) ↦ elim (Option-cases old.refresh_hash) [
        | inl none_old ↦ absurd (ground (arith, hit, none_old))
        | inr (x, was) ↦
            let same : x ≡ hash = text_eq_sound x hash (ground (arith, hit, was)) in
            let apart : text_eq x h ≡ false = ground (arith, differs, new, was) in
            rw new (text_eq_sym h hash ∙ ap (λ y. text_eq y h) (sym same) ∙ apart)
      ]
    ]
  where
    conflicts : OAuthTokenRow → Bool
    conflicts t =
        t.id == row.id
        || text_eq t.access_hash row.access_hash
        || elim row.refresh_hash [ none ↦ false | some h ↦ same_text t.refresh_hash h ]
