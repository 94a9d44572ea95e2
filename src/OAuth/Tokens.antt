-- ===== src/OAuth/Tokens.antt =====
-- The tokens of packages/server/src/oauth/store.ts.
use t3_spend.Prelude.{
  ℕ, ◌+◌, Bool, true, false, not, ◌&&◌, ◌||◌, Option, none, some, List, ◌∷◌, ltb, ◌==◌,
  if◌then◌else◌, or_else,
}
use t3_spend.Prelude.Lists.{any, find, filter, update, length}
use t3_spend.Prelude.Texts.{Text, codes, text_eq}
use t3_spend.Prelude.Failures.{Result, ok, err, constraint}
use t3_spend.Types.{CardId, UserId}
use t3_spend.Custody.{Bytes, Vault, hash_card_secret}
use t3_spend.OAuth.{OAuthTokenRow, OAuthDb, same_text}
use t3_spend.OAuth.Codes.{random_token}

-- UPDATE oauth_tokens SET revoked = 1 WHERE p
unfoldable pub revoke_where : (OAuthTokenRow → Bool) → OAuthDb → OAuthDb
revoke_where p db = record db { tokens = update p (λ t. record t { revoked = true }) db.tokens }

unfoldable pub revoke_by_code_hash : Text → OAuthDb → OAuthDb
unfolding revoke_where text_eq
revoke_by_code_hash hash = revoke_where (λ t. same_text t.code_hash hash)

unfoldable pub revoke_tokens_by_card_id : CardId → OAuthDb → OAuthDb
unfolding revoke_where
revoke_tokens_by_card_id card = revoke_where (λ t. t.card_id == card)

unfoldable pub revoke_family : ℕ → OAuthDb → OAuthDb
unfolding revoke_where
revoke_family family = revoke_where (λ t. t.family_id == family)

unfoldable pub revoke_by_id : ℕ → OAuthDb → OAuthDb
unfolding revoke_where
revoke_by_id id = revoke_where (λ t. t.id == id)

-- What is drawn at random for a pair of tokens.
pub record TokenDraws : Type 0 where
  pub access_bytes : Bytes
  pub refresh_bytes : Bytes
  pub id : ℕ
  pub family : ℕ

pub record TokenFields : Type 0 where
  pub card_id : CardId
  pub user_id : UserId
  pub client_id : Text
  pub resource : Option Text
  pub scope : Option Text
  pub access_ttl : ℕ
  pub refresh_ttl : Option ℕ
  pub family_id : Option ℕ
  pub code_hash : Option Text

abbrev pub access_token_prefix : Text
access_token_prefix = codes "rmt_at_"

abbrev pub refresh_token_prefix : Text
refresh_token_prefix = codes "rmt_rt_"

-- The raw tokens, and the row that holds their hashes.
pub record Minted : Type 0 where
  pub access_token : Text
  pub refresh_token : Option Text
  pub row : OAuthTokenRow

unfoldable pub mint : Vault → TokenDraws → TokenFields → ℕ → Minted
unfolding random_token
mint v draws t now =
    let access = random_token v access_token_prefix draws.access_bytes in
    let refresh : Option Text = elim t.refresh_ttl [
      | none ↦ none
      | some _ ↦ some (random_token v refresh_token_prefix draws.refresh_bytes)
    ] in
    record {
      access_token = access;
      refresh_token = refresh;
      row = record {
        id = draws.id;
        family_id = or_else t.family_id draws.family;
        access_hash = hash_card_secret v access;
        refresh_hash = elim refresh [ none ↦ none | some r ↦ some (hash_card_secret v r) ];
        card_id = t.card_id;
        user_id = t.user_id;
        client_id = t.client_id;
        resource = t.resource;
        scope = t.scope;
        code_hash = t.code_hash;
        access_expires_at = now + t.access_ttl;
        refresh_expires_at = elim t.refresh_ttl [ none ↦ none | some ttl ↦ some (now + ttl) ];
        revoked = false;
        created_at = now;
      };
    }

-- A row is kept until a day after its refresh window.
unfoldable pub kept_tokens : ℕ → List OAuthTokenRow → List OAuthTokenRow
kept_tokens now =
    filter (λ t. not (ltb (or_else t.refresh_expires_at t.access_expires_at + 86400) now))

-- PRIMARY KEY, and UNIQUE of the two hashes
unfoldable pub token_conflicts : OAuthTokenRow → List OAuthTokenRow → Bool
unfolding text_eq
token_conflicts row = any (λ t.
    t.id == row.id
    || text_eq t.access_hash row.access_hash
    || elim row.refresh_hash [ none ↦ false | some h ↦ same_text t.refresh_hash h ])

unfoldable pub create_token :
    Vault → TokenDraws → TokenFields → ℕ → OAuthDb → Result Minted × OAuthDb
unfolding mint kept_tokens token_conflicts
create_token v draws t now db =
    let minted = mint v draws t now in
    let kept = kept_tokens now db.tokens in
    if token_conflicts minted.row kept
    then (err constraint, record db { tokens = kept })
    else (ok minted, record db { tokens = minted.row ∷ kept })

-- Unexpired and not revoked.
unfoldable pub live_row : ℕ → Option OAuthTokenRow → Option OAuthTokenRow
live_row now none = none
live_row now (some r) = if r.revoked || ltb r.access_expires_at now then none else some r

unfoldable pub get_by_access_token : Vault → Text → ℕ → OAuthDb → Option OAuthTokenRow
unfolding live_row text_eq
get_by_access_token v token now db =
    live_row now (find (λ t. text_eq t.access_hash (hash_card_secret v token)) db.tokens)

unfoldable pub get_by_refresh_token : Vault → Text → OAuthDb → Option OAuthTokenRow
unfolding text_eq
get_by_refresh_token v token db =
    find (λ t. same_text t.refresh_hash (hash_card_secret v token)) db.tokens

unfoldable pub find_by_any_token : Vault → Text → OAuthDb → Option OAuthTokenRow
unfolding text_eq
find_by_any_token v token db =
    let hash = hash_card_secret v token in
    find (λ t. text_eq t.access_hash hash || same_text t.refresh_hash hash) db.tokens

-- Whether a row with the id was not revoked yet; it is now.
unfoldable pub claim_for_rotation : ℕ → OAuthDb → Bool × OAuthDb
unfolding revoke_where
claim_for_rotation id db =
    let hit : OAuthTokenRow → Bool = λ t. t.id == id && not t.revoked in
    (length (filter hit db.tokens) == 1, revoke_where hit db)
