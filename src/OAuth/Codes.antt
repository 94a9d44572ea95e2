-- ===== src/OAuth/Codes.antt =====
-- The authorization codes of packages/server/src/oauth/store.ts. Codes and tokens are drawn at random.
use t3_spend.Prelude.{
  ℕ, ◌+◌, Bool, true, false, not, ◌&&◌, Option, List, ◌∷◌, ◌++◌, ltb, leb, ◌==◌, if◌then◌else◌,
}
use t3_spend.Prelude.Lists.{any, find, filter, update, length}
use t3_spend.Prelude.Texts.{Text, text_eq}
use t3_spend.Prelude.Failures.{Result, ok, err, constraint}
use t3_spend.Types.{CardId, UserId}
use t3_spend.Custody.{Bytes, Vault, hash_card_secret}
use t3_spend.OAuth.{OAuthCodeRow, OAuthDb}

unfoldable pub random_token : Vault → Text → Bytes → Text
random_token v prefix random = prefix ++ v.base64url random

pub record CodeFields : Type 0 where
  pub client_id : Text
  pub redirect_uri : Text
  pub code_challenge : Text
  pub card_id : CardId
  pub user_id : UserId
  pub resource : Option Text
  pub scope : Option Text

abbrev pub code_row : Text → CodeFields → ℕ → OAuthCodeRow
code_row hash c expires = record {
  code_hash = hash;
  client_id = c.client_id;
  redirect_uri = c.redirect_uri;
  code_challenge = c.code_challenge;
  card_id = c.card_id;
  user_id = c.user_id;
  resource = c.resource;
  scope = c.scope;
  used = false;
  expires_at = expires;
}

-- Codes that ran out an hour ago go first.
unfoldable pub kept_codes : ℕ → List OAuthCodeRow → List OAuthCodeRow
kept_codes now = filter (λ c. not (ltb (c.expires_at + 3600) now))

-- The hash is the primary key.
unfoldable pub create_code : Vault → Text → CodeFields → ℕ → ℕ → OAuthDb → Result Text × OAuthDb
unfolding kept_codes text_eq
create_code v code c ttl now db =
    let hash = hash_card_secret v code in
    if any (λ r. text_eq r.code_hash hash) (kept_codes now db.codes)
    then (err constraint, record db { codes = kept_codes now db.codes })
    else (ok code, record db { codes = code_row hash c (now + ttl) ∷ kept_codes now db.codes })

unfoldable pub get_code_row : Vault → Text → OAuthDb → Option OAuthCodeRow
unfolding text_eq
get_code_row v code db = find (λ c. text_eq c.code_hash (hash_card_secret v code)) db.codes

-- WHERE code_hash = $h AND used = 0 AND expires_at >= $now
unfoldable pub is_claimable : Text → ℕ → OAuthCodeRow → Bool
unfolding text_eq
is_claimable hash now c = text_eq c.code_hash hash && not c.used && leb now c.expires_at

-- UPDATE … SET used = 1, and whether it changed one row
unfoldable pub claim_code : Vault → Text → ℕ → OAuthDb → Bool × OAuthDb
unfolding is_claimable
claim_code v code now db =
    let hit = is_claimable (hash_card_secret v code) now in
    (
      length (filter hit db.codes) == 1,
      record db { codes = update hit (λ c. record c { used = true }) db.codes },
    )
