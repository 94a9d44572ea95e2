-- ===== src/OAuth/Refresh.antt =====
-- The grant of a refresh token in `/token` of packages/server/src/oauth/routes.ts: a token is rotated
-- once, and a second use of it revokes its family. The expiry of the card is not looked at here.
use t3_spend.Prelude.{ℕ, true, false, none, some, ltb, if◌then◌else◌, or_else}
use t3_spend.Prelude.Texts.{Text, text_eq}
use t3_spend.Store.{Store}
use t3_spend.Store.Cards.{get_card}
use t3_spend.Spend.Validate.{truthy}
use t3_spend.OAuth.{OAuthEnv, OAuthTokenRow, OAuthDb, canonical_resource}
use t3_spend.OAuth.Tokens.{
  TokenDraws, TokenFields, create_token, get_by_refresh_token, claim_for_rotation, revoke_family,
}
use t3_spend.OAuth.Exchange.{
  TokenForm, TokenReply, token_error, invalid_request, invalid_grant, card_gone, reply_minted,
}

unfoldable pub rotated_token : OAuthEnv → OAuthTokenRow → TokenFields
unfolding canonical_resource
rotated_token env row = record {
  card_id = row.card_id;
  user_id = row.user_id;
  client_id = row.client_id;
  resource = some (or_else row.resource (canonical_resource env));
  scope = row.scope;
  access_ttl = env.access_ttl;
  refresh_ttl = some env.refresh_ttl;
  family_id = some row.family_id;
  code_hash = row.code_hash;
}

-- A row that is neither revoked nor expired, of a card that is there.
unfoldable pub rotate : OAuthEnv → TokenDraws → ℕ → OAuthTokenRow → OAuthDb → TokenReply × OAuthDb
unfolding rotated_token
rotate env draws later row db =
    let (claimed, db') = claim_for_rotation row.id db in
    elim claimed [
      | false ↦ (token_error invalid_grant, revoke_family row.family_id db')
      | true ↦
          reply_minted row.scope (create_token env.vault draws (rotated_token env row) later db')
    ]

unfoldable pub refresh_row :
    OAuthEnv → TokenDraws → ℕ → ℕ → Store → OAuthTokenRow → OAuthDb → TokenReply × OAuthDb
unfolding rotate
refresh_row env draws now later s row db =
    if row.revoked
    then (token_error invalid_grant, revoke_family row.family_id db)
    else if ltb (or_else row.refresh_expires_at 0) now
    then (token_error invalid_grant, db)
    else if card_gone (get_card row.card_id s)
    then (token_error invalid_grant, revoke_family row.family_id db)
    else rotate env draws later row db

unfoldable pub refresh_token :
    OAuthEnv → TokenDraws → Text → Text → ℕ → ℕ → Store → OAuthDb → TokenReply × OAuthDb
unfolding refresh_row text_eq
refresh_token env draws token client_id now later s db =
    elim (get_by_refresh_token env.vault token db) [
      | none ↦ (token_error invalid_grant, db)
      | some row ↦
          if text_eq row.client_id client_id
          then refresh_row env draws now later s row db
          else (token_error invalid_grant, db)
    ]

unfoldable pub refresh_grant :
    OAuthEnv → TokenDraws → TokenForm → ℕ → ℕ → Store → OAuthDb → TokenReply × OAuthDb
unfolding refresh_token
refresh_grant env draws form now later s db = elim (truthy form.refresh_token) [
  | none ↦ (token_error invalid_request, db)
  | some token ↦ elim (truthy form.client_id) [
    | none ↦ (token_error invalid_request, db)
    | some client_id ↦ refresh_token env draws token client_id now later s db
  ]
]
