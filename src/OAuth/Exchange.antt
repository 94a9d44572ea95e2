-- ===== src/OAuth/Exchange.antt =====
-- The grant of an authorization code in `/token` of packages/server/src/oauth/routes.ts: the code is
-- looked at first and claimed only after every check. A token that cannot be stored is an error of the
-- server. The clock is read once for the checks and once for the writes.
use t3_spend.Prelude.{
  ℕ, Bool, true, false, not, ◌||◌, Option, none, some, [], ltb, if◌then◌else◌, or_else,
}
use t3_spend.Prelude.Lists.{length}
use t3_spend.Prelude.Texts.{Text, text_eq}
use t3_spend.Prelude.Failures.{Result, ok, err}
use t3_spend.Store.{CardRow, Store}
use t3_spend.Store.Cards.{get_card}
use t3_spend.Ops.{is_dead}
use t3_spend.Spend.Validate.{truthy, is_expired}
use t3_spend.OAuth.{OAuthEnv, OAuthCodeRow, OAuthDb, same_text, canonical_resource}
use t3_spend.OAuth.Clients.{get_client}
use t3_spend.OAuth.Codes.{get_code_row, claim_code}
use t3_spend.OAuth.Tokens.{TokenDraws, TokenFields, Minted, create_token, revoke_by_code_hash}

pub record TokenForm : Type 0 where
  pub grant_type : Option Text
  pub code : Option Text
  pub code_verifier : Option Text
  pub redirect_uri : Option Text
  pub client_id : Option Text
  pub resource : Option Text
  pub refresh_token : Option Text

pub data TokenError : Type 0 where
  invalid_request invalid_client invalid_grant invalid_target unsupported_grant_type : TokenError

pub data TokenReply : Type 0 where
  token_error : TokenError → TokenReply
  -- the raw tokens, with the grant's scope
  token_response : Minted → Option Text → TokenReply
  too_many_requests server_error : TokenReply

-- What the checks find: an error, a code that was used before, or a code to claim.
pub data CodeCheck : Type 0 where
  reject : TokenError → CodeCheck
  replayed : OAuthCodeRow → CodeCheck
  accept : OAuthCodeRow → CodeCheck

-- `!card || card.status === "revoked" || card.status === "nuked"`
abbrev pub card_gone : Option CardRow → Bool
card_gone none = true
card_gone (some c) = is_dead c.status

abbrev pub card_over : ℕ → Option CardRow → Bool
card_over now none = false
card_over now (some c) = is_expired c.terms.expiry now

-- `resource && resource !== t`
abbrev pub names_other : Option Text → Text → Bool
names_other given t = elim (truthy given) [ none ↦ false | some r ↦ not (text_eq r t) ]

-- `row.resource && resource !== row.resource`
abbrev pub unlike_grant : Option Text → Option Text → Bool
unlike_grant granted given = elim (truthy granted) [
  | none ↦ false
  | some r ↦ not (same_text given r)
]

-- The bindings of a row that was not used.
unfoldable pub check_bindings :
    OAuthEnv → TokenForm → Text → Text → ℕ → Store → OAuthCodeRow → CodeCheck
unfolding text_eq canonical_resource
check_bindings env form client_id verifier now s row =
    if not (text_eq row.client_id client_id)
    then reject invalid_grant
    else if not (text_eq row.redirect_uri (or_else form.redirect_uri []))
    then reject invalid_grant
    else if not (text_eq (env.b64url_sha256 verifier) row.code_challenge)
    then reject invalid_grant
    else if unlike_grant row.resource form.resource
    then reject invalid_target
    else if names_other form.resource (canonical_resource env)
    then reject invalid_target
    else if card_gone (get_card row.card_id s)
    then reject invalid_grant
    else if card_over now (get_card row.card_id s)
    then reject invalid_grant
    else accept row

unfoldable pub check_row :
    OAuthEnv → TokenForm → Text → Text → ℕ → Store → Option OAuthCodeRow → CodeCheck
unfolding check_bindings
check_row env form client_id verifier now s none = reject invalid_grant
check_row env form client_id verifier now s (some row) =
    if ltb row.expires_at now
    then reject invalid_grant
    else if row.used
    then replayed row
    else check_bindings env form client_id verifier now s row

unfoldable pub check_code :
    OAuthEnv → TokenForm → Text → Text → Text → ℕ → Store → OAuthDb → CodeCheck
unfolding check_row
check_code env form code verifier client_id now s db = elim (get_client client_id db) [
  | none ↦ reject invalid_client
  | some _ ↦
      if ltb (length verifier) 43 || ltb 128 (length verifier)
      then reject invalid_grant
      else check_row env form client_id verifier now s (get_code_row env.vault code db)
]

-- Every minted token is pinned to a resource.
unfoldable pub code_token : OAuthEnv → Text → OAuthCodeRow → TokenFields
unfolding canonical_resource
code_token env client_id row = record {
  card_id = row.card_id;
  user_id = row.user_id;
  client_id = client_id;
  resource = some (or_else row.resource (canonical_resource env));
  scope = row.scope;
  access_ttl = env.access_ttl;
  refresh_ttl = some env.refresh_ttl;
  family_id = none;
  code_hash = some row.code_hash;
}

unfoldable pub reply_minted : Option Text → Result Minted × OAuthDb → TokenReply × OAuthDb
reply_minted scope (ok minted, db) = (token_response minted scope, db)
reply_minted scope (err e, db) = (server_error, db)

-- The claim and the new tokens.
unfoldable pub claim_and_mint :
    OAuthEnv → TokenDraws → Text → Text → ℕ → OAuthCodeRow → OAuthDb → TokenReply × OAuthDb
unfolding code_token reply_minted
claim_and_mint env draws code client_id later row db =
    let (claimed, db') = claim_code env.vault code later db in
    elim claimed [
      | false ↦ (token_error invalid_grant, db')
      | true ↦
          reply_minted row.scope
            (create_token env.vault draws (code_token env client_id row) later db')
    ]

unfoldable pub exchange_code :
    OAuthEnv
    → TokenDraws
    → TokenForm
    → Text
    → Text
    → Text
    → ℕ
    → ℕ
    → Store
    → OAuthDb
    → TokenReply × OAuthDb
unfolding check_code claim_and_mint
exchange_code env draws form code verifier client_id now later s db =
    elim (check_code env form code verifier client_id now s db) [
      | reject e ↦ (token_error e, db)
      | replayed row ↦ (token_error invalid_grant, revoke_by_code_hash row.code_hash db)
      | accept row ↦ claim_and_mint env draws code client_id later row db
    ]

unfoldable pub code_grant :
    OAuthEnv → TokenDraws → TokenForm → ℕ → ℕ → Store → OAuthDb → TokenReply × OAuthDb
unfolding exchange_code
code_grant env draws form now later s db = elim (truthy form.code) [
  | none ↦ (token_error invalid_request, db)
  | some code ↦ elim (truthy form.code_verifier) [
    | none ↦ (token_error invalid_request, db)
    | some verifier ↦ elim (truthy form.client_id) [
      | none ↦ (token_error invalid_request, db)
      | some client_id ↦ exchange_code env draws form code verifier client_id now later s db
    ]
  ]
]
