-- ===== src/OAuth/Endpoints.antt =====
-- The endpoints of packages/server/src/oauth/routes.ts with their rate limits. Bodies come parsed, and
-- absent where they could not be read.
use t3_spend.Prelude.{ℕ, Option, none, some, if◌then◌else◌}
use t3_spend.Prelude.Texts.{Text, codes, text_eq}
use t3_spend.Store.{Store}
use t3_spend.RateLimit.{RateLimiter, allow}
use t3_spend.Spend.Validate.{truthy}
use t3_spend.OAuth.{OAuthEnv, OAuthDb, same_text}
use t3_spend.OAuth.Tokens.{TokenDraws, find_by_any_token, revoke_family}
use t3_spend.OAuth.Authorize.{
  RegisterBody, RegisterReply, too_many_registrations, register, AuthorizeQuery, AuthorizeReply,
  authorize,
}
use t3_spend.OAuth.Exchange.{
  TokenForm, TokenReply, token_error, too_many_requests, invalid_request, unsupported_grant_type,
  code_grant,
}
use t3_spend.OAuth.Refresh.{refresh_grant}

pub record OAuthServer : Type 0 where
  pub db : OAuthDb
  pub register_limit : RateLimiter
  pub authorize_limit : RateLimiter
  pub token_limit : RateLimiter

-- A request: the address that it counts under, its time in milliseconds, and the clock in seconds as
-- it is read for the checks and for the writes.
pub record Arrival : Type 0 where
  pub ip : Text
  pub now_ms : ℕ
  pub now : ℕ
  pub later : ℕ

unfoldable pub register_endpoint :
    OAuthEnv → Text → Arrival → Option RegisterBody → OAuthServer → RegisterReply × OAuthServer
unfolding register allow
register_endpoint env fresh_id at body srv =
    let (allowed, limit) = allow at.ip at.now_ms srv.register_limit in
    let (reply, db) = register env fresh_id at.now body srv.db in
    if allowed
    then (reply, record srv { db = db; register_limit = limit })
    else (too_many_registrations, record srv { register_limit = limit })

unfoldable pub authorize_endpoint :
    OAuthEnv
    → (Text → Text)
    → Text
    → Arrival
    → AuthorizeQuery
    → OAuthServer
    → AuthorizeReply × OAuthServer
unfolding authorize allow
authorize_endpoint env describe fresh_id at q srv =
    let (allowed, limit) = allow at.ip at.now_ms srv.authorize_limit in
    let (reply, db) = authorize env describe fresh_id at.now q srv.db in
    if allowed
    then (reply, record srv { db = db; authorize_limit = limit })
    else (AuthorizeReply.too_many_requests, record srv { authorize_limit = limit })

unfoldable pub token_grant :
    OAuthEnv → TokenDraws → Arrival → Store → Option TokenForm → OAuthDb → TokenReply × OAuthDb
unfolding code_grant refresh_grant text_eq
token_grant env draws at s none db = (token_error invalid_request, db)
token_grant env draws at s (some form) db =
    if same_text form.grant_type (codes "authorization_code")
    then code_grant env draws form at.now at.later s db
    else if same_text form.grant_type (codes "refresh_token")
    then refresh_grant env draws form at.now at.later s db
    else (token_error unsupported_grant_type, db)

unfoldable pub token_endpoint :
    OAuthEnv
    → TokenDraws
    → Arrival
    → Store
    → Option TokenForm
    → OAuthServer
    → TokenReply × OAuthServer
unfolding token_grant allow
token_endpoint env draws at s form srv =
    let (allowed, limit) = allow at.ip at.now_ms srv.token_limit in
    let (reply, db) = token_grant env draws at s form srv.db in
    if allowed
    then (reply, record srv { db = db; token_limit = limit })
    else (too_many_requests, record srv { token_limit = limit })

-- Either half of a pair revokes the grant; an unknown token is answered alike.
unfoldable pub revoke_token : OAuthEnv → Option Text → OAuthDb → OAuthDb
unfolding find_by_any_token
revoke_token env token db = elim (truthy token) [
  | none ↦ db
  | some t ↦ elim (find_by_any_token env.vault t db) [
    | none ↦ db
    | some row ↦ revoke_family row.family_id db
  ]
]

pub data RevokeReply : Type 0 where
  done limited : RevokeReply

unfoldable pub revoke_endpoint :
    OAuthEnv → Arrival → Option Text → OAuthServer → RevokeReply × OAuthServer
unfolding revoke_token allow
revoke_endpoint env at token srv =
    let (allowed, limit) = allow at.ip at.now_ms srv.token_limit in
    if allowed
    then (done, record srv { db = revoke_token env token srv.db; token_limit = limit })
    else (limited, record srv { token_limit = limit })
