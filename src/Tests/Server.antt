-- ===== src/Tests/Server.antt =====
-- Runs of the theorems on the authorization server.
use t3_spend.Prelude.{◌≤◌, ◌⊎◌, ◌≡◌, ℕ, refl, none, some, [], ◌∷◌, true, false, arith}
use t3_spend.Prelude.Lists.{replicate}
use t3_spend.Prelude.Texts.{Text, codes}
use t3_spend.OAuth.{OAuthClientRow, OAuthRequestRow, OAuthCodeRow, OAuthTokenRow, OAuthDb, OAuthEnv}
use t3_spend.OAuth.Clients.{bind_request_user}
use t3_spend.OAuth.Codes.{get_code_row}
use t3_spend.OAuth.Tokens.{TokenDraws, get_by_refresh_token, revoke_where, revoke_family}
use t3_spend.OAuth.Authorize.{AuthorizeQuery, redirect, authorize, known_client, consent_url}
use t3_spend.OAuth.Exchange.{TokenForm, token_error, TokenError, invalid_grant, exchange_code}
use t3_spend.OAuth.Refresh.{refresh_token}
use t3_spend.OAuth.SingleUse.{is_response, same, followed, tokens_revoked, exchange_code-once}
use t3_spend.OAuth.Families.{IsDead}
use t3_spend.OAuth.Replay.{replay_answer, refresh_token-replay}
use t3_spend.OAuth.Granted.{MayExchange, exchange_code-MayExchange, IsSafe, authorize-IsSafe}
use t3_spend.OAuth.Binding.{bind_request_user-once}
use t3_spend.Prelude.Lists.{all, contains}
use t3_spend.Prelude.Failures.{ok}
use t3_spend.Types.{CardId}
use t3_spend.Store.{CardStatus, CardRow}
use t3_spend.Store.Tree.{subtree_ids, set_status_of}
use t3_spend.Ops.{delete_dead_card}
use t3_spend.OAuth.Clients.{get_request}
use t3_spend.Api.{AuthCtx, admin, done, ApiState, owned_card}
use t3_spend.Api.Cards.{delete_owned_card}
use t3_spend.Api.Consent.{approve_request}
use t3_spend.Api.Approved.{Approval, approve_request-IsApproval}
use t3_spend.Api.Exchange.{approve_request-exchange_code}
use t3_spend.Api.Deleted.{is_cut, is_done, delete_owned_card-cuts}
use t3_spend.Tests.{before}
use t3_spend.Tests.Issuing.{plain_vault}

abbrev env : OAuthEnv
env = record {
  vault = plain_vault;
  public_mcp_base = some (codes "https://mcp/");
  port = none;
  dashboard_base = none;
  redirect_hosts = none;
  accepted_resources = none;
  access_ttl = 3600;
  refresh_ttl = 86400;
  parse_url = λ t. none;
  encode_uri_component = λ t. t;
  b64url_sha256 = λ t. t;
}

abbrev verifier : Text
verifier = replicate 43 97

abbrev db : OAuthDb
db = record {
  clients =
      record {
        client_id = codes "c";
        redirect_uris = codes "app:done" ∷ [];
        client_name = none;
        created_at = 0;
      }
      ∷ [];
  requests =
      record {
        request_id = codes "q";
        client_id = codes "c";
        redirect_uri = codes "app:done";
        code_challenge = verifier;
        resource = none;
        scope = none;
        state = none;
        user_id = none;
        expires_at = 100;
      }
      ∷ [];
  codes =
      record {
        code_hash = codes "hcode";
        client_id = codes "c";
        redirect_uri = codes "app:done";
        code_challenge = verifier;
        card_id = 2;
        user_id = 7;
        resource = none;
        scope = none;
        used = false;
        expires_at = 100;
      }
      ∷ [];
  tokens =
      record {
        id = 1;
        family_id = 1;
        access_hash = codes "haccess";
        refresh_hash = some (codes "hrefresh");
        card_id = 2;
        user_id = 7;
        client_id = codes "c";
        resource = none;
        scope = none;
        code_hash = none;
        access_expires_at = 50;
        refresh_expires_at = some 1000;
        revoked = false;
        created_at = 0;
      }
      ∷ [];
}

abbrev draws : TokenDraws
draws = record { access_bytes = 49 ∷ []; refresh_bytes = 50 ∷ []; id = 9; family = 9 }

abbrev other_draws : TokenDraws
other_draws = record { access_bytes = 51 ∷ []; refresh_bytes = 52 ∷ []; id = 10; family = 10 }

abbrev form : TokenForm
form = record {
  grant_type = some (codes "authorization_code");
  code = some (codes "code");
  code_verifier = some verifier;
  redirect_uri = some (codes "app:done");
  client_id = some (codes "c");
  resource = none;
  refresh_token = none;
}

abbrev exchanged : OAuthDb
exchanged = (exchange_code env draws form (codes "code") verifier (codes "c") 60 61 before db).1

exchange-granted :
    is_response
      ((exchange_code env draws form (codes "code") verifier (codes "c") 60 61 before db).0)
    ≡ true
unfolding exchange_code t3_spend.OAuth.Clients.get_client get_code_row
    t3_spend.Custody.hash_card_secret t3_spend.Store.Cards.get_card t3_spend.OAuth.Codes.claim_code
    t3_spend.OAuth.Tokens.create_token
exchange-granted = refl

exchange_code-once_example :
    is_response (
      (exchange_code env other_draws form
        (codes "code")
        verifier
        (codes "c")
        62
        63
        before
        (revoke_where (λ t. true) exchanged)).0)
    ≡ false
exchange_code-once_example =
    exchange_code-once env draws other_draws form form (codes "code") verifier verifier (codes "c")
      (codes "c") 60 61 62 63 before before db (revoke_where (λ t. true) exchanged) exchange-granted
      (followed same (tokens_revoked (λ t. true) exchanged) tt) (omega arith)

exchange_code-MayExchange_example :
    (row : OAuthCodeRow) × (get_code_row plain_vault (codes "code") db ≡ some row)
    × MayExchange env form verifier (codes "c") 60 before row
exchange_code-MayExchange_example =
    exchange_code-MayExchange env draws form (codes "code") verifier (codes "c") 60 61 before db
      exchange-granted

refresh-granted :
    is_response ((refresh_token env draws (codes "refresh") (codes "c") 60 61 before db).0) ≡ true
unfolding refresh_token get_by_refresh_token t3_spend.Custody.hash_card_secret
    t3_spend.Store.Cards.get_card t3_spend.OAuth.Tokens.claim_for_rotation
    t3_spend.OAuth.Exchange.reply_minted t3_spend.OAuth.Tokens.create_token
refresh-granted = refl

abbrev refreshed : OAuthDb
refreshed = (refresh_token env draws (codes "refresh") (codes "c") 60 61 before db).1

refresh_token-replay_example :
    (row : OAuthTokenRow) × (get_by_refresh_token plain_vault (codes "refresh") db ≡ some row)
    × (row.client_id ≡ codes "c")
    × (refresh_token env other_draws (codes "refresh") (codes "other") 70 71 before refreshed
        ≡ replay_answer row (codes "other") refreshed)
    × IsDead row.family_id ((replay_answer row (codes "c") refreshed).1)
refresh_token-replay_example =
    refresh_token-replay env draws other_draws (codes "refresh") (codes "c") (codes "other") 60 61
      70 71 before before db (omega arith) refresh-granted

abbrev query : AuthorizeQuery
query = record {
  client_id = some (codes "c");
  redirect_uri = some (codes "app:done");
  response_type = some (codes "code");
  response_mode = none;
  code_challenge = some verifier;
  code_challenge_method = some (codes "S256");
  state = some (codes "s");
  scope = none;
  resource = none;
}

sends_to_consent :
    (authorize env (λ e. e) (codes "new") 60 query db).0 ≡ redirect (consent_url env (codes "new"))
unfolding authorize t3_spend.OAuth.Clients.get_client t3_spend.OAuth.Authorize.authorize_client
sends_to_consent = refl

authorize-IsSafe_example : IsSafe env (codes "new") query db (consent_url env (codes "new"))
authorize-IsSafe_example = authorize-IsSafe env (λ e. e) (codes "new") 60 query db sends_to_consent

bound : (bind_request_user (codes "q") 7 60 db).0 ≡ true
unfolding bind_request_user
bound = refl

bind_request_user-once_example :
    bind_request_user (codes "q") 8 61 ((bind_request_user (codes "q") 7 60 db).1)
    ≡ (false, (bind_request_user (codes "q") 7 60 db).1)
bind_request_user-once_example = bind_request_user-once (codes "q") 7 8 60 61 db bound refl

-- Card 2 and the card below it are revoked.
abbrev board : ApiState
board = record { store = set_status_of (2 ∷ 3 ∷ []) CardStatus.revoked before; oauth = db }

abbrev operator : AuthCtx
operator = admin

approved :
    (approve_request env (codes "new") operator 7 (codes "q") 2 60 before db).0
    ≡ done (codes "app:done?code=new")
unfolding approve_request get_request bind_request_user t3_spend.Store.Cards.get_card
    t3_spend.Spend.Balance.card_state t3_spend.Money.usdc_to_atoms t3_spend.OAuth.Codes.create_code
    t3_spend.OAuth.Clients.delete_request t3_spend.Custody.hash_card_secret
    t3_spend.OAuth.Redirects.append_redirect_params
approved = refl

abbrev after_consent : OAuthDb
after_consent = (approve_request env (codes "new") operator 7 (codes "q") 2 60 before db).1

approve_request-IsApproval_example :
    (r : OAuthRequestRow) × (card : CardRow) × Approval env
      (codes "new")
      operator
      7
      (codes "q")
      2
      60
      before
      db
      after_consent
      r
      card
approve_request-IsApproval_example =
    approve_request-IsApproval env (codes "new") operator 7 (codes "q") 2 60 before db approved

new-granted :
    is_response (
      (exchange_code env draws form
        (codes "new")
        verifier
        (codes "c")
        61
        62
        before
        after_consent).0)
    ≡ true
unfolding exchange_code t3_spend.OAuth.Clients.get_client approve_request get_request
    bind_request_user t3_spend.Store.Cards.get_card t3_spend.Spend.Balance.card_state
    t3_spend.Money.usdc_to_atoms t3_spend.OAuth.Codes.create_code
    t3_spend.OAuth.Clients.delete_request t3_spend.Custody.hash_card_secret get_code_row
    t3_spend.OAuth.Codes.claim_code t3_spend.OAuth.Tokens.create_token
new-granted = refl

approve_request-exchange_code_example :
    (r : OAuthRequestRow) × (get_request (codes "q") 60 db ≡ some r)
    × (r.client_id ≡ codes "c")
    × (r.redirect_uri ≡ codes "app:done")
    × (verifier ≡ r.code_challenge)
    × (61 ≤ 180)
approve_request-exchange_code_example =
    approve_request-exchange_code env (codes "new") operator 7 (codes "q") 2 60 before db draws form
      verifier (codes "c") 61 62 before approved new-granted

delete_owned_card-cuts_example :
    (((delete_owned_card operator 2 60 board).1 ≡ board)
      × (is_done ((delete_owned_card operator 2 60 board).0) ≡ false))
    ⊎ ((card : CardRow) × (removed : ℕ) × (owned_card operator 2 board.store ≡ done card)
        × ((delete_owned_card operator 2 60 board).0 ≡ done removed)
        × (delete_dead_card card.id 60 board.store
            ≡ ok (removed, (delete_owned_card operator 2 60 board).1.store))
        × ((d : CardId)
            → contains d (subtree_ids card.id board.store) ≡ true
            → all (is_cut d) (delete_owned_card operator 2 60 board).1.oauth.tokens ≡ true))
delete_owned_card-cuts_example = delete_owned_card-cuts operator 2 60 board
