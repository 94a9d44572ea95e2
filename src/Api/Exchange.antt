-- ===== src/Api/Exchange.antt =====
-- The consent of packages/server/src/api/routes.ts followed by the exchange of its code in
-- packages/server/src/oauth/routes.ts.
use t3_spend.Prelude.{arith, ℕ, ◌+◌, ◌≤◌, ◌≡◌, sym, ap, ◌∙◌, true, some, [], or_else, some_inj}
use t3_spend.Prelude.Texts.{Text}
use t3_spend.Types.{CardId, UserId}
use t3_spend.Store.{Store}
use t3_spend.OAuth.{OAuthEnv, OAuthRequestRow, OAuthCodeRow, OAuthDb}
use t3_spend.OAuth.Clients.{get_request}
use t3_spend.OAuth.Tokens.{TokenDraws}
use t3_spend.OAuth.Exchange.{TokenForm, exchange_code}
use t3_spend.OAuth.SingleUse.{is_response}
use t3_spend.OAuth.Granted.{exchange_code-MayExchange}
use t3_spend.Api.{AuthCtx, done}
use t3_spend.Api.Consent.{approved_code, approve_request}
use t3_spend.Api.Approved.{approve_request-IsApproval}

-- What a request that the user approved gives way to: whoever exchanges its code for tokens is the
-- client that asked, names the redirect of the request, knows the verifier of its challenge, and comes
-- within two minutes.
pub approve_request-exchange_code :
    (env : OAuthEnv) (code : Text) (auth : AuthCtx) (requested : UserId) (id : Text)
    (card_id : CardId) (now : ℕ) (s : Store) (db : OAuthDb) (draws : TokenDraws) (form : TokenForm)
    (verifier client_id : Text) (now' later' : ℕ) (s' : Store) {url : Text}
    → (approve_request env code auth requested id card_id now s db).0 ≡ done url
    → is_response (
        (exchange_code env draws form code verifier client_id now' later' s'
          ((approve_request env code auth requested id card_id now s db).1)).0)
      ≡ true
    → (r : OAuthRequestRow) × (get_request id now db ≡ some r)
      × (r.client_id ≡ client_id)
      × (r.redirect_uri ≡ or_else form.redirect_uri [])
      × (env.b64url_sha256 verifier ≡ r.code_challenge)
      × (now' ≤ now + 120)
unfolding approved_code
approve_request-exchange_code env code auth requested id card_id now s db draws form verifier
      client_id now' later' s' h granted =
    let (r, card, a) = approve_request-IsApproval env code auth requested id card_id now s db h in
    let (row, found, may) =
      exchange_code-MayExchange env draws form code verifier client_id now' later' s' _ granted in
    let same = some_inj (sym found ∙ a.coded) in
    (
      r,
      a.request,
      sym (ap (λ (c : OAuthCodeRow). c.client_id) same) ∙ may.client,
      sym (ap (λ (c : OAuthCodeRow). c.redirect_uri) same) ∙ may.redirect,
      may.proof ∙ ap (λ (c : OAuthCodeRow). c.code_challenge) same,
      ground (arith, may.unexpired, ap (λ (c : OAuthCodeRow). c.expires_at) same),
    )
