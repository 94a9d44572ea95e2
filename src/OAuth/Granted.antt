-- ===== src/OAuth/Granted.antt =====
-- The requests that packages/server/src/oauth/routes.ts grants, and where it redirects.
use mathlib.Core.Path.{subst}
use t3_spend.Prelude.{
  arith, ℕ, ◌≤◌, ◌≡◌, ◌⊎◌, refl, ap, true, false, Option, none, some, List, [], or_else, Bool-cases,
  Option-cases, inl, inr,
}
use t3_spend.Prelude.Texts.{Text, text_eq_sound, has_text}
use t3_spend.Store.{Store}
use t3_spend.Store.Cards.{get_card}
use t3_spend.Spend.Validate.{truthy}
use t3_spend.OAuth.{OAuthEnv, OAuthClientRow, OAuthCodeRow, OAuthDb, canonical_resource}
use t3_spend.OAuth.Codes.{get_code_row}
use t3_spend.OAuth.Tokens.{TokenDraws}
use t3_spend.OAuth.Redirects.{append_redirect_params}
use t3_spend.OAuth.Authorize.{
  AuthorizeQuery, redirect, known_client, consent_url, authorize_client, authorize, complaint,
  failure_params,
}
use t3_spend.OAuth.Exchange.{
  TokenForm, TokenError, CodeCheck, accept, reject, replayed, card_gone, card_over, names_other,
  unlike_grant, check_bindings, check_row, check_code, exchange_code,
}
use t3_spend.OAuth.SingleUse.{is_response}

-- A code that the request may be granted tokens for.
pub record MayExchange (env : OAuthEnv) (form : TokenForm) (verifier client_id : Text) (now : ℕ)
    (s : Store) (row : OAuthCodeRow) : Type 0 where
  pub fresh : row.used ≡ false
  pub unexpired : now ≤ row.expires_at
  pub client : row.client_id ≡ client_id
  pub redirect : row.redirect_uri ≡ or_else form.redirect_uri []
  pub proof : env.b64url_sha256 verifier ≡ row.code_challenge
  pub scoped : unlike_grant row.resource form.resource ≡ false
  pub audience : names_other form.resource (canonical_resource env) ≡ false
  pub card_there : card_gone (get_card row.card_id s) ≡ false
  pub card_valid : card_over now (get_card row.card_id s) ≡ false

check_row-MayExchange :
    (env : OAuthEnv) (form : TokenForm) (client_id verifier : Text) (now : ℕ) (s : Store)
    (o : Option OAuthCodeRow) {row : OAuthCodeRow}
    → check_row env form client_id verifier now s o ≡ accept row
    → (o ≡ some row) × MayExchange env form verifier client_id now s row
unfolding check_row check_bindings
check_row-MayExchange env form client_id verifier now s none h = cc
check_row-MayExchange env form client_id verifier now s (some found) {row} h =
    let same : found ≡ row = ground (arith, h) in
    (
      ap some same,
      subst (MayExchange env form verifier client_id now s) same (record {
        fresh = ground (arith, h);
        unexpired = ground (arith, h);
        client = text_eq_sound _ _ (ground (arith, h));
        redirect = text_eq_sound _ _ (ground (arith, h));
        proof = text_eq_sound _ _ (ground (arith, h));
        scoped = ground (arith, h);
        audience = ground (arith, h);
        card_there = ground (arith, h);
        card_valid = ground (arith, h);
      }),
    )

check_code-MayExchange :
    (env : OAuthEnv) (form : TokenForm) (code verifier client_id : Text) (now : ℕ) (s : Store)
    (db : OAuthDb) {row : OAuthCodeRow}
    → check_code env form code verifier client_id now s db ≡ accept row
    → (get_code_row env.vault code db ≡ some row)
      × MayExchange env form verifier client_id now s row
unfolding check_code
check_code-MayExchange env form code verifier client_id now s db {row} h =
    check_row-MayExchange env form client_id verifier now s (get_code_row env.vault code db)
      (ground (arith, h))

CodeCheck-cases :
    (c : CodeCheck)
    → ((row : OAuthCodeRow) × (c ≡ accept row))
      ⊎ ((row : OAuthCodeRow) × (c ≡ replayed row))
      ⊎ ((e : TokenError) × (c ≡ reject e))
CodeCheck-cases (accept row) = inl (row, refl)
CodeCheck-cases (replayed row) = inr (inl (row, refl))
CodeCheck-cases (reject e) = inr (inr (e, refl))

-- Tokens are granted only for a code that is on record, unused and unexpired, to the client and for
-- the redirect that it was issued to, with the verifier of its challenge and a matching resource,
-- while its card is there, neither revoked nor nuked, and not expired.
pub exchange_code-MayExchange :
    (env : OAuthEnv) (draws : TokenDraws) (form : TokenForm) (code verifier client_id : Text)
    (now later : ℕ) (s : Store) (db : OAuthDb)
    → is_response ((exchange_code env draws form code verifier client_id now later s db).0) ≡ true
    → (row : OAuthCodeRow) × (get_code_row env.vault code db ≡ some row)
      × MayExchange env form verifier client_id now s row
unfolding exchange_code
exchange_code-MayExchange env draws form code verifier client_id now later s db granted =
    elim (CodeCheck-cases (check_code env form code verifier client_id now s db)) [
      | inl (row, accepted) ↦
          let (found, may) =
            check_code-MayExchange env form code verifier client_id now s db accepted in
          (row, found, may)
      | inr (inl (row, used)) ↦ absurd (ground (arith, granted, used))
      | inr (inr (e, refused)) ↦ absurd (ground (arith, granted, refused))
    ]

-- Where the endpoint may send a browser: to the consent page, or back to a client at a redirect that
-- it registered.
abbrev pub IsSafe : OAuthEnv → Text → AuthorizeQuery → OAuthDb → Text → Type 0
IsSafe env fresh_id q db url =
    (url ≡ consent_url env fresh_id)
    ⊎ ((client : OAuthClientRow) × (uri : Text) × (params : List (Text × Text)) × (known_client q db
          ≡ some client)
        × (has_text client.redirect_uris uri ≡ true)
        × (url ≡ append_redirect_params env uri params))

-- The endpoint for authorization never redirects anywhere else, whatever the request says.
pub authorize-IsSafe :
    (env : OAuthEnv) (describe : Text → Text) (fresh_id : Text) (now : ℕ) (q : AuthorizeQuery)
    (db : OAuthDb) {url : Text}
    → (authorize env describe fresh_id now q db).0 ≡ redirect url
    → IsSafe env fresh_id q db url
unfolding authorize authorize_client
authorize-IsSafe env describe fresh_id now q db {url} h = elim (Option-cases (known_client q db)) [
  | inl unknown ↦ absurd (ground (arith, h, unknown))
  | inr (client, known) ↦ elim (Option-cases (truthy q.redirect_uri)) [
    | inl missing ↦ absurd (ground (arith, h, known, missing))
    | inr (uri, given) ↦ elim (Bool-cases (has_text client.redirect_uris uri)) [
      | inr foreign ↦ absurd (ground (arith, h, known, given, foreign))
      | inl registered ↦ elim (Option-cases (complaint env q)) [
        | inl fine ↦ inl (ground (arith, h, known, given, registered, fine))
        | inr (error, wrong) ↦ inr (
          client,
          uri,
          failure_params describe q error,
          known,
          registered,
          ground (arith, h, known, given, registered, wrong),
        )
      ]
    ]
  ]
]
