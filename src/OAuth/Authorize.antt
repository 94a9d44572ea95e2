-- ===== src/OAuth/Authorize.antt =====
-- The endpoints `/register` and `/authorize` of packages/server/src/oauth/routes.ts, after the rate limit.
use t3_spend.Prelude.{
  ℕ, Bool, false, not, ◌||◌, Option, none, some, List, [], ◌∷◌, ◌++◌, ltb, ◌==◌, if◌then◌else◌,
  is_some,
}
use t3_spend.Prelude.Lists.{length, all, take}
use t3_spend.Prelude.Texts.{Text, codes, text_eq, has_text}
use t3_spend.Spend.Validate.{truthy}
use t3_spend.OAuth.{
  OAuthEnv, OAuthClientRow, OAuthDb, same_text, canonical_resource, dashboard_origin,
}
use t3_spend.OAuth.Clients.{create_client, get_client, RequestFields, create_request}
use t3_spend.OAuth.Redirects.{redirect_uri_allowed, append_redirect_params}

-- The fields of a registration that are read; an entry that is no string is absent.
pub record RegisterBody : Type 0 where
  pub redirect_uris : Option (List (Option Text))
  pub client_name : Option Text

pub data RegisterReply : Type 0 where
  too_many_registrations not_json bad_uri_list uri_not_allowed : RegisterReply
  registered : OAuthClientRow → RegisterReply

-- The entries, if every one is a string.
unfoldable pub all_texts : List (Option Text) → Option (List Text)
all_texts [] = some []
all_texts (none ∷ us) = none
all_texts (some u ∷ us) = elim (all_texts us) [ none ↦ none | some rest ↦ some (u ∷ rest) ]

unfoldable pub uri_list : RegisterBody → Option (List Text)
unfolding all_texts
uri_list body = elim body.redirect_uris [
  | none ↦ none
  | some us ↦ if length us == 0 || ltb 10 (length us) then none else all_texts us
]

-- `body` is absent where the request is no JSON.
unfoldable pub register :
    OAuthEnv → Text → ℕ → Option RegisterBody → OAuthDb → RegisterReply × OAuthDb
unfolding uri_list create_client
register env fresh_id now none db = (not_json, db)
register env fresh_id now (some body) db = elim (uri_list body) [
  | none ↦ (bad_uri_list, db)
  | some uris ↦
      if all (redirect_uri_allowed env) uris
      then (
        registered (
            (create_client fresh_id uris
              (elim body.client_name [ none ↦ none | some n ↦ some (take 200 n) ]) now db).0),
        (create_client fresh_id uris
            (elim body.client_name [ none ↦ none | some n ↦ some (take 200 n) ]) now db).1,
      )
      else (uri_not_allowed, db)
]

-- The parameters of an authorization request.
pub record AuthorizeQuery : Type 0 where
  pub client_id : Option Text
  pub redirect_uri : Option Text
  pub response_type : Option Text
  pub response_mode : Option Text
  pub code_challenge : Option Text
  pub code_challenge_method : Option Text
  pub state : Option Text
  pub scope : Option Text
  pub resource : Option Text

pub data AuthorizeReply : Type 0 where
  too_many_requests unknown_client unregistered_redirect : AuthorizeReply
  redirect : Text → AuthorizeReply

abbrev longer_than : ℕ → Option Text → Bool
longer_than n none = false
longer_than n (some t) = ltb n (length t)

abbrev other_than : Text → Option Text → Bool
other_than t none = false
other_than t (some []) = false
other_than t (some (c ∷ s)) = not (text_eq (c ∷ s) t)

-- The first complaint about a request whose redirect is registered: the error that the client is told.
unfoldable pub complaint : OAuthEnv → AuthorizeQuery → Option Text
unfolding text_eq canonical_resource
complaint env q =
    if not (same_text q.response_type (codes "code"))
    then some (codes "unsupported_response_type")
    else if other_than (codes "query") q.response_mode
    then some (codes "invalid_request")
    else if not (is_some (truthy q.code_challenge)) || longer_than 256 q.code_challenge
    then some (codes "invalid_request")
    else if not (same_text q.code_challenge_method (codes "S256"))
    then some (codes "invalid_request")
    else if longer_than 2000 q.state
    then some (codes "invalid_request")
    else if longer_than 500 q.scope
    then some (codes "invalid_scope")
    else if other_than (canonical_resource env) q.resource
    then some (codes "invalid_target")
    else none

-- The text of the error's description is a parameter.
unfoldable pub failure_params : (Text → Text) → AuthorizeQuery → Text → List (Text × Text)
failure_params describe q error =
    (codes "error", error)
    ∷ (codes "error_description", describe error)
    ∷ elim (truthy q.state) [ none ↦ [] | some state ↦ (codes "state", state) ∷ [] ]

abbrev request_ttl_s : ℕ
request_ttl_s = 600

abbrev or_empty : Option Text → Text
or_empty none = []
or_empty (some t) = t

unfoldable pub request_fields : OAuthClientRow → Text → AuthorizeQuery → RequestFields
request_fields client uri q = record {
  client_id = client.client_id;
  redirect_uri = uri;
  code_challenge = or_empty q.code_challenge;
  resource = q.resource;
  scope = q.scope;
  state = q.state;
}

unfoldable pub consent_url : OAuthEnv → Text → Text
unfolding dashboard_origin
consent_url env request_id = dashboard_origin env ++ codes "/connect?request=" ++ request_id

-- A request whose client and redirect are registered.
unfoldable pub authorize_client :
    OAuthEnv
    → (Text → Text)
    → Text
    → ℕ
    → AuthorizeQuery
    → OAuthClientRow
    → Text
    → OAuthDb
    → AuthorizeReply × OAuthDb
unfolding complaint failure_params request_fields consent_url create_request
authorize_client env describe fresh_id now q client uri db = elim (complaint env q) [
  | some error ↦ (redirect (append_redirect_params env uri (failure_params describe q error)), db)
  | none ↦ (
    redirect (consent_url env fresh_id),
    create_request fresh_id (request_fields client uri q) request_ttl_s now db,
  )
]

-- The client, if it is known.
unfoldable pub known_client : AuthorizeQuery → OAuthDb → Option OAuthClientRow
known_client q db = elim (truthy q.client_id) [ none ↦ none | some id ↦ get_client id db ]

unfoldable pub authorize :
    OAuthEnv → (Text → Text) → Text → ℕ → AuthorizeQuery → OAuthDb → AuthorizeReply × OAuthDb
unfolding known_client has_text
authorize env describe fresh_id now q db = elim (known_client q db) [
  | none ↦ (unknown_client, db)
  | some client ↦ elim (truthy q.redirect_uri) [
    | none ↦ (unregistered_redirect, db)
    | some uri ↦
        if has_text client.redirect_uris uri
        then authorize_client env describe fresh_id now q client uri db
        else (unregistered_redirect, db)
  ]
]
