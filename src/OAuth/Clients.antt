-- ===== src/OAuth/Clients.antt =====
-- The clients and the requests under way in packages/server/src/oauth/store.ts. An id that is drawn at
-- random is taken to be new to its table.
use t3_spend.Prelude.{
  ℕ, ◌+◌, Bool, true, false, not, ◌&&◌, Option, none, some, List, ◌∷◌, ltb, ◌==◌, if◌then◌else◌,
}
use t3_spend.Prelude.Lists.{any, find, filter, update}
use t3_spend.Prelude.Texts.{Text, text_eq}
use t3_spend.Types.{UserId}
use t3_spend.OAuth.{OAuthClientRow, OAuthRequestRow, OAuthTokenRow, OAuthDb}

-- A client that never produced a token ages out after 30 days.
unfoldable pub is_idle_client : ℕ → List OAuthTokenRow → OAuthClientRow → Bool
unfolding text_eq
is_idle_client now tokens c =
    ltb (c.created_at + 2592000) now && not (any (λ t. text_eq t.client_id c.client_id) tokens)

-- `client_id` is drawn at random.
unfoldable pub create_client :
    Text → List Text → Option Text → ℕ → OAuthDb → OAuthClientRow × OAuthDb
unfolding is_idle_client
create_client client_id uris name now db =
    let row : OAuthClientRow = record {
      client_id = client_id;
      redirect_uris = uris;
      client_name = name;
      created_at = now;
    } in
    (
      row,
      record db { clients = filter (λ c. not (is_idle_client now db.tokens c)) (row ∷ db.clients) },
    )

unfoldable pub get_client : Text → OAuthDb → Option OAuthClientRow
unfolding text_eq
get_client id db = find (λ c. text_eq c.client_id id) db.clients

pub record RequestFields : Type 0 where
  pub client_id : Text
  pub redirect_uri : Text
  pub code_challenge : Text
  pub resource : Option Text
  pub scope : Option Text
  pub state : Option Text

-- The requests that have run out go first.
unfoldable pub create_request : Text → RequestFields → ℕ → ℕ → OAuthDb → OAuthDb
create_request id r ttl now db = record db {
  requests =
      record {
        request_id = id;
        client_id = r.client_id;
        redirect_uri = r.redirect_uri;
        code_challenge = r.code_challenge;
        resource = r.resource;
        scope = r.scope;
        state = r.state;
        user_id = none;
        expires_at = now + ttl;
      }
      ∷ filter (λ q. not (ltb q.expires_at now)) db.requests;
}

unfoldable pub unexpired : ℕ → Option OAuthRequestRow → Option OAuthRequestRow
unexpired now none = none
unexpired now (some r) = if ltb r.expires_at now then none else some r

unfoldable pub get_request : Text → ℕ → OAuthDb → Option OAuthRequestRow
unfolding text_eq unexpired
get_request id now db = unexpired now (find (λ r. text_eq r.request_id id) db.requests)

unfoldable pub set_request_user : Text → UserId → OAuthDb → OAuthDb
unfolding text_eq
set_request_user id user db = record db {
  requests =
      update (λ r. text_eq r.request_id id) (λ r. record r { user_id = some user }) db.requests;
}

-- The first user to load a request claims it.
unfoldable pub bind_request_user : Text → UserId → ℕ → OAuthDb → Bool × OAuthDb
unfolding get_request set_request_user
bind_request_user id user now db = elim (get_request id now db) [
  | none ↦ (false, db)
  | some r ↦ elim r.user_id [
    | none ↦ (true, set_request_user id user db)
    | some u ↦ (u == user, db)
  ]
]

unfoldable pub delete_request : Text → OAuthDb → OAuthDb
unfolding text_eq
delete_request id db = record db {
  requests = filter (λ r. not (text_eq r.request_id id)) db.requests;
}
