-- ===== src/OAuth.antt =====
-- packages/server/src/oauth: the authorization server of the MCP endpoint. The rows of its tables and the
-- settings are here; the operations of the tables and the endpoints are in the modules below, and so are
-- the proofs. A table lists its rows from the newest to the oldest.
pub mod Clients
pub mod Codes
pub mod Tokens
pub mod Redirects
pub mod Authorize
pub mod Exchange
pub mod Refresh
pub mod Endpoints
pub mod SingleUse
pub mod Families
pub mod Replay
pub mod Granted
pub mod Binding
use t3_spend.Prelude.{
  ℕ, ◌+◌, Bool, true, false, ◌&&◌, Option, none, some, List, [], ◌∷◌, ◌++◌, map, ◌==◌,
  if◌then◌else◌, or_else,
}
use t3_spend.Prelude.Lists.{filter}
use t3_spend.Prelude.Texts.{Text, codes, text_eq}
use t3_spend.Types.{CardId, UserId}
use t3_spend.Custody.{Vault}
use t3_spend.Money.{trim}
use t3_spend.RateLimit.{RateLimiter, split_commas, non_empty}

pub record OAuthClientRow : Type 0 where
  pub client_id : Text
  pub redirect_uris : List Text
  pub client_name : Option Text
  pub created_at : ℕ

pub record OAuthRequestRow : Type 0 where
  pub request_id : Text
  pub client_id : Text
  pub redirect_uri : Text
  pub code_challenge : Text
  pub resource : Option Text
  pub scope : Option Text
  pub state : Option Text
  pub user_id : Option UserId
  pub expires_at : ℕ

pub record OAuthCodeRow : Type 0 where
  pub code_hash : Text
  pub client_id : Text
  pub redirect_uri : Text
  pub code_challenge : Text
  pub card_id : CardId
  pub user_id : UserId
  pub resource : Option Text
  pub scope : Option Text
  pub used : Bool
  pub expires_at : ℕ

pub record OAuthTokenRow : Type 0 where
  pub id : ℕ
  pub family_id : ℕ
  pub access_hash : Text
  pub refresh_hash : Option Text
  pub card_id : CardId
  pub user_id : UserId
  pub client_id : Text
  pub resource : Option Text
  pub scope : Option Text
  pub code_hash : Option Text
  pub access_expires_at : ℕ
  pub refresh_expires_at : Option ℕ
  pub revoked : Bool
  pub created_at : ℕ

pub record OAuthDb : Type 0 where
  pub clients : List OAuthClientRow
  pub requests : List OAuthRequestRow
  pub codes : List OAuthCodeRow
  pub tokens : List OAuthTokenRow

-- The parts of a URL that are looked at.
pub record Url : Type 0 where
  pub protocol : Text
  pub hostname : Text

-- The environment's settings, and what the code calls of the runtime.
pub record OAuthEnv : Type 0 where
  pub vault : Vault
  pub public_mcp_base : Option Text
  pub port : Option Text
  pub dashboard_base : Option Text
  pub redirect_hosts : Option Text
  pub accepted_resources : Option Text
  pub access_ttl : ℕ
  pub refresh_ttl : ℕ
  -- `new URL(uri)`, `none` where it throws
  pub parse_url : Text → Option Url
  pub encode_uri_component : Text → Text
  -- the base64url SHA-256 digest
  pub b64url_sha256 : Text → Text

-- Equality with a column that may be null.
abbrev pub same_text : Option Text → Text → Bool
same_text none t = false
same_text (some a) t = text_eq a t

-- `s.replace(/\/+$/, "")`
unfoldable pub strip_slashes : Text → Text
strip_slashes [] = []
strip_slashes (c ∷ s) =
    let rest = strip_slashes s in
    elim rest [ [] ↦ if c == 47 then [] else c ∷ [] | d ∷ t ↦ c ∷ d ∷ t ]

unfoldable pub public_base : OAuthEnv → Text
unfolding strip_slashes
public_base env =
    strip_slashes
      (or_else env.public_mcp_base (codes "http://localhost:" ++ or_else env.port (codes "4070")))

unfoldable pub canonical_resource : OAuthEnv → Text
unfolding public_base
canonical_resource env = public_base env ++ codes "/mcp"

unfoldable pub dashboard_origin : OAuthEnv → Text
unfolding strip_slashes
dashboard_origin env = strip_slashes (or_else env.dashboard_base (codes "http://localhost:4071"))

-- `(s ?? "").split(",").map(trim).filter(Boolean)`
unfoldable pub listed : Option Text → List Text
unfolding split_commas
listed setting = filter non_empty (map trim (split_commas (or_else setting [])))

unfoldable pub accepted_resource_list : OAuthEnv → List Text
unfolding canonical_resource listed
accepted_resource_list env = canonical_resource env ∷ listed env.accepted_resources
