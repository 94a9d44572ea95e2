-- ===== src/OAuth/Redirects.antt =====
-- The redirects of packages/server/src/oauth/routes.ts: which a client may register, and how parameters
-- are appended.
use t3_spend.Prelude.{
  Bool, true, false, ◌||◌, none, some, List, [], ◌∷◌, ◌++◌, map, ltb, if◌then◌else◌,
}
use t3_spend.Prelude.Lists.{length, contains}
use t3_spend.Prelude.Texts.{Text, codes, text_eq, has_text}
use t3_spend.OAuth.{OAuthEnv, Url, listed}

unfoldable pub is_loopback : Text → Bool
unfolding text_eq
is_loopback host =
    text_eq host (codes "localhost")
    || text_eq host (codes "127.0.0.1")
    || text_eq host (codes "[::1]")

abbrev has_no_hosts : List Text → Bool
has_no_hosts [] = true
has_no_hosts (x ∷ xs) = false

-- By the scheme: loopback hosts over http, the hosts that the setting names over https, if it names
-- some, and any other scheme.
unfoldable pub url_allowed : OAuthEnv → Url → Bool
unfolding is_loopback has_text text_eq listed
url_allowed env url =
    if text_eq url.protocol (codes "http:")
    then is_loopback url.hostname || is_loopback (codes "[" ++ url.hostname ++ codes "]")
    else if text_eq url.protocol (codes "https:")
    then has_no_hosts (listed env.redirect_hosts)
      || has_text (listed env.redirect_hosts) url.hostname
    else true

unfoldable pub redirect_uri_allowed : OAuthEnv → Text → Bool
unfolding url_allowed
redirect_uri_allowed env uri =
    if ltb 2000 (length uri) || contains 35 uri
    then false
    else elim (env.parse_url uri) [ none ↦ false | some url ↦ url_allowed env url ]

abbrev encode_pair : OAuthEnv → Text × Text → Text
encode_pair env (k, v) = env.encode_uri_component k ++ codes "=" ++ env.encode_uri_component v

-- `.join("&")`
unfoldable pub join_pairs : List Text → Text
join_pairs [] = []
join_pairs (p ∷ []) = p
join_pairs (p ∷ q ∷ ps) = p ++ codes "&" ++ join_pairs (q ∷ ps)

unfoldable pub append_query : Text → Text → Text
append_query uri [] = uri
append_query uri (c ∷ qs) = uri ++ (if contains 63 uri then codes "&" else codes "?") ++ c ∷ qs

unfoldable pub append_redirect_params : OAuthEnv → Text → List (Text × Text) → Text
unfolding append_query join_pairs
append_redirect_params env uri params = append_query uri (join_pairs (map (encode_pair env) params))
