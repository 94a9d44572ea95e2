-- ===== src/OAuth/SingleUse.antt =====
-- Authorization codes of packages/server/src/oauth over the life of the database.
use t3_spend.Prelude.{
  arith, ℕ, ◌+◌, ◌≤◌, ◌≡◌, refl, ap, ◌∙◌, Bool, true, false, not, Option, List, [], ◌∷◌, ltb,
}
use t3_spend.Prelude.Lists.{any, filter, update, length}
use t3_spend.Prelude.Texts.{Text, text_eq}
use t3_spend.Types.{UserId}
use t3_spend.Store.{Store}
use t3_spend.Custody.{Vault, hash_card_secret}
use t3_spend.OAuth.{OAuthEnv, OAuthCodeRow, OAuthTokenRow, OAuthDb}
use t3_spend.OAuth.Clients.{
  create_client, RequestFields, create_request, set_request_user, bind_request_user, delete_request,
}
use t3_spend.OAuth.Codes.{CodeFields, kept_codes, create_code, is_claimable, claim_code}
use t3_spend.OAuth.Tokens.{TokenDraws, TokenFields, create_token, revoke_where, claim_for_rotation}
use t3_spend.OAuth.Exchange.{
  TokenForm, TokenReply, token_response, reply_minted, claim_and_mint, exchange_code,
}

-- One call of the store.
pub data OAuthStep : OAuthDb → OAuthDb → Type 0 where
  client_created :
      (id : Text) (uris : List Text) (name : Option Text) (now : ℕ) (db : OAuthDb)
      → OAuthStep db ((create_client id uris name now db).1)
  request_created :
      (id : Text) (r : RequestFields) (ttl now : ℕ) (db : OAuthDb)
      → OAuthStep db (create_request id r ttl now db)
  request_bound :
      (id : Text) (user : UserId) (now : ℕ) (db : OAuthDb)
      → OAuthStep db ((bind_request_user id user now db).1)
  request_deleted : (id : Text) (db : OAuthDb) → OAuthStep db (delete_request id db)
  code_created :
      (v : Vault) (code : Text) (c : CodeFields) (ttl now : ℕ) (db : OAuthDb)
      → OAuthStep db ((create_code v code c ttl now db).1)
  code_claimed :
      (v : Vault) (code : Text) (now : ℕ) (db : OAuthDb)
      → OAuthStep db ((claim_code v code now db).1)
  tokens_revoked : (p : OAuthTokenRow → Bool) (db : OAuthDb) → OAuthStep db (revoke_where p db)
  token_created :
      (v : Vault) (draws : TokenDraws) (t : TokenFields) (now : ℕ) (db : OAuthDb)
      → OAuthStep db ((create_token v draws t now db).1)
  rotation_claimed : (id : ℕ) (db : OAuthDb) → OAuthStep db ((claim_for_rotation id db).1)

-- The step mints no code with the hash.
abbrev pub Spares : Text → {db db' : OAuthDb} → OAuthStep db db' → Type 0
Spares hash (code_created v code c ttl now db) = text_eq (hash_card_secret v code) hash ≡ false
Spares hash _ = Unit

-- Calls of the store, none of which mints a code with the hash.
pub data Later (hash : Text) : OAuthDb → OAuthDb → Type 0 where
  same : {db : OAuthDb} → Later hash db db
  followed :
      {a b c : OAuthDb} → Later hash a b → (s : OAuthStep b c) → Spares hash s → Later hash a c

-- No code with the hash can be claimed from the moment on.
abbrev Spent : Text → ℕ → OAuthDb → Type 0
Spent hash since db = (t : ℕ) → since ≤ t → any (is_claimable hash t) db.codes ≡ false

any-filter {ℓ} :
    {A : Type ℓ} (p q : A → Bool) (xs : List A) → any p xs ≡ false → any p (filter q xs) ≡ false
any-filter p q [] h = refl
any-filter p q (x ∷ xs) h = ground (arith, any-filter p q xs)

claimed-Spent :
    (h hash : Text) (now : ℕ) (cs : List OAuthCodeRow) (t : ℕ)
    → any (is_claimable hash t) cs ≡ false
    → any (is_claimable hash t) (update (is_claimable h now) (λ c. record c { used = true }) cs)
      ≡ false
unfolding is_claimable
claimed-Spent h hash now [] t s = refl
claimed-Spent h hash now (c ∷ cs) t s = ground (arith, claimed-Spent h hash now cs t)

claim_code-Spent :
    (hash : Text) (now : ℕ) (cs : List OAuthCodeRow) (t : ℕ)
    → now ≤ t
    → any (is_claimable hash t) (update (is_claimable hash now) (λ c. record c { used = true }) cs)
      ≡ false
unfolding is_claimable
claim_code-Spent hash now [] t h = refl
claim_code-Spent hash now (c ∷ cs) t h = ground (arith, claim_code-Spent hash now cs t)

create_code-Spent :
    (hash : Text) (since : ℕ) (v : Vault) (code : Text) (c : CodeFields) (ttl now : ℕ)
    (db : OAuthDb)
    → text_eq (hash_card_secret v code) hash ≡ false
    → Spent hash since db
    → Spent hash since ((create_code v code c ttl now db).1)
unfolding create_code kept_codes is_claimable
create_code-Spent hash since v code c ttl now db other s t h =
    let kept =
      any-filter (is_claimable hash t) (λ r. not (ltb (r.expires_at + 3600) now)) db.codes
        (s t h) in
    ground (arith, kept)

bind_request_user-codes :
    (id : Text) (user : UserId) (now : ℕ) (db : OAuthDb)
    → (bind_request_user id user now db).1.codes ≡ db.codes
unfolding bind_request_user set_request_user
bind_request_user-codes id user now db = ground arith

create_token-codes :
    (v : Vault) (draws : TokenDraws) (t : TokenFields) (now : ℕ) (db : OAuthDb)
    → (create_token v draws t now db).1.codes ≡ db.codes
unfolding create_token
create_token-codes v draws t now db = ground arith

Step-Spent :
    (hash : Text) (since : ℕ) {db db' : OAuthDb} (step : OAuthStep db db')
    → Spares hash step
    → Spent hash since db
    → Spent hash since db'
unfolding create_client create_request delete_request claim_code revoke_where claim_for_rotation
Step-Spent hash since (client_created id uris name now db) k s t h = s t h
Step-Spent hash since (request_created id r ttl now db) k s t h = s t h
Step-Spent hash since (request_bound id user now db) k s t h =
    ap (any (is_claimable hash t)) (bind_request_user-codes id user now db) ∙ s t h
Step-Spent hash since (request_deleted id db) k s t h = s t h
Step-Spent hash since (code_created v code c ttl now db) k s t h =
    create_code-Spent hash since v code c ttl now db k s t h
Step-Spent hash since (code_claimed v code now db) k s t h =
    claimed-Spent (hash_card_secret v code) hash now db.codes t (s t h)
Step-Spent hash since (tokens_revoked p db) k s t h = s t h
Step-Spent hash since (token_created v draws f now db) k s t h =
    ap (any (is_claimable hash t)) (create_token-codes v draws f now db) ∙ s t h
Step-Spent hash since (rotation_claimed id db) k s t h = s t h

Later-Spent :
    (hash : Text) (since : ℕ) {db db' : OAuthDb}
    → Later hash db db'
    → Spent hash since db
    → Spent hash since db'
Later-Spent hash since same s = s
Later-Spent hash since (followed before step k) s =
    Step-Spent hash since step k (Later-Spent hash since before s)

-- The reply carries tokens.
abbrev pub is_response : TokenReply → Bool
is_response (token_response minted scope) = true
is_response _ = false

filter-none {ℓ} :
    {A : Type ℓ} (p : A → Bool) (xs : List A) → any p xs ≡ false → length (filter p xs) ≡ 0
filter-none p [] h = refl
filter-none p (x ∷ xs) h = ground (arith, filter-none p xs)

-- A code that cannot be claimed is not exchanged.
exchange_code-Spent :
    (env : OAuthEnv) (draws : TokenDraws) (form : TokenForm) (code verifier client_id : Text)
    (now later since : ℕ) (s : Store) (db : OAuthDb)
    → Spent (hash_card_secret env.vault code) since db
    → since ≤ later
    → is_response ((exchange_code env draws form code verifier client_id now later s db).0) ≡ false
unfolding exchange_code claim_and_mint claim_code
exchange_code-Spent env draws form code verifier client_id now later since s db spent h =
    let nothing =
      filter-none (is_claimable (hash_card_secret env.vault code) later) db.codes (spent later h) in
    ground (arith, nothing)

-- What an exchange that grants tokens leaves: its code cannot be claimed again.
exchange_code-spends :
    (env : OAuthEnv) (draws : TokenDraws) (form : TokenForm) (code verifier client_id : Text)
    (now later : ℕ) (s : Store) (db : OAuthDb)
    → is_response ((exchange_code env draws form code verifier client_id now later s db).0) ≡ true
    → Spent
        (hash_card_secret env.vault code)
        later
        ((exchange_code env draws form code verifier client_id now later s db).1)
unfolding exchange_code claim_and_mint claim_code reply_minted create_token
exchange_code-spends env draws form code verifier client_id now later s db granted t h =
    ground (arith, claim_code-Spent (hash_card_secret env.vault code) later db.codes t h)

-- A code is exchanged for tokens at most once: after an exchange that granted some, and whatever calls of
-- the store follow, as long as none mints the same code, no later exchange of that code grants any,
-- whoever presents it.
pub exchange_code-once :
    (env : OAuthEnv) (draws draws' : TokenDraws) (form form' : TokenForm)
    (code verifier verifier' client_id client_id' : Text) (now later now' later' : ℕ) (s s' : Store)
    (db db' : OAuthDb)
    → is_response ((exchange_code env draws form code verifier client_id now later s db).0) ≡ true
    → Later
        (hash_card_secret env.vault code)
        ((exchange_code env draws form code verifier client_id now later s db).1)
        db'
    → later ≤ later'
    → is_response ((exchange_code env draws' form' code verifier' client_id' now' later' s' db').0)
      ≡ false
exchange_code-once env draws draws' form form' code verifier verifier' client_id client_id' now
      later now' later' s s' db db' granted then_on h =
    exchange_code-Spent env draws' form' code verifier' client_id' now' later' later s' db'
      (Later-Spent (hash_card_secret env.vault code) later then_on
        (exchange_code-spends env draws form code verifier client_id now later s db granted))
      h
