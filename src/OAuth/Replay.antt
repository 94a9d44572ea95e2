-- ===== src/OAuth/Replay.antt =====
-- The second use of a refresh token in packages/server/src/oauth/routes.ts.
use t3_spend.Prelude.{
  arith, ℕ, ◌+◌, ◌≤◌, ◌≡◌, refl, sym, ap, ◌∙◌, true, false, Option, some, ltb, ◌==◌, or_else,
  if◌then◌else◌, Bool-cases, Option-cases, inl, inr,
}
use t3_spend.Prelude.Lists.{find, filter, update, length}
use t3_spend.Prelude.Texts.{Text, text_eq, text_eq_sound}
use t3_spend.Store.{Store}
use t3_spend.Custody.{Vault, hash_card_secret}
use t3_spend.OAuth.{OAuthEnv, OAuthTokenRow, OAuthDb}
use t3_spend.OAuth.Tokens.{
  TokenDraws, TokenFields, create_token, revoke_where, revoke_family, get_by_refresh_token,
  claim_for_rotation, mint, kept_tokens, token_conflicts,
}
use t3_spend.OAuth.Exchange.{TokenReply, token_error, invalid_grant, reply_minted}
use t3_spend.OAuth.Refresh.{rotate, rotated_token, refresh_row, refresh_token}
use t3_spend.OAuth.SingleUse.{is_response}
use t3_spend.OAuth.Families.{
  IsDead, revoke_family-IsDead, has_refresh, is_claimed, revoked, find-rotated, fresh_refresh,
}

-- New tokens that were stored beside rows of the old refresh token.
create_token-found :
    (v : Vault) (draws : TokenDraws) (t : TokenFields) (later : ℕ) (db : OAuthDb)
    (scope : Option Text) (hash : Text) {old : OAuthTokenRow}
    → find (has_refresh hash) (kept_tokens later db.tokens) ≡ some old
    → is_response ((reply_minted scope (create_token v draws t later db)).0) ≡ true
    → find (has_refresh hash) ((reply_minted scope (create_token v draws t later db)).1.tokens)
      ≡ some old
unfolding reply_minted create_token
create_token-found v draws t later db scope hash {old} f granted =
    elim (Bool-cases (token_conflicts (mint v draws t later).row (kept_tokens later db.tokens))) [
      | inl conflict ↦ absurd (ground (arith, granted, conflict))
      | inr free ↦
          let new =
            fresh_refresh (mint v draws t later).row hash (kept_tokens later db.tokens) free f in
          rw free (rw new f)
    ]

-- The row as the claim leaves it, and the tokens beside it.
abbrev claimed_db : OAuthTokenRow → OAuthDb → OAuthDb
claimed_db row db = record db { tokens = update (is_claimed row.id) revoked db.tokens }

abbrev minting : OAuthEnv → TokenDraws → ℕ → OAuthTokenRow → OAuthDb → TokenReply × OAuthDb
minting env draws later row db =
    reply_minted row.scope
      (create_token env.vault draws (rotated_token env row) later (claimed_db row db))

rotate-minting :
    (env : OAuthEnv) (draws : TokenDraws) (later : ℕ) (row : OAuthTokenRow) (db : OAuthDb)
    → is_response ((rotate env draws later row db).0) ≡ true
    → rotate env draws later row db ≡ minting env draws later row db
unfolding rotate claim_for_rotation revoke_where
rotate-minting env draws later row db granted =
    elim (Bool-cases (length (filter (is_claimed row.id) db.tokens) == 1)) [
      | inr lost ↦ absurd (ground (arith, granted, lost))
      | inl claimed ↦ rw (rotate, claim_for_rotation, claimed) refl
    ]

rotate-found :
    (env : OAuthEnv) (draws : TokenDraws) (later : ℕ) (row : OAuthTokenRow) (db : OAuthDb)
    (hash : Text)
    → find (has_refresh hash) db.tokens ≡ some row
    → row.revoked ≡ false
    → ltb (or_else row.refresh_expires_at row.access_expires_at + 86400) later ≡ false
    → is_response ((rotate env draws later row db).0) ≡ true
    → find (has_refresh hash) ((rotate env draws later row db).1.tokens) ≡ some (revoked row)
rotate-found env draws later row db hash f live kept granted =
    let e = rotate-minting env draws later row db granted in
    ap (λ (x : TokenReply × OAuthDb). find (has_refresh hash) (x.1).tokens) e
    ∙ create_token-found env.vault draws (rotated_token env row) later (claimed_db row db) row.scope
        hash (find-rotated hash row.id later db.tokens f (ground (arith, live)) kept)
        (ap (λ (x : TokenReply × OAuthDb). is_response x.0) (sym e) ∙ granted)

refresh_token-rotate :
    (env : OAuthEnv) (draws : TokenDraws) (token client_id : Text) (now later : ℕ) (s : Store)
    (db : OAuthDb) (row : OAuthTokenRow)
    → get_by_refresh_token env.vault token db ≡ some row
    → is_response ((refresh_token env draws token client_id now later s db).0) ≡ true
    → refresh_token env draws token client_id now later s db ≡ rotate env draws later row db
unfolding refresh_token refresh_row
refresh_token-rotate env draws token client_id now later s db row found granted =
    ground (arith, granted, found)

-- The answer to a token whose row is revoked.
abbrev pub replay_answer : OAuthTokenRow → Text → OAuthDb → TokenReply × OAuthDb
replay_answer row client_id db = (
  token_error invalid_grant,
  if text_eq row.client_id client_id then revoke_family row.family_id db else db,
)

refresh_token-revoked :
    (env : OAuthEnv) (draws : TokenDraws) (token client_id : Text) (now later : ℕ) (s : Store)
    (db : OAuthDb) (row : OAuthTokenRow)
    → get_by_refresh_token env.vault token db ≡ some row
    → row.revoked ≡ true
    → refresh_token env draws token client_id now later s db ≡ replay_answer row client_id db
unfolding refresh_token revoke_family
refresh_token-revoked env draws token client_id now later s db row found gone =
    elim (Bool-cases (text_eq row.client_id client_id)) [
      | inl owner ↦ rw (refresh_token, refresh_row, found, owner, gone) refl
      | inr other ↦ rw (refresh_token, found, other) refl
    ]

-- What the first use found of its row.
refresh_token-checks :
    (env : OAuthEnv) (draws : TokenDraws) (token client_id : Text) (now later : ℕ) (s : Store)
    (db : OAuthDb) (row : OAuthTokenRow)
    → later ≤ now + 86400
    → get_by_refresh_token env.vault token db ≡ some row
    → is_response ((refresh_token env draws token client_id now later s db).0) ≡ true
    → (text_eq row.client_id client_id ≡ true)
      × (row.revoked ≡ false)
      × (ltb (or_else row.refresh_expires_at row.access_expires_at + 86400) later ≡ false)
unfolding refresh_token refresh_row
refresh_token-checks env draws token client_id now later s db row soon found granted = (
  ground (arith, granted, found),
  ground (arith, granted, found),
  elim (Option-cases row.refresh_expires_at) [
    | inl never ↦ ground (arith, granted, found, never, soon)
    | inr (t, ends) ↦ ground (arith, granted, found, ends, soon)
  ],
)

-- A refresh token that was rotated is refused when anyone presents it to the database that its first
-- use left, and no new tokens are made. If it comes from the client that owns it, every token of its
-- family, those of the first use included, is revoked; for another client the database stays as it is.
-- The first use wrote its rows within a day of its checks.
pub refresh_token-replay :
    (env : OAuthEnv) (draws draws' : TokenDraws) (token client_id client_id' : Text)
    (now later now' later' : ℕ) (s s' : Store) (db : OAuthDb)
    → later ≤ now + 86400
    → is_response ((refresh_token env draws token client_id now later s db).0) ≡ true
    → (row : OAuthTokenRow) × (get_by_refresh_token env.vault token db ≡ some row)
      × (row.client_id ≡ client_id)
      × (refresh_token env draws' token client_id' now' later' s'
            ((refresh_token env draws token client_id now later s db).1)
          ≡ replay_answer row client_id'
              ((refresh_token env draws token client_id now later s db).1))
      × IsDead row.family_id (
          (replay_answer row client_id
            ((refresh_token env draws token client_id now later s db).1)).1)
unfolding get_by_refresh_token
refresh_token-replay env draws draws' token client_id client_id' now later now' later' s s' db soon
      granted =
    elim (Option-cases (get_by_refresh_token env.vault token db)) [
      | inl missing ↦ absurd (unfold refresh_token in ground (arith, granted, missing))
      | inr (row, found) ↦
          let (owner, live, kept) =
            refresh_token-checks env draws token client_id now later s db row soon found granted in
          let e = refresh_token-rotate env draws token client_id now later s db row found granted in
          let rotated =
            rotate-found env draws later row db (hash_card_secret env.vault token) found live kept
              (ap (λ (x : TokenReply × OAuthDb). is_response x.0) (sym e) ∙ granted) in
          (
            row,
            found,
            text_eq_sound row.client_id client_id owner,
            refresh_token-revoked env draws' token client_id' now' later' s' _ (revoked row)
                (ap
                    (λ (x : TokenReply × OAuthDb).
                      find (has_refresh (hash_card_secret env.vault token)) (x.1).tokens)
                    e
                  ∙ rotated)
                refl,
            rw (owner) (revoke_family-IsDead row.family_id _),
          )
    ]
