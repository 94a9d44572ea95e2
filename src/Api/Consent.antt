-- ===== src/Api/Consent.antt =====
-- The consent page's calls in packages/server/src/api/routes.ts: a user approves or denies an
-- authorization request that is under way. The code is drawn at random.
use t3_spend.Prelude.{ℕ, Bool, true, false, Option, none, some, List, [], ◌∷◌, if◌then◌else◌}
use t3_spend.Prelude.Texts.{Text, codes}
use t3_spend.Prelude.Failures.{refusal, invalid_terms, card_revoked, Result, ok, err}
use t3_spend.Types.{CardId, UserId}
use t3_spend.Store.{CardRow, Store}
use t3_spend.Types.{LiveStatus}
use t3_spend.Spend.Balance.{card_state}
use t3_spend.Spend.Validate.{truthy}
use t3_spend.OAuth.{OAuthEnv, OAuthRequestRow, OAuthDb}
use t3_spend.OAuth.Clients.{get_request, bind_request_user, delete_request}
use t3_spend.OAuth.Codes.{CodeFields, create_code}
use t3_spend.OAuth.Redirects.{append_redirect_params}
use t3_spend.Api.{AuthCtx, Reply, done, forbidden, failed, ApiState, scoped_user_id, owned_card}

-- `ownedRequest`: the request, claimed for the user or refused as if it were not there.
unfoldable pub owned_request :
    AuthCtx → UserId → Text → ℕ → Store → OAuthDb → Reply OAuthRequestRow × OAuthDb
unfolding scoped_user_id
owned_request auth requested id now s db = elim (get_request id now db) [
  | none ↦ (failed (refusal invalid_terms), db)
  | some r ↦ elim (scoped_user_id auth requested s) [
    | forbidden ↦ (forbidden, db)
    | failed e ↦ (failed e, db)
    | done user ↦ elim ((bind_request_user id user now db).0) [
      | false ↦ (failed (refusal invalid_terms), (bind_request_user id user now db).1)
      | true ↦ (done r, (bind_request_user id user now db).1)
    ]
  ]
]

-- Revoked, nuked or expired.
abbrev pub is_over : LiveStatus → Bool
is_over LiveStatus.revoked = true
is_over LiveStatus.nuked = true
is_over LiveStatus.expired = true
is_over _ = false

abbrev pub code_ttl_s : ℕ
code_ttl_s = 120

unfoldable pub approved_code : OAuthRequestRow → CardRow → CodeFields
approved_code r card = record {
  client_id = r.client_id;
  redirect_uri = r.redirect_uri;
  code_challenge = r.code_challenge;
  card_id = card.id;
  user_id = card.user_id;
  resource = r.resource;
  scope = r.scope;
}

abbrev pub with_state : OAuthRequestRow → List (Text × Text)
with_state r = elim (truthy r.state) [ none ↦ [] | some state ↦ (codes "state", state) ∷ [] ]

unfoldable pub reply_code :
    OAuthEnv → OAuthRequestRow → Result Text × OAuthDb → Reply Text × OAuthDb
reply_code env r (ok code, db) =
    (done (append_redirect_params env r.redirect_uri ((codes "code", code) ∷ with_state r)), db)
reply_code env r (err e, db) = (failed e, db)

-- The request is deleted before the code is made.
unfoldable pub approve_card :
    OAuthEnv → Text → Text → ℕ → OAuthRequestRow → CardRow → Store → OAuthDb → Reply Text × OAuthDb
unfolding reply_code approved_code
approve_card env code id now r card s db = elim (card_state s card.id now) [
  | err e ↦ (failed e, db)
  | ok none ↦ (failed (refusal card_revoked), db)
  | ok (some state) ↦
      if is_over state.status
      then (failed (refusal card_revoked), db)
      else reply_code env r
          (create_code env.vault code (approved_code r card) code_ttl_s now (delete_request id db))
]

unfoldable pub approve_request :
    OAuthEnv → Text → AuthCtx → UserId → Text → CardId → ℕ → Store → OAuthDb → Reply Text × OAuthDb
unfolding owned_request approve_card owned_card
approve_request env code auth requested id card_id now s db =
    let (request, db') = owned_request auth requested id now s db in
    elim request [
      | forbidden ↦ (forbidden, db')
      | failed e ↦ (failed e, db')
      | done r ↦ elim (owned_card auth card_id s) [
        | forbidden ↦ (forbidden, db')
        | failed e ↦ (failed e, db')
        | done card ↦ approve_card env code id now r card s db'
      ]
    ]

-- The body's fields, absent where they are missing or empty.
unfoldable pub approve :
    OAuthEnv
    → Text
    → AuthCtx
    → UserId
    → Option Text
    → Option CardId
    → ℕ
    → ApiState
    → Reply Text × ApiState
unfolding approve_request
approve env code auth requested (some id) (some card_id) now a =
    let (reply, db) = approve_request env code auth requested id card_id now a.store a.oauth in
    (reply, record a { oauth = db })
approve env code auth requested _ _ now a = (failed (refusal invalid_terms), a)

abbrev denial : OAuthRequestRow → List (Text × Text)
denial r =
    (codes "error", codes "access_denied")
    ∷ (codes "error_description", codes "the user denied the request")
    ∷ with_state r

unfoldable pub deny :
    OAuthEnv → AuthCtx → UserId → Option Text → ℕ → ApiState → Reply Text × ApiState
unfolding owned_request
deny env auth requested none now a = (failed (refusal invalid_terms), a)
deny env auth requested (some id) now a =
    let (request, db) = owned_request auth requested id now a.store a.oauth in
    elim request [
      | forbidden ↦ (forbidden, record a { oauth = db })
      | failed e ↦ (failed e, record a { oauth = db })
      | done r ↦ (
        done (append_redirect_params env r.redirect_uri (denial r)),
        record a { oauth = delete_request id db },
      )
    ]
