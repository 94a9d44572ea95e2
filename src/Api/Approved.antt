-- ===== src/Api/Approved.antt =====
-- The consent that packages/server/src/api/routes.ts records, and the exchange of its code in
-- packages/server/src/oauth/routes.ts.
use t3_spend.Store.{UserRow}
use t3_spend.Store.Users.{get_user_by_privy_did}
use t3_spend.Store.Cards.{get_card}
use t3_spend.Api.{admin, privy, bound_user, card_of_user}
use t3_spend.Prelude.{
  ==_iff, ◌⊎◌, ◌==◌, arith, ℕ, ◌+◌, ◌≡◌, refl, sym, ap, ◌∙◌, Bool, true, false, not, none, some,
  List, [], ◌∷◌, Bool-cases, Option-cases, inl, inr,
}
use t3_spend.Prelude.Lists.{any, find, filter}
use t3_spend.Prelude.Texts.{Text, text_eq, text_eq_refl}
use t3_spend.Prelude.Failures.{Result, ok, err, Result-cases}
use t3_spend.Types.{CardId, UserId}
use t3_spend.Store.{CardRow, Store}
use t3_spend.Types.{CardState}
use t3_spend.Spend.Balance.{card_state}
use t3_spend.Custody.{hash_card_secret}
use t3_spend.OAuth.{OAuthEnv, OAuthRequestRow, OAuthDb}
use t3_spend.OAuth.Clients.{get_request, unexpired, bind_request_user, delete_request}
use t3_spend.OAuth.Codes.{CodeFields, code_row, kept_codes, get_code_row, create_code}
use t3_spend.Api.{AuthCtx, Reply, done, Reply-cases, scoped_user_id, owned_card}
use t3_spend.Api.Consent.{
  is_over, code_ttl_s, approved_code, reply_code, owned_request, approve_card, approve_request,
}

-- Whom a request acts for and whose card it may name: a session acts for the user that its DID is
-- bound to, with a card of that user; the operator acts for the user it picks, with any card.
abbrev pub ActsFor : AuthCtx → UserId → Store → UserId → CardRow → Type 0
ActsFor admin requested s user card = user ≡ requested
ActsFor (privy did) requested s user card =
    (u : UserRow) × (get_user_by_privy_did did s ≡ some u) × (user ≡ u.id) × (card.user_id ≡ u.id)

-- What a user's approval of a request rests on, and what it leaves.
pub record Approval (env : OAuthEnv) (code : Text) (auth : AuthCtx) (requested : UserId) (id : Text)
    (card_id : CardId) (now : ℕ) (s : Store) (db db' : OAuthDb) (r : OAuthRequestRow)
    (card : CardRow) : Type 0 where
  pub request : get_request id now db ≡ some r
  pub user : UserId
  pub unclaimed_or_own : (r.user_id ≡ none) ⊎ (r.user_id ≡ some user)
  pub found : get_card card_id s ≡ some card
  pub acts : ActsFor auth requested s user card
  pub state : CardState
  pub alive : card_state s card.id now ≡ ok (some state)
  pub not_over : is_over state.status ≡ false
  pub coded :
      get_code_row env.vault code db'
      ≡ some (code_row (hash_card_secret env.vault code) (approved_code r card) (now + code_ttl_s))
  pub gone : (t : ℕ) → get_request id t db' ≡ none

find-removed {ℓ} :
    {A : Type ℓ} (p : A → Bool) (xs : List A) → find p (filter (λ x. not (p x)) xs) ≡ none
find-removed p [] = refl
find-removed p (x ∷ xs) = ground (arith, find-removed p xs)

owned_request-inv :
    (auth : AuthCtx) (requested : UserId) (id : Text) (now : ℕ) (s : Store) (db : OAuthDb)
    {r : OAuthRequestRow}
    → (owned_request auth requested id now s db).0 ≡ done r
    → (get_request id now db ≡ some r)
      × (user : UserId) × (scoped_user_id auth requested s ≡ done user)
      × ((bind_request_user id user now db).0 ≡ true)
unfolding owned_request
owned_request-inv auth requested id now s db {r} h = elim (Option-cases (get_request id now db)) [
  | inl missing ↦ absurd (ground (arith, h, missing))
  | inr (q, found) ↦ elim (Reply-cases (scoped_user_id auth requested s)) [
    | inl (user, acts) ↦ elim (Bool-cases ((bind_request_user id user now db).0)) [
      | inl bound ↦ (ground (arith, h, found, acts, bound), user, acts, bound)
      | inr other ↦ absurd (ground (arith, h, found, acts, other))
    ]
    | inr (inl e) ↦ absurd (ground (arith, h, found, e))
    | inr (inr (e, thrown)) ↦ absurd (ground (arith, h, found, thrown))
  ]
]

create_code-stores :
    (env : OAuthEnv) (code : Text) (c : CodeFields) (ttl now : ℕ) (db : OAuthDb) {t : Text}
    → (create_code env.vault code c ttl now db).0 ≡ ok t
    → (get_code_row env.vault code ((create_code env.vault code c ttl now db).1)
        ≡ some (code_row (hash_card_secret env.vault code) c (now + ttl)))
      × ((create_code env.vault code c ttl now db).1.requests ≡ db.requests)
unfolding create_code get_code_row
create_code-stores env code c ttl now db {t} h =
    elim (Bool-cases (
      any (λ r. text_eq r.code_hash (hash_card_secret env.vault code)) (kept_codes now db.codes))) [
        | inl taken ↦ absurd (ground (arith, h, taken))
        | inr fresh ↦
            let same = text_eq_refl (hash_card_secret env.vault code) in
            (ground (arith, fresh, same), ground (arith, fresh))
      ]

get_request-deleted :
    (id : Text) (t : ℕ) (db db' : OAuthDb)
    → db'.requests ≡ (delete_request id db).requests
    → get_request id t db' ≡ none
unfolding get_request unexpired delete_request
get_request-deleted id t db db' same =
    let gone = find-removed (λ (q : OAuthRequestRow). text_eq q.request_id id) db.requests in
    rw (same, gone) refl

reply_code-writes :
    (env : OAuthEnv) (r : OAuthRequestRow) (x : Result Text × OAuthDb)
    → (reply_code env r x).1 ≡ x.1
unfolding reply_code
reply_code-writes env r (ok code, db) = refl
reply_code-writes env r (err e, db) = refl

-- What an approval of a card that is alive writes.
approve_card-writes :
    (env : OAuthEnv) (code id : Text) (now : ℕ) (r : OAuthRequestRow) (card : CardRow) (s : Store)
    (db : OAuthDb) {state : CardState}
    → card_state s card.id now ≡ ok (some state)
    → is_over state.status ≡ false
    → (approve_card env code id now r card s db).1
      ≡ (create_code env.vault code (approved_code r card) code_ttl_s now (delete_request id db)).1
unfolding approve_card
approve_card-writes env code id now r card s db alive fine =
    rw (approve_card, alive, fine) (reply_code-writes env r _)

-- An approved card is alive; its code is on record, and the request is gone.
approve_card-inv :
    (env : OAuthEnv) (code id : Text) (now : ℕ) (r : OAuthRequestRow) (card : CardRow) (s : Store)
    (db : OAuthDb) {url : Text}
    → (approve_card env code id now r card s db).0 ≡ done url
    → (state : CardState) × (card_state s card.id now ≡ ok (some state))
      × (is_over state.status ≡ false)
      × (get_code_row env.vault code ((approve_card env code id now r card s db).1)
          ≡ some (
              code_row (hash_card_secret env.vault code) (approved_code r card) (now + code_ttl_s)))
      × ((t : ℕ) → get_request id t ((approve_card env code id now r card s db).1) ≡ none)
unfolding approve_card
approve_card-inv env code id now r card s db h = elim (Result-cases (card_state s card.id now)) [
  | inr (e, thrown) ↦ absurd (ground (arith, h, thrown))
  | inl (o, found) ↦ elim (Option-cases o) [
    | inl missing ↦ absurd (ground (arith, h, found, missing))
    | inr (state, there) ↦ elim (Bool-cases (is_over state.status)) [
      | inl over ↦ absurd (ground (arith, h, found, there, over))
      | inr fine ↦
          let made =
            create_code env.vault code (approved_code r card) code_ttl_s now
              (delete_request id db) in
          elim (Result-cases (made.0)) [
            | inr (e, thrown) ↦ absurd (ground (arith, h, found, there, fine, thrown))
            | inl (t, minted) ↦
                let alive = found ∙ ap ok there in
                let left =
                  approve_card-writes env code id now r card s db {state = state} alive fine in
                let (stored, rest) =
                  create_code-stores env code (approved_code r card) code_ttl_s now
                    (delete_request id db) {t = t} minted in
                (
                  state,
                  alive,
                  fine,
                  ap (get_code_row env.vault code) left ∙ stored,
                  λ t'.
                      get_request-deleted id t' db _ (ap (λ (d : OAuthDb). d.requests) left ∙ rest),
                )
          ]
    ]
  ]
]

owned_card-ActsFor :
    (auth : AuthCtx) (requested : UserId) (id : CardId) (s : Store) {user : UserId} {card : CardRow}
    → scoped_user_id auth requested s ≡ done user
    → owned_card auth id s ≡ done card
    → (get_card id s ≡ some card) × ActsFor auth requested s user card
unfolding scoped_user_id owned_card bound_user card_of_user
owned_card-ActsFor admin requested id s {user} {card} acts owned =
    (ground (arith, owned), ground (arith, acts))
owned_card-ActsFor (privy did) requested id s {user} {card} acts owned =
    elim (Option-cases (get_user_by_privy_did did s)) [
      | inl unknown ↦ absurd (ground (arith, acts, unknown))
      | inr (u, bound) ↦ elim (Option-cases (get_card id s)) [
        | inl missing ↦ absurd (ground (arith, owned, missing))
        | inr (c, found) ↦ elim (Bool-cases (c.user_id == u.id)) [
          | inr foreign ↦ absurd (ground (arith, owned, bound, found, foreign))
          | inl own ↦
              let same : c ≡ card = ground (arith, owned, bound, found, own) in
              (
                found ∙ ap some same,
                (
                  u,
                  bound,
                  ground (arith, acts, bound),
                  ap (λ (x : CardRow). x.user_id) (sym same) ∙ (==_iff c.user_id u.id).0 own,
                ),
              )
        ]
      ]
    ]

-- A user is let at a request that nobody claimed, or that is the user's own.
bind_request_user-claims :
    (id : Text) (user : UserId) (now : ℕ) (db : OAuthDb) {r : OAuthRequestRow}
    → get_request id now db ≡ some r
    → (bind_request_user id user now db).0 ≡ true
    → (r.user_id ≡ none) ⊎ (r.user_id ≡ some user)
unfolding bind_request_user
bind_request_user-claims id user now db {r} found bound = elim (Option-cases r.user_id) [
  | inl none_yet ↦ inl none_yet
  | inr (u, taken) ↦ inr (taken ∙ ap some ((==_iff u user).0 (ground (arith, bound, found, taken))))
]

approve_request-approve_card :
    (env : OAuthEnv) (code : Text) (auth : AuthCtx) (requested : UserId) (id : Text)
    (card_id : CardId) (now : ℕ) (s : Store) (db : OAuthDb) {r : OAuthRequestRow} {card : CardRow}
    → (owned_request auth requested id now s db).0 ≡ done r
    → owned_card auth card_id s ≡ done card
    → approve_request env code auth requested id card_id now s db
      ≡ approve_card env code id now r card s ((owned_request auth requested id now s db).1)
unfolding approve_request approve_card
approve_request-approve_card env code auth requested id card_id now s db mine owned =
    rw (approve_request, mine, owned) refl

-- A request is approved only if nobody claimed it before or the same user did, and for a card that is
-- there and alive. In a session that user is the one whom its DID is bound to, and the card is that
-- user's; the operator picks the user, and may name any card. The code then stands for this request
-- and this card, and the request is gone.
pub approve_request-IsApproval :
    (env : OAuthEnv) (code : Text) (auth : AuthCtx) (requested : UserId) (id : Text)
    (card_id : CardId) (now : ℕ) (s : Store) (db : OAuthDb) {url : Text}
    → (approve_request env code auth requested id card_id now s db).0 ≡ done url
    → (r : OAuthRequestRow) × (card : CardRow) × Approval env code auth requested id card_id now s
        db
        ((approve_request env code auth requested id card_id now s db).1)
        r
        card
approve_request-IsApproval env code auth requested id card_id now s db h =
    elim (Reply-cases ((owned_request auth requested id now s db).0)) [
      | inr (inl e) ↦ absurd (unfold approve_request in ground (arith, h, e))
      | inr (inr (e, thrown)) ↦ absurd (unfold approve_request in ground (arith, h, thrown))
      | inl (r, mine) ↦ elim (Reply-cases (owned_card auth card_id s)) [
        | inr (inl e) ↦ absurd (unfold approve_request in ground (arith, h, mine, e))
        | inr (inr (e, thrown)) ↦ absurd (unfold approve_request in ground (arith, h, mine, thrown))
        | inl (card, owned) ↦
            let db1 = (owned_request auth requested id now s db).1 in
            let e =
              approve_request-approve_card env code auth requested id card_id now s db {r = r}
                {card = card} mine owned in
            let (state, alive, fine, coded, gone) =
              approve_card-inv env code id now r card s db1
                (ap (λ (x : Reply Text × OAuthDb). x.0) (sym e) ∙ h) in
            let (found, user, acts, claimed) =
              owned_request-inv auth requested id now s db {r = r} mine in
            let (there, who) =
              owned_card-ActsFor auth requested card_id s {user = user} {card = card} acts owned in
            (
              r,
              card,
              record {
                request = found;
                user = user;
                unclaimed_or_own = bind_request_user-claims id user now db {r = r} found claimed;
                found = there;
                acts = who;
                state = state;
                alive = alive;
                not_over = fine;
                coded =
                    ap (λ (x : Reply Text × OAuthDb). get_code_row env.vault code (x.1)) e ∙ coded;
                gone = λ t. ap (λ (x : Reply Text × OAuthDb). get_request id t (x.1)) e ∙ gone t;
              },
            )
      ]
    ]
