-- ===== src/OAuth/Binding.antt =====
-- The user of a request under way in packages/server/src/oauth/store.ts.
use t3_spend.Prelude.{
  arith, ℕ, ◌≡◌, ap, ◌∙◌, true, false, some, List, [], ◌∷◌, ◌==◌, ==_iff, Bool-cases, Option-cases,
  inl, inr,
}
use t3_spend.Prelude.Lists.{find, update}
use t3_spend.Prelude.Texts.{Text, text_eq}
use t3_spend.Types.{UserId}
use t3_spend.OAuth.{OAuthRequestRow, OAuthDb}
use t3_spend.OAuth.Clients.{get_request, unexpired, set_request_user, bind_request_user}

abbrev with_user : UserId → OAuthRequestRow → OAuthRequestRow
with_user user r = record r { user_id = some user }

find-bound :
    (id : Text) (user : UserId) (rs : List OAuthRequestRow) {r : OAuthRequestRow}
    → find (λ q. text_eq q.request_id id) rs ≡ some r
    → find
        (λ q. text_eq q.request_id id)
        (update (λ q. text_eq q.request_id id) (with_user user) rs)
      ≡ some (with_user user r)
find-bound id user [] h = cc
find-bound id user (q ∷ rs) {r} h = elim (Bool-cases (text_eq q.request_id id)) [
  | inl e ↦ ground (arith, h, e)
  | inr e ↦
      let rest = find-bound id user rs {r = r} (ground (arith, h, e)) in ground (arith, rest, e)
]

-- What the request looks like to a reader at the moment, once its user is set.
get_request-bound :
    (id : Text) (user : UserId) (now now' : ℕ) (db : OAuthDb) {r r' : OAuthRequestRow}
    → get_request id now db ≡ some r
    → get_request id now' (set_request_user id user db) ≡ some r'
    → r'.user_id ≡ some user
unfolding get_request unexpired set_request_user
get_request-bound id user now now' db {r} {r'} h h' =
    elim (Option-cases (find (λ q. text_eq q.request_id id) db.requests)) [
      | inl missing ↦ absurd (ground (arith, h, missing))
      | inr (q, found) ↦
          let bound = find-bound id user db.requests {r = q} found in ground (arith, h', bound)
    ]

get_request-same :
    (id : Text) (now now' : ℕ) (db : OAuthDb) {r r' : OAuthRequestRow}
    → get_request id now db ≡ some r
    → get_request id now' db ≡ some r'
    → r' ≡ r
unfolding get_request unexpired
get_request-same id now now' db {r} {r'} h h' =
    elim (Option-cases (find (λ q. text_eq q.request_id id) db.requests)) [
      | inl missing ↦ absurd (ground (arith, h, missing))
      | inr (q, found) ↦ ground (arith, h, h', found)
    ]

-- A request that carries a user is bound to that one only.
bind-taken :
    (id : Text) (user other : UserId) (now : ℕ) (db : OAuthDb)
    → ((r : OAuthRequestRow) → get_request id now db ≡ some r → r.user_id ≡ some user)
    → (user == other) ≡ false
    → bind_request_user id other now db ≡ (false, db)
unfolding bind_request_user
bind-taken id user other now db owned apart = elim (Option-cases (get_request id now db)) [
  | inl missing ↦ ground (arith, missing)
  | inr (r, found) ↦ let mine = owned r found in ground (arith, found, mine, apart)
]

-- After a user was let at a request, whoever reads it sees that user.
bind_request_user-owner :
    (id : Text) (user : UserId) (now now' : ℕ) (db : OAuthDb) (r : OAuthRequestRow)
    → (bind_request_user id user now db).0 ≡ true
    → get_request id now' ((bind_request_user id user now db).1) ≡ some r
    → r.user_id ≡ some user
unfolding bind_request_user
bind_request_user-owner id user now now' db r bound h =
    elim (Option-cases (get_request id now db)) [
      | inl missing ↦ absurd (ground (arith, bound, missing))
      | inr (q, found) ↦ elim (Option-cases q.user_id) [
        | inl unclaimed ↦
            get_request-bound id user now now' db {r = q} {r' = r} found
              (ground (arith, h, found, unclaimed))
        | inr (u, claimed) ↦
            let same =
              get_request-same id now now' db {r = q} {r' = r} found
                (ground (arith, h, found, claimed)) in
            ap (λ (x : OAuthRequestRow). x.user_id) same
            ∙ claimed
            ∙ ap some ((==_iff u user).0 (ground (arith, bound, found, claimed)))
      ]
    ]

-- The first user to load a request claims it: from then on no other user is let at it, and what
-- another tries changes nothing.
pub bind_request_user-once :
    (id : Text) (user other : UserId) (now now' : ℕ) (db : OAuthDb)
    → (bind_request_user id user now db).0 ≡ true
    → (user == other) ≡ false
    → bind_request_user id other now' ((bind_request_user id user now db).1)
      ≡ (false, (bind_request_user id user now db).1)
bind_request_user-once id user other now now' db bound apart =
    bind-taken id user other now' _ (λ r h. bind_request_user-owner id user now now' db r bound h)
      apart
