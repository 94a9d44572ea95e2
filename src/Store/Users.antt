-- ===== src/Store/Users.antt =====
-- The users of packages/engine/src/store.ts.
use t3_spend.Prelude.{ℕ, Bool, false, ◌&&◌, not, Option, none, some, List, ◌∷◌, ◌==◌, if◌then◌else◌}
use t3_spend.Prelude.Lists.{any, find, update}
use t3_spend.Prelude.Texts.{Text, text_eq, same_address}
use t3_spend.Prelude.Failures.{Result, ok, err, constraint}
use t3_spend.Types.{UserId}
use t3_spend.Store.{StoredAuth, UserRow, Store}

pub record UserFields : Type 0 where
  pub id : UserId
  pub address : Text
  pub auth7702 : Option StoredAuth
  pub privy_did : Option Text

-- COALESCE(a, b)
abbrev pub coalesce {ℓ} : {A : Type ℓ} → Option A → Option A → Option A
coalesce none b = b
coalesce (some a) b = some a

unfoldable pub same_did : Option Text → Option Text → Bool
unfolding text_eq
same_did (some a) (some b) = text_eq a b
same_did _ _ = false

-- Another user has the address (UNIQUE) or, by the partial unique index, the DID.
unfoldable pub address_taken : UserFields → List UserRow → Bool
unfolding text_eq
address_taken u = any (λ r. text_eq r.address u.address)

unfoldable pub did_taken : UserFields → List UserRow → Bool
unfolding same_did
did_taken u = any (λ r. not (r.id == u.id) && same_did r.privy_did u.privy_did)

abbrev pub merge_user : UserFields → UserRow → UserRow
merge_user u r = record r {
  auth7702 = coalesce u.auth7702 r.auth7702;
  privy_did = coalesce u.privy_did r.privy_did;
}

abbrev pub fresh_user : UserFields → ℕ → UserRow
fresh_user u now = record {
  id = u.id;
  address = u.address;
  auth7702 = u.auth7702;
  revocation_nonce = 0;
  privy_did = u.privy_did;
  created_at = now;
}

-- INSERT … ON CONFLICT(id) DO UPDATE: the address of a known user stays as it is.
unfoldable pub upsert_user : UserFields → ℕ → Store → Result Store
unfolding address_taken did_taken
upsert_user u now s =
    if did_taken u s.users
    then err constraint
    else if any (λ r. r.id == u.id) s.users
    then ok (record s { users = update (λ r. r.id == u.id) (merge_user u) s.users })
    else if address_taken u s.users
    then err constraint
    else ok (record s { users = fresh_user u now ∷ s.users })

unfoldable pub get_user : UserId → Store → Option UserRow
get_user id s = find (λ r. r.id == id) s.users

unfoldable pub get_user_by_privy_did : Text → Store → Option UserRow
unfolding same_did
get_user_by_privy_did did s = find (λ r. same_did r.privy_did (some did)) s.users

unfoldable pub get_user_by_address : Text → Store → Option UserRow
unfolding same_address
get_user_by_address address s = find (λ r. same_address r.address address) s.users

unfoldable pub set_revocation_nonce : UserId → ℕ → Store → Store
set_revocation_nonce id nonce s = record s {
  users = update (λ r. r.id == id) (λ r. record r { revocation_nonce = nonce }) s.users;
}
