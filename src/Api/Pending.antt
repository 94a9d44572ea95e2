-- ===== src/Api/Pending.antt =====
-- The admin operations that await the browser's signature in packages/server/src/api/routes.ts. The
-- entries are one map, written by the sections of the handlers between their awaits. An entry's id is
-- drawn at random when it is prepared. Times are in milliseconds.
use t3_spend.Prelude.{
  ℕ, ◌+◌, Bool, true, false, not, Option, none, some, List, ltb, ◌==◌, if◌then◌else◌,
}
use t3_spend.Prelude.Lists.{find, filter, update}
use t3_spend.Prelude.Failures.{refusal, invalid_terms}
use t3_spend.Types.{CardId}
use t3_spend.Store.{Store}
use t3_spend.Ops.Admin.Prepared.{AdminOp, PreparedAdminOp}
use t3_spend.Api.{AuthCtx, admin, privy, Reply, done, forbidden, failed, bound_user}

pub record PendingEntry : Type 0 where
  pub id : ℕ
  pub prepared : PreparedAdminOp
  pub expires : ℕ
  pub in_progress : Bool

abbrev pub admin_ttl_ms : ℕ
admin_ttl_ms = 120000

abbrev pub fresh_entry : ℕ → PreparedAdminOp → ℕ → PendingEntry
fresh_entry id p now_ms = record {
  id = id;
  prepared = p;
  expires = now_ms + admin_ttl_ms;
  in_progress = false;
}

unfoldable pub gc_admin : ℕ → List PendingEntry → List PendingEntry
gc_admin now_ms = filter (λ e. not (ltb e.expires now_ms))

unfoldable pub get_entry : ℕ → List PendingEntry → Option PendingEntry
get_entry id = find (λ e. e.id == id)

unfoldable pub delete_entry : ℕ → List PendingEntry → List PendingEntry
delete_entry id = filter (λ e. not (e.id == id))

-- `entry.inProgress = b`, which is seen in the map while the entry is there.
unfoldable pub set_progress : ℕ → Bool → List PendingEntry → List PendingEntry
set_progress id b = update (λ e. e.id == id) (λ e. record e { in_progress = b })

abbrev pub is_revoke_of : CardId → PreparedAdminOp → Bool
is_revoke_of card p = elim p.op [ AdminOp.revoke c ↦ c == card | AdminOp.nuke ↦ false ]

abbrev pub is_nuke : PreparedAdminOp → Bool
is_nuke p = elim p.op [ AdminOp.revoke c ↦ false | AdminOp.nuke ↦ true ]

-- A session finalizes its own user's operations only.
unfoldable pub check_owner : AuthCtx → Store → PreparedAdminOp → Reply (Unit {0})
unfolding bound_user
check_owner admin s p = done tt
check_owner (privy did) s p = elim (bound_user (privy did) s) [
  | done u ↦ if p.user_id == u.id then done tt else failed (refusal invalid_terms)
  | forbidden ↦ forbidden
  | failed e ↦ failed e
]

unfoldable pub claim_entry :
    AuthCtx → Store → PendingEntry → List PendingEntry → Reply PendingEntry × List PendingEntry
unfolding check_owner set_progress
claim_entry auth s e es = elim (check_owner auth s e.prepared) [
  | forbidden ↦ (forbidden, es)
  | failed f ↦ (failed f, es)
  | done _ ↦
      if e.in_progress
      then (failed (refusal invalid_terms), es)
      else (done e, set_progress e.id true es)
]

-- A finalize up to its first await: the checks, in one go with the claim.
unfoldable pub begin_finalize :
    (PreparedAdminOp → Bool)
    → AuthCtx
    → ℕ
    → ℕ
    → Store
    → List PendingEntry
    → Reply PendingEntry × List PendingEntry
unfolding get_entry claim_entry
begin_finalize wanted auth id now_ms s es = elim (get_entry id es) [
  | none ↦ (failed (refusal invalid_terms), es)
  | some e ↦
      if ltb e.expires now_ms
      then (failed (refusal invalid_terms), es)
      else if not (wanted e.prepared)
      then (failed (refusal invalid_terms), es)
      else claim_entry auth s e es
]
