-- ===== src/Tests/Operator.antt =====
-- Runs of the theorem on the admin operations that await a signature.
use t3_spend.Prelude.{◌≡◌, ◌≤◌, ◌+◌, refl, List, [], ◌∷◌, arith}
use t3_spend.Prelude.Texts.{codes}
use t3_spend.Chains.{ChainId}
use t3_spend.Ops.Admin.Prepared.{AdminOp, PreparedAdminOp}
use t3_spend.Api.{admin, done}
use t3_spend.Api.Pending.{PendingEntry, fresh_entry, is_nuke, begin_finalize}
use t3_spend.Api.Sections.{count, Reached, started, went, prepared, begun, validated}
use t3_spend.Api.Finalized.{Reached-once}
use t3_spend.Tests.{before}

abbrev nuke_op : PreparedAdminOp
nuke_op = record {
  op = AdminOp.nuke;
  user_id = 7;
  user_address = codes "0x01";
  admin_target = codes "0x02";
  admin_calldata = codes "0x";
  delegation = record {
    delegate = codes "a";
    delegator = codes "b";
    authority = codes "r";
    caveats = [];
    salt = codes "0";
    signature = codes "0x";
  };
  chain = ChainId.base;
  created_at = 0;
}

abbrev waiting : List PendingEntry
waiting = fresh_entry 5 nuke_op 10 ∷ []

let_in : (begin_finalize is_nuke admin 5 20 before waiting).0 ≡ done (fresh_entry 5 nuke_op 10)
unfolding begin_finalize
let_in = refl

-- The operation is prepared, a finalize of it is let in, and the signature is verified.
one_verified : Reached (record {
  pending =
      t3_spend.Api.Pending.delete_entry 5 ((begin_finalize is_nuke admin 5 20 before waiting).1);
  running = [];
  verified = 5 ∷ [];
})
one_verified =
    went
      (went (went started (prepared 5 nuke_op 10 _ refl refl refl))
        (begun is_nuke admin 5 20 before _ _ let_in))
      (validated 5 _ (omega arith))

Reached-once_example : count 5 [] + count 5 (5 ∷ []) ≤ 1
Reached-once_example = Reached-once 5 one_verified
