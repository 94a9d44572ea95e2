-- ===== src/Ops/Admin/Prepared.antt =====
-- The admin operations that the browser signs, in packages/engine/src/ops.ts: prepared by the server,
-- signed by the user, and finalized.
use t3_spend.Prelude.{ℕ, Bool, ◌||◌, not, Option, none, some, [], if◌then◌else◌, is_some}
use t3_spend.Prelude.Lists.{any}
use t3_spend.Prelude.Texts.{Text, codes, text_eq}
use t3_spend.Prelude.Failures.{
  refusal, engine, ops, card_not_found, card_revoked, invalid_terms, ok, or_throw, throw_if,
}
use t3_spend.Prelude.Exec.{Exec, pure, lift, gets, reads, modify, ◌>>=◌, ◌>>◌}
use t3_spend.Types.{CardId, UserId, WireDelegation}
use t3_spend.Chains.{ChainId, delegation_manager}
use t3_spend.Store.{CardStatus, UserRow, Store}
use t3_spend.Store.Users.{get_user}
use t3_spend.Store.Cards.{get_card, list_cards}
use t3_spend.Store.Tree.{set_subtree_status}
use t3_spend.Compiler.Validate.{is_empty}
use t3_spend.Spend.Network.{Await, await}
use t3_spend.Ops.{is_active, is_frozen, is_dead}
use t3_spend.Ops.Admin.{build_admin_leaf, run_admin_loop, after_nuke, AdminKit, AdminResult}

-- What a prepared operation does when its signature is in.
pub data AdminOp : Type 0 where
  revoke : CardId → AdminOp
  nuke : AdminOp

pub record PreparedAdminOp : Type 0 where
  pub op : AdminOp
  pub user_id : UserId
  pub user_address : Text
  pub admin_target : Text
  pub admin_calldata : Text
  pub delegation : WireDelegation
  pub chain : ChainId
  pub created_at : ℕ

unfoldable pub prepared : AdminKit → ChainId → ℕ → AdminOp → UserRow → Text → Text → PreparedAdminOp
unfolding build_admin_leaf
prepared kit chain now op user target calldata = record {
  op = op;
  user_id = user.id;
  user_address = user.address;
  admin_target = target;
  admin_calldata = calldata;
  delegation = build_admin_leaf kit chain user.address target calldata;
  chain = chain;
  created_at = now;
}

-- A sub-card is revoked at once, and `none` says that there is nothing to sign.
unfoldable pub prepare_revoke :
    AdminKit → ChainId → ℕ → CardId → Exec Store (Option PreparedAdminOp)
unfolding prepared
prepare_revoke kit chain now id = do
  card ← reads (λ s. or_throw (get_card id s) (refusal card_not_found))
  lift (throw_if (is_dead card.status) (refusal card_revoked))
  if is_some card.parent_card_id
      then (do modify (set_subtree_status id CardStatus.revoked); pure none)
      else (do
        user ← reads (λ s. or_throw (get_user card.user_id s) (engine ops))
        pure (
            some (
              prepared kit chain now (revoke id) user delegation_manager
                (kit.disable_calldata card.delegation))))

unfoldable pub prepare_nuke : AdminKit → ChainId → ℕ → UserId → Exec Store PreparedAdminOp
unfolding prepared
prepare_nuke kit chain now user_id = do
  user ← reads (λ s. or_throw (get_user user_id s) (refusal card_not_found))
  pure (prepared kit chain now nuke user kit.nonce_enforcer kit.increment_calldata)

abbrev no_result : AdminResult
no_result = record { tx_hash = none; request_id = []; new_nonce = none }

-- What there is to do still; `some` is the answer where another request was first.
unfoldable pub already_done : AdminOp → UserId → Store → Option AdminResult
already_done (revoke id) user s = elim (get_card id s) [
  | none ↦ some no_result
  | some c ↦ if is_dead c.status then some no_result else none
]
already_done nuke user s =
    if any (λ c. is_active c.status || is_frozen c.status) (list_cards user s)
    then none
    else some (record no_result {
      new_nonce = some (elim (get_user user s) [ none ↦ 0 | some u ↦ u.revocation_nonce ]);
    })

unfoldable pub after_admin : AdminKit → AdminOp → UserId → AdminResult → Exec Store AdminResult
unfolding after_nuke
after_admin kit (revoke id) user result = do
  modify (set_subtree_status id CardStatus.revoked)
  pure result
after_admin kit nuke user result = after_nuke kit user result

abbrev is_signature : Text → Bool
is_signature sig = not (is_empty sig || text_eq sig (codes "0x"))

unfoldable pub finalize_admin_op : AdminKit → PreparedAdminOp → Text → Exec Store AdminResult
unfolding already_done run_admin_loop after_admin
finalize_admin_op kit p signature = do
  lift (throw_if (not (is_signature signature)) (refusal invalid_terms))
  let leaf : WireDelegation = record p.delegation { signature = signature }
  recovered ← await kit.net (Await.signed 3) (ok (kit.recovers leaf p.user_address))
  lift (throw_if (not recovered) (refusal invalid_terms))
  done ← gets (already_done p.op p.user_id)
  elim done [
    | some result ↦ pure result
    | none ↦ (do
      result ← run_admin_loop kit p.chain leaf p.admin_target p.admin_calldata p.user_address
      after_admin kit p.op p.user_id result)
  ]
