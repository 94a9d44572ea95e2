-- ===== src/Ops/Admin.antt =====
-- The admin leaf of packages/engine/src/ops.ts: revoke and nuke, signed by the user and sent through
-- the relayer, in the lane that the server signs and the one that the browser signs.
pub mod Prepared
use t3_spend.Prelude.{
  ℕ, zero, suc, ◌+◌, Bool, true, false, ◌||◌, not, Option, none, some, List, [], ◌∷◌, ltb,
  if◌then◌else◌, is_some, or_else,
}
use t3_spend.Prelude.Lists.{any, take}
use t3_spend.Prelude.Texts.{Text, codes, text_eq}
use t3_spend.Prelude.Failures.{
  Failure, refusal, engine, ops, card_not_found, card_revoked, invalid_terms, Result, ok, err,
  or_throw, throw_if,
}
use t3_spend.Prelude.Failures
use t3_spend.Prelude.Exec.{Exec, pure, throw, lift, gets, reads, modify, ◌>>=◌, ◌>>◌}
use t3_spend.Types.{CardId, UserId, WireDelegation, WireExecution}
use t3_spend.Chains.{ChainId, usdc, fee_collector, delegation_manager, target_address}
use t3_spend.Money.{usdc_to_atoms}
use t3_spend.Store.{StoredAuth, CardStatus, UserRow, Store}
use t3_spend.Store.Users.{get_user, get_user_by_address, set_revocation_nonce}
use t3_spend.Store.Cards.{get_card, list_cards, set_all_user_cards_status}
use t3_spend.Store.Tree.{set_subtree_status}
use t3_spend.Compiler.{transfer_sig}
use t3_spend.Compiler.Scope.{CallScope}
use t3_spend.Compiler.Validate.{is_empty}
use t3_spend.Spend.Validate.{truthy}
use t3_spend.Spend.Confirm.{Confirmation, ConfirmStatus, status_to_confirmation, confirm_redemption}
use t3_spend.Spend.Network.{Transaction, Await, Network, await, resolve_stored_auth}
use t3_spend.Spend.Pipeline.{required_fee}
use t3_spend.Ops.{is_active, is_frozen, is_dead}

-- What the admin lane calls outside: the network of a spend, the delegation kit and the signer.
pub record AdminKit : Type 0 where
  pub net : Network
  -- `createDelegation` from, to, and the call scope
  pub admin_leaf : Text → Text → CallScope → WireDelegation
  pub disable_calldata : WireDelegation → Text
  pub increment_calldata : Text
  pub nonce_enforcer : Text
  -- the user's smart account
  pub sign_as_user : WireDelegation → Result WireDelegation
  -- `verifyRootDelegationSignature`
  pub recovers : WireDelegation → Text → Bool
  -- `readRevocationNonce`, none if the read fails
  pub live_nonce : Option ℕ

pub record AdminResult : Type 0 where
  pub tx_hash : Option Text
  pub request_id : Text
  pub new_nonce : Option ℕ

-- The leaf admits the admin call and the fee transfer.
unfoldable pub build_admin_leaf : AdminKit → ChainId → Text → Text → Text → WireDelegation
build_admin_leaf kit chain user target calldata =
    kit.admin_leaf user (target_address chain) (record {
      targets = target ∷ usdc chain ∷ [];
      selectors = take 10 calldata ∷ transfer_sig ∷ [];
    })

abbrev executions_for : AdminKit → ChainId → Text → Text → ℕ → Result (List WireExecution)
executions_for kit chain target calldata fee =
    Failures.◌>>=◌ (kit.net.encode_transfer (some fee_collector) fee) (λ payload. ok (
      record { target = target; value = codes "0"; payload = calldata }
      ∷ record { target = usdc chain; value = codes "0"; payload = payload }
      ∷ []))

-- Only a confirmed transaction is a success: a pending one may yet fail.
unfoldable pub admin_outcome : Confirmation → Text → Result AdminResult
admin_outcome c request = elim c.status [
  | ConfirmStatus.failed ↦ err (engine ops)
  | ConfirmStatus.pending ↦ err (engine ops)
  | ConfirmStatus.confirmed ↦
      ok (record { tx_hash = c.tx_hash; request_id = request; new_nonce = none })
]

unfoldable pub admin_send :
    AdminKit → List Transaction → Text → Option StoredAuth → ℕ → Exec Store AdminResult
unfolding admin_outcome
admin_send kit txs context auth fee = do
  since ← if kit.net.via_chain then await kit.net Await.block kit.net.block_number else pure 0
  request ← await kit.net Await.sent (kit.net.send txs context auth)
  c ← await kit.net Await.confirmed (
      if kit.net.via_chain
      then confirm_redemption kit.net.polls fee
      else Failures.◌>>=◌ kit.net.wait_for_status (λ st. ok (status_to_confirmation st)))
  lift (admin_outcome c request)

-- The loop of `runAdminLoop`; the number is that of the attempts left.
unfoldable pub admin_attempts :
    ℕ
    → AdminKit
    → ChainId
    → WireDelegation
    → Text
    → Text
    → Option StoredAuth
    → ℕ
    → Exec Store AdminResult
unfolding admin_send required_fee
admin_attempts zero kit chain leaf target calldata auth fee = throw (engine ops)
admin_attempts (suc left) kit chain leaf target calldata auth fee = do
  executions ← lift (executions_for kit chain target calldata fee)
  let txs : List Transaction =
      record { permission_context = leaf ∷ []; executions = executions } ∷ []
  est ← await kit.net (Await.estimated left) (kit.net.estimate left txs auth)
  lift (throw_if (not est.success) (engine ops))
  required ← lift (required_fee est fee)
  elim (ltb fee required) [
    | true ↦ admin_attempts left kit chain leaf target calldata auth (kit.net.jitter required)
    | false ↦ (do
      context ← lift (or_throw (truthy est.context) (engine ops))
      admin_send kit txs context auth fee)
  ]

unfoldable pub admin_auth : AdminKit → Text → Exec Store (Option StoredAuth)
unfolding resolve_stored_auth
admin_auth kit address = do
  coded ← await kit.net Await.code kit.net.has_code
  if coded then pure none else (do
    user ← reads (λ s. or_throw (get_user_by_address address s) (engine ops))
    auth ← await kit.net Await.auth (resolve_stored_auth ops user kit.net.account_nonce)
    pure (some auth))

unfoldable pub run_admin_loop :
    AdminKit → ChainId → WireDelegation → Text → Text → Text → Exec Store AdminResult
unfolding admin_auth admin_attempts
run_admin_loop kit chain leaf target calldata address = do
  min_fee ← await kit.net Await.fee_data kit.net.min_fee
  base_fee ← lift (usdc_to_atoms min_fee)
  auth ← admin_auth kit address
  admin_attempts 3 kit chain leaf target calldata auth (kit.net.jitter base_fee)

-- `adminSend`: the server signs for the user.
unfoldable pub sign_and_run : AdminKit → ChainId → Text → Text → Text → Exec Store AdminResult
unfolding build_admin_leaf run_admin_loop
sign_and_run kit chain address target calldata = do
  leaf ←
      await kit.net (Await.signed 3)
        (kit.sign_as_user (build_admin_leaf kit chain address target calldata))
  run_admin_loop kit chain leaf target calldata address

unfoldable pub revoke_card : AdminKit → ChainId → Text → CardId → Exec Store AdminResult
unfolding sign_and_run
revoke_card kit chain address id = do
  card ← reads (λ s. or_throw (get_card id s) (refusal card_not_found))
  if is_some card.parent_card_id
      then (do modify (set_subtree_status id CardStatus.revoked); throw (refusal invalid_terms))
      else (do
        result ←
            sign_and_run kit chain address delegation_manager (kit.disable_calldata card.delegation)
        modify (set_subtree_status id CardStatus.revoked)
        pure result)

-- After a confirmed bump: the cards first, then the nonce, which falls back to the stored one and 1.
unfoldable pub after_nuke : AdminKit → UserId → AdminResult → Exec Store AdminResult
after_nuke kit user result = do
  modify (set_all_user_cards_status user CardStatus.nuked)
  read ← await kit.net Await.block (ok kit.live_nonce)
  stored ← gets (λ s. elim (get_user user s) [ none ↦ 0 | some u ↦ u.revocation_nonce ])
  let nonce : ℕ = or_else read (stored + 1)
  modify (set_revocation_nonce user nonce)
  pure (record result { new_nonce = some nonce })

unfoldable pub nuke_all : AdminKit → ChainId → Text → UserId → Exec Store AdminResult
unfolding sign_and_run after_nuke
nuke_all kit chain address user = do
  result ← sign_and_run kit chain address kit.nonce_enforcer kit.increment_calldata
  after_nuke kit user result
