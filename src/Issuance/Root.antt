-- ===== src/Issuance/Root.antt =====
-- The issue of a root card in packages/engine/src/issuance.ts: at once with the server's signer, or
-- prepared by the server and finished with a signature from the browser.
use t3_spend.Prelude.{ℕ, Option, none, some, not}
use t3_spend.Prelude.Texts.{Text}
use t3_spend.Prelude.Failures.{refusal, engine, Stage, invalid_terms, Result, ok, throw_if}
use t3_spend.Prelude.Exec.{◌>>=◌, ◌>>◌, pure, lift, gets, writes}
use t3_spend.Chains.{ChainId}
use t3_spend.Types.{CardId, UserId, CompiledCard, WireDelegation}
use t3_spend.Custody.{
  AgentKey, generate_agent_key, encrypt_secret, generate_card_secret, hash_card_secret,
}
use t3_spend.Delegations.{
  unsigned, fresh_salt, build_root_delegation, sign_with_smart_account,
  verify_root_delegation_signature,
}
use t3_spend.Compiler.Compile.{compile_card}
use t3_spend.Store.{UserRow, Store}
use t3_spend.Store.Users.{get_user}
use t3_spend.Store.Cards.{create_card}
use t3_spend.Issuance.{
  Issuer, nonce, key, signed, verified, encrypted, pause, IssuedCard, RootArgs,
  read_revocation_nonce, opts_of, Draft, draft_row,
}

-- `override ?? (await readRevocationNonce(…))`
unfoldable pub signer_nonce : Issuer → Text → Store → Result ℕ × Store
unfolding read_revocation_nonce
signer_nonce i signer = elim i.revocation_nonce_override [
  | some n ↦ pure n
  | none ↦ pause i nonce (read_revocation_nonce i signer)
]

-- The unsigned root delegation from the user to the new key.
unfoldable pub root_delegation : Issuer → Text → Text → CompiledCard → WireDelegation
unfolding build_root_delegation fresh_salt
root_delegation i user agent compiled =
    build_root_delegation i.delegations user agent compiled.root_caveats (fresh_salt i.salt_bytes)

unfoldable pub root_draft : Issuer → RootArgs → CompiledCard → WireDelegation → AgentKey → Draft
root_draft i args compiled delegation agent = record {
  id = i.fresh_card;
  user_id = args.user_id;
  parent_card_id = none;
  name = args.name;
  terms = compiled.terms;
  compiled = compiled;
  delegation = delegation;
  key = agent;
  created_at = i.now;
}

-- What `issueRootCard` and `issueCardForDID` do up to the new row.
unfoldable pub signed_root : Issuer → Text → RootArgs → Store → Result Draft × Store
unfolding signer_nonce
signed_root i signer args = do
  revocation_nonce ← signer_nonce i signer
  compiled ← lift (compile_card i.kit args.terms (opts_of i revocation_nonce))
  agent ← pause i key (generate_agent_key i.vault i.agent_pk i.agent_iv)
  delegation ← pause i signed (
      sign_with_smart_account i.delegations signer (root_delegation i signer agent.address compiled)
        i.chain_id)
  recovers ←
      pause i verified
        (ok (verify_root_delegation_signature i.delegations delegation signer i.chain_id))
  lift (throw_if (not recovers) (engine Stage.issuance))
  pure (root_draft i args compiled delegation agent)

abbrev pub issued : Draft → Text → IssuedCard
issued d secret = record {
  card_id = d.id;
  secret = secret;
  k_agent_address = d.key.address;
  terms = d.terms;
}

-- The secret is encrypted and hashed, and the row written.
unfoldable pub store_card :
    Issuer → Draft → Text → Option Text → Option Text → Store → Result IssuedCard × Store
store_card i d secret did binding = do
  secret_enc ← pause i encrypted (encrypt_secret i.vault i.secret_iv secret)
  writes (create_card (draft_row d (hash_card_secret i.vault secret) secret_enc did binding))
  pure (issued d secret)

unfoldable pub issue_root_card : Issuer → Text → RootArgs → Store → Result IssuedCard × Store
issue_root_card i signer args = do
  draft ← signed_root i signer args
  store_card i draft (generate_card_secret i.vault i.secret_bytes) none none

pub record PreparedRootCard : Type 0 where
  pub prepare_id : ℕ
  pub user_id : UserId
  pub card_id : CardId
  pub name : Text
  pub secret : Text
  pub key : AgentKey
  pub compiled : CompiledCard
  pub delegation : WireDelegation
  pub chain_id : ChainId
  pub created_at : ℕ

-- The nonce that was stored at onboarding goes before the one on chain.
unfoldable pub known_nonce : Issuer → Text → Option UserRow → Store → Result ℕ × Store
unfolding read_revocation_nonce
known_nonce i user_address user = elim i.revocation_nonce_override [
  | some n ↦ pure n
  | none ↦ elim user [
    | some u ↦ pure u.revocation_nonce
    | none ↦ pause i nonce (read_revocation_nonce i user_address)
  ]
]

unfoldable pub prepare_root_card :
    Issuer → Text → RootArgs → Store → Result PreparedRootCard × Store
unfolding known_nonce
prepare_root_card i user_address args = do
  user ← gets (get_user args.user_id)
  revocation_nonce ← known_nonce i user_address user
  compiled ← lift (compile_card i.kit args.terms (opts_of i revocation_nonce))
  agent ← pause i key (generate_agent_key i.vault i.agent_pk i.agent_iv)
  pure (record {
    prepare_id = i.fresh_prepare;
    user_id = args.user_id;
    card_id = i.fresh_card;
    name = args.name;
    secret = generate_card_secret i.vault i.secret_bytes;
    key = agent;
    compiled = compiled;
    delegation = root_delegation i user_address agent.address compiled;
    chain_id = i.chain_id;
    created_at = i.now;
  })

unfoldable pub prepared_draft : PreparedRootCard → WireDelegation → Draft
prepared_draft p delegation = record {
  id = p.card_id;
  user_id = p.user_id;
  parent_card_id = none;
  name = p.name;
  terms = p.compiled.terms;
  compiled = p.compiled;
  delegation = delegation;
  key = p.key;
  created_at = p.created_at;
}

unfoldable pub finalize_root_card :
    Issuer → PreparedRootCard → Text → Store → Result IssuedCard × Store
finalize_root_card i p signature = do
  lift (throw_if (unsigned signature) (refusal invalid_terms))
  recovers ← pause i verified (
      ok (
        verify_root_delegation_signature i.delegations
          (record p.delegation { signature = signature }) p.delegation.delegator p.chain_id))
  lift (throw_if (not recovers) (refusal invalid_terms))
  store_card i (prepared_draft p (record p.delegation { signature = signature })) p.secret none none
