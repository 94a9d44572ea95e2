-- ===== src/Issuance/Did.antt =====
-- The issue of cards that are bound to an agent's identifier, in packages/engine/src/issuance.ts.
use t3_spend.Prelude.{ℕ, Bool, true, false, none, some, [], ◌∷◌}
use t3_spend.Prelude.Texts.{Text}
use t3_spend.Prelude.Failures.{refusal, engine, Stage, card_not_found, Result, or_throw, throw_if}
use t3_spend.Prelude.Exec.{◌>>=◌, ◌>>◌, pure, lift, reads, modify}
use t3_spend.Chains.{ChainId}
use t3_spend.Types.{CardId, UserId, CompiledCard, WireDelegation}
use t3_spend.Custody.{Bytes, AgentKey, generate_agent_key, generate_card_secret, with_agent_account}
use t3_spend.Delegations.{sign_with_private_key}
use t3_spend.Identity.{create_binding}
use t3_spend.Compiler.Compile.{compile_card}
use t3_spend.Store.{Store}
use t3_spend.Store.Cards.{get_card, bind_card_to_did}
use t3_spend.Issuance.{
  Issuer, key, signed, pause, IssuedCard, RootArgs, SubArgs, Agent, opts_of, Draft, minting_parent,
  child_terms,
}
use t3_spend.Issuance.Root.{signed_root, store_card}
use t3_spend.Issuance.Sub.{child_delegation}

unfoldable pub binding_json : Issuer → Agent → Text
unfolding create_binding
binding_json i agent = i.binding_text (create_binding agent.did agent.address none i.clock)

-- `createCard` with the binding, then `bindCardToDID`.
unfoldable pub store_bound : Issuer → Draft → Text → Agent → Store → Result IssuedCard × Store
unfolding binding_json
store_bound i d secret agent = do
  card ← store_card i d secret (some agent.did) (some (binding_json i agent))
  modify (bind_card_to_did d.id agent.did (binding_json i agent))
  pure card

unfoldable pub issue_card_for_did :
    Issuer → Text → RootArgs → Agent → Store → Result IssuedCard × Store
issue_card_for_did i signer args agent = do
  draft ← signed_root i signer args
  store_bound i draft (generate_card_secret i.vault i.secret_bytes) agent

pub record PreparedSubCard : Type 0 where
  pub prepare_id : ℕ
  pub parent_card_id : CardId
  pub user_id : UserId
  pub card_id : CardId
  pub name : Text
  pub secret : Text
  pub compiled : CompiledCard
  pub child_delegation : WireDelegation
  pub key : AgentKey
  pub agent : Agent
  pub chain_id : ChainId
  pub created_at : ℕ

unfoldable pub prepare_sub_card_for_did :
    Issuer → SubArgs → Agent → Store → Result PreparedSubCard × Store
prepare_sub_card_for_did i args agent = do
  parent ← reads (minting_parent args.parent_card_id)
  terms ← reads (child_terms i parent args.terms)
  compiled ← lift (compile_card i.kit terms (opts_of i 0))
  minted ← pause i key (generate_agent_key i.vault i.agent_pk i.agent_iv)
  pure (record {
    prepare_id = i.fresh_prepare;
    parent_card_id = parent.id;
    user_id = parent.user_id;
    card_id = i.fresh_card;
    name = args.name;
    secret = generate_card_secret i.vault i.secret_bytes;
    compiled = compiled;
    child_delegation = child_delegation i parent minted.address compiled;
    key = minted;
    agent = agent;
    chain_id = i.chain_id;
    created_at = i.now;
  })

abbrev has_no_key : Bytes → Bool
has_no_key [] = true
has_no_key (b ∷ bs) = false

unfoldable pub prepared_sub_draft : PreparedSubCard → WireDelegation → Draft
prepared_sub_draft p delegation = record {
  id = p.card_id;
  user_id = p.user_id;
  parent_card_id = some p.parent_card_id;
  name = p.name;
  terms = p.compiled.terms;
  compiled = p.compiled;
  delegation = delegation;
  key = p.key;
  created_at = p.created_at;
}

-- The status of the parent is not looked at again.
unfoldable pub finalize_sub_card_for_did :
    Issuer → PreparedSubCard → Store → Result IssuedCard × Store
finalize_sub_card_for_did i p = do
  parent ← reads (λ s. or_throw (get_card p.parent_card_id s) (refusal card_not_found))
  lift (throw_if (has_no_key parent.k_agent_enc) (engine Stage.issuance))
  delegation ← pause i signed (
      with_agent_account i.vault parent.k_agent_enc
        (λ pk. sign_with_private_key i.delegations pk p.child_delegation i.chain_id))
  store_bound i (prepared_sub_draft p delegation) p.secret p.agent
