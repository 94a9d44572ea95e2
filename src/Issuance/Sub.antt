-- ===== src/Issuance/Sub.antt =====
-- `issueSubCard` of packages/engine/src/issuance.ts: the parent's key signs, and the child's terms are
-- within what remains of the parent's.
use t3_spend.Prelude.{none, some}
use t3_spend.Prelude.Texts.{Text}
use t3_spend.Prelude.Failures.{refusal, card_not_found, Result, or_throw}
use t3_spend.Prelude.Exec.{◌>>=◌, lift, reads}
use t3_spend.Types.{CardTerms, CompiledCard, WireDelegation}
use t3_spend.Custody.{AgentKey, generate_agent_key, generate_card_secret, with_agent_account}
use t3_spend.Delegations.{fresh_salt, build_child_delegation, sign_with_private_key}
use t3_spend.Compiler.Compile.{compile_card}
use t3_spend.Store.{CardRow, Store}
use t3_spend.Store.Users.{get_user}
use t3_spend.Issuance.{
  Issuer, key, signed, pause, IssuedCard, SubArgs, opts_of, Draft, minting_parent, child_terms,
}
use t3_spend.Issuance.Root.{store_card}

-- The unsigned delegation from the parent's key to the child's.
unfoldable pub child_delegation : Issuer → CardRow → Text → CompiledCard → WireDelegation
unfolding build_child_delegation fresh_salt
child_delegation i parent agent compiled =
    build_child_delegation i.delegations parent.delegation parent.k_agent_address agent
      compiled.root_caveats (fresh_salt i.salt_bytes)

unfoldable pub sub_draft :
    Issuer → CardRow → Text → CardTerms → CompiledCard → WireDelegation → AgentKey → Draft
sub_draft i parent name terms compiled delegation agent = record {
  id = i.fresh_card;
  user_id = parent.user_id;
  parent_card_id = some parent.id;
  name = name;
  terms = terms;
  compiled = compiled;
  delegation = delegation;
  key = agent;
  created_at = i.now;
}

-- The child's delegation, signed with the parent's key.
unfoldable pub signed_child : Issuer → CardRow → AgentKey → CompiledCard → Result WireDelegation
unfolding child_delegation
signed_child i parent agent compiled = with_agent_account i.vault parent.k_agent_enc λ pk.
    sign_with_private_key i.delegations pk (child_delegation i parent agent.address compiled)
      i.chain_id

-- What follows the checks of the parent: the nonce of a parent's key is always 0.
unfoldable pub mint_sub :
    Issuer → CardRow → Text → CardTerms → CompiledCard → Store → Result IssuedCard × Store
mint_sub i parent name terms compiled = do
  agent ← pause i key (generate_agent_key i.vault i.agent_pk i.agent_iv)
  delegation ← pause i signed (signed_child i parent agent compiled)
  store_card i (sub_draft i parent name terms compiled delegation agent)
      (generate_card_secret i.vault i.secret_bytes) none none

unfoldable pub issue_sub_card : Issuer → SubArgs → Store → Result IssuedCard × Store
issue_sub_card i args = do
  parent ← reads (minting_parent args.parent_card_id)
  terms ← reads (child_terms i parent args.terms)
  user ← reads (λ s. or_throw (get_user parent.user_id s) (refusal card_not_found))
  compiled ← lift (compile_card i.kit terms (opts_of i 0))
  mint_sub i parent args.name terms compiled
