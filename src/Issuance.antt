-- ===== src/Issuance.antt =====
-- packages/engine/src/issuance.ts: what the issue of a card meets outside the process, the rows it
-- writes, and the checks on the parent of a sub-card. The calls are in the modules below, by the kind
-- of card, and so are the proofs.
pub mod Root
pub mod Sub
pub mod Did
pub mod Secrets
pub mod Calls
pub mod Atomic
pub mod Lanes
pub mod Minted
use t3_spend.Prelude.{ℕ, Bool, true, false, not, Option, none, some, List, ◌||◌, ◌&&◌}
use t3_spend.Prelude.Texts.{Text}
use t3_spend.Prelude.Failures.{
  Failure, refusal, engine, Stage, card_not_found, card_frozen, card_revoked, subcards_disabled,
  Result, ok, err, ◌>>=◌, ◌>>◌, throw_if, or_throw,
}
use t3_spend.Chains.{ChainId, delegation_manager}
use t3_spend.Types.{CardId, UserId, CardTerms, CompiledCard, WireDelegation}
use t3_spend.Compiler.{Kit}
use t3_spend.Compiler.Compile.{CompileOpts}
use t3_spend.Compiler.Attenuate.{attenuate}
use t3_spend.Custody.{Bytes, Vault, AgentKey}
use t3_spend.Delegations.{DelegationKit}
use t3_spend.Identity.{T3nBinding}
use t3_spend.Store.{CardStatus, CardRow, Store}
use t3_spend.Store.Cards.{get_card}
use t3_spend.Spend.Balance.{parent_remaining}
use t3_spend.Ops.{is_active, is_frozen}

-- The places where an issue awaits.
pub data IssueAwait : Type 0 where
  nonce key signed verified encrypted : IssueAwait

pub record Issuer : Type 0 where
  pub kit : Kit
  pub vault : Vault
  pub delegations : DelegationKit
  pub chain_id : ChainId
  pub now : ℕ
  pub revocation_nonce_override : Option ℕ
  -- `NonceEnforcer.read.currentNonce`, of a delegation manager and a delegator
  pub current_nonce : ChainId → Text → Text → Result ℕ
  -- what is drawn at random: a private key, the vectors, a salt, a secret and the ids
  pub agent_pk : Text
  pub agent_iv : Bytes
  pub secret_iv : Bytes
  pub salt_bytes : Bytes
  pub secret_bytes : Bytes
  pub fresh_card : CardId
  pub fresh_prepare : ℕ
  -- the clock as `createBinding` reads it, and `JSON.stringify` of a binding
  pub clock : ℕ
  pub binding_text : T3nBinding → Text
  -- what the other requests write during an `await`
  pub between : IssueAwait → Store → Store

-- `await r`
abbrev pub pause {ℓ} : {A : Type ℓ} → Issuer → IssueAwait → Result A → Store → Result A × Store
pause i at r s = (r, i.between at s)

pub record IssuedCard : Type 0 where
  pub card_id : CardId
  pub secret : Text
  pub k_agent_address : Text
  pub terms : CardTerms

pub record RootArgs : Type 0 where
  pub user_id : UserId
  pub name : Text
  pub terms : CardTerms

pub record SubArgs : Type 0 where
  pub parent_card_id : CardId
  pub name : Text
  pub terms : CardTerms

-- The identifier and the address of the agent that a card is bound to.
pub record Agent : Type 0 where
  pub did : Text
  pub address : Text

unfoldable pub read_revocation_nonce : Issuer → Text → Result ℕ
read_revocation_nonce i delegator = i.current_nonce i.chain_id delegation_manager delegator

abbrev pub opts_of : Issuer → ℕ → CompileOpts
opts_of i n = record { chain = i.chain_id; revocation_nonce = n; now = i.now }

-- The arguments of `createCard` that differ from call to call.
pub record Draft : Type 0 where
  pub id : CardId
  pub user_id : UserId
  pub parent_card_id : Option CardId
  pub name : Text
  pub terms : CardTerms
  pub compiled : CompiledCard
  pub delegation : WireDelegation
  pub key : AgentKey
  pub created_at : ℕ

unfoldable pub draft_row : Draft → Text → Bytes → Option Text → Option Text → CardRow
draft_row d hash secret_enc did binding = record {
  id = d.id;
  user_id = d.user_id;
  parent_card_id = d.parent_card_id;
  name = d.name;
  secret_hash = hash;
  secret_enc = some secret_enc;
  terms = d.terms;
  kind = d.compiled.kind;
  compiled = d.compiled;
  delegation = d.delegation;
  k_agent_enc = d.key.encrypted_pk;
  k_agent_address = d.key.address;
  t3n_did = did;
  t3n_binding = binding;
  status = CardStatus.active;
  created_at = d.created_at;
}

-- `parent.terms.subcards === false`
abbrev pub forbids_subcards : CardTerms → Bool
forbids_subcards terms = elim terms.subcards [ none ↦ false | some b ↦ not b ]

-- A parent that may mint sub-cards: it is there, active, and allows them.
unfoldable pub minting_parent : CardId → Store → Result CardRow
minting_parent id s = do
  parent ← or_throw (get_card id s) (refusal card_not_found)
  throw_if (is_frozen parent.status) (refusal card_frozen)
  throw_if (not (is_active parent.status)) (refusal card_revoked)
  throw_if (forbids_subcards parent.terms) (refusal subcards_disabled)
  ok parent

-- The child's terms, within what remains of the parent's.
unfoldable pub child_terms : Issuer → CardRow → CardTerms → Store → Result CardTerms
child_terms i parent given s = do
  remaining ← parent_remaining s parent i.now
  attenuate i.kit parent.terms remaining given i.now
