-- ===== src/Delegations.antt =====
-- packages/engine/src/delegations.ts: the builders of root and child delegations, signing and the check
-- of a signature, the authorization of EIP-7702, and the executions. What the code calls of viem, of the
-- smart-accounts kit and of the chain is a parameter, and so is what is drawn at random.
use t3_spend.Prelude.{
  ◌+◌, ◌/◌, ◌%◌, leb, or_else, ℕ, Bool, true, false, not, Option, none, some, List, [], ◌∷◌, ◌++◌,
  if◌then◌else◌,
}
use t3_spend.Prelude.Texts.{Text, codes, text_eq}
use t3_spend.Prelude.Failures.{engine, Stage, Result, ok, err, ◌>>=◌, or_throw}
use t3_spend.Types.{WireCaveat, WireDelegation, WireExecution}
use t3_spend.Chains.{ChainId, usdc, delegation_manager}
use t3_spend.Custody.{Bytes}

pub record Domain : Type 0 where
  pub name : Text
  pub version : Text
  pub chain : ChainId
  pub verifying_contract : Text

pub record DelegationKit : Type 0 where
  pub root_authority : Text
  pub hash_delegation : WireDelegation → Text
  -- `signDelegation` of a smart account, by its owner's address, and with a private key
  pub sign_account : Text → WireDelegation → ChainId → Result Text
  pub sign_key : Text → WireDelegation → Text → ChainId → Result Text
  -- `recoverTypedDataAddress` of a message's signature
  pub recover : Domain → WireDelegation → Text → Result Text
  pub is_address_equal : Text → Text → Result Bool
  -- `implementations.EIP7702StatelessDeleGatorImpl`
  pub delegator_impl : ChainId → Option Text
  -- `getTransactionCount`, `getCode`
  pub transaction_count : Text → ChainId → Result ℕ
  pub code_of : Text → ChainId → Result (Option Text)
  -- `signAuthorization`: the parity, r and s
  pub sign_authorization : Text → Text → ChainId → ℕ → Result (Option ℕ × Text × Text)
  -- `"0x" + n.toString(16)`, and that of a chain's number
  pub to_hex : ℕ → Text
  pub chain_hex : ChainId → Text
  -- `encodeFunctionData` of `transfer` and `approve`
  pub encode_transfer : Text → ℕ → Result Text
  pub encode_approve : Text → ℕ → Result Text

unfoldable pub empty_signature : Text
empty_signature = codes "0x"

-- `!signature || signature === "0x"`
unfoldable pub unsigned : Text → Bool
unfolding text_eq empty_signature
unsigned [] = true
unsigned (c ∷ s) = text_eq (c ∷ s) empty_signature

-- A byte as two hexadecimal digits: `b.toString(16).padStart(2, "0")`
unfoldable pub hex_char : ℕ → ℕ
hex_char n = if leb n 9 then 48 + n else 87 + n

unfoldable pub hex_of_bytes : Bytes → Text
unfolding hex_char
hex_of_bytes [] = []
hex_of_bytes (b ∷ bs) = hex_char (b / 16) ∷ hex_char (b % 16) ∷ hex_of_bytes bs

-- The 32 bytes are drawn at random.
unfoldable pub fresh_salt : Bytes → Text
unfolding hex_of_bytes
fresh_salt bytes = codes "0x" ++ hex_of_bytes bytes

module _ (kit : DelegationKit) where
  unfoldable pub build_root_delegation : Text → Text → List WireCaveat → Text → WireDelegation
  unfolding empty_signature
  build_root_delegation delegator delegate caveats salt = record {
    delegate = delegate;
    delegator = delegator;
    authority = kit.root_authority;
    caveats = caveats;
    salt = salt;
    signature = empty_signature;
  }

  -- The authority binds the child to the hash of the signed parent.
  unfoldable pub build_child_delegation :
      WireDelegation → Text → Text → List WireCaveat → Text → WireDelegation
  unfolding empty_signature
  build_child_delegation parent delegator delegate caveats salt = record {
    delegate = delegate;
    delegator = delegator;
    authority = kit.hash_delegation parent;
    caveats = caveats;
    salt = salt;
    signature = empty_signature;
  }

  unfoldable pub sign_with_smart_account : Text → WireDelegation → ChainId → Result WireDelegation
  sign_with_smart_account account d chain = do
    signature ← kit.sign_account account d chain
    ok (record d { signature = signature })

  unfoldable pub sign_with_private_key : Text → WireDelegation → ChainId → Result WireDelegation
  sign_with_private_key pk d chain = do
    signature ← kit.sign_key pk d delegation_manager chain
    ok (record d { signature = signature })

  unfoldable pub delegation_domain : ChainId → Domain
  delegation_domain chain = record {
    name = codes "DelegationManager";
    version = codes "1";
    chain = chain;
    verifying_contract = delegation_manager;
  }

  -- `try { … } catch { return false }`
  unfoldable pub or_false : Result Bool → Bool
  or_false (ok b) = b
  or_false (err e) = false

  unfoldable pub recovers_to : WireDelegation → Text → ChainId → Result Bool
  unfolding delegation_domain empty_signature
  recovers_to d expected chain = do
    recovered ←
        kit.recover (delegation_domain chain) (record d { signature = empty_signature }) d.signature
    kit.is_address_equal recovered expected

  unfoldable pub verify_root_delegation_signature : WireDelegation → Text → ChainId → Bool
  unfolding or_false recovers_to unsigned
  verify_root_delegation_signature d expected chain =
      if unsigned d.signature then false else or_false (recovers_to d expected chain)

  unfoldable pub authorization_nonce : Text → ChainId → Option ℕ → Result ℕ
  authorization_nonce address chain (some n) = ok n
  authorization_nonce address chain none = elim (kit.transaction_count address chain) [
    | ok n ↦ ok n
    | err e ↦ err (engine Stage.delegations)
  ]

  unfoldable pub has_7702_code : Text → ChainId → Result Bool
  unfolding unsigned
  has_7702_code address chain = do
    code ← kit.code_of address chain
    ok (elim code [ none ↦ false | some c ↦ not (unsigned c) ])

  unfoldable pub erc20_transfer_execution : Text → Text → ℕ → Result WireExecution
  erc20_transfer_execution token to amount = do
    payload ← kit.encode_transfer to amount
    ok (record { target = token; value = codes "0"; payload = payload })

  unfoldable pub erc20_approve_execution : Text → Text → ℕ → Result WireExecution
  erc20_approve_execution token spender amount = do
    payload ← kit.encode_approve spender amount
    ok (record { target = token; value = codes "0"; payload = payload })

  unfoldable pub fee_execution : Text → ℕ → ChainId → Result WireExecution
  unfolding erc20_transfer_execution
  fee_execution collector fee_atoms chain =
      erc20_transfer_execution (usdc chain) collector fee_atoms

pub record Wire7702Auth : Type 0 where
  pub chain_id : Text
  pub address : Text
  pub nonce : Text
  pub y_parity : Text
  pub r : Text
  pub s : Text

unfoldable pub sign_7702_auth : DelegationKit → Text → ChainId → Option ℕ → Result Wire7702Auth
unfolding authorization_nonce
sign_7702_auth kit account chain nonce_override = do
  impl ← or_throw (kit.delegator_impl chain) (engine Stage.delegations)
  nonce ← authorization_nonce kit account chain nonce_override
  (parity, r, s) ← kit.sign_authorization account impl chain nonce
  ok (record {
    chain_id = kit.chain_hex chain;
    address = impl;
    nonce = kit.to_hex nonce;
    y_parity = kit.to_hex (or_else parity 0);
    r = r;
    s = s;
  })
