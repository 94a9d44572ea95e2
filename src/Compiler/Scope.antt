-- ===== src/Compiler/Scope.antt =====
-- The scopes of packages/engine/src/compiler.ts: what the fee leg adds to a contract scope, and what a
-- leaf delegation allows.
pub mod FeeLeg
use t3_spend.Prelude.{ℕ, List, [], ◌∷◌, ◌++◌, if◌then◌else◌}
use t3_spend.Prelude.Texts.{Text, has_address, has_text}
use t3_spend.Types.{ContractTerms}
use t3_spend.Chains.{ChainId, usdc}
use t3_spend.Compiler.{transfer_sig}

pub record CallScope : Type 0 where
  pub targets : List Text
  pub selectors : List Text

-- Unions USDC and `transfer` into a scope, so that the fee leg passes.
unfoldable pub fee_safe_contract_scope : ContractTerms → ChainId → CallScope
unfolding has_address has_text
fee_safe_contract_scope terms chain = record {
  targets =
      if has_address terms.targets (usdc chain)
      then terms.targets
      else terms.targets ++ usdc chain ∷ [];
  selectors =
      if has_text terms.selectors transfer_sig
      then terms.selectors
      else terms.selectors ++ transfer_sig ∷ [];
}

-- The scope that the user declared, which agents' calls are checked against.
unfoldable pub declared_contract_scope : ContractTerms → CallScope
declared_contract_scope terms = record { targets = terms.targets; selectors = terms.selectors }

-- The scope of a leaf delegation.
pub data LeafScope : Type 0 where
  erc20_transfer_amount : Text → ℕ → LeafScope
  function_call : CallScope → LeafScope

unfoldable pub pay_leaf_scope : ℕ → ChainId → LeafScope
pay_leaf_scope max_amount chain = erc20_transfer_amount (usdc chain) max_amount

unfoldable pub contract_leaf_scope : ContractTerms → ChainId → LeafScope
unfolding fee_safe_contract_scope
contract_leaf_scope terms chain = function_call (fee_safe_contract_scope terms chain)
