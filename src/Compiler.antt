-- ===== src/Compiler.antt =====
-- packages/engine/src/compiler.ts: what the compiler calls of viem and of the smart-accounts kit, and
-- the constants. The functions are in the modules below, and so are the proofs.
pub mod Validate
pub mod Scope
pub mod Allowance
pub mod Compile
pub mod Attenuate
use t3_spend.Prelude.{ℕ, Option, none, some, List}
use t3_spend.Prelude.Texts.{Text, codes}
use t3_spend.Types.{WireCaveat}

-- The third-party functions. `none` stands for a call that throws.
pub record Kit : Type 0 where
  -- `toFunctionSignature(parseAbiItem("function " + s))`
  pub signature : Text → Option Text
  -- `toFunctionSelector(s)`
  pub selector : Text → Option Text
  -- the caveats that the caveat builder makes
  pub period_transfer : Text → ℕ → ℕ → ℕ → WireCaveat
  pub transfer_amount : Text → ℕ → WireCaveat
  pub allowed_targets : List Text → WireCaveat
  pub allowed_methods : List Text → WireCaveat
  pub timestamp : ℕ → ℕ → WireCaveat
  pub limited_calls : ℕ → WireCaveat
  pub nonce : ℕ → WireCaveat
  pub allowed_calldata : ℕ → Text → WireCaveat
  -- `createLogicalOrWrapperTerms`, `createLogicalOrWrapperArgs`
  pub or_terms : List (List WireCaveat) → Text
  pub or_wrapper_args : ℕ → List Text → Text
  -- `pad(s, { size: 32 })`, `toHex(n)`
  pub pad32 : Text → Text
  pub to_hex : ℕ → Text

unfoldable pub transfer_sig : Text
transfer_sig = codes "transfer(address,uint256)"

unfoldable pub approve_sig : Text
approve_sig = codes "approve(address,uint256)"

unfoldable pub increase_allowance_sig : Text
increase_allowance_sig = codes "increaseAllowance(address,uint256)"

abbrev pub start_date_backdate_s : ℕ
start_date_backdate_s = 300

abbrev pub max_executions_per_redemption : ℕ
max_executions_per_redemption = 6
