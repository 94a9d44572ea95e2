-- ===== src/Compiler/Attenuate.antt =====
-- `attenuate` of packages/engine/src/compiler.ts: a child's terms, checked against its parent's and
-- filled from them.
pub mod Bounds
pub mod Budgets
pub mod Addresses
pub mod Scopes
pub mod Terms
use t3_spend.Prelude.{ℕ, Bool, not, Option, none, some, List, map, ltb, if◌then◌else◌, or_else}
use t3_spend.Prelude.Lists.{all}
use t3_spend.Prelude.Texts.{Text, has_address, has_text}
use t3_spend.Prelude.Failures.{
  Failure, refusal, exceeds_parent_terms, Result, ok, err, ◌>>=◌, ◌>>◌, throw_if,
}
use t3_spend.Types.{PeriodCap, PayTerms, ContractTerms, CardTerms}
use t3_spend.Money.{usdc_to_atoms, usdc_text}
use t3_spend.Compiler.{Kit, approve_sig}
use t3_spend.Compiler.Validate.{usd_atoms, canonical_selector, normalize_contract, validate_terms}

pub record ParentRemaining : Type 0 where
  pub period_remaining_atoms : Option ℕ
  pub lifetime_remaining_atoms : Option ℕ

abbrev pub exceeds : Failure
exceeds = refusal exceeds_parent_terms

-- The parent's period, capped to what remains of it.
unfoldable pub inherit_period : Option PeriodCap → Option ℕ → Result (Option PeriodCap)
inherit_period none remaining = ok none
inherit_period (some p) remaining = do
  full ← usdc_to_atoms p.amount
  let cap = or_else remaining full
  ok (
      some
        (record { amount = usdc_text (if ltb cap full then cap else full); seconds = p.seconds }))

unfoldable pub inherit_lifetime : Option Text → Option ℕ → Result (Option Text)
inherit_lifetime none remaining = ok none
inherit_lifetime (some l) remaining = do
  full ← usdc_to_atoms l
  ok (some (usdc_text (or_else remaining full)))

-- Refuses a child's amount above a cap: `if (usdAtoms(amount) > cap) exceeds(…)`.
unfoldable pub within : Text → ℕ → Result (Unit {0})
within amount cap = do n ← usd_atoms amount; throw_if (ltb cap n) exceeds

-- A child's period against the parent's period, or against its lifetime where it has no period.
unfoldable pub check_against : Text → Option PeriodCap → Option Text → Result (Unit {0})
unfolding within
check_against amount (some q) lifetime = do cap ← usdc_to_atoms q.amount; within amount cap
check_against amount none (some l) = do cap ← usdc_to_atoms l; within amount cap
check_against amount none none = ok tt

unfoldable pub check_child_period : Option PeriodCap → PayTerms → Result (Unit {0})
unfolding check_against
check_child_period none parent = ok tt
check_child_period (some p) parent = check_against p.amount parent.period parent.lifetime

unfoldable pub check_child_lifetime : Option Text → Option Text → Option ℕ → Result (Unit {0})
unfolding within
check_child_lifetime (some l) (some parent) remaining = do
  full ← usdc_to_atoms parent
  within l (or_else remaining full)
check_child_lifetime _ _ remaining = ok tt

unfoldable pub attenuate_pay :
    Option PayTerms → ParentRemaining → Option PayTerms → Result (Option PayTerms)
unfolding inherit_period inherit_lifetime check_child_period check_child_lifetime
attenuate_pay none remaining none = ok none
attenuate_pay none remaining (some child) = err exceeds
attenuate_pay (some parent) remaining none = do
  period ← inherit_period parent.period remaining.period_remaining_atoms
  lifetime ← inherit_lifetime parent.lifetime remaining.lifetime_remaining_atoms
  ok (some (record { period = period; lifetime = lifetime }))
attenuate_pay (some parent) remaining (some child) = do
  check_child_period child.period parent
  check_child_lifetime child.lifetime parent.lifetime remaining.lifetime_remaining_atoms
  ok (some child)

-- Every address of the child is one of the parent's.
unfoldable pub addresses_within : List Text → List Text → Bool
unfolding has_address
addresses_within child parent = all (λ t. has_address parent t) child

unfoldable pub check_child_tokens : Option (List Text) → Option (List Text) → Result (Unit {0})
unfolding addresses_within
check_child_tokens (some parent) (some child) =
    throw_if (not (addresses_within child parent)) exceeds
check_child_tokens _ _ = ok tt

-- The tightest per-trade cap governs; a silent child inherits it if it may grant allowances.
unfoldable pub attenuate_per_trade_max : Option Text → ContractTerms → Result ContractTerms
unfolding has_text
attenuate_per_trade_max none child = ok child
attenuate_per_trade_max (some parent) child = elim child.per_trade_max [
  | none ↦ ok (
      if has_text child.selectors approve_sig
      then record child { per_trade_max = some parent }
      else child)
  | some own ↦ (do
    n ← usdc_to_atoms own
    cap ← usdc_to_atoms parent
    throw_if (ltb cap n) exceeds
    ok child)
]

unfoldable pub attenuate_expiry : Option ℕ → Option ℕ → Result (Option ℕ)
attenuate_expiry none child = ok child
attenuate_expiry (some parent) none = ok (some parent)
attenuate_expiry (some parent) (some child) = do
  throw_if (ltb parent child) exceeds
  ok (some child)

unfoldable pub attenuate_merchants :
    Option (List Text) → Option (List Text) → Result (Option (List Text))
unfolding addresses_within
attenuate_merchants none child = ok child
attenuate_merchants (some parent) none = ok (some parent)
attenuate_merchants (some parent) (some child) = do
  throw_if (not (addresses_within child parent)) exceeds
  ok (some child)

-- The child's amount is parsed by `usdcToAtoms` here, not by `usdAtoms`.
unfoldable pub attenuate_per_tx_max : Option Text → Option Text → Result (Option Text)
attenuate_per_tx_max none child = ok child
attenuate_per_tx_max (some parent) none = ok (some parent)
attenuate_per_tx_max (some parent) (some child) = do
  n ← usdc_to_atoms child
  cap ← usdc_to_atoms parent
  throw_if (ltb cap n) exceeds
  ok (some child)

unfoldable pub check_child_uses : Option ℕ → Option ℕ → Result (Unit {0})
check_child_uses (some parent) (some child) = throw_if (ltb parent child) exceeds
check_child_uses _ _ = ok tt

module _ (kit : Kit) where
  unfoldable pub attenuate_contract :
      Option ContractTerms → Option ContractTerms → Result (Option ContractTerms)
  unfolding addresses_within has_text check_child_tokens attenuate_per_trade_max
  attenuate_contract parent none = ok none
  attenuate_contract none (some child) = err exceeds
  attenuate_contract (some parent) (some given) = do
    child ← normalize_contract kit given
    throw_if (not (addresses_within child.targets parent.targets)) exceeds
    throw_if
        (not (
          all
            (λ s.
              has_text (map (canonical_selector kit) parent.selectors) (canonical_selector kit s))
            child.selectors))
        exceeds
    check_child_tokens parent.tokens child.tokens
    capped ← attenuate_per_trade_max parent.per_trade_max child
    ok (some capped)

  unfoldable pub attenuate : CardTerms → ParentRemaining → CardTerms → ℕ → Result CardTerms
  unfolding attenuate_pay attenuate_contract attenuate_expiry attenuate_merchants
      attenuate_per_tx_max check_child_uses
  attenuate parent remaining child now = do
    pay ← attenuate_pay parent.pay remaining child.pay
    contract ← attenuate_contract parent.contract child.contract
    expiry ← attenuate_expiry parent.expiry child.expiry
    merchants ← attenuate_merchants parent.merchants child.merchants
    per_tx_max ← attenuate_per_tx_max parent.per_tx_max child.per_tx_max
    check_child_uses parent.max_uses child.max_uses
    validate_terms kit
        (record child {
          pay = pay;
          contract = contract;
          expiry = expiry;
          merchants = merchants;
          per_tx_max = per_tx_max;
        })
        now
