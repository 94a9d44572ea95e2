-- ===== src/Spend/Validate.antt =====
-- `assertChainSpendable` and `validateSpend` of packages/engine/src/spend.ts.
pub mod Accepts
use t3_spend.Prelude.{
  ℕ, ◌+◌, Bool, true, false, ◌&&◌, ◌||◌, not, Option, none, some, List, [], ◌∷◌, ltb, leb,
  if◌then◌else◌, or_else,
}
use t3_spend.Prelude.Lists.{all, take}
use t3_spend.Prelude.Texts.{Text, codes, lower, text_eq, same_address, has_address}
use t3_spend.Prelude.Failures.{
  refusal, invalid_terms, merchant_not_allowed, per_tx_exceeded, card_frozen, card_revoked,
  card_expired, target_not_allowed, method_not_allowed, spender_not_allowed, token_not_allowed,
  per_trade_exceeded, uses_exhausted, over_period_limit, over_lifetime_limit, Result, ok, err,
  ◌>>=◌, ◌>>◌, throw_if, or_throw,
}
use t3_spend.Types.{PeriodCap, ContractTerms, WireExecution, SpendMode}
use t3_spend.Chains.{ChainId, usdc}
use t3_spend.Money.{usdc_to_atoms}
use t3_spend.Store.{CardStatus, CardRow, Store}
use t3_spend.Store.Window.{period_window}
use t3_spend.Store.Accounting.{subtree_spent_since, subtree_spent_lifetime, subtree_uses_count}
use t3_spend.Compiler.{Kit}
use t3_spend.Compiler.Validate.{canonical_selector, is_empty}
use t3_spend.Compiler.Scope.{declared_contract_scope}
use t3_spend.Compiler.Allowance.{AllowanceCall, decode_allowance_call}
use t3_spend.Spend.{SpendRequest}

abbrev pub is_expired : Option ℕ → ℕ → Bool
is_expired none now = false
is_expired (some t) now = leb t now

unfoldable pub assert_status : CardStatus → Result (Unit {0})
assert_status CardStatus.active = ok tt
assert_status CardStatus.frozen = err (refusal card_frozen)
assert_status CardStatus.revoked = err (refusal card_revoked)
assert_status CardStatus.nuked = err (refusal card_revoked)

unfoldable pub assert_chain_spendable : List CardRow → ℕ → Result (Unit {0})
unfolding assert_status
assert_chain_spendable [] now = ok tt
assert_chain_spendable (c ∷ cs) now = do
  assert_status c.status
  throw_if (is_expired c.terms.expiry now) (refusal card_expired)
  assert_chain_spendable cs now

-- `!x` of an optional text: the empty text counts as absent.
abbrev pub truthy : Option Text → Option Text
truthy none = none
truthy (some []) = none
truthy (some (c ∷ s)) = some (c ∷ s)

unfoldable pub allows_merchant : Text → CardRow → Bool
unfolding has_address
allows_merchant to c = elim c.compiled.carve_policy.merchants [
  | none ↦ true
  | some ms ↦ has_address ms to
]

unfoldable pub allows_amount : ℕ → CardRow → Bool
allows_amount amount c = elim c.compiled.carve_policy.per_tx_max_atoms [
  | none ↦ true
  | some cap ↦ leb amount cap
]

unfoldable pub validate_pay : List CardRow → SpendRequest → Result (Unit {0})
unfolding allows_merchant allows_amount
validate_pay chain req = do
  to ← or_throw (truthy req.to) (refusal invalid_terms)
  amount ← or_throw req.amount_atoms (refusal invalid_terms)
  throw_if (leb amount 0) (refusal invalid_terms)
  throw_if (not (all (allows_merchant to) chain)) (refusal merchant_not_allowed)
  throw_if (not (all (allows_amount amount) chain)) (refusal per_tx_exceeded)

abbrev is_native_value : Text → Bool
is_native_value value = not (is_empty value) && not (text_eq value (codes "0"))

module _ (kit : Kit) (chain_id : ChainId) where
  unfoldable pub allows_selector : List Text → Text → Bool
  unfolding text_eq lower canonical_selector
  allows_selector [] head = false
  allows_selector (s ∷ ss) head =
      elim (kit.selector (canonical_selector kit s)) [
        | none ↦ false
        | some h ↦ text_eq (lower h) head
      ]
      || allows_selector ss head

  -- The per-trade cap, which is parsed only for an allowance of the settlement token.
  unfoldable pub check_trade : Option Text → AllowanceCall → Result (Unit {0})
  unfolding same_address
  check_trade none al = ok tt
  check_trade (some cap) al =
      if same_address al.token (usdc chain_id)
      then (do
        limit ← usdc_to_atoms cap
        throw_if (ltb limit al.amount_atoms) (refusal per_trade_exceeded))
      else ok tt

  unfoldable pub check_allowance : ContractTerms → Option AllowanceCall → Result (Unit {0})
  unfolding has_address check_trade
  check_allowance terms none = ok tt
  check_allowance terms (some al) = do
    throw_if (not (has_address (declared_contract_scope terms).targets al.spender))
        (refusal spender_not_allowed)
    throw_if (elim terms.tokens [ none ↦ false | some ts ↦ not (has_address ts al.token) ])
        (refusal token_not_allowed)
    check_trade terms.per_trade_max al

  unfoldable pub check_call :
      ContractTerms → WireExecution → Option AllowanceCall → Result (Unit {0})
  unfolding has_address allows_selector check_allowance lower text_eq declared_contract_scope
  check_call terms e al = do
    throw_if (not (has_address (declared_contract_scope terms).targets e.target))
        (refusal target_not_allowed)
    throw_if
        (not
          (allows_selector (declared_contract_scope terms).selectors (lower (take 10 e.payload))))
        (refusal method_not_allowed)
    throw_if (is_native_value e.value) (refusal invalid_terms)
    check_allowance terms al

  unfoldable pub check_calls :
      ContractTerms → List (WireExecution × Option AllowanceCall) → Result (Unit {0})
  unfolding check_call
  check_calls terms [] = ok tt
  check_calls terms ((e, al) ∷ es) = do check_call terms e al; check_calls terms es

  -- Pay-only ancestors are passed over.
  unfoldable pub check_scopes :
      List CardRow → List (WireExecution × Option AllowanceCall) → Result (Unit {0})
  unfolding check_calls
  check_scopes [] calls = ok tt
  check_scopes (c ∷ cs) calls = do
    elim c.terms.contract [ none ↦ ok tt | some terms ↦ check_calls terms calls ]
    check_scopes cs calls

  unfoldable pub decode_all :
      List WireExecution → Result (List (WireExecution × Option AllowanceCall))
  decode_all [] = ok []
  decode_all (e ∷ es) = do
    al ← decode_allowance_call kit e
    rest ← decode_all es
    ok ((e, al) ∷ rest)

  unfoldable pub has_contract : List CardRow → Bool
  has_contract [] = false
  has_contract (c ∷ cs) = elim c.terms.contract [ none ↦ false | some _ ↦ true ]

  unfoldable pub validate_contract : List CardRow → SpendRequest → Result (Unit {0})
  unfolding check_scopes decode_all has_contract
  validate_contract chain req = do
    throw_if (not (has_contract chain)) (refusal target_not_allowed)
    throw_if (is_empty (or_else req.work_executions [])) (refusal invalid_terms)
    calls ← decode_all (or_else req.work_executions [])
    check_scopes chain calls

-- The `limitedCalls` mirror.
unfoldable pub check_uses : Store → List CardRow → Result (Unit {0})
check_uses s [] = ok tt
check_uses s (c ∷ cs) = do
  throw_if (elim c.terms.max_uses [ none ↦ false | some n ↦ leb n (subtree_uses_count c.id s) ])
      (refusal uses_exhausted)
  check_uses s cs

unfoldable pub check_period_cap :
    Store → CardRow → Option PeriodCap → Option ℕ → ℕ → ℕ → Result (Unit {0})
check_period_cap s c (some p) (some start_date) total now = do
  cap ← usdc_to_atoms p.amount
  throw_if
      (ltb cap (subtree_spent_since c.id (period_window start_date p.seconds now).start s + total))
      (refusal over_period_limit)
check_period_cap s c _ _ total now = ok tt

unfoldable pub check_lifetime_cap : Store → CardRow → Option Text → ℕ → Result (Unit {0})
check_lifetime_cap s c none total = ok tt
check_lifetime_cap s c (some lifetime) total = do
  cap ← usdc_to_atoms lifetime
  throw_if (ltb cap (subtree_spent_lifetime c.id s + total)) (refusal over_lifetime_limit)

unfoldable pub check_card_caps : Store → CardRow → ℕ → ℕ → Result (Unit {0})
unfolding check_period_cap check_lifetime_cap
check_card_caps s c total now = elim c.terms.pay [
  | none ↦ ok tt
  | some pay ↦ (do
    check_period_cap s c pay.period c.compiled.period_start_date total now
    check_lifetime_cap s c pay.lifetime total)
]

-- Fee-inclusive, fixed windows, subtree-wide, every ancestor.
unfoldable pub check_caps : Store → List CardRow → ℕ → ℕ → Result (Unit {0})
unfolding check_card_caps
check_caps s [] total now = ok tt
check_caps s (c ∷ cs) total now = do check_card_caps s c total now; check_caps s cs total now

unfoldable pub validate_mode : Kit → ChainId → List CardRow → SpendRequest → Result (Unit {0})
unfolding validate_pay validate_contract
validate_mode kit chain_id chain req = elim req.mode [
  | SpendMode.pay ↦ validate_pay chain req
  | SpendMode.contract ↦ validate_contract kit chain_id chain req
]

unfoldable pub validate_spend :
    Kit → ChainId → Store → List CardRow → SpendRequest → ℕ → ℕ → Result (Unit {0})
unfolding validate_mode check_uses check_caps
validate_spend kit chain_id s chain req total now = do
  validate_mode kit chain_id chain req
  check_uses s chain
  check_caps s chain total now
