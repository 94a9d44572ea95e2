-- ===== src/Compiler/Validate.antt =====
-- `validateTerms` and `validateAndNormalizeContract` of packages/engine/src/compiler.ts. The source
-- normalises a contract scope in place; here the normalised terms are the result.
use t3_spend.Prelude.{
  ℕ, Bool, true, false, ◌&&◌, ◌||◌, not, Option, none, some, List, [], ◌∷◌, ◌++◌, map, ltb, leb,
  ◌==◌, if◌then◌else◌, is_some, or_else,
}
use t3_spend.Prelude.Lists.{length, all}
use t3_spend.Prelude.Texts.{Text, is_digit, has_address, has_text}
use t3_spend.Prelude.Failures.{
  Failure, refusal, invalid_terms, Result, ok, err, ◌>>=◌, ◌>>◌, throw_if,
}
use t3_spend.Types.{PeriodCap, PayTerms, ContractTerms, CardTerms}
use t3_spend.Money.{usdc_to_atoms}
use t3_spend.Compiler.{Kit, approve_sig}

abbrev pub invalid : Failure
invalid = refusal invalid_terms

abbrev is_hex_digit : ℕ → Bool
is_hex_digit c = is_digit c || (leb b'a' c && leb c b'f') || (leb b'A' c && leb c b'F')

-- ADDRESS_RE, `/^0x[0-9a-fA-F]{40}$/`
unfoldable pub is_address : Text → Bool
is_address [] = false
is_address (a ∷ []) = false
is_address (a ∷ x ∷ s) = a == b'0' && x == b'x' && length s == 40 && all is_hex_digit s

abbrev is_letter : ℕ → Bool
is_letter c = (leb b'a' c && leb c b'z') || (leb b'A' c && leb c b'Z') || c == b'_'

-- What `.` does not match.
abbrev is_line_end : ℕ → Bool
is_line_end c = c == 10 || c == 13 || c == 0x2028 || c == 0x2029

-- `.*\)$`
unfoldable pub ends_call : Text → Bool
ends_call [] = false
ends_call (c ∷ []) = c == b')'
ends_call (c ∷ d ∷ s) = not (is_line_end c) && ends_call (d ∷ s)

-- `\w*\(.*\)$`
unfoldable pub word_then_call : Text → Bool
unfolding ends_call
word_then_call [] = false
word_then_call (c ∷ s) =
    let rest = word_then_call s in
    if is_letter c || is_digit c then rest else (c == b'(' && ends_call s)

-- SELECTOR_RE, `/^[a-zA-Z_]\w*\(.*\)$/`
unfoldable pub is_selector : Text → Bool
unfolding word_then_call
is_selector [] = false
is_selector (c ∷ s) = is_letter c && word_then_call s

-- A malformed amount of a request is a typed refusal.
unfoldable pub usd_atoms : Text → Result ℕ
usd_atoms amount = elim (usdc_to_atoms amount) [ ok n ↦ ok n | err _ ↦ err invalid ]

-- `if (usdAtoms(amount) <= 0n) invalid(…)`
unfoldable pub positive_amount : Text → Result (Unit {0})
unfolding usd_atoms
positive_amount amount = do n ← usd_atoms amount; throw_if (leb n 0) invalid

unfoldable pub positive_if_given : Option Text → Result (Unit {0})
unfolding positive_amount
positive_if_given none = ok tt
positive_if_given (some amount) = positive_amount amount

abbrev pub is_empty {ℓ} : {A : Type ℓ} → List A → Bool
is_empty [] = true
is_empty (x ∷ xs) = false

-- The tokens that are not targets yet, each once: `have` grows with every addition.
unfoldable pub add_targets : List Text → List Text → List Text
unfolding has_address
add_targets targets [] = targets
add_targets targets (t ∷ ts) =
    add_targets (if has_address targets t then targets else targets ++ t ∷ []) ts

module _ (kit : Kit) where
  -- `canonicalSelector`: the input itself where it does not parse.
  unfoldable pub canonical_selector : Text → Text
  canonical_selector s = or_else (kit.signature s) s

  unfoldable pub is_method : Text → Bool
  unfolding is_selector
  is_method s = is_selector s && is_some (kit.signature s)

  -- The tokens union: a token is a target, and `approve` is in scope.
  unfoldable pub union_tokens : Option (List Text) → ContractTerms → Result ContractTerms
  unfolding is_address add_targets has_text
  union_tokens none ct = ok ct
  union_tokens (some tokens) ct = do
    throw_if (is_empty tokens) invalid
    throw_if (not (all is_address tokens)) invalid
    ok (record ct {
      targets = add_targets ct.targets tokens;
      selectors =
          if has_text ct.selectors approve_sig
          then ct.selectors
          else ct.selectors ++ approve_sig ∷ [];
    })

  unfoldable pub normalize_contract : ContractTerms → Result ContractTerms
  unfolding is_address is_method canonical_selector union_tokens positive_if_given
  normalize_contract ct = do
    throw_if (is_empty ct.targets) invalid
    throw_if (is_empty ct.selectors) invalid
    throw_if (not (all is_address ct.targets)) invalid
    throw_if (not (all is_method ct.selectors)) invalid
    ct' ← union_tokens ct.tokens (record ct { selectors = map canonical_selector ct.selectors })
    positive_if_given ct.per_trade_max
    ok ct'

  unfoldable pub check_period : Option PeriodCap → Result (Unit {0})
  unfolding positive_amount
  check_period none = ok tt
  check_period (some p) = do positive_amount p.amount; throw_if (ltb p.seconds 60) invalid

  unfoldable pub check_pay : Option PayTerms → Result (Unit {0})
  unfolding check_period positive_if_given
  check_pay none = ok tt
  check_pay (some pay) = do
    throw_if (not (is_some pay.period) && not (is_some pay.lifetime)) invalid
    check_period pay.period
    positive_if_given pay.lifetime

  unfoldable pub check_contract : Option ContractTerms → Result (Option ContractTerms)
  unfolding normalize_contract
  check_contract none = ok none
  check_contract (some ct) = do ct' ← normalize_contract ct; ok (some ct')

  unfoldable pub check_expiry : Option ℕ → ℕ → Result (Unit {0})
  check_expiry none now = ok tt
  check_expiry (some t) now = throw_if (leb t now) invalid

  unfoldable pub check_max_uses : Option ℕ → Result (Unit {0})
  check_max_uses none = ok tt
  check_max_uses (some n) = throw_if (ltb n 1) invalid

  unfoldable pub check_merchants : Option (List Text) → Result (Unit {0})
  unfolding is_address
  check_merchants none = ok tt
  check_merchants (some ms) = throw_if (is_empty ms || not (all is_address ms)) invalid

  unfoldable pub validate_terms : CardTerms → ℕ → Result CardTerms
  unfolding check_pay check_contract check_expiry check_max_uses positive_if_given check_merchants
  validate_terms terms now = do
    throw_if (not (is_some terms.pay) && not (is_some terms.contract)) invalid
    check_pay terms.pay
    contract ← check_contract terms.contract
    check_expiry terms.expiry now
    check_max_uses terms.max_uses
    positive_if_given terms.per_tx_max
    check_merchants terms.merchants
    ok (record terms { contract = contract })
