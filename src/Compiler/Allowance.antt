-- ===== src/Compiler/Allowance.antt =====
-- The allowance calls of packages/engine/src/compiler.ts: decoding calldata, and the pins.
use t3_spend.Prelude.{
  ℕ, ◌+◌, ◌-◌, ◌*◌, Bool, false, ◌&&◌, not, Option, none, some, List, [], ◌∷◌, ◌++◌, leb, ◌==◌,
  if◌then◌else◌,
}
use t3_spend.Prelude.Lists.{length, take, drop, replicate}
use t3_spend.Prelude.Texts.{Text, codes, is_digit, lower, text_eq}
use t3_spend.Prelude.Failures.{
  refusal, bare, invalid_terms, Result, ok, ◌>>=◌, ◌>>◌, throw_if, or_throw,
}
use t3_spend.Types.{WireExecution, WireCaveat}
use t3_spend.Compiler.{Kit, approve_sig, increase_allowance_sig}
use t3_spend.Compiler.Scope.{LeafScope, function_call}

pub record AllowanceCall : Type 0 where
  pub token : Text
  pub spender : Text
  pub amount_atoms : ℕ
  pub sig : Text

-- `s.slice(a, b)`
abbrev pub slice : ℕ → ℕ → Text → Text
slice a b s = take (b - a) (drop a s)

-- A lower-case hex digit.
unfoldable pub hex_digit : ℕ → Option ℕ
hex_digit c =
    if is_digit c then some (c - 48) else if leb b'a' c && leb c b'f' then some (c - 87) else none

-- `BigInt("0x" + s)`, which throws at what is no hex digit.
unfoldable pub hex_from : ℕ → Text → Option ℕ
unfolding hex_digit
hex_from n [] = some n
hex_from n (c ∷ s) = elim (hex_digit c) [ none ↦ none | some d ↦ hex_from (n * 16 + d) s ]

-- `/^0{24}/`
unfoldable pub is_address_word : Text → Bool
unfolding text_eq
is_address_word word = text_eq (take 24 word) (replicate 24 b'0')

module _ (kit : Kit) where
  unfoldable pub has_selector : Text → Text → Bool
  unfolding text_eq lower
  has_selector sig head = elim (kit.selector sig) [ none ↦ false | some s ↦ text_eq (lower s) head ]

  -- APPROVE_LIKE
  unfoldable pub approve_like : Text → Option Text
  unfolding has_selector
  approve_like head =
      if has_selector increase_allowance_sig head
      then some increase_allowance_sig
      else if has_selector approve_sig head
      then some approve_sig
      else none

  -- The words of a call whose selector is that of `sig`.
  unfoldable pub decode_words : Text → Text → Text → Result (Option AllowanceCall)
  unfolding hex_from is_address_word
  decode_words target calldata sig = do
    throw_if (not (length calldata == 2 + 8 + 64 + 64)) (refusal invalid_terms)
    throw_if (not (is_address_word (slice 10 74 calldata))) (refusal invalid_terms)
    amount ← or_throw (hex_from 0 (slice 74 138 calldata)) bare
    ok (
        some (record {
          token = target;
          spender = codes "0x" ++ drop 24 (slice 10 74 calldata);
          amount_atoms = amount;
          sig = sig;
        }))

  -- `none` where the call is of another method.
  unfoldable pub decode_allowance_call : WireExecution → Result (Option AllowanceCall)
  unfolding approve_like decode_words lower
  decode_allowance_call e = elim (approve_like (take 10 (lower e.payload))) [
    | none ↦ ok none
    | some sig ↦ decode_words e.target (lower e.payload) sig
  ]

  unfoldable pub allowance_pin_caveats : AllowanceCall → List WireCaveat
  allowance_pin_caveats call =
      kit.allowed_calldata 4 (kit.pad32 call.spender)
      ∷ kit.allowed_calldata 36 (kit.pad32 (kit.to_hex call.amount_atoms))
      ∷ []

unfoldable pub allowance_leaf_scope : AllowanceCall → LeafScope
allowance_leaf_scope call =
    function_call (record { targets = call.token ∷ []; selectors = call.sig ∷ [] })
