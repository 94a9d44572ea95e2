-- ===== src/Prelude/Failures.antt =====
-- packages/engine/src/errors.ts: the refusals that agents see, the engine's own errors, and results
-- as values. Messages and details are not modelled.
use mathlib.Core.Path.{◌≡◌, refl, ap}
use mathlib.Core.Logic.{◌⊎◌, inl, inr}
use mathlib.Core.Bool.{Bool, true, false}
use mathlib.Core.Option.{Option, none, some}

-- REFUSAL_CODES
pub data RefusalCode : Type 0 where
  over_period_limit over_lifetime_limit per_tx_exceeded merchant_not_allowed : RefusalCode
  card_frozen card_expired card_revoked card_not_found uses_exhausted : RefusalCode
  exceeds_parent_terms subcards_disabled not_your_subcard target_not_allowed : RefusalCode
  method_not_allowed spender_not_allowed token_not_allowed per_trade_exceeded : RefusalCode
  price_exceeds_max no_fiat_card invalid_terms : RefusalCode

-- The stage of an `EngineError`.
pub data Stage : Type 0 where
  settle estimate send spend ops issuance x402 relayer custody delegations api : Stage

-- What a call throws: a `RefusalError`, an `EngineError`, a bare `Error` (an amount that does not
-- parse), or an error of the database (a constraint).
pub data Failure : Type 0 where
  refusal : RefusalCode → Failure
  engine : Stage → Failure
  bare : Failure
  constraint : Failure

-- `err`: the call throws.
pub data Result {κ} (R : Type κ) : Type κ where
  -- the call returns
  ok : R → Result R
  err : Failure → Result R

-- `if (c) throw e`
abbrev pub throw_if : Bool → Failure → Result (Unit {0})
throw_if true e = err e
throw_if false e = ok tt

-- `if (!x) throw e`, going on with `x`
abbrev pub or_throw {ℓ} : {A : Type ℓ} → Option A → Failure → Result A
or_throw none e = err e
or_throw (some a) e = ok a

infixl 5 ◌>>=◌ ◌>>◌
-- A throw skips what follows.
abbrev pub ◌>>=◌ {κ μ} : {R : Type κ} {T : Type μ} → Result R → (R → Result T) → Result T
err failure >>= next = err failure
ok value >>= next = next value

abbrev pub ◌>>◌ {μ} : {T : Type μ} → Result (Unit {0}) → Result T → Result T
first >> second = first >>= λ _. second

-- If a bind returned, then so did both of its halves.
pub >>=-eq-ok {κ μ} :
    {R : Type κ} {T : Type μ} (first : Result R) (next : R → Result T) {y : T}
    → (first >>= next) ≡ ok y
    → (x : R) × (first ≡ ok x) × (next x ≡ ok y)
>>=-eq-ok (err failure) next e = cc
>>=-eq-ok (ok value) next e = (value, refl, e)

pub throw_if-eq-ok : (b : Bool) (e : Failure) {u : Unit {0}} → throw_if b e ≡ ok u → b ≡ false
throw_if-eq-ok true e h = cc
throw_if-eq-ok false e h = refl

pub or_throw-eq-ok {κ} :
    {R : Type κ} (o : Option R) (failure : Failure) {x : R} → or_throw o failure ≡ ok x → o ≡ some x
or_throw-eq-ok none failure h = cc
or_throw-eq-ok (some x) failure h = cc

-- What follows a guard returned.
pub after_guard {κ} :
    {R : Type κ} (b : Bool) (failure : Failure) {rest : Result R} {y : R}
    → (throw_if b failure >> rest) ≡ ok y
    → rest ≡ ok y
after_guard true failure h = cc
after_guard false failure h = h

pub ok_inj {ℓ} : {A : Type ℓ} {a b : A} → ok a ≡ ok b → a ≡ b
ok_inj {a = a} h = ap (λ (r : Result _). elim r [ ok x ↦ x | err _ ↦ a ]) h

pub Result-cases {ℓ} :
    {A : Type ℓ} (r : Result A) → ((a : A) × (r ≡ ok a)) ⊎ ((e : Failure) × (r ≡ err e))
Result-cases (ok a) = inl (a, refl)
Result-cases (err e) = inr (e, refl)
