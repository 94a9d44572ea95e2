-- ===== src/Spend/Validate/Accepts.antt =====
-- What the checks of a spend accept, as conditions on the cards of the chain.
use t3_spend.Prelude.{
  ℕ, ◌≡◌, ◌<◌, ◌≤◌, ◌↔◌, ◌⊎◌, ltb, none, Option, false, refl, Bool, true, not, ◌&&◌, some, List, [],
  ◌∷◌, arith, leb, inl, inr, Bool-cases,
}
use t3_spend.Prelude.Lists.{all}
use t3_spend.Prelude.Texts.{
  Text, lower, text_eq, text_eq_sound, text_eq_iff, same_address, has_address,
}
use t3_spend.Store.Tree.Members.{All}
use t3_spend.Prelude.Failures.{
  ok, refusal, card_expired, invalid_terms, merchant_not_allowed, per_tx_exceeded, or_throw-eq-ok,
  >>=-eq-ok, throw_if, throw_if-eq-ok, or_throw,
}
use t3_spend.Store.{CardStatus, CardRow}
use t3_spend.Spend.{SpendRequest}
use t3_spend.Spend.Validate.{
  is_expired, truthy, assert_status, assert_chain_spendable, allows_merchant, allows_amount,
  validate_pay,
}
use t3_spend.Ops.{is_active}

assert_status-active : (st : CardStatus) → assert_status st ≡ ok tt → is_active st ≡ true
unfolding assert_status
assert_status-active CardStatus.active h = refl
assert_status-active CardStatus.frozen h = cc
assert_status-active CardStatus.revoked h = cc
assert_status-active CardStatus.nuked h = cc

active-assert_status : (st : CardStatus) → is_active st ≡ true → assert_status st ≡ ok tt
unfolding assert_status
active-assert_status CardStatus.active h = refl
active-assert_status CardStatus.frozen h = cc
active-assert_status CardStatus.revoked h = cc
active-assert_status CardStatus.nuked h = cc

-- The moment is before the expiry.
abbrev pub is_before : ℕ → Option ℕ → Bool
is_before now none = true
is_before now (some t) = ltb now t

-- The card is active and not past its expiry.
abbrev pub is_spendable : ℕ → CardRow → Bool
is_spendable now c = is_active c.status && is_before now c.terms.expiry

not-is_expired : (expiry : Option ℕ) (now : ℕ) → not (is_expired expiry now) ≡ is_before now expiry
not-is_expired none now = refl
not-is_expired (some t) now = ground arith

spendable :
    (cs : List CardRow) (now : ℕ)
    → assert_chain_spendable cs now ≡ ok tt
    → all (is_spendable now) cs ≡ true
unfolding assert_chain_spendable
spendable [] now h = refl
spendable (c ∷ cs) now h =
    let (_, active, h') = >>=-eq-ok (assert_status c.status) _ h in
    let (_, fresh, rest) =
      >>=-eq-ok (throw_if (is_expired c.terms.expiry now) (refusal card_expired))
        (λ _. assert_chain_spendable cs now) h' in
    ground (
      arith,
      assert_status-active c.status active,
      throw_if-eq-ok _ _ fresh,
      not-is_expired c.terms.expiry now,
      spendable cs now rest,
    )

all-spendable :
    (cs : List CardRow) (now : ℕ)
    → all (is_spendable now) cs ≡ true
    → assert_chain_spendable cs now ≡ ok tt
unfolding assert_chain_spendable
all-spendable [] now h = refl
all-spendable (c ∷ cs) now h = elim (Bool-cases (is_active c.status)) [
  | inl a ↦ elim (Bool-cases (is_expired c.terms.expiry now)) [
    | inl e ↦ absurd (ground (arith, h, a, e, not-is_expired c.terms.expiry now))
    | inr e ↦ rw (active-assert_status c.status a, e) (all-spendable cs now (ground arith))
  ]
  | inr a ↦ ground arith
]

-- A chain passes the status check exactly if every card of it is active and not expired.
pub assert_chain_spendable_iff :
    (cs : List CardRow) (now : ℕ)
    → (assert_chain_spendable cs now ≡ ok tt) ↔ (all (is_spendable now) cs ≡ true)
assert_chain_spendable_iff cs now = (spendable cs now, all-spendable cs now)

-- The address is one of the list, up to the case of its letters.
abbrev pub IsListed : Text → List Text → Type 0
IsListed to [] = ⊥
IsListed to (m ∷ ms) = (lower m ≡ lower to) ⊎ IsListed to ms

-- A list of merchants, if there is one, names the recipient.
abbrev pub NamesMerchant : Text → Option (List Text) → Type 0
NamesMerchant to none = Unit
NamesMerchant to (some ms) = IsListed to ms

-- The amount is at most the cap, if there is one.
abbrev pub IsAtMost : ℕ → Option ℕ → Type 0
IsAtMost amount none = Unit
IsAtMost amount (some cap) = amount ≤ cap

-- What the policy of a card asks of a payment.
abbrev pub Permits : Text → ℕ → CardRow → Type 0
Permits to amount c =
    NamesMerchant to c.compiled.carve_policy.merchants
    × IsAtMost amount c.compiled.carve_policy.per_tx_max_atoms

has_address-IsListed : (ms : List Text) (to : Text) → (has_address ms to ≡ true) ↔ IsListed to ms
unfolding has_address same_address
has_address-IsListed [] to = (λ h. cc, λ h. absurd h)
has_address-IsListed (m ∷ ms) to = (
  λ h. elim (Bool-cases (text_eq (lower m) (lower to))) [
    | inl e ↦ inl (text_eq_sound (lower m) (lower to) e)
    | inr e ↦ inr ((has_address-IsListed ms to).0 (ground (arith, h, e)))
  ],
  λ h. elim h [
    | inl e ↦ let same = (text_eq_iff (lower m) (lower to)).1 e in ground (arith, same)
    | inr below ↦ let rest = (has_address-IsListed ms to).1 below in ground (arith, rest)
  ],
)

allows_merchant-NamesMerchant :
    (to : Text) (c : CardRow)
    → (allows_merchant to c ≡ true) ↔ NamesMerchant to c.compiled.carve_policy.merchants
unfolding allows_merchant
allows_merchant-NamesMerchant to c = listed c.compiled.carve_policy.merchants
  where
    listed :
        (o : Option (List Text))
        → (elim o [ none ↦ true | some ms ↦ has_address ms to ] ≡ true) ↔ NamesMerchant to o
    listed none = (λ h. tt, λ h. refl)
    listed (some ms) = has_address-IsListed ms to

allows_amount-IsAtMost :
    (amount : ℕ) (c : CardRow)
    → (allows_amount amount c ≡ true) ↔ IsAtMost amount c.compiled.carve_policy.per_tx_max_atoms
unfolding allows_amount
allows_amount-IsAtMost amount c = fits c.compiled.carve_policy.per_tx_max_atoms
  where
    fits :
        (o : Option ℕ)
        → (elim o [ none ↦ true | some cap ↦ leb amount cap ] ≡ true) ↔ IsAtMost amount o
    fits none = (λ h. tt, λ h. refl)
    fits (some cap) = (λ h. ground (arith, h), λ h. ground (arith, h))

all-Permits :
    (to : Text) (amount : ℕ) (chain : List CardRow)
    → all (allows_merchant to) chain ≡ true
    → all (allows_amount amount) chain ≡ true
    → All (Permits to amount) chain
all-Permits to amount [] m a = tt
all-Permits to amount (c ∷ cs) m a = (
  (
    (allows_merchant-NamesMerchant to c).0 (ground (arith, m)),
    (allows_amount-IsAtMost amount c).0 (ground (arith, a)),
  ),
  all-Permits to amount cs (ground (arith, m)) (ground (arith, a)),
)

Permits-all :
    (to : Text) (amount : ℕ) (chain : List CardRow)
    → All (Permits to amount) chain
    → (all (allows_merchant to) chain ≡ true) × (all (allows_amount amount) chain ≡ true)
Permits-all to amount [] p = (refl, refl)
Permits-all to amount (c ∷ cs) p =
    let (m, a) = Permits-all to amount cs p.1 in
    let listed = (allows_merchant-NamesMerchant to c).1 p.0.0 in
    let fits = (allows_amount-IsAtMost amount c).1 p.0.1 in
    (ground (arith, m, listed), ground (arith, a, fits))

-- A payment that the chain may make: to a recipient, for a positive amount, both of which the policy
-- of every card permits.
abbrev pub IsPayable : List CardRow → SpendRequest → Type 0
IsPayable chain req =
    (to : Text) × (amount : ℕ) × (truthy req.to ≡ some to)
    × (req.amount_atoms ≡ some amount)
    × (0 < amount)
    × All (Permits to amount) chain

validate_pay-IsPayable :
    (chain : List CardRow) (req : SpendRequest)
    → validate_pay chain req ≡ ok tt
    → IsPayable chain req
unfolding validate_pay
validate_pay-IsPayable chain req h =
    let (to, recipient, h1) = >>=-eq-ok (or_throw (truthy req.to) (refusal invalid_terms)) _ h in
    let (amount, given, h2) = >>=-eq-ok (or_throw req.amount_atoms (refusal invalid_terms)) _ h1 in
    let (_, positive, h3) = >>=-eq-ok (throw_if (leb amount 0) (refusal invalid_terms)) _ h2 in
    let (_, merchants, h4) =
      >>=-eq-ok (throw_if (not (all (allows_merchant to) chain)) (refusal merchant_not_allowed))
        (λ _. throw_if (not (all (allows_amount amount) chain)) (refusal per_tx_exceeded)) h3 in
    (
      to,
      amount,
      or_throw-eq-ok (truthy req.to) _ recipient,
      or_throw-eq-ok req.amount_atoms _ given,
      ground (arith, throw_if-eq-ok _ _ positive),
      all-Permits to amount chain (ground (arith, throw_if-eq-ok _ _ merchants))
          (ground (arith, throw_if-eq-ok _ _ h4)),
    )

IsPayable-validate_pay :
    (chain : List CardRow) (req : SpendRequest)
    → IsPayable chain req
    → validate_pay chain req ≡ ok tt
unfolding validate_pay
IsPayable-validate_pay chain req (to, amount, recipient, given, positive, permits) =
    let (m, a) = Permits-all to amount chain permits in
    let above : leb amount 0 ≡ false = ground (arith, positive) in
    rw (recipient, given, above, m, a) refl

-- A payment passes the checks exactly if it has a recipient and a positive amount, and on every card
-- of the chain the merchants, if the card lists some, include the recipient, and the cap per charge,
-- if there is one, is not exceeded.
pub validate_pay_iff :
    (chain : List CardRow) (req : SpendRequest)
    → (validate_pay chain req ≡ ok tt) ↔ IsPayable chain req
validate_pay_iff chain req = (validate_pay-IsPayable chain req, IsPayable-validate_pay chain req)
