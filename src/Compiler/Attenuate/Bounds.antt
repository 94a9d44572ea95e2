-- ===== src/Compiler/Attenuate/Bounds.antt =====
-- The terms of a sub-card against its parent's, in `attenuate` of packages/engine/src/compiler.ts.
use mathlib.Core.Path.{subst}
use t3_spend.Prelude.{
  ℕ, ◌≤◌, ◌≡◌, ◌⊎◌, refl, ap, ◌∙◌, true, not, Option, none, some, List, [], ◌∷◌, arith, ltb, inl,
  inr,
}
use t3_spend.Prelude.Texts.{Text, lower, text_eq_refl, same_address, has_address}
use t3_spend.Prelude.Failures.{ok, >>=-eq-ok, throw_if, throw_if-eq-ok, ok_inj, after_guard}
use t3_spend.Types.{PayTerms, CardTerms, ContractTerms}
use t3_spend.Money.{usdc_to_atoms}
use t3_spend.Compiler.{Kit}
use t3_spend.Compiler.Validate.{
  validate_terms, check_pay, check_contract, check_expiry, check_max_uses, positive_if_given,
  check_merchants,
}
use t3_spend.Compiler.Attenuate.{
  ParentRemaining, addresses_within, attenuate_pay, attenuate_contract, attenuate_expiry,
  attenuate_merchants, attenuate_per_tx_max, check_child_uses, attenuate,
}

-- The child expires no later than a parent that expires.
abbrev pub ExpiryWithin : Option ℕ → Option ℕ → Type 0
ExpiryWithin none child = Unit
ExpiryWithin (some parent) none = ⊥
ExpiryWithin (some parent) (some child) = child ≤ parent

-- The child pays only merchants of a parent that names some.
abbrev pub MerchantsWithin : Option (List Text) → Option (List Text) → Type 0
MerchantsWithin none child = Unit
MerchantsWithin (some parent) none = ⊥
MerchantsWithin (some parent) (some child) = addresses_within child parent ≡ true

-- The child's amount per charge is the parent's, or at most the parent's, where the parent has one.
abbrev pub PerTxWithin : Option Text → Option Text → Type 0
PerTxWithin none child = Unit
PerTxWithin (some parent) none = ⊥
PerTxWithin (some parent) (some child) =
    (child ≡ parent)
    ⊎ ((own : ℕ) × (cap : ℕ) × (usdc_to_atoms child ≡ ok own)
        × (usdc_to_atoms parent ≡ ok cap)
        × (own ≤ cap))

attenuate_expiry-Within :
    (parent child : Option ℕ) {out : Option ℕ}
    → attenuate_expiry parent child ≡ ok out
    → ExpiryWithin parent out
unfolding attenuate_expiry
attenuate_expiry-Within none child h = tt
attenuate_expiry-Within (some p) none h = subst (ExpiryWithin (some p)) (ok_inj h) (omega arith)
attenuate_expiry-Within (some p) (some c) h =
    let (_, fits, same) = >>=-eq-ok (throw_if (ltb p c) _) (λ _. ok (some c)) h in
    subst (ExpiryWithin (some p)) (ok_inj same) (ground (arith, throw_if-eq-ok _ _ fits))

addresses_within-cons :
    (x : Text) (ys xs : List Text)
    → addresses_within ys xs ≡ true
    → addresses_within ys (x ∷ xs) ≡ true
unfolding addresses_within has_address
addresses_within-cons x [] xs h = refl
addresses_within-cons x (y ∷ ys) xs h = ground (arith, addresses_within-cons x ys xs)

addresses_within_refl : (xs : List Text) → addresses_within xs xs ≡ true
unfolding addresses_within has_address same_address
addresses_within_refl [] = refl
addresses_within_refl (x ∷ xs) =
    rw (text_eq_refl (lower x)) (addresses_within-cons x xs xs (addresses_within_refl xs))

attenuate_merchants-Within :
    (parent child : Option (List Text)) {out : Option (List Text)}
    → attenuate_merchants parent child ≡ ok out
    → MerchantsWithin parent out
unfolding attenuate_merchants
attenuate_merchants-Within none child h = tt
attenuate_merchants-Within (some p) none h =
    subst (MerchantsWithin (some p)) (ok_inj h) (addresses_within_refl p)
attenuate_merchants-Within (some p) (some c) h =
    let (_, fits, same) =
      >>=-eq-ok (throw_if (not (addresses_within c p)) _) (λ _. ok (some c)) h in
    subst (MerchantsWithin (some p)) (ok_inj same) (ground (arith, throw_if-eq-ok _ _ fits))

attenuate_per_tx_max-Within :
    (parent child : Option Text) {out : Option Text}
    → attenuate_per_tx_max parent child ≡ ok out
    → PerTxWithin parent out
unfolding attenuate_per_tx_max
attenuate_per_tx_max-Within none child h = tt
attenuate_per_tx_max-Within (some p) none h = subst (PerTxWithin (some p)) (ok_inj h) (inl refl)
attenuate_per_tx_max-Within (some p) (some c) h =
    let (own, parsed, h') = >>=-eq-ok (usdc_to_atoms c) _ h in
    let (cap, parent_parsed, h'') = >>=-eq-ok (usdc_to_atoms p) _ h' in
    let (_, fits, same) = >>=-eq-ok (throw_if (ltb cap own) _) (λ _. ok (some c)) h'' in
    subst (PerTxWithin (some p)) (ok_inj same)
      (inr (own, cap, parsed, parent_parsed, ground (arith, throw_if-eq-ok _ _ fits)))

validate_terms-inv :
    (kit : Kit) (terms : CardTerms) (now : ℕ) {out : CardTerms}
    → validate_terms kit terms now ≡ ok out
    → (check_contract kit terms.contract ≡ ok out.contract)
      × (record terms { contract = out.contract } ≡ out)
unfolding validate_terms
validate_terms-inv kit terms now h =
    let h1 = after_guard _ _ h in
    let (_, _, h2) = >>=-eq-ok (check_pay kit terms.pay) _ h1 in
    let (contract, normal, h3) = >>=-eq-ok (check_contract kit terms.contract) _ h2 in
    let (_, _, h4) = >>=-eq-ok (check_expiry kit terms.expiry now) _ h3 in
    let (_, _, h5) = >>=-eq-ok (check_max_uses kit terms.max_uses) _ h4 in
    let (_, _, h6) = >>=-eq-ok (positive_if_given terms.per_tx_max) _ h5 in
    let (_, _, h7) =
      >>=-eq-ok (check_merchants kit terms.merchants)
        (λ _. ok (record terms { contract = contract })) h6 in
    subst
      (λ (o : CardTerms).
        (check_contract kit terms.contract ≡ ok o.contract)
        × (record terms { contract = o.contract } ≡ o))
      (ok_inj h7) (normal, refl)

-- What the parts of attenuation returned.
pub record Attenuated (kit : Kit) (parent child : CardTerms) (remaining : ParentRemaining)
    (out : CardTerms) : Type 0 where
  pub pay : attenuate_pay parent.pay remaining child.pay ≡ ok out.pay
  pub capped : Option ContractTerms
  pub contract : attenuate_contract kit parent.contract child.contract ≡ ok capped
  pub normal : check_contract kit capped ≡ ok out.contract
  pub expiry : attenuate_expiry parent.expiry child.expiry ≡ ok out.expiry
  pub merchants : attenuate_merchants parent.merchants child.merchants ≡ ok out.merchants
  pub per_tx_max : attenuate_per_tx_max parent.per_tx_max child.per_tx_max ≡ ok out.per_tx_max
  pub uses : check_child_uses parent.max_uses out.max_uses ≡ ok tt

-- The child with its parts replaced.
abbrev with_parts :
    CardTerms
    → Option PayTerms
    → Option ContractTerms
    → Option ℕ
    → Option (List Text)
    → Option Text
    → CardTerms
with_parts child pay contract expiry merchants per_tx_max = record child {
  pay = pay;
  contract = contract;
  expiry = expiry;
  merchants = merchants;
  per_tx_max = per_tx_max;
}

pub attenuate-Attenuated :
    (kit : Kit) (parent child : CardTerms) (remaining : ParentRemaining) (now : ℕ) {out : CardTerms}
    → attenuate kit parent remaining child now ≡ ok out
    → Attenuated kit parent child remaining out
unfolding attenuate
attenuate-Attenuated kit parent child remaining now {out} h =
    let (pay, p, h1) = >>=-eq-ok (attenuate_pay parent.pay remaining child.pay) _ h in
    let (contract, c, h2) =
      >>=-eq-ok (attenuate_contract kit parent.contract child.contract) _ h1 in
    let (expiry, e, h3) = >>=-eq-ok (attenuate_expiry parent.expiry child.expiry) _ h2 in
    let (merchants, m, h4) =
      >>=-eq-ok (attenuate_merchants parent.merchants child.merchants) _ h3 in
    let (per_tx_max, t, h5) =
      >>=-eq-ok (attenuate_per_tx_max parent.per_tx_max child.per_tx_max) _ h4 in
    let (_, u, h6) =
      >>=-eq-ok (check_child_uses parent.max_uses child.max_uses)
        (λ _. validate_terms kit (with_parts child pay contract expiry merchants per_tx_max) now)
        h5 in
    let (normal, same) =
      validate_terms-inv kit (with_parts child pay contract expiry merchants per_tx_max) now
        {out = out} h6 in
    record {
      pay = p ∙ ap (λ (o : CardTerms). ok o.pay) same;
      capped = contract;
      contract = c;
      normal = normal;
      expiry = e ∙ ap (λ (o : CardTerms). ok o.expiry) same;
      merchants = m ∙ ap (λ (o : CardTerms). ok o.merchants) same;
      per_tx_max = t ∙ ap (λ (o : CardTerms). ok o.per_tx_max) same;
      uses = subst (λ (o : CardTerms). check_child_uses parent.max_uses o.max_uses ≡ ok tt) same u;
    }

-- What attenuation returns expires no later than the parent, pays only the parent's merchants, and is
-- bound by the parent's cap per charge, where the parent has these terms.
pub attenuate-Within :
    (kit : Kit) (parent child : CardTerms) (remaining : ParentRemaining) (now : ℕ) {out : CardTerms}
    → attenuate kit parent remaining child now ≡ ok out
    → ExpiryWithin parent.expiry out.expiry
      × MerchantsWithin parent.merchants out.merchants
      × PerTxWithin parent.per_tx_max out.per_tx_max
attenuate-Within kit parent child remaining now {out} h =
    let a = attenuate-Attenuated kit parent child remaining now {out = out} h in
    (
      attenuate_expiry-Within parent.expiry child.expiry a.expiry,
      attenuate_merchants-Within parent.merchants child.merchants a.merchants,
      attenuate_per_tx_max-Within parent.per_tx_max child.per_tx_max a.per_tx_max,
    )
