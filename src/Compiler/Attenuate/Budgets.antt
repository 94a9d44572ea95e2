-- ===== src/Compiler/Attenuate/Budgets.antt =====
-- The budgets of a sub-card against its parent's, in `attenuate` of packages/engine/src/compiler.ts.
use mathlib.Core.Path.{subst}
use t3_spend.Prelude.{
  ℕ, ◌≤◌, ◌≡◌, sym, Option, none, some, arith, ltb, if◌then◌else◌, or_else, Bool-cases, inl, inr,
}
use t3_spend.Prelude.Texts.{Text}
use t3_spend.Prelude.Failures.{ok, ◌>>=◌, >>=-eq-ok, ok_inj, Result-cases}
use t3_spend.Types.{PeriodCap, PayTerms}
use t3_spend.Money.{usdc_to_atoms}
use t3_spend.Money.Amounts.{usdc_to_atoms-usdc_text}
use t3_spend.Compiler.Validate.{usd_atoms}
use t3_spend.Compiler.Attenuate.{
  ParentRemaining, inherit_period, inherit_lifetime, within, check_against, check_child_period,
  check_child_lifetime, attenuate_pay, check_child_uses,
}

-- The amount is at most the cap, in atoms.
abbrev pub AmountWithin : Text → ℕ → Type 0
AmountWithin amount cap = (n : ℕ) × (usdc_to_atoms amount ≡ ok n) × (n ≤ cap)

-- The amount is at most the amount of a parent's term.
abbrev pub AmountWithinText : Text → Text → Type 0
AmountWithinText amount parent =
    (cap : ℕ) × (usdc_to_atoms parent ≡ ok cap) × AmountWithin amount cap

-- A period's amount against the parent's period, or its lifetime where it has no period.
abbrev pub PeriodWithin : Option PeriodCap → Option Text → Option PeriodCap → Type 0
PeriodWithin parent lifetime none = Unit
PeriodWithin (some p) lifetime (some c) = AmountWithinText c.amount p.amount
PeriodWithin none (some l) (some c) = AmountWithinText c.amount l
PeriodWithin none none (some c) = Unit

-- A lifetime budget against what remains of the parent's, or against all of it where that is unknown.
abbrev pub LifetimeWithin : Option Text → Option ℕ → Option Text → Type 0
LifetimeWithin none remaining child = Unit
LifetimeWithin (some l) remaining none = Unit
LifetimeWithin (some l) remaining (some c) =
    (full : ℕ) × (usdc_to_atoms l ≡ ok full) × AmountWithin c (or_else remaining full)

-- Only a card that pays has sub-cards that do.
abbrev pub PayWithin : Option PayTerms → ParentRemaining → Option PayTerms → Type 0
PayWithin none remaining child = child ≡ none
PayWithin (some p) remaining none = ⊥
PayWithin (some p) remaining (some c) =
    PeriodWithin p.period p.lifetime c.period
    × LifetimeWithin p.lifetime remaining.lifetime_remaining_atoms c.lifetime

-- A child's number of uses is at most the parent's.
abbrev pub UsesWithin : Option ℕ → Option ℕ → Type 0
UsesWithin none child = Unit
UsesWithin (some p) none = Unit
UsesWithin (some p) (some c) = c ≤ p

within-AmountWithin :
    (amount : Text) (cap : ℕ) → within amount cap ≡ ok tt → AmountWithin amount cap
unfolding within usd_atoms
within-AmountWithin amount cap h = elim (Result-cases (usdc_to_atoms amount)) [
  | inr (e, failed) ↦ absurd (ground (arith, h, failed))
  | inl (n, parsed) ↦ (n, parsed, ground (arith, h, parsed))
]

inherit_period-Within :
    (p : Option PeriodCap) (l : Option Text) (remaining : Option ℕ) {out : Option PeriodCap}
    → inherit_period p remaining ≡ ok out
    → PeriodWithin p l out
unfolding inherit_period
inherit_period-Within none l remaining h = subst (PeriodWithin none l) (ok_inj h) tt
inherit_period-Within (some p) l remaining h =
    let (full, parsed, h') = >>=-eq-ok (usdc_to_atoms p.amount) _ h in
    let cap = or_else remaining full in
    subst (PeriodWithin (some p) l) (ok_inj h') (
      full,
      parsed,
      (
        (if ltb cap full then cap else full),
        usdc_to_atoms-usdc_text _,
        elim (Bool-cases (ltb cap full)) [ inl e ↦ ground (arith, e) | inr e ↦ ground (arith, e) ],
      ),
    )

inherit_lifetime-Within :
    (l : Option Text) (remaining : Option ℕ) {out : Option Text}
    → inherit_lifetime l remaining ≡ ok out
    → LifetimeWithin l remaining out
unfolding inherit_lifetime
inherit_lifetime-Within none remaining h = tt
inherit_lifetime-Within (some l) remaining h =
    let (full, parsed, h') = >>=-eq-ok (usdc_to_atoms l) _ h in
    subst (LifetimeWithin (some l) remaining) (ok_inj h')
      (full, parsed, (or_else remaining full, usdc_to_atoms-usdc_text _, omega arith))

check_against-Within :
    (amount parent : Text)
    → ((usdc_to_atoms parent) >>= λ cap. within amount cap) ≡ ok tt
    → AmountWithinText amount parent
check_against-Within amount parent h =
    let (cap, parsed, fits) = >>=-eq-ok (usdc_to_atoms parent) _ h in
    (cap, parsed, within-AmountWithin amount cap fits)

check_against-PeriodWithin :
    (amount : Text) (seconds : ℕ) (p : Option PeriodCap) (l : Option Text)
    → check_against amount p l ≡ ok tt
    → PeriodWithin p l (some (record { amount = amount; seconds = seconds }))
unfolding check_against
check_against-PeriodWithin amount seconds (some p) l h = check_against-Within amount p.amount h
check_against-PeriodWithin amount seconds none (some l) h = check_against-Within amount l h
check_against-PeriodWithin amount seconds none none h = tt

check_child_period-Within :
    (child : Option PeriodCap) (parent : PayTerms)
    → check_child_period child parent ≡ ok tt
    → PeriodWithin parent.period parent.lifetime child
unfolding check_child_period
check_child_period-Within none parent h = tt
check_child_period-Within (some c) parent h =
    check_against-PeriodWithin c.amount c.seconds parent.period parent.lifetime h

check_child_lifetime-Within :
    (child parent : Option Text) (remaining : Option ℕ)
    → check_child_lifetime child parent remaining ≡ ok tt
    → LifetimeWithin parent remaining child
unfolding check_child_lifetime
check_child_lifetime-Within none none remaining h = tt
check_child_lifetime-Within none (some p) remaining h = tt
check_child_lifetime-Within (some c) none remaining h = tt
check_child_lifetime-Within (some c) (some p) remaining h =
    let (full, parsed, fits) = >>=-eq-ok (usdc_to_atoms p) _ h in
    (full, parsed, within-AmountWithin c (or_else remaining full) fits)

pub attenuate_pay-Within :
    (parent : Option PayTerms) (remaining : ParentRemaining) (child : Option PayTerms)
    {out : Option PayTerms}
    → attenuate_pay parent remaining child ≡ ok out
    → PayWithin parent remaining out
unfolding attenuate_pay
attenuate_pay-Within none remaining none h = sym (ok_inj h)
attenuate_pay-Within none remaining (some c) h = cc
attenuate_pay-Within (some p) remaining none h =
    let (period, own, h1) =
      >>=-eq-ok (inherit_period p.period remaining.period_remaining_atoms) _ h in
    let (lifetime, all, h2) =
      >>=-eq-ok (inherit_lifetime p.lifetime remaining.lifetime_remaining_atoms)
        (λ l. ok (some (record { period = period; lifetime = l }))) h1 in
    subst (PayWithin (some p) remaining) (ok_inj h2) (
      inherit_period-Within p.period p.lifetime remaining.period_remaining_atoms own,
      inherit_lifetime-Within p.lifetime remaining.lifetime_remaining_atoms all,
    )
attenuate_pay-Within (some p) remaining (some c) h =
    let (_, period, h1) = >>=-eq-ok (check_child_period c.period p) _ h in
    let (_, lifetime, h2) =
      >>=-eq-ok (check_child_lifetime c.lifetime p.lifetime remaining.lifetime_remaining_atoms)
        (λ _. ok (some c)) h1 in
    subst (PayWithin (some p) remaining) (ok_inj h2) (
      check_child_period-Within c.period p period,
      check_child_lifetime-Within c.lifetime p.lifetime remaining.lifetime_remaining_atoms lifetime,
    )

pub check_child_uses-Within :
    (parent child : Option ℕ) → check_child_uses parent child ≡ ok tt → UsesWithin parent child
unfolding check_child_uses
check_child_uses-Within none child h = tt
check_child_uses-Within (some p) none h = tt
check_child_uses-Within (some p) (some c) h = ground (arith, h)
