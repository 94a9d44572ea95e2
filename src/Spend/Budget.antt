-- ===== src/Spend/Budget.antt =====
-- The budget check and the reservation of packages/engine/src/spend.ts, against the caps of the chain.
use t3_spend.Prelude.{
  ℕ, ◌+◌, ◌≤◌, ◌≡◌, refl, sym, ap, ◌∙◌, false, Option, none, some, List, [], ◌∷◌, leb, arith,
}
use t3_spend.Prelude.Texts.{Text}
use t3_spend.Prelude.Failures.{Result, ok, err, ◌>>◌, throw_if, >>=-eq-ok, throw_if-eq-ok}
use t3_spend.Prelude.Exec.{settle_write}
use t3_spend.Types.{PeriodCap, PayTerms}
use t3_spend.Money.{usdc_to_atoms}
use t3_spend.Store.{CardRow, ChargeRow, Store}
use t3_spend.Store.Window.{period_window}
use t3_spend.Store.Accounting.{subtree_spent_since, subtree_spent_lifetime, subtree_uses_count}
use t3_spend.Store.Accounting.Effects.{insert_charge-spent-le, insert_charge-uses-le}
use t3_spend.Store.Charges.{insert_charge}
use t3_spend.Store.Tree.Members.{All}
use t3_spend.Chains.{ChainId}
use t3_spend.Compiler.{Kit}
use t3_spend.Spend.{SpendRequest}
use t3_spend.Spend.Validate.{
  validate_spend, validate_mode, check_uses, check_caps, check_card_caps, check_period_cap,
  check_lifetime_cap,
}
use t3_spend.Spend.Reserve.{reserve}

-- The lifetime cap parses, and what is spent with `extra` more stays within it.
abbrev pub LifetimeRoom : Store → CardRow → Option Text → ℕ → Type 0
LifetimeRoom s c none extra = Unit
LifetimeRoom s c (some l) extra =
    (cap : ℕ) × (usdc_to_atoms l ≡ ok cap) × (subtree_spent_lifetime c.id s + extra ≤ cap)

-- The same of the period cap, over the window in which `now` lies.
abbrev pub PeriodRoom : Store → CardRow → Option PeriodCap → Option ℕ → ℕ → ℕ → Type 0
PeriodRoom s c (some p) (some start_date) now extra =
    (cap : ℕ) × (usdc_to_atoms p.amount ≡ ok cap)
    × (subtree_spent_since c.id (period_window start_date p.seconds now).start s + extra ≤ cap)
PeriodRoom s c _ _ now extra = Unit

abbrev pub PayRoom : Store → CardRow → Option PayTerms → ℕ → ℕ → Type 0
PayRoom s c none now extra = Unit
PayRoom s c (some pay) now extra =
    PeriodRoom s c pay.period c.compiled.period_start_date now extra
    × LifetimeRoom s c pay.lifetime extra

abbrev pub UsesRoom : Store → CardRow → Option ℕ → ℕ → Type 0
UsesRoom s c none extra = Unit
UsesRoom s c (some n) extra = subtree_uses_count c.id s + extra ≤ n

-- A card's caps leave room for `extra` atoms at `now`, and its uses for `uses` redemptions.
abbrev pub HasRoom : Store → ℕ → ℕ → ℕ → CardRow → Type 0
HasRoom s now extra uses c = PayRoom s c c.terms.pay now extra × UsesRoom s c c.terms.max_uses uses

check_lifetime_cap-Room :
    (s : Store) (c : CardRow) (l : Option Text) (total : ℕ) {u : Unit {0}}
    → check_lifetime_cap s c l total ≡ ok u
    → LifetimeRoom s c l total
unfolding check_lifetime_cap
check_lifetime_cap-Room s c none total h = tt
check_lifetime_cap-Room s c (some l) total h =
    let (cap, parsed, fits) = >>=-eq-ok (usdc_to_atoms l) _ h in
    (cap, parsed, ground (arith, throw_if-eq-ok _ _ fits))

check_period_cap-Room :
    (s : Store) (c : CardRow) (p : Option PeriodCap) (start : Option ℕ) (total now : ℕ)
    {u : Unit {0}}
    → check_period_cap s c p start total now ≡ ok u
    → PeriodRoom s c p start now total
unfolding check_period_cap
check_period_cap-Room s c (some p) (some start) total now h =
    let (cap, parsed, fits) = >>=-eq-ok (usdc_to_atoms p.amount) _ h in
    (cap, parsed, ground (arith, throw_if-eq-ok _ _ fits))
check_period_cap-Room s c (some p) none total now h = tt
check_period_cap-Room s c none start total now h = tt

check_card_caps-Room :
    (s : Store) (c : CardRow) (pay : Option PayTerms) (total now : ℕ) {u : Unit {0}}
    → c.terms.pay ≡ pay
    → check_card_caps s c total now ≡ ok u
    → PayRoom s c pay now total
unfolding check_card_caps
check_card_caps-Room s c none total now e h = tt
check_card_caps-Room s c (some pay) total now e h =
    let (_, period, lifetime) =
      >>=-eq-ok (check_period_cap s c pay.period c.compiled.period_start_date total now) _
        (unfold check_card_caps in (ap check_pay (sym e) ∙ h)) in
    (
      check_period_cap-Room s c pay.period c.compiled.period_start_date total now period,
      check_lifetime_cap-Room s c pay.lifetime total lifetime,
    )
  where
    check_pay : Option PayTerms → Result (Unit {0})
    check_pay o = elim o [
      | none ↦ ok tt
      | some p ↦
          check_period_cap s c p.period c.compiled.period_start_date total now
          >> check_lifetime_cap s c p.lifetime total
    ]

check_caps-Room :
    (s : Store) (chain : List CardRow) (total now : ℕ) {u : Unit {0}}
    → check_caps s chain total now ≡ ok u
    → All (λ c. PayRoom s c c.terms.pay now total) chain
unfolding check_caps
check_caps-Room s [] total now h = tt
check_caps-Room s (c ∷ cs) total now h =
    let (_, first, rest) = >>=-eq-ok (check_card_caps s c total now) _ h in
    (check_card_caps-Room s c c.terms.pay total now refl first, check_caps-Room s cs total now rest)

UsesRoom-below :
    (s : Store) (c : CardRow) (n : Option ℕ)
    → elim n [ none ↦ false | some m ↦ leb m (subtree_uses_count c.id s) ] ≡ false
    → UsesRoom s c n 1
UsesRoom-below s c none h = tt
UsesRoom-below s c (some n) h = ground arith

check_uses-Room :
    (s : Store) (chain : List CardRow) {u : Unit {0}}
    → check_uses s chain ≡ ok u
    → All (λ c. UsesRoom s c c.terms.max_uses 1) chain
unfolding check_uses
check_uses-Room s [] h = tt
check_uses-Room s (c ∷ cs) h =
    let (_, here, rest) = >>=-eq-ok (throw_if _ _) _ h in
    (UsesRoom-below s c c.terms.max_uses (throw_if-eq-ok _ _ here), check_uses-Room s cs rest)

-- A validated spend leaves room for its amount and fee on every card of the chain, and for one use.
pub validate_spend-HasRoom :
    (kit : Kit) (chain_id : ChainId) (s : Store) (chain : List CardRow) (req : SpendRequest)
    (total now : ℕ)
    → validate_spend kit chain_id s chain req total now ≡ ok tt
    → All (HasRoom s now total 1) chain
unfolding validate_spend
validate_spend-HasRoom kit chain_id s chain req total now h =
    let (_, _, h') = >>=-eq-ok (validate_mode kit chain_id chain req) _ h in
    let (_, uses, caps) = >>=-eq-ok (check_uses s chain) _ h' in
    All-zip chain (check_caps-Room s chain total now caps) (check_uses-Room s chain uses)
  where
    All-zip :
        (cs : List CardRow)
        → All (λ c. PayRoom s c c.terms.pay now total) cs
        → All (λ c. UsesRoom s c c.terms.max_uses 1) cs
        → All (HasRoom s now total 1) cs
    All-zip [] p q = tt
    All-zip (c ∷ cs) p q = ((p.0, q.0), All-zip cs p.1 q.1)

module _ (row : ChargeRow) (s : Store) {s' : Store} (written : insert_charge row s ≡ ok s')
    (now : ℕ) where
  LifetimeRoom-insert :
      (c : CardRow) (l : Option Text)
      → LifetimeRoom s c l (row.amount_atoms + row.fee_atoms)
      → LifetimeRoom s' c l 0
  unfolding subtree_spent_lifetime
  LifetimeRoom-insert c none h = tt
  LifetimeRoom-insert c (some l) (cap, parsed, fits) =
      (cap, parsed, omega (arith, insert_charge-spent-le c.id 0 row s written))

  PeriodRoom-insert :
      (c : CardRow) (p : Option PeriodCap) (start : Option ℕ)
      → PeriodRoom s c p start now (row.amount_atoms + row.fee_atoms)
      → PeriodRoom s' c p start now 0
  PeriodRoom-insert c (some p) (some start) (cap, parsed, fits) = (
    cap,
    parsed,
    omega (
      arith,
      insert_charge-spent-le c.id (period_window start p.seconds now).start row s written,
    ),
  )
  PeriodRoom-insert c (some p) none h = tt
  PeriodRoom-insert c none start h = tt

  PayRoom-insert :
      (c : CardRow) (pay : Option PayTerms)
      → PayRoom s c pay now (row.amount_atoms + row.fee_atoms)
      → PayRoom s' c pay now 0
  PayRoom-insert c none h = tt
  PayRoom-insert c (some pay) h = (
    PeriodRoom-insert c pay.period c.compiled.period_start_date h.0,
    LifetimeRoom-insert c pay.lifetime h.1,
  )

  UsesRoom-insert : (c : CardRow) (n : Option ℕ) → UsesRoom s c n 1 → UsesRoom s' c n 0
  UsesRoom-insert c none h = tt
  UsesRoom-insert c (some n) h = omega (arith, insert_charge-uses-le c.id row s written)

  pub All-HasRoom-insert :
      (chain : List CardRow)
      → All (HasRoom s now (row.amount_atoms + row.fee_atoms) 1) chain
      → All (HasRoom s' now 0 0) chain
  All-HasRoom-insert [] h = tt
  All-HasRoom-insert (c ∷ cs) h = (
    (PayRoom-insert c c.terms.pay h.0.0, UsesRoom-insert c c.terms.max_uses h.0.1),
    All-HasRoom-insert cs h.1,
  )

written-inv :
    (r : Result Store) (s : Store) {s' : Store} → settle_write r s ≡ (ok tt, s') → r ≡ ok s'
written-inv (ok t) s h = ap ok (ap (λ (x : Result (Unit {0}) × Store). x.1) h)
written-inv (err e) s h = cc

pub reserve-inv :
    (kit : Kit) (chain_id : ChainId) (chain : List CardRow) (req : SpendRequest) (now : ℕ)
    (row : ChargeRow) (s : Store) {s' : Store}
    → reserve kit chain_id chain req now row s ≡ (ok tt, s')
    → (validate_spend kit chain_id s chain req (row.amount_atoms + row.fee_atoms) now ≡ ok tt)
      × (insert_charge row s ≡ ok s')
unfolding reserve
reserve-inv kit chain_id chain req now row s h =
    checked (validate_spend kit chain_id s chain req (row.amount_atoms + row.fee_atoms) now) h
  where
    checked :
        (r : Result (Unit {0})) {s' : Store}
        → elim r [ ok _ ↦ settle_write (insert_charge row s) s | err e ↦ (err e, s) ] ≡ (ok tt, s')
        → (r ≡ ok tt) × (insert_charge row s ≡ ok s')
    checked (ok tt) e = (refl, written-inv (insert_charge row s) s e)
    checked (err f) e = cc

-- When a reservation goes through, every card of the chain is within its lifetime cap, within the cap
-- of the period in which `now` lies, and within its uses, with the new charge counted.
pub reserve-HasRoom :
    (kit : Kit) (chain_id : ChainId) (chain : List CardRow) (req : SpendRequest) (now : ℕ)
    (row : ChargeRow) (s : Store) {s' : Store}
    → reserve kit chain_id chain req now row s ≡ (ok tt, s')
    → All (HasRoom s' now 0 0) chain
unfolding reserve
reserve-HasRoom kit chain_id chain req now row s {s'} h =
    let (fine, written) = reserve-inv kit chain_id chain req now row s h in
    All-HasRoom-insert row s written now chain
      (validate_spend-HasRoom kit chain_id s chain req (row.amount_atoms + row.fee_atoms) now fine)
