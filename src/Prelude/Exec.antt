-- ===== src/Prelude/Exec.antt =====
-- Calls that read and write a state and may throw. What was written before a throw stays written, so
-- the state comes back beside the failure too.
pub mod Rules
use t3_spend.Prelude.Failures.{Failure, Result, ok, err}

abbrev pub Exec {ℓ} : Type ℓ → Type ℓ → Type ℓ
Exec S A = S → Result A × S

module _ {ℓ} {S A : Type ℓ} where
  abbrev pub pure : A → Exec S A
  pure a s = (ok a, s)

  abbrev pub throw : Failure → Exec S A
  throw e s = (err e, s)

  abbrev pub lift : Result A → Exec S A
  lift r s = (r, s)

  abbrev pub gets : (S → A) → Exec S A
  gets f s = (ok (f s), s)

  -- A call that returns a value of the state, or throws and writes nothing.
  abbrev pub reads : (S → Result A) → Exec S A
  reads f s = (f s, s)

abbrev pub modify {ℓ} : {S : Type ℓ} → (S → S) → S → Result (Unit {0}) × S
modify f s = (ok tt, f s)

infixl 5 ◌>>=◌ ◌>>◌
abbrev pub ◌>>=◌ {ℓ κ μ} :
    {S : Type ℓ} {A : Type κ} {B : Type μ}
    → (S → Result A × S)
    → (A → S → Result B × S)
    → S
    → Result B × S
◌>>=◌ m f s = let (r, s') = m s in elim r [ ok a ↦ f a s' | err e ↦ (err e, s') ]

abbrev pub ◌>>◌ {ℓ κ μ} :
    {S : Type ℓ} {A : Type κ} {B : Type μ}
    → (S → Result A × S)
    → (S → Result B × S)
    → S
    → Result B × S
m >> k = m >>= λ _. k

-- A write that the database may refuse.
abbrev pub settle_write {ℓ} : {S : Type ℓ} → Result S → S → Result (Unit {0}) × S
settle_write (ok s') s = (ok tt, s')
settle_write (err e) s = (err e, s)

abbrev pub writes {ℓ} : {S : Type ℓ} → (S → Result S) → S → Result (Unit {0}) × S
writes f s = settle_write (f s) s

-- `try { r } catch (e) { cleanup(); throw e }`
abbrev pub or_cleanup {ℓ κ} : {S : Type ℓ} {A : Type κ} → Result A → (S → S) → S → Result A × S
or_cleanup (ok a) cleanup s = (ok a, s)
or_cleanup (err e) cleanup s = (err e, cleanup s)
