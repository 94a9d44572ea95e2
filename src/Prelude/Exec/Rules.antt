-- ===== src/Prelude/Exec/Rules.antt =====
-- Rules for calls with a state: what every step keeps the whole call keeps, and a call that returned did
-- so in each of its steps.
use mathlib.Core.Path.{subst}
use mathlib.Core.Path.{◌≡◌, refl, ap}
use t3_spend.Prelude.Failures.{Failure, Result, ok, err}
use t3_spend.Prelude.Exec.{◌>>=◌, writes, settle_write}

-- Whatever a call returns or throws, the state has `P` after it if it had `P` before.
abbrev pub Keeps {ℓ κ μ} :
    {S : Type ℓ} {A : Type κ} → (S → Type μ) → (S → Result A × S) → Type (ℓ ⊔ μ)
Keeps P m = (s : _) → P s → P ((m s).1)

-- The same of a call that throws.
abbrev pub KeepsOnErr {ℓ κ μ} :
    {S : Type ℓ} {A : Type κ} → (S → Type μ) → (S → Result A × S) → Type (ℓ ⊔ κ ⊔ μ)
KeepsOnErr P m = (s : _) → P s → (e : Failure) (s' : _) → m s ≡ (err e, s') → P s'

module _ {ℓ κ ν} {S : Type ℓ} {A : Type κ} {B : Type ν} (m : S → Result A × S)
    (k : A → S → Result B × S) where
  abbrev next : Result A × S → Result B × S
  next x = elim x.0 [ ok a ↦ k a (x.1) | err e ↦ (err e, x.1) ]

  pub >>=-eq-pair :
      (s : S) {b : B} {s' : S}
      → (m >>= k) s ≡ (ok b, s')
      → (a : A) × (t : S) × (m s ≡ (ok a, t)) × (k a t ≡ (ok b, s'))
  >>=-eq-pair s {b} {s'} h = go (m s) refl h
    where
      go :
          (x : Result A × S)
          → m s ≡ x
          → next x ≡ (ok b, s')
          → (a : A) × (t : S) × (m s ≡ (ok a, t)) × (k a t ≡ (ok b, s'))
      go (ok a, t) e h = (a, t, e, h)
      go (err f, t) e h = cc

module _ {ℓ κ μ ν} {S : Type ℓ} {A : Type κ} {B : Type ν} (P : S → Type μ) (m : S → Result A × S)
    (k : A → S → Result B × S) where
  pub >>=-Keeps : Keeps P m → ((a : A) → Keeps P (k a)) → Keeps P (m >>= k)
  >>=-Keeps first rest s p = go (m s) (first s p)
    where
      go : (x : Result A × S) → P (x.1) → P ((next m k x).1)
      go (ok a, t) q = rest a t q
      go (err e, t) q = q

  pub >>=-KeepsOnErr : Keeps P m → ((a : A) → KeepsOnErr P (k a)) → KeepsOnErr P (m >>= k)
  >>=-KeepsOnErr first rest s p e s' h = go (m s) (first s p) h
    where
      go : (x : Result A × S) → P (x.1) → next m k x ≡ (err e, s') → P s'
      go (ok a, t) q h = rest a t q e s' h
      go (err f, t) q h = subst P (ap (λ (y : Result B × S). y.1) h) q

-- A read returned: its value, and the state as it was.
pub pair-inv {ℓ κ} :
    {S : Type ℓ} {A : Type κ} {r : Result A} {a : A} {s t : S}
    → ◌≡◌ {A = Result A × S} (r, s) (ok a, t)
    → (r ≡ ok a) × (s ≡ t)
pair-inv {S = S} {A = A} h = (ap (λ (x : Result A × S). x.0) h, ap (λ (x : Result A × S). x.1) h)

pub writes-Keeps {ℓ μ} :
    {S : Type ℓ} (P : S → Type μ) (f : S → Result S)
    → ((s s' : S) → P s → f s ≡ ok s' → P s')
    → Keeps P (writes f)
writes-Keeps {S = S} P f keep s p = go (f s) refl
  where
    go : (r : Result S) → f s ≡ r → P ((settle_write r s).1)
    go (ok t) e = keep s t p e
    go (err e) h = p

pub writes-KeepsOnErr {ℓ μ} :
    {S : Type ℓ} (P : S → Type μ) (f : S → Result S) → KeepsOnErr P (writes f)
writes-KeepsOnErr {S = S} P f s p e s' h = go (f s) h
  where
    go : (r : Result S) → settle_write r s ≡ (err e, s') → P s'
    go (ok t) h = cc
    go (err f) h = subst P (ap (λ (x : Result (Unit {0}) × S). x.1) h) p
