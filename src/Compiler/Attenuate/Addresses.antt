-- ===== src/Compiler/Attenuate/Addresses.antt =====
-- Lists of addresses and selectors, for the scopes of packages/engine/src/compiler.ts.
use mathlib.Core.Path.{subst}
use t3_spend.Prelude.{
  ◌≡◌, refl, sym, ◌∙◌, Bool, true, List, [], ◌∷◌, ◌++◌, map, arith, Bool-cases, inl, inr,
}
use t3_spend.Prelude.Lists.{all}
use t3_spend.Prelude.Texts.{
  Text, lower, text_eq, text_eq_refl, text_eq_sound, same_address, has_address, has_text,
}
use t3_spend.Compiler.Validate.{add_targets}
use t3_spend.Compiler.Attenuate.{addresses_within}

pub all-snoc {ℓ} :
    {A : Type ℓ} (p : A → Bool) (xs : List A) (x : A)
    → all p xs ≡ true
    → p x ≡ true
    → all p (xs ++ x ∷ []) ≡ true
all-snoc p [] x h e = ground (arith, e)
all-snoc p (y ∷ ys) x h e =
    let rest = all-snoc p ys x (ground (arith, h)) e in ground (arith, rest, h)

-- What the targets and the new tokens have in common, the union has.
pub all-add_targets :
    (p : Text → Bool) (xs ts : List Text)
    → all p xs ≡ true
    → all p ts ≡ true
    → all p (add_targets xs ts) ≡ true
unfolding add_targets
all-add_targets p xs [] h k = h
all-add_targets p xs (t ∷ ts) h k = elim (Bool-cases (has_address xs t)) [
  | inl e ↦ rw e (all-add_targets p xs ts h (ground (arith, k)))
  | inr e ↦ rw e (
      all-add_targets p (xs ++ t ∷ []) ts (all-snoc p xs t h (ground (arith, k)))
        (ground (arith, k)))
]

has_address-snoc : (xs : List Text) (t : Text) → has_address (xs ++ t ∷ []) t ≡ true
unfolding has_address same_address
has_address-snoc [] t = rw (text_eq_refl (lower t)) refl
has_address-snoc (x ∷ xs) t = ground (arith, has_address-snoc xs t)

has_address-append :
    (xs ys : List Text) (t : Text) → has_address xs t ≡ true → has_address (xs ++ ys) t ≡ true
unfolding has_address
has_address-append [] ys t h = cc
has_address-append (x ∷ xs) ys t h = elim (Bool-cases (same_address x t)) [
  | inl e ↦ ground (arith, e)
  | inr e ↦ let rest = has_address-append xs ys t (ground (arith, h, e)) in ground (arith, rest)
]

has_address-add_targets :
    (xs ts : List Text) (t : Text)
    → has_address xs t ≡ true
    → has_address (add_targets xs ts) t ≡ true
unfolding add_targets
has_address-add_targets xs [] t h = h
has_address-add_targets xs (u ∷ ts) t h = elim (Bool-cases (has_address xs u)) [
  | inl e ↦ rw e (has_address-add_targets xs ts t h)
  | inr e ↦ rw e (has_address-add_targets (xs ++ u ∷ []) ts t (has_address-append xs (u ∷ []) t h))
]

-- Every token is a target of the union.
pub addresses_within-add_targets :
    (xs ts : List Text) → addresses_within ts (add_targets xs ts) ≡ true
unfolding addresses_within add_targets
addresses_within-add_targets xs [] = refl
addresses_within-add_targets xs (t ∷ ts) = elim (Bool-cases (has_address xs t)) [
  | inl e ↦
      grown xs (rw e refl) (has_address-add_targets xs ts t e) (addresses_within-add_targets xs ts)
  | inr e ↦
      grown (xs ++ t ∷ []) (rw e refl)
        (has_address-add_targets (xs ++ t ∷ []) ts t (has_address-snoc xs t))
        (addresses_within-add_targets (xs ++ t ∷ []) ts)
]
  where
    grown :
        (ys : List Text)
        → add_targets xs (t ∷ ts) ≡ add_targets ys ts
        → has_address (add_targets ys ts) t ≡ true
        → addresses_within ts (add_targets ys ts) ≡ true
        → all (λ u. has_address (add_targets xs (t ∷ ts)) u) (t ∷ ts) ≡ true
    grown ys e here rest =
        subst (λ z. all (λ u. has_address z u) (t ∷ ts) ≡ true) (sym e) (ground (arith, here, rest))

has_address-same :
    (zs : List Text) (x t : Text) → lower x ≡ lower t → has_address zs x ≡ has_address zs t
unfolding has_address same_address
has_address-same [] x t e = refl
has_address-same (z ∷ zs) x t e = let rest = has_address-same zs x t e in rw (e, rest) refl

has_address_trans :
    (xs ys : List Text) (t : Text)
    → addresses_within xs ys ≡ true
    → has_address xs t ≡ true
    → has_address ys t ≡ true
unfolding addresses_within has_address
has_address_trans [] ys t w h = cc
has_address_trans (x ∷ xs) ys t w h = elim (Bool-cases (same_address x t)) [
  | inl e ↦
      let same : lower x ≡ lower t = unfold same_address in text_eq_sound (lower x) (lower t) e in
      sym (has_address-same ys x t same) ∙ ground (arith, w)
  | inr e ↦ has_address_trans xs ys t (ground (arith, w)) (ground (arith, h, e))
]

pub addresses_within_trans :
    (ts xs ys : List Text)
    → addresses_within xs ys ≡ true
    → addresses_within ts xs ≡ true
    → addresses_within ts ys ≡ true
unfolding addresses_within
addresses_within_trans [] xs ys w h = refl
addresses_within_trans (t ∷ ts) xs ys w h =
    let here = has_address_trans xs ys t w (ground (arith, h)) in
    let rest = addresses_within_trans ts xs ys w (ground (arith, h)) in ground (arith, here, rest)

pub all-map :
    (p : Text → Bool) (f : Text → Text) (xs : List Text)
    → all (λ s. p (f s)) xs ≡ true
    → all p (map f xs) ≡ true
all-map p f [] h = refl
all-map p f (x ∷ xs) h = let rest = all-map p f xs (ground (arith, h)) in ground (arith, rest, h)

pub all-weaken :
    (p q : Text → Bool) (xs : List Text)
    → ((s : Text) → p s ≡ true → q s ≡ true)
    → all p xs ≡ true
    → all q xs ≡ true
all-weaken p q [] f h = refl
all-weaken p q (x ∷ xs) f h =
    let here = f x (ground (arith, h)) in
    let rest = all-weaken p q xs f (ground (arith, h)) in ground (arith, here, rest)

pub all-has_text :
    (p : Text → Bool) (xs : List Text) (t : Text)
    → all p xs ≡ true
    → has_text xs t ≡ true
    → p t ≡ true
unfolding has_text
all-has_text p [] t h k = cc
all-has_text p (x ∷ xs) t h k = elim (Bool-cases (text_eq x t)) [
  | inl e ↦ subst (λ y. p y ≡ true) (text_eq_sound x t e) (ground (arith, h))
  | inr e ↦ all-has_text p xs t (ground (arith, h)) (ground (arith, k, e))
]
