-- ===== src/Money/RoundTrip.antt =====
-- Printing a number of atoms and reading it again, in packages/engine/src/money.ts.
use t3_spend.Prelude.{
  ℕ, zero, suc, ◌+◌, ◌/◌, ◌%◌, ◌<◌, ◌≡◌, refl, ap, ◌∙◌, true, [], ◌∷◌, ltb, arith, Bool-cases, inl,
  inr,
}
use t3_spend.Prelude.Lists.{all}
use t3_spend.Prelude.Texts.{Text, is_digit}
use t3_spend.Prelude.Failures.{ok}
use t3_spend.Money.{digits_from, big_int, print_digits, to_text, is_digits, parse_atoms}

digits_from-print_digits :
    (fuel n : ℕ) (acc : Text)
    → n < fuel
    → digits_from 0 (print_digits fuel n acc) ≡ digits_from n acc
unfolding digits_from print_digits
digits_from-print_digits zero n acc h = absurd (omega arith)
digits_from-print_digits (suc fuel) n acc h = elim (Bool-cases (ltb n 10)) [
  | inl e ↦ rw e (ap (λ m. digits_from m acc) (omega arith))
  | inr e ↦ rw e (
      digits_from-print_digits fuel (n / 10) ((48 + n % 10) ∷ acc) (ground arith)
      ∙ ap (λ m. digits_from m acc) (omega arith))
]

is_digit-mod : (n : ℕ) → is_digit (48 + n % 10) ≡ true
is_digit-mod n = ground arith

is_digits-print_digits :
    (fuel n : ℕ) (acc : Text)
    → n < fuel
    → all is_digit acc ≡ true
    → is_digits (print_digits fuel n acc) ≡ true
unfolding is_digits print_digits
is_digits-print_digits zero n acc h d = absurd (omega arith)
is_digits-print_digits (suc fuel) n acc h d = elim (Bool-cases (ltb n 10)) [
  | inl e ↦ rw e (ground arith)
  | inr e ↦ rw e (
      is_digits-print_digits fuel (n / 10) ((48 + n % 10) ∷ acc) (ground arith)
        (ground (arith, is_digit-mod n)))
]

pub digits-to_text : (n : ℕ) → is_digits (to_text n) ≡ true
unfolding to_text
digits-to_text n = is_digits-print_digits (suc n) n [] (omega arith) refl

pub big_int-to_text : (n : ℕ) → big_int (to_text n) ≡ n
unfolding to_text big_int
big_int-to_text n = digits_from-print_digits (suc n) n [] (omega arith)

-- A number of atoms that is printed as decimal digits is read back as itself.
pub parse_atoms-to_text : (n : ℕ) → parse_atoms (to_text n) ≡ ok n
unfolding parse_atoms
parse_atoms-to_text n = rw (digits-to_text n) (ap ok (big_int-to_text n))
