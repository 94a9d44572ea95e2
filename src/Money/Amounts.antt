-- ===== src/Money/Amounts.antt =====
-- The decimal text of an amount, and its reading, in packages/engine/src/money.ts.
use t3_spend.Prelude.{
  ℕ, zero, suc, ◌+◌, ◌-◌, ◌*◌, ◌/◌, ◌%◌, ◌≤◌, ◌<◌, ◌≡◌, refl, sym, ap, ◌∙◌, Bool, true, not, [],
  ◌∷◌, ◌++◌, ltb, arith, Bool-cases, inl, inr, some, ◌==◌, ==_iff,
}
use t3_spend.Prelude.Lists.{all, length, replicate, length-append, length-replicate}
use t3_spend.Prelude.Texts.{Text, is_digit}
use t3_spend.Prelude.Failures.{ok}
use t3_spend.Money.RoundTrip.{digits-to_text, big_int-to_text}
use t3_spend.Money.{
  digits_from, big_int, print_digits, to_text, is_digits, is_space, trim_start, keep_char, trim_end,
  trim, pad_end, pad_start, keep_digit, strip_zeros, span_digits, match_fraction, match_parts,
  match_amount, scale, usdc_to_atoms, with_fraction, usdc_text,
}

abbrev is_plain : ℕ → Bool
is_plain c = not (is_space c)

trim_end-plain : (s : Text) → all is_plain s ≡ true → trim_end s ≡ s
unfolding trim_end keep_char
trim_end-plain [] h = refl
trim_end-plain (c ∷ []) h = ground arith
trim_end-plain (c ∷ d ∷ s) h = ap (keep_char c) (trim_end-plain (d ∷ s) (ground arith))

trim_start-plain : (s : Text) → all is_plain s ≡ true → trim_start s ≡ s
unfolding trim_start
trim_start-plain [] h = refl
trim_start-plain (c ∷ s) h = ground arith

span_digits-digits : (w : Text) → all is_digit w ≡ true → span_digits w ≡ (w, [])
unfolding span_digits
span_digits-digits [] h = refl
span_digits-digits (c ∷ w) h = ground (arith, span_digits-digits w)

span_digits-dot : (w s : Text) → all is_digit w ≡ true → span_digits (w ++ b'.' ∷ s) ≡ (w, b'.' ∷ s)
unfolding span_digits
span_digits-dot [] s h = refl
span_digits-dot (c ∷ w) s h = ground (arith, span_digits-dot w s)

-- A digit kept before what `strip_zeros` leaves.
keep_digit-pad :
    (c : ℕ) (t : Text) (n : ℕ)
    → is_digit c ≡ true
    → (k : ℕ) × (c ∷ t ++ replicate n b'0' ≡ keep_digit c t ++ replicate k b'0')
unfolding keep_digit
keep_digit-pad c [] n d = elim (Bool-cases (c == b'0')) [
  | inl e ↦ (suc n, rw e (ap (λ x. x ∷ replicate n b'0') ((==_iff c b'0').0 e)))
  | inr e ↦ (n, rw e refl)
]
keep_digit-pad c (x ∷ t) n d = (n, refl)

-- What `strip_zeros` drops is a run of zeros at the end.
strip_zeros-pad :
    (s : Text) → all is_digit s ≡ true → (k : ℕ) × (s ≡ strip_zeros s ++ replicate k b'0')
unfolding strip_zeros
strip_zeros-pad [] d = (0, refl)
strip_zeros-pad (c ∷ s) d =
    let (n, e) = strip_zeros-pad s (ground arith) in
    let (k, e') = keep_digit-pad c (strip_zeros s) n (ground arith) in (k, ap (λ r. c ∷ r) e ∙ e')

all-strip_zeros : (s : Text) → all is_digit s ≡ true → all is_digit (strip_zeros s) ≡ true
unfolding strip_zeros
all-strip_zeros [] d = refl
all-strip_zeros (c ∷ s) d = kept (strip_zeros s) (all-strip_zeros s (ground arith)) (ground arith)
  where
    kept :
        (t : Text)
        → all is_digit t ≡ true
        → is_digit c ≡ true
        → all is_digit (keep_digit c t) ≡ true
    kept [] h e = unfold keep_digit in ground arith
    kept (x ∷ t) h e = unfold keep_digit in ground arith

abbrev ten_to : ℕ → ℕ
ten_to zero = 1
ten_to (suc k) = 10 * ten_to k

length-print_digits :
    (fuel n k : ℕ) (acc : Text)
    → n < fuel
    → n < ten_to (suc k)
    → length (print_digits fuel n acc) ≤ suc k + length acc
unfolding print_digits
length-print_digits zero n k acc h b = absurd (omega arith)
length-print_digits (suc fuel) n zero acc h b = elim (Bool-cases (ltb n 10)) [
  | inl e ↦ rw e (omega arith)
  | inr e ↦ absurd (ground arith)
]
length-print_digits (suc fuel) n (suc k) acc h b = elim (Bool-cases (ltb n 10)) [
  | inl e ↦ rw e (omega arith)
  | inr e ↦ rw e (
      omega (
        arith,
        length-print_digits fuel (n / 10) k ((48 + n % 10) ∷ acc) (ground arith) (omega arith),
      ))
]

all-append :
    (p : ℕ → Bool) (xs ys : Text) → all p xs ≡ true → all p ys ≡ true → all p (xs ++ ys) ≡ true
all-append p [] ys h k = k
all-append p (x ∷ xs) ys h k = ground (arith, all-append p xs ys)

all-zeros : (n : ℕ) → all is_digit (replicate n b'0') ≡ true
all-zeros zero = refl
all-zeros (suc n) = all-zeros n

digits_from-zeros : (n : ℕ) (s : Text) → digits_from 0 (replicate n b'0' ++ s) ≡ digits_from 0 s
unfolding digits_from
digits_from-zeros zero s = refl
digits_from-zeros (suc n) s = digits_from-zeros n s

plain-digits : (s : Text) → all is_digit s ≡ true → all is_plain s ≡ true
plain-digits [] h = refl
plain-digits (c ∷ s) h = ground (arith, plain-digits s)

length-padded : (s : Text) → length s ≤ 6 → length (pad_start 6 s) ≡ 6
length-padded s h = omega (
  arith,
  length-append (replicate (6 - length s) b'0') s,
  length-replicate {A = ℕ} (6 - length s) b'0',
)

match_parts-dot :
    (c x : ℕ) (w frac : Text)
    → all is_digit (x ∷ frac) ≡ true
    → match_parts (c ∷ w, b'.' ∷ x ∷ frac) ≡ some (c ∷ w, x ∷ frac)
unfolding match_parts match_fraction is_digits
match_parts-dot c x w frac e = rw (match_parts, match_fraction, is_digits, e) refl

scale-fits :
    (w frac : Text)
    → length frac ≤ 6
    → scale w frac ≡ ok (big_int w * 1000000 + big_int (pad_end 6 frac))
unfolding scale
scale-fits w frac le = ground arith

-- Reading what `with_fraction` puts together.
usdc_to_atoms-with_fraction :
    (c : ℕ) (w frac : Text)
    → all is_digit (c ∷ w) ≡ true
    → all is_digit frac ≡ true
    → length frac ≤ 6
    → usdc_to_atoms (with_fraction (c ∷ w) frac)
      ≡ ok (big_int (c ∷ w) * 1000000 + big_int (pad_end 6 frac))
unfolding usdc_to_atoms trim match_amount with_fraction
usdc_to_atoms-with_fraction c w [] d e le =
    rw
      (
        trim_end-plain (c ∷ w) (plain-digits (c ∷ w) d),
        trim_start-plain (c ∷ w) (plain-digits (c ∷ w) d),
        span_digits-digits (c ∷ w) d,
      )
      (unfold match_parts match_fraction in scale-fits (c ∷ w) [] le)
usdc_to_atoms-with_fraction c w (x ∷ frac) d e le =
    let plain = all-plain-dot in
    rw
      (
        trim_end-plain (c ∷ w ++ b'.' ∷ x ∷ frac) plain,
        trim_start-plain (c ∷ w ++ b'.' ∷ x ∷ frac) plain,
        span_digits-dot (c ∷ w) (x ∷ frac) d,
        match_parts-dot c x w frac e,
      )
      (scale-fits (c ∷ w) (x ∷ frac) le)
  where
    all-plain-dot : all is_plain (c ∷ w ++ b'.' ∷ x ∷ frac) ≡ true
    all-plain-dot =
        all-append is_plain (c ∷ w) (b'.' ∷ x ∷ frac) (plain-digits (c ∷ w) d)
          (plain-digits (x ∷ frac) e)

pad_end-strip_zeros :
    (s : Text) → all is_digit s ≡ true → length s ≡ 6 → pad_end 6 (strip_zeros s) ≡ s
pad_end-strip_zeros s d l =
    let (k, e) = strip_zeros-pad s d in
    let sizes = ap length e ∙ length-append (strip_zeros s) (replicate k b'0') in
    ap (λ j. strip_zeros s ++ replicate j b'0')
      (omega (arith, sizes, l, length-replicate {A = ℕ} k b'0'))
    ∙ sym e

length-strip_zeros : (s : Text) → all is_digit s ≡ true → length (strip_zeros s) ≤ length s
length-strip_zeros s d =
    let (k, e) = strip_zeros-pad s d in
    omega (arith, ap length e, length-append (strip_zeros s) (replicate k b'0'))

length-to_text : (n : ℕ) → n < 1000000 → length (to_text n) ≤ 6
unfolding to_text
length-to_text n h = omega (arith, length-print_digits (suc n) n 5 [] (omega arith) h)

all-is_digits : (s : Text) → is_digits s ≡ true → all is_digit s ≡ true
unfolding is_digits
all-is_digits [] h = refl
all-is_digits (c ∷ s) h = h

-- The six digits behind the point.
fraction : ℕ → Text
fraction n = pad_start 6 (to_text (n % 1000000))

digits-fraction : (n : ℕ) → all is_digit (fraction n) ≡ true
unfolding fraction
digits-fraction n =
    all-append is_digit (replicate (6 - length (to_text (n % 1000000))) b'0')
      (to_text (n % 1000000)) (all-zeros (6 - length (to_text (n % 1000000))))
      (all-is_digits (to_text (n % 1000000)) (digits-to_text (n % 1000000)))

length-fraction : (n : ℕ) → length (fraction n) ≡ 6
unfolding fraction
length-fraction n =
    length-padded (to_text (n % 1000000)) (length-to_text (n % 1000000) (omega arith))

big_int-fraction : (n : ℕ) → big_int (fraction n) ≡ n % 1000000
unfolding fraction big_int
big_int-fraction n =
    digits_from-zeros (6 - length (to_text (n % 1000000))) (to_text (n % 1000000))
    ∙ big_int-to_text (n % 1000000)

whole :
    (n : ℕ) (w : Text)
    → is_digits w ≡ true
    → usdc_to_atoms (with_fraction w (strip_zeros (fraction n)))
      ≡ ok (big_int w * 1000000 + n % 1000000)
whole n [] h = unfold is_digits in cc
whole n (c ∷ w) h =
    usdc_to_atoms-with_fraction c w (strip_zeros (fraction n)) (all-is_digits (c ∷ w) h)
      (all-strip_zeros (fraction n) (digits-fraction n))
      (omega (arith, length-strip_zeros (fraction n) (digits-fraction n), length-fraction n))
    ∙ ap (λ f. ok (big_int (c ∷ w) * 1000000 + f))
        (ap big_int (pad_end-strip_zeros (fraction n) (digits-fraction n) (length-fraction n))
          ∙ big_int-fraction n)

-- The decimal text of a number of atoms is read back as that number, whatever its size.
pub usdc_to_atoms-usdc_text : (n : ℕ) → usdc_to_atoms (usdc_text n) ≡ ok n
unfolding usdc_text fraction
usdc_to_atoms-usdc_text n =
    whole n (to_text (n / 1000000)) (digits-to_text (n / 1000000))
    ∙ ap ok (ap (λ q. q * 1000000 + n % 1000000) (big_int-to_text (n / 1000000)) ∙ omega arith)
