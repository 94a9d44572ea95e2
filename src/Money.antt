-- ===== src/Money.antt =====
-- packages/engine/src/money.ts: USDC amounts as decimal texts and as atoms.
pub mod RoundTrip
pub mod Amounts
use t3_spend.Prelude.{
  ℕ, zero, suc, ◌+◌, ◌-◌, ◌*◌, ◌/◌, ◌%◌, ◌^◌, ◌≡◌, refl, Bool, false, ◌&&◌, ◌||◌, Option, none,
  some, [], ◌∷◌, ◌++◌, ltb, leb, ◌==◌, if◌then◌else◌,
}
use t3_spend.Prelude.Lists.{length, replicate, all}
use t3_spend.Prelude.Texts.{Text, codes, is_digit}
use t3_spend.Prelude.Int.{ℤ, pos, negsuc}
use t3_spend.Prelude.Failures.{Result, ok, err, bare, ◌>>=◌, or_throw}

abbrev pub usdc_decimals : ℕ
usdc_decimals = 6

abbrev pub atoms_per_usdc : ℕ
atoms_per_usdc = 10 ^ usdc_decimals

-- A run of decimal digits as a number, going on from `n`: `BigInt(s)`.
unfoldable pub digits_from : ℕ → Text → ℕ
digits_from n [] = n
digits_from n (c ∷ s) = digits_from (n * 10 + (c - 48)) s

-- `BigInt(s)` on a text of digits.
unfoldable pub big_int : Text → ℕ
unfolding digits_from
big_int = digits_from 0

-- Puts the digits of `n` before `acc`; every round drops one digit, so `n + 1` rounds are enough.
unfoldable pub print_digits : ℕ → ℕ → Text → Text
print_digits zero n acc = acc
print_digits (suc fuel) n acc =
    let rest = print_digits fuel (n / 10) ((48 + n % 10) ∷ acc) in
    if ltb n 10 then (48 + n) ∷ acc else rest

-- `n.toString()` of a bigint that is not negative.
unfoldable pub to_text : ℕ → Text
unfolding print_digits
to_text n = print_digits (suc n) n []

-- The white space that `trim` removes.
abbrev pub is_space : ℕ → Bool
is_space c =
    (leb 9 c && leb c 13)
    || c == 32
    || c == 0xa0
    || c == 0x1680
    || (leb 0x2000 c && leb c 0x200a)
    || c == 0x2028
    || c == 0x2029
    || c == 0x202f
    || c == 0x205f
    || c == 0x3000
    || c == 0xfeff

unfoldable pub trim_start : Text → Text
trim_start [] = []
trim_start (c ∷ s) = let rest = trim_start s in if is_space c then rest else c ∷ s

-- A space is dropped where nothing but spaces follows it.
unfoldable pub keep_char : ℕ → Text → Text
keep_char c [] = if is_space c then [] else c ∷ []
keep_char c (d ∷ t) = c ∷ d ∷ t

unfoldable pub trim_end : Text → Text
unfolding keep_char
trim_end [] = []
trim_end (c ∷ s) = keep_char c (trim_end s)

-- `s.trim()`
unfoldable pub trim : Text → Text
unfolding trim_start trim_end
trim s = trim_start (trim_end s)

-- `s.padEnd(n, "0")` and `s.padStart(n, "0")`
abbrev pub pad_end : ℕ → Text → Text
pad_end n s = s ++ replicate (n - length s) b'0'

abbrev pub pad_start : ℕ → Text → Text
pad_start n s = replicate (n - length s) b'0' ++ s

-- `s.replace(/0+$/, "")`
unfoldable pub keep_digit : ℕ → Text → Text
keep_digit c [] = if c == b'0' then [] else c ∷ []
keep_digit c (d ∷ t) = c ∷ d ∷ t

unfoldable pub strip_zeros : Text → Text
unfolding keep_digit
strip_zeros [] = []
strip_zeros (c ∷ s) = keep_digit c (strip_zeros s)

-- The longest prefix of digits, and what follows it.
unfoldable pub span_digits : Text → Text × Text
span_digits [] = ([], [])
span_digits (c ∷ s) =
    let rest = span_digits s in if is_digit c then (c ∷ rest.0, rest.1) else ([], c ∷ s)

-- A non-empty text of digits: `/^\d+$/`.
unfoldable pub is_digits : Text → Bool
is_digits [] = false
is_digits (c ∷ s) = all is_digit (c ∷ s)

-- What follows the whole part in `/^(\d+)(?:\.(\d+))?$/`: nothing, or a dot and digits.
unfoldable pub match_fraction : Text → Option Text
unfolding is_digits
match_fraction [] = some []
match_fraction (c ∷ s) = if c == b'.' && is_digits s then some s else none

-- The two groups of the expression; `none` where it does not match.
unfoldable pub match_parts : Text × Text → Option (Text × Text)
unfolding match_fraction
match_parts ([], rest) = none
match_parts (c ∷ whole, rest) = elim (match_fraction rest) [
  | none ↦ none
  | some frac ↦ some (c ∷ whole, frac)
]

unfoldable pub match_amount : Text → Option (Text × Text)
unfolding span_digits match_parts
match_amount s = match_parts (span_digits s)

-- `usdcToAtoms` after the match.
unfoldable pub scale : Text → Text → Result ℕ
unfolding big_int
scale whole frac =
    if ltb usdc_decimals (length frac)
    then err bare
    else ok (big_int whole * atoms_per_usdc + big_int (pad_end usdc_decimals frac))

unfoldable pub usdc_to_atoms : Text → Result ℕ
unfolding trim match_amount scale
usdc_to_atoms amount = do
  (whole, frac) ← or_throw (match_amount (trim amount)) bare
  scale whole frac

-- The decimal text of a number of atoms that is not negative.
unfoldable pub with_fraction : Text → Text → Text
with_fraction whole [] = whole
with_fraction whole (c ∷ frac) = whole ++ b'.' ∷ c ∷ frac

unfoldable pub usdc_text : ℕ → Text
unfolding to_text strip_zeros with_fraction
usdc_text atoms =
    with_fraction (to_text (atoms / atoms_per_usdc))
      (strip_zeros (pad_start usdc_decimals (to_text (atoms % atoms_per_usdc))))

-- A bigint may be negative, and then `atomsToUsdc` throws.
unfoldable pub atoms_to_usdc : ℤ → Result Text
unfolding usdc_text
atoms_to_usdc (pos atoms) = ok (usdc_text atoms)
atoms_to_usdc (negsuc n) = err bare

unfoldable pub parse_atoms : Text → Result ℕ
unfolding is_digits big_int
parse_atoms s = if is_digits s then ok (big_int s) else err bare

usdc_to_atoms_runs :
    (usdc_to_atoms (codes " 12.34") ≡ ok 12_340_000)
    × (usdc_to_atoms (codes "0.01") ≡ ok 10_000)
    × (usdc_to_atoms (codes "5") ≡ ok 5_000_000)
    × (usdc_to_atoms (codes "5.") ≡ err bare)
    × (usdc_to_atoms (codes "1.0000001") ≡ err bare)
    × (usdc_to_atoms (codes "-1") ≡ err bare)
unfolding usdc_to_atoms
usdc_to_atoms_runs = (refl, refl, refl, refl, refl, refl)

usdc_text_runs : (usdc_text 10_000 ≡ codes "0.01") × (usdc_text 5_000_000 ≡ codes "5")
unfolding usdc_text
usdc_text_runs = (refl, refl)
