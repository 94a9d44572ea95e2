-- ===== src/Prelude/Texts.antt =====
-- Texts as lists of code points, with the string functions of the language that the program calls.
use Prim.Native.Char.{code}
use Prim.Native.Nat.{ℕ, ◌+◌}
use Prim.Native.String.{String}
use mathlib.Core.Path.{◌≡◌, refl}
use mathlib.Core.Logic.{◌↔◌}
use mathlib.Core.Bool.{Bool, true, false, ◌&&◌, ◌||◌}
use mathlib.Core.List.{List, [], ◌∷◌, map}
use native.Mathlib.Omega.{arith}
use t3_spend.Prelude.Tests.{if◌then◌else◌, ◌==◌, leb}

abbrev pub Text : Type 0
Text = List ℕ

-- A literal of the source.
abbrev pub codes : String → Text
codes String.[] = []
codes (String.◌∷◌ c s) = code c ∷ codes s

-- `a === b`
unfoldable pub text_eq : Text → Text → Bool
text_eq [] [] = true
text_eq [] (_ ∷ _) = false
text_eq (_ ∷ _) [] = false
text_eq (a ∷ s) (b ∷ t) = a == b && text_eq s t

pub text_eq_sound : (s t : Text) → text_eq s t ≡ true → s ≡ t
unfolding text_eq
text_eq_sound [] [] h = refl
text_eq_sound [] (_ ∷ _) h = cc
text_eq_sound (_ ∷ _) [] h = cc
text_eq_sound (a ∷ s) (b ∷ t) h = ground (arith, text_eq_sound s t)

pub text_eq_refl : (s : Text) → text_eq s s ≡ true
unfolding text_eq
text_eq_refl [] = refl
text_eq_refl (a ∷ s) = ground (arith, text_eq_refl s)

pub text_eq_iff : (s t : Text) → (text_eq s t ≡ true) ↔ (s ≡ t)
text_eq_iff s t = (text_eq_sound s t, λ e. rw e (text_eq_refl t))

abbrev is_upper : ℕ → Bool
is_upper c = leb 65 c && leb c 90

-- `toLowerCase` on an ASCII character.
abbrev pub lower_char : ℕ → ℕ
lower_char c = if is_upper c then c + 32 else c

-- `s.toLowerCase()` on ASCII text, which every address and hex string is.
unfoldable pub lower : Text → Text
lower = map lower_char

-- `a.toLowerCase() === b.toLowerCase()`
unfoldable pub same_address : Text → Text → Bool
unfolding text_eq lower
same_address a b = text_eq (lower a) (lower b)

-- `xs.some((x) => x.toLowerCase() === a.toLowerCase())`, and a lower-cased `Set` with `has`.
unfoldable pub has_address : List Text → Text → Bool
unfolding same_address
has_address [] a = false
has_address (x ∷ xs) a = same_address x a || has_address xs a

-- `xs.includes(s)`
unfoldable pub has_text : List Text → Text → Bool
unfolding text_eq
has_text [] s = false
has_text (x ∷ xs) s = text_eq x s || has_text xs s

-- `\d` of a regular expression
abbrev pub is_digit : ℕ → Bool
is_digit c = leb 48 c && leb c 57

pub text_eq_sym : (s t : Text) → text_eq s t ≡ text_eq t s
unfolding text_eq
text_eq_sym [] [] = refl
text_eq_sym [] (_ ∷ _) = refl
text_eq_sym (_ ∷ _) [] = refl
text_eq_sym (a ∷ s) (b ∷ t) = ground (arith, text_eq_sym s t)
