-- ===== src/Binutils/Text.antt =====
-- The C strings of binutils: the bytes before the terminating 0, and the functions of the C library
-- that the program calls on them.
use Prim.Native.Char.{code}
use Prim.Native.String.{String}
use mathlib.Core.Path.{ap₂}
use cpu.Prelude.{
  ℕ, ◌+◌, ◌-◌, ◌*◌, ◌≡◌, refl, arith, Bool, true, false, ◌&&◌, Option, none, some, List, [], ◌∷◌,
  leb, ◌==◌, if◌then◌else◌,
}

abbrev pub Text : Type 0
Text = List ℕ

-- The bytes of a text that the program writes as a literal.
abbrev pub codes : String → Text
codes String.[] = []
codes (String.◌∷◌ c s) = code c ∷ codes s

-- `!strcmp(a, b)`
unfoldable pub str_eq : Text → Text → Bool
str_eq [] [] = true
str_eq (a ∷ s) (b ∷ t) = (a == b) && str_eq s t
str_eq _ _ = false

pub str_eq_refl : (s : Text) → str_eq s s ≡ true
unfolding str_eq
str_eq_refl [] = refl
str_eq_refl (a ∷ s) = ground (arith, str_eq_refl s)

pub eq-str_eq : (s t : Text) → str_eq s t ≡ true → s ≡ t
unfolding str_eq
eq-str_eq [] [] h = refl
eq-str_eq [] (b ∷ t) h = cc
eq-str_eq (a ∷ s) [] h = cc
eq-str_eq (a ∷ s) (b ∷ t) h = ap₂ ◌∷◌ (ground arith) (eq-str_eq s t (ground arith))

-- `strchr`: the rest of the text from the first `c` on.
unfoldable pub strchr : ℕ → Text → Option Text
strchr c [] = none
strchr c (a ∷ s) = if a == c then some (a ∷ s) else strchr c s

-- The text before the first `c`: what is left of it after `*strchr(s, c) = 0`.
unfoldable pub before : ℕ → Text → Text
before c [] = []
before c (a ∷ s) = if a == c then [] else a ∷ before c s

abbrev pub is_digit : ℕ → Bool
is_digit c = leb b'0' c && leb c b'9'

-- The value of the leading decimal digits.
unfoldable pub digits_value : ℕ → Text → ℕ
digits_value acc [] = acc
digits_value acc (c ∷ s) =
    let rest = digits_value (acc * 10 + (c - b'0')) s in if is_digit c then rest else acc
