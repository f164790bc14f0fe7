-- ===== src/Prelude/Texts.antt =====
-- Python's `str` as its list of code points, with the methods that the program calls.
use Prim.Native.Nat.{ℕ, zero, suc, ◌+◌, ◌-◌, ◌/◌, ◌%◌, ◌<◌}
use Prim.Native.Char.{code}
use Prim.Native.String.{String}
use mathlib.Core.Path.{◌≡◌, refl, ap, ◌∙◌}
use mathlib.Core.Logic.{◌↔◌}
use native.Mathlib.Omega.{arith}
use mathlib.Core.Bool.{Bool, true, false, ◌&&◌, ◌||◌}
use mathlib.Core.Option.{Option, none, some}
use mathlib.Core.List.{List, [], ◌∷◌, ◌++◌}
use diagnosis_system.Prelude.Tests.{leb, ltb, ◌==◌, if◌then◌else◌}
use diagnosis_system.Prelude.Lists.{any}

abbrev pub Text : Type 0
Text = List ℕ

-- The code points of a literal. `String` has its own `[]` and `∷`.
abbrev pub codes : String → Text
codes String.[] = []
codes (String.◌∷◌ c s) = code c ∷ codes s

abbrev pub text_eq : Text → Text → Bool
text_eq [] [] = true
text_eq (x ∷ xs) (y ∷ ys) = (x == y) && text_eq xs ys
text_eq _ _ = false

-- `str.isspace`, which `str.strip` and `\s` share
unfoldable pub is_space : ℕ → Bool
is_space c =
    (leb 9 c && leb c 13)
    || (leb 28 c && leb c 32)
    || c == 0x85
    || c == 0xa0
    || c == 0x1680
    || (leb 0x2000 c && leb c 0x200a)
    || c == 0x2028
    || c == 0x2029
    || c == 0x202f
    || c == 0x205f
    || c == 0x3000

unfoldable pub lstrip : Text → Text
lstrip [] = []
lstrip (c ∷ cs) = elim (is_space c) [ true ↦ lstrip cs | false ↦ c ∷ cs ]

-- `c` in front of a text that has lost its space on the right
unfoldable pub trim : ℕ → Text → Text
trim c [] = elim (is_space c) [ true ↦ [] | false ↦ c ∷ [] ]
trim c (d ∷ ds) = c ∷ d ∷ ds

unfoldable pub rstrip : Text → Text
unfolding trim
rstrip [] = []
rstrip (c ∷ cs) = trim c (rstrip cs)

unfoldable pub strip : Text → Text
unfolding lstrip rstrip
strip t = rstrip (lstrip t)

-- the zeros of Unicode's blocks of ten decimal digits, but that of ASCII
other_digit_zeros : List ℕ
other_digit_zeros =
    0x660 ∷ 0x6f0 ∷ 0x7c0 ∷ 0x966 ∷ 0x9e6 ∷ 0xa66 ∷ 0xae6 ∷ 0xb66 ∷ 0xbe6 ∷ 0xc66 ∷ 0xce6 ∷ 0xd66
    ∷ 0xde6 ∷ 0xe50 ∷ 0xed0 ∷ 0xf20 ∷ 0x1040 ∷ 0x1090 ∷ 0x17e0 ∷ 0x1810 ∷ 0x1946 ∷ 0x19d0 ∷ 0x1a80
    ∷ 0x1a90 ∷ 0x1b50 ∷ 0x1bb0 ∷ 0x1c40 ∷ 0x1c50 ∷ 0xa620 ∷ 0xa8d0 ∷ 0xa900 ∷ 0xa9d0 ∷ 0xa9f0
    ∷ 0xaa50 ∷ 0xabf0 ∷ 0xff10 ∷ 0x104a0 ∷ 0x10d30 ∷ 0x11066 ∷ 0x110f0 ∷ 0x11136 ∷ 0x111d0 ∷ 0x112f0
    ∷ 0x11450 ∷ 0x114d0 ∷ 0x11650 ∷ 0x116c0 ∷ 0x11730 ∷ 0x118e0 ∷ 0x11950 ∷ 0x11c50 ∷ 0x11d50
    ∷ 0x11da0 ∷ 0x16a60 ∷ 0x16ac0 ∷ 0x16b50 ∷ 0x1d7ce ∷ 0x1d7d8 ∷ 0x1d7e2 ∷ 0x1d7ec ∷ 0x1d7f6
    ∷ 0x1e140 ∷ 0x1e2f0 ∷ 0x1e950 ∷ 0x1fbf0 ∷ []

digit_zeros : List ℕ
unfolding other_digit_zeros
digit_zeros = 0x30 ∷ other_digit_zeros

-- `str.isdigit` on decimal digits, and `\d`
unfoldable pub is_decimal : ℕ → Bool
unfolding digit_zeros
is_decimal c = any (λ z. leb z c && ltb c (z + 10)) digit_zeros

-- the decimal digits of a number; a number has fewer digits than its successor
decimal_onto : ℕ → ℕ → Text → Text
decimal_onto zero n out = out
decimal_onto (suc fuel) n out = elim (ltb n 10) [
  | true ↦ (48 + n) ∷ out
  | false ↦ decimal_onto fuel (n / 10) ((48 + n % 10) ∷ out)
]

-- `str(n)`
unfoldable pub decimal : ℕ → Text
unfolding decimal_onto
decimal n = decimal_onto (suc n) n []

-- `separator.join(parts)`
abbrev pub join : Text → List Text → Text
join separator [] = []
join separator (t ∷ []) = t
join separator (t ∷ u ∷ us) = t ++ (separator ++ join separator (u ∷ us))

-- what follows a prefix, if the text begins with it
abbrev pub after_prefix : Text → Text → Option Text
after_prefix [] t = some t
after_prefix (p ∷ ps) [] = none
after_prefix (p ∷ ps) (c ∷ cs) = elim (p == c) [ true ↦ after_prefix ps cs | false ↦ none ]

pub text_eq_iff : (s t : Text) → (text_eq s t ≡ true) ↔ (s ≡ t)
text_eq_iff [] [] = ground arith
text_eq_iff [] (y ∷ ys) = ground arith
text_eq_iff (x ∷ xs) [] = ground arith
text_eq_iff (x ∷ xs) (y ∷ ys) = ground (arith, text_eq_iff xs ys)

pub text_eq_refl : (s : Text) → text_eq s s ≡ true
text_eq_refl s = (text_eq_iff s s).1 refl

-- the value of a decimal digit
value_from : List ℕ → ℕ → Option ℕ
value_from [] c = none
value_from (z ∷ zs) c = elim (leb z c && ltb c (z + 10)) [
  | true ↦ some (c - z)
  | false ↦ value_from zs c
]

unfoldable pub digit_value : ℕ → Option ℕ
unfolding value_from digit_zeros
digit_value c = value_from digit_zeros c

value_from-here :
    (z : ℕ) (zs : List ℕ) (c : ℕ)
    → (leb z c && ltb c (z + 10)) ≡ true
    → value_from (z ∷ zs) c ≡ some (c - z)
unfolding value_from
value_from-here z zs c h = rw (h, value_from) refl

pub digit_value-ascii : (d : ℕ) → d < 10 → digit_value (48 + d) ≡ some d
unfolding digit_value
digit_value-ascii d h =
    value_from-here 48 other_digit_zeros (48 + d) (ground arith) ∙ ap some (omega arith)

-- the lowest digits of a number to base 16, in lower case
unfoldable pub hex_digit : ℕ → ℕ
hex_digit d = if ltb d 10 then 48 + d else 87 + d

-- the same in upper case
unfoldable pub upper_hex_digit : ℕ → ℕ
upper_hex_digit d = if ltb d 10 then 48 + d else 55 + d

unfoldable pub hex_onto : (ℕ → ℕ) → ℕ → ℕ → Text → Text
hex_onto digit zero n out = out
hex_onto digit (suc digits) n out = hex_onto digit digits (n / 16) (digit (n % 16) ∷ out)

unfoldable pub hex : ℕ → ℕ → Text
unfolding hex_onto hex_digit
hex digits n = hex_onto hex_digit digits n []

unfoldable pub upper_hex : ℕ → ℕ → Text
unfolding hex_onto upper_hex_digit
upper_hex digits n = hex_onto upper_hex_digit digits n []

-- the length of `text.encode("utf-8")`
abbrev pub utf8_length : Text → ℕ
utf8_length [] = 0
utf8_length (c ∷ cs) =
    (if ltb c 0x80 then 1 else if ltb c 0x800 then 2 else if ltb c 0x10000 then 3 else 4)
    + utf8_length cs

-- `s <= t` on texts
unfoldable pub text_before : Text → Text → Bool
text_before [] t = true
text_before (c ∷ cs) [] = false
text_before (c ∷ cs) (d ∷ ds) = let rest = text_before cs ds in ltb c d || (c == d && rest)

-- a set of texts, as it is read from the end
unfoldable pub distinct_texts : List Text → List Text
distinct_texts [] = []
distinct_texts (t ∷ ts) =
    let rest = distinct_texts ts in if any (text_eq t) ts then rest else t ∷ rest
