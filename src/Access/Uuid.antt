-- ===== src/Access/Uuid.antt =====
-- `uuid.UUID(text)`, by which backend/app/api/deps.py reads the subject of a token.
pub mod RoundTrip
use diagnosis_system.Prelude.{
  ℕ, zero, suc, ◌+◌, ◌*◌, ◌-◌, Bool, true, false, not, ◌&&◌, ◌||◌, Option, none, some, List, [],
  ◌∷◌, Text, codes, strip, digit_value, length, filter, after_prefix, leb, ◌==◌, if◌then◌else◌,
  lstrip, rstrip,
}

-- `text.replace(pattern, "")`: `skip` characters belong to the last occurrence
remove_from : Text → ℕ → Text → Text
remove_from pattern skip [] = []
remove_from pattern (suc skip) (c ∷ cs) = remove_from pattern skip cs
remove_from pattern zero (c ∷ cs) = elim (after_prefix pattern (c ∷ cs)) [
  | some rest ↦ remove_from pattern (length pattern - 1) cs
  | none ↦ c ∷ remove_from pattern zero cs
]

abbrev is_brace : ℕ → Bool
is_brace c = c == b'{' || c == b'}'

drop_braces : Text → Text
drop_braces [] = []
drop_braces (c ∷ cs) = elim (is_brace c) [ true ↦ drop_braces cs | false ↦ c ∷ cs ]

-- `c` in front of a text that has lost its braces on the right
close_braces : ℕ → Text → Text
close_braces c [] = elim (is_brace c) [ true ↦ [] | false ↦ c ∷ [] ]
close_braces c (d ∷ ds) = c ∷ d ∷ ds

rdrop_braces : Text → Text
unfolding close_braces
rdrop_braces [] = []
rdrop_braces (c ∷ cs) = close_braces c (rdrop_braces cs)

-- a digit to base 16: any decimal digit of Unicode, or a letter
pub hex_digit_value : ℕ → Option ℕ
unfolding digit_value
hex_digit_value c =
    if leb 97 c && leb c 102
    then some (c - 87)
    else if leb 65 c && leb c 70
    then some (c - 55)
    else digit_value c

-- the digits of `int(text, 16)`; an underscore stands between two digits
pub digits_16 : Bool → ℕ → Text → Option ℕ
unfolding hex_digit_value
digits_16 behind_digit n [] = if behind_digit then some n else none
digits_16 behind_digit n (c ∷ cs) = elim (c == b'_') [
  | true ↦ elim behind_digit [ true ↦ digits_16 false n cs | false ↦ none ]
  | false ↦ elim (hex_digit_value c) [ none ↦ none | some d ↦ digits_16 true (n * 16 + d) cs ]
]

without_sign : Text → Text
without_sign [] = []
without_sign (c ∷ cs) = if c == b'+' then cs else c ∷ cs

-- `0x`, behind which an underscore may stand
without_base : Text → Text
without_base [] = []
without_base (z ∷ []) = z ∷ []
without_base (z ∷ x ∷ []) = z ∷ x ∷ []
without_base (z ∷ x ∷ u ∷ cs) =
    if z == b'0' && (x == b'x' || x == b'X')
    then (if u == b'_' then cs else u ∷ cs)
    else z ∷ x ∷ u ∷ cs

-- `int(text, 16)` of a text with no hyphen
int_16 : Text → Option ℕ
unfolding digits_16 without_sign without_base strip
int_16 t = digits_16 false 0 (without_base (without_sign (strip t)))

pub plain_digits : Text → Text
unfolding remove_from drop_braces rdrop_braces
plain_digits t =
    filter (λ c. not (c == b'-'))
      (rdrop_braces (drop_braces (remove_from (codes "uuid:") 0 (remove_from (codes "urn:") 0 t))))

-- the number of the UUID; `none` is the `ValueError`
unfoldable pub uuid_of : Text → Option ℕ
unfolding plain_digits int_16
uuid_of t = let digits = plain_digits t in if length digits == 32 then int_16 digits else none
