-- ===== src/Parser/Address.antt =====
-- backend/app/services/crash_parser.py: `parse_address`.
pub mod RoundTrip
use diagnosis_system.Prelude.{
  ℕ, zero, suc, ◌+◌, ◌*◌, ◌-◌, ◌^◌, ◌/◌, ◌%◌, ◌≤◌, ◌≡◌, Bool, true, false, not, ◌&&◌, ◌||◌, Option,
  none, some, List, [], ◌∷◌, arith, Text, strip, ltb, leb, ◌==◌, if◌then◌else◌, any, inl, inr,
  Bool-cases, Option-cases,
}
use diagnosis_system.Parser.Value.{
  Integer, pos, negsuc, Float, finite, infinite, nan, Value, null, boolean, integer, float, text,
  array, object,
}

abbrev pub max_address : ℕ
max_address = 0xFFFFFFFF

in_address_space : ℕ → Option ℕ
in_address_space n = if leb n max_address then some n else none

-- `value.is_integer() and 0 <= value <= MAX_ADDRESS`, which holds of minus zero
address_of_float : Float → Option ℕ
unfolding in_address_space
address_of_float (finite negative n scale) =
    if not (n % 2 ^ scale == 0) || (negative && not (n == 0))
    then none
    else in_address_space (n / 2 ^ scale)
address_of_float (infinite negative) = none
address_of_float nan = none

-- a digit to base 16
unfoldable pub hex_value : ℕ → Option ℕ
hex_value c =
    if leb 48 c && leb c 57
    then some (c - 48)
    else if leb 97 c && leb c 102
    then some (c - 87)
    else if leb 65 c && leb c 70
    then some (c - 55)
    else none

-- `int(digits, 16)` with the underscores removed; `none` where `_HEX` does not match
pub hex_number : ℕ → Text → Option ℕ
unfolding hex_value
hex_number n [] = some n
hex_number n (c ∷ cs) = elim (c == b'_') [
  | true ↦ hex_number n cs
  | false ↦ elim (hex_value c) [ none ↦ none | some d ↦ hex_number (n * 16 + d) cs ]
]

in_space : Option ℕ → Option ℕ
unfolding in_address_space
in_space none = none
in_space (some n) = in_address_space n

-- digits and underscores, with one digit at least
address_of_digits : Text → Option ℕ
unfolding hex_number in_space
address_of_digits digits =
    if any (λ c. not (c == b'_')) digits then in_space (hex_number 0 digits) else none

-- the prefix of `_HEX`
without_prefix : Text → Text
without_prefix [] = []
without_prefix (c ∷ []) = c ∷ []
without_prefix (c ∷ x ∷ cs) = if c == b'0' && (x == b'x' || x == b'X') then cs else c ∷ x ∷ cs

unfoldable pub parse_address : Value → Option ℕ
unfolding in_address_space address_of_float address_of_digits without_prefix strip
parse_address null = none
parse_address (boolean b) = none
parse_address (integer (pos n)) = in_address_space n
parse_address (integer (negsuc n)) = none
parse_address (float f) = address_of_float f
parse_address (text t) = address_of_digits (without_prefix (strip t))
parse_address (array vs) = none
parse_address (object m) = none

in_address_space-le : (n : ℕ) {a : ℕ} → in_address_space n ≡ some a → a ≤ max_address
unfolding in_address_space
in_address_space-le n h = ground arith

in_space-le : (o : Option ℕ) {a : ℕ} → in_space o ≡ some a → a ≤ max_address
unfolding in_space
in_space-le none h = cc
in_space-le (some n) h = in_address_space-le n h

address_of_digits-le : (t : Text) {a : ℕ} → address_of_digits t ≡ some a → a ≤ max_address
unfolding address_of_digits
address_of_digits-le t h = elim (Bool-cases (any (λ c. not (c == b'_')) t)) [
  | inl e ↦ in_space-le (hex_number 0 t) (rw e at h)
  | inr e ↦ cc (rw e at h)
]

float-le :
    (negative : Bool) (n scale : ℕ) {a : ℕ}
    → address_of_float (finite negative n scale) ≡ some a
    → a ≤ max_address
unfolding address_of_float
float-le negative n scale h =
    elim (Bool-cases (not (n % 2 ^ scale == 0) || (negative && not (n == 0)))) [
      | inl e ↦ cc (rw e at h)
      | inr e ↦ in_address_space-le (n / 2 ^ scale) (rw e at h)
    ]

-- Whatever a device sends as an address, what is read is a 32-bit address.
pub parse_address_bounds : (v : Value) {a : ℕ} → parse_address v ≡ some a → a ≤ max_address
unfolding parse_address address_of_float
parse_address_bounds null h = cc
parse_address_bounds (boolean b) h = cc
parse_address_bounds (integer (pos n)) h = in_address_space-le n h
parse_address_bounds (integer (negsuc n)) h = cc
parse_address_bounds (float (finite negative n scale)) h = float-le negative n scale h
parse_address_bounds (float (infinite negative)) h = cc
parse_address_bounds (float nan) h = cc
parse_address_bounds (text t) h = address_of_digits-le (without_prefix (strip t)) h
parse_address_bounds (array vs) h = cc
parse_address_bounds (object m) h = cc
