-- ===== src/Parser/Address/RoundTrip.antt =====
-- An address in hexadecimal, as `address_hex` of backend/app/services/symbolizer.py writes it, is read
-- back.
use diagnosis_system.Prelude.{
  IsSolid, strip_solid, hex_onto-All, shift-zero, low_small, read-hex_onto, ℕ, zero, suc, ◌+◌, ◌*◌,
  ◌/◌, ◌%◌, ◌≤◌, ◌<◌, ◌≡◌, refl, ap, ◌∙◌, true, false, not, Option, some, [], ◌∷◌, arith, Text,
  is_space, upper_hex, hex_onto, upper_hex_digit, ◌==◌, any, All,
}
use diagnosis_system.Parser.Value.{text}
use diagnosis_system.Parser.Address.{
  max_address, hex_value, hex_number, in_space, in_address_space, address_of_digits, without_prefix,
  parse_address,
}

hex_value-upper_hex_digit : (d : ℕ) → d < 16 → hex_value (upper_hex_digit d) ≡ some d
unfolding hex_value upper_hex_digit
hex_value-upper_hex_digit d h = ground arith

digit_plain : (d : ℕ) → d < 16 → (upper_hex_digit d == b'_') ≡ false
unfolding upper_hex_digit
digit_plain d h = ground arith

digit-IsSolid : (d : ℕ) → d < 16 → is_space (upper_hex_digit d) ≡ false
unfolding is_space upper_hex_digit
digit-IsSolid d h = ground arith

hex_number-digit :
    (m d : ℕ) (out : Text)
    → d < 16
    → hex_number m (upper_hex_digit d ∷ out) ≡ hex_number (m * 16 + d) out
unfolding hex_number
hex_number-digit m d out h =
    rw (digit_plain d h, hex_number) (rw (hex_value-upper_hex_digit d h, hex_number) refl)

hex_onto-IsSolid :
    (digits n : ℕ) (out : Text)
    → All IsSolid out
    → All IsSolid (hex_onto upper_hex_digit digits n out)
hex_onto-IsSolid = hex_onto-All upper_hex_digit IsSolid digit-IsSolid

hex_onto-any :
    (digits n : ℕ) (out : Text)
    → any (λ c. not (c == b'_')) out ≡ true
    → any (λ c. not (c == b'_')) (hex_onto upper_hex_digit digits n out) ≡ true
unfolding hex_onto
hex_onto-any zero n out h = h
hex_onto-any (suc digits) n out h =
    hex_onto-any digits (n / 16) (upper_hex_digit (n % 16) ∷ out)
      (rw (digit_plain (n % 16) (omega arith), any))

in_space-small : (o : Option ℕ) (n : ℕ) → o ≡ some n → n ≤ max_address → in_space o ≡ some n
unfolding in_space in_address_space
in_space-small o n e h = ground (arith, e)

counted :
    (digits : Text)
    → any (λ c. not (c == b'_')) digits ≡ true
    → address_of_digits digits ≡ in_space (hex_number 0 digits)
unfolding address_of_digits
counted digits h = rw h refl

-- the text of an address of at most 32 bits: `f"0x{address:08X}"`
abbrev pub address_hex : ℕ → Text
address_hex address = b'0' ∷ b'x' ∷ upper_hex 8 address

hex-IsSolid : (address : ℕ) → All IsSolid (address_hex address)
unfolding upper_hex is_space
hex-IsSolid address = (refl, (refl, hex_onto-IsSolid 8 address [] tt))

digits_read :
    (address : ℕ) → address ≤ max_address → address_of_digits (upper_hex 8 address) ≡ some address
unfolding hex_number upper_hex
digits_read address h =
    let digits = hex_onto upper_hex_digit 8 address [] in
    let number : hex_number 0 digits ≡ some address =
      read-hex_onto upper_hex_digit hex_number hex_number-digit 8 0 address []
      ∙ ap some (omega (arith, shift-zero 8, low_small 8 address (omega arith))) in
    let real =
      hex_onto-any 7 (address / 16) (upper_hex_digit (address % 16) ∷ [])
        (rw (digit_plain (address % 16) (omega arith), any)) in
    counted digits real ∙ in_space-small (hex_number 0 digits) address number h

-- An address of at most 32 bits that is written in hexadecimal is read back.
pub parse_address-address_hex :
    (address : ℕ)
    → address ≤ max_address
    → parse_address (text (address_hex address)) ≡ some address
unfolding parse_address without_prefix
parse_address-address_hex address h =
    ap (λ t. address_of_digits (without_prefix t))
      (strip_solid b'0' (b'x' ∷ upper_hex 8 address) (hex-IsSolid address))
    ∙ digits_read address h
