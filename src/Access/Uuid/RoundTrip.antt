-- ===== src/Access/Uuid/RoundTrip.antt =====
-- The subject of a token that was issued here is read back.
use diagnosis_system.Prelude.{
  ℕ, ◌+◌, ◌*◌, ◌^◌, ◌≤◌, ◌<◌, ◌≡◌, refl, ap, sym, ◌∙◌, Bool, true, false, not, ◌||◌, none, some, [],
  ◌∷◌, ◌++◌, arith, Text, codes, is_space, hex, hex_digit, digit_value, strip, strip_solid, IsSolid,
  hex_onto-All, length-hex_onto, length, take, drop, filter, All, All-map, ◌==◌, inl, inr,
  Bool-cases, digit_value-ascii, ltb, leb, ◌&&◌, if◌then◌else◌, rstrip, lstrip, ◌⊎◌, All-append,
  All-take, All-drop, filter-append, filter_all, take-drop, drop-drop, read-hex_onto, shift-zero,
  low_small,
}
use diagnosis_system.Auth.Security.{uuid_text}
use diagnosis_system.Access.Uuid.{
  remove_from, drop_braces, close_braces, rdrop_braces, plain_digits, hex_digit_value, digits_16,
  without_sign, without_base, int_16, uuid_of,
}

remove_from-low : (ps t : Text) → All (λ c. c ≤ 102) t → remove_from (b'u' ∷ ps) 0 t ≡ t
unfolding remove_from
remove_from-low ps [] h = refl
remove_from-low ps (c ∷ cs) h =
    let other : (b'u' == c) ≡ false = ground arith in
    rw (other, remove_from) (ap (◌∷◌ c) (remove_from-low ps cs h.1))

drop_braces-low : (t : Text) → All (λ c. c ≤ 102) t → drop_braces t ≡ t
unfolding drop_braces
drop_braces-low [] h = refl
drop_braces-low (c ∷ cs) h =
    let plain : (c == b'{' || c == b'}') ≡ false = ground arith in rw (plain, drop_braces) refl

rdrop_braces-low : (t : Text) → All (λ c. c ≤ 102) t → rdrop_braces t ≡ t
unfolding rdrop_braces close_braces
rdrop_braces-low [] h = refl
rdrop_braces-low (c ∷ []) h =
    let plain : (c == b'{' || c == b'}') ≡ false = ground arith in rw (plain, close_braces) refl
rdrop_braces-low (c ∷ d ∷ ds) h = ap (close_braces c) (rdrop_braces-low (d ∷ ds) h.1)

-- a digit to base 16 in lower case
abbrev IsHex : ℕ → Type 0
IsHex c = (48 ≤ c) × (c ≤ 102) × ((c ≤ 57) ⊎ (97 ≤ c))

hex_digit-IsHex : (d : ℕ) → d < 16 → IsHex (hex_digit d)
unfolding hex_digit
hex_digit-IsHex d h = ground arith

IsHex-IsSolid : (c : ℕ) → IsHex c → is_space c ≡ false
unfolding is_space
IsHex-IsSolid c h = ground arith

not_hyphen : (c : ℕ) → IsHex c → not (c == b'-') ≡ true
not_hyphen c h = ground arith

hex-All : (n : ℕ) → All IsHex (hex 32 n)
unfolding hex
hex-All n = hex_onto-All hex_digit IsHex hex_digit-IsHex 32 n [] tt

-- a hyphen between two texts
between-low :
    (s t : Text)
    → All (λ c. c ≤ 102) s
    → All (λ c. c ≤ 102) t
    → All (λ c. c ≤ 102) (s ++ (b'-' ∷ t))
between-low s t h k = All-append (λ c. c ≤ 102) s (b'-' ∷ t) h (omega arith, k)

between-dropped :
    (s t : Text)
    → All IsHex s
    → filter (λ c. not (c == b'-')) (s ++ (b'-' ∷ t)) ≡ s ++ filter (λ c. not (c == b'-')) t
between-dropped s t h =
    filter-append (λ c. not (c == b'-')) s (b'-' ∷ t)
    ∙ ap (λ u. u ++ filter (λ c. not (c == b'-')) t)
        (filter_all (λ c. not (c == b'-')) s (All-map IsHex _ not_hyphen s h))

uuid_text-low : (n : ℕ) → All (λ c. c ≤ 102) (uuid_text n)
unfolding uuid_text
uuid_text-low n =
    let digits = hex 32 n in
    let all = All-map IsHex (λ c. c ≤ 102) (λ c h. h.1) digits (hex-All n) in
    let part =
      λ (k : ℕ). All-take (λ c. c ≤ 102) 4 (drop k digits) (All-drop (λ c. c ≤ 102) k digits all) in
    let from_16 = take 4 (drop 16 digits) ++ (b'-' ∷ drop 20 digits) in
    let from_12 = take 4 (drop 12 digits) ++ (b'-' ∷ from_16) in
    let from_8 = take 4 (drop 8 digits) ++ (b'-' ∷ from_12) in
    between-low (take 8 digits) from_8 (All-take (λ c. c ≤ 102) 8 digits all) (
      between-low (take 4 (drop 8 digits)) from_12 (part 8) (
        between-low (take 4 (drop 12 digits)) from_16 (part 12) (
          between-low (take 4 (drop 16 digits)) (drop 20 digits) (part 16)
            (All-drop (λ c. c ≤ 102) 20 digits all))))

rejoined :
    (digits : Text)
    → take 8 digits
        ++ (take 4 (drop 8 digits)
            ++ (take 4 (drop 12 digits) ++ (take 4 (drop 16 digits) ++ drop 20 digits)))
      ≡ digits
rejoined digits =
    let step = λ (k : ℕ).
      ap (λ t. take 4 (drop k digits) ++ t) (sym (drop-drop 4 k digits))
      ∙ take-drop 4 (drop k digits) in
    ap (λ t. take 8 digits ++ (take 4 (drop 8 digits) ++ (take 4 (drop 12 digits) ++ t))) (step 16)
    ∙ ap (λ t. take 8 digits ++ (take 4 (drop 8 digits) ++ t)) (step 12)
    ∙ ap (λ t. take 8 digits ++ t) (step 8)
    ∙ take-drop 8 digits

hyphens_dropped : (n : ℕ) → filter (λ c. not (c == b'-')) (uuid_text n) ≡ hex 32 n
unfolding uuid_text
hyphens_dropped n =
    let digits = hex 32 n in
    let all = hex-All n in
    let part = λ (k : ℕ). All-take IsHex 4 (drop k digits) (All-drop IsHex k digits all) in
    let end =
      filter_all (λ c. not (c == b'-')) (drop 20 digits)
        (All-map IsHex _ not_hyphen (drop 20 digits) (All-drop IsHex 20 digits all)) in
    let from_16 = take 4 (drop 16 digits) ++ (b'-' ∷ drop 20 digits) in
    let from_12 = take 4 (drop 12 digits) ++ (b'-' ∷ from_16) in
    let from_8 = take 4 (drop 8 digits) ++ (b'-' ∷ from_12) in
    between-dropped (take 8 digits) from_8 (All-take IsHex 8 digits all)
    ∙ ap (λ t. take 8 digits ++ t)
        (between-dropped (take 4 (drop 8 digits)) from_12 (part 8)
          ∙ ap (λ t. take 4 (drop 8 digits) ++ t)
              (between-dropped (take 4 (drop 12 digits)) from_16 (part 12)
                ∙ ap (λ t. take 4 (drop 12 digits) ++ t)
                    (between-dropped (take 4 (drop 16 digits)) (drop 20 digits) (part 16)
                      ∙ ap (λ t. take 4 (drop 16 digits) ++ t) end)))
    ∙ rejoined digits

plain_digits-uuid_text : (n : ℕ) → plain_digits (uuid_text n) ≡ hex 32 n
unfolding plain_digits
plain_digits-uuid_text n =
    let t = uuid_text n in
    let low = uuid_text-low n in
    let urn = remove_from-low (codes "rn:") t low in
    let uuid = remove_from-low (codes "uid:") t low in
    ap (λ u. filter (λ c. not (c == b'-')) (rdrop_braces (drop_braces u)))
      (ap (remove_from (codes "uuid:") 0) urn ∙ uuid)
    ∙ ap (λ u. filter (λ c. not (c == b'-')) (rdrop_braces u)) (drop_braces-low t low)
    ∙ ap (filter (λ c. not (c == b'-'))) (rdrop_braces-low t low)
    ∙ hyphens_dropped n

hex_digit_value-decimal : (d : ℕ) → d < 10 → hex_digit_value (48 + d) ≡ digit_value (48 + d)
unfolding hex_digit_value
hex_digit_value-decimal d h =
    let small : (leb 97 (48 + d) && leb (48 + d) 102) ≡ false = ground arith in
    let capital : (leb 65 (48 + d) && leb (48 + d) 70) ≡ false = ground arith in
    rw (small, capital, hex_digit_value) refl

hex_digit_value-letter : (d : ℕ) → 10 ≤ d → d < 16 → hex_digit_value (87 + d) ≡ some d
unfolding hex_digit_value
hex_digit_value-letter d l h =
    let small : (leb 97 (87 + d) && leb (87 + d) 102) ≡ true = ground arith in
    rw (small, hex_digit_value) (ap some (omega arith))

hex_value-hex_digit : (d : ℕ) → d < 16 → hex_digit_value (hex_digit d) ≡ some d
unfolding hex_digit
hex_value-hex_digit d h = elim (Bool-cases (ltb d 10)) [
  | inl e ↦ rw e (hex_digit_value-decimal d (ground arith) ∙ digit_value-ascii d (ground arith))
  | inr e ↦ rw e (hex_digit_value-letter d (ground arith) h)
]

digit_plain : (d : ℕ) → d < 16 → (hex_digit d == b'_') ≡ false
unfolding hex_digit
digit_plain d h = ground arith

-- behind a digit, or in front of the first
digits_16-digit :
    (behind : Bool) (m d : ℕ) (out : Text)
    → d < 16
    → digits_16 behind m (hex_digit d ∷ out) ≡ digits_16 true (m * 16 + d) out
unfolding digits_16
digits_16-digit behind m d out h =
    rw (digit_plain d h, digits_16) (rw (hex_value-hex_digit d h, digits_16) refl)

-- in front of a digit it makes no difference
digits_16-begins :
    (t : Text) → All IsHex t → length t ≡ 32 → digits_16 false 0 t ≡ digits_16 true 0 t
unfolding digits_16
digits_16-begins [] h e = cc
digits_16-begins (c ∷ cs) h e =
    let plain : (c == b'_') ≡ false = ground (arith, h.0) in rw (plain, digits_16) refl

length-hex : (n : ℕ) → length (hex 32 n) ≡ 32
unfolding hex
length-hex n = length-hex_onto hex_digit 32 n [] ∙ omega arith

digits_16-end : (n : ℕ) → digits_16 true n [] ≡ some n
unfolding digits_16
digits_16-end n = refl

digits_read : (n : ℕ) → n < 2 ^ 128 → digits_16 true 0 (hex 32 n) ≡ some n
unfolding hex
digits_read n h =
    read-hex_onto hex_digit (digits_16 true) (digits_16-digit true) 32 0 n []
    ∙ ap (λ k. digits_16 true k []) (omega (arith, shift-zero 32, low_small 32 n (omega arith)))
    ∙ digits_16-end n

no_base : (t : Text) → All IsHex t → without_base t ≡ t
unfolding without_base
no_base [] h = refl
no_base (z ∷ []) h = refl
no_base (z ∷ x ∷ []) h = refl
no_base (z ∷ x ∷ u ∷ cs) h =
    let plain : (z == b'0' && (x == b'x' || x == b'X')) ≡ false = ground (arith, h.1.0) in
    rw plain refl

no_sign : (t : Text) → All IsHex t → without_sign t ≡ t
unfolding without_sign
no_sign [] h = refl
no_sign (c ∷ cs) h = let plain : (c == b'+') ≡ false = ground (arith, h.0) in rw plain refl

strip-hex : (t : Text) → All IsHex t → strip t ≡ t
unfolding strip lstrip rstrip
strip-hex [] h = refl
strip-hex (c ∷ cs) h = strip_solid c cs (All-map IsHex IsSolid IsHex-IsSolid (c ∷ cs) h)

int_16-plain : (t : Text) → All IsHex t → int_16 t ≡ digits_16 false 0 t
unfolding int_16
int_16-plain t h =
    ap (λ u. digits_16 false 0 (without_base (without_sign u))) (strip-hex t h)
    ∙ ap (λ u. digits_16 false 0 (without_base u)) (no_sign t h)
    ∙ ap (digits_16 false 0) (no_base t h)

counted : (t : Text) → length t ≡ 32 → (if length t == 32 then int_16 t else none) ≡ int_16 t
counted t e = rw e refl

pub uuid_of-uuid_text : (n : ℕ) → n < 2 ^ 128 → uuid_of (uuid_text n) ≡ some n
unfolding uuid_of
uuid_of-uuid_text n h =
    let t = hex 32 n in
    ap (λ u. if length u == 32 then int_16 u else none) (plain_digits-uuid_text n)
    ∙ counted t (length-hex n)
    ∙ int_16-plain t (hex-All n)
    ∙ digits_16-begins t (hex-All n) (length-hex n)
    ∙ digits_read n h
