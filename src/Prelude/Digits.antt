-- ===== src/Prelude/Digits.antt =====
-- Numbers written to base 16.
use Prim.Native.Nat.{ℕ, zero, suc, ◌+◌, ◌*◌, ◌/◌, ◌%◌, ◌<◌}
use mathlib.Core.Path.{◌≡◌, refl, ap, ◌∙◌}
use mathlib.Core.List.{◌∷◌}
use native.Mathlib.Omega.{arith}
use diagnosis_system.Prelude.Lists.{length, All}
use diagnosis_system.Prelude.Texts.{Text, hex_onto}

-- what holds of every digit holds of every character of the number
pub hex_onto-All :
    (digit : ℕ → ℕ) (P : ℕ → Type 0)
    → ((d : ℕ) → d < 16 → P (digit d))
    → (digits n : ℕ) (out : Text) → All P out
    → All P (hex_onto digit digits n out)
unfolding hex_onto
hex_onto-All digit P h zero n out all = all
hex_onto-All digit P h (suc digits) n out all =
    hex_onto-All digit P h digits (n / 16) (digit (n % 16) ∷ out) (h (n % 16) (omega arith), all)

pub length-hex_onto :
    (digit : ℕ → ℕ) (digits n : ℕ) (out : Text)
    → length (hex_onto digit digits n out) ≡ digits + length out
unfolding hex_onto
length-hex_onto digit zero n out = omega arith
length-hex_onto digit (suc digits) n out =
    omega (arith, length-hex_onto digit digits (n / 16) (digit (n % 16) ∷ out))

-- the number with the digits of `m` and `digits` more places
abbrev pub shift : ℕ → ℕ → ℕ
shift zero m = m
shift (suc digits) m = shift digits m * 16

-- the number that the lowest digits of `n` make
abbrev pub low : ℕ → ℕ → ℕ
low zero n = 0
low (suc digits) n = low digits (n / 16) * 16 + n % 16

pub shift-zero : (digits : ℕ) → shift digits 0 ≡ 0
shift-zero zero = refl
shift-zero (suc digits) = omega (arith, shift-zero digits)

pub low_small : (digits n : ℕ) → n < shift digits 1 → low digits n ≡ n
low_small zero n h = omega arith
low_small (suc digits) n h = omega (arith, low_small digits (n / 16) (omega arith))

-- what a reader that takes a digit at a time makes of a number
pub read-hex_onto {ℓ} :
    {R : Type ℓ} (digit : ℕ → ℕ) (read : ℕ → Text → R)
    → ((m d : ℕ) (out : Text) → d < 16 → read m (digit d ∷ out) ≡ read (m * 16 + d) out)
    → (digits m n : ℕ) (out : Text)
    → read m (hex_onto digit digits n out) ≡ read (shift digits m + low digits n) out
unfolding hex_onto
read-hex_onto digit read step zero m n out = ap (λ k. read k out) (omega arith)
read-hex_onto digit read step (suc digits) m n out =
    read-hex_onto digit read step digits m (n / 16) (digit (n % 16) ∷ out)
    ∙ step (shift digits m + low digits (n / 16)) (n % 16) out (omega arith)
    ∙ ap (λ k. read k out) (omega arith)
