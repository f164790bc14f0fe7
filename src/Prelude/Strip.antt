-- ===== src/Prelude/Strip.antt =====
-- What `str.strip` keeps.
use Prim.Native.Nat.{ℕ, ◌≤◌}
use mathlib.Core.Path.{◌≡◌, refl, ap, ◌∙◌}
use mathlib.Core.Logic.{inl, inr}
use mathlib.Core.Bool.{false}
use mathlib.Core.List.{[], ◌∷◌}
use native.Mathlib.Omega.{arith}
use diagnosis_system.Prelude.Tests.{Bool-cases}
use diagnosis_system.Prelude.Lists.{length, IsIn, All}
use diagnosis_system.Prelude.Texts.{Text, is_space, lstrip, trim, rstrip, strip}

length-lstrip : (t : Text) → length (lstrip t) ≤ length t
unfolding lstrip
length-lstrip [] = omega arith
length-lstrip (c ∷ cs) = elim (Bool-cases (is_space c)) [
  | inl e ↦ rw (e, lstrip) (omega (arith, length-lstrip cs))
  | inr e ↦ rw (e, lstrip) (omega arith)
]

length-trim : (c : ℕ) (t : Text) → length (trim c t) ≤ length (c ∷ t)
unfolding trim
length-trim c [] = ground arith
length-trim c (d ∷ ds) = omega arith

length-rstrip : (t : Text) → length (rstrip t) ≤ length t
unfolding rstrip
length-rstrip [] = omega arith
length-rstrip (c ∷ cs) = omega (arith, length-trim c (rstrip cs), length-rstrip cs)

pub length-strip : (t : Text) → length (strip t) ≤ length t
unfolding strip
length-strip t = omega (arith, length-rstrip (lstrip t), length-lstrip t)

module _ (x : ℕ) (dark : is_space x ≡ false) where
  lstrip-IsIn : (t : Text) → IsIn x t → IsIn x (lstrip t)
  unfolding lstrip
  lstrip-IsIn [] h = h
  lstrip-IsIn (c ∷ cs) (inl e) =
      let kept : is_space c ≡ false = cc (dark, e) in rw (kept, lstrip) (inl e)
  lstrip-IsIn (c ∷ cs) (inr h) = elim (Bool-cases (is_space c)) [
    | inl e ↦ rw (e, lstrip) (lstrip-IsIn cs h)
    | inr e ↦ rw (e, lstrip) (inr h)
  ]

  trim-IsIn : (c : ℕ) (t : Text) → IsIn x (c ∷ t) → IsIn x (trim c t)
  unfolding trim
  trim-IsIn c [] (inl e) = let kept : is_space c ≡ false = cc (dark, e) in rw (kept, trim) (inl e)
  trim-IsIn c [] (inr h) = absurd h
  trim-IsIn c (d ∷ ds) h = h

  rstrip-IsIn : (t : Text) → IsIn x t → IsIn x (rstrip t)
  unfolding rstrip
  rstrip-IsIn [] h = h
  rstrip-IsIn (c ∷ cs) (inl e) = trim-IsIn c (rstrip cs) (inl e)
  rstrip-IsIn (c ∷ cs) (inr h) = trim-IsIn c (rstrip cs) (inr (rstrip-IsIn cs h))

  pub strip-IsIn : (t : Text) → IsIn x t → IsIn x (strip t)
  unfolding strip
  strip-IsIn t h = rstrip-IsIn (lstrip t) (lstrip-IsIn t h)

trim_dark : (c : ℕ) (t : Text) → is_space c ≡ false → trim c t ≡ c ∷ t
unfolding trim
trim_dark c [] h = rw (h, trim)
trim_dark c (d ∷ ds) h = refl

lstrip_dark : (c : ℕ) (t : Text) → is_space c ≡ false → lstrip (c ∷ t) ≡ c ∷ t
unfolding lstrip
lstrip_dark c t h = rw (h, lstrip)

lstrip-rstrip-lstrip : (t : Text) → lstrip (rstrip (lstrip t)) ≡ rstrip (lstrip t)
unfolding lstrip rstrip
lstrip-rstrip-lstrip [] = refl
lstrip-rstrip-lstrip (c ∷ cs) = elim (Bool-cases (is_space c)) [
  | inl e ↦ rw (e, lstrip) (lstrip-rstrip-lstrip cs)
  | inr e ↦
      let front = trim_dark c (rstrip cs) e in
      rw (lstrip_dark c cs e) (rw (front, lstrip_dark c (rstrip cs) e))
]

rstrip-trim : (c : ℕ) (t : Text) → rstrip t ≡ t → rstrip (trim c t) ≡ trim c t
unfolding rstrip trim
rstrip-trim c [] h = elim (Bool-cases (is_space c)) [
  | inl e ↦ rw (e, trim)
  | inr e ↦ rw (e, trim) (rw (e, trim))
]
rstrip-trim c (d ∷ ds) h = ap (trim c) h

rstrip-rstrip : (t : Text) → rstrip (rstrip t) ≡ rstrip t
unfolding rstrip
rstrip-rstrip [] = refl
rstrip-rstrip (c ∷ cs) = rstrip-trim c (rstrip cs) (rstrip-rstrip cs)

pub strip-strip : (t : Text) → strip (strip t) ≡ strip t
unfolding strip
strip-strip t = ap rstrip (lstrip-rstrip-lstrip t) ∙ rstrip-rstrip (lstrip t)

abbrev pub IsSolid : ℕ → Type 0
IsSolid c = is_space c ≡ false

trim_solid : (c : ℕ) (t : Text) → IsSolid c → trim c t ≡ c ∷ t
unfolding trim
trim_solid c [] h = rw (h, trim) refl
trim_solid c (d ∷ ds) h = refl

rstrip_solid : (t : Text) → All IsSolid t → rstrip t ≡ t
unfolding rstrip
rstrip_solid [] h = refl
rstrip_solid (c ∷ cs) h = ap (trim c) (rstrip_solid cs h.1) ∙ trim_solid c cs h.0

pub strip_solid : (c : ℕ) (cs : Text) → All IsSolid (c ∷ cs) → strip (c ∷ cs) ≡ c ∷ cs
unfolding strip lstrip
strip_solid c cs h =
    let kept : lstrip (c ∷ cs) ≡ c ∷ cs = rw (h.0, lstrip) refl in
    ap rstrip kept ∙ rstrip_solid (c ∷ cs) h
