-- ===== src/Prelude/Bisect.antt =====
-- The standard library's `bisect_right`: its loop, and the insertion point that it finds in a
-- sorted list. The loop runs on fuel; `hi` falls or `lo` grows each round, so `len(xs)` rounds do.
use Prim.Native.Nat.{ℕ, zero, suc, ◌+◌, ◌/◌, ◌≤◌, ◌<◌}
use mathlib.Core.Path.{◌≡◌}
use mathlib.Core.Logic.{inl, inr}
use mathlib.Core.Bool.{true, false}
use mathlib.Core.Option.{none, some}
use mathlib.Core.List.{List, [], ◌∷◌}
use native.Mathlib.Omega.{arith}
use diagnosis_system.Prelude.Tests.{ltb, leb, if◌then◌else◌, Bool-cases}
use diagnosis_system.Prelude.Lists.{length, get_elem?, All, Pairwise}

-- the middle element `a[mid]` is in range whenever `lo < hi <= len(a)`
bisect_loop : ℕ → List ℕ → ℕ → ℕ → ℕ → ℕ
bisect_loop zero xs x lo hi = lo
bisect_loop (suc fuel) xs x lo hi = elim (ltb lo hi) [
  | false ↦ lo
  | true ↦ elim (get_elem? xs ((lo + hi) / 2)) [
    | none ↦ lo
    | some v ↦ elim (ltb x v) [
      | true ↦ bisect_loop fuel xs x lo ((lo + hi) / 2)
      | false ↦ bisect_loop fuel xs x ((lo + hi) / 2 + 1) hi
    ]
  ]
]

unfoldable pub bisect_right : List ℕ → ℕ → ℕ
unfolding bisect_loop
bisect_right xs x = bisect_loop (length xs) xs x 0 (length xs)

-- the number of elements that are at most `x`
abbrev pub count_le : ℕ → List ℕ → ℕ
count_le x [] = 0
count_le x (y ∷ ys) = (if leb y x then 1 else 0) + count_le x ys

abbrev pub IsSorted : List ℕ → Type 0
IsSorted = Pairwise (λ a b. a ≤ b)

pub count_le-le-length : (x : ℕ) (xs : List ℕ) → count_le x xs ≤ length xs
count_le-le-length x [] = omega arith
count_le-le-length x (y ∷ ys) = ground (arith, count_le-le-length x ys)

count_le-above : (x y : ℕ) (ys : List ℕ) → x < y → All (λ z. y ≤ z) ys → count_le x ys ≡ 0
count_le-above x y [] h a = omega arith
count_le-above x y (z ∷ zs) h a = ground (arith, count_le-above x y zs h a.1)

-- In a sorted list the elements that are at most `x` come first.
pub get_elem?-below :
    (x : ℕ) (xs : List ℕ) (i : ℕ) {v : ℕ}
    → IsSorted xs
    → get_elem? xs i ≡ some v
    → i < count_le x xs
    → v ≤ x
get_elem?-below x [] i s e h = cc
get_elem?-below x (y ∷ ys) zero s e h = ground (arith, count_le-above x y ys)
get_elem?-below x (y ∷ ys) (suc i) s e h =
    ground (arith, get_elem?-below x ys i s.1 e, count_le-above x y ys)

pub get_elem?-above :
    (x : ℕ) (xs : List ℕ) (i : ℕ) {v : ℕ}
    → IsSorted xs
    → get_elem? xs i ≡ some v
    → count_le x xs ≤ i
    → x < v
get_elem?-above x [] i s e h = cc
get_elem?-above x (y ∷ ys) zero s e h = ground arith
get_elem?-above x (y ∷ ys) (suc i) s e h = elim (Bool-cases (leb y x)) [
  | inl p ↦ get_elem?-above x ys i s.1 e (ground arith)
  | inr p ↦ get_elem?-above x ys i s.1 e (ground (arith, count_le-above x y ys))
]

pub get_elem?-total :
    {A : Type 0} (xs : List A) (i : ℕ) → i < length xs → (v : A) × (get_elem? xs i ≡ some v)
get_elem?-total [] i h = absurd (omega arith)
get_elem?-total (x ∷ xs) zero h = (x, cc)
get_elem?-total (x ∷ xs) (suc i) h = get_elem?-total xs i (omega arith)

bisect_loop-count_le :
    (fuel : ℕ) (xs : List ℕ) (x lo hi : ℕ)
    → IsSorted xs
    → hi ≤ length xs
    → hi ≤ lo + fuel
    → lo ≤ count_le x xs
    → count_le x xs ≤ hi
    → bisect_loop fuel xs x lo hi ≡ count_le x xs
unfolding bisect_loop
bisect_loop-count_le zero xs x lo hi s len f l h = omega arith
bisect_loop-count_le (suc fuel) xs x lo hi s len f l h = elim (Bool-cases (ltb lo hi)) [
  | inr done ↦ ground arith
  | inl more ↦
      let mid = (lo + hi) / 2 in
      let (v, e) = get_elem?-total xs mid (ground arith) in
      ground (
        arith,
        e,
        get_elem?-below x xs mid s e,
        get_elem?-above x xs mid s e,
        bisect_loop-count_le fuel xs x lo mid s,
        bisect_loop-count_le fuel xs x (mid + 1) hi s,
      )
]

-- On a sorted list the loop finds the number of elements that are at most `x`.
pub bisect_right-count_le : (xs : List ℕ) (x : ℕ) → IsSorted xs → bisect_right xs x ≡ count_le x xs
unfolding bisect_right
bisect_right-count_le xs x s =
    bisect_loop-count_le (length xs) xs x 0 (length xs) s (omega arith) (omega arith) (omega arith)
      (count_le-le-length x xs)
