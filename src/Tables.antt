-- ===== src/Tables.antt =====
-- Tables as lists of rows, with the forms of query that the repositories of
-- backend/app/repositories use.
pub mod Laws
pub mod Rows
use diagnosis_system.Prelude.{
  ℕ, ◌+◌, Bool, true, false, Option, none, some, List, [], ◌∷◌, if◌then◌else◌,
}
use diagnosis_system.Errors.{Outcome, ok, raised, integrity_error}

abbrev pub is_set : Option ℕ → Bool
is_set none = false
is_set (some t) = true

-- a column that may not be null; the flush raises on a null
unfoldable pub required : {A : Type 0} → Option (Option A) → A → Outcome A
required none old = ok old
required (some none) old = raised integrity_error
required (some (some a)) old = ok a

-- a column that may
unfoldable pub nullable : {A : Type 0} → Option (Option A) → Option A → Option A
nullable none old = old
nullable (some a) old = a

-- `WHERE` with `LIMIT 1`
abbrev pub first {ℓ} : {A : Type ℓ} → (A → Bool) → List A → Option A
first p [] = none
first p (x ∷ xs) = elim (p x) [ true ↦ some x | false ↦ first p xs ]

-- `UPDATE`, with the condition of its `WHERE`
abbrev pub update_where {ℓ} : {A : Type ℓ} → (A → Bool) → (A → A) → List A → List A
update_where p f [] = []
update_where p f (x ∷ xs) = (if p x then f x else x) ∷ update_where p f xs

abbrev pub count_where {ℓ} : {A : Type ℓ} → (A → Bool) → List A → ℕ
count_where p [] = 0
count_where p (x ∷ xs) = (if p x then 1 else 0) + count_where p xs
