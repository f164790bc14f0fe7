-- ===== src/Prelude/Sorting.antt =====
-- `sorted(xs, key=...)`: the stable sort by a comparison of keys, and what it keeps.
use mathlib.Core.Path.{◌≡◌}
use mathlib.Core.Logic.{inl, inr}
use mathlib.Core.Bool.{Bool, true, false}
use mathlib.Core.List.{List, [], ◌∷◌}
use native.Mathlib.Omega.{arith}
use diagnosis_system.Prelude.Tests.{if◌then◌else◌, Bool-cases}
use diagnosis_system.Prelude.Lists.{All, IsIn, Pairwise, All-map, All-IsIn, All_of_IsIn}

module _ {A : Type 0} (before : A → A → Bool) where
  pub insert_by : A → List A → List A
  insert_by x [] = x ∷ []
  insert_by x (y ∷ ys) = if before x y then x ∷ y ∷ ys else y ∷ insert_by x ys

  unfoldable pub sorted_by : List A → List A
  unfolding insert_by
  sorted_by [] = []
  sorted_by (x ∷ xs) = insert_by x (sorted_by xs)

  insert_by-All : (P : A → Type 0) (x : A) (ys : List A) → P x → All P ys → All P (insert_by x ys)
  unfolding insert_by
  insert_by-All P x [] p h = (p, tt)
  insert_by-All P x (y ∷ ys) p h = elim (Bool-cases (before x y)) [
    | inl e ↦ rw e (p, h)
    | inr e ↦ rw e (h.0, insert_by-All P x ys p h.1)
  ]

  pub sorted_by-All : (P : A → Type 0) (xs : List A) → All P xs → All P (sorted_by xs)
  unfolding sorted_by
  sorted_by-All P [] h = tt
  sorted_by-All P (x ∷ xs) h = insert_by-All P x (sorted_by xs) h.0 (sorted_by-All P xs h.1)

  insert_by-IsIn : (a x : A) (ys : List A) → IsIn a (x ∷ ys) → IsIn a (insert_by x ys)
  unfolding insert_by
  insert_by-IsIn a x [] h = h
  insert_by-IsIn a x (y ∷ ys) h = ground (arith, insert_by-IsIn a x ys)

  pub sorted_by-IsIn : (a : A) (xs : List A) → IsIn a xs → IsIn a (sorted_by xs)
  unfolding sorted_by
  sorted_by-IsIn a [] h = h
  sorted_by-IsIn a (x ∷ xs) (inl e) = insert_by-IsIn a x (sorted_by xs) (inl e)
  sorted_by-IsIn a (x ∷ xs) (inr h) =
      insert_by-IsIn a x (sorted_by xs) (inr (sorted_by-IsIn a xs h))

  pub IsIn-sorted_by : (a : A) (xs : List A) → IsIn a (sorted_by xs) → IsIn a xs
  IsIn-sorted_by a xs h =
      All-IsIn (λ y. IsIn y xs) a (sorted_by xs)
        (sorted_by-All (λ y. IsIn y xs) xs (All_of_IsIn (λ y. IsIn y xs) xs (λ y i. i))) h

  -- a symmetric relation between all pairs does not depend on the order
  insert_by-Pairwise :
      (R : A → A → Type 0) (x : A) (ys : List A)
      → ((a b : A) → R a b → R b a)
      → All (R x) ys
      → Pairwise R ys
      → Pairwise R (insert_by x ys)
  unfolding insert_by
  insert_by-Pairwise R x [] s h p = (tt, tt)
  insert_by-Pairwise R x (y ∷ ys) s h p = elim (Bool-cases (before x y)) [
    | inl e ↦ rw e (h, p)
    | inr e ↦ rw e (insert_by-All (R y) x ys (s x y h.0) p.0, insert_by-Pairwise R x ys s h.1 p.1)
  ]

  pub sorted_by-Pairwise :
      (R : A → A → Type 0) (xs : List A)
      → ((a b : A) → R a b → R b a)
      → Pairwise R xs
      → Pairwise R (sorted_by xs)
  unfolding sorted_by
  sorted_by-Pairwise R [] s p = tt
  sorted_by-Pairwise R (x ∷ xs) s p =
      insert_by-Pairwise R x (sorted_by xs) s (sorted_by-All (R x) xs p.0)
        (sorted_by-Pairwise R xs s p.1)

  -- the result is in order, for a relation that the comparison decides
  insert_by_order :
      (R : A → A → Type 0) (x : A) (ys : List A)
      → ((a b : A) → before a b ≡ true → R a b)
      → ((a b : A) → before a b ≡ false → R b a)
      → ((a b c : A) → R a b → R b c → R a c)
      → Pairwise R ys
      → Pairwise R (insert_by x ys)
  unfolding insert_by
  insert_by_order R x [] up down trans p = (tt, tt)
  insert_by_order R x (y ∷ ys) up down trans p = elim (Bool-cases (before x y)) [
    | inl e ↦ rw e ((up x y e, All-map (R y) (R x) (λ z h. trans x y z (up x y e) h) ys p.0), p)
    | inr e ↦
        rw e (insert_by-All (R y) x ys (down x y e) p.0, insert_by_order R x ys up down trans p.1)
  ]

  pub sorted_by_order :
      (R : A → A → Type 0) (xs : List A)
      → ((a b : A) → before a b ≡ true → R a b)
      → ((a b : A) → before a b ≡ false → R b a)
      → ((a b c : A) → R a b → R b c → R a c)
      → Pairwise R (sorted_by xs)
  unfolding sorted_by
  sorted_by_order R [] up down trans = tt
  sorted_by_order R (x ∷ xs) up down trans =
      insert_by_order R x (sorted_by xs) up down trans (sorted_by_order R xs up down trans)
