-- ===== src/Prelude/Lists.antt =====
-- Lists over the native numbers: `len`, indexing and slices of Python, and predicates by recursion.
use Prim.Native.Nat.{ℕ, zero, suc, ◌+◌, ◌-◌, ◌≤◌}
use mathlib.Core.Path.{◌≡◌, refl, sym, ap, subst, ◌∙◌}
use mathlib.Core.Logic.{◌⊎◌, inl, inr}
use mathlib.Core.Bool.{Bool, true, false}
use mathlib.Core.Option.{Option, none, some}
use mathlib.Core.List.{List, [], ◌∷◌, ◌++◌}
use native.Mathlib.Omega.{arith}
use diagnosis_system.Prelude.Tests.{Bool-cases}

pub sub-zero : (n : ℕ) → n - 0 ≡ n
sub-zero n = omega arith

zero-add : (n : ℕ) → 0 + n ≡ n
zero-add n = omega arith

suc-add : (n m : ℕ) → suc n + m ≡ suc (n + m)
suc-add n m = omega arith

module _ {ℓ} {A : Type ℓ} where
  abbrev pub length : List A → ℕ
  length [] = 0
  length (x ∷ xs) = suc (length xs)

  abbrev pub get_elem? : List A → ℕ → Option A
  get_elem? [] i = none
  get_elem? (x ∷ xs) zero = some x
  get_elem? (x ∷ xs) (suc i) = get_elem? xs i

  -- `xs[:n]`
  abbrev pub take : ℕ → List A → List A
  take zero xs = []
  take (suc n) [] = []
  take (suc n) (x ∷ xs) = x ∷ take n xs

  -- `xs[n:]`
  abbrev pub drop : ℕ → List A → List A
  drop zero xs = xs
  drop (suc n) [] = []
  drop (suc n) (x ∷ xs) = drop n xs

  -- a comprehension's `if`
  abbrev pub filter : (A → Bool) → List A → List A
  filter p [] = []
  filter p (x ∷ xs) = elim (p x) [ true ↦ x ∷ filter p xs | false ↦ filter p xs ]

  -- `any(p(x) for x in xs)`
  abbrev pub any : (A → Bool) → List A → Bool
  any p [] = false
  any p (x ∷ xs) = elim (p x) [ true ↦ true | false ↦ any p xs ]

  pub length-append : (xs ys : List A) → length (xs ++ ys) ≡ length xs + length ys
  length-append [] ys = omega arith
  length-append (x ∷ xs) ys = omega (arith, length-append xs ys)

  pub take-nil : (n : ℕ) → take n [] ≡ []
  take-nil zero = refl
  take-nil (suc n) = refl

  pub length-take : (n : ℕ) (xs : List A) → length (take n xs) ≤ n
  length-take zero xs = omega arith
  length-take (suc n) [] = omega arith
  length-take (suc n) (x ∷ xs) = omega (arith, length-take n xs)

module _ {A : Type 0} where
  drop-nil : (n : ℕ) → let none_left : List A = [] in drop n none_left ≡ none_left
  drop-nil zero = refl
  drop-nil (suc n) = refl

  abbrev pub All : (A → Type 0) → List A → Type 0
  All P [] = Unit
  All P (x ∷ xs) = P x × All P xs

  abbrev pub IsIn : A → List A → Type 0
  IsIn x [] = ⊥
  IsIn x (y ∷ ys) = (x ≡ y) ⊎ IsIn x ys

  -- every two elements at different places are related, the earlier one first
  abbrev pub Pairwise : (A → A → Type 0) → List A → Type 0
  Pairwise R [] = Unit
  Pairwise R (x ∷ xs) = All (R x) xs × Pairwise R xs

  pub All-IsIn : (P : A → Type 0) (x : A) (xs : List A) → All P xs → IsIn x xs → P x
  All-IsIn P x [] h i = absurd i
  All-IsIn P x (y ∷ ys) h (inl e) = subst P (sym e) h.0
  All-IsIn P x (y ∷ ys) h (inr i) = All-IsIn P x ys h.1 i

  pub All-map : (P Q : A → Type 0) → ((x : A) → P x → Q x) → (xs : List A) → All P xs → All Q xs
  All-map P Q f [] h = tt
  All-map P Q f (x ∷ xs) h = (f x h.0, All-map P Q f xs h.1)

  pub get_elem?-IsIn : (xs : List A) (i : ℕ) {x : A} → get_elem? xs i ≡ some x → IsIn x xs
  get_elem?-IsIn [] i h = cc
  get_elem?-IsIn (y ∷ ys) zero h = inl (cc)
  get_elem?-IsIn (y ∷ ys) (suc i) h = inr (get_elem?-IsIn ys i h)

  pub All-append : (P : A → Type 0) (xs ys : List A) → All P xs → All P ys → All P (xs ++ ys)
  All-append P [] ys h k = k
  All-append P (x ∷ xs) ys h k = (h.0, All-append P xs ys h.1 k)

  pub All-take : (P : A → Type 0) (n : ℕ) (xs : List A) → All P xs → All P (take n xs)
  All-take P zero xs h = tt
  All-take P (suc n) [] h = tt
  All-take P (suc n) (x ∷ xs) h = (h.0, All-take P n xs h.1)

  pub All-drop : (P : A → Type 0) (n : ℕ) (xs : List A) → All P xs → All P (drop n xs)
  All-drop P zero xs h = h
  All-drop P (suc n) [] h = tt
  All-drop P (suc n) (x ∷ xs) h = All-drop P n xs h.1

  pub take-drop : (n : ℕ) (xs : List A) → take n xs ++ drop n xs ≡ xs
  take-drop zero xs = refl
  take-drop (suc n) [] = refl
  take-drop (suc n) (x ∷ xs) = ap (◌∷◌ x) (take-drop n xs)

  pub drop-drop : (m n : ℕ) (xs : List A) → drop m (drop n xs) ≡ drop (n + m) xs
  drop-drop m zero xs = ap (λ k. drop k xs) (sym (zero-add m))
  drop-drop m (suc n) [] = drop-nil m ∙ sym (drop-nil (suc n + m))
  drop-drop m (suc n) (x ∷ xs) = drop-drop m n xs ∙ ap (λ k. drop k (x ∷ xs)) (sym (suc-add n m))

  pub All_of_IsIn : (P : A → Type 0) (xs : List A) → ((x : A) → IsIn x xs → P x) → All P xs
  All_of_IsIn P [] f = tt
  All_of_IsIn P (x ∷ xs) f = (f x (inl refl), All_of_IsIn P xs (λ y i. f y (inr i)))

  pub IsIn-get_elem? :
      (x : A) (xs : List A) → IsIn x xs → (i : ℕ) × (get_elem? xs i ≡ some x) × (suc i ≤ length xs)
  IsIn-get_elem? x [] h = absurd h
  IsIn-get_elem? x (y ∷ ys) (inl e) = (0, cc, omega arith)
  IsIn-get_elem? x (y ∷ ys) (inr h) =
      let (i, e, l) = IsIn-get_elem? x ys h in (suc i, e, omega arith)

  All-get_elem? :
      (P : A → Type 0) (xs : List A) (i : ℕ) {x : A} → All P xs → get_elem? xs i ≡ some x → P x
  All-get_elem? P xs i {x} h e = All-IsIn P x xs h (get_elem?-IsIn xs i e)

  pub Pairwise-get_elem? :
      (R : A → A → Type 0) (xs : List A) (i j : ℕ) {x y : A}
      → Pairwise R xs
      → suc i ≤ j
      → get_elem? xs i ≡ some x
      → get_elem? xs j ≡ some y
      → R x y
  Pairwise-get_elem? R [] i j p h e f = cc
  Pairwise-get_elem? R (z ∷ zs) i zero p h e f = absurd (omega arith)
  Pairwise-get_elem? R (z ∷ zs) zero (suc j) {x} {y} p h e f =
      let same : z ≡ x = cc in subst (λ w. R w y) same (All-get_elem? (R z) zs j p.0 f)
  Pairwise-get_elem? R (z ∷ zs) (suc i) (suc j) p h e f =
      Pairwise-get_elem? R zs i j p.1 (omega arith) e f

module _ {A : Type 0} (R : A → A → Type 0) (y : A) where
  pub Pairwise-snoc :
      (xs : List A) → Pairwise R xs → All (λ x. R x y) xs → Pairwise R (xs ++ (y ∷ []))
  Pairwise-snoc [] h k = (tt, tt)
  Pairwise-snoc (x ∷ xs) h k =
      (All-append (R x) xs (y ∷ []) h.0 (k.0, tt), Pairwise-snoc xs h.1 k.1)

module _ {A : Type 0} (p : A → Bool) (x : A) (xs : List A) where
  pub filter_keep : p x ≡ true → filter p (x ∷ xs) ≡ x ∷ filter p xs
  filter_keep h = rw (h, filter)

  pub filter_drop : p x ≡ false → filter p (x ∷ xs) ≡ filter p xs
  filter_drop h = rw (h, filter)

module _ {A : Type 0} (p : A → Bool) where
  pub any_none : (xs : List A) → any p xs ≡ false → All (λ x. p x ≡ false) xs
  any_none [] h = tt
  any_none (x ∷ xs) h = elim (Bool-cases (p x)) [
    | inl e ↦ cc (rw (e, any) at h)
    | inr e ↦ (e, any_none xs (rw (e, any) at h))
  ]

  pub All-filter : (P : A → Type 0) (xs : List A) → All P xs → All P (filter p xs)
  All-filter P [] h = tt
  All-filter P (x ∷ xs) h = elim (Bool-cases (p x)) [
    | inl e ↦ rw (filter_keep p x xs e) (h.0, All-filter P xs h.1)
    | inr e ↦ rw (filter_drop p x xs e) (All-filter P xs h.1)
  ]

  pub Pairwise-filter :
      (R : A → A → Type 0) (xs : List A) → Pairwise R xs → Pairwise R (filter p xs)
  Pairwise-filter R [] h = tt
  Pairwise-filter R (x ∷ xs) h = elim (Bool-cases (p x)) [
    | inl e ↦ rw (filter_keep p x xs e) (All-filter (R x) xs h.0, Pairwise-filter R xs h.1)
    | inr e ↦ rw (filter_drop p x xs e) (Pairwise-filter R xs h.1)
  ]

  pub filter-append : (xs ys : List A) → filter p (xs ++ ys) ≡ filter p xs ++ filter p ys
  filter-append [] ys = refl
  filter-append (x ∷ xs) ys = elim (Bool-cases (p x)) [
    | inl e ↦
        filter_keep p x (xs ++ ys) e
        ∙ ap (◌∷◌ x) (filter-append xs ys)
        ∙ sym (ap (λ zs. zs ++ filter p ys) (filter_keep p x xs e))
    | inr e ↦
        filter_drop p x (xs ++ ys) e
        ∙ filter-append xs ys
        ∙ sym (ap (λ zs. zs ++ filter p ys) (filter_drop p x xs e))
  ]

  pub filter_all : (xs : List A) → All (λ x. p x ≡ true) xs → filter p xs ≡ xs
  filter_all [] h = refl
  filter_all (x ∷ xs) h = filter_keep p x xs h.0 ∙ ap (◌∷◌ x) (filter_all xs h.1)
