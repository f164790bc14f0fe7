-- ===== src/Prelude/Sets.antt =====
-- Texts in a list, as the tests of the program see them.
use mathlib.Core.Path.{◌≡◌, refl, ap, sym, subst, ◌∙◌}
use mathlib.Core.Logic.{inl, inr}
use mathlib.Core.Bool.{Bool, true, false}
use mathlib.Core.List.{List, [], ◌∷◌, map}
use diagnosis_system.Prelude.Tests.{Bool-cases}
use diagnosis_system.Prelude.Lists.{IsIn, any, filter, filter_keep, filter_drop}
use diagnosis_system.Prelude.Texts.{Text, text_eq, text_eq_iff, distinct_texts}

pub any-IsIn : (t : Text) (xs : List Text) → any (text_eq t) xs ≡ true → IsIn t xs
any-IsIn t [] h = cc
any-IsIn t (x ∷ xs) h = elim (Bool-cases (text_eq t x)) [
  | inl e ↦ inl ((text_eq_iff t x).0 e)
  | inr e ↦ inr (any-IsIn t xs (rw (e, any) at h))
]

pub IsIn-any : (t : Text) (xs : List Text) → IsIn t xs → any (text_eq t) xs ≡ true
IsIn-any t [] h = absurd h
IsIn-any t (x ∷ xs) h = elim (Bool-cases (text_eq t x)) [
  | inl e ↦ rw (e, any) refl
  | inr e ↦ elim h [
    | inl same ↦ cc ((text_eq_iff t x).1 same, e)
    | inr later ↦ rw (e, any) (IsIn-any t xs later)
  ]
]

pub IsIn-distinct_texts : (t : Text) (xs : List Text) → IsIn t xs → IsIn t (distinct_texts xs)
unfolding distinct_texts
IsIn-distinct_texts t [] h = absurd h
IsIn-distinct_texts t (x ∷ xs) (inl same) = elim (Bool-cases (any (text_eq x) xs)) [
  | inl e ↦ rw e (IsIn-distinct_texts t xs (subst (λ u. IsIn u xs) (sym same) (any-IsIn x xs e)))
  | inr e ↦ rw e (inl same)
]
IsIn-distinct_texts t (x ∷ xs) (inr later) = elim (Bool-cases (any (text_eq x) xs)) [
  | inl e ↦ rw e (IsIn-distinct_texts t xs later)
  | inr e ↦ rw e (inr (IsIn-distinct_texts t xs later))
]

module _ {A : Type 0} where
  pub IsIn-map : {B : Type 0} (f : A → B) (a : A) (xs : List A) → IsIn a xs → IsIn (f a) (map f xs)
  IsIn-map f a [] h = absurd h
  IsIn-map f a (x ∷ xs) (inl e) = inl (ap f e)
  IsIn-map f a (x ∷ xs) (inr h) = inr (IsIn-map f a xs h)

  pub IsIn-filter :
      (p : A → Bool) (a : A) (xs : List A) → p a ≡ true → IsIn a xs → IsIn a (filter p xs)
  IsIn-filter p a [] h i = absurd i
  IsIn-filter p a (x ∷ xs) h i = elim (Bool-cases (p x)) [
    | inl e ↦
        rw (filter_keep p x xs e)
          (elim i [ inl same ↦ inl same | inr later ↦ inr (IsIn-filter p a xs h later) ])
    | inr e ↦ rw (filter_drop p x xs e) (elim i [
      | inl same ↦ absurd (cc (subst (λ y. p y ≡ true) same h, e))
      | inr later ↦ IsIn-filter p a xs h later
    ])
  ]

  -- what a filter that keeps nothing says of each element
  pub filter-nil : (p : A → Bool) (a : A) (xs : List A) → filter p xs ≡ [] → IsIn a xs → p a ≡ false
  filter-nil p a [] h i = absurd i
  filter-nil p a (x ∷ xs) h i = elim (Bool-cases (p x)) [
    | inl e ↦ cc (sym (filter_keep p x xs e) ∙ h)
    | inr e ↦ elim i [
      | inl same ↦ subst (λ y. p y ≡ false) (sym same) e
      | inr later ↦ filter-nil p a xs (sym (filter_drop p x xs e) ∙ h) later
    ]
  ]
