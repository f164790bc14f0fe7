-- ===== src/Tables/Laws.antt =====
-- Laws of the queries on tables: a row found, a row written, rows counted.
use diagnosis_system.Prelude.{
  ◌≡◌, refl, sym, subst, ◌∙◌, ap, Bool, true, false, inl, inr, none, some, List, [], ◌∷◌, ◌++◌,
  arith, Bool-cases, All, filter, filter_keep, filter_drop, if◌then◌else◌,
}
use diagnosis_system.Tables.{count_where, first, update_where}

module _ {A : Type 0} where
  pub first_here : (p : A → Bool) (x : A) (xs : List A) → p x ≡ true → first p (x ∷ xs) ≡ some x
  first_here p x xs h = rw (h, first)

  pub first_later :
      (p : A → Bool) (x : A) (xs : List A) → p x ≡ false → first p (x ∷ xs) ≡ first p xs
  first_later p x xs h = rw (h, first)

  pub first_holds : (p : A → Bool) (xs : List A) {x : A} → first p xs ≡ some x → p x ≡ true
  first_holds p [] h = cc
  first_holds p (y ∷ ys) {x} h = elim (Bool-cases (p y)) [
    | inl e ↦
        let same : y ≡ x = cc (sym (first_here p y ys e) ∙ h) in subst (λ z. p z ≡ true) same e
    | inr e ↦ first_holds p ys (sym (first_later p y ys e) ∙ h)
  ]

  -- what holds of every row holds of the row that is found
  pub first-All :
      (P : A → Type 0) (p : A → Bool) (xs : List A) {x : A} → All P xs → first p xs ≡ some x → P x
  first-All P p [] k h = cc
  first-All P p (y ∷ ys) {x} k h = elim (Bool-cases (p y)) [
    | inl e ↦ let same : y ≡ x = cc (sym (first_here p y ys e) ∙ h) in subst P same k.0
    | inr e ↦ first-All P p ys k.1 (sym (first_later p y ys e) ∙ h)
  ]

  pub update_hit :
      (q : A → Bool) (f : A → A) (x : A) (xs : List A)
      → q x ≡ true
      → update_where q f (x ∷ xs) ≡ f x ∷ update_where q f xs
  update_hit q f x xs h = rw (h, update_where)

  pub update_miss :
      (q : A → Bool) (f : A → A) (x : A) (xs : List A)
      → q x ≡ false
      → update_where q f (x ∷ xs) ≡ x ∷ update_where q f xs
  update_miss q f x xs h = rw (h, update_where)

  -- a row that is found and rewritten is found as rewritten
  pub first-update_where :
      (p q : A → Bool) (v : A) (xs : List A) {u : A}
      → first p xs ≡ some u
      → q u ≡ true
      → p v ≡ true
      → first p (update_where q (λ _. v) xs) ≡ some v
  first-update_where p q v [] h k l = cc
  first-update_where p q v (x ∷ xs) {u} h k l = elim (Bool-cases (q x)) [
    | inl written ↦
        ap (first p) (update_hit q (λ _. v) x xs written)
        ∙ first_here p v (update_where q (λ _. v) xs) l
    | inr kept ↦ ap (first p) (update_miss q (λ _. v) x xs kept) ∙ (elim (Bool-cases (p x)) [
      | inl here ↦
          let same : u ≡ x = cc (sym (first_here p x xs here) ∙ h) in
          absurd (cc (subst (λ z. q z ≡ true) same k, kept))
      | inr later ↦
          first_later p x (update_where q (λ _. v) xs) later
          ∙ first-update_where p q v xs (sym (first_later p x xs later) ∙ h) k l
    ])
  ]

  -- where no rewritten row satisfies a condition that implies being rewritten, none is found
  pub first-update_where-none :
      (p q : A → Bool) (f : A → A) (xs : List A)
      → ((x : A) → q x ≡ true → p (f x) ≡ false)
      → ((x : A) → q x ≡ false → p x ≡ false)
      → first p (update_where q f xs) ≡ none
  first-update_where-none p q f [] h k = refl
  first-update_where-none p q f (x ∷ xs) h k = elim (Bool-cases (q x)) [
    | inl written ↦
        ap (first p) (update_hit q f x xs written)
        ∙ (first_later p (f x) (update_where q f xs) (h x written)
            ∙ first-update_where-none p q f xs h k)
    | inr kept ↦
        ap (first p) (update_miss q f x xs kept)
        ∙ (first_later p x (update_where q f xs) (k x kept) ∙ first-update_where-none p q f xs h k)
  ]

  pub first-append_none :
      (p : A → Bool) (xs ys : List A) → first p xs ≡ none → first p (xs ++ ys) ≡ first p ys
  first-append_none p [] ys h = refl
  first-append_none p (x ∷ xs) ys h = elim (Bool-cases (p x)) [
    | inl here ↦ cc (first_here p x xs here)
    | inr later ↦
        first_later p x (xs ++ ys) later
        ∙ first-append_none p xs ys (sym (first_later p x xs later) ∙ h)
  ]

  pub first-append_some :
      (p : A → Bool) (xs ys : List A) {x : A} → first p xs ≡ some x → first p (xs ++ ys) ≡ some x
  first-append_some p [] ys h = cc
  first-append_some p (x ∷ xs) ys h = elim (Bool-cases (p x)) [
    | inl e ↦ first_here p x (xs ++ ys) e ∙ sym (first_here p x xs e) ∙ h
    | inr e ↦
        first_later p x (xs ++ ys) e ∙ first-append_some p xs ys (sym (first_later p x xs e) ∙ h)
  ]

  pub count_where_none :
      (q : A → Bool) (f : A → A) (xs : List A)
      → ((x : A) → q x ≡ true → q (f x) ≡ false)
      → count_where q (update_where q f xs) ≡ 0
  count_where_none q f [] h = refl
  count_where_none q f (x ∷ xs) h = elim (Bool-cases (q x)) [
    | inl e ↦
        ap (count_where q) (update_hit q f x xs e)
        ∙ rw (h x e) (omega (arith, count_where_none q f xs h))
    | inr e ↦
        ap (count_where q) (update_miss q f x xs e)
        ∙ rw e (omega (arith, count_where_none q f xs h))
  ]

  -- rows outside an update are not touched
  pub filter-update_where :
      (r q : A → Bool) (f : A → A) (xs : List A)
      → ((x : A) → q x ≡ true → (r x ≡ false) × (r (f x) ≡ false))
      → filter r (update_where q f xs) ≡ filter r xs
  filter-update_where r q f [] h = refl
  filter-update_where r q f (x ∷ xs) h = elim (Bool-cases (q x)) [
    | inl e ↦
        let (out, out') = h x e in
        ap (filter r) (update_hit q f x xs e)
        ∙ filter_drop r (f x) (update_where q f xs) out'
        ∙ filter-update_where r q f xs h
        ∙ sym (filter_drop r x xs out)
    | inr e ↦ ap (filter r) (update_miss q f x xs e) ∙ (elim (Bool-cases (r x)) [
      | inl k ↦
          filter_keep r x (update_where q f xs) k
          ∙ ap (◌∷◌ x) (filter-update_where r q f xs h)
          ∙ sym (filter_keep r x xs k)
      | inr k ↦
          filter_drop r x (update_where q f xs) k
          ∙ filter-update_where r q f xs h
          ∙ sym (filter_drop r x xs k)
    ])
  ]

  pub first-update_none :
      (p q : A → Bool) (f : A → A) (xs : List A)
      → ((x : A) → q x ≡ true → p x ≡ false → p (f x) ≡ false)
      → first p xs ≡ none
      → first p (update_where q f xs) ≡ none
  first-update_none p q f [] h e = refl
  first-update_none p q f (x ∷ xs) h e = elim (Bool-cases (p x)) [
    | inl here ↦ cc (first_here p x xs here)
    | inr later ↦
        let rest = first-update_none p q f xs h (sym (first_later p x xs later) ∙ e) in
        elim (Bool-cases (q x)) [
          | inl k ↦
              ap (first p) (update_hit q f x xs k)
              ∙ (first_later p (f x) (update_where q f xs) (h x k later) ∙ rest)
          | inr k ↦
              ap (first p) (update_miss q f x xs k)
              ∙ (first_later p x (update_where q f xs) later ∙ rest)
        ]
  ]

  found_out :
      (p q : A → Bool) (z : A) (zs : List A) {y : A}
      → (first p zs ≡ some y → q y ≡ false)
      → q z ≡ false
      → first p (z ∷ zs) ≡ some y
      → q y ≡ false
  found_out p q z zs {y} rest k e = elim (Bool-cases (p z)) [
    | inl here ↦
        let same : z ≡ y = cc (sym (first_here p z zs here) ∙ e) in subst (λ w. q w ≡ false) same k
    | inr later ↦ rest (sym (first_later p z zs later) ∙ e)
  ]

  -- a row found after an update that undoes its own condition does not satisfy the condition
  pub first-update_where_out :
      (p q : A → Bool) (f : A → A) (xs : List A) {y : A}
      → ((x : A) → q x ≡ true → q (f x) ≡ false)
      → first p (update_where q f xs) ≡ some y
      → q y ≡ false
  first-update_where_out p q f [] h e = cc
  first-update_where_out p q f (x ∷ xs) {y} h e =
      let rest = first-update_where_out p q f xs {y = y} h in
      elim (Bool-cases (q x)) [
        | inl k ↦
            found_out p q (f x) (update_where q f xs) rest (h x k)
              (sym (ap (first p) (update_hit q f x xs k)) ∙ e)
        | inr k ↦
            found_out p q x (update_where q f xs) rest k
              (sym (ap (first p) (update_miss q f x xs k)) ∙ e)
      ]

  pub first-append_miss :
      (p : A → Bool) (xs : List A) (y : A) → p y ≡ false → first p (xs ++ (y ∷ [])) ≡ first p xs
  first-append_miss p [] y h = first_later p y [] h
  first-append_miss p (x ∷ xs) y h = elim (Bool-cases (p x)) [
    | inl here ↦ first_here p x (xs ++ (y ∷ [])) here ∙ sym (first_here p x xs here)
    | inr later ↦
        first_later p x (xs ++ (y ∷ [])) later
        ∙ first-append_miss p xs y h
        ∙ sym (first_later p x xs later)
  ]

  pub first-none_stronger :
      (p r : A → Bool) (xs : List A)
      → ((x : A) → p x ≡ false → r x ≡ false)
      → first p xs ≡ none
      → first r xs ≡ none
  first-none_stronger p r [] h e = refl
  first-none_stronger p r (x ∷ xs) h e = elim (Bool-cases (p x)) [
    | inl here ↦ cc (first_here p x xs here)
    | inr later ↦
        first_later r x xs (h x later)
        ∙ first-none_stronger p r xs h (sym (first_later p x xs later) ∙ e)
  ]

  -- an update that leaves the condition of a query alone is seen in the row that the query finds
  pub first-update_keep :
      (p q : A → Bool) (f : A → A) (xs : List A) {u : A}
      → ((x : A) → p (f x) ≡ p x)
      → first p xs ≡ some u
      → first p (update_where q f xs) ≡ some (if q u then f u else u)
  first-update_keep p q f [] keep h = cc
  first-update_keep p q f (x ∷ xs) {u} keep h = elim (Bool-cases (p x)) [
    | inl here ↦
        let same : x ≡ u = cc (sym (first_here p x xs here) ∙ h) in
        subst (λ y. first p (update_where q f (x ∷ xs)) ≡ some (if q y then f y else y)) same
          (elim (Bool-cases (q x)) [
            | inl e ↦
                ap (first p) (update_hit q f x xs e)
                ∙ first_here p (f x) (update_where q f xs) (keep x ∙ here)
                ∙ rw e refl
            | inr e ↦
                ap (first p) (update_miss q f x xs e)
                ∙ first_here p x (update_where q f xs) here
                ∙ rw e refl
          ])
    | inr later ↦
        let rest = first-update_keep p q f xs keep (sym (first_later p x xs later) ∙ h) in
        elim (Bool-cases (q x)) [
          | inl e ↦
              ap (first p) (update_hit q f x xs e)
              ∙ first_later p (f x) (update_where q f xs) (keep x ∙ later)
              ∙ rest
          | inr e ↦
              ap (first p) (update_miss q f x xs e)
              ∙ first_later p x (update_where q f xs) later
              ∙ rest
        ]
  ]
