-- ===== src/Tables/Rows.antt =====
-- Rows with a number as their key, when one is saved: what holds between the rows is kept.
use diagnosis_system.Prelude.{
  ℕ, ◌≡◌, ◌≢◌, refl, sym, ap, subst, ◌∙◌, true, false, inl, inr, some, List, [], ◌∷◌, arith, All,
  All-map, Pairwise, ◌==◌, ==_iff, Bool-cases,
}
use diagnosis_system.Tables.{first, update_where}
use diagnosis_system.Tables.Laws.{update_hit, update_miss, first_here, first_later, first-All}

module _ {A : Type 0} (key : A → ℕ) where
  -- the changed attributes of a loaded row, as the commit writes them
  abbrev pub save : A → List A → List A
  save v = update_where (λ u. key u == key v) (λ _. v)

  abbrev pub OtherKey : A → A → Type 0
  OtherKey u v = key u ≢ key v

  -- no other row is related to `v` wrongly
  abbrev pub Apart : (A → A → Type 0) → A → List A → Type 0
  Apart R v rows = All (λ w. key w ≢ key v → R v w × R w v) rows

  saved : (v w : A) (ws : List A) → (key w == key v) ≡ true → save v (w ∷ ws) ≡ v ∷ save v ws
  saved v w ws e = update_hit (λ u. key u == key v) (λ _. v) w ws e

  kept : (v w : A) (ws : List A) → (key w == key v) ≡ false → save v (w ∷ ws) ≡ w ∷ save v ws
  kept v w ws e = update_miss (λ u. key u == key v) (λ _. v) w ws e

  missed : (v : A) (rows : List A) → All (λ w. key w ≢ key v) rows → save v rows ≡ rows
  missed v [] h = refl
  missed v (w ∷ ws) h =
      let other : (key w == key v) ≡ false = ground (arith, h.0) in
      kept v w ws other ∙ ap (◌∷◌ w) (missed v ws h.1)

  pub save-All : (P : A → Type 0) (v : A) (rows : List A) → P v → All P rows → All P (save v rows)
  save-All P v [] h k = tt
  save-All P v (w ∷ ws) h k = elim (Bool-cases (key w == key v)) [
    | inl e ↦ subst (λ xs. All P xs) (sym (saved v w ws e)) (h, save-All P v ws h k.1)
    | inr e ↦ subst (λ xs. All P xs) (sym (kept v w ws e)) (k.0, save-All P v ws h k.1)
  ]

  -- the later rows that stay are apart from `v`
  parts :
      (R : A → A → Type 0) (v : A) (ws : List A)
      → All (λ w. key w ≢ key v) ws
      → Apart R v ws
      → All (R v) ws
  parts R v [] h k = tt
  parts R v (w ∷ ws) h k = ((k.0 h.0).0, parts R v ws h.1 k.1)

  -- Saving a row keeps what holds between the rows, if it holds of what is saved.
  pub save-Pairwise :
      (R : A → A → Type 0) (v : A) (rows : List A)
      → Pairwise OtherKey rows
      → Pairwise R rows
      → Apart R v rows
      → Pairwise R (save v rows)
  save-Pairwise R v [] ids h k = tt
  save-Pairwise R v (w ∷ ws) ids h k = elim (Bool-cases (key w == key v)) [
    | inl e ↦
        let same : key w ≡ key v = (==_iff (key w) (key v)).0 e in
        let others : All (λ x. key x ≢ key v) ws =
          All-map (OtherKey w) (λ x. key x ≢ key v) (λ x ne f. ne (same ∙ sym f)) ws ids.0 in
        subst (λ xs. Pairwise R xs) (sym (saved v w ws e))
          (subst (λ xs. All (R v) xs × Pairwise R xs) (sym (missed v ws others))
            (parts R v ws others k.1, h.1))
    | inr e ↦
        let other : key w ≢ key v = λ f. cc ((==_iff (key w) (key v)).1 f, e) in
        subst (λ xs. Pairwise R xs) (sym (kept v w ws e))
          (save-All (R w) v ws (k.0 other).1 h.0, save-Pairwise R v ws ids.1 h.1 k.1)
  ]

  pub keys-Apart : (v : A) (rows : List A) → Apart OtherKey v rows
  keys-Apart v [] = tt
  keys-Apart v (w ∷ ws) = (λ ne. (λ e. ne (sym e), ne), keys-Apart v ws)

  module _ {B : Type 0} (column : A → B) where
    abbrev pub Differ : A → A → Type 0
    Differ u v = column u ≢ column v

    pub Apart-of_unused :
        (v : A) (rows : List A) → All (λ w. column w ≢ column v) rows → Apart Differ v rows
    Apart-of_unused v rows h =
        All-map (λ w. column w ≢ column v) (λ w. key w ≢ key v → Differ v w × Differ w v)
          (λ w ne _. (λ e. ne (sym e), ne)) rows h

    -- rows with another key differ in the column from a row of the table
    pub Apart-of_found :
        (u v : A) (rows : List A)
        → first (λ x. key x == key v) rows ≡ some u
        → column v ≡ column u
        → Pairwise Differ rows
        → Apart Differ v rows
    Apart-of_found u v [] h e k = tt
    Apart-of_found u v (w ∷ ws) h e k = elim (Bool-cases (key w == key v)) [
      | inl here ↦
          let same : w ≡ u = cc (sym (first_here (λ x. key x == key v) w ws here) ∙ h) in
          let address : column w ≡ column v = ap column same ∙ sym e in
          (
            λ ne. absurd (ne ((==_iff (key w) (key v)).0 here)),
            Apart-of_unused v ws (
                All-map (Differ w) (λ x. column x ≢ column v) (λ x ne f. ne (address ∙ sym f)) ws
                  k.0),
          )
      | inr later ↦
          let found = sym (first_later (λ x. key x == key v) w ws later) ∙ h in
          let ne : column w ≢ column u = first-All (Differ w) (λ x. key x == key v) ws k.0 found in
          (λ _. (λ f. ne (sym f ∙ e), λ f. ne (f ∙ e)), Apart-of_found u v ws found e k.1)
    ]

    -- a row is saved with the value that it has
    pub save-Differ :
        (u v : A) (rows : List A)
        → Pairwise OtherKey rows
        → Pairwise Differ rows
        → first (λ x. key x == key v) rows ≡ some u
        → column v ≡ column u
        → Pairwise Differ (save v rows)
    save-Differ u v rows keys d found e =
        save-Pairwise Differ v rows keys d (Apart-of_found u v rows found e d)
