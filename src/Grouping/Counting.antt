-- ===== src/Grouping/Counting.antt =====
-- How the steps of `_assign_group` change the counter of a group and the reports counted in it.
use diagnosis_system.Prelude.{
  ℕ, ◌+◌, ◌≡◌, refl, sym, ap, subst, ◌∙◌, Bool, true, false, inl, inr, some, List, [], ◌∷◌, ◌++◌,
  arith, ◌==◌, if◌then◌else◌, Bool-cases, All,
}
use diagnosis_system.Tables.{count_where, first, update_where}
use diagnosis_system.Tables.Laws.{first_here, first_later, update_hit, update_miss}
use diagnosis_system.Grouping.{
  Report, Group, same_group, in_group, set_group, touch, widen_window, escalate_severity,
  record_firmware_version, maybe_regress, regress, GroupStatus, opened, investigating, resolved,
  ignored, regressed,
}

-- 1 if the test holds
abbrev pub unit : Bool → ℕ
unit b = if b then 1 else 0

abbrev pub count_in : ℕ → List Report → ℕ
count_in id reports = count_where (in_group id) reports

-- a table with no row of that id
set_group-none :
    (rid gid : ℕ) (rows : List Report)
    → count_where (λ r. r.id == rid) rows ≡ 0
    → set_group rid gid rows ≡ rows
unfolding set_group
set_group-none rid gid [] h = refl
set_group-none rid gid (x ∷ xs) h = elim (Bool-cases (x.id == rid)) [
  | inl e ↦ absurd (ground (arith, e))
  | inr e ↦
      update_miss (λ r. r.id == rid) (λ r. record r { group_id = some gid }) x xs e
      ∙ ap (◌∷◌ x) (set_group-none rid gid xs (ground (arith, e)))
]

-- Moving the one row of an id into a group changes each group's count by that row only.
pub count-set_group :
    (rid gid id : ℕ) (rows : List Report) {r : Report}
    → first (λ x. x.id == rid) rows ≡ some r
    → count_where (λ x. x.id == rid) rows ≡ 1
    → count_in id (set_group rid gid rows) + unit (in_group id r)
      ≡ count_in id rows + unit (gid == id)
unfolding set_group
count-set_group rid gid id [] h one = cc
count-set_group rid gid id (x ∷ xs) {r} h one = elim (Bool-cases (x.id == rid)) [
  | inl e ↦
      let moved = record x { group_id = some gid } in
      let tail = set_group-none rid gid xs (ground (arith, e)) in
      let whole =
        update_hit (λ y. y.id == rid) (λ y. record y { group_id = some gid }) x xs e
        ∙ ap (◌∷◌ moved) tail in
      let same : x ≡ r = cc (sym (first_here (λ y. y.id == rid) x xs e) ∙ h) in
      omega (arith, ap (count_in id) whole, ap (λ y. unit (in_group id y)) same)
  | inr e ↦
      let whole = update_miss (λ y. y.id == rid) (λ y. record y { group_id = some gid }) x xs e in
      let rest =
        count-set_group rid gid id xs {r = r} (sym (first_later (λ y. y.id == rid) x xs e) ∙ h)
          (ground (arith, e)) in
      omega (arith, ap (count_in id) whole, rest)
]

-- The counters of the groups are the numbers of their reports.
unfoldable pub IsCounted : List Report → Group → Type 0
IsCounted reports g = g.occurrence_count ≡ count_in g.id reports

pub All-update_where :
    (P Q : Group → Type 0) (q : Group → Bool) (f : Group → Group) (gs : List Group)
    → ((g : Group) → P g → q g ≡ true → Q (f g))
    → ((g : Group) → P g → q g ≡ false → Q g)
    → All P gs
    → All Q (update_where q f gs)
All-update_where P Q q f [] hit miss h = tt
All-update_where P Q q f (g ∷ gs) hit miss h = elim (Bool-cases (q g)) [
  | inl e ↦
      subst (All Q) (sym (update_hit q f g gs e))
        (hit g h.0 e, All-update_where P Q q f gs hit miss h.1)
  | inr e ↦
      subst (All Q) (sym (update_miss q f g gs e))
        (miss g h.0 e, All-update_where P Q q f gs hit miss h.1)
]

pub All-add :
    (P : Group → Type 0) (gs : List Group) (g : Group) → All P gs → P g → All P (gs ++ (g ∷ []))
All-add P [] g h p = (p, tt)
All-add P (x ∷ xs) g h p = (h.0, All-add P xs g h.1 p)

-- a row found is one of the rows
pub All-first :
    (P : Group → Type 0) (p : Group → Bool) (gs : List Group) {g : Group}
    → first p gs ≡ some g
    → All P gs
    → P g
All-first P p [] h all = cc
All-first P p (x ∷ xs) {g} h all = elim (Bool-cases (p x)) [
  | inl e ↦ let same : x ≡ g = cc (sym (first_here p x xs e) ∙ h) in subst P same all.0
  | inr e ↦ All-first P p xs (sym (first_later p x xs e) ∙ h) all.1
]

-- the id and the counter of a group are kept
abbrev pub Keeps : Group → Group → Type 0
Keeps g h = (h.id ≡ g.id) × (h.occurrence_count ≡ g.occurrence_count)

Keeps-if : (b : Bool) (g h k : Group) → Keeps g h → Keeps g k → Keeps g (if b then h else k)
Keeps-if true g h k p q = p
Keeps-if false g h k p q = q

widen_window-Keeps : (r : Report) (g : Group) → Keeps g (widen_window r g)
unfolding widen_window
widen_window-Keeps r g = (refl, refl)

escalate_severity-Keeps : (r : Report) (g : Group) → Keeps g (escalate_severity r g)
unfolding escalate_severity
escalate_severity-Keeps r g = Keeps-if _ g _ g (refl, refl) (refl, refl)

record_firmware_version-Keeps : (r : Report) (g : Group) → Keeps g (record_firmware_version r g)
unfolding record_firmware_version
record_firmware_version-Keeps r g = Keeps-if _ g g _ (refl, refl) (refl, refl)

regress-Keeps : (now : ℕ) (s : GroupStatus) (g : Group) → Keeps g (regress now s g)
unfolding regress
regress-Keeps now opened g = (refl, refl)
regress-Keeps now investigating g = (refl, refl)
regress-Keeps now resolved g = (refl, refl)
regress-Keeps now ignored g = (refl, refl)
regress-Keeps now regressed g = (refl, refl)

maybe_regress-Keeps : (now : ℕ) (g : Group) → Keeps g (maybe_regress now g)
unfolding maybe_regress
maybe_regress-Keeps now g = regress-Keeps now g.status g

-- the group with its occurrence counted, unless the report was in it already
abbrev pub counted : Report → Group → Group
counted r g =
    if same_group r.group_id g.id then g else record g { occurrence_count = g.occurrence_count + 1 }

pub touch-Keeps : (now : ℕ) (r : Report) (g : Group) → Keeps (counted r g) (touch now r g)
unfolding touch
touch-Keeps now r g =
    let a = widen_window r (counted r g) in
    let b = escalate_severity r a in
    let c = record_firmware_version r b in
    let (i, j) = widen_window-Keeps r (counted r g) in
    let (k, l) = escalate_severity-Keeps r a in
    let (m, n) = record_firmware_version-Keeps r b in
    let (o, q) = maybe_regress-Keeps now c in (o ∙ m ∙ k ∙ i, q ∙ n ∙ l ∙ j)

pub touch-id : (now : ℕ) (r : Report) (g : Group) → (touch now r g).id ≡ g.id
touch-id now r g = (touch-Keeps now r g).0 ∙ ground arith

pub touch-count :
    (now : ℕ) (r : Report) (g : Group)
    → (touch now r g).occurrence_count + unit (in_group g.id r) ≡ g.occurrence_count + 1
touch-count now r g = elim (Bool-cases (same_group r.group_id g.id)) [
  | inl e ↦ omega (
    arith,
    (touch-Keeps now r g).1,
    ap
        (λ b.
          (if b
            then g
            else record g { occurrence_count = g.occurrence_count + 1 }).occurrence_count)
        e,
    ap unit e,
  )
  | inr e ↦ omega (
    arith,
    (touch-Keeps now r g).1,
    ap
        (λ b.
          (if b
            then g
            else record g { occurrence_count = g.occurrence_count + 1 }).occurrence_count)
        e,
    ap unit e,
  )
]
