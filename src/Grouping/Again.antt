-- ===== src/Grouping/Again.antt =====
-- Reports of one signature are put into one group by `_assign_group` of
-- backend/app/services/symbolication.py.
use diagnosis_system.Prelude.{
  ℕ, ◌≡◌, refl, ap, ◌∙◌, Bool, Bool-cases, true, false, inl, inr, Option, none, some, List, [], ◌∷◌,
  map, Text, text_eq, text_eq_refl, arith, any, ltb, ◌==◌, ==_iff, filter,
}
use diagnosis_system.Tables.{update_where}
use diagnosis_system.Tables.Laws.{
  first_here, first_holds, first-append_none, first-update_where, first-update_keep,
}
use diagnosis_system.Symbolizer.{ResolvedFrame}
use diagnosis_system.Grouping.{
  Report, Group, GroupStatus, opened, investigating, resolved, ignored, regressed, Tables,
  same_group, in_group, by_signature, set_group, distinct_device_count, window, recompute_counters,
  widen_window, severity_rank, escalate_severity, record_firmware_version, regress, maybe_regress,
  new_group, find_or_add, leave_previous, touch, assign_group,
}
use diagnosis_system.Grouping.Counting.{touch-id}

regress-signature :
    (now : ℕ) (s : GroupStatus) (g : Group) → (regress now s g).signature ≡ g.signature
unfolding regress
regress-signature now opened g = refl
regress-signature now investigating g = refl
regress-signature now resolved g = refl
regress-signature now ignored g = refl
regress-signature now regressed g = refl

record_firmware_version-signature :
    (r : Report) (g : Group) → (record_firmware_version r g).signature ≡ g.signature
unfolding record_firmware_version
record_firmware_version-signature r g =
    elim (Bool-cases (any (text_eq r.firmware_version) g.versions)) [
      | inl e ↦ rw e refl
      | inr e ↦ rw e refl
    ]

escalate_severity-signature :
    (r : Report) (g : Group) → (escalate_severity r g).signature ≡ g.signature
unfolding escalate_severity
escalate_severity-signature r g =
    elim (Bool-cases (ltb (severity_rank g.severity) (severity_rank r.severity))) [
      | inl e ↦ rw e refl
      | inr e ↦ rw e refl
    ]

touch-signature : (now : ℕ) (r : Report) (g : Group) → (touch now r g).signature ≡ g.signature
unfolding touch maybe_regress widen_window
touch-signature now r g =
    regress-signature now _ _
    ∙ record_firmware_version-signature r _
    ∙ escalate_severity-signature r _
    ∙ elim (Bool-cases (same_group r.group_id g.id)) [ inl e ↦ rw e refl | inr e ↦ rw e refl ]

window-signature : (g : Group) (ts : List ℕ) → (window g ts).signature ≡ g.signature
unfolding window
window-signature g [] = refl
window-signature g (t ∷ ts) = refl

recompute_counters-signature :
    (reports : List Report) (g : Group) → (recompute_counters reports g).signature ≡ g.signature
unfolding recompute_counters
recompute_counters-signature reports g =
    window-signature g (map (λ r. r.occurred_at) (filter (in_group g.id) reports))

-- the group that a signature leads to
abbrev LeadsTo : Text → ℕ → List Group → Type 0
LeadsTo signature id groups = (g : Group) × (by_signature signature groups ≡ some g) × (g.id ≡ id)

find_or_add-LeadsTo :
    (id : ℕ) (signature : Text) (frames : List ResolvedFrame) (r : Report) (groups : List Group)
    (o : Option Group)
    → by_signature signature groups ≡ o
    → let made = find_or_add id signature frames r groups o in
      LeadsTo signature made.0.id made.2 × (text_eq made.0.signature signature ≡ true)
unfolding find_or_add by_signature
find_or_add-LeadsTo id signature frames r groups (some g) h =
    ((g, h, refl), first_holds (λ (g : Group). text_eq g.signature signature) groups h)
find_or_add-LeadsTo id signature frames r groups none h =
    let g = new_group id signature frames r in
    let p : Group → Bool = λ x. text_eq x.signature signature in
    (
      (g, first-append_none p groups (g ∷ []) h ∙ first_here p g [] (text_eq_refl signature), refl),
      text_eq_refl signature,
    )

leave_previous-LeadsTo :
    (previous : Option ℕ) (id : ℕ) (reports : List Report) (signature : Text) (groups : List Group)
    → LeadsTo signature id groups
    → LeadsTo signature id (leave_previous previous id reports groups)
unfolding leave_previous by_signature
leave_previous-LeadsTo none id reports signature groups h = h
leave_previous-LeadsTo (some old) id reports signature groups (g, found, same) =
    elim (Bool-cases (old == id)) [
      | inl e ↦ rw e (g, found, same)
      | inr e ↦
          let other : (g.id == old) ≡ false = ground (arith, e, same) in
          rw e (
            g,
            first-update_keep (λ (x : Group). text_eq x.signature signature)
                  (λ (x : Group). x.id == old) (recompute_counters reports) groups
                  (λ x. ap (λ s. text_eq s signature) (recompute_counters-signature reports x))
                  found
                ∙ rw other refl,
            same,
          )
    ]

saved :
    (signature : Text) (id : ℕ) (u v : Group) (groups : List Group)
    → by_signature signature groups ≡ some u
    → u.id ≡ id
    → text_eq v.signature signature ≡ true
    → by_signature signature (update_where (λ g. g.id == id) (λ _. v) groups) ≡ some v
unfolding by_signature
saved signature id u v groups found same named =
    first-update_where (λ (g : Group). text_eq g.signature signature) (λ (g : Group). g.id == id) v
      groups found ((==_iff u.id id).1 same) named

-- the signature of a report that was grouped leads to its group
assign_group-LeadsTo :
    (now id : ℕ) (signature : Text) (frames : List ResolvedFrame) (r : Report) (t : Tables)
    → let done = assign_group now id signature frames r t in
      LeadsTo signature done.0.id done.2.groups
unfolding assign_group
assign_group-LeadsTo now id signature frames r t =
    let made = find_or_add id signature frames r t.groups (by_signature signature t.groups) in
    let (leads, named) =
      find_or_add-LeadsTo id signature frames r t.groups (by_signature signature t.groups) refl in
    let reports = set_group r.id made.0.id t.reports in
    let (u, found, same) =
      leave_previous-LeadsTo r.group_id made.0.id reports signature made.2 leads in
    let g' : Group = record (touch now r made.0) {
      device_count = distinct_device_count made.0.id reports;
    } in
    (
      g',
      saved signature made.0.id u g' _ found same
          (ap (λ s. text_eq s signature) (touch-signature now r made.0) ∙ named),
      refl,
    )

-- A report that is grouped by the signature of one that was grouped before joins its group.
pub assign_group_again :
    (now now' id id' : ℕ) (signature : Text) (frames frames' : List ResolvedFrame) (r r' : Report)
    (t : Tables)
    → let done = assign_group now id signature frames r t in
      let again = assign_group now' id' signature frames' r' done.2 in
      (again.0.id ≡ done.0.id) × (again.1 ≡ false)
unfolding assign_group find_or_add
assign_group_again now now' id id' signature frames frames' r r' t =
    let (g, found, same) = assign_group-LeadsTo now id signature frames r t in
    rw found (touch-id now' r' g ∙ same, refl)
