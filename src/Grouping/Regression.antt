-- ===== src/Grouping/Regression.antt =====
-- When a resolved group counts as regressed.
use diagnosis_system.Prelude.{
  ℕ, ◌≡◌, refl, ap, ◌∙◌, Bool, true, false, some, List, arith, Text, if◌then◌else◌,
}
use diagnosis_system.Symbolizer.{ResolvedFrame}
use diagnosis_system.Grouping.{
  Report, Group, GroupStatus, opened, investigating, resolved, ignored, regressed, Tables,
  same_group, in_group, by_signature, touch, widen_window, escalate_severity,
  record_firmware_version, maybe_regress, regress, find_or_add, assign_group,
}
use diagnosis_system.Grouping.Counting.{counted, touch-count, unit}

if-status :
    (b : Bool) (g h k : Group)
    → h.status ≡ g.status
    → k.status ≡ g.status
    → (if b then h else k).status ≡ g.status
if-status true g h k p q = p
if-status false g h k p q = q

widen_window-status : (r : Report) (g : Group) → (widen_window r g).status ≡ g.status
unfolding widen_window
widen_window-status r g = refl

escalate_severity-status : (r : Report) (g : Group) → (escalate_severity r g).status ≡ g.status
unfolding escalate_severity
escalate_severity-status r g = if-status _ g _ g refl refl

record_firmware_version-status :
    (r : Report) (g : Group) → (record_firmware_version r g).status ≡ g.status
unfolding record_firmware_version
record_firmware_version-status r g = if-status _ g g _ refl refl

regress-status :
    (now : ℕ) (g : Group) (s : GroupStatus) → s ≡ resolved → (regress now s g).status ≡ regressed
unfolding regress
regress-status now g opened e = cc
regress-status now g investigating e = cc
regress-status now g resolved e = refl
regress-status now g ignored e = cc
regress-status now g regressed e = cc

touch-status :
    (now : ℕ) (r : Report) (g : Group) → g.status ≡ resolved → (touch now r g).status ≡ regressed
unfolding touch maybe_regress
touch-status now r g e =
    let a = widen_window r (counted r g) in
    let b = escalate_severity r a in
    regress-status now (record_firmware_version r b) (record_firmware_version r b).status (
      record_firmware_version-status r b
      ∙ escalate_severity-status r a
      ∙ widen_window-status r (counted r g)
      ∙ if-status (same_group r.group_id g.id) g g _ refl refl
      ∙ e)

-- A report that is grouped again into its own group, which is resolved, makes the group regressed,
-- though it is no new crash and the counter stays as it is.
pub assign_group_regresses :
    (now id : ℕ) (signature : Text) (frames : List ResolvedFrame) (r : Report) (t : Tables)
    (g : Group)
    → by_signature signature t.groups ≡ some g
    → r.group_id ≡ some g.id
    → g.status ≡ resolved
    → ((assign_group now id signature frames r t).0.status ≡ regressed)
      × ((assign_group now id signature frames r t).0.occurrence_count ≡ g.occurrence_count)
unfolding assign_group find_or_add
assign_group_regresses now id signature frames r t g found again e =
    let here : in_group g.id r ≡ true = ap (λ o. same_group o g.id) again ∙ ground arith in
    rw found (touch-status now r g e, omega (arith, touch-count now r g, ap unit here))
