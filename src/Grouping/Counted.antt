-- ===== src/Grouping/Counted.antt =====
-- The counters of the groups stay right when a report is grouped, for the first time or again.
use diagnosis_system.Prelude.{
  ℕ, ◌+◌, ◌≡◌, ◌⊎◌, refl, sym, ap, ◌∙◌, false, inl, inr, Option, none, some, List, [], ◌∷◌, arith,
  Text, text_eq, ◌==◌, ==_iff, Bool-cases, All, map, filter,
}
use diagnosis_system.Tables.{count_where, first, update_where}
use diagnosis_system.Symbolizer.{ResolvedFrame}
use diagnosis_system.Grouping.{
  Report, Group, Tables, same_group, in_group, by_signature, set_group, recompute_counters,
  new_group, find_or_add, leave_previous, touch, assign_group, window, distinct_device_count,
}
use diagnosis_system.Grouping.Counting.{
  unit, count_in, count-set_group, IsCounted, All-update_where, All-add, All-first, touch-id,
  touch-count,
}

window-id : (g : Group) (ts : List ℕ) → (window g ts).id ≡ g.id
unfolding window
window-id g [] = refl
window-id g (t ∷ ts) = refl

recompute_counters-IsCounted :
    (reports : List Report) (g : Group) → IsCounted reports (recompute_counters reports g)
unfolding recompute_counters IsCounted
recompute_counters-IsCounted reports g =
    ap (λ id. count_in id reports)
      (sym (window-id g (map (λ r. r.occurred_at) (filter (in_group g.id) reports))))

module _ (r : Report) (gid : ℕ) (reports reports' : List Report)
    (delta : (id : ℕ)
      → count_in id reports' + unit (in_group id r) ≡ count_in id reports + unit (gid == id)) where
  abbrev Settled : Group → Type 0
  Settled g = (g.id ≡ gid) ⊎ IsCounted reports' g

  -- a group that the report neither leaves nor joins
  settle :
      (g : Group)
      → IsCounted reports g
      → ((gid == g.id) ≡ false → in_group g.id r ≡ false)
      → Settled g
  unfolding IsCounted
  settle g h out = elim (Bool-cases (gid == g.id)) [
    | inl e ↦ inl (sym ((==_iff gid g.id).0 e))
    | inr e ↦ inr (omega (arith, h, delta g.id, ap unit e, ap unit (out e)))
  ]

  settle_all :
      (gs : List Group)
      → ((id : ℕ) → (gid == id) ≡ false → in_group id r ≡ false)
      → All (IsCounted reports) gs
      → All Settled gs
  settle_all [] out h = tt
  settle_all (g ∷ gs) out h = (settle g h.0 (out g.id), settle_all gs out h.1)

  leave_previous-Settled :
      (o : Option ℕ) (gs : List Group)
      → r.group_id ≡ o
      → All (IsCounted reports) gs
      → All Settled (leave_previous o gid reports' gs)
  unfolding leave_previous
  leave_previous-Settled none gs e h = settle_all gs (λ id out. ap (λ p. same_group p id) e) h
  leave_previous-Settled (some previous) gs e h = elim (Bool-cases (previous == gid)) [
    | inl same ↦ rw same (settle_all gs (λ id out. ap (λ p. same_group p id) e ∙ ground arith) h)
    | inr other ↦ rw other (
        All-update_where (IsCounted reports) Settled (λ g. g.id == previous)
          (recompute_counters reports') gs
          (λ g c hit. inr (recompute_counters-IsCounted reports' g))
          (λ g c miss. settle g c (λ out. ap (λ p. same_group p g.id) e ∙ ground arith)) h)
  ]

  -- the group that the report joins
  touch-IsCounted :
      (now devices : ℕ) (g : Group)
      → g.id ≡ gid
      → IsCounted reports g
      → IsCounted reports' (record (touch now r g) { device_count = devices })
  unfolding IsCounted
  touch-IsCounted now devices g same h =
      omega (arith, h, delta g.id, ap unit ((==_iff gid g.id).1 (sym same)), touch-count now r g)
      ∙ ap (λ id. count_in id reports') (sym (touch-id now r g))

  saved :
      (now devices : ℕ) (g : Group) (gs : List Group)
      → g.id ≡ gid
      → IsCounted reports g
      → All Settled gs
      → All (IsCounted reports') (
          update_where
            (λ h. h.id == gid)
            (λ _. record (touch now r g) { device_count = devices })
            gs)
  saved now devices g gs same h settled =
      All-update_where Settled (IsCounted reports') (λ x. x.id == gid)
        (λ _. record (touch now r g) { device_count = devices }) gs
        (λ x c hit. touch-IsCounted now devices g same h) (λ x c miss. outside x c miss) settled
    where
      outside : (x : Group) → Settled x → (x.id == gid) ≡ false → IsCounted reports' x
      outside x (inl e) miss = cc ((==_iff x.id gid).1 e, miss)
      outside x (inr c) miss = c

-- a new group has no reports, and a group found has its number
find_or_add-IsCounted :
    (id : ℕ) (signature : Text) (frames : List ResolvedFrame) (r : Report) (reports : List Report)
    (gs : List Group) (o : Option Group)
    → by_signature signature gs ≡ o
    → count_in id reports ≡ 0
    → All (IsCounted reports) gs
    → IsCounted reports (find_or_add id signature frames r gs o).0
      × All (IsCounted reports) (find_or_add id signature frames r gs o).2
unfolding find_or_add by_signature IsCounted
find_or_add-IsCounted id signature frames r reports gs (some g) e unused h =
    (All-first (IsCounted reports) (λ x. text_eq x.signature signature) gs e h, h)
find_or_add-IsCounted id signature frames r reports gs none e unused h =
    (sym unused, All-add (IsCounted reports) gs (new_group id signature frames r) h (sym unused))

-- If the counters of the groups are the numbers of their reports, they are so again after a report of
-- the table is grouped, for the first time or again, into a group that is there or a new one, with
-- the group that it leaves. The id of a new group is one that no report names.
pub assign_group-IsCounted :
    (now id : ℕ) (signature : Text) (frames : List ResolvedFrame) (r : Report) (t : Tables)
    → first (λ x. x.id == r.id) t.reports ≡ some r
    → count_where (λ x. x.id == r.id) t.reports ≡ 1
    → count_in id t.reports ≡ 0
    → All (IsCounted t.reports) t.groups
    → All
        (IsCounted (assign_group now id signature frames r t).2.reports)
        (assign_group now id signature frames r t).2.groups
unfolding assign_group
assign_group-IsCounted now id signature frames r t found one unused counted =
    let o = by_signature signature t.groups in
    let (joined, all) =
      find_or_add-IsCounted id signature frames r t.reports t.groups o refl unused counted in
    let made = find_or_add id signature frames r t.groups o in
    let gid = made.0.id in
    let reports = set_group r.id gid t.reports in
    let delta = λ (i : ℕ). count-set_group r.id gid i t.reports {r = r} found one in
    saved r gid t.reports reports delta now (distinct_device_count gid reports) made.0 _ refl joined
      (leave_previous-Settled r gid t.reports reports delta r.group_id made.2 refl all)
