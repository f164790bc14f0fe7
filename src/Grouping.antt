-- ===== src/Grouping.antt =====
-- backend/app/services/symbolication.py: `_assign_group` and the updates of a group, over the tables
-- of backend/app/models/crash_group.py and the counters of backend/app/repositories/crash_group.py.
pub mod Counting
pub mod Counted
pub mod Regression
pub mod Again
mod Tests
use diagnosis_system.Prelude.{
  ℕ, suc, ◌+◌, Bool, true, false, not, ◌&&◌, Option, none, some, List, [], ◌∷◌, ◌++◌, map, Text,
  codes, text_eq, text_before, ltb, leb, ◌==◌, if◌then◌else◌, distinct_texts, length, take, filter,
  any, sorted_by,
}
use diagnosis_system.Tables.{count_where, first, update_where}
use diagnosis_system.Parser.Fault.{CrashSeverity, low, medium, high, critical}
use diagnosis_system.Symbolizer.{ResolvedFrame}
use diagnosis_system.Stack.Signature.{build_title, first_name}

pub data GroupStatus : Type 0 where
  opened investigating resolved ignored regressed : GroupStatus

-- the columns of a report that grouping reads or writes
pub record Report : Type 0 where
  pub id : ℕ
  pub device_id : ℕ
  pub firmware_version : Text
  pub occurred_at : ℕ
  pub fault_type : Text
  pub task_name : Option Text
  pub severity : CrashSeverity
  pub group_id : Option ℕ

-- a group, less its notes and the components of its signature, which grouping never reads
pub record Group : Type 0 where
  pub id : ℕ
  pub signature : Text
  pub title : Text
  pub fault_type : Text
  pub task_name : Option Text
  pub top_function : Option Text
  pub severity : CrashSeverity
  pub status : GroupStatus
  pub occurrence_count : ℕ
  pub device_count : ℕ
  pub first_seen_at : ℕ
  pub last_seen_at : ℕ
  pub versions : List Text
  pub regressed_at : Option ℕ

pub record Tables : Type 0 where
  pub groups : List Group
  pub reports : List Report

abbrev pub same_group : Option ℕ → ℕ → Bool
same_group none id = false
same_group (some g) id = g == id

-- `CrashReport.group_id == group.id`
abbrev pub in_group : ℕ → Report → Bool
in_group id r = same_group r.group_id id

-- `get_by_signature`
unfoldable pub by_signature : Text → List Group → Option Group
by_signature signature = first (λ g. text_eq g.signature signature)

-- `report.group_id = group.id`, as the flush writes it
unfoldable pub set_group : ℕ → ℕ → List Report → List Report
set_group report_id group_id =
    update_where (λ r. r.id == report_id) (λ r. record r { group_id = some group_id })

-- `COUNT(DISTINCT ...)`: each number that does not occur further on
distinct_numbers : List ℕ → List ℕ
distinct_numbers [] = []
distinct_numbers (n ∷ ns) =
    let rest = distinct_numbers ns in if any (λ m. n == m) ns then rest else n ∷ rest

-- `distinct_device_count`
pub distinct_device_count : ℕ → List Report → ℕ
unfolding distinct_numbers
distinct_device_count id reports =
    length (distinct_numbers (map (λ r. r.device_id) (filter (in_group id) reports)))

-- `MIN` and `MAX`, with the value so far
earliest : ℕ → List ℕ → ℕ
earliest n [] = n
earliest n (m ∷ ms) = earliest (if ltb m n then m else n) ms

latest : ℕ → List ℕ → ℕ
latest n [] = n
latest n (m ∷ ms) = latest (if ltb n m then m else n) ms

-- the window of a group that has no reports is left as it is
window : Group → List ℕ → Group
unfolding earliest latest
window g [] = g
window g (t ∷ ts) = record g { first_seen_at = earliest t ts; last_seen_at = latest t ts }

-- `recompute_counters`
unfoldable pub recompute_counters : List Report → Group → Group
unfolding window distinct_device_count distinct_texts
recompute_counters reports g =
    let mine = filter (in_group g.id) reports in
    record (window g (map (λ r. r.occurred_at) mine)) {
      occurrence_count = count_where (in_group g.id) reports;
      device_count = distinct_device_count g.id reports;
      versions = sorted_by text_before (distinct_texts (map (λ r. r.firmware_version) mine));
    }

-- `_widen_window`
widen_window : Report → Group → Group
widen_window r g = record g {
  first_seen_at = if ltb r.occurred_at g.first_seen_at then r.occurred_at else g.first_seen_at;
  last_seen_at = if ltb g.last_seen_at r.occurred_at then r.occurred_at else g.last_seen_at;
}

-- `_SEVERITY_RANK`
abbrev pub severity_rank : CrashSeverity → ℕ
severity_rank low = 0
severity_rank medium = 1
severity_rank high = 2
severity_rank critical = 3

-- `_escalate_severity`
escalate_severity : Report → Group → Group
escalate_severity r g =
    if ltb (severity_rank g.severity) (severity_rank r.severity)
    then record g { severity = r.severity }
    else g

-- `_record_firmware_version`: `versions.sort(reverse=True)`
record_firmware_version : Report → Group → Group
record_firmware_version r g = if any (text_eq r.firmware_version) g.versions then g else record g {
  versions = sorted_by (λ s t. text_before t s) (g.versions ++ (r.firmware_version ∷ []));
}

regress : ℕ → GroupStatus → Group → Group
regress now resolved g = record g { status = regressed; regressed_at = some now }
regress now _ g = g

-- `_maybe_regress`
maybe_regress : ℕ → Group → Group
unfolding regress
maybe_regress now g = regress now g.status g

-- `_top_function`, of the first name found
abbrev pub top_function_of : Option Text → Option Text
top_function_of none = none
top_function_of (some name) = some (take 255 name)

-- the group that is made for a new signature
abbrev pub new_group : ℕ → Text → List ResolvedFrame → Report → Group
new_group id signature frames r = record {
  id = id;
  signature = signature;
  title = build_title r.fault_type frames r.task_name;
  fault_type = r.fault_type;
  task_name = r.task_name;
  top_function = top_function_of (first_name frames);
  severity = r.severity;
  status = opened;
  occurrence_count = 0;
  device_count = 0;
  first_seen_at = r.occurred_at;
  last_seen_at = r.occurred_at;
  versions = [];
  regressed_at = none;
}

-- `groups.get_by_signature`, or a new group that is added to the table
find_or_add :
    ℕ → Text → List ResolvedFrame → Report → List Group → Option Group → Group × Bool × List Group
find_or_add id signature frames r groups (some g) = (g, false, groups)
find_or_add id signature frames r groups none =
    let g = new_group id signature frames r in (g, true, groups ++ (g ∷ []))

-- the group that the report leaves is counted again, without the report
leave_previous : Option ℕ → ℕ → List Report → List Group → List Group
unfolding recompute_counters
leave_previous none id reports groups = groups
leave_previous (some previous) id reports groups =
    if previous == id
    then groups
    else update_where (λ g. g.id == previous) (recompute_counters reports) groups

-- the counter, then the four updates
pub touch : ℕ → Report → Group → Group
unfolding widen_window escalate_severity record_firmware_version maybe_regress
touch now r g =
    let counted =
      if same_group r.group_id g.id
      then g
      else record g { occurrence_count = g.occurrence_count + 1 } in
    maybe_regress now (record_firmware_version r (escalate_severity r (widen_window r counted)))

-- `_assign_group`: the group, whether it is new, and the tables
unfoldable pub assign_group :
    ℕ → ℕ → Text → List ResolvedFrame → Report → Tables → Group × Bool × Tables
unfolding find_or_add leave_previous touch distinct_device_count
assign_group now id signature frames r t =
    let (g, created, groups) =
      find_or_add id signature frames r t.groups (by_signature signature t.groups) in
    let reports = set_group r.id g.id t.reports in
    let left = leave_previous r.group_id g.id reports groups in
    let g' = record (touch now r g) { device_count = distinct_device_count g.id reports } in
    (
      g',
      created,
      record { groups = update_where (λ h. h.id == g.id) (λ _. g') left; reports = reports },
    )
