-- ===== src/Grouping/Tests.antt =====
-- A report that moves to another group.
use diagnosis_system.Prelude.{◌≡◌, refl, none, some, [], ◌∷◌, codes, All}
use diagnosis_system.Parser.Fault.{high, low}
use diagnosis_system.Grouping.{
  Report, Group, Tables, resolved, regressed, by_signature, assign_group,
}
use diagnosis_system.Grouping.Counting.{IsCounted}
use diagnosis_system.Grouping.Counted.{assign_group-IsCounted}
use diagnosis_system.Grouping.Regression.{assign_group_regresses}

abbrev report : Report
report = record {
  id = 1;
  device_id = 5;
  firmware_version = codes "1.0";
  occurred_at = 30;
  fault_type = codes "hard_fault";
  task_name = none;
  severity = high;
  group_id = some 10;
}

abbrev group : Group
group = record {
  id = 10;
  signature = codes "raw";
  title = codes "hard fault";
  fault_type = codes "hard_fault";
  task_name = none;
  top_function = none;
  severity = low;
  status = resolved;
  occurrence_count = 2;
  device_count = 1;
  first_seen_at = 20;
  last_seen_at = 30;
  versions = codes "1.0" ∷ [];
  regressed_at = none;
}

abbrev tables : Tables
tables = record {
  groups = group ∷ [];
  reports = report ∷ (record report { id = 2; occurred_at = 20 }) ∷ [];
}

right_before : All (IsCounted tables.reports) tables.groups
unfolding IsCounted
right_before = (refl, tt)

-- its symbols now give it another signature
assign_group-IsCounted_example :
    All
      (IsCounted (assign_group 99 11 (codes "named") [] report tables).2.reports)
      (assign_group 99 11 (codes "named") [] report tables).2.groups
assign_group-IsCounted_example =
    assign_group-IsCounted 99 11 (codes "named") [] report tables refl refl refl right_before

found : by_signature (codes "raw") tables.groups ≡ some group
unfolding by_signature
found = refl

assign_group_regresses_example :
    ((assign_group 99 11 (codes "raw") [] report tables).0.status ≡ regressed)
    × ((assign_group 99 11 (codes "raw") [] report tables).0.occurrence_count ≡ 2)
assign_group_regresses_example =
    assign_group_regresses 99 11 (codes "raw") [] report tables group found refl refl
