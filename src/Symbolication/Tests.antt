-- ===== src/Symbolication/Tests.antt =====
-- Two crashes in one function, of two builds.
use diagnosis_system.Prelude.{
  arith, ◌≡◌, refl, sym, ◌∙◌, true, false, ℕ, none, some, List, [], ◌∷◌, Text, codes, is_space, inl,
  inr, sorted_by,
}
use diagnosis_system.Symbols.{func, build_address_index, lookup_symbol}
use diagnosis_system.Elf.{elf, is_arm_arch}
use diagnosis_system.Symbolizer.{new, resolve}
use diagnosis_system.Stack.{reconstruct_stack}
use diagnosis_system.Stack.Signature.{frame_name}
use diagnosis_system.Parser.Value.{no_members}
use diagnosis_system.Parser.Fault.{hard_fault, high}
use diagnosis_system.Fleet.{CrashReport, CrashStatus}
use diagnosis_system.Grouping.{Tables}
use diagnosis_system.Symbolication.{Settings, resolve_frames, frames_of, symbolicate_report}
use diagnosis_system.Builds.{FirmwareBuild, indexed, is_usable_for, best, find_for_crash}
use diagnosis_system.Builds.Chosen.{Suits, find_for_crash_any}
use diagnosis_system.Symbolication.Groups.{names_of, symbolicate_report_meets}

abbrev build : ℕ → Text → Text → ℕ → FirmwareBuild
build id firmware_version build_version address = record {
  id = id;
  firmware_version = firmware_version;
  build_version = some build_version;
  artifact_type = elf;
  status = indexed;
  arch = some (codes "ARM");
  has_debug_info = true;
  symbol_count = 1;
  sections = [];
  created_at = 5;
  symbols = record { name = codes "main_task"; address = address; size = 64; kind = func } ∷ [];
  artifact = none;
}

abbrev old_build : FirmwareBuild
old_build = build 1 (codes "1.0") (codes "a1") 0x8000

abbrev new_build : FirmwareBuild
new_build = build 2 (codes "1.1") (codes "b2") 0x9000

abbrev builds : List FirmwareBuild
builds = new_build ∷ old_build ∷ []

abbrev crash : ℕ → Text → ℕ → CrashReport
crash id firmware_version counter = record {
  id = id;
  device_id = 3;
  firmware_version = firmware_version;
  build_version = none;
  occurred_at = 100;
  received_at = 100;
  fault_type = hard_fault;
  exception_type = none;
  task_name = none;
  program_counter = some counter;
  link_register = none;
  stack_pointer = none;
  register_dump = none;
  stack_dump = none;
  raw_payload = no_members;
  parse_warnings = [];
  severity = high;
  status = CrashStatus.new;
  notes = none;
  group_id = none;
}

abbrev settings : Settings
settings = record { require_thumb_bit = true; max_stack_frames = 32 }

abbrev digest : Text → Text
digest t = t

suits : Suits (codes "1.0") old_build
suits = record { version = refl; status = refl; symbols = ground arith }

-- a crash of another build of the firmware
find_for_crash_any_example :
    (b : FirmwareBuild) × (find_for_crash (codes "1.0") (some (codes "c3")) builds ≡ some b)
find_for_crash_any_example =
    find_for_crash_any (codes "1.0") (some (codes "c3")) builds old_build (inr (inl refl)) suits

old_names : names_of digest settings builds (crash 1 (codes "1.0") 0x8011) ≡ codes "main_task" ∷ []
unfolding frames_of find_for_crash best is_usable_for resolve_frames reconstruct_stack new resolve
    frame_name is_space build_address_index lookup_symbol is_arm_arch sorted_by
old_names = refl

new_names : names_of digest settings builds (crash 2 (codes "1.1") 0x9021) ≡ codes "main_task" ∷ []
unfolding frames_of find_for_crash best is_usable_for resolve_frames reconstruct_stack new resolve
    frame_name is_space build_address_index lookup_symbol is_arm_arch sorted_by
new_names = refl

abbrev tables : Tables
tables = record { groups = []; reports = [] }

symbolicate_report_meets_example :
    let one =
      symbolicate_report digest settings builds 200 10 (crash 1 (codes "1.0") 0x8011) tables in
    let two =
      symbolicate_report digest settings builds 300 11 (crash 2 (codes "1.1") 0x9021) one.1 in
    (two.0.group.id ≡ one.0.group.id) × (two.0.group_created ≡ false)
symbolicate_report_meets_example =
    symbolicate_report_meets digest settings builds 200 300 10 11 (crash 1 (codes "1.0") 0x8011)
      (crash 2 (codes "1.1") 0x9021) tables refl refl (λ e. cc (sym old_names ∙ e))
      (old_names ∙ sym new_names)
