-- ===== src/Symbolication.antt =====
-- backend/app/services/symbolication.py: a
-- report is resolved against the build it came from and put into the group of its signature.
-- SHA-256 in hexadecimal is the parameter `digest`; the id of a new group is drawn outside.
pub mod Groups
mod Tests
use diagnosis_system.Prelude.{
  ℕ, ◌+◌, Bool, true, false, not, ◌&&◌, ◌||◌, Option, none, some, List, [], ◌∷◌, ◌++◌, map, Text,
  text_eq, take, filter, any, ltb, leb, ◌==◌, if◌then◌else◌, sorted_by,
}
use diagnosis_system.Tables.{first}
use diagnosis_system.Symbols.{Symbol, SectionRange}
use diagnosis_system.Elf.{ArtifactKind, elf, map_file, is_arm_arch}
use diagnosis_system.Symbolizer.{ResolvedFrame, Origin, pc, lr, stack, Artifact, new}
use diagnosis_system.Stack.{reconstruct_stack, StackAnalysis, Warning}
use diagnosis_system.Stack.Signature.{
  build_signature, signature_frame_depth, first_name, Components,
}
use diagnosis_system.Parser.Fault.{fault_value}
use diagnosis_system.Parser.StackWords.{StackDump}
use diagnosis_system.Fleet.{CrashReport}
use diagnosis_system.Grouping.{Report, Group, Tables, top_function_of, assign_group}
use diagnosis_system.Builds.{FirmwareBuild, find_for_crash}

pub data ResultWarning : Type 0 where
  no_build no_symbols artifact_missing no_match no_debug_info : ResultWarning
  of_stack : Warning → ResultWarning

-- `SymbolizationResult`
pub record SymbolizationResult : Type 0 where
  pub frames : List ResolvedFrame
  pub pc : Option ResolvedFrame
  pub lr : Option ResolvedFrame
  pub warnings : List ResultWarning
  pub build_version : Option Text
  pub symbolized : Bool

-- `_stack_words`
unfoldable pub stack_words : Option StackDump → List ℕ
stack_words none = []
stack_words (some dump) = dump.words

raw_frame : Origin → ℕ → ResolvedFrame
raw_frame origin address = record {
  address = address;
  origin = origin;
  function = none;
  offset = none;
  source_file = none;
  line = none;
  resolved = false;
  thumb = false;
  inlined = false;
}

optional_frame : Origin → Option ℕ → List ResolvedFrame
unfolding raw_frame
optional_frame origin none = []
optional_frame origin (some address) = raw_frame origin address ∷ []

-- `_raw_frames`
unfoldable pub raw_frames : CrashReport → List ResolvedFrame
unfolding raw_frame optional_frame stack_words
raw_frames r =
    optional_frame pc r.program_counter
    ++ (optional_frame lr r.link_register
        ++ map (raw_frame stack) (take 8 (stack_words r.stack_dump)))

-- `_executable_ranges`
executable_ranges : FirmwareBuild → List SectionRange
executable_ranges b = filter (λ (s : SectionRange). s.executable) b.sections

head_frame : List ResolvedFrame → Option ResolvedFrame
head_frame [] = none
head_frame (f ∷ fs) = some f

is_pc : ResolvedFrame → Bool
is_pc f = elim f.origin [ pc ↦ true | lr ↦ false | stack ↦ false ]

is_lr : ResolvedFrame → Bool
is_lr f = elim f.origin [ pc ↦ false | lr ↦ true | stack ↦ false ]

missing_file : Artifact
missing_file = record { is_file = false; contents = none }

-- the file that the symbolizer reads, with the warning if it is gone
artifact_of : Option Artifact → Artifact × List ResultWarning
unfolding missing_file
artifact_of none = (missing_file, [])
artifact_of (some file) = if file.is_file then (file, []) else (missing_file, artifact_missing ∷ [])

match_warnings : Bool → List ResolvedFrame → List ResultWarning
match_warnings symbolized [] = []
match_warnings symbolized (f ∷ fs) = if symbolized then [] else no_match ∷ []

-- what the service reads of the settings
pub record Settings : Type 0 where
  pub require_thumb_bit : Bool
  pub max_stack_frames : ℕ

-- `_resolve_frames` against the symbols of a build
resolve_with : Settings → CrashReport → FirmwareBuild → List Symbol → SymbolizationResult
unfolding raw_frames artifact_of executable_ranges is_pc is_lr match_warnings new is_arm_arch
    stack_words
resolve_with settings r b [] = record {
  frames = raw_frames r;
  pc = none;
  lr = none;
  warnings = no_symbols ∷ [];
  build_version = b.build_version;
  symbolized = false;
}
resolve_with settings r b (s ∷ ss) =
    let (file, missing) = artifact_of b.artifact in
    let analysis =
      reconstruct_stack file (stack_words r.stack_dump) (new (s ∷ ss) (is_arm_arch b.arch))
        (executable_ranges b) r.program_counter r.link_register settings.require_thumb_bit
        settings.max_stack_frames in
    let symbolized = any (λ (f : ResolvedFrame). f.resolved) analysis.frames in
    record {
      frames = analysis.frames;
      pc = first is_pc analysis.frames;
      lr = first is_lr analysis.frames;
      warnings =
          missing
          ++ (map of_stack analysis.warnings
              ++ (match_warnings symbolized analysis.frames
                  ++ (if b.has_debug_info then [] else no_debug_info ∷ [])));
      build_version = b.build_version;
      symbolized = symbolized;
    }

-- `_resolve_frames`
unfoldable pub resolve_frames : Settings → CrashReport → Option FirmwareBuild → SymbolizationResult
unfolding raw_frames head_frame resolve_with
resolve_frames settings r none = record {
  frames = raw_frames r;
  pc = head_frame (raw_frames r);
  lr = none;
  warnings = no_build ∷ [];
  build_version = none;
  symbolized = false;
}
resolve_frames settings r (some b) = resolve_with settings r b b.symbols

-- the columns of a report that grouping reads
unfoldable pub row_of : CrashReport → Report
row_of r = record {
  id = r.id;
  device_id = r.device_id;
  firmware_version = r.firmware_version;
  occurred_at = r.occurred_at;
  fault_type = fault_value r.fault_type;
  task_name = r.task_name;
  severity = r.severity;
  group_id = r.group_id;
}

-- `SymbolicationOutcome`, with the columns that the report gets
pub record SymbolicationOutcome : Type 0 where
  pub result : SymbolizationResult
  pub build_id : Option ℕ
  pub top_function : Option Text
  pub signature : Text
  pub components : Components
  pub group : Group
  pub group_created : Bool

id_of : Option FirmwareBuild → Option ℕ
id_of none = none
id_of (some b) = some b.id

module _ (digest : Text → Text) (settings : Settings) (builds : List FirmwareBuild) where
  -- the frames of a report
  unfoldable pub frames_of : CrashReport → List ResolvedFrame
  unfolding find_for_crash resolve_frames
  frames_of r =
      (resolve_frames settings r (find_for_crash r.firmware_version r.build_version builds)).frames

  -- the signature of a report
  unfoldable pub signature_of : CrashReport → Text × Components
  unfolding frames_of
  signature_of r =
      build_signature digest (fault_value r.fault_type) r.task_name (frames_of r) r.program_counter
        (some r.firmware_version) signature_frame_depth

  -- `symbolicate_report`
  unfoldable pub symbolicate_report : ℕ → ℕ → CrashReport → Tables → SymbolicationOutcome × Tables
  unfolding find_for_crash resolve_frames frames_of signature_of assign_group row_of id_of
  symbolicate_report now id r tables =
      let build = find_for_crash r.firmware_version r.build_version builds in
      let (signature, components) = signature_of r in
      let (group, created, next) = assign_group now id signature (frames_of r) (row_of r) tables in
      (
        record {
          result = resolve_frames settings r build;
          build_id = id_of build;
          top_function = top_function_of (first_name (frames_of r));
          signature = signature;
          components = components;
          group = group;
          group_created = created;
        },
        next,
      )

  -- the loop of `resymbolicate_for_build` over the reports that the search gives, each with the id of
  -- a group it may make: how many are upgraded, and the tables
  unfoldable pub resymbolicate : ℕ → List (CrashReport × ℕ) → Tables → ℕ × Tables
  unfolding symbolicate_report
  resymbolicate now [] tables = (0, tables)
  resymbolicate now ((r, id) ∷ rest) tables =
      let (outcome, next) = symbolicate_report now id r tables in
      let after = resymbolicate now rest next in
      ((if outcome.result.symbolized then 1 else 0) + after.0, after.1)
