-- ===== src/Builds.antt =====
-- The builds of a firmware (backend/app/models/build.py), and `find_for_crash` of
-- backend/app/repositories/build.py.
pub mod Chosen
use diagnosis_system.Prelude.{
  ℕ, ◌+◌, Bool, true, false, not, ◌&&◌, ◌||◌, Option, none, some, List, [], ◌∷◌, ◌++◌, map, Text,
  text_eq, take, filter, any, ltb, leb, ◌==◌, if◌then◌else◌, sorted_by,
}
use diagnosis_system.Tables.{first}
use diagnosis_system.Symbols.{Symbol, SectionRange}
use diagnosis_system.Elf.{ArtifactKind, elf, map_file, is_arm_arch}
use diagnosis_system.Symbolizer.{ResolvedFrame, Origin, pc, lr, stack, Artifact, new}
use diagnosis_system.Stack.{reconstruct_stack, StackAnalysis, Warning}
use diagnosis_system.Stack.Signature.{
  build_signature, signature_frame_depth, first_name, Components,
}
use diagnosis_system.Parser.Fault.{fault_value}
use diagnosis_system.Parser.StackWords.{StackDump}
use diagnosis_system.Fleet.{CrashReport}
use diagnosis_system.Grouping.{Report, Group, Tables, top_function_of, assign_group}

pub data BuildStatus : Type 0 where
  pending indexing indexed failed : BuildStatus

-- the columns of a build that symbolication reads, with its rows of symbols and, unless it has no
-- path, its file
pub record FirmwareBuild : Type 0 where
  pub id : ℕ
  pub firmware_version : Text
  pub build_version : Option Text
  pub artifact_type : ArtifactKind
  pub status : BuildStatus
  pub arch : Option Text
  pub has_debug_info : Bool
  pub symbol_count : ℕ
  pub sections : List SectionRange
  pub created_at : ℕ
  pub symbols : List Symbol
  pub artifact : Option Artifact

is_indexed : BuildStatus → Bool
is_indexed pending = false
is_indexed indexing = false
is_indexed indexed = true
is_indexed failed = false

-- the conditions of `base`
unfoldable pub is_usable_for : Text → FirmwareBuild → Bool
unfolding is_indexed
is_usable_for firmware_version b =
    text_eq b.firmware_version firmware_version && is_indexed b.status && not (b.symbol_count == 0)

kind_rank : ArtifactKind → ℕ
kind_rank elf = 0
kind_rank map_file = 1

-- `ordering`: an ELF first, then the newest
build_order : FirmwareBuild → FirmwareBuild → Bool
unfolding kind_rank
build_order a b =
    ltb (kind_rank a.artifact_type) (kind_rank b.artifact_type)
    || (kind_rank a.artifact_type == kind_rank b.artifact_type && leb b.created_at a.created_at)

head_of : List FirmwareBuild → Option FirmwareBuild
head_of [] = none
head_of (b ∷ bs) = some b

-- the first row that a condition gives in that order
unfoldable pub best : (FirmwareBuild → Bool) → List FirmwareBuild → Option FirmwareBuild
unfolding head_of sorted_by build_order
best p builds = head_of (sorted_by build_order (filter p builds))

abbrev pub has_version : Text → Option Text → Bool
has_version version none = false
has_version version (some v) = text_eq v version

abbrev pub has_no_version : Option Text → Bool
has_no_version none = true
has_no_version (some v) = false

or_else : Option FirmwareBuild → Option FirmwareBuild → Option FirmwareBuild
or_else none other = other
or_else (some b) other = some b

-- the fallbacks: a build without a version, then any build of the firmware
fallback : Text → List FirmwareBuild → Option FirmwareBuild
unfolding best or_else
fallback firmware_version builds =
    or_else (best (λ b. is_usable_for firmware_version b && has_no_version b.build_version) builds)
      (best (is_usable_for firmware_version) builds)

-- `find_for_crash`
unfoldable pub find_for_crash : Text → Option Text → List FirmwareBuild → Option FirmwareBuild
unfolding best or_else fallback
find_for_crash firmware_version none builds = fallback firmware_version builds
find_for_crash firmware_version (some []) builds = fallback firmware_version builds
find_for_crash firmware_version (some (c ∷ cs)) builds =
    or_else
      (best (λ b. is_usable_for firmware_version b && has_version (c ∷ cs) b.build_version) builds)
      (fallback firmware_version builds)
