-- ===== src/Elf.antt =====
-- backend/app/services/elf_parser.py: what is read from an artifact, and of which kind it is.
pub mod Reader
pub mod Map
mod Tests
use diagnosis_system.Prelude.{
  ℕ, zero, suc, Bool, true, false, ◌&&◌, ◌||◌, Option, none, some, List, [], ◌∷◌, ◌++◌, map, Text,
  codes, text_eq, after_prefix, filter, any, ltb, leb, ◌==◌, ◌+◌, ◌-◌, if◌then◌else◌,
}
use diagnosis_system.Symbols.{Symbol, SectionRange}

pub data ArtifactKind : Type 0 where
  elf map_file : ArtifactKind

-- a warning without its words
pub data ArtifactWarning : Type 0 where
  no_symbol_table no_debug_info symbols_truncated no_line_information sizes_inferred :
      ArtifactWarning

pub record ElfInfo : Type 0 where
  pub kind : ArtifactKind
  pub arch : Option Text
  pub entry_point : Option ℕ
  pub has_dwarf : Bool
  pub build_id : Option Text
  pub symbols : List Symbol
  pub sections : List SectionRange
  pub warnings : List ArtifactWarning

abbrev pub max_symbols : ℕ
max_symbols = 200_000

-- `str.upper` on ASCII; the names of machines that pyelftools gives are ASCII
upper_char : ℕ → ℕ
upper_char c = if leb 97 c && leb c 122 then c - 32 else c

starts_with : Text → Text → Bool
starts_with pattern t = elim (after_prefix pattern t) [ none ↦ false | some rest ↦ true ]

-- `pattern in text`
holds_text : Text → Text → Bool
unfolding starts_with
holds_text pattern [] = starts_with pattern []
holds_text pattern (c ∷ cs) =
    let rest = holds_text pattern cs in starts_with pattern (c ∷ cs) || rest

-- `is_arm_arch`; the empty text does not hold `ARM`
unfoldable pub is_arm_arch : Option Text → Bool
unfolding upper_char holds_text
is_arm_arch none = false
is_arm_arch (some arch) = holds_text (codes "ARM") (map upper_char arch)

lower_char : ℕ → ℕ
lower_char c = if leb 65 c && leb c 90 then c + 32 else c

-- what follows the last slash of a path
final_name : Text → Text → Text
final_name seen [] = seen
final_name seen (c ∷ cs) = final_name (if c == b'/' then [] else seen ++ (c ∷ [])) cs

-- the part of a name from its last point on, with whether something is in front of it
suffix_from : Bool → Option Text → Text → Option Text
suffix_from behind found [] = found
suffix_from behind found (c ∷ cs) =
    suffix_from true (if c == b'.' && behind then some (c ∷ cs) else found) cs

point_only : Option Text → Text
point_only none = []
point_only (some []) = []
point_only (some (c ∷ [])) = []
point_only (some (c ∷ d ∷ ds)) = c ∷ d ∷ ds

-- `Path(filename).suffix`: not that of a name that begins or ends with its only point
unfoldable pub suffix_of : Text → Text
unfolding final_name suffix_from point_only
suffix_of filename = point_only (suffix_from false none (final_name [] filename))

abbrev one_of : List Text → Text → Bool
one_of names t = any (text_eq t) names

-- `detect_kind`
unfoldable pub detect_kind : Text → List ℕ → ArtifactKind
unfolding suffix_of lower_char starts_with
detect_kind filename head =
    let suffix = map lower_char (suffix_of filename) in
    if starts_with (0x7f ∷ codes "ELF") head
    then elf
    else if one_of (codes ".map" ∷ codes ".txt" ∷ []) suffix
    then map_file
    else if one_of (codes ".elf" ∷ codes ".axf" ∷ codes ".out" ∷ [] ∷ []) suffix
    then elf
    else map_file
