-- ===== src/Elf/Reader.antt =====
-- `ElfParser`: what pyelftools gives of a file, and what is kept of it.
pub mod Kept
use diagnosis_system.Prelude.{
  ℕ, ◌+◌, ◌/◌, ◌%◌, Bool, true, false, not, ◌&&◌, ◌||◌, Option, none, some, List, [], ◌∷◌, ◌++◌,
  map, Text, codes, text_eq, hex, filter, any, ltb, leb, ◌==◌, if◌then◌else◌,
}
use diagnosis_system.Errors.{Outcome, ok, raised, elf_parse_error}
use diagnosis_system.Symbols.{
  Symbol, SymbolKind, func, object, SectionRange, normalize_thumb_address,
}
use diagnosis_system.Elf.{
  ArtifactWarning, no_symbol_table, no_debug_info, symbols_truncated, ElfInfo, elf, max_symbols,
  is_arm_arch,
}

-- a section header
pub record RawSection : Type 0 where
  pub name : Text
  pub flags : ℕ
  pub address : ℕ
  pub size : ℕ

-- `entry["st_info"]["type"]`
pub data SymbolType : Type 0 where
  stt_func stt_object stt_other : SymbolType

pub record RawSymbol : Type 0 where
  pub type : SymbolType
  pub name : Text
  pub value : ℕ
  pub size : ℕ

-- a note: its type, and a description of bytes or as a text
pub record Note : Type 0 where
  pub n_type : Text
  pub bytes : Option (List ℕ)
  pub shown : Text

-- The file as pyelftools reads it. A note that is `none` stands for an exception of `iter_notes`.
pub record ElfFile : Type 0 where
  pub arch : Text
  pub entry_point : Option ℕ
  pub has_dwarf : Bool
  pub sections : List RawSection
  pub notes : Option (List (Option Note))
  pub symtab : Option (List RawSymbol)
  pub dynsym : Option (List RawSymbol)

-- `flags & 0x2` and `flags & 0x4`
abbrev is_allocated : ℕ → Bool
is_allocated flags = flags / 2 % 2 == 1

abbrev is_executable : ℕ → Bool
is_executable flags = flags / 4 % 2 == 1

-- `_read_sections`
unfoldable pub read_sections : List RawSection → List SectionRange
read_sections [] = []
read_sections (s ∷ ss) =
    let rest = read_sections ss in
    if not (is_allocated s.flags) || s.size == 0
    then rest
    else record {
      name = s.name;
      start = s.address;
      size = s.size;
      executable = is_executable s.flags;
    }
      ∷ rest

-- `bytes.hex()`
bytes_hex : List ℕ → Text
unfolding hex
bytes_hex [] = []
bytes_hex (b ∷ bs) = hex 2 b ++ bytes_hex bs

description : Option (List ℕ) → Text → Text
unfolding bytes_hex
description none shown = shown
description (some bytes) shown = bytes_hex bytes

build_id_in : List (Option Note) → Option Text
unfolding description
build_id_in [] = none
build_id_in (none ∷ ns) = none
build_id_in (some n ∷ ns) = elim (text_eq n.n_type (codes "NT_GNU_BUILD_ID")) [
  | true ↦ some (description n.bytes n.shown)
  | false ↦ build_id_in ns
]

-- `_read_build_id`
unfoldable pub read_build_id : Option (List (Option Note)) → Option Text
unfolding build_id_in
read_build_id none = none
read_build_id (some notes) = build_id_in notes

abbrev pub kind_of : SymbolType → Option SymbolKind
kind_of stt_func = some func
kind_of stt_object = some object
kind_of stt_other = none

abbrev is_empty : Text → Bool
is_empty [] = true
is_empty (c ∷ cs) = false

abbrev pub clean_value : Bool → ℕ → ℕ
clean_value clear_thumb raw = if clear_thumb then normalize_thumb_address raw else raw

-- the symbol of a row, if it is not passed over
candidate : Bool → RawSymbol → Option SymbolKind → Option Symbol
candidate clear_thumb raw none = none
candidate clear_thumb raw (some kind) =
    let address = clean_value clear_thumb raw.value in
    if is_empty raw.name || address == 0
    then none
    else some (record { name = raw.name; address = address; size = raw.size; kind = kind })

abbrev pub same_key : Symbol → Symbol → Bool
same_key s t = text_eq s.name t.name && s.address == t.address

-- What the loop of `_read_symbols` gives: the symbols, and whether it stopped at the limit. `seen`
-- are the symbols so far, `count` their number.
unfoldable pub keep_symbols : ℕ → List Symbol → ℕ → List (Option Symbol) → List Symbol × Bool
keep_symbols limit seen count [] = ([], false)
keep_symbols limit seen count (none ∷ rest) = keep_symbols limit seen count rest
keep_symbols limit seen count (some s ∷ rest) = elim (any (same_key s) seen) [
  | true ↦ keep_symbols limit seen count rest
  | false ↦ elim (ltb limit (count + 1)) [
    | true ↦ ([], true)
    | false ↦ let kept = keep_symbols limit (s ∷ seen) (count + 1) rest in (s ∷ kept.0, kept.1)
  ]
]

-- `.symtab`, or else `.dynsym`
table_of : ElfFile → Option (List RawSymbol)
table_of f = elim f.symtab [ some symbols ↦ some symbols | none ↦ f.dynsym ]

candidates : Bool → List RawSymbol → List (Option Symbol)
unfolding candidate
candidates clear_thumb = map (λ (r : RawSymbol). candidate clear_thumb r (kind_of r.type))

symbols_of : Bool → Option (List RawSymbol) → List Symbol × Bool
unfolding keep_symbols candidates
symbols_of clear_thumb none = ([], false)
symbols_of clear_thumb (some table) = keep_symbols max_symbols [] 0 (candidates clear_thumb table)

-- `_read_symbols`
unfoldable pub read_symbols : ElfFile → List Symbol × Bool
unfolding symbols_of table_of is_arm_arch
read_symbols f = symbols_of (is_arm_arch (some f.arch)) (table_of f)

stopped_warnings : Bool → List ArtifactWarning
stopped_warnings false = []
stopped_warnings true = symbols_truncated ∷ []

missing_warnings : List Symbol → List ArtifactWarning
missing_warnings [] = no_symbol_table ∷ []
missing_warnings (s ∷ ss) = []

debug_warnings : Bool → List ArtifactWarning
debug_warnings true = []
debug_warnings false = no_debug_info ∷ []

-- `parse`; `none` is a file that is missing, or that pyelftools cannot read
unfoldable pub parse_elf : Option ElfFile → Outcome ElfInfo
unfolding read_sections read_build_id read_symbols stopped_warnings missing_warnings debug_warnings
parse_elf none = raised elf_parse_error
parse_elf (some f) =
    let (symbols, stopped) = read_symbols f in
    ok (record {
      kind = elf;
      arch = some f.arch;
      entry_point = f.entry_point;
      has_dwarf = f.has_dwarf;
      build_id = read_build_id f.notes;
      symbols = symbols;
      sections = read_sections f.sections;
      warnings =
          stopped_warnings stopped ++ (missing_warnings symbols ++ debug_warnings f.has_dwarf);
    })
