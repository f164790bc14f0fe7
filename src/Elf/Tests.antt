-- ===== src/Elf/Tests.antt =====
-- Runs of backend/app/services/elf_parser.py on a small map file and a small symbol table.
use diagnosis_system.Prelude.{
  ◌≡◌, ◌≤◌, refl, false, none, some, [], ◌∷◌, ◌++◌, All, Pairwise, Text, codes, arith, inl, inr,
  length, is_space, lstrip, rstrip, sorted_by,
}
use diagnosis_system.Errors.{ok}
use diagnosis_system.Symbols.{Symbol, func}
use diagnosis_system.Symbols.Lookup.{lookup_in, Covers}
use diagnosis_system.Elf.{
  ElfInfo, elf, map_file, no_line_information, sizes_inferred, detect_kind, is_arm_arch,
  max_symbols,
}
use diagnosis_system.Elf.Map.{splitlines, match_line, sized, parse_text}
use diagnosis_system.Elf.Map.Tiled.{parse_text-lookup}
use diagnosis_system.Elf.Reader.{ElfFile, stt_func, stt_object, stt_other, read_symbols}
use diagnosis_system.Elf.Reader.Kept.{IsUsable, Distinct, read_symbols-AreKept}

kind_of_magic : detect_kind (codes "fw.map") (0x7f ∷ codes "ELF") ≡ elf
unfolding detect_kind
kind_of_magic = refl

kind_of_suffix : detect_kind (codes "out/fw.TXT") (codes "Archive") ≡ map_file
unfolding detect_kind
kind_of_suffix = refl

kind_of_bare_name : detect_kind (codes ".map") [] ≡ elf
unfolding detect_kind
kind_of_bare_name = refl

-- the map lists `boot` with its Thumb bit, a line of another form, and `main`
abbrev line : Text → Text
line t = t ++ (10 ∷ [])

abbrev map_text : Text
map_text =
    line (codes " 0x08000101  boot")
    ++ (line (codes "Memory Configuration") ++ line (codes "    0x08000200   main_task"))

abbrev boot : Symbol
boot = record { name = codes "boot"; address = 0x08000100; size = 0x100; kind = func }

abbrev main_task : Symbol
main_task = record { name = codes "main_task"; address = 0x08000200; size = 0; kind = func }

abbrev info : ElfInfo
info = record {
  kind = map_file;
  arch = none;
  entry_point = none;
  has_dwarf = false;
  build_id = none;
  symbols = boot ∷ main_task ∷ [];
  sections = [];
  warnings = no_line_information ∷ sizes_inferred ∷ [];
}

read_map : parse_text (λ c. false) map_text ≡ ok info
unfolding parse_text splitlines match_line sized lstrip rstrip sorted_by is_space
read_map = refl

parse_text-lookup_example :
    (t : Symbol) × (lookup_in info.symbols 0x08000150 ≡ some t) × Covers t 0x08000150
parse_text-lookup_example =
    parse_text-lookup (λ c. false) map_text 0x08000150 boot main_task {info = info} read_map
      (inl refl) (inr (inl refl)) (ground arith) (ground arith)

abbrev file : ElfFile
file = record {
  arch = codes "ARM";
  entry_point = some 0x08000101;
  has_dwarf = false;
  sections = [];
  notes = none;
  symtab = none;
  dynsym = some (
      record { type = stt_func; name = codes "boot"; value = 0x08000101; size = 4 }
      ∷ record { type = stt_func; name = codes "boot"; value = 0x08000100; size = 4 }
      ∷ record { type = stt_other; name = codes "fw.c"; value = 0; size = 0 }
      ∷ record { type = stt_object; name = []; value = 0x20000000; size = 4 }
      ∷ []);
}

kept :
    read_symbols file
    ≡ (record { name = codes "boot"; address = 0x08000100; size = 4; kind = func } ∷ [], false)
unfolding read_symbols is_arm_arch
kept = refl

read_symbols-AreKept_example :
    All (IsUsable (is_arm_arch (some (codes "ARM")))) (read_symbols file).0
    × Pairwise Distinct (read_symbols file).0
    × (length (read_symbols file).0 ≤ max_symbols)
read_symbols-AreKept_example = read_symbols-AreKept file
