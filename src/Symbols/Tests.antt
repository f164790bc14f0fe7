-- ===== src/Symbols/Tests.antt =====
-- Runs of the lookup in backend/app/services/elf_parser.py.
use diagnosis_system.Prelude.{◌≡◌, refl, some, [], ◌∷◌, codes, inl, inr, arith}
use diagnosis_system.Symbols.{Symbol, func, object, build_address_index, lookup_symbol}
use diagnosis_system.Symbols.Lookup.{lookup_in, lookup_symbol_complete}

abbrev main_task : Symbol
main_task = record { name = codes "main_task"; address = 0x8000; size = 64; kind = func }

abbrev idle_task : Symbol
idle_task = record { name = codes "idle_task"; address = 0x8040; size = 16; kind = func }

-- a label at the start of `main_task`
abbrev label : Symbol
label = record { name = codes "label"; address = 0x8000; size = 0; kind = object }

found_main : lookup_in (idle_task ∷ main_task ∷ []) 0x8010 ≡ some main_task
unfolding build_address_index lookup_symbol
found_main = refl

lookup_symbol_complete_example : lookup_in (idle_task ∷ main_task ∷ []) 0x8010 ≡ some main_task
lookup_symbol_complete_example =
    lookup_symbol_complete (idle_task ∷ main_task ∷ []) 0x8010 main_task
      ((inr (ground arith), tt), (tt, tt)) (inr (inl refl)) (ground arith, ground arith)
