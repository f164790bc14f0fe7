-- ===== src/Symbolizer/Tests.antt =====
-- Runs of backend/app/services/symbolizer.py on a small artifact.
use diagnosis_system.Prelude.{
  ℕ, ◌≡◌, refl, true, false, Option, some, List, [], ◌∷◌, map, Text, codes,
}
use diagnosis_system.Symbols.{Symbol, func}
use diagnosis_system.Symbolizer.{
  Artifact, LineState, Row, new, pc, table_of_rows, lookup, entry_at, resolve_many,
}
use diagnosis_system.Symbolizer.Caching.{new-IsReady, frame_of, resolve_many_lem}
use diagnosis_system.Symbolizer.Lines.{IsNearest, lookup-IsNearest}

abbrev entry : ℕ → ℕ → Option LineState
entry address line =
    some (record { address = address; file = 1; line = line; end_sequence = false })

-- DWARF 4, one file
abbrev firmware : Artifact
firmware = record {
  is_file = true;
  contents = some (record {
    has_dwarf_info = true;
    units =
        some (record {
          version = 4;
          file_entry = codes "main.c" ∷ [];
          entries = entry 0x8000 10 ∷ entry 0x8010 12 ∷ [];
        })
        ∷ [];
  });
}

abbrev symbols : List Symbol
symbols = (record { name = codes "main_task"; address = 0x8000; size = 64; kind = func }) ∷ []

resolve_many_lem_example :
    (resolve_many firmware (new symbols true) (0x8001 ∷ 0x8013 ∷ 0x9000 ∷ []) pc).0
    ≡ map (frame_of firmware (new symbols true) pc) (0x8001 ∷ 0x8013 ∷ 0x9000 ∷ [])
resolve_many_lem_example =
    resolve_many_lem firmware (new symbols true) (0x8001 ∷ 0x8013 ∷ 0x9000 ∷ []) pc
      (new-IsReady firmware symbols true)

abbrev rows : List Row
rows =
    (record { address = 0x8010; name = codes "main.c"; line = 12 })
    ∷ (record { address = 0x8000; name = codes "main.c"; line = 10 })
    ∷ []

found_row : lookup (table_of_rows rows) 0x8012 ≡ some (codes "main.c", 12)
unfolding lookup table_of_rows entry_at
found_row = refl

lookup-IsNearest_example :
    (r : Row) × IsNearest rows 0x8012 r × (◌≡◌ {A = Text × ℕ} (r.name, r.line) (codes "main.c", 12))
lookup-IsNearest_example = lookup-IsNearest rows 0x8012 {e = (codes "main.c", 12)} found_row
