-- ===== src/Symbolizer.antt =====
-- backend/app/services/symbolizer.py: frames, the lazily built DWARF line table, and `resolve`.
-- The artifact file and pyelftools enter as `Artifact`. No addr2line binary is configured, which
-- is the default of backend/app/core/config.py.
pub mod Lines
pub mod Caching
mod Tests
use diagnosis_system.Prelude.{
  ℕ, zero, suc, ◌-◌, Bool, true, false, not, ◌&&◌, ◌||◌, Option, none, some, List, [], ◌∷◌, ◌++◌,
  map, Text, leb, if◌then◌else◌, get_elem?, sorted_by, bisect_right,
}
use diagnosis_system.Symbols.{
  Symbol, build_address_index, is_thumb_address, lookup_symbol, normalize_thumb_address,
}

-- "pc", "lr" or "stack"
pub data Origin : Type 0 where
  pc lr stack : Origin

pub record ResolvedFrame : Type 0 where
  pub address : ℕ
  pub origin : Origin
  pub function : Option Text
  pub offset : Option ℕ
  pub source_file : Option Text
  pub line : Option ℕ
  pub resolved : Bool
  pub thumb : Bool
  pub inlined : Bool

-- the state of a line program at an entry, as pyelftools gives it
pub record LineState : Type 0 where
  pub address : ℕ
  pub file : ℕ
  pub line : ℕ
  pub end_sequence : Bool

pub record LineProgram : Type 0 where
  pub version : ℕ
  pub file_entry : List Text
  pub entries : List (Option LineState)

-- `has_dwarf_info`, and the line program of each unit that has one
pub record Dwarf : Type 0 where
  pub has_dwarf_info : Bool
  pub units : List (Option LineProgram)

-- `elf_path.is_file()`, and what reading it yields: `none` is an exception
pub record Artifact : Type 0 where
  pub is_file : Bool
  pub contents : Option Dwarf

pub record Row : Type 0 where
  pub address : ℕ
  pub name : Text
  pub line : ℕ

pub record LineTable : Type 0 where
  pub addresses : List ℕ
  pub entries : List (Text × ℕ)

one_based : List Text → ℕ → Option Text
one_based files zero = none
one_based files (suc i) = get_elem? files i

-- `file_names.get(index, "")`: the file table is 0-based from DWARF 5 on, and 1-based before
file_name : LineProgram → ℕ → Option Text
unfolding one_based
file_name p index =
    if leb 5 p.version then get_elem? p.file_entry index else one_based p.file_entry index

-- an entry with no name, or an empty one, gives no row
named_row : LineState → Option Text → List Row
named_row s none = []
named_row s (some []) = []
named_row s (some (c ∷ name)) =
    (record { address = s.address; name = c ∷ name; line = s.line }) ∷ []

rows_of_entry : LineProgram → Option LineState → List Row
rows_of_entry p none = []
rows_of_entry p (some s) = if s.end_sequence then [] else named_row s (file_name p s.file)

rows_of_entries : LineProgram → List (Option LineState) → List Row
rows_of_entries p [] = []
rows_of_entries p (e ∷ es) = rows_of_entry p e ++ rows_of_entries p es

rows_of_units : List (Option LineProgram) → List Row
rows_of_units [] = []
rows_of_units (none ∷ us) = rows_of_units us
rows_of_units (some p ∷ us) = rows_of_entries p p.entries ++ rows_of_units us

abbrev pub row_order : Row → Row → Bool
row_order r s = leb r.address s.address

pub table_of_rows : List Row → LineTable
unfolding sorted_by
table_of_rows rows =
    let ordered = sorted_by row_order rows in
    record {
      addresses = map (λ r. r.address) ordered;
      entries = map (λ r. (r.name, r.line)) ordered;
    }

pub load : Dwarf → LineTable
unfolding table_of_rows rows_of_units rows_of_entries rows_of_entry named_row file_name
load d = table_of_rows (if d.has_dwarf_info then rows_of_units d.units else [])

entry_at : List (Text × ℕ) → ℕ → Option (Text × ℕ)
entry_at entries zero = none
entry_at entries (suc index) = get_elem? entries index

-- `_DwarfLineTable.lookup`
pub lookup : LineTable → ℕ → Option (Text × ℕ)
unfolding entry_at bisect_right
lookup t address = entry_at t.entries (bisect_right t.addresses address)

-- The table is fixed when the symbolizer is made; the line table is filled in on first use.
pub record Symbolizer : Type 0 where
  pub addresses : List ℕ
  pub symbols : List Symbol
  pub normalize_thumb : Bool
  pub line_lookup : Option LineTable
  pub dwarf_attempted : Bool

-- `__init__`
unfoldable pub new : List Symbol → Bool → Symbolizer
unfolding build_address_index
new symbols normalize_thumb =
    let index = build_address_index symbols in
    record {
      addresses = index.0;
      symbols = index.1;
      normalize_thumb = normalize_thumb;
      line_lookup = none;
      dwarf_attempted = false;
    }

loaded : Option Dwarf → Option LineTable
unfolding load
loaded none = none
loaded (some d) = some (load d)

-- `_dwarf_table`
dwarf_table : Artifact → Symbolizer → Option LineTable × Symbolizer
unfolding loaded
dwarf_table file s =
    if s.dwarf_attempted
    then (s.line_lookup, s)
    else if not file.is_file
    then (none, record s { dwarf_attempted = true })
    else (
      loaded file.contents,
      record s { dwarf_attempted = true; line_lookup = loaded file.contents },
    )

look_in : Option LineTable → ℕ → Option (Text × ℕ)
unfolding lookup
look_in none address = none
look_in (some t) address = lookup t address

-- `_resolve_line`
resolve_line : Artifact → Symbolizer → ℕ → Option (Text × ℕ) × Symbolizer
unfolding dwarf_table look_in
resolve_line file s address = let found = dwarf_table file s in (look_in found.0 address, found.1)

abbrev pub clean_address : Symbolizer → ℕ → ℕ
clean_address s address = if s.normalize_thumb then normalize_thumb_address address else address

pub bare_frame : Symbolizer → ℕ → Origin → ResolvedFrame
bare_frame s address origin = record {
  address = clean_address s address;
  origin = origin;
  function = none;
  offset = none;
  source_file = none;
  line = none;
  resolved = false;
  thumb = is_thumb_address address;
  inlined = false;
}

with_location : ResolvedFrame → Option (Text × ℕ) → ResolvedFrame
with_location f none = f
with_location f (some (file, line)) = record f { source_file = some file; line = some line }

with_symbol : Artifact → Symbolizer → ResolvedFrame → Option Symbol → ResolvedFrame × Symbolizer
unfolding resolve_line with_location
with_symbol file s frame none = (frame, s)
with_symbol file s frame (some symbol) =
    let found = resolve_line file s frame.address in
    (
      with_location
          (record frame {
            function = some symbol.name;
            offset = some (frame.address - symbol.address);
            resolved = true;
          })
          found.0,
      found.1,
    )

-- `Symbolizer.resolve`
unfoldable pub resolve : Artifact → Symbolizer → ℕ → Origin → ResolvedFrame × Symbolizer
unfolding with_symbol bare_frame lookup_symbol
resolve file s address origin =
    let frame = bare_frame s address origin in
    with_symbol file s frame (lookup_symbol frame.address s.addresses s.symbols)

-- `resolve_many`
pub resolve_many : Artifact → Symbolizer → List ℕ → Origin → List ResolvedFrame × Symbolizer
unfolding resolve
resolve_many file s [] origin = ([], s)
resolve_many file s (a ∷ as') origin =
    let first = resolve file s a origin in
    let rest = resolve_many file first.1 as' origin in (first.0 ∷ rest.0, rest.1)
