-- ===== src/Symbolizer/Caching.antt =====
-- The line table is a cache: whether it has been built does not show in any frame.
use diagnosis_system.Prelude.{
  ℕ, ◌≡◌, refl, ap, ◌∙◌, Bool, false, Option, none, some, List, [], ◌∷◌, map, arith, if◌then◌else◌,
}
use diagnosis_system.Symbols.{Symbol, lookup_symbol, is_thumb_address}
use diagnosis_system.Symbolizer.{
  Artifact, LineTable, Symbolizer, new, Origin, ResolvedFrame, bare_frame, with_symbol,
  with_location, clean_address, resolve_line, dwarf_table, loaded, resolve, resolve_many,
}

pub available : Artifact → Option LineTable
unfolding loaded
available file = if file.is_file then loaded file.contents else none

-- The cache holds what the artifact gives once it has been asked for, and nothing before.
pub record IsReady (file : Artifact) (s : Symbolizer) : Type 0 where
  pub cached : s.line_lookup ≡ (if s.dwarf_attempted then available file else none)

-- the symbolizer as it was made
abbrev pub fresh : Symbolizer → Symbolizer
fresh s = record s { line_lookup = none; dwarf_attempted = false }

-- the frame that a symbolizer just made gives
abbrev pub frame_of : Artifact → Symbolizer → Origin → ℕ → ResolvedFrame
frame_of file s origin address = (resolve file (fresh s) address origin).0

pub new-IsReady :
    (file : Artifact) (symbols : List Symbol) (n : Bool) → IsReady file (new symbols n)
unfolding new
new-IsReady file symbols n = record { cached = refl }

dwarf_table-available :
    (file : Artifact) (s : Symbolizer) → IsReady file s → (dwarf_table file s).0 ≡ available file
unfolding dwarf_table available
dwarf_table-available file s h = ground arith

dwarf_table-IsReady :
    (file : Artifact) (s : Symbolizer) → IsReady file s → IsReady file (dwarf_table file s).1
unfolding dwarf_table available
dwarf_table-IsReady file s h = ground arith

fresh-dwarf_table : (file : Artifact) (s : Symbolizer) → fresh (dwarf_table file s).1 ≡ fresh s
unfolding dwarf_table
fresh-dwarf_table file s = ground arith

module _ (file : Artifact) (s : Symbolizer) (ready : IsReady file s) where
  with_symbol-fresh :
      (f : ResolvedFrame) (o : Option Symbol)
      → (with_symbol file s f o).0 ≡ (with_symbol file (fresh s) f o).0
  unfolding with_symbol resolve_line
  with_symbol-fresh f none = refl
  with_symbol-fresh f (some symbol) = rw (
    dwarf_table-available file s ready,
    dwarf_table-available file (fresh s) (record { cached = refl }),
  )

  with_symbol-IsReady :
      (f : ResolvedFrame) (o : Option Symbol) → IsReady file (with_symbol file s f o).1
  unfolding with_symbol resolve_line
  with_symbol-IsReady f none = ready
  with_symbol-IsReady f (some symbol) = dwarf_table-IsReady file s ready

  fresh-with_symbol :
      (f : ResolvedFrame) (o : Option Symbol) → fresh (with_symbol file s f o).1 ≡ fresh s
  unfolding with_symbol resolve_line
  fresh-with_symbol f none = refl
  fresh-with_symbol f (some symbol) = fresh-dwarf_table file s

  pub resolve_fresh : (a : ℕ) (o : Origin) → (resolve file s a o).0 ≡ frame_of file s o a
  unfolding resolve bare_frame
  resolve_fresh a o =
      with_symbol-fresh (bare_frame s a o)
        (lookup_symbol (bare_frame s a o).address s.addresses s.symbols)

  pub resolve-IsReady : (a : ℕ) (o : Origin) → IsReady file (resolve file s a o).1
  unfolding resolve
  resolve-IsReady a o =
      with_symbol-IsReady (bare_frame s a o)
        (lookup_symbol (bare_frame s a o).address s.addresses s.symbols)

  pub fresh-resolve : (a : ℕ) (o : Origin) → fresh (resolve file s a o).1 ≡ fresh s
  unfolding resolve
  fresh-resolve a o =
      fresh-with_symbol (bare_frame s a o)
        (lookup_symbol (bare_frame s a o).address s.addresses s.symbols)

-- Resolving a list of addresses, with the line table built on the way, gives for each address the
-- frame that a symbolizer just made would give for it alone.
pub resolve_many_lem :
    (file : Artifact) (s : Symbolizer) (as' : List ℕ) (o : Origin)
    → IsReady file s
    → (resolve_many file s as' o).0 ≡ map (frame_of file s o) as'
unfolding resolve_many
resolve_many_lem file s [] o h = refl
resolve_many_lem file s (a ∷ as') o h =
    let next = (resolve file s a o).1 in
    let later = resolve_many_lem file next as' o (resolve-IsReady file s h a o) in
    let same =
      ap (λ (t : Symbolizer). map (λ x. (resolve file t x o).0) as') (fresh-resolve file s h a o) in
    cc (resolve_fresh file s h a o, later ∙ same)

pub address-resolve :
    (file : Artifact) (s : Symbolizer) (a : ℕ) (o : Origin)
    → (resolve file s a o).0.address ≡ clean_address s a
unfolding resolve with_symbol bare_frame with_location
address-resolve file s a o = ground arith

pub origin-resolve :
    (file : Artifact) (s : Symbolizer) (a : ℕ) (o : Origin) → (resolve file s a o).0.origin ≡ o
unfolding resolve with_symbol bare_frame with_location
origin-resolve file s a o = ground arith

pub thumb-resolve :
    (file : Artifact) (s : Symbolizer) (a : ℕ) (o : Origin)
    → (resolve file s a o).0.thumb ≡ is_thumb_address a
unfolding resolve with_symbol bare_frame with_location
thumb-resolve file s a o = ground arith
