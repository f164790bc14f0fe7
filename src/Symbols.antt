-- ===== src/Symbols.antt =====
-- backend/app/services/elf_parser.py: symbols and section ranges, the Thumb bit, and the sorted
-- index that an address is looked up in. Addresses are natural numbers.
pub mod Lookup
mod Tests
use diagnosis_system.Prelude.{
  ℕ, zero, suc, ◌+◌, ◌*◌, ◌/◌, ◌%◌, Bool, ◌&&◌, ◌||◌, Option, none, some, List, [], ◌∷◌, map, Text,
  ltb, leb, ◌==◌, if◌then◌else◌, get_elem?, sorted_by, bisect_right,
}

-- `symbol.kind` is "func" or "object"
pub data SymbolKind : Type 0 where
  func object : SymbolKind

pub record Symbol : Type 0 where
  pub name : Text
  pub address : ℕ
  pub size : ℕ
  pub kind : SymbolKind

abbrev pub min_symbol_size : ℕ
min_symbol_size = 1

-- `max(self.size, MIN_SYMBOL_SIZE)`
abbrev pub end_address : Symbol → ℕ
end_address s = s.address + (if ltb s.size min_symbol_size then min_symbol_size else s.size)

abbrev pub contains : Symbol → ℕ → Bool
contains s a = leb s.address a && ltb a (end_address s)

pub record SectionRange : Type 0 where
  pub name : Text
  pub start : ℕ
  pub size : ℕ
  pub executable : Bool

-- `SectionRange.contains`
abbrev pub section_contains : SectionRange → ℕ → Bool
section_contains s a = leb s.start a && ltb a (s.start + s.size)

-- `address & ~1`
abbrev pub normalize_thumb_address : ℕ → ℕ
normalize_thumb_address a = a / 2 * 2

-- `bool(address & 1)`
abbrev pub is_thumb_address : ℕ → Bool
is_thumb_address a = a % 2 == 1

-- the comparison of the keys `(symbol.address, -symbol.size)`
abbrev pub index_order : Symbol → Symbol → Bool
index_order s t = ltb s.address t.address || (s.address == t.address && leb t.size s.size)

unfoldable pub build_address_index : List Symbol → List ℕ × List Symbol
unfolding sorted_by
build_address_index symbols =
    let ordered = sorted_by index_order symbols in (map (λ s. s.address) ordered, ordered)

-- the candidate `symbols[index]`; an index past the end does not occur
covering : ℕ → Option Symbol → Option Symbol
covering address none = none
covering address (some candidate) = if contains candidate address then some candidate else none

-- `index = found - 1`, and the test `index < 0`
candidate_at : ℕ → List Symbol → ℕ → Option Symbol
candidate_at address symbols zero = none
candidate_at address symbols (suc index) = covering address (get_elem? symbols index)

unfoldable pub lookup_symbol : ℕ → List ℕ → List Symbol → Option Symbol
unfolding covering candidate_at bisect_right
lookup_symbol address [] symbols = none
lookup_symbol address (a ∷ addresses) symbols =
    candidate_at address symbols (bisect_right (a ∷ addresses) address)
