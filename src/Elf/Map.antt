-- ===== src/Elf/Map.antt =====
-- `MapParser`: the symbols of a map file of GNU ld.
pub mod Tiled
use diagnosis_system.Prelude.{
  ℕ, zero, suc, ◌+◌, ◌-◌, ◌*◌, Bool, true, false, not, ◌&&◌, ◌||◌, Option, none, some, List, [],
  ◌∷◌, ◌++◌, map, Text, is_space, lstrip, rstrip, length, sorted_by, any, ltb, leb, ◌==◌,
  if◌then◌else◌,
}
use diagnosis_system.Errors.{Outcome, ok, raised, elf_parse_error}
use diagnosis_system.Parser.Address.{hex_value}
use diagnosis_system.Symbols.{Symbol, func, normalize_thumb_address}
use diagnosis_system.Elf.{ElfInfo, map_file, no_line_information, sizes_inferred}

-- where `str.splitlines` ends a line
is_line_end : ℕ → Bool
is_line_end c =
    (leb 10 c && leb c 13) || (leb 28 c && leb c 30) || c == 0x85 || c == 0x2028 || c == 0x2029

closed : Text → List Text
closed [] = []
closed (c ∷ cs) = (c ∷ cs) ∷ []

-- the lines, with the current one; `after_return` is behind a carriage return that ended a line
split_from : Bool → Text → Text → List Text
unfolding is_line_end closed
split_from after_return line [] = closed line
split_from after_return line (c ∷ cs) = elim (is_line_end c) [
  | true ↦ elim (after_return && c == 10) [
    | true ↦ split_from false line cs
    | false ↦ line ∷ split_from (c == 13) [] cs
  ]
  | false ↦ split_from false (line ++ (c ∷ [])) cs
]

-- `str.splitlines`
unfoldable pub splitlines : Text → List Text
unfolding split_from
splitlines t = split_from false [] t

-- digits to base 16 at the start of a text, and what follows them
hex_run : Text → List ℕ × Text
unfolding hex_value
hex_run [] = ([], [])
hex_run (c ∷ cs) = elim (hex_value c) [
  | none ↦ ([], c ∷ cs)
  | some d ↦ (d ∷ (hex_run cs).0, (hex_run cs).1)
]

-- `int(digits, 16)`
number_of : ℕ → List ℕ → ℕ
number_of n [] = n
number_of n (d ∷ ds) = number_of (n * 16 + d) ds

begins_with_space : Text → Bool
unfolding is_space
begins_with_space [] = false
begins_with_space (c ∷ cs) = is_space c

-- `[A-Za-z_.$]`
is_name_start : ℕ → Bool
is_name_start c =
    (leb 65 c && leb c 90) || (leb 97 c && leb c 122) || c == b'_' || c == b'.' || c == b'$'

no_others : (ℕ → Bool) → Text → Bool
no_others p t = not (any (λ c. not (p c)) t)

-- `collected.setdefault`
set_default : ℕ → Text → List (ℕ × Text) → List (ℕ × Text)
set_default address name [] = (address, name) ∷ []
set_default address name ((a, n) ∷ rest) =
    if a == address then (a, n) ∷ rest else (a, n) ∷ set_default address name rest

collect_match : Option (ℕ × Text) → List (ℕ × Text) → List (ℕ × Text)
unfolding set_default
collect_match none collected = collected
collect_match (some (raw, name)) collected =
    let address = normalize_thumb_address raw in
    if address == 0 then collected else set_default address name collected

abbrev pub earlier : ℕ × Text → ℕ × Text → Bool
earlier a b = leb a.0 b.0

abbrev size_to : ℕ → List (ℕ × Text) → ℕ
size_to address [] = 0
size_to address ((next, n) ∷ rest) = next - address

-- the symbols of the sorted addresses, each up to the next
unfoldable pub sized : List (ℕ × Text) → List Symbol
sized [] = []
sized ((address, name) ∷ rest) =
    record { name = name; address = address; size = size_to address rest; kind = func } ∷ sized rest

finish : List Symbol → Outcome ElfInfo
finish [] = raised elf_parse_error
finish (s ∷ ss) = ok (record {
  kind = map_file;
  arch = none;
  entry_point = none;
  has_dwarf = false;
  build_id = none;
  symbols = s ∷ ss;
  sections = [];
  warnings = no_line_information ∷ sizes_inferred ∷ [];
})

-- `alphanumeric` is `str.isalnum` of a character past ASCII, on which `\w` rests
module _ (alphanumeric : ℕ → Bool) where
  -- `[\w.$]`
  is_name_char : ℕ → Bool
  unfolding is_name_start
  is_name_char c = is_name_start c || (leb 48 c && leb c 57) || (leb 128 c && alphanumeric c)

  -- the name, which only spaces may follow
  name_in : Text → Option Text
  unfolding is_name_char no_others
  name_in [] = none
  name_in (c ∷ cs) = if is_name_start c && no_others is_name_char cs then some (c ∷ cs) else none

  found : Text → List ℕ × Text → Option (ℕ × Text)
  unfolding name_in begins_with_space number_of lstrip rstrip
  found line (digits, rest) =
      if leb 8 (length digits) && leb (length digits) 16 && begins_with_space rest
      then elim (name_in (rstrip (lstrip rest))) [
        | none ↦ none
        | some name ↦ some (number_of 0 digits, name)
      ]
      else none

  -- what follows `0x`
  hexadecimal : Text → Option Text
  hexadecimal [] = none
  hexadecimal (z ∷ []) = none
  hexadecimal (z ∷ x ∷ cs) = if z == b'0' && x == b'x' then some cs else none

  -- `_MAP_SYMBOL.match`
  unfoldable pub match_line : Text → Option (ℕ × Text)
  unfolding found hexadecimal hex_run
  match_line line =
      if begins_with_space line
      then elim (hexadecimal (lstrip line)) [ none ↦ none | some cs ↦ found line (hex_run cs) ]
      else none

  collect : List (ℕ × Text) → List Text → List (ℕ × Text)
  unfolding collect_match match_line
  collect collected [] = collected
  collect collected (line ∷ rest) = collect (collect_match (match_line line) collected) rest

  -- `parse_text`
  unfoldable pub parse_text : Text → Outcome ElfInfo
  unfolding finish collect sized
  parse_text text = finish (sized (sorted_by earlier (collect [] (splitlines text))))
