-- ===== src/Parser/Registers.antt =====
-- backend/app/services/crash_parser.py: register dumps.
pub mod Canonical
use diagnosis_system.Prelude.{
  ℕ, zero, suc, ◌+◌, ◌*◌, ◌-◌, Bool, true, false, not, ◌&&◌, ◌||◌, Option, none, some, List, [],
  ◌∷◌, ◌++◌, Text, codes, text_eq, strip, is_space, decimal, ltb, leb, ◌==◌, if◌then◌else◌, length,
  take, any, sorted_by, text_before,
}
use diagnosis_system.Parser.Value.{
  Value, Values, null, boolean, integer, float, text, array, object, Members, items, pairs, get,
  Warning, registers_truncated, registers_unexpected, registers_ignored, stack_without_words,
  stack_unexpected, stack_truncated, stack_skipped,
}
use diagnosis_system.Parser.Address.{parse_address}
use diagnosis_system.Parser.Fault.{squash}
use diagnosis_system.Parser.Value.{warn}

abbrev pub max_registers : ℕ
max_registers = 64

-- `_REGISTER_ALIASES.get(cleaned, cleaned)`
alias_from : List (Text × Text) → Text → Text
alias_from [] name = name
alias_from ((alias, canonical) ∷ rest) name = elim (text_eq name alias) [
  | true ↦ canonical
  | false ↦ alias_from rest name
]

abbrev register_aliases : List (Text × Text)
register_aliases =
    (codes "xpsr", codes "psr")
    ∷ (codes "apsr", codes "psr")
    ∷ (codes "ipsr", codes "psr")
    ∷ (codes "epsr", codes "psr")
    ∷ (codes "fp", codes "r11")
    ∷ (codes "ip", codes "r12")
    ∷ (codes "sl", codes "r10")
    ∷ []

abbrev pub special_registers : List Text
special_registers =
    codes "sp"
    ∷ codes "lr"
    ∷ codes "pc"
    ∷ codes "psr"
    ∷ codes "msp"
    ∷ codes "psp"
    ∷ codes "primask"
    ∷ codes "basepri"
    ∷ codes "control"
    ∷ codes "cfsr"
    ∷ codes "hfsr"
    ∷ codes "mmfar"
    ∷ codes "bfar"
    ∷ codes "dfsr"
    ∷ codes "afsr"
    ∷ codes "shcsr"
    ∷ []

abbrev is_digit : ℕ → Bool
is_digit c = leb 48 c && leb c 57

-- the number of `r\d{1,2}`
unfoldable pub register_number : Text → Option ℕ
register_number (r ∷ d ∷ []) = if r == b'r' && is_digit d then some (d - 48) else none
register_number (r ∷ d ∷ e ∷ []) =
    if r == b'r' && is_digit d && is_digit e then some ((d - 48) * 10 + (e - 48)) else none
register_number _ = none

abbrev up_to_15 : Option ℕ → Bool
up_to_15 none = false
up_to_15 (some n) = leb n 15

-- `_REGISTER_NAME`, with the numbers above 15 refused
unfoldable pub is_register : Text → Bool
unfolding register_number
is_register name = any (text_eq name) special_registers || up_to_15 (register_number name)

-- `_canonical_register`
unfoldable pub canonical_register : Text → Option Text
unfolding squash alias_from is_register
canonical_register name =
    let cleaned = alias_from register_aliases (squash name) in
    if is_register cleaned then some cleaned else none

abbrev pub Registers : Type 0
Registers = List (Text × ℕ)

-- `registers[canonical] = address`
unfoldable pub set_register : Text → ℕ → Registers → Registers
set_register name address [] = (name, address) ∷ []
set_register name address ((n, a) ∷ rest) = elim (text_eq n name) [
  | true ↦ (n, address) ∷ rest
  | false ↦ (n, a) ∷ set_register name address rest
]

-- the loop over the pairs: the registers and the entries skipped
unfoldable pub read_registers : List (Text × Value) → Registers → List Text → Registers × List Text
unfolding canonical_register set_register
read_registers [] registers skipped = (registers, skipped)
read_registers ((name, raw) ∷ rest) registers skipped = elim (canonical_register name) [
  | none ↦ read_registers rest registers (skipped ++ (take 20 name ∷ []))
  | some canonical ↦ elim (parse_address raw) [
    | none ↦ read_registers rest registers (skipped ++ (take 20 name ∷ []))
    | some address ↦ read_registers rest (set_register canonical address registers) skipped
  ]
]

key_before : Option ℕ → Text → Option ℕ → Text → Bool
unfolding text_before
key_before (some m) name (some n) name' = leb m n
key_before (some m) name none name' = true
key_before none name (some n) name' = false
key_before none name none name' = text_before name name'

-- `_register_sort_key`, compared
register_order : Text × ℕ → Text × ℕ → Bool
unfolding key_before register_number
register_order (name, a) (name', a') =
    key_before (register_number name) name (register_number name') name'

-- `enumerate(value)`
positional : ℕ → List Value → List (Text × Value)
unfolding decimal
positional index [] = []
positional index (v ∷ vs) = (b'r' ∷ decimal index, v) ∷ positional (index + 1) vs

ignored : List Text → List Warning
ignored [] = []
ignored (t ∷ ts) = registers_ignored (take 8 (sorted_by text_before (t ∷ ts))) ∷ []

sorted_registers : Registers → Option Registers
unfolding register_order
sorted_registers [] = none
sorted_registers (r ∷ rs) = some (sorted_by register_order (r ∷ rs))

registers_of : List (Text × Value) → Option Registers × List Warning
unfolding read_registers ignored sorted_registers
registers_of entries =
    let (registers, skipped) = read_registers entries [] [] in
    (sorted_registers registers, ignored skipped)

registers_of_array : List (Text × Value) → Option Registers × List Warning
unfolding registers_of
registers_of_array entries =
    if ltb max_registers (length entries)
    then warn (registers_truncated (length entries)) (registers_of (take max_registers entries))
    else registers_of entries

-- `_parse_registers`
unfoldable pub parse_registers : Option Value → Option Registers × List Warning
unfolding registers_of registers_of_array positional
parse_registers none = (none, [])
parse_registers (some (object m)) = registers_of (pairs m)
parse_registers (some (array vs)) = registers_of_array (positional 0 (items vs))
parse_registers (some _) = (none, registers_unexpected ∷ [])
