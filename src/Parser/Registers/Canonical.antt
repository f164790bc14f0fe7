-- ===== src/Parser/Registers/Canonical.antt =====
-- What `_parse_registers` stores.
use diagnosis_system.Prelude.{
  ℕ, ◌≤◌, ◌≡◌, ◌≢◌, sym, subst, true, false, inl, inr, Option, none, some, List, [], ◌∷◌, Text,
  text_eq, text_eq_iff, length, take, ltb, if◌then◌else◌, Bool-cases, Option-cases, All, Pairwise,
  sorted_by, sorted_by-All, sorted_by-Pairwise,
}
use diagnosis_system.Parser.Value.{
  Value, null, boolean, integer, float, text, array, object, items, pairs,
}
use diagnosis_system.Parser.Address.{parse_address, parse_address_bounds, max_address}
use diagnosis_system.Parser.Fault.{squash}
use diagnosis_system.Parser.Registers.{
  Registers, is_register, alias_from, register_aliases, canonical_register, set_register,
  read_registers, register_order, sorted_registers, registers_of, registers_of_array,
  parse_registers, max_registers, positional,
}

-- a register with a canonical name and a 32-bit value
abbrev pub IsEntry : Text × ℕ → Type 0
IsEntry (name, value) = (is_register name ≡ true) × (value ≤ max_address)

abbrev Apart : Text × ℕ → Text × ℕ → Type 0
Apart p q = text_eq p.0 q.0 ≡ false

pub record AreRegisters (registers : Registers) : Type 0 where
  pub entries : All IsEntry registers
  pub apart : Pairwise (λ p q. p.0 ≢ q.0) registers

kept :
    (t : Text) {c : Text} → (if is_register t then some t else none) ≡ some c → is_register c ≡ true
kept t {c} h = elim (Bool-cases (is_register t)) [
  | inl e ↦ let same : t ≡ c = cc (rw e at h) in subst (λ x. is_register x ≡ true) same e
  | inr e ↦ cc (rw e at h)
]

canonical_register-is :
    (name : Text) {c : Text} → canonical_register name ≡ some c → is_register c ≡ true
unfolding canonical_register
canonical_register-is name {c} h = kept (alias_from register_aliases (squash name)) h

set_register-All :
    (name : Text) (address : ℕ) (rs : Registers)
    → IsEntry (name, address)
    → All IsEntry rs
    → All IsEntry (set_register name address rs)
unfolding set_register
set_register-All name address [] e h = (e, tt)
set_register-All name address ((n, a) ∷ rest) e h = elim (Bool-cases (text_eq n name)) [
  | inl same ↦ rw (same, set_register) ((h.0.0, e.1), h.1)
  | inr other ↦ rw (other, set_register) (h.0, set_register-All name address rest e h.1)
]

-- a new name that differs from `n` leaves `n` apart from the rest
set_register-apart :
    (n name : Text) (address : ℕ) (rs : Registers)
    → n ≢ name
    → All (λ (q : Text × ℕ). n ≢ q.0) rs
    → All (λ (q : Text × ℕ). n ≢ q.0) (set_register name address rs)
unfolding set_register
set_register-apart n name address [] ne h = (ne, tt)
set_register-apart n name address ((m, a) ∷ rest) ne h = elim (Bool-cases (text_eq m name)) [
  | inl same ↦ rw (same, set_register) (h.0, h.1)
  | inr other ↦ rw (other, set_register) (h.0, set_register-apart n name address rest ne h.1)
]

set_register-Pairwise :
    (name : Text) (address : ℕ) (rs : Registers)
    → Pairwise (λ p q. p.0 ≢ q.0) rs
    → Pairwise (λ p q. p.0 ≢ q.0) (set_register name address rs)
unfolding set_register
set_register-Pairwise name address [] h = (tt, tt)
set_register-Pairwise name address ((n, a) ∷ rest) h = elim (Bool-cases (text_eq n name)) [
  | inl same ↦ rw (same, set_register) (h.0, h.1)
  | inr other ↦
      let ne : n ≢ name = λ e. cc ((text_eq_iff n name).1 e, other) in
      rw (other, set_register)
        (set_register-apart n name address rest ne h.0, set_register-Pairwise name address rest h.1)
]

set_register-AreRegisters :
    (name : Text) (address : ℕ) (rs : Registers)
    → IsEntry (name, address)
    → AreRegisters rs
    → AreRegisters (set_register name address rs)
set_register-AreRegisters name address rs e h = record {
  entries = set_register-All name address rs e h.entries;
  apart = set_register-Pairwise name address rs h.apart;
}

read_registers-AreRegisters :
    (entries : List (Text × Value)) (rs : Registers) (skipped : List Text)
    → AreRegisters rs
    → AreRegisters (read_registers entries rs skipped).0
unfolding read_registers
read_registers-AreRegisters [] rs skipped h = h
read_registers-AreRegisters ((name, raw) ∷ rest) rs skipped h =
    elim (Option-cases (canonical_register name)) [
      | inl e ↦ rw (e, read_registers) (read_registers-AreRegisters rest rs _ h)
      | inr (c, e) ↦ elim (Option-cases (parse_address raw)) [
        | inl f ↦ rw (e, f, read_registers) (read_registers-AreRegisters rest rs _ h)
        | inr (a, f) ↦
            rw (e, f, read_registers)
              (read_registers-AreRegisters rest (set_register c a rs) skipped (
                set_register-AreRegisters c a rs
                  (canonical_register-is name e, parse_address_bounds raw f) h))
      ]
    ]

abbrev Stored : Option Registers → Type 0
Stored o = (registers : Registers) → o ≡ some registers → AreRegisters registers

nothing : Stored none
nothing registers e = cc

sorted_registers-Stored : (rs : Registers) → AreRegisters rs → Stored (sorted_registers rs)
unfolding sorted_registers
sorted_registers-Stored [] h registers e = cc
sorted_registers-Stored (r ∷ rs) h registers e =
    let same : sorted_by register_order (r ∷ rs) ≡ registers = cc in
    subst AreRegisters same (record {
      entries = sorted_by-All register_order IsEntry (r ∷ rs) h.entries;
      apart =
          sorted_by-Pairwise register_order (λ p q. p.0 ≢ q.0) (r ∷ rs)
            (λ p q ne back. ne (sym back)) h.apart;
    })

registers_of-Stored : (entries : List (Text × Value)) → Stored (registers_of entries).0
unfolding registers_of
registers_of-Stored entries =
    sorted_registers-Stored (read_registers entries [] []).0
      (read_registers-AreRegisters entries [] [] (record { entries = tt; apart = tt }))

registers_of_array-Stored : (entries : List (Text × Value)) → Stored (registers_of_array entries).0
unfolding registers_of_array
registers_of_array-Stored entries = elim (Bool-cases (ltb max_registers (length entries))) [
  | inl e ↦ rw e (registers_of-Stored (take max_registers entries))
  | inr e ↦ rw e (registers_of-Stored entries)
]

-- A register dump that is stored names registers of the processor by their canonical names, each
-- once, with 32-bit values.
pub parse_registers-AreRegisters :
    (o : Option Value) (registers : Registers)
    → (parse_registers o).0 ≡ some registers
    → AreRegisters registers
unfolding parse_registers
parse_registers-AreRegisters none = nothing
parse_registers-AreRegisters (some null) = nothing
parse_registers-AreRegisters (some (boolean b)) = nothing
parse_registers-AreRegisters (some (integer i)) = nothing
parse_registers-AreRegisters (some (float f)) = nothing
parse_registers-AreRegisters (some (text t)) = nothing
parse_registers-AreRegisters (some (array vs)) = registers_of_array-Stored (positional 0 (items vs))
parse_registers-AreRegisters (some (object m)) = registers_of-Stored (pairs m)
