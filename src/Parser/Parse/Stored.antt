-- ===== src/Parser/Parse/Stored.antt =====
-- What a parsed report holds.
use diagnosis_system.Prelude.{
  ℕ, ◌+◌, ◌≤◌, ◌≡◌, refl, subst, ◌∙◌, Bool-cases, inl, inr, Option, none, some, List, [], ◌∷◌, Text,
  text_eq, codes, length, Option-cases, arith, All,
}
use diagnosis_system.Parser.Value.{
  Value, Members, Field, firmware_version, occurred_at, program_counter, link_register,
  stack_pointer, registers, stack, Warning, lookup_field, optional_text, length-optional_text,
}
use diagnosis_system.Parser.Address.{max_address, parse_address, parse_address_bounds}
use diagnosis_system.Parser.Registers.{Registers}
use diagnosis_system.Parser.StackWords.{StackDump}
use diagnosis_system.Parser.Registers.Canonical.{
  IsEntry, AreRegisters, parse_registers-AreRegisters,
}
use diagnosis_system.Parser.StackWords.Bounds.{IsStorable, parse_stack-IsStorable}
use diagnosis_system.Parser.Timestamp.{
  Clock, Stamp, read, too_far_in_future, overflow_error, max_clock_skew, parse_timestamp,
  parse_timestamp_bound,
}
use diagnosis_system.Parser.Parse.{
  ParsedCrash, parsed, parse_address_field, read_address, warn_address, register_value, fill,
  backfill, fields_of, with_time, with_firmware, parse,
}

abbrev pub IsAddress : Option ℕ → Type 0
IsAddress o = (a : ℕ) → o ≡ some a → a ≤ max_address

-- a record that fits the columns of the table
pub record IsNormal (reference : ℕ) (c : ParsedCrash) : Type 0 where
  pub version : length c.firmware_version ≤ 50
  pub time : c.occurred_at ≤ reference + max_clock_skew
  pub counter : IsAddress c.program_counter
  pub link : IsAddress c.link_register
  pub pointer : IsAddress c.stack_pointer
  pub registers : (rs : Registers) → c.register_dump ≡ some rs → AreRegisters rs
  pub stack : (dump : StackDump) → c.stack_dump ≡ some dump → IsStorable dump

register_value-le :
    (name : Text) (rs : Registers) → All IsEntry rs → IsAddress (register_value name rs)
unfolding register_value
register_value-le name [] h a e = cc
register_value-le name ((n, b) ∷ rest) h a e = elim (Bool-cases (text_eq n name)) [
  | inl same ↦
      let at : b ≡ a = cc (rw (same, register_value) at e) in subst (λ x. x ≤ max_address) at h.0.1
  | inr other ↦ register_value-le name rest h.1 a (rw (other, register_value) at e)
]

fill-le :
    (f : Field) (name : Text) (dump : Option Registers) (value : Option ℕ)
    → ((rs : Registers) → dump ≡ some rs → AreRegisters rs)
    → IsAddress value
    → IsAddress (fill f name dump value).0
unfolding fill
fill-le f name none value h v a e = v a e
fill-le f name (some dump) (some value) h v a e = v a e
fill-le f name (some dump) none h v a e = elim (Option-cases (register_value name dump)) [
  | inl k ↦ cc (rw (k, fill) at e)
  | inr (b, k) ↦ register_value-le name dump (h dump refl).entries a (k ∙ rw (k, fill) at e)
]

backfill-IsNormal :
    (reference : ℕ) (c : ParsedCrash) → IsNormal reference c → IsNormal reference (backfill c)
unfolding backfill
backfill-IsNormal reference c h = record {
  version = h.version;
  time = h.time;
  counter =
      fill-le program_counter (codes "pc") c.register_dump c.program_counter h.registers h.counter;
  link = fill-le link_register (codes "lr") c.register_dump c.link_register h.registers h.link;
  pointer =
      fill-le stack_pointer (codes "sp") c.register_dump c.stack_pointer h.registers h.pointer;
  registers = h.registers;
  stack = h.stack;
}

read_address-le : (f : Field) (o : Option Value) → IsAddress (read_address f o).0
unfolding read_address warn_address
read_address-le f none a e = cc
read_address-le f (some raw) a e = elim (Option-cases (parse_address raw)) [
  | inl k ↦ ground (arith, k)
  | inr (b, k) ↦ parse_address_bounds raw (k ∙ rw (k, warn_address) at e)
]

module _ (render : Value → Text) (clock : Clock) where
  fields_of-IsNormal :
      (reference : ℕ) (payload : Members) (firmware : Text) (time : ℕ) (warnings : List Warning)
      → length firmware ≤ 50
      → time ≤ reference + max_clock_skew
      → IsNormal reference (fields_of render clock payload firmware time warnings)
  unfolding fields_of parse_address_field
  fields_of-IsNormal reference payload firmware time warnings short early = record {
    version = short;
    time = early;
    counter = read_address-le program_counter (lookup_field payload program_counter);
    link = read_address-le link_register (lookup_field payload link_register);
    pointer = read_address-le stack_pointer (lookup_field payload stack_pointer);
    registers = parse_registers-AreRegisters (lookup_field payload registers);
    stack = parse_stack-IsStorable (lookup_field payload stack);
  }

  with_time-IsNormal :
      (reference : ℕ) (payload : Members) (firmware : Text) (s : Stamp × List Warning)
      (c : ParsedCrash)
      → length firmware ≤ 50
      → ((time : ℕ) → s.0 ≡ read time → time ≤ reference + max_clock_skew)
      → with_time render clock payload firmware s ≡ parsed c
      → IsNormal reference c
  unfolding with_time
  with_time-IsNormal reference payload firmware (read time, warnings) c short early h =
      let fields = fields_of render clock payload firmware time warnings in
      let same : backfill fields ≡ c = cc in
      subst (IsNormal reference) same (
        backfill-IsNormal reference fields
          (fields_of-IsNormal reference payload firmware time warnings short (early time refl)))
  with_time-IsNormal reference payload firmware (too_far_in_future, warnings) c short early h = cc
  with_time-IsNormal reference payload firmware (overflow_error, warnings) c short early h = cc

  -- A report that is parsed fits its table: a firmware version of at most 50 characters, a time at
  -- most a day after the receipt, 32-bit addresses, canonical registers and a bounded stack dump.
  pub parse-IsNormal :
      (reference : ℕ) (payload : Members) (c : ParsedCrash)
      → parse render clock reference payload ≡ parsed c
      → IsNormal reference c
  unfolding parse
  parse-IsNormal reference payload c h =
      elim (Option-cases (optional_text render payload firmware_version 50)) [
        | inl e ↦ cc (rw (e, with_firmware) at h)
        | inr (firmware, e) ↦
            with_time-IsNormal reference payload firmware
              (parse_timestamp clock reference (lookup_field payload occurred_at)) c
              (length-optional_text render payload firmware_version 50 e)
              (λ time k. parse_timestamp_bound clock reference (lookup_field payload occurred_at) k)
              (rw (e, with_firmware) at h)
      ]
