-- ===== src/Parser/Parse.antt =====
-- backend/app/services/crash_parser.py: `CrashParser.parse` and `_backfill_from_registers`.
pub mod Backfill
pub mod Stored
use diagnosis_system.Prelude.{
  ℕ, ◌+◌, Bool, true, false, Option, none, some, List, [], ◌∷◌, ◌++◌, Text, codes, text_eq,
  if◌then◌else◌,
}
use diagnosis_system.Parser.Value.{
  Value, Members, Field, device_identifier, firmware_version, build_version, occurred_at,
  exception_type, task_name, program_counter, link_register, stack_pointer, registers, stack, notes,
  Warning, address_unusable, taken_from_registers, lookup_field, optional_text,
}
use diagnosis_system.Parser.Address.{parse_address}
use diagnosis_system.Parser.Fault.{FaultType, CrashSeverity, parse_fault_type, resolve_severity}
use diagnosis_system.Parser.Registers.{Registers, parse_registers}
use diagnosis_system.Parser.StackWords.{StackDump, parse_stack}
use diagnosis_system.Parser.Timestamp.{
  Clock, Stamp, read, too_far_in_future, overflow_error, parse_timestamp,
}

pub record ParsedCrash : Type 0 where
  pub device_identifier : Option Text
  pub firmware_version : Text
  pub occurred_at : ℕ
  pub fault_type : FaultType
  pub severity : CrashSeverity
  pub build_version : Option Text
  pub exception_type : Option Text
  pub task_name : Option Text
  pub program_counter : Option ℕ
  pub link_register : Option ℕ
  pub stack_pointer : Option ℕ
  pub register_dump : Option Registers
  pub stack_dump : Option StackDump
  pub notes : Option Text
  pub warnings : List Warning

-- what `parse` gives or raises
pub data Parsed : Type 0 where
  parsed : ParsedCrash → Parsed
  field_required : Field → Parsed
  clock_error overflow : Parsed

-- `_parse_address_field`
warn_address : Field → Option ℕ → Option ℕ × List Warning
warn_address canonical none = (none, address_unusable canonical ∷ [])
warn_address canonical (some address) = (some address, [])

read_address : Field → Option Value → Option ℕ × List Warning
unfolding warn_address
read_address canonical none = (none, [])
read_address canonical (some raw) = warn_address canonical (parse_address raw)

unfoldable pub parse_address_field : Members → Field → Option ℕ × List Warning
unfolding read_address
parse_address_field payload canonical = read_address canonical (lookup_field payload canonical)

-- `parsed.register_dump[register]`
unfoldable pub register_value : Text → Registers → Option ℕ
register_value name [] = none
register_value name ((n, a) ∷ rest) = elim (text_eq n name) [
  | true ↦ some a
  | false ↦ register_value name rest
]

-- the register that stands in for a field of `_backfill_from_registers`
unfoldable pub fill : Field → Text → Option Registers → Option ℕ → Option ℕ × List Warning
fill canonical name none value = (value, [])
fill canonical name (some dump) (some value) = (some value, [])
fill canonical name (some dump) none = elim (register_value name dump) [
  | none ↦ (none, [])
  | some a ↦ (some a, taken_from_registers canonical ∷ [])
]

-- `_backfill_from_registers`; an empty register dump is stored as `None`
unfoldable pub backfill : ParsedCrash → ParsedCrash
unfolding fill
backfill c =
    let (pc, w1) = fill program_counter (codes "pc") c.register_dump c.program_counter in
    let (lr, w2) = fill link_register (codes "lr") c.register_dump c.link_register in
    let (sp, w3) = fill stack_pointer (codes "sp") c.register_dump c.stack_pointer in
    record c {
      program_counter = pc;
      link_register = lr;
      stack_pointer = sp;
      warnings = c.warnings ++ (w1 ++ (w2 ++ w3));
    }

module _ (render : Value → Text) (clock : Clock) where
  -- the record before it is completed
  unfoldable pub fields_of : Members → Text → ℕ → List Warning → ParsedCrash
  unfolding optional_text parse_fault_type resolve_severity parse_address_field parse_registers
      parse_stack
  fields_of payload firmware time warnings =
      let (fault, w1) = parse_fault_type render payload in
      let (severity, w2) = resolve_severity render payload fault in
      let (pc, w3) = parse_address_field payload program_counter in
      let (lr, w4) = parse_address_field payload link_register in
      let (sp, w5) = parse_address_field payload stack_pointer in
      let (register_dump, w6) = parse_registers (lookup_field payload registers) in
      let (stack_dump, w7) = parse_stack (lookup_field payload stack) in
      record {
        device_identifier = optional_text render payload device_identifier 64;
        firmware_version = firmware;
        occurred_at = time;
        fault_type = fault;
        severity = severity;
        build_version = optional_text render payload build_version 100;
        exception_type = optional_text render payload exception_type 100;
        task_name = optional_text render payload task_name 100;
        program_counter = pc;
        link_register = lr;
        stack_pointer = sp;
        register_dump = register_dump;
        stack_dump = stack_dump;
        notes = optional_text render payload notes 5000;
        warnings = warnings ++ (w1 ++ (w2 ++ (w3 ++ (w4 ++ (w5 ++ (w6 ++ w7))))));
      }

  with_time : Members → Text → Stamp × List Warning → Parsed
  unfolding fields_of backfill
  with_time payload firmware (read time, warnings) =
      parsed (backfill (fields_of payload firmware time warnings))
  with_time payload firmware (too_far_in_future, warnings) = clock_error
  with_time payload firmware (overflow_error, warnings) = overflow

  with_firmware : ℕ → Members → Option Text → Parsed
  unfolding with_time
  with_firmware reference payload none = field_required firmware_version
  with_firmware reference payload (some firmware) =
      with_time payload firmware
        (parse_timestamp clock reference (lookup_field payload occurred_at))

  -- `parse` of a JSON object; `reference` is `now`
  unfoldable pub parse : ℕ → Members → Parsed
  unfolding with_firmware
  parse reference payload =
      with_firmware reference payload (optional_text render payload firmware_version 50)
