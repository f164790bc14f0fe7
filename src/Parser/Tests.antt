-- ===== src/Parser/Tests.antt =====
-- Runs of backend/app/services/crash_parser.py on a small payload.
use diagnosis_system.Prelude.{
  ◌≡◌, refl, false, Option, none, some, [], ◌∷◌, Text, codes, arith, is_space, sorted_by,
}
use diagnosis_system.Parser.Value.{
  Value, integer, pos, text, array, more_values, no_values, object, Members, member, no_members,
  finite, timestamp_missing, first_alias, lookup_field, optional_text, to_text,
}
use diagnosis_system.Parser.Address.{parse_address}
use diagnosis_system.Parser.Address.RoundTrip.{address_hex, parse_address-address_hex}
use diagnosis_system.Parser.Fault.{squash}
use diagnosis_system.Parser.Registers.{
  parse_registers, read_registers, canonical_register, is_register, register_number, set_register,
}
use diagnosis_system.Parser.StackWords.{parse_stack, read_words}
use diagnosis_system.Parser.Timestamp.{Clock, read, parse_timestamp}
use diagnosis_system.Parser.Parse.{ParsedCrash, parsed, parse, fields_of, backfill}
use diagnosis_system.Parser.Parse.Stored.{IsNormal, parse-IsNormal}

abbrev clock : Clock
clock = record {
  fromisoformat = λ t. none;
  to_float = λ t. none;
  int_to_float = λ i. none;
  thousandth = λ f. f;
  fromtimestamp = λ f. some 5;
}

abbrev render : Value → Text
render v = codes "?"

parse_address-address_hex_example : parse_address (text (address_hex 0x0800abcd)) ≡ some 0x0800abcd
parse_address-address_hex_example = parse_address-address_hex 0x0800abcd (ground arith)

abbrev dump : Option Value
dump = some (
    object (
      member (codes "PC") (integer (pos 0x8010))
        (member (codes "R1") (integer (pos 7)) no_members)))

stored_registers : (parse_registers dump).0 ≡ some ((codes "r1", 7) ∷ (codes "pc", 0x8010) ∷ [])
unfolding parse_registers read_registers canonical_register is_register register_number set_register
    squash parse_address sorted_by
stored_registers = refl

abbrev words : Option Value
words = some (array (more_values (integer (pos 3)) (more_values (text []) no_values)))

stored_words : (parse_stack words).0 ≡ some (record { start_address = none; words = 3 ∷ [] })
unfolding parse_stack read_words parse_address
stored_words = refl

stamp : (parse_timestamp clock 100 (some (Value.float (finite false 5 0)))).0 ≡ read 5
unfolding parse_timestamp
stamp = refl

abbrev payload : Members
payload = member (codes "fw") (text (codes "1.2")) no_members

abbrev crash : ParsedCrash
crash = backfill (fields_of render clock payload (codes "1.2") 100 (timestamp_missing ∷ []))

parsed_payload : parse render clock 100 payload ≡ parsed crash
unfolding parse optional_text lookup_field first_alias to_text parse_timestamp is_space
parsed_payload = refl

parse-IsNormal_example : IsNormal 100 crash
parse-IsNormal_example = parse-IsNormal render clock 100 payload crash parsed_payload
