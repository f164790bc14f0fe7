-- ===== src/Parser/Value.antt =====
-- backend/app/services/crash_parser.py: JSON values, the accepted names of a field, and texts.
use diagnosis_system.Prelude.{
  ℕ, suc, ◌≤◌, ◌≡◌, subst, inl, inr, Bool, true, false, Option, none, some, List, [], ◌∷◌, Text,
  codes, text_eq, strip, decimal, length, take, length-take, Option-cases,
}

pub data Integer : Type 0 where
  pos : ℕ → Integer
  negsuc : ℕ → Integer

-- A double: a sign with numerator / 2 ^ scale, or what JSON has no number for.
pub data Float : Type 0 where
  finite : Bool → ℕ → ℕ → Float
  infinite : Bool → Float
  nan : Float

mutual
  pub data Value : Type 0 where
    null : Value
    boolean : Bool → Value
    integer : Integer → Value
    float : Float → Value
    text : Text → Value
    array : Values → Value
    object : Members → Value

  pub data Values : Type 0 where
    no_values : Values
    more_values : Value → Values → Values

  pub data Members : Type 0 where
    no_members : Members
    member : Text → Value → Members → Members

abbrev pub items : Values → List Value
items no_values = []
items (more_values v vs) = v ∷ items vs

-- `value.items()`
abbrev pub pairs : Members → List (Text × Value)
pairs no_members = []
pairs (member key v rest) = (key, v) ∷ pairs rest

-- `key in value`, with `value[key]`
abbrev pub get : Members → Text → Option Value
get no_members key = none
get (member k v rest) key = elim (text_eq k key) [ true ↦ some v | false ↦ get rest key ]

abbrev pub not_null : Option Value → Option Value
not_null none = none
not_null (some null) = none
not_null (some (boolean b)) = some (boolean b)
not_null (some (integer i)) = some (integer i)
not_null (some (float f)) = some (float f)
not_null (some (text t)) = some (text t)
not_null (some (array vs)) = some (array vs)
not_null (some (object m)) = some (object m)

-- `_lookup` with the names of one field
unfoldable pub first_alias : Members → List Text → Option Value
first_alias payload [] = none
first_alias payload (alias ∷ rest) = elim (not_null (get payload alias)) [
  | none ↦ first_alias payload rest
  | some v ↦ some v
]

pub data Field : Type 0 where
  device_identifier firmware_version build_version occurred_at fault_type : Field
  exception_type task_name program_counter link_register stack_pointer : Field
  registers stack severity notes : Field

-- `FIELD_ALIASES`
abbrev pub aliases : Field → List Text
aliases device_identifier =
    codes "device_id"
    ∷ codes "deviceId"
    ∷ codes "device"
    ∷ codes "serial_number"
    ∷ codes "serial"
    ∷ codes "uid"
    ∷ []
aliases firmware_version =
    codes "firmware_version"
    ∷ codes "firmwareVersion"
    ∷ codes "fw_version"
    ∷ codes "fw"
    ∷ codes "version"
    ∷ []
aliases build_version =
    codes "build_version"
    ∷ codes "buildVersion"
    ∷ codes "build"
    ∷ codes "build_id"
    ∷ codes "git_sha"
    ∷ codes "commit"
    ∷ []
aliases occurred_at =
    codes "timestamp"
    ∷ codes "occurred_at"
    ∷ codes "occurredAt"
    ∷ codes "time"
    ∷ codes "ts"
    ∷ codes "crash_time"
    ∷ []
aliases fault_type =
    codes "fault_type"
    ∷ codes "faultType"
    ∷ codes "fault"
    ∷ codes "type"
    ∷ codes "reason"
    ∷ codes "crash_type"
    ∷ []
aliases exception_type =
    codes "exception_type" ∷ codes "exceptionType" ∷ codes "exception" ∷ codes "exc" ∷ []
aliases task_name =
    codes "task_name" ∷ codes "taskName" ∷ codes "task" ∷ codes "thread" ∷ codes "thread_name" ∷ []
aliases program_counter =
    codes "program_counter" ∷ codes "programCounter" ∷ codes "pc" ∷ codes "PC" ∷ []
aliases link_register = codes "link_register" ∷ codes "linkRegister" ∷ codes "lr" ∷ codes "LR" ∷ []
aliases stack_pointer =
    codes "stack_pointer"
    ∷ codes "stackPointer"
    ∷ codes "sp"
    ∷ codes "SP"
    ∷ codes "msp"
    ∷ codes "MSP"
    ∷ []
aliases registers =
    codes "register_dump"
    ∷ codes "registerDump"
    ∷ codes "registers"
    ∷ codes "regs"
    ∷ codes "core_registers"
    ∷ []
aliases stack =
    codes "stack_dump"
    ∷ codes "stackDump"
    ∷ codes "stack"
    ∷ codes "stack_trace"
    ∷ codes "stack_words"
    ∷ []
aliases severity = codes "severity" ∷ codes "level" ∷ codes "priority" ∷ []
aliases notes =
    codes "notes" ∷ codes "note" ∷ codes "message" ∷ codes "detail" ∷ codes "description" ∷ []

-- `_lookup`
unfoldable pub lookup_field : Members → Field → Option Value
unfolding first_alias
lookup_field payload canonical = first_alias payload (aliases canonical)

show_integer : Integer → Text
unfolding decimal
show_integer (pos n) = decimal n
show_integer (negsuc n) = b'-' ∷ decimal (suc n)

-- what the parser says of a report beside its result
pub data Warning : Type 0 where
  timestamp_missing timestamp_unusable timestamp_in_future : Warning
  fault_missing fault_unrecognised severity_unrecognised : Warning
  address_unusable : Field → Warning
  registers_truncated : ℕ → Warning
  registers_unexpected : Warning
  registers_ignored : List Text → Warning
  stack_without_words stack_unexpected : Warning
  stack_truncated stack_skipped : ℕ → Warning
  taken_from_registers : Field → Warning

-- a result with one more warning before the others
abbrev pub warn : {A : Type 0} → Warning → Option A × List Warning → Option A × List Warning
warn w (result, warnings) = (result, w ∷ warnings)

-- `render` is `str` on a float, a list or a dictionary
module _ (render : Value → Text) where
  -- `str(value)`
  unfoldable pub to_text : Value → Text
  unfolding show_integer
  to_text null = codes "None"
  to_text (boolean true) = codes "True"
  to_text (boolean false) = codes "False"
  to_text (integer i) = show_integer i
  to_text (text t) = t
  to_text (float f) = render (float f)
  to_text (array vs) = render (array vs)
  to_text (object m) = render (object m)

  -- `text[:max_length]`, unless it is empty
  shorten : ℕ → Text → Option Text
  shorten max_length [] = none
  shorten max_length (c ∷ cs) = some (take max_length (c ∷ cs))

  text_of : ℕ → Option Value → Option Text
  unfolding shorten to_text strip
  text_of max_length none = none
  text_of max_length (some v) = shorten max_length (strip (to_text v))

  -- `_optional_text`
  unfoldable pub optional_text : Members → Field → ℕ → Option Text
  unfolding text_of lookup_field
  optional_text payload canonical max_length = text_of max_length (lookup_field payload canonical)

  shorten-length : (n : ℕ) (t : Text) {s : Text} → shorten n t ≡ some s → length s ≤ n
  unfolding shorten
  shorten-length n [] h = cc
  shorten-length n (c ∷ cs) {s} h =
      let same : take n (c ∷ cs) ≡ s = cc in subst (λ x. length x ≤ n) same (length-take n (c ∷ cs))

  -- A text field of a report is not longer than its column.
  pub length-optional_text :
      (payload : Members) (canonical : Field) (max_length : ℕ) {s : Text}
      → optional_text payload canonical max_length ≡ some s
      → length s ≤ max_length
  unfolding optional_text
  length-optional_text payload canonical n {s} h =
      elim (Option-cases (lookup_field payload canonical)) [
        | inl e ↦ cc (rw (e, text_of) at h)
        | inr (v, e) ↦ shorten-length n (strip (to_text v)) (rw (e, text_of) at h)
      ]
