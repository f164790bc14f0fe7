-- ===== src/Parser/Fault.antt =====
-- backend/app/services/crash_parser.py: fault types and severities, with backend/app/models/crash.py.
use diagnosis_system.Prelude.{
  ℕ, ◌+◌, ◌≡◌, refl, ap, ◌∙◌, Bool, true, false, not, ◌&&◌, ◌||◌, Option, none, some, List, [], ◌∷◌,
  ◌++◌, Text, codes, text_eq, strip, after_prefix, leb, ◌==◌, if◌then◌else◌, filter,
}
use diagnosis_system.Parser.Value.{
  Value, Members, Warning, fault_missing, fault_unrecognised, severity_unrecognised, lookup_field,
  to_text, fault_type, exception_type, severity,
}

pub data FaultType : Type 0 where
  hard_fault bus_fault mem_manage_fault usage_fault stack_overflow : FaultType
  watchdog_reset assertion_failed malloc_failed panic unknown : FaultType

pub data CrashSeverity : Type 0 where
  low medium high critical : CrashSeverity

-- `.value`
abbrev pub fault_value : FaultType → Text
fault_value hard_fault = codes "hard_fault"
fault_value bus_fault = codes "bus_fault"
fault_value mem_manage_fault = codes "mem_manage_fault"
fault_value usage_fault = codes "usage_fault"
fault_value stack_overflow = codes "stack_overflow"
fault_value watchdog_reset = codes "watchdog_reset"
fault_value assertion_failed = codes "assertion_failed"
fault_value malloc_failed = codes "malloc_failed"
fault_value panic = codes "panic"
fault_value unknown = codes "unknown"

abbrev pub fault_types : List FaultType
fault_types =
    hard_fault ∷ bus_fault ∷ mem_manage_fault ∷ usage_fault ∷ stack_overflow ∷ watchdog_reset
    ∷ assertion_failed ∷ malloc_failed ∷ panic ∷ unknown ∷ []

-- `str.lower` as far as it gives ASCII: the capitals, the Kelvin sign and the dotted capital I
abbrev pub lower_char : ℕ → Text
lower_char c =
    if leb 65 c && leb c 90
    then (c + 32) ∷ []
    else if c == 0x212a
    then b'k' ∷ []
    else if c == 0x130
    then b'i' ∷ 0x307 ∷ []
    else c ∷ []

abbrev pub lower : Text → Text
lower [] = []
lower (c ∷ cs) = lower_char c ++ lower cs

-- `[a-z0-9]`
abbrev pub is_plain : ℕ → Bool
is_plain c = (leb 97 c && leb c 122) || (leb 48 c && leb c 57)

-- `re.sub(r"[^a-z0-9]", "", value.lower())`
unfoldable pub squash : Text → Text
squash t = filter is_plain (lower t)

-- `value.replace("_", "")`
abbrev pub without_underscores : Text → Text
without_underscores = filter (λ c. not (c == b'_'))

-- `FaultType` by its value without underscores
canonical_among : List FaultType → Text → Option FaultType
canonical_among [] squashed = none
canonical_among (f ∷ fs) squashed = elim (text_eq squashed (without_underscores (fault_value f))) [
  | true ↦ some f
  | false ↦ canonical_among fs squashed
]

-- `_FAULT_PATTERNS`
abbrev fault_patterns : List (Text × FaultType)
fault_patterns =
    (codes "stackoverflow", stack_overflow)
    ∷ (codes "stack_overflow", stack_overflow)
    ∷ (codes "stackovf", stack_overflow)
    ∷ (codes "memmanage", mem_manage_fault)
    ∷ (codes "memfault", mem_manage_fault)
    ∷ (codes "mpu", mem_manage_fault)
    ∷ (codes "busfault", bus_fault)
    ∷ (codes "buserror", bus_fault)
    ∷ (codes "usagefault", usage_fault)
    ∷ (codes "hardfault", hard_fault)
    ∷ (codes "watchdog", watchdog_reset)
    ∷ (codes "wdt", watchdog_reset)
    ∷ (codes "iwdg", watchdog_reset)
    ∷ (codes "assert", assertion_failed)
    ∷ (codes "malloc", malloc_failed)
    ∷ (codes "outofmemory", malloc_failed)
    ∷ (codes "oom", malloc_failed)
    ∷ (codes "heap", malloc_failed)
    ∷ (codes "panic", panic)
    ∷ (codes "abort", panic)
    ∷ []

abbrev begins : Option Text → Bool
begins none = false
begins (some rest) = true

-- `pattern in squashed`, for a pattern that is not empty
abbrev pub occurs_in : Text → Text → Bool
occurs_in pattern [] = false
occurs_in pattern (c ∷ cs) = begins (after_prefix pattern (c ∷ cs)) || occurs_in pattern cs

match_pattern : List (Text × FaultType) → Text → FaultType
match_pattern [] squashed = unknown
match_pattern ((pattern, f) ∷ rest) squashed = elim (occurs_in pattern squashed) [
  | true ↦ f
  | false ↦ match_pattern rest squashed
]

classify_squashed : Text → FaultType
unfolding canonical_among match_pattern
classify_squashed [] = unknown
classify_squashed (c ∷ cs) = elim (canonical_among fault_types (c ∷ cs)) [
  | some f ↦ f
  | none ↦ match_pattern fault_patterns (c ∷ cs)
]

-- `classify_fault`
unfoldable pub classify_fault : Text → FaultType
unfolding classify_squashed squash
classify_fault value = classify_squashed (squash value)

abbrev pub derive_severity : FaultType → CrashSeverity
derive_severity hard_fault = critical
derive_severity mem_manage_fault = critical
derive_severity stack_overflow = critical
derive_severity bus_fault = high
derive_severity usage_fault = high
derive_severity malloc_failed = high
derive_severity watchdog_reset = high
derive_severity panic = high
derive_severity assertion_failed = medium
derive_severity unknown = medium

-- the values of `CrashSeverity`, then the aliases
abbrev severity_words : List (Text × CrashSeverity)
severity_words =
    (codes "low", low)
    ∷ (codes "medium", medium)
    ∷ (codes "high", high)
    ∷ (codes "critical", critical)
    ∷ (codes "info", low)
    ∷ (codes "debug", low)
    ∷ (codes "warn", medium)
    ∷ (codes "warning", medium)
    ∷ (codes "error", high)
    ∷ (codes "err", high)
    ∷ (codes "fatal", critical)
    ∷ (codes "emergency", critical)
    ∷ []

severity_named : List (Text × CrashSeverity) → Text → Option CrashSeverity
severity_named [] word = none
severity_named ((w, s) ∷ rest) word = elim (text_eq word w) [
  | true ↦ some s
  | false ↦ severity_named rest word
]

module _ (render : Value → Text) where
  warn_unknown : FaultType → List Warning
  warn_unknown unknown = fault_unrecognised ∷ []
  warn_unknown _ = []

  fault_of : Option Value → FaultType × List Warning
  unfolding classify_fault warn_unknown to_text
  fault_of none = (unknown, fault_missing ∷ [])
  fault_of (some raw) = let f = classify_fault (to_text render raw) in (f, warn_unknown f)

  or_exception : Members → Option Value → Option Value
  unfolding lookup_field
  or_exception payload none = lookup_field payload exception_type
  or_exception payload (some raw) = some raw

  -- `_parse_fault_type`
  unfoldable pub parse_fault_type : Members → FaultType × List Warning
  unfolding fault_of or_exception
  parse_fault_type payload = fault_of (or_exception payload (lookup_field payload fault_type))

  severity_of : FaultType → Option Value → CrashSeverity × List Warning
  unfolding severity_named to_text strip
  severity_of f none = (derive_severity f, [])
  severity_of f (some raw) =
      elim (severity_named severity_words (lower (strip (to_text render raw)))) [
        | some s ↦ (s, [])
        | none ↦ (derive_severity f, severity_unrecognised ∷ [])
      ]

  -- `_resolve_severity`
  unfoldable pub resolve_severity : Members → FaultType → CrashSeverity × List Warning
  unfolding severity_of
  resolve_severity payload f = severity_of f (lookup_field payload severity)

-- A fault type that a device spells as its value is classified as itself.
classify_fault-fault_value : (f : FaultType) → classify_fault (fault_value f) ≡ f
unfolding classify_fault
classify_fault-fault_value hard_fault = refl
classify_fault-fault_value bus_fault = refl
classify_fault-fault_value mem_manage_fault = refl
classify_fault-fault_value usage_fault = refl
classify_fault-fault_value stack_overflow = refl
classify_fault-fault_value watchdog_reset = refl
classify_fault-fault_value assertion_failed = refl
classify_fault-fault_value malloc_failed = refl
classify_fault-fault_value panic = refl
classify_fault-fault_value unknown = refl

-- A text that is the value of a fault type but for case and for what is not a letter or a digit is
-- classified as that fault type.
pub classify_fault_spelling :
    (f : FaultType) (t : Text) → squash t ≡ squash (fault_value f) → classify_fault t ≡ f
unfolding classify_fault
classify_fault_spelling f t same = ap classify_squashed same ∙ classify_fault-fault_value f
