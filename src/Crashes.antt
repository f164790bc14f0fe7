-- ===== src/Crashes.antt =====
-- backend/app/services/crash.py: crash reports are received and triaged. The id of a new report is
-- drawn outside, and the clock is read once.
pub mod Received
pub mod Triage
pub mod Refused
mod Tests
use diagnosis_system.Prelude.{
  ℕ, ◌+◌, Bool, true, false, not, Option, none, some, List, [], ◌∷◌, ◌++◌, map, Text, codes, length,
  take, sorted_by, text_before, filter, ◌==◌,
}
use diagnosis_system.Errors.{
  Outcome, ok, raised, AppError, not_found, validation_error, crash_parse_error, arithmetic_error,
}
use diagnosis_system.Audit.{
  AuditLog, RequestContext, entry_by, crash_received, crash_rejected, crash_updated, crash_deleted,
  Rejection, unparsable, identifier_missing, unknown_device, of_rejection, of_crash, deleted_crash,
  triaged_fields,
}
use diagnosis_system.Tables.{update_where, required, nullable}
use diagnosis_system.Auth.Store.{User}
use diagnosis_system.Parser.Value.{Value, Members, no_members, member, Warning}
use diagnosis_system.Parser.Fault.{CrashSeverity, low, medium, high, critical, fault_value}
use diagnosis_system.Parser.Timestamp.{Clock}
use diagnosis_system.Parser.Parse.{
  ParsedCrash, Parsed, parsed, field_required, clock_error, overflow, parse,
}
use diagnosis_system.Fleet.{
  Device, CrashReport, CrashStatus, new, triaged, investigating, resolved, ignored, duplicate,
  Fleet, log, device_by_id, device_by_identifier, touch_last_online, crash_by_id,
  find_recent_duplicate,
}

abbrev severity_value : CrashSeverity → Text
severity_value low = codes "low"
severity_value medium = codes "medium"
severity_value high = codes "high"
severity_value critical = codes "critical"

abbrev status_value : CrashStatus → Text
status_value new = codes "new"
status_value triaged = codes "triaged"
status_value investigating = codes "investigating"
status_value resolved = codes "resolved"
status_value ignored = codes "ignored"
status_value duplicate = codes "duplicate"

pub data IngestWarning : Type 0 where
  of_parser : Warning → IngestWarning
  received_moments_ago : IngestWarning

pub record IngestResult : Type 0 where
  pub report : CrashReport
  pub warnings : List IngestWarning
  pub duplicate : Bool

-- `payload.keys()`
keys_of : Members → List Text
keys_of no_members = []
keys_of (member key value rest) = key ∷ keys_of rest

actor_id : Option User → Option ℕ
actor_id none = none
actor_id (some u) = some u.id

actor_email : Option User → Option Text
actor_email none = none
actor_email (some u) = some u.email

id_of : Option Device → Option ℕ
id_of none = none
id_of (some d) = some d.id

-- `_record_rejection`
unfoldable record_rejection :
    Rejection → Members → Option Device → Option User → RequestContext → Fleet → Fleet
unfolding keys_of actor_id actor_email id_of sorted_by text_before log
record_rejection reason payload device actor ctx = log (record {
  action = crash_rejected;
  actor_id = actor_id actor;
  actor_email = actor_email actor;
  resource_type = some (codes "crash_report");
  resource_id = id_of device;
  ctx = ctx;
  success = false;
  detail = of_rejection reason (take 20 (sorted_by text_before (keys_of payload)));
})

-- the device, or what is raised with the rejection that is recorded
abbrev Resolved : Type 0
Resolved = Outcome Device × Option Rejection

found_device : Text → Option Device → Resolved
found_device identifier none = (raised not_found, some (unknown_device identifier))
found_device identifier (some d) = (ok d, none)

device_named : Option Text → List Device → Resolved
unfolding found_device device_by_identifier
device_named none devices = (raised validation_error, some identifier_missing)
device_named (some []) devices = (raised validation_error, some identifier_missing)
device_named (some (c ∷ cs)) devices = found_device (c ∷ cs) (device_by_identifier (c ∷ cs) devices)

-- `device or await self._resolve_device(…)`
target_of : Option Device → Option Text → List Device → Resolved
unfolding device_named
target_of (some d) identifier devices = (ok d, none)
target_of none identifier devices = device_named identifier devices

-- the row of a report that is new
unfoldable pub report_of : ℕ → ℕ → ℕ → Members → ParsedCrash → CrashReport
report_of id now device_id payload p = record {
  id = id;
  device_id = device_id;
  firmware_version = p.firmware_version;
  build_version = p.build_version;
  occurred_at = p.occurred_at;
  received_at = now;
  fault_type = p.fault_type;
  exception_type = p.exception_type;
  task_name = p.task_name;
  program_counter = p.program_counter;
  link_register = p.link_register;
  stack_pointer = p.stack_pointer;
  register_dump = p.register_dump;
  stack_dump = p.stack_dump;
  raw_payload = payload;
  parse_warnings = p.warnings;
  severity = p.severity;
  status = new;
  notes = p.notes;
  group_id = none;
}

received_entry : ℕ → Device → ParsedCrash → Option User → RequestContext → AuditLog
unfolding actor_id actor_email
received_entry id target p actor ctx = record {
  action = crash_received;
  actor_id = actor_id actor;
  actor_email = actor_email actor;
  resource_type = some (codes "crash_report");
  resource_id = some id;
  ctx = ctx;
  success = true;
  detail =
      of_crash target.device_id (fault_value p.fault_type) (severity_value p.severity)
        (length p.warnings);
}

-- what an ingestion has come to at its first commit
pub data Receipt : Type 0 where
  refused : AppError → Receipt
  repeated : CrashReport → List Warning → Receipt
  stored : CrashReport → Device → List Warning → Receipt

-- the report is stored, unless one like it is there
store :
    ℕ
    → ℕ
    → Members
    → ParsedCrash
    → Device
    → Option User
    → RequestContext
    → Fleet
    → Option CrashReport
    → Receipt × Fleet
unfolding report_of received_entry log
store id now payload p target actor ctx fleet (some existing) =
    (repeated existing p.warnings, fleet)
store id now payload p target actor ctx fleet none =
    let report = report_of id now target.id payload p in
    (
      stored report target p.warnings,
      log (received_entry id target p actor ctx)
          (record fleet { crashes = fleet.crashes ++ (report ∷ []) }),
    )

receive_from :
    ℕ
    → ℕ
    → Members
    → ParsedCrash
    → Option User
    → RequestContext
    → Fleet
    → Resolved
    → Receipt × Fleet
unfolding store touch_last_online find_recent_duplicate record_rejection
receive_from id now payload p actor ctx fleet (raised e, none) = (refused e, fleet)
receive_from id now payload p actor ctx fleet (raised e, some reason) =
    (refused e, record_rejection reason payload none actor ctx fleet)
receive_from id now payload p actor ctx fleet (ok target, reason) =
    store id now payload p target actor ctx
      (record fleet { devices = touch_last_online now target.id fleet.devices })
      (find_recent_duplicate target.id p.fault_type p.program_counter p.occurred_at fleet.crashes)

receive_parsed :
    ℕ
    → ℕ
    → Members
    → Option Device
    → Option User
    → RequestContext
    → Fleet
    → Parsed
    → Receipt × Fleet
unfolding record_rejection target_of receive_from
receive_parsed id now payload device actor ctx fleet (parsed p) =
    receive_from id now payload p actor ctx fleet
      (target_of device p.device_identifier fleet.devices)
receive_parsed id now payload device actor ctx fleet (field_required f) =
    (refused crash_parse_error, record_rejection unparsable payload device actor ctx fleet)
receive_parsed id now payload device actor ctx fleet clock_error =
    (refused crash_parse_error, record_rejection unparsable payload device actor ctx fleet)
receive_parsed id now payload device actor ctx fleet overflow = (refused arithmetic_error, fleet)

-- `get`
get_report : Option CrashReport → Outcome CrashReport
get_report none = raised not_found
get_report (some r) = ok r

result_of : List Warning → Outcome CrashReport → Outcome IngestResult
result_of warnings (raised e) = raised e
result_of warnings (ok r) =
    ok (record { report = r; warnings = map of_parser warnings; duplicate = false })

-- Symbolication and notification, where they are wired in: the tables that each leaves of those it
-- finds, also where it raises.
pub record Services : Type 0 where
  pub symbolication : Option (CrashReport → Fleet → Fleet)
  pub notifications : Option (CrashReport → Device → Fleet → Fleet)

abbrev pub symbolicated : Services → CrashReport → Fleet → Fleet
symbolicated services r fleet = elim services.symbolication [ none ↦ fleet | some f ↦ f r fleet ]

abbrev pub alerted : Services → CrashReport → Device → Fleet → Fleet
alerted services r d fleet = elim services.notifications [ none ↦ fleet | some f ↦ f r d fleet ]

answer : Services → Receipt × Fleet → Outcome IngestResult × Fleet
unfolding result_of get_report crash_by_id
answer services (refused e, fleet) = (raised e, fleet)
answer services (repeated existing warnings, fleet) = (
  ok (record {
    report = existing;
    warnings = map of_parser warnings ++ (received_moments_ago ∷ []);
    duplicate = true;
  }),
  fleet,
)
answer services (stored report target warnings, fleet) =
    let after = alerted services report target (symbolicated services report fleet) in
    (result_of warnings (get_report (crash_by_id report.id after.crashes)), after)

module _ (render : Value → Text) (clock : Clock) where
  -- `ingest` up to its first commit
  unfoldable pub receive :
      ℕ → ℕ → Members → Option Device → Option User → RequestContext → Fleet → Receipt × Fleet
  unfolding parse receive_parsed
  receive id now payload device actor ctx fleet =
      receive_parsed id now payload device actor ctx fleet (parse render clock now payload)

  -- `ingest`
  unfoldable pub ingest :
      Services
      → ℕ
      → ℕ
      → Members
      → Option Device
      → Option User
      → RequestContext
      → Fleet
      → Outcome IngestResult × Fleet
  unfolding receive answer
  ingest services id now payload device actor ctx fleet =
      answer services (receive id now payload device actor ctx fleet)
