-- ===== src/Crashes/Triage.antt =====
-- backend/app/services/crash.py: reports are triaged and deleted.
pub mod Evidence
use diagnosis_system.Prelude.{
  ℕ, ◌+◌, Bool, true, false, not, Option, none, some, List, [], ◌∷◌, ◌++◌, map, Text, codes, length,
  take, sorted_by, text_before, filter, ◌==◌,
}
use diagnosis_system.Errors.{
  Outcome, ok, raised, AppError, not_found, validation_error, crash_parse_error, arithmetic_error,
}
use diagnosis_system.Audit.{
  AuditLog, RequestContext, entry_by, crash_received, crash_rejected, crash_updated, crash_deleted,
  Rejection, unparsable, identifier_missing, unknown_device, of_rejection, of_crash, deleted_crash,
  triaged_fields,
}
use diagnosis_system.Tables.{update_where, required, nullable}
use diagnosis_system.Auth.Store.{User}
use diagnosis_system.Parser.Value.{Value, Members, no_members, member, Warning}
use diagnosis_system.Parser.Fault.{CrashSeverity, low, medium, high, critical, fault_value}
use diagnosis_system.Parser.Timestamp.{Clock}
use diagnosis_system.Parser.Parse.{
  ParsedCrash, Parsed, parsed, field_required, clock_error, overflow, parse,
}
use diagnosis_system.Fleet.{
  Device, CrashReport, CrashStatus, new, triaged, investigating, resolved, ignored, duplicate,
  Fleet, log, device_by_id, device_by_identifier, touch_last_online, crash_by_id,
  find_recent_duplicate,
}
use diagnosis_system.Crashes.{severity_value, status_value}

-- `CrashReportUpdate`: the outer `none` is a field that is unset, the inner one a null
pub record CrashReportUpdate : Type 0 where
  pub status : Option (Option CrashStatus)
  pub severity : Option (Option CrashSeverity)
  pub notes : Option (Option Text)

change_of : {A : Type 0} → Text → (A → Text) → Option (Option A) → List (Text × Option Text)
change_of name show none = []
change_of name show (some none) = (name, none) ∷ []
change_of name show (some (some a)) = (name, some (show a)) ∷ []

-- `changed`
changes_of : CrashReportUpdate → List (Text × Option Text)
unfolding change_of
changes_of patch =
    change_of (codes "status") status_value patch.status
    ++ (change_of (codes "severity") severity_value patch.severity
        ++ change_of (codes "notes") (λ t. t) patch.notes)

-- the report with what the fields of `CrashReportUpdate` set
set_fields :
    CrashReport
    → Option (Option Text)
    → Outcome CrashStatus
    → Outcome CrashSeverity
    → Outcome CrashReport
unfolding nullable
set_fields r notes (raised e) severity = raised e
set_fields r notes (ok status) (raised e) = raised e
set_fields r notes (ok status) (ok severity) =
    ok (record r { status = status; severity = severity; notes = nullable notes r.notes })

triage : CrashReportUpdate → CrashReport → Outcome CrashReport
unfolding required set_fields
triage patch r =
    set_fields r patch.notes (required patch.status r.status) (required patch.severity r.severity)

save_report : CrashReport → List CrashReport → List CrashReport
save_report v = update_where (λ r. r.id == v.id) (λ _. v)

write_triage :
    User
    → RequestContext
    → Fleet
    → List (Text × Option Text)
    → Outcome CrashReport
    → Outcome (CrashReport × Fleet)
unfolding save_report log
write_triage actor ctx fleet changes (raised e) = raised e
write_triage actor ctx fleet [] (ok r) = raised validation_error
write_triage actor ctx fleet (c ∷ cs) (ok r) = ok (
  r,
  log
      (entry_by crash_updated actor.id actor.email (codes "crash_report") r.id ctx
        (triaged_fields (c ∷ cs)))
      (record fleet { crashes = save_report r fleet.crashes }),
)

update_found :
    CrashReportUpdate
    → User
    → RequestContext
    → Fleet
    → Option CrashReport
    → Outcome (CrashReport × Fleet)
unfolding write_triage changes_of triage
update_found patch actor ctx fleet none = raised not_found
update_found patch actor ctx fleet (some r) =
    write_triage actor ctx fleet (changes_of patch) (triage patch r)

-- `update`; what raises is rolled back with its request
unfoldable pub update_report :
    ℕ → CrashReportUpdate → User → RequestContext → Fleet → Outcome (CrashReport × Fleet)
unfolding update_found crash_by_id
update_report id patch actor ctx fleet =
    update_found patch actor ctx fleet (crash_by_id id fleet.crashes)

device_name : Option Device → Option Text
device_name none = none
device_name (some d) = some d.device_id

delete_found : User → RequestContext → Fleet → Option CrashReport → Outcome Fleet
unfolding log device_name device_by_id
delete_found actor ctx fleet none = raised not_found
delete_found actor ctx fleet (some r) = ok (
    log
      (entry_by crash_deleted actor.id actor.email (codes "crash_report") r.id ctx (
        deleted_crash (device_name (device_by_id r.device_id fleet.devices))
          (fault_value r.fault_type) r.occurred_at))
      (record fleet { crashes = filter (λ c. not (c.id == r.id)) fleet.crashes }))

-- `delete`
unfoldable pub delete_report : ℕ → User → RequestContext → Fleet → Outcome Fleet
unfolding delete_found crash_by_id
delete_report id actor ctx fleet = delete_found actor ctx fleet (crash_by_id id fleet.crashes)
