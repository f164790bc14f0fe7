-- ===== src/Crashes/Tests.antt =====
-- Runs of backend/app/services/crash.py on one device.
use diagnosis_system.Prelude.{
  ◌≡◌, refl, true, false, ℕ, none, some, [], ◌∷◌, arith, Text, codes, is_space, ◌==◌,
}
use diagnosis_system.Errors.{ok, raised, integrity_error, validation_error}
use diagnosis_system.Tables.{update_where, required, nullable}
use diagnosis_system.Tables.Laws.{first-update_keep}
use diagnosis_system.Auth.Tests.{ctx, alice}
use diagnosis_system.Parser.Value.{
  Value, text, Members, member, no_members, timestamp_missing, fault_missing, first_alias,
  lookup_field, optional_text, to_text,
}
use diagnosis_system.Parser.Timestamp.{Clock, parse_timestamp}
use diagnosis_system.Parser.Parse.{ParsedCrash, parsed, parse, fields_of, backfill}
use diagnosis_system.Fleet.{
  Device, CrashReport, Fleet, active, repeats, find_recent_duplicate, crash_by_id,
}
use diagnosis_system.Crashes.{IngestResult, of_parser, Services, receive, ingest, report_of}
use diagnosis_system.Crashes.Triage.{update_report}
use diagnosis_system.Crashes.Received.{KeepEvidence, Alike, ingest_again}
use diagnosis_system.Crashes.Triage.Evidence.{AreEvidence, here, later, receives, Reach-AreEvidence}

abbrev clock : Clock
clock = record {
  fromisoformat = λ t. none;
  to_float = λ t. none;
  int_to_float = λ i. none;
  thousandth = λ f. f;
  fromtimestamp = λ f. some 5;
}

abbrev render : Value → Text
render v = codes "?"

abbrev device : Device
device = record {
  id = 3;
  device_id = codes "STM-3";
  serial_number = codes "SN-3";
  firmware_version = codes "1.4.2";
  hardware_model = codes "F407";
  status = active;
  location = none;
  description = none;
  owner_id = none;
  last_online_at = none;
  tags = [];
}

abbrev fleet : Fleet
fleet = record { devices = device ∷ []; tags = []; api_keys = []; crashes = []; audit_logs = [] }

abbrev payload : Members
payload = member (codes "fw") (text (codes "1.2")) no_members

abbrev crash : ℕ → ParsedCrash
crash now = backfill (fields_of render clock payload (codes "1.2") now (timestamp_missing ∷ []))

parsed_payload : (now : ℕ) → parse render clock now payload ≡ parsed (crash now)
unfolding parse optional_text lookup_field first_alias to_text parse_timestamp is_space
parsed_payload now = refl

-- a symbolication that puts the report into a group
abbrev grouped : CrashReport → Fleet → Fleet
grouped r db = record db {
  crashes =
      update_where (λ c. c.id == r.id) (λ (c : CrashReport). record c { group_id = some 1 })
        db.crashes;
}

abbrev services : Services
services = record { symbolication = some grouped; notifications = none }

services-KeepEvidence : KeepEvidence services
unfolding find_recent_duplicate
services-KeepEvidence = record {
  symbolication = λ r db device_id fault counter time (x, e). (
    _,
    first-update_keep (repeats device_id fault counter time) (λ c. c.id == r.id)
        (λ (c : CrashReport). record c { group_id = some 1 }) db.crashes (λ c. refl) e,
  );
  notifications = λ r d db device_id fault counter time h. h;
}

abbrev stored_report : CrashReport
stored_report = record (report_of 1 100 3 payload (crash 100)) { group_id = some 1 }

abbrev result : IngestResult
result = record {
  report = stored_report;
  warnings = of_parser timestamp_missing ∷ of_parser fault_missing ∷ [];
  duplicate = false;
}

first_ingest :
    (ingest render clock services 1 100 payload (some device) none ctx fleet).0 ≡ ok result
unfolding ingest receive report_of parse optional_text lookup_field first_alias to_text
    parse_timestamp is_space find_recent_duplicate crash_by_id fields_of backfill
first_ingest = refl

alike : Alike (crash 100) (crash 200)
unfolding fields_of backfill lookup_field first_alias optional_text
alike = record { fault = refl; counter = refl; before = ground arith; after = ground arith }

ingest_again_example :
    let first_run = ingest render clock services 1 100 payload (some device) none ctx fleet in
    let again =
      ingest render clock services 2 200 payload (some device) (some alice) ctx first_run.1 in
    (r : IngestResult) × (again.0 ≡ ok r)
    × (r.duplicate ≡ true)
    × (again.1.crashes ≡ first_run.1.crashes)
ingest_again_example =
    ingest_again render clock services 1 2 100 200 payload payload device none (some alice) ctx ctx
      fleet (crash 100) (crash 200) result services-KeepEvidence (parsed_payload 100)
      (parsed_payload 200) alike first_ingest refl

Reach-AreEvidence_example :
    AreEvidence (receive render clock 1 100 payload (some device) none ctx fleet).1
Reach-AreEvidence_example =
    Reach-AreEvidence render clock
      (later here (receives {fleet = fleet} 1 100 payload (some device) none ctx)) tt

-- a null status
null_status :
    update_report 1
      (record { status = some none; severity = none; notes = none })
      alice
      ctx
      (record fleet { crashes = stored_report ∷ [] })
    ≡ raised integrity_error
unfolding update_report crash_by_id required nullable report_of
null_status = refl

no_change :
    update_report 1
      (record { status = none; severity = none; notes = none })
      alice
      ctx
      (record fleet { crashes = stored_report ∷ [] })
    ≡ raised validation_error
unfolding update_report crash_by_id required nullable report_of
no_change = refl
