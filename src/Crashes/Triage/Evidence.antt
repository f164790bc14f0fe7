-- ===== src/Crashes/Triage/Evidence.antt =====
-- The evidence of the reports that backend/app/services/crash.py keeps, and what a refusal leaves.
use diagnosis_system.Prelude.{
  ℕ, ◌+◌, ◌≤◌, ◌≡◌, refl, subst, not, Option, none, some, List, [], ◌∷◌, Text, ◌==◌, length, filter,
  All, All-append, All-filter,
}
use diagnosis_system.Errors.{Outcome, ok, raised}
use diagnosis_system.Audit.{RequestContext}
use diagnosis_system.Tables.{required, nullable}
use diagnosis_system.Tables.Laws.{first-All}
use diagnosis_system.Tables.Rows.{save-All}
use diagnosis_system.Auth.Store.{User}
use diagnosis_system.Parser.Value.{Value, Members}
use diagnosis_system.Parser.Fault.{CrashSeverity}
use diagnosis_system.Parser.Registers.{Registers}
use diagnosis_system.Parser.Registers.Canonical.{AreRegisters}
use diagnosis_system.Parser.StackWords.{StackDump}
use diagnosis_system.Parser.StackWords.Bounds.{IsStorable}
use diagnosis_system.Parser.Timestamp.{Clock, max_clock_skew}
use diagnosis_system.Parser.Parse.{
  ParsedCrash, Parsed, parsed, field_required, clock_error, overflow, parse,
}
use diagnosis_system.Parser.Parse.Stored.{IsAddress, IsNormal, parse-IsNormal}
use diagnosis_system.Fleet.{log, Device, CrashReport, CrashStatus, Fleet, crash_by_id}
use diagnosis_system.Crashes.{
  Resolved, Rejection, record_rejection, report_of, store, receive_from, receive_parsed, receive,
}
use diagnosis_system.Crashes.Triage.{
  CrashReportUpdate, set_fields, triage, save_report, write_triage, update_found, update_report,
  delete_found, delete_report, changes_of,
}

-- what a report says of its crash: it fits its columns, and its time is at most a day after the
-- receipt
pub record IsEvidence (r : CrashReport) : Type 0 where
  pub version : length r.firmware_version ≤ 50
  pub time : r.occurred_at ≤ r.received_at + max_clock_skew
  pub counter : IsAddress r.program_counter
  pub link : IsAddress r.link_register
  pub pointer : IsAddress r.stack_pointer
  pub registers : (rs : Registers) → r.register_dump ≡ some rs → AreRegisters rs
  pub stack : (dump : StackDump) → r.stack_dump ≡ some dump → IsStorable dump

abbrev pub AreEvidence : Fleet → Type 0
AreEvidence fleet = All IsEvidence fleet.crashes

report_of-IsEvidence :
    (id now device_id : ℕ) (payload : Members) (c : ParsedCrash)
    → IsNormal now c
    → IsEvidence (report_of id now device_id payload c)
unfolding report_of
report_of-IsEvidence id now device_id payload c h = record {
  version = h.version;
  time = h.time;
  counter = h.counter;
  link = h.link;
  pointer = h.pointer;
  registers = h.registers;
  stack = h.stack;
}

record_rejection-crashes :
    (reason : Rejection) (payload : Members) (device : Option Device) (actor : Option User)
    (ctx : RequestContext) (fleet : Fleet)
    → (record_rejection reason payload device actor ctx fleet).crashes ≡ fleet.crashes
unfolding record_rejection log
record_rejection-crashes reason payload device actor ctx fleet = refl

store-AreEvidence :
    (id now : ℕ) (payload : Members) (c : ParsedCrash) (target : Device) (actor : Option User)
    (ctx : RequestContext) (fleet : Fleet) (existing : Option CrashReport)
    → IsNormal now c
    → AreEvidence fleet
    → AreEvidence (store id now payload c target actor ctx fleet existing).1
unfolding store log
store-AreEvidence id now payload c target actor ctx fleet (some existing) h k = k
store-AreEvidence id now payload c target actor ctx fleet none h k =
    All-append IsEvidence fleet.crashes (report_of id now target.id payload c ∷ []) k
      (report_of-IsEvidence id now target.id payload c h, tt)

receive_from-AreEvidence :
    (id now : ℕ) (payload : Members) (c : ParsedCrash) (actor : Option User) (ctx : RequestContext)
    (fleet : Fleet) (resolved : Resolved)
    → IsNormal now c
    → AreEvidence fleet
    → AreEvidence (receive_from id now payload c actor ctx fleet resolved).1
unfolding receive_from record_rejection log
receive_from-AreEvidence id now payload c actor ctx fleet (raised e, none) h k = k
receive_from-AreEvidence id now payload c actor ctx fleet (raised e, some reason) h k = k
receive_from-AreEvidence id now payload c actor ctx fleet (ok target, reason) h k =
    store-AreEvidence id now payload c target actor ctx _ _ h k

receive_parsed-AreEvidence :
    (id now : ℕ) (payload : Members) (device : Option Device) (actor : Option User)
    (ctx : RequestContext) (fleet : Fleet) (outcome : Parsed)
    → ((c : ParsedCrash) → outcome ≡ parsed c → IsNormal now c)
    → AreEvidence fleet
    → AreEvidence (receive_parsed id now payload device actor ctx fleet outcome).1
unfolding receive_parsed record_rejection log
receive_parsed-AreEvidence id now payload device actor ctx fleet (parsed c) h k =
    receive_from-AreEvidence id now payload c actor ctx fleet _ (h c refl) k
receive_parsed-AreEvidence id now payload device actor ctx fleet (field_required f) h k = k
receive_parsed-AreEvidence id now payload device actor ctx fleet clock_error h k = k
receive_parsed-AreEvidence id now payload device actor ctx fleet overflow h k = k

set_fields-IsEvidence :
    (r : CrashReport) (notes : Option (Option Text)) (status : Outcome CrashStatus)
    (severity : Outcome CrashSeverity) {v : CrashReport}
    → IsEvidence r
    → set_fields r notes status severity ≡ ok v
    → IsEvidence v
unfolding set_fields
set_fields-IsEvidence r notes (raised e) severity h k = cc
set_fields-IsEvidence r notes (ok status) (raised e) h k = cc
set_fields-IsEvidence r notes (ok status) (ok severity) {v} h k =
    let row : CrashReport = record r {
      status = status;
      severity = severity;
      notes = nullable notes r.notes;
    } in
    let same : row ≡ v = cc k in
    subst IsEvidence same (record {
      version = h.version;
      time = h.time;
      counter = h.counter;
      link = h.link;
      pointer = h.pointer;
      registers = h.registers;
      stack = h.stack;
    })

write_triage-AreEvidence :
    (actor : User) (ctx : RequestContext) (fleet : Fleet) (changes : List (Text × Option Text))
    (outcome : Outcome CrashReport) {v : CrashReport} {next : Fleet}
    → ((r : CrashReport) → outcome ≡ ok r → IsEvidence r)
    → AreEvidence fleet
    → write_triage actor ctx fleet changes outcome ≡ ok (v, next)
    → AreEvidence next
unfolding write_triage save_report log
write_triage-AreEvidence actor ctx fleet changes (raised e) h k w = cc
write_triage-AreEvidence actor ctx fleet [] (ok r) h k w = cc
write_triage-AreEvidence actor ctx fleet (c ∷ cs) (ok r) {v} {next} h k w =
    let rows : save_report r fleet.crashes ≡ next.crashes = cc w in
    subst (λ rs. All IsEvidence rs) rows
      (save-All (λ (r : CrashReport). r.id) IsEvidence r fleet.crashes (h r refl) k)

update_found-AreEvidence :
    (patch : CrashReportUpdate) (actor : User) (ctx : RequestContext) (fleet : Fleet)
    (found : Option CrashReport) {v : CrashReport} {next : Fleet}
    → ((r : CrashReport) → found ≡ some r → IsEvidence r)
    → AreEvidence fleet
    → update_found patch actor ctx fleet found ≡ ok (v, next)
    → AreEvidence next
unfolding update_found triage
update_found-AreEvidence patch actor ctx fleet none h k w = cc
update_found-AreEvidence patch actor ctx fleet (some r) h k w =
    write_triage-AreEvidence actor ctx fleet (changes_of patch) (triage patch r)
      (λ v e.
        set_fields-IsEvidence r patch.notes (required patch.status r.status)
          (required patch.severity r.severity) (h r refl) e)
      k w

delete_found-AreEvidence :
    (actor : User) (ctx : RequestContext) (fleet : Fleet) (found : Option CrashReport)
    {next : Fleet}
    → AreEvidence fleet
    → delete_found actor ctx fleet found ≡ ok next
    → AreEvidence next
unfolding delete_found log
delete_found-AreEvidence actor ctx fleet none k w = cc
delete_found-AreEvidence actor ctx fleet (some r) {next} k w =
    let rows : filter (λ (c : CrashReport). not (c.id == r.id)) fleet.crashes ≡ next.crashes =
      cc w in
    subst (λ rs. All IsEvidence rs) rows
      (All-filter (λ (c : CrashReport). not (c.id == r.id)) IsEvidence fleet.crashes k)

module _ (render : Value → Text) (clock : Clock) where
  -- what is done to the reports, one call at a time
  pub data Step : Fleet → Fleet → Type 0 where
    receives :
        {fleet : Fleet} (id now : ℕ) (payload : Members) (device : Option Device)
        (actor : Option User) (ctx : RequestContext)
        → Step fleet (receive render clock id now payload device actor ctx fleet).1
    updates :
        {fleet next : Fleet} (id : ℕ) (patch : CrashReportUpdate) (actor : User)
        (ctx : RequestContext) (v : CrashReport)
        → update_report id patch actor ctx fleet ≡ ok (v, next)
        → Step fleet next
    deletes :
        {fleet next : Fleet} (id : ℕ) (actor : User) (ctx : RequestContext)
        → delete_report id actor ctx fleet ≡ ok next
        → Step fleet next

  pub data Reach : Fleet → Fleet → Type 0 where
    here : {fleet : Fleet} → Reach fleet fleet
    later : {a b c : Fleet} → Reach a b → Step b c → Reach a c

  Step-AreEvidence : {a b : Fleet} → Step a b → AreEvidence a → AreEvidence b
  unfolding receive update_report delete_report crash_by_id
  Step-AreEvidence (receives {fleet} id now payload device actor ctx) h =
      receive_parsed-AreEvidence id now payload device actor ctx fleet
        (parse render clock now payload) (λ c e. parse-IsNormal render clock now payload c e) h
  Step-AreEvidence (updates {fleet} id patch actor ctx v e) h =
      update_found-AreEvidence patch actor ctx fleet (crash_by_id id fleet.crashes)
        (λ r f. first-All IsEvidence (λ (r : CrashReport). r.id == id) fleet.crashes h f) h e
  Step-AreEvidence (deletes {fleet} id actor ctx e) h =
      delete_found-AreEvidence actor ctx fleet (crash_by_id id fleet.crashes) h e

  -- However reports are received, triaged and deleted, with calls that succeed or that refuse the
  -- report, the reports that are kept have a firmware version of at most 50 characters, a time at
  -- most a day after their receipt, 32-bit addresses, canonical registers and a bounded stack dump,
  -- if those at the start have.
  pub Reach-AreEvidence : {a b : Fleet} → Reach a b → AreEvidence a → AreEvidence b
  Reach-AreEvidence here h = h
  Reach-AreEvidence (later r s) h = Step-AreEvidence s (Reach-AreEvidence r h)
