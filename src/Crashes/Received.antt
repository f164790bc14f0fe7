-- ===== src/Crashes/Received.antt =====
-- What `ingest` of backend/app/services/crash.py stores, and what it does on a report like one that
-- is there.
use diagnosis_system.Prelude.{
  ℕ, ◌+◌, ◌≤◌, ◌≡◌, refl, sym, subst, ◌∙◌, Bool, true, false, inl, inr, Option, Option-cases, none,
  some, List, [], ◌∷◌, ◌++◌, Text, text_eq_refl, arith,
}
use diagnosis_system.Errors.{ok}
use diagnosis_system.Audit.{RequestContext}
use diagnosis_system.Tables.{first}
use diagnosis_system.Tables.Laws.{first_here, first-append_some, first-append_none}
use diagnosis_system.Auth.Store.{User}
use diagnosis_system.Parser.Value.{Value, Members}
use diagnosis_system.Parser.Fault.{FaultType, fault_value}
use diagnosis_system.Parser.Timestamp.{Clock}
use diagnosis_system.Parser.Parse.{ParsedCrash, parsed, parse}
use diagnosis_system.Fleet.{
  log, Device, CrashReport, Fleet, repeats, same_counter, find_recent_duplicate,
}
use diagnosis_system.Crashes.{
  IngestResult, Services, symbolicated, alerted, report_of, store, target_of, receive_from,
  receive_parsed, answer, receive, ingest,
}

abbrev pub IsFound : {A : Type 0} → Option A → Type 0
IsFound {A} o = (x : A) × (o ≡ some x)

first-IsFound :
    {A : Type 0} (p : A → Bool) (xs : List A) (x : A)
    → p x ≡ true
    → IsFound (first p (xs ++ (x ∷ [])))
first-IsFound p xs x h = elim (Option-cases (first p xs)) [
  | inl e ↦ (x, first-append_none p xs (x ∷ []) e ∙ first_here p x [] h)
  | inr (y, e) ↦ (y, first-append_some p xs (x ∷ []) e)
]

-- a service that keeps, for each search of a recent duplicate, a report that answers it
abbrev Keeps : (Fleet → Fleet) → Type 0
Keeps f =
    (fleet : Fleet) (device_id : ℕ) (fault : FaultType) (counter : Option ℕ) (time : ℕ)
    → IsFound (find_recent_duplicate device_id fault counter time fleet.crashes)
    → IsFound (find_recent_duplicate device_id fault counter time (f fleet).crashes)

pub record KeepEvidence (services : Services) : Type 0 where
  pub symbolication : (r : CrashReport) → Keeps (symbolicated services r)
  pub notifications : (r : CrashReport) (d : Device) → Keeps (alerted services r d)

same_counter_refl : (o : Option ℕ) → same_counter o o ≡ true
same_counter_refl none = refl
same_counter_refl (some n) = ground arith

-- two reports with the same fault at the same place, at most a minute apart
pub record Alike (c e : ParsedCrash) : Type 0 where
  pub fault : e.fault_type ≡ c.fault_type
  pub counter : e.program_counter ≡ c.program_counter
  pub before : e.occurred_at ≤ c.occurred_at + 60_000_000
  pub after : c.occurred_at ≤ e.occurred_at + 60_000_000

report_of-repeats :
    (id now device_id : ℕ) (payload : Members) (c e : ParsedCrash)
    → Alike c e
    → repeats device_id e.fault_type e.program_counter e.occurred_at
        (report_of id now device_id payload c)
      ≡ true
unfolding report_of
report_of-repeats id now device_id payload c e h =
    rw (h.fault, h.counter) ground
      (
        arith,
        h.before,
        h.after,
        text_eq_refl (fault_value c.fault_type),
        same_counter_refl c.program_counter,
      )

module _ (render : Value → Text) (clock : Clock) where
  -- a report that a device sends with its key
  receive_by_key :
      (id now : ℕ) (payload : Members) (d : Device) (actor : Option User) (ctx : RequestContext)
      (fleet : Fleet) (c : ParsedCrash)
      → parse render clock now payload ≡ parsed c
      → receive render clock id now payload (some d) actor ctx fleet
        ≡ receive_from id now payload c actor ctx fleet (ok d, none)
  unfolding receive receive_parsed target_of
  receive_by_key id now payload d actor ctx fleet c h = rw (h, receive_parsed) refl

  abbrev find_new : ParsedCrash → Device → Fleet → Option CrashReport
  find_new c d fleet =
      find_recent_duplicate d.id c.fault_type c.program_counter c.occurred_at fleet.crashes

  -- a report with no other like it is stored behind the reports that are there
  stored-IsFound :
      (id now : ℕ) (payload : Members) (d : Device) (actor : Option User) (ctx : RequestContext)
      (fleet : Fleet) (c e : ParsedCrash)
      → find_new c d fleet ≡ none
      → Alike c e
      → IsFound (find_new e d (receive_from id now payload c actor ctx fleet (ok d, none)).1)
  unfolding receive_from store find_recent_duplicate log report_of
  stored-IsFound id now payload d actor ctx fleet c e h like =
      let p = repeats d.id e.fault_type e.program_counter e.occurred_at in
      rw (h, store)
        (first-IsFound p fleet.crashes (report_of id now d.id payload c)
          (report_of-repeats id now d.id payload c e like))

  -- a report that is like one of those there changes no report
  repeated_lem :
      (services : Services) (id now : ℕ) (payload : Members) (d : Device) (actor : Option User)
      (ctx : RequestContext) (fleet : Fleet) (c : ParsedCrash)
      → IsFound (find_new c d fleet)
      → let after = answer services (receive_from id now payload c actor ctx fleet (ok d, none)) in
        (r : IngestResult) × (after.0 ≡ ok r)
        × (r.duplicate ≡ true)
        × (after.1.crashes ≡ fleet.crashes)
  unfolding receive_from store find_recent_duplicate answer
  repeated_lem services id now payload d actor ctx fleet c (existing, h) =
      rw (h, store) (_, refl, refl, refl)

  stored_answer :
      (services : Services) (id now : ℕ) (payload : Members) (d : Device) (actor : Option User)
      (ctx : RequestContext) (fleet : Fleet) (c : ParsedCrash)
      → find_new c d fleet ≡ none
      → let received = receive_from id now payload c actor ctx fleet (ok d, none) in
        let report = report_of id now d.id payload c in
        (answer services received).1
        ≡ alerted services report d (symbolicated services report received.1)
  unfolding receive_from store answer
  stored_answer services id now payload d actor ctx fleet c h = rw (h, store) refl

  -- the reports after the services ran on a report that was stored
  answer-IsFound :
      (services : Services)
      → KeepEvidence services
      → (id now : ℕ) (payload : Members) (d : Device) (actor : Option User) (ctx : RequestContext)
        (fleet : Fleet) (c e : ParsedCrash) (result : IngestResult)
      → (answer services (receive_from id now payload c actor ctx fleet (ok d, none))).0 ≡ ok result
      → result.duplicate ≡ false
      → Alike c e
      → IsFound (
          find_new e d
            (answer services (receive_from id now payload c actor ctx fleet (ok d, none))).1)
  answer-IsFound services keep id now payload d actor ctx fleet c e result h fresh like =
      elim (Option-cases (find_new c d fleet)) [
        | inr found ↦
            let (r, is, dup, _) = repeated_lem services id now payload d actor ctx fleet c found in
            cc
        | inl none_like ↦
            let received = receive_from id now payload c actor ctx fleet (ok d, none) in
            let report = report_of id now d.id payload c in
            let held = stored-IsFound id now payload d actor ctx fleet c e none_like like in
            let symbolicated_held =
              keep.symbolication report received.1 d.id e.fault_type e.program_counter e.occurred_at
                held in
            subst (λ (f : Fleet). IsFound (find_new e d f))
              (sym (stored_answer services id now payload d actor ctx fleet c none_like))
              (keep.notifications report d (symbolicated services report received.1) d.id
                e.fault_type e.program_counter e.occurred_at symbolicated_held)
      ]

  -- Once a report of a device was stored, a later one of that device with the same fault type and
  -- program counter, at most 60 seconds apart, is answered as a duplicate, and the reports stay as
  -- they are. The services that run in between keep for each search of a recent duplicate a report
  -- that answers it.
  pub ingest_again :
      (services : Services) (id id' now now' : ℕ) (payload payload' : Members) (d : Device)
      (actor actor' : Option User) (ctx ctx' : RequestContext) (fleet : Fleet) (c e : ParsedCrash)
      (result : IngestResult)
      → KeepEvidence services
      → parse render clock now payload ≡ parsed c
      → parse render clock now' payload' ≡ parsed e
      → Alike c e
      → (ingest render clock services id now payload (some d) actor ctx fleet).0 ≡ ok result
      → result.duplicate ≡ false
      → let first_run = ingest render clock services id now payload (some d) actor ctx fleet in
        let again =
          ingest render clock services id' now' payload' (some d) actor' ctx' first_run.1 in
        (r : IngestResult) × (again.0 ≡ ok r)
        × (r.duplicate ≡ true)
        × (again.1.crashes ≡ first_run.1.crashes)
  unfolding ingest
  ingest_again services id id' now now' payload payload' d actor actor' ctx ctx' fleet c e result
        keep h k like stored_first fresh =
      let one = receive_by_key id now payload d actor ctx fleet c h in
      let after =
        (answer services (receive_from id now payload c actor ctx fleet (ok d, none))).1 in
      let two = receive_by_key id' now' payload' d actor' ctx' after e k in
      let held =
        answer-IsFound services keep id now payload d actor ctx fleet c e result
          (rw one at stored_first) fresh like in
      rw (one, two) (repeated_lem services id' now' payload' d actor' ctx' after e held)
