-- ===== src/Symbolication/Groups.antt =====
-- Crashes of the same place in the firmware meet in one group: `symbolicate_report` of
-- backend/app/services/symbolication.py, from the build to the group.
use diagnosis_system.Prelude.{ℕ, ◌≡◌, ◌≢◌, sym, false, some, List, [], Text}
use diagnosis_system.Stack.Signature.{signature_frame_depth}
use diagnosis_system.Stack.Signature.Stable.{top_names, build_signature_stable}
use diagnosis_system.Parser.Fault.{fault_value}
use diagnosis_system.Fleet.{CrashReport}
use diagnosis_system.Grouping.{Tables}
use diagnosis_system.Grouping.Again.{assign_group_again}
use diagnosis_system.Symbolication.{Settings, frames_of, signature_of, row_of, symbolicate_report}
use diagnosis_system.Builds.{FirmwareBuild}

module _ (digest : Text → Text) (settings : Settings) (builds : List FirmwareBuild) where
  -- the names that a report is grouped by
  abbrev pub names_of : CrashReport → List Text
  names_of r = top_names signature_frame_depth (frames_of digest settings builds r)

  signatures_agree :
      (c e : CrashReport)
      → e.fault_type ≡ c.fault_type
      → e.task_name ≡ c.task_name
      → names_of c ≢ []
      → names_of c ≡ names_of e
      → signature_of digest settings builds e ≡ signature_of digest settings builds c
  unfolding signature_of
  signatures_agree c e fault task named same =
      let fs = frames_of digest settings builds c in
      let gs = frames_of digest settings builds e in
      rw (fault, task)
        (sym (
          build_signature_stable digest (fault_value c.fault_type) c.task_name signature_frame_depth
            fs gs c.program_counter e.program_counter (some c.firmware_version)
            (some e.firmware_version) named same))

  -- Of two reports with the same fault type and task, whose chains have the same top function names,
  -- at least one, the second that is symbolicated is put into the group of the first, and no group is
  -- made for it: whatever their addresses, and whatever builds they were resolved against.
  pub symbolicate_report_meets :
      (now now' id id' : ℕ) (c e : CrashReport) (t : Tables)
      → e.fault_type ≡ c.fault_type
      → e.task_name ≡ c.task_name
      → names_of c ≢ []
      → names_of c ≡ names_of e
      → let one = symbolicate_report digest settings builds now id c t in
        let two = symbolicate_report digest settings builds now' id' e one.1 in
        (two.0.group.id ≡ one.0.group.id) × (two.0.group_created ≡ false)
  unfolding symbolicate_report
  symbolicate_report_meets now now' id id' c e t fault task named same =
      rw (signatures_agree c e fault task named same) (
        assign_group_again now now' id id' (signature_of digest settings builds c).0
          (frames_of digest settings builds c) (frames_of digest settings builds e) (row_of c)
          (row_of e) t)
