-- ===== src/Worker.antt =====
-- backend/app/worker.py: the tasks that keep the tables in order, with `purge_expired` of
-- backend/app/repositories/user.py.
pub mod Kept
mod Tests
use diagnosis_system.Prelude.{
  ℕ, ◌+◌, ◌*◌, Bool, true, false, not, ◌&&◌, Option, none, some, List, [], ◌∷◌, filter, ltb, ◌==◌,
}
use diagnosis_system.Errors.{Outcome, ok, raised, crash_parse_error, arithmetic_error}
use diagnosis_system.Tables.{update_where, count_where}
use diagnosis_system.Auth.Store.{RefreshToken}
use diagnosis_system.Parser.Value.{Value, Members, no_members, member}
use diagnosis_system.Parser.Timestamp.{Clock}
use diagnosis_system.Parser.Parse.{
  ParsedCrash, Parsed, parsed, field_required, clock_error, overflow, parse,
}
use diagnosis_system.Fleet.{
  DeviceStatus, active, inactive, maintenance, decommissioned, Device, CrashReport, crash_by_id,
}

-- `purge_expired`: the tokens that stay, and how many are deleted
unfoldable pub purge_expired : ℕ → List RefreshToken → List RefreshToken × ℕ
purge_expired cutoff tokens = (
  filter (λ (t : RefreshToken). not (ltb t.expires_at cutoff)) tokens,
  count_where (λ (t : RefreshToken). ltb t.expires_at cutoff) tokens,
)

is_active : DeviceStatus → Bool
is_active active = true
is_active inactive = false
is_active maintenance = false
is_active decommissioned = false

-- `last_online_at < cutoff`, or never; an hour is 3,600,000,000 microseconds
is_silent : ℕ → ℕ → Option ℕ → Bool
is_silent now hours none = true
is_silent now hours (some t) = ltb (t + hours * 3_600_000_000) now

is_stale : ℕ → ℕ → Device → Bool
unfolding is_active is_silent
is_stale now hours d = is_active d.status && is_silent now hours d.last_online_at

-- `mark_stale_devices_inactive`: the devices, and how many were marked
unfoldable pub mark_stale : ℕ → ℕ → List Device → List Device × ℕ
unfolding is_stale
mark_stale now hours devices = (
  update_where (is_stale now hours) (λ (d : Device). record d { status = inactive }) devices,
  count_where (is_stale now hours) devices,
)

-- what `reparse_crash_report` answers
pub data Reparsed : Type 0 where
  not_found no_raw_payload reparsed : Reparsed

-- the fault of a report, as the parser reads it now
refreshed : CrashReport → ParsedCrash → CrashReport
refreshed r p = record r {
  fault_type = p.fault_type;
  exception_type = p.exception_type;
  task_name = p.task_name;
  program_counter = p.program_counter;
  link_register = p.link_register;
  stack_pointer = p.stack_pointer;
  register_dump = p.register_dump;
  stack_dump = p.stack_dump;
  parse_warnings = p.warnings;
}

rewrite : List CrashReport → CrashReport → Parsed → Outcome Reparsed × List CrashReport
unfolding refreshed
rewrite crashes r (parsed p) =
    (ok reparsed, update_where (λ (c : CrashReport). c.id == r.id) (λ _. refreshed r p) crashes)
rewrite crashes r (field_required f) = (raised crash_parse_error, crashes)
rewrite crashes r clock_error = (raised crash_parse_error, crashes)
rewrite crashes r overflow = (raised arithmetic_error, crashes)

module _ (render : Value → List ℕ) (clock : Clock) where
  -- a report that keeps no payload, or an empty one, is left as it is
  reparse_payload :
      ℕ → List CrashReport → CrashReport → Members → Outcome Reparsed × List CrashReport
  unfolding rewrite parse
  reparse_payload now crashes r no_members = (ok no_raw_payload, crashes)
  reparse_payload now crashes r (member key value rest) =
      rewrite crashes r (parse render clock now (member key value rest))

  reparse_found : ℕ → List CrashReport → Option CrashReport → Outcome Reparsed × List CrashReport
  unfolding reparse_payload
  reparse_found now crashes none = (ok not_found, crashes)
  reparse_found now crashes (some r) = reparse_payload now crashes r r.raw_payload

  -- `reparse_crash_report`
  unfoldable pub reparse : ℕ → ℕ → List CrashReport → Outcome Reparsed × List CrashReport
  unfolding reparse_found crash_by_id
  reparse now id crashes = reparse_found now crashes (crash_by_id id crashes)
