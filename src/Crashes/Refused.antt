-- ===== src/Crashes/Refused.antt =====
-- What `ingest` of backend/app/services/crash.py leaves of a report that it refuses.
use diagnosis_system.Prelude.{◌≡◌, false, ◌⊎◌, some, [], ◌∷◌, ◌++◌}
use diagnosis_system.Errors.{raised, AppError, arithmetic_error}
use diagnosis_system.Audit.{AuditLog, crash_rejected}
use diagnosis_system.Parser.Value.{Value}
use diagnosis_system.Fleet.{Fleet}
use diagnosis_system.Crashes.{Resolved, Rejection}

-- one rejection was recorded, and nothing else was changed
pub record IsRejected (fleet next : Fleet) : Type 0 where
  pub entry : AuditLog
  pub added : next.audit_logs ≡ fleet.audit_logs ++ (entry ∷ [])
  pub action : entry.action ≡ crash_rejected
  pub failed : entry.success ≡ false
  pub crashes : next.crashes ≡ fleet.crashes
  pub devices : next.devices ≡ fleet.devices
  pub api_keys : next.api_keys ≡ fleet.api_keys

-- a device that is not resolved has its rejection
abbrev HasReason : Resolved → Type 0
HasReason resolved =
    (e : AppError) → resolved.0 ≡ raised e → (r : Rejection) × (resolved.1 ≡ some r)

-- nothing is stored without an answer
abbrev Leaves : AppError → Fleet → Fleet → Type 0
Leaves e fleet next = IsRejected fleet next ⊎ ((e ≡ arithmetic_error) × (next ≡ fleet))
