-- ===== src/Audit.antt =====
-- backend/app/models/audit_log.py and backend/app/services/audit.py.
use diagnosis_system.Prelude.{ℕ, Bool, true, Option, none, some, List, [], ◌∷◌, ◌++◌, Text, take}

pub data AuditAction : Type 0 where
  user_registered user_login user_login_failed user_logout user_locked : AuditAction
  token_refreshed password_reset_requested password_reset_completed : AuditAction
  password_changed user_updated user_deleted user_roles_changed : AuditAction
  device_created device_updated device_deleted device_key_created device_key_revoked : AuditAction
  build_uploaded build_deleted crash_received crash_rejected crash_updated crash_deleted :
      AuditAction

-- why a report was rejected; the words of a parser's message are left out
pub data Rejection : Type 0 where
  unparsable identifier_missing : Rejection
  unknown_device : Text → Rejection

-- the `context` of an entry
pub data Detail : Type 0 where
  no_detail unknown_email locked inactive bad_password unknown_or_inactive : Detail
  sessions : Bool → ℕ → Detail
  created : List Text → Detail
  changed : List Text → Detail
  of_text : Text → Detail
  of_device : Text → List Text → Detail
  deleted_device : Text → Text → ℕ → Detail
  of_key : Text → Text → Detail
  of_rejection : Rejection → List Text → Detail
  of_crash : Text → Text → Text → ℕ → Detail
  deleted_crash : Option Text → Text → ℕ → Detail
  triaged_fields : List (Text × Option Text) → Detail

pub record RequestContext : Type 0 where
  pub ip_address : Option Text
  pub user_agent : Option Text

pub record AuditLog : Type 0 where
  pub action : AuditAction
  pub actor_id : Option ℕ
  pub actor_email : Option Text
  pub resource_type : Option Text
  pub resource_id : Option ℕ
  pub ctx : RequestContext
  pub success : Bool
  pub detail : Detail

-- `user_agent[:255] if user_agent else None`
unfoldable pub stored_agent : Option Text → Option Text
stored_agent none = none
stored_agent (some []) = none
stored_agent (some (c ∷ cs)) = some (take 255 (c ∷ cs))

-- `AuditService.record`: the entries of the log behind the new one
unfoldable pub append_entry : AuditLog → List AuditLog → List AuditLog
unfolding stored_agent
append_entry entry entries =
    let stored = record entry {
      ctx = record {
        ip_address = entry.ctx.ip_address;
        user_agent = stored_agent entry.ctx.user_agent;
      };
    } in
    entries ++ (stored ∷ [])

-- an entry by a user who is known, about an object
abbrev pub entry_by : AuditAction → ℕ → Text → Text → ℕ → RequestContext → Detail → AuditLog
entry_by action actor_id actor_email resource_type resource_id ctx detail = record {
  action = action;
  actor_id = some actor_id;
  actor_email = some actor_email;
  resource_type = some resource_type;
  resource_id = some resource_id;
  ctx = ctx;
  success = true;
  detail = detail;
}
