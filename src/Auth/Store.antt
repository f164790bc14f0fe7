-- ===== src/Auth/Store.antt =====
-- backend/app/models/user.py, with the queries of repositories/user.py.
-- Ids are numbers (a UUID has 128 bits), times are microseconds since the epoch.
use diagnosis_system.Prelude.{
  ℕ, Bool, not, ◌&&◌, Option, some, List, Text, codes, text_eq, ltb, ◌==◌,
}
use diagnosis_system.Tables.{is_set, first, update_where, count_where}
use diagnosis_system.Audit.{AuditAction, Detail, RequestContext, AuditLog, append_entry}

pub record User : Type 0 where
  pub id : ℕ
  pub email : Text
  pub full_name : Option Text
  pub hashed_password : Text
  pub is_active : Bool
  pub is_verified : Bool
  pub last_login_at : Option ℕ
  pub failed_login_attempts : ℕ
  pub locked_until : Option ℕ
  pub roles : List Text

pub record RefreshToken : Type 0 where
  pub jti : Text
  pub user_id : ℕ
  pub expires_at : ℕ
  pub revoked_at : Option ℕ
  pub user_agent : Option Text
  pub ip_address : Option Text

pub record PasswordResetToken : Type 0 where
  pub token_hash : Text
  pub user_id : ℕ
  pub expires_at : ℕ
  pub used_at : Option ℕ

pub record Mail : Type 0 where
  pub to : Text
  pub token : Text

pub record Db : Type 0 where
  pub users : List User
  pub role_names : List Text
  pub refresh_tokens : List RefreshToken
  pub reset_tokens : List PasswordResetToken
  pub audit_logs : List AuditLog
  pub outbox : List Mail

-- `get_with_roles`
unfoldable pub user_by_id : ℕ → List User → Option User
user_by_id id = first (λ u. u.id == id)

-- the changed attributes of a loaded user, as the commit writes them
unfoldable pub save_user : User → List User → List User
save_user v = update_where (λ u. u.id == v.id) (λ _. v)

-- `get_by_jti`
unfoldable pub token_by_jti : Text → List RefreshToken → Option RefreshToken
token_by_jti jti = first (λ t. text_eq t.jti jti)

abbrev pub is_live : ℕ → RefreshToken → Bool
is_live now t = not (is_set t.revoked_at) && ltb now t.expires_at

-- `get_active_by_jti`
unfoldable pub active_by_jti : ℕ → Text → List RefreshToken → Option RefreshToken
active_by_jti now jti = first (λ t. text_eq t.jti jti && is_live now t)

-- `revoke`, which leaves a token that is revoked as it is
unfoldable pub revoke : ℕ → Text → List RefreshToken → List RefreshToken
revoke now jti =
    update_where (λ t. text_eq t.jti jti && not (is_set t.revoked_at))
      (λ t. record t { revoked_at = some now })

abbrev pub open_session : ℕ → RefreshToken → Bool
open_session user_id t = t.user_id == user_id && not (is_set t.revoked_at)

-- `revoke_all_for_user`: the tokens and the number of rows
unfoldable pub revoke_all_for_user : ℕ → ℕ → List RefreshToken → List RefreshToken × ℕ
revoke_all_for_user now user_id ts = (
  update_where (open_session user_id) (λ t. record t { revoked_at = some now }) ts,
  count_where (open_session user_id) ts,
)

abbrev pub is_usable : ℕ → PasswordResetToken → Bool
is_usable now t = not (is_set t.used_at) && ltb now t.expires_at

-- `get_active_by_hash`
unfoldable pub active_by_hash : ℕ → Text → List PasswordResetToken → Option PasswordResetToken
active_by_hash now hash = first (λ t. text_eq t.token_hash hash && is_usable now t)

-- `invalidate_for_user`
unfoldable pub invalidate_for_user : ℕ → ℕ → List PasswordResetToken → List PasswordResetToken
invalidate_for_user now user_id =
    update_where (λ t. t.user_id == user_id && not (is_set t.used_at))
      (λ t. record t { used_at = some now })

-- `record.used_at = now`
unfoldable pub mark_used : ℕ → Text → List PasswordResetToken → List PasswordResetToken
mark_used now hash =
    update_where (λ t. text_eq t.token_hash hash && is_usable now t)
      (λ t. record t { used_at = some now })

-- `AuditService.record`
unfoldable pub log : AuditLog → Db → Db
unfolding append_entry
log entry db = record db { audit_logs = append_entry entry db.audit_logs }

-- an entry about a user's own account
abbrev pub user_entry : AuditAction → User → RequestContext → Bool → Detail → AuditLog
user_entry action u ctx success detail = record {
  action = action;
  actor_id = some u.id;
  actor_email = some u.email;
  resource_type = some (codes "user");
  resource_id = some u.id;
  ctx = ctx;
  success = success;
  detail = detail;
}
