-- ===== src/Auth/Passwords.antt =====
-- backend/app/services/auth.py: `request_password_reset`, `reset_password` and `change_password`.
pub mod Reset
pub mod Change
pub mod Links
use diagnosis_system.Prelude.{
  ℕ, ◌+◌, Bool, true, false, not, Option, none, some, List, [], ◌∷◌, ◌++◌, Text, codes,
  if◌then◌else◌,
}
use diagnosis_system.Errors.{
  Outcome, inactive_user, invalid_credentials, ok, raised, token_error, value_error,
}
use diagnosis_system.Audit.{
  RequestContext, no_detail, password_changed, password_reset_completed, password_reset_requested,
  unknown_or_inactive,
}
use diagnosis_system.Auth.Store.{
  User, PasswordResetToken, Db, Mail, user_by_id, save_user, revoke_all_for_user, active_by_hash,
  invalidate_for_user, mark_used, log, user_entry,
}
use diagnosis_system.Auth.Security.{
  Platform, hash_password, verify_password, minutes, normalize_email,
}
use diagnosis_system.Auth.Login.{user_by_email}

-- the user with a new password
abbrev pub unlocked : Text → User → User
unlocked hash u = record u {
  hashed_password = hash;
  failed_login_attempts = 0;
  locked_until = none;
}

module _ (p : Platform) where
  -- an unknown or inactive account: an entry in the audit log, and no mail
  ignore_request : Text → RequestContext → Db → Option Text × Db
  unfolding log
  ignore_request email ctx db = (
    none,
    log
        (record {
          action = password_reset_requested;
          actor_id = none;
          actor_email = some (normalize_email p email);
          resource_type = none;
          resource_id = none;
          ctx = ctx;
          success = false;
          detail = unknown_or_inactive;
        })
        db,
  )

  -- the row that is stored for a plaintext
  abbrev pub reset_row : ℕ → Text → ℕ → PasswordResetToken
  reset_row now plaintext user_id = record {
    token_hash = p.sha256 plaintext;
    user_id = user_id;
    expires_at = now + minutes p.settings.password_reset_token_expire_minutes;
    used_at = none;
  }

  issue_reset : ℕ → Text → RequestContext → Db → User → Option Text × Db
  unfolding log
  issue_reset now plaintext ctx db u =
      let tokens =
        invalidate_for_user now u.id db.reset_tokens ++ (reset_row now plaintext u.id ∷ []) in
      let logged =
        log (user_entry password_reset_requested u ctx true no_detail)
          (record db { reset_tokens = tokens }) in
      (
        some plaintext,
        record logged {
          outbox = logged.outbox ++ (record { to = u.email; token = plaintext } ∷ []);
        },
      )

  -- `request_password_reset`; `plaintext` is what `generate_opaque_token` draws
  unfoldable pub request_password_reset : ℕ → Text → Text → RequestContext → Db → Option Text × Db
  unfolding ignore_request issue_reset
  request_password_reset now plaintext email ctx db = elim (user_by_email p email db.users) [
    | none ↦ ignore_request email ctx db
    | some u ↦
        if not u.is_active then ignore_request email ctx db else issue_reset now plaintext ctx db u
  ]

  complete_reset :
      ℕ → RequestContext → Db → PasswordResetToken → User → Option Text → Outcome User × Db
  unfolding log
  complete_reset now ctx db row u none = (raised value_error, db)
  complete_reset now ctx db row u (some hash) =
      let u' = unlocked hash u in
      (
        ok u',
        log (user_entry password_reset_completed u' ctx true no_detail) (record db {
          users = save_user u' db.users;
          reset_tokens = mark_used now row.token_hash db.reset_tokens;
          refresh_tokens = (revoke_all_for_user now u.id db.refresh_tokens).0;
        }),
      )

  reset_for :
      ℕ → Text → ℕ → RequestContext → Db → PasswordResetToken → Option User → Outcome User × Db
  unfolding complete_reset
  reset_for now password salt ctx db row none = (raised inactive_user, db)
  reset_for now password salt ctx db row (some u) =
      if not u.is_active
      then (raised inactive_user, db)
      else complete_reset now ctx db row u (hash_password p password salt)

  reset_row_found :
      ℕ → Text → ℕ → RequestContext → Db → Option PasswordResetToken → Outcome User × Db
  unfolding reset_for
  reset_row_found now password salt ctx db none = (raised token_error, db)
  reset_row_found now password salt ctx db (some row) =
      reset_for now password salt ctx db row (user_by_id row.user_id db.users)

  -- `reset_password`
  unfoldable pub reset_password : ℕ → Text → Text → ℕ → RequestContext → Db → Outcome User × Db
  unfolding reset_row_found
  reset_password now token password salt ctx db =
      reset_row_found now password salt ctx db (active_by_hash now (p.sha256 token) db.reset_tokens)

  change_hashed : ℕ → RequestContext → Db → User → Option Text → Outcome User × Db
  unfolding log
  change_hashed now ctx db u none = (raised value_error, db)
  change_hashed now ctx db u (some hash) =
      let u' = record u { hashed_password = hash } in
      (
        ok u',
        log (user_entry password_changed u' ctx true no_detail) (record db {
          users = save_user u' db.users;
          refresh_tokens = (revoke_all_for_user now u.id db.refresh_tokens).0;
        }),
      )

  -- `change_password`
  unfoldable pub change_password :
      ℕ → User → Text → Text → ℕ → RequestContext → Db → Outcome User × Db
  unfolding change_hashed
  change_password now u current password salt ctx db =
      if not (verify_password p current u.hashed_password)
      then (raised invalid_credentials, db)
      else change_hashed now ctx db u (hash_password p password salt)
