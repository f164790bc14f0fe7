-- ===== src/Auth/Login.antt =====
-- backend/app/services/auth.py: `register` and `authenticate`, with the helpers that lock accounts,
-- record failures and issue tokens. A handler gives its result and the database behind it; each
-- reads the clock once. What raises before a commit leaves the database as it was.
pub mod Lockout
pub mod Granted
pub mod Issued
use diagnosis_system.Prelude.{
  ℕ, zero, suc, ◌+◌, ◌*◌, Bool, true, false, not, Option, none, some, List, [], ◌∷◌, ◌++◌, Text,
  codes, text_eq, ltb, leb, ◌==◌, if◌then◌else◌, any,
}
use diagnosis_system.Audit.{
  AuditAction, AuditLog, Detail, RequestContext, bad_password, inactive, locked, no_detail,
  stored_agent, unknown_email, user_locked, user_login, user_login_failed, user_registered,
}
use diagnosis_system.Tables.{first}
use diagnosis_system.Errors.{
  AppError, Outcome, ok, raised, conflict, invalid_credentials, account_locked, inactive_user,
  value_error,
}
use diagnosis_system.Auth.Store.{User, RefreshToken, Db, save_user, log, user_entry}
use diagnosis_system.Auth.Security.{
  Platform, access, refresh, hash_password, verify_password, needs_rehash, token_claims, uuid_text,
  minutes, normalize_email,
}

-- `uuid4` and `gensalt`
pub record Draws : Type 0 where
  pub user_id : ℕ
  pub access_jti : Text
  pub refresh_jti : Text
  pub salt : ℕ

pub record TokenPair : Type 0 where
  pub access_token : Text
  pub refresh_token : Text
  pub expires_in : ℕ

module _ (p : Platform) where
  -- `get_by_email`: both sides of the comparison are in lower case
  unfoldable pub user_by_email : Text → List User → Option User
  user_by_email email = first (λ u. text_eq (p.lower u.email) (normalize_email p email))

  unfoldable pub email_exists : Text → List User → Bool
  email_exists email = any (λ u. text_eq (p.lower u.email) (normalize_email p email))

  -- `_record_failed_login`
  record_failed_login : Option ℕ → Text → RequestContext → Detail → Db → Db
  unfolding log
  record_failed_login user_id email ctx reason = log (record {
    action = user_login_failed;
    actor_id = user_id;
    actor_email = some (normalize_email p email);
    resource_type = some (codes "user");
    resource_id = none;
    ctx = ctx;
    success = false;
    detail = reason;
  })

  -- `_is_locked`
  abbrev pub is_locked : ℕ → Option ℕ → Bool
  is_locked now none = false
  is_locked now (some until) = ltb now until

  -- the user after one more failure
  abbrev pub fail_once : ℕ → User → User
  fail_once now u =
      if leb p.settings.max_failed_login_attempts (u.failed_login_attempts + 1)
      then record u {
        locked_until = some (now + minutes p.settings.account_lockout_minutes);
        failed_login_attempts = 0;
      }
      else record u { failed_login_attempts = u.failed_login_attempts + 1 }

  -- `_register_failed_attempt`
  register_failed_attempt : ℕ → User → RequestContext → Db → Db
  unfolding record_failed_login log
  register_failed_attempt now u ctx db =
      let saved = record db { users = save_user (fail_once now u) db.users } in
      if leb p.settings.max_failed_login_attempts (u.failed_login_attempts + 1)
      then record_failed_login (some u.id) u.email ctx locked
          (log (user_entry user_locked u ctx false no_detail) saved)
      else record_failed_login (some u.id) u.email ctx bad_password saved

  -- the session that is stored with a refresh token
  abbrev pub new_session : ℕ → Draws → ℕ → RequestContext → RefreshToken
  new_session now d user_id ctx = record {
    jti = d.refresh_jti;
    user_id = user_id;
    expires_at = now + minutes p.settings.refresh_token_expire_minutes;
    revoked_at = none;
    user_agent = stored_agent ctx.user_agent;
    ip_address = ctx.ip_address;
  }

  -- `_issue_tokens`
  unfoldable pub issue_tokens : ℕ → Draws → User → RequestContext → Db → TokenPair × Db
  issue_tokens now d u ctx db =
      let access_minutes = p.settings.access_token_expire_minutes in
      let refresh_minutes = p.settings.refresh_token_expire_minutes in
      let access_claims =
        token_claims p (uuid_text u.id) access (minutes access_minutes) d.access_jti now u.roles in
      let refresh_claims =
        token_claims p (uuid_text u.id) refresh (minutes refresh_minutes) d.refresh_jti now [] in
      (
        record {
          access_token = p.encode access_claims;
          refresh_token = p.encode refresh_claims;
          expires_in = access_minutes * 60;
        },
        record db { refresh_tokens = db.refresh_tokens ++ (new_session now d u.id ctx ∷ []) },
      )

  -- the hash to keep: `hash_password` may raise, which `none` stands for
  unfoldable pub kept_hash : Text → Draws → User → Option Text
  kept_hash password d u =
      if needs_rehash u.hashed_password
      then hash_password p password d.salt
      else some u.hashed_password

  -- the successful login, once the hash is settled
  log_in : ℕ → Draws → User → RequestContext → Db → Option Text → Outcome (User × TokenPair) × Db
  unfolding issue_tokens log
  log_in now d u ctx db none = (raised value_error, db)
  log_in now d u ctx db (some hash) =
      let u' = record u {
        failed_login_attempts = 0;
        locked_until = none;
        last_login_at = some now;
        hashed_password = hash;
      } in
      let issued = issue_tokens now d u' ctx (record db { users = save_user u' db.users }) in
      (ok (u', issued.0), log (user_entry user_login u' ctx true no_detail) issued.1)

  pub authenticate_user :
      ℕ → Draws → Text → RequestContext → Db → User → Outcome (User × TokenPair) × Db
  unfolding record_failed_login register_failed_attempt log_in
  authenticate_user now d password ctx db u =
      if is_locked now u.locked_until
      then (raised account_locked, record_failed_login (some u.id) u.email ctx locked db)
      else if not (verify_password p password u.hashed_password)
      then (raised invalid_credentials, register_failed_attempt now u ctx db)
      else if not u.is_active
      then (raised inactive_user, record_failed_login (some u.id) u.email ctx inactive db)
      else log_in now d u ctx db (kept_hash password d u)

  unfoldable pub authenticate :
      ℕ → Draws → Text → Text → RequestContext → Db → Outcome (User × TokenPair) × Db
  unfolding authenticate_user record_failed_login
  authenticate now d email password ctx db = elim (user_by_email email db.users) [
    | none ↦ (raised invalid_credentials, record_failed_login none email ctx unknown_email db)
    | some u ↦ authenticate_user now d password ctx db u
  ]

  -- `register`, once the password is hashed
  register_hashed :
      Draws → Text → Option Text → RequestContext → Db → Option Text → Outcome User × Db
  unfolding log
  register_hashed d email full_name ctx db none = (raised value_error, db)
  register_hashed d email full_name ctx db (some hash) =
      let u : User = record {
        id = d.user_id;
        email = email;
        full_name = full_name;
        hashed_password = hash;
        is_active = true;
        is_verified = false;
        last_login_at = none;
        failed_login_attempts = 0;
        locked_until = none;
        roles = if any (text_eq (codes "viewer")) db.role_names then codes "viewer" ∷ [] else [];
      } in
      (
        ok u,
        log (user_entry user_registered u ctx true no_detail)
            (record db { users = db.users ++ (u ∷ []) }),
      )

  unfoldable pub register :
      Draws → Text → Text → Option Text → RequestContext → Db → Outcome User × Db
  unfolding register_hashed
  register d email password full_name ctx db =
      let normalized = normalize_email p email in
      if email_exists normalized db.users
      then (raised conflict, db)
      else register_hashed d normalized full_name ctx db (hash_password p password d.salt)
