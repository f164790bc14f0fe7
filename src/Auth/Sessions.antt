-- ===== src/Auth/Sessions.antt =====
-- backend/app/services/auth.py: `refresh` and `logout`.
pub mod Rotation
pub mod Renewal
pub mod Logout
use diagnosis_system.Prelude.{
  ℕ, zero, suc, Bool, true, false, not, ◌&&◌, Option, none, some, List, [], ◌∷◌, Text, ◌==◌,
  if◌then◌else◌,
}
use diagnosis_system.Errors.{Outcome, inactive_user, ok, raised, token_error}
use diagnosis_system.Audit.{RequestContext, no_detail, sessions, token_refreshed, user_logout}
use diagnosis_system.Tables.{is_set}
use diagnosis_system.Auth.Store.{
  User, RefreshToken, Db, user_by_id, token_by_jti, active_by_jti, revoke, revoke_all_for_user, log,
  user_entry,
}
use diagnosis_system.Auth.Security.{Platform, Claims, refresh, decode_token}
use diagnosis_system.Auth.Login.{Draws, TokenPair, issue_tokens}

module _ (p : Platform) where
  -- the presented session, revoked
  abbrev pub revoke_in : ℕ → Text → Db → Db
  revoke_in now jti db = record db { refresh_tokens = revoke now jti db.refresh_tokens }

  -- the session's user is there and active
  rotate : ℕ → Draws → RequestContext → Db → Text → User → Outcome TokenPair × Db
  unfolding log
  rotate now d ctx db jti user =
      let issued = issue_tokens p now d user ctx (revoke_in now jti db) in
      (ok issued.0, log (user_entry token_refreshed user ctx true no_detail) issued.1)

  rotate_if_active : ℕ → Draws → RequestContext → Db → Text → Option User → Outcome TokenPair × Db
  unfolding rotate
  rotate_if_active now d ctx db jti none = (raised inactive_user, revoke_in now jti db)
  rotate_if_active now d ctx db jti (some user) =
      if not user.is_active
      then (raised inactive_user, revoke_in now jti db)
      else rotate now d ctx db jti user

  refresh_stored : ℕ → Draws → RequestContext → Db → Option RefreshToken → Outcome TokenPair × Db
  unfolding rotate_if_active
  refresh_stored now d ctx db none = (raised token_error, db)
  refresh_stored now d ctx db (some stored) =
      rotate_if_active now d ctx db stored.jti (user_by_id stored.user_id db.users)

  refresh_claims : ℕ → Draws → RequestContext → Db → Option Claims → Outcome TokenPair × Db
  unfolding refresh_stored
  refresh_claims now d ctx db none = (raised token_error, db)
  refresh_claims now d ctx db (some c) =
      refresh_stored now d ctx db (active_by_jti now c.jti db.refresh_tokens)

  -- `AuthService.refresh`
  unfoldable pub refresh_session : ℕ → Draws → Text → RequestContext → Db → Outcome TokenPair × Db
  unfolding refresh_claims
  refresh_session now d token ctx db =
      refresh_claims now d ctx db (decode_token p token refresh now)

  -- "Only the owner may revoke a session."
  revoke_own : ℕ → User → Db → Option RefreshToken → Db × ℕ
  revoke_own now user db none = (db, 0)
  revoke_own now user db (some stored) =
      if stored.user_id == user.id && not (is_set stored.revoked_at)
      then (revoke_in now stored.jti db, 1)
      else (db, 0)

  revoke_claimed : ℕ → User → Db → Option Claims → Db × ℕ
  unfolding revoke_own
  revoke_claimed now user db none = (db, 0)
  revoke_claimed now user db (some c) =
      revoke_own now user db (token_by_jti c.jti db.refresh_tokens)

  -- `elif refresh_token`
  revoke_presented : ℕ → User → Db → Option Text → Db × ℕ
  unfolding revoke_claimed
  revoke_presented now user db none = (db, 0)
  revoke_presented now user db (some []) = (db, 0)
  revoke_presented now user db (some (c ∷ cs)) =
      revoke_claimed now user db (decode_token p (c ∷ cs) refresh now)

  revoke_every : ℕ → User → Db → Db × ℕ
  unfolding revoke_all_for_user
  revoke_every now user db =
      let (tokens, n) = revoke_all_for_user now user.id db.refresh_tokens in
      (record db { refresh_tokens = tokens }, n)

  -- `AuthService.logout`: the number of sessions revoked
  unfoldable pub logout : ℕ → User → Option Text → Bool → RequestContext → Db → ℕ × Db
  unfolding revoke_every revoke_presented log
  logout now user token all_sessions ctx db =
      let (db', revoked) =
        if all_sessions then revoke_every now user db else revoke_presented now user db token in
      (revoked, log (user_entry user_logout user ctx true (sessions all_sessions revoked)) db')
