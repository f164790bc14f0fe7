-- ===== src/Auth/Passwords/Change.antt =====
-- Changing a password: what a change needs, and what it leaves.
use diagnosis_system.Prelude.{
  ℕ, ◌≡◌, true, inl, inr, some, arith, Text, refl, ◌==◌, Option-cases, Bool-cases,
}
use diagnosis_system.Errors.{ok}
use diagnosis_system.Audit.{RequestContext}
use diagnosis_system.Auth.Store.{User, Db, open_session, user_by_id, save_user, revoke_all_for_user}
use diagnosis_system.Tables.Laws.{count_where_none, first-update_where}
use diagnosis_system.Auth.Security.{
  Platform, Documented, hash_password, verify_password, verify_password-hash_password,
}
use diagnosis_system.Auth.Sessions.Logout.{open_sessions}
use diagnosis_system.Auth.Passwords.{change_password}

module _ (p : Platform) where
  -- what a change checks, and what it writes
  pub record IsChange (now : ℕ) (u : User) (current password : Text) (salt : ℕ)
      (ctx : RequestContext) (db : Db) (v : User) : Type 0 where
    pub known : verify_password p current u.hashed_password ≡ true
    pub hash : Text
    pub hashed : hash_password p password salt ≡ some hash
    pub result : v ≡ record u { hashed_password = hash }
    pub users :
        (change_password p now u current password salt ctx db).1.users
        ≡ save_user (record u { hashed_password = hash }) db.users
    pub sessions :
        (change_password p now u current password salt ctx db).1.refresh_tokens
        ≡ (revoke_all_for_user now u.id db.refresh_tokens).0

  pub change_password-IsChange :
      (now : ℕ) (u : User) (current password : Text) (salt : ℕ) (ctx : RequestContext) (db : Db)
      (v : User)
      → (change_password p now u current password salt ctx db).0 ≡ ok v
      → IsChange now u current password salt ctx db v
  unfolding change_password
  change_password-IsChange now u current password salt ctx db v h =
      elim (Bool-cases (verify_password p current u.hashed_password)) [
        | inl e ↦ elim (Option-cases (hash_password p password salt)) [
          | inl g ↦ ground (arith, e, g)
          | inr (hash, g) ↦ record {
            known = e;
            hash = hash;
            hashed = g;
            result = ground (arith, e, g);
            users = ground (arith, e, g);
            sessions = ground (arith, e, g);
          }
        ]
        | inr e ↦ ground (arith, e)
      ]

  -- A password is changed only by a caller who gives the current one. After the change, of a user
  -- of the table, every session of the user is revoked, the new password is the one that verifies
  -- for the user that the table has under its id, and that user is otherwise as before.
  pub change_password_secures :
      (now : ℕ) (u : User) (current password : Text) (salt : ℕ) (ctx : RequestContext) (db : Db)
      (v : User)
      → Documented p
      → user_by_id u.id db.users ≡ some u
      → (change_password p now u current password salt ctx db).0 ≡ ok v
      → (verify_password p current u.hashed_password ≡ true)
        × (open_sessions u.id (change_password p now u current password salt ctx db).1 ≡ 0)
        × (user_by_id u.id (change_password p now u current password salt ctx db).1.users ≡ some v)
        × (verify_password p password v.hashed_password ≡ true)
        × (v ≡ record u { hashed_password = v.hashed_password })
  unfolding revoke_all_for_user save_user user_by_id
  change_password_secures now u current password salt ctx db v doc found h =
      let r = change_password-IsChange now u current password salt ctx db v h in
      rw (r.result, r.users, r.sessions)
        (
          r.known,
          count_where_none (open_session u.id) (λ t. record t { revoked_at = some now })
              db.refresh_tokens (λ t e. ground arith),
          first-update_where (λ w. w.id == u.id) (λ w. w.id == u.id)
              (record u { hashed_password = r.hash }) db.users found (ground arith) (ground arith),
          verify_password-hash_password p password salt doc r.hashed,
          refl,
        )
