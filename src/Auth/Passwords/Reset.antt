-- ===== src/Auth/Passwords/Reset.antt =====
-- Password resets: what one does, and that a link works once, until it expires or a newer one is
-- asked for.
use diagnosis_system.Prelude.{
  ℕ, ◌≤◌, ◌≡◌, ◌≢◌, refl, ◌∙◌, ap, true, ◌&&◌, inl, inr, none, some, List, arith, Text, text_eq,
  text_eq_iff, ◌==◌, ==_iff, Option-cases,
}
use diagnosis_system.Errors.{ok, raised, token_error}
use diagnosis_system.Audit.{RequestContext}
use diagnosis_system.Auth.Store.{
  User, PasswordResetToken, Db, open_session, user_by_id, save_user, revoke_all_for_user,
  active_by_hash, mark_used, is_usable,
}
use diagnosis_system.Tables.Laws.{
  count_where_none, first-update_where, first_holds, first-update_where-none,
}
use diagnosis_system.Auth.Security.{
  Platform, Documented, hash_password, verify_password, verify_password-hash_password,
}
use diagnosis_system.Auth.Sessions.Logout.{open_sessions}
use diagnosis_system.Auth.Passwords.{unlocked, reset_password}

module _ (p : Platform) where
  -- what a reset finds, and what it writes
  pub record IsReset (now : ℕ) (token password : Text) (salt : ℕ) (ctx : RequestContext) (db : Db)
      (u : User) : Type 0 where
    pub row : PasswordResetToken
    pub live : active_by_hash now (p.sha256 token) db.reset_tokens ≡ some row
    pub owner : User
    pub found : user_by_id row.user_id db.users ≡ some owner
    pub active : owner.is_active ≡ true
    pub hash : Text
    pub hashed : hash_password p password salt ≡ some hash
    pub result : u ≡ unlocked hash owner
    pub users :
        (reset_password p now token password salt ctx db).1.users
        ≡ save_user (unlocked hash owner) db.users
    pub rows :
        (reset_password p now token password salt ctx db).1.reset_tokens
        ≡ mark_used now row.token_hash db.reset_tokens
    pub sessions :
        (reset_password p now token password salt ctx db).1.refresh_tokens
        ≡ (revoke_all_for_user now owner.id db.refresh_tokens).0

  pub reset_password-IsReset :
      (now : ℕ) (token password : Text) (salt : ℕ) (ctx : RequestContext) (db : Db) (u : User)
      → (reset_password p now token password salt ctx db).0 ≡ ok u
      → IsReset now token password salt ctx db u
  unfolding reset_password
  reset_password-IsReset now token password salt ctx db u h =
      elim (Option-cases (active_by_hash now (p.sha256 token) db.reset_tokens)) [
        | inl e ↦ ground (arith, e)
        | inr (row, e) ↦ elim (Option-cases (user_by_id row.user_id db.users)) [
          | inl f ↦ ground (arith, e, f)
          | inr (owner, f) ↦ elim (Option-cases (hash_password p password salt)) [
            | inl g ↦ ground (arith, e, f, g)
            | inr (hash, g) ↦ record {
              row = row;
              live = e;
              owner = owner;
              found = f;
              active = ground (arith, e, f, g);
              hash = hash;
              hashed = g;
              result = ground (arith, e, f, g);
              users = ground (arith, e, f, g);
              rows = ground (arith, e, f, g);
              sessions = ground (arith, e, f, g);
            }
          ]
        ]
      ]

  -- A reset that is refused, for whatever reason, leaves the database as it was.
  pub reset_password_refused :
      (now : ℕ) (token password : Text) (salt : ℕ) (ctx : RequestContext) (db : Db)
      → ((u : User) → (reset_password p now token password salt ctx db).0 ≢ ok u)
      → (reset_password p now token password salt ctx db).1 ≡ db
  unfolding reset_password
  reset_password_refused now token password salt ctx db h =
      elim (Option-cases (active_by_hash now (p.sha256 token) db.reset_tokens)) [
        | inl e ↦ ground (arith, e)
        | inr (row, e) ↦ elim (Option-cases (user_by_id row.user_id db.users)) [
          | inl f ↦ ground (arith, e, f)
          | inr (owner, f) ↦ elim (Option-cases (hash_password p password salt)) [
            | inl g ↦ ground (arith, e, f, g)
            | inr (hash, g) ↦ ground (arith, e, f, g, h (unlocked hash owner))
          ]
        ]
      ]

  owner_found :
      (id : ℕ) (users : List User) {u : User}
      → user_by_id id users ≡ some u
      → user_by_id u.id users ≡ some u
  unfolding user_by_id
  owner_found id users {u} h =
      ap (λ i. user_by_id i users) ((==_iff u.id id).0 (first_holds (λ v. v.id == id) users h)) ∙ h

  stored :
      (hash : Text) (u : User) (users : List User)
      → user_by_id u.id users ≡ some u
      → user_by_id u.id (save_user (unlocked hash u) users) ≡ some (unlocked hash u)
  unfolding user_by_id save_user
  stored hash u users h =
      first-update_where (λ v. v.id == u.id) (λ v. v.id == u.id) (unlocked hash u) users h
        (ground arith) (ground arith)

  -- After a successful reset every session of the user is revoked, the user is found by its id, is
  -- active and not locked, and the new password is the one that verifies.
  pub reset_password_secures :
      (now : ℕ) (token password : Text) (salt : ℕ) (ctx : RequestContext) (db : Db) (u : User)
      → Documented p
      → (reset_password p now token password salt ctx db).0 ≡ ok u
      → (open_sessions u.id (reset_password p now token password salt ctx db).1 ≡ 0)
        × (user_by_id u.id (reset_password p now token password salt ctx db).1.users ≡ some u)
        × (u.is_active ≡ true)
        × (u.locked_until ≡ none)
        × (verify_password p password u.hashed_password ≡ true)
  unfolding revoke_all_for_user save_user user_by_id
  reset_password_secures now token password salt ctx db u doc h =
      let r = reset_password-IsReset now token password salt ctx db u h in
      rw (r.result, r.users, r.sessions)
        (
          count_where_none (open_session r.owner.id) (λ t. record t { revoked_at = some now })
              db.refresh_tokens (λ t e. ground arith),
          stored r.hash r.owner db.users (owner_found r.row.user_id db.users r.found),
          r.active,
          refl,
          verify_password-hash_password p password salt doc r.hashed,
        )

  -- the row of a link that was used is out of reach at any later time
  used_up :
      (now later : ℕ) (hash : Text) (rows : List PasswordResetToken)
      → now ≤ later
      → active_by_hash later hash (mark_used now hash rows) ≡ none
  unfolding active_by_hash mark_used
  used_up now later hash rows le =
      first-update_where-none (λ t. text_eq t.token_hash hash && is_usable later t)
        (λ t. text_eq t.token_hash hash && is_usable now t) (λ t. record t { used_at = some now })
        rows (λ t e. ground arith) (λ t e. ground (arith, le))

  row_hash :
      (now : ℕ) (hash : Text) (rows : List PasswordResetToken) {row : PasswordResetToken}
      → active_by_hash now hash rows ≡ some row
      → text_eq row.token_hash hash ≡ true
  unfolding active_by_hash
  row_hash now hash rows h =
      let held = first_holds (λ t. text_eq t.token_hash hash && is_usable now t) rows h in
      ground arith

  refused :
      (now : ℕ) (token password : Text) (salt : ℕ) (ctx : RequestContext) (db : Db)
      → active_by_hash now (p.sha256 token) db.reset_tokens ≡ none
      → (reset_password p now token password salt ctx db).0 ≡ raised token_error
  unfolding reset_password
  refused now token password salt ctx db h = ground (arith, h)

  -- A reset link works once: after a successful reset, the same link is refused at any later time.
  pub reset_password_once :
      (now later : ℕ) (token password password' : Text) (salt salt' : ℕ) (ctx ctx' : RequestContext)
      (db : Db) (u : User)
      → (reset_password p now token password salt ctx db).0 ≡ ok u
      → now ≤ later
      → (reset_password p later token password' salt' ctx'
          (reset_password p now token password salt ctx db).1).0
        ≡ raised token_error
  reset_password_once now later token password password' salt salt' ctx ctx' db u h le =
      let r = reset_password-IsReset now token password salt ctx db u h in
      let same =
        (text_eq_iff r.row.token_hash (p.sha256 token)).0
          (row_hash now (p.sha256 token) db.reset_tokens r.live) in
      refused later token password' salt' ctx' (reset_password p now token password salt ctx db).1 (
        ap (active_by_hash later (p.sha256 token)) r.rows
        ∙ ap (λ hash. active_by_hash later (p.sha256 token) (mark_used now hash db.reset_tokens))
            same
        ∙ used_up now later (p.sha256 token) db.reset_tokens le)
