-- ===== src/Auth/Login/Lockout.antt =====
-- Wrong passwords lock an account, and a locked account stays shut.
use diagnosis_system.Prelude.{
  ℕ, ◌+◌, ◌≤◌, ◌<◌, ◌≡◌, refl, subst, true, false, none, some, List, [], ◌∷◌, arith, Text, text_eq,
  length, All, ◌==◌,
}
use diagnosis_system.Errors.{account_locked, invalid_credentials, raised}
use diagnosis_system.Audit.{RequestContext}
use diagnosis_system.Auth.Store.{User, Db, save_user}
use diagnosis_system.Tables.Laws.{first-update_where, first_holds}
use diagnosis_system.Auth.Security.{Platform, normalize_email, verify_password, minutes}
use diagnosis_system.Auth.Login.{
  Draws, is_locked, fail_once, register_failed_attempt, authenticate, user_by_email,
}

module _ (p : Platform) where
  -- While an account is locked, a login is refused as such whatever the password, and changes
  -- neither users nor tokens.
  pub authenticate_locked :
      (now : ℕ) (d : Draws) (email password : Text) (ctx : RequestContext) (db : Db) (u : User)
      → user_by_email p email db.users ≡ some u
      → is_locked p now u.locked_until ≡ true
      → ((authenticate p now d email password ctx db).0 ≡ raised account_locked)
        × ((authenticate p now d email password ctx db).1.users ≡ db.users)
        × ((authenticate p now d email password ctx db).1.refresh_tokens ≡ db.refresh_tokens)
  unfolding authenticate
  authenticate_locked now d email password ctx db u found locked = ground arith

  -- A wrong password on an account that is not locked.
  authenticate_wrong :
      (now : ℕ) (d : Draws) (email password : Text) (ctx : RequestContext) (db : Db) (u : User)
      → user_by_email p email db.users ≡ some u
      → is_locked p now u.locked_until ≡ false
      → verify_password p password u.hashed_password ≡ false
      → ((authenticate p now d email password ctx db).0 ≡ raised invalid_credentials)
        × ((authenticate p now d email password ctx db).1.users
            ≡ save_user (fail_once p now u) db.users)
        × ((authenticate p now d email password ctx db).1.refresh_tokens ≡ db.refresh_tokens)
  unfolding authenticate register_failed_attempt
  authenticate_wrong now d email password ctx db u found opened wrong = ground arith

  fail_once-id : (now : ℕ) (u : User) → (fail_once p now u).id ≡ u.id
  fail_once-id now u = ground arith

  fail_once-email : (now : ℕ) (u : User) → (fail_once p now u).email ≡ u.email
  fail_once-email now u = ground arith

  -- a saved user is found by the email that it was found by
  pub user_by_email-save_user :
      (email : Text) (us : List User) (u v : User)
      → user_by_email p email us ≡ some u
      → v.id ≡ u.id
      → v.email ≡ u.email
      → user_by_email p email (save_user v us) ≡ some v
  unfolding user_by_email save_user
  user_by_email-save_user email us u v h i e =
      let matches = λ (x : User). text_eq (p.lower x.email) (normalize_email p email) in
      first-update_where matches (λ x. x.id == v.id) v us h (ground arith)
        (rw e (first_holds matches us h))

  pub record Attempt : Type 0 where
    pub now : ℕ
    pub draws : Draws
    pub password : Text
    pub ctx : RequestContext

  -- logins with one email, one after the other
  abbrev pub attempts : Text → List Attempt → Db → Db
  attempts email [] db = db
  attempts email (a ∷ rest) db =
      attempts email rest (authenticate p a.now a.draws email a.password a.ctx db).1

  -- The email finds an account that is not locked, with this hash and this many failures.
  record Facing (email : Text) (db : Db) (n : ℕ) (hash : Text) : Type 0 where
    user : User
    found : user_by_email p email db.users ≡ some user
    opened : user.locked_until ≡ none
    failures : user.failed_login_attempts ≡ n
    hashed : user.hashed_password ≡ hash

  abbrev after : Text → Attempt → Db → Db
  after email a db = (authenticate p a.now a.draws email a.password a.ctx db).1

  after_wrong :
      (email hash : Text) (a : Attempt) (db : Db) (n : ℕ) (f : Facing email db n hash)
      → verify_password p a.password hash ≡ false
      → user_by_email p email (after email a db).users ≡ some (fail_once p a.now f.user)
  after_wrong email hash a db n f wrong =
      let (_, users, _) =
        authenticate_wrong a.now a.draws email a.password a.ctx db f.user f.found (rw f.opened)
          (rw f.hashed wrong) in
      rw users (
        user_by_email-save_user email db.users f.user (fail_once p a.now f.user) f.found
          (fail_once-id a.now f.user) (fail_once-email a.now f.user))

  after-Facing :
      (email hash : Text) (a : Attempt) (db : Db) (n : ℕ)
      → Facing email db n hash
      → verify_password p a.password hash ≡ false
      → n + 2 ≤ p.settings.max_failed_login_attempts
      → Facing email (after email a db) (n + 1) hash
  after-Facing email hash a db n f wrong few = record {
    user = fail_once p a.now f.user;
    found = after_wrong email hash a db n f wrong;
    opened = ground (arith, f.opened, f.failures);
    failures = ground (arith, f.failures);
    hashed = ground (arith, f.hashed, f.failures);
  }

  unfoldable pub AllWrong : Text → List Attempt → Type 0
  AllWrong hash = All (λ a. verify_password p a.password hash ≡ false)

  -- Fewer failures than the limit only count.
  attempts-Facing :
      (email hash : Text) (as' : List Attempt) (db : Db) (n : ℕ)
      → Facing email db n hash
      → AllWrong hash as'
      → n + length as' + 1 ≤ p.settings.max_failed_login_attempts
      → Facing email (attempts email as' db) (n + length as') hash
  unfolding AllWrong
  attempts-Facing email hash [] db n f wrong few =
      let none_more : n ≡ n + 0 = omega arith in subst (λ k. Facing email db k hash) none_more f
  attempts-Facing email hash (a ∷ rest) db n f wrong few =
      let one_more : n + 1 + length rest ≡ n + length (a ∷ rest) = omega arith in
      subst (λ k. Facing email (attempts email (a ∷ rest) db) k hash) one_more
        (attempts-Facing email hash rest (after email a db) (n + 1)
          (after-Facing email hash a db n f wrong.0 (omega arith)) wrong.1 (omega arith))

  -- As many wrong passwords as the limit, counted from an account with no failures that is not
  -- locked, lock it: from the last of them until the lockout ends every login with its email is
  -- refused as locked, whatever the password.
  pub lockout :
      (email : Text) (as' : List Attempt) (a : Attempt) (db : Db) (u : User)
      → user_by_email p email db.users ≡ some u
      → u.locked_until ≡ none
      → u.failed_login_attempts ≡ 0
      → AllWrong u.hashed_password as'
      → verify_password p a.password u.hashed_password ≡ false
      → length as' + 1 ≡ p.settings.max_failed_login_attempts
      → (now : ℕ) (d : Draws) (password : Text) (ctx : RequestContext)
      → now < a.now + minutes p.settings.account_lockout_minutes
      → (authenticate p now d email password ctx (after email a (attempts email as' db))).0
        ≡ raised account_locked
  lockout email as' a db u found opened zero_failures wrong last_wrong enough now d password ctx
        early =
      let hash = u.hashed_password in
      let start : Facing email db 0 hash = record {
        user = u;
        found = found;
        opened = opened;
        failures = zero_failures;
        hashed = refl;
      } in
      let f = attempts-Facing email hash as' db 0 start wrong (omega arith) in
      let db' = after email a (attempts email as' db) in
      let v = fail_once p a.now f.user in
      (authenticate_locked now d email password ctx db' v
        (after_wrong email hash a (attempts email as' db) (0 + length as') f last_wrong)
        (ground (arith, f.failures))).0
