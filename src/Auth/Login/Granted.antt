-- ===== src/Auth/Login/Granted.antt =====
-- When `authenticate` issues tokens, and what it leaves alone when it does not.
use diagnosis_system.Prelude.{
  ℕ, ◌≡◌, ◌≢◌, refl, sym, ap, ◌∙◌, true, false, inl, inr, Option, none, some, Option-cases, [], ◌∷◌,
  ◌++◌, arith, Text,
}
use diagnosis_system.Errors.{AppError, Outcome, ok, raised}
use diagnosis_system.Audit.{RequestContext}
use diagnosis_system.Auth.Store.{User, Db}
use diagnosis_system.Auth.Security.{Platform, verify_password}
use diagnosis_system.Auth.Login.{
  Draws, TokenPair, is_locked, issue_tokens, new_session, register_failed_attempt, authenticate,
  authenticate_user, user_by_email, log_in, kept_hash,
}

module _ (p : Platform) (now : ℕ) (d : Draws) (email password : Text) (ctx : RequestContext)
    (db : Db) where
  -- The account passed all checks, its failures are cleared, and one session is stored for it.
  pub record IsGranted (v : User) : Type 0 where
    pub user : User
    pub found : user_by_email p email db.users ≡ some user
    pub opened : is_locked p now user.locked_until ≡ false
    pub verified : verify_password p password user.hashed_password ≡ true
    pub active : user.is_active ≡ true
    pub same : v.id ≡ user.id
    pub cleared : v.failed_login_attempts ≡ 0
    pub unlocked : v.locked_until ≡ none
    pub stored :
        (authenticate p now d email password ctx db).1.refresh_tokens
        ≡ db.refresh_tokens ++ (new_session p now d user.id ctx ∷ [])

  log_in-granted :
      (u v : User) (t : TokenPair) (o : Option Text)
      → (log_in p now d u ctx db o).0 ≡ ok (v, t)
      → (v.id ≡ u.id)
        × (v.failed_login_attempts ≡ 0)
        × (v.locked_until ≡ none)
        × ((log_in p now d u ctx db o).1.refresh_tokens
            ≡ db.refresh_tokens ++ (new_session p now d u.id ctx ∷ []))
  unfolding log_in issue_tokens
  log_in-granted u v t none h = cc
  log_in-granted u v t (some hash) h = ground arith

  log_in-refused :
      (u : User) (e : AppError) (o : Option Text)
      → (log_in p now d u ctx db o).0 ≡ raised e
      → (log_in p now d u ctx db o).1 ≡ db
  unfolding log_in
  log_in-refused u e none h = refl
  log_in-refused u e (some hash) h = cc

  pub authenticate_found :
      (u : User)
      → user_by_email p email db.users ≡ some u
      → authenticate p now d email password ctx db ≡ authenticate_user p now d password ctx db u
  unfolding authenticate
  authenticate_found u h = rw (h, authenticate)

  authenticate_missing :
      (v : User) (t : TokenPair)
      → user_by_email p email db.users ≡ none
      → (authenticate p now d email password ctx db).0 ≢ ok (v, t)
  unfolding authenticate
  authenticate_missing v t h e = cc (rw (h, authenticate) at e)

  checks_passed :
      (u v : User) (t : TokenPair)
      → (authenticate_user p now d password ctx db u).0 ≡ ok (v, t)
      → (is_locked p now u.locked_until ≡ false)
        × (verify_password p password u.hashed_password ≡ true)
        × (u.is_active ≡ true)
        × (authenticate_user p now d password ctx db u
            ≡ log_in p now d u ctx db (kept_hash p password d u))
  unfolding authenticate_user
  checks_passed u v t h = (ground arith, ground arith, ground arith, ground arith)

  -- A login succeeds only for an account that its email finds, that is not locked and is active, and
  -- whose password it gives; it clears the failures and stores one session.
  pub authenticate-IsGranted :
      (v : User) (t : TokenPair)
      → (authenticate p now d email password ctx db).0 ≡ ok (v, t)
      → IsGranted v
  authenticate-IsGranted v t h = elim (Option-cases (user_by_email p email db.users)) [
    | inl missing ↦ absurd (authenticate_missing v t missing h)
    | inr (u, found) ↦
        let run = authenticate_found u found in
        let ran = sym (ap (λ (r : Outcome (User × TokenPair) × Db). r.0) run) ∙ h in
        let (opened, verified, active, go) = checks_passed u v t ran in
        let logged = sym (ap (λ (r : Outcome (User × TokenPair) × Db). r.0) go) ∙ ran in
        let (same, cleared, unlocked, stored) =
          log_in-granted u v t (kept_hash p password d u) logged in
        record {
          user = u;
          found = found;
          opened = opened;
          verified = verified;
          active = active;
          same = same;
          cleared = cleared;
          unlocked = unlocked;
          stored =
              ap (λ (r : Outcome (User × TokenPair) × Db). r.1.refresh_tokens) (run ∙ go) ∙ stored;
        }
  ]

  -- A login that fails stores no session.
  pub authenticate_refused :
      (e : AppError)
      → (authenticate p now d email password ctx db).0 ≡ raised e
      → (authenticate p now d email password ctx db).1.refresh_tokens ≡ db.refresh_tokens
  unfolding authenticate register_failed_attempt log_in
  authenticate_refused e h = ground arith
