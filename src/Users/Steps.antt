-- ===== src/Users/Steps.antt =====
-- Whatever the services do to the table of accounts, it stays a directory.
use diagnosis_system.Prelude.{
  ℕ, ◌≡◌, ◌≢◌, ◌⊎◌, refl, sym, ap, subst, ◌∙◌, Bool, not, inl, inr, Option, none, some, List, [],
  ◌∷◌, arith, Text, text_eq, All, Pairwise, ◌==◌, ==_iff, Bool-cases, Option-cases,
}
use diagnosis_system.Errors.{Outcome-cases}
use diagnosis_system.Audit.{RequestContext}
use diagnosis_system.Tables.{first}
use diagnosis_system.Tables.Laws.{first_here, first_later, first-All}
use diagnosis_system.Auth.Store.{User, Db, user_by_id, save_user}
use diagnosis_system.Auth.Security.{
  Platform, Documented, normalize_email, hash_password, verify_password,
}
use diagnosis_system.Auth.Login.{
  Draws, register, authenticate, email_exists, user_by_email, is_locked, kept_hash, fail_once,
}
use diagnosis_system.Auth.Passwords.{change_password, reset_password, unlocked}
use diagnosis_system.Auth.Passwords.Reset.{reset_password-IsReset, reset_password_refused}
use diagnosis_system.Users.{
  UserAdminCreate, UserUpdate, update, create, delete, delete_user, resolve_roles,
}
use diagnosis_system.Users.Updates.{update-cases}
use diagnosis_system.Users.Directory.{
  OtherId, IsDirectory, add-IsDirectory, save_email-IsDirectory, save_same-IsDirectory,
  filter-IsDirectory,
}

-- Where ids differ, an account that a query finds is the one with its id.
found_by_id :
    (q : User → Bool) (users : List User) {u : User}
    → Pairwise OtherId users
    → first q users ≡ some u
    → user_by_id u.id users ≡ some u
unfolding user_by_id
found_by_id q [] ids h = cc
found_by_id q (w ∷ ws) {u} ids h = elim (Bool-cases (q w)) [
  | inl here ↦
      let same : w ≡ u = cc (sym (first_here q w ws here) ∙ h) in
      first_here (λ x. x.id == u.id) w ws ((==_iff w.id u.id).1 (ap (λ (x : User). x.id) same))
      ∙ ap some same
  | inr later ↦
      let found = sym (first_later q w ws later) ∙ h in
      let ne : w.id ≢ u.id = first-All (OtherId w) q ws ids.0 found in
      first_later (λ x. x.id == u.id) w ws (ground arith) ∙ found_by_id q ws ids.1 found
]

by_id :
    (id : ℕ) (users : List User) {u : User}
    → user_by_id id users ≡ some u
    → first (λ w. w.id == id) users ≡ some u
unfolding user_by_id
by_id id users h = h

-- what a call that loads the account `u` may have saved
abbrev Saves : User → List User → List User → Type 0
Saves u users users' =
    (users' ≡ users)
    ⊎ ((v : User) × (v.id ≡ u.id) × (v.email ≡ u.email) × (users' ≡ save_user v users))

module _ (p : Platform) where
  Saves-IsDirectory :
      (u : User) (users users' : List User)
      → IsDirectory p users
      → user_by_id u.id users ≡ some u
      → Saves u users users'
      → IsDirectory p users'
  Saves-IsDirectory u users users' d found (inl e) = subst (IsDirectory p) (sym e) d
  Saves-IsDirectory u users users' d found (inr (v, same, address, e)) =
      subst (IsDirectory p) (sym e)
        (save_same-IsDirectory p u v users d (ap (λ id. user_by_id id users) same ∙ found) address)

  module _ (now : ℕ) (d : Draws) (email password : Text) (ctx : RequestContext) (db : Db) where
    authenticate-Saves :
        (u : User)
        → user_by_email p email db.users ≡ some u
        → Saves u db.users (authenticate p now d email password ctx db).1.users
    unfolding authenticate
    authenticate-Saves u z = elim (Bool-cases (is_locked p now u.locked_until)) [
      | inl e ↦ inl (ground (arith, z, e))
      | inr e ↦ elim (Bool-cases (verify_password p password u.hashed_password)) [
        | inr f ↦ inr (fail_once p now u, ground arith, ground arith, ground (arith, z, e, f))
        | inl f ↦ elim (Bool-cases u.is_active) [
          | inr g ↦ inl (ground (arith, z, e, f, g))
          | inl g ↦ elim (Option-cases (kept_hash p password d u)) [
            | inl k ↦ inl (ground (arith, z, e, f, g, k))
            | inr (hash, k) ↦ inr (
              record u {
                failed_login_attempts = 0;
                locked_until = none;
                last_login_at = some now;
                hashed_password = hash;
              },
              refl,
              refl,
              ground (arith, z, e, f, g, k),
            )
          ]
        ]
      ]
    ]

    authenticate-IsDirectory :
        IsDirectory p db.users → IsDirectory p (authenticate p now d email password ctx db).1.users
    unfolding authenticate user_by_email
    authenticate-IsDirectory dir = elim (Option-cases (user_by_email p email db.users)) [
      | inl e ↦ subst (IsDirectory p) (ground (arith, e)) dir
      | inr (u, e) ↦
          Saves-IsDirectory u db.users (authenticate p now d email password ctx db).1.users dir
            (found_by_id (λ w. text_eq (p.lower w.email) (normalize_email p email)) db.users dir.ids
              e)
            (authenticate-Saves u e)
    ]

  register-IsDirectory :
      (doc : Documented p) (d : Draws) (email password : Text) (full_name : Option Text)
      (ctx : RequestContext) (db : Db)
      → All (λ w. w.id ≢ d.user_id) db.users
      → IsDirectory p db.users
      → IsDirectory p (register p d email password full_name ctx db).1.users
  unfolding register
  register-IsDirectory doc d email password full_name ctx db new dir =
      elim (Bool-cases (email_exists p (normalize_email p email) db.users)) [
        | inl e ↦ rw e dir
        | inr e ↦ elim (Option-cases (hash_password p password d.salt)) [
          | inl f ↦ rw (e, f) dir
          | inr (hash, f) ↦ rw (e, f) (add-IsDirectory p doc _ email db.users dir new refl e)
        ]
      ]

  reset_password-IsDirectory :
      (now : ℕ) (token password : Text) (salt : ℕ) (ctx : RequestContext) (db : Db)
      → IsDirectory p db.users
      → IsDirectory p (reset_password p now token password salt ctx db).1.users
  reset_password-IsDirectory now token password salt ctx db dir =
      elim (Outcome-cases (reset_password p now token password salt ctx db).0) [
        | inl (u, e) ↦
            let r = reset_password-IsReset p now token password salt ctx db u e in
            subst (IsDirectory p) (sym r.users) (
              save_same-IsDirectory p r.owner (unlocked r.hash r.owner) db.users dir
                (found_by_id (λ w. w.id == r.row.user_id) db.users dir.ids
                  (by_id r.row.user_id db.users r.found))
                refl)
        | inr (f, e) ↦
            subst (IsDirectory p)
              (sym (
                ap (λ (x : Db). x.users)
                  (reset_password_refused p now token password salt ctx db
                    (λ u k. cc (sym e ∙ k)))))
              dir
      ]

  change_password-IsDirectory :
      (now : ℕ) (u : User) (current password : Text) (salt : ℕ) (ctx : RequestContext) (db : Db)
      → user_by_id u.id db.users ≡ some u
      → IsDirectory p db.users
      → IsDirectory p (change_password p now u current password salt ctx db).1.users
  unfolding change_password
  change_password-IsDirectory now u current password salt ctx db found dir =
      elim (Bool-cases (verify_password p current u.hashed_password)) [
        | inr e ↦ rw e dir
        | inl e ↦ elim (Option-cases (hash_password p password salt)) [
          | inl f ↦ rw (e, f) dir
          | inr (hash, f) ↦
              rw (e, f)
                (save_same-IsDirectory p u (record u { hashed_password = hash }) db.users dir found
                  refl)
        ]
      ]

  update-IsDirectory :
      (doc : Documented p) (now : ℕ) (actor : User) (user_id : ℕ) (patch : UserUpdate)
      (ctx : RequestContext) (db : Db)
      → IsDirectory p db.users
      → IsDirectory p (update p now actor user_id patch ctx db).1.users
  update-IsDirectory doc now actor user_id patch ctx db dir =
      elim (update-cases p now actor user_id patch ctx db) [
        | inr (x, _, e) ↦ subst (IsDirectory p) (sym (ap (λ (x : Db). x.users) e)) dir
        | inl (v, _, r) ↦
            let found : user_by_id v.id db.users ≡ some r.user =
              ap (λ id. user_by_id id db.users) r.same
              ∙ found_by_id (λ w. w.id == user_id) db.users dir.ids
                  (by_id user_id db.users r.found) in
            subst (IsDirectory p) (sym r.users) (elim r.free [
              | inl e ↦ save_same-IsDirectory p r.user v db.users dir found e
              | inr (t, e, f) ↦ save_email-IsDirectory p doc v t db.users dir e f
            ])
      ]

  create-IsDirectory :
      (doc : Documented p) (id salt : ℕ) (actor : User) (payload : UserAdminCreate)
      (ctx : RequestContext) (db : Db)
      → All (λ w. w.id ≢ id) db.users
      → IsDirectory p db.users
      → IsDirectory p (create p id salt actor payload ctx db).1.users
  unfolding create
  create-IsDirectory doc id salt actor payload ctx db new dir =
      elim (Bool-cases (email_exists p (normalize_email p payload.email) db.users)) [
        | inl e ↦ rw e dir
        | inr e ↦ elim (Option-cases (hash_password p payload.password salt)) [
          | inl f ↦ rw (e, f) dir
          | inr (hash, f) ↦ elim (Outcome-cases (resolve_roles p db.role_names payload.roles)) [
            | inl (roles, g) ↦
                rw (e, f, g) (add-IsDirectory p doc _ payload.email db.users dir new refl e)
            | inr (x, g) ↦ rw (e, f, g) dir
          ]
        ]
      ]

  delete-IsDirectory :
      (actor : User) (user_id : ℕ) (ctx : RequestContext) (db : Db)
      → IsDirectory p db.users
      → IsDirectory p (delete actor user_id ctx db).1.users
  unfolding delete delete_user
  delete-IsDirectory actor user_id ctx db dir = elim (Option-cases (user_by_id user_id db.users)) [
    | inl e ↦ rw e dir
    | inr (u, e) ↦ elim (Bool-cases (u.id == actor.id)) [
      | inl f ↦ rw (e, f) dir
      | inr f ↦ rw (e, f) (filter-IsDirectory p (λ w. not (w.id == u.id)) db.users dir)
    ]
  ]

  -- The calls that write accounts. An id that is drawn is new; the user of a request is one of the
  -- table.
  pub data Step : Db → Db → Type 0 where
    registers :
        (d : Draws) (email password : Text) (full_name : Option Text) (ctx : RequestContext)
        (db : Db)
        → All (λ w. w.id ≢ d.user_id) db.users
        → Step db (register p d email password full_name ctx db).1
    logs_in :
        (now : ℕ) (d : Draws) (email password : Text) (ctx : RequestContext) (db : Db)
        → Step db (authenticate p now d email password ctx db).1
    resets :
        (now : ℕ) (token password : Text) (salt : ℕ) (ctx : RequestContext) (db : Db)
        → Step db (reset_password p now token password salt ctx db).1
    changes :
        (now : ℕ) (u : User) (current password : Text) (salt : ℕ) (ctx : RequestContext) (db : Db)
        → user_by_id u.id db.users ≡ some u
        → Step db (change_password p now u current password salt ctx db).1
    creates :
        (id salt : ℕ) (actor : User) (payload : UserAdminCreate) (ctx : RequestContext) (db : Db)
        → All (λ w. w.id ≢ id) db.users
        → Step db (create p id salt actor payload ctx db).1
    updates :
        (now : ℕ) (actor : User) (user_id : ℕ) (patch : UserUpdate) (ctx : RequestContext) (db : Db)
        → Step db (update p now actor user_id patch ctx db).1
    deletes :
        (actor : User) (user_id : ℕ) (ctx : RequestContext) (db : Db)
        → Step db (delete actor user_id ctx db).1

  pub data Reach (s : Db) : Db → Type 0 where
    here : Reach s s
    next : {t u : Db} → Reach s t → Step t u → Reach s u

  Step-IsDirectory :
      (doc : Documented p) {s t : Db} → Step s t → IsDirectory p s.users → IsDirectory p t.users
  Step-IsDirectory doc (registers d email password full_name ctx db new) dir =
      register-IsDirectory doc d email password full_name ctx db new dir
  Step-IsDirectory doc (logs_in now d email password ctx db) dir =
      authenticate-IsDirectory now d email password ctx db dir
  Step-IsDirectory doc (resets now token password salt ctx db) dir =
      reset_password-IsDirectory now token password salt ctx db dir
  Step-IsDirectory doc (changes now u current password salt ctx db found) dir =
      change_password-IsDirectory now u current password salt ctx db found dir
  Step-IsDirectory doc (creates id salt actor payload ctx db new) dir =
      create-IsDirectory doc id salt actor payload ctx db new dir
  Step-IsDirectory doc (updates now actor user_id patch ctx db) dir =
      update-IsDirectory doc now actor user_id patch ctx db dir
  Step-IsDirectory doc (deletes actor user_id ctx db) dir =
      delete-IsDirectory actor user_id ctx db dir

  -- Registrations, logins, resets and changes of passwords and the administration of accounts, in
  -- any order, keep the ids and the e-mail addresses of the accounts apart, and each address in the
  -- form by which it is looked up.
  pub Reach-IsDirectory :
      (doc : Documented p) {s t : Db} → IsDirectory p s.users → Reach s t → IsDirectory p t.users
  Reach-IsDirectory doc dir here = dir
  Reach-IsDirectory doc dir (next r st) = Step-IsDirectory doc st (Reach-IsDirectory doc dir r)
