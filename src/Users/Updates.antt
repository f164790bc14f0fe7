-- ===== src/Users/Updates.antt =====
-- What an update of an account does, on each of its branches.
use diagnosis_system.Prelude.{
  ℕ, ◌≡◌, ◌⊎◌, refl, sym, ap, subst, ◌∙◌, false, inl, inr, Option, none, some, List, [], ◌∷◌, arith,
  Text, text_eq, text_eq_iff, Bool-cases, Option-cases, if◌then◌else◌,
}
use diagnosis_system.Errors.{AppError, not_found, ok, raised, ok->>=, Outcome-cases}
use diagnosis_system.Audit.{RequestContext}
use diagnosis_system.Auth.Store.{User, Db, user_by_id, revoke_all_for_user, save_user}
use diagnosis_system.Auth.Security.{Platform, normalize_email}
use diagnosis_system.Auth.Login.{email_exists}
use diagnosis_system.Users.{
  AdminFields, UserUpdate, set_email, set_name, set_flags, set_roles, set_admin, apply_update,
  update, resolve_roles, drops_own_admin, closes_sessions,
}

module _ (p : Platform) where
  -- the address of an updated account is the old one or one that was not taken
  abbrev pub EmailIsFree : List User → User → User → Type 0
  EmailIsFree users u v =
      (v.email ≡ u.email)
      ⊎ ((t : Text) × (v.email ≡ normalize_email p t)
          × (email_exists p (normalize_email p t) users ≡ false))

  pub record IsReaddressed (users : List User) (u v : User) : Type 0 where
    pub address : Text
    pub same : v ≡ record u { email = address }
    pub free : EmailIsFree users u v

  pub set_email-IsReaddressed :
      (users : List User) (o : Option Text) (u v : User)
      → set_email p users o u ≡ ok v
      → IsReaddressed users u v
  unfolding set_email
  set_email-IsReaddressed users none u v h = record {
    address = u.email;
    same = ground arith;
    free = inl (ground arith);
  }
  set_email-IsReaddressed users (some []) u v h = record {
    address = u.email;
    same = ground arith;
    free = inl (ground arith);
  }
  set_email-IsReaddressed users (some (c ∷ cs)) u v h =
      let email = normalize_email p (c ∷ cs) in
      elim (Bool-cases (text_eq email u.email)) [
        | inl e ↦
            let same : v ≡ record u { email = email } = ground (arith, e) in
            record {
              address = email;
              same = same;
              free = inl (ap (λ (w : User). w.email) same ∙ (text_eq_iff email u.email).0 e);
            }
        | inr e ↦ elim (Bool-cases (email_exists p email users)) [
          | inl f ↦ ground (arith, e, f)
          | inr f ↦
              let same : v ≡ record u { email = email } = ground (arith, e, f) in
              record {
                address = email;
                same = same;
                free = inr (c ∷ cs, ap (λ (w : User). w.email) same, f);
              }
        ]
      ]

  pub set_roles-cases :
      (role_names : List Text) (actor : User) (o : Option (List Text)) (u v : User)
      → set_roles p role_names actor o u ≡ ok v
      → (v ≡ u)
        ⊎ ((names roles : List Text) × (drops_own_admin u actor names ≡ false)
            × (resolve_roles p role_names names ≡ ok roles)
            × (v ≡ record u { roles = roles }))
  unfolding set_roles
  set_roles-cases role_names actor none u v h = inl (ground arith)
  set_roles-cases role_names actor (some names) u v h =
      elim (Bool-cases (drops_own_admin u actor names)) [
        | inl e ↦ cc (rw e at h)
        | inr e ↦
            let (roles, f, g) =
              ok->>= (resolve_roles p role_names names) (λ roles. ok (record u { roles = roles }))
                (rw e at h) in
            inr (names, roles, e, f, ground arith)
      ]

  set_admin-id :
      (role_names : List Text) (actor : User) (o : Option AdminFields) (u v : User)
      → set_admin p role_names actor o u ≡ ok v
      → (v.id ≡ u.id) × (v.email ≡ u.email)
  unfolding set_admin set_flags
  set_admin-id role_names actor none u v h = ground arith
  set_admin-id role_names actor (some a) u v h =
      elim (set_roles-cases role_names actor a.roles (set_flags a u) v h) [
        | inl e ↦ ground (arith, e)
        | inr (names, roles, e, f, g) ↦ ground (arith, g)
      ]

  set_name-id :
      (o : Option (Option Text)) (u : User)
      → ((set_name o u).id ≡ u.id) × ((set_name o u).email ≡ u.email)
  unfolding set_name
  set_name-id none u = (refl, refl)
  set_name-id (some n) u = (refl, refl)

  apply_update-free :
      (db : Db) (actor : User) (patch : UserUpdate) (u v : User)
      → apply_update p db actor patch u ≡ ok v
      → (v.id ≡ u.id) × EmailIsFree db.users u v
  unfolding apply_update
  apply_update-free db actor patch u v h =
      let (w, e, f) =
        ok->>= (set_email p db.users patch.email u)
          (λ w. set_admin p db.role_names actor patch.admin (set_name patch.full_name w)) h in
      let r = set_email-IsReaddressed db.users patch.email u w e in
      let kept = set_admin-id db.role_names actor patch.admin (set_name patch.full_name w) v f in
      let named = set_name-id patch.full_name w in
      let address : v.email ≡ w.email = kept.1 ∙ named.1 in
      (
        kept.0 ∙ named.0 ∙ ap (λ (x : User). x.id) r.same,
        elim r.free [ inl g ↦ inl (address ∙ g) | inr (t, g, k) ↦ inr (t, address ∙ g, k) ],
      )

  -- An update that succeeds has found its account, and writes what the payload makes of it.
  pub record IsUpdated (now : ℕ) (actor : User) (user_id : ℕ) (patch : UserUpdate)
      (ctx : RequestContext) (db : Db) (v : User) : Type 0 where
    pub user : User
    pub found : user_by_id user_id db.users ≡ some user
    pub applied : apply_update p db actor patch user ≡ ok v
    pub same : v.id ≡ user.id
    pub free : EmailIsFree db.users user v
    pub users : (update p now actor user_id patch ctx db).1.users ≡ save_user v db.users
    pub tokens : (update p now actor user_id patch ctx db).1.refresh_tokens ≡ (
        if closes_sessions user patch.admin
        then (revoke_all_for_user now user.id db.refresh_tokens).0
        else db.refresh_tokens)

  pub update-cases :
      (now : ℕ) (actor : User) (user_id : ℕ) (patch : UserUpdate) (ctx : RequestContext) (db : Db)
      → ((v : User) × ((update p now actor user_id patch ctx db).0 ≡ ok v)
          × IsUpdated now actor user_id patch ctx db v)
        ⊎ ((x : AppError) × ((update p now actor user_id patch ctx db).0 ≡ raised x)
            × ((update p now actor user_id patch ctx db).1 ≡ db))
  unfolding update
  update-cases now actor user_id patch ctx db = elim (Option-cases (user_by_id user_id db.users)) [
    | inl e ↦ inr (not_found, ground (arith, e), ground (arith, e))
    | inr (u, e) ↦ elim (Outcome-cases (apply_update p db actor patch u)) [
      | inr (x, f) ↦ inr (x, ground (arith, e, f), ground (arith, e, f))
      | inl (v, f) ↦
          let free = apply_update-free db actor patch u v f in
          inl (
            v,
            ground (arith, e, f),
            record {
              user = u;
              found = e;
              applied = f;
              same = free.0;
              free = free.1;
              users = ground (arith, e, f);
              tokens = ground (arith, e, f);
            },
          )
    ]
  ]

  pub update-IsUpdated :
      (now : ℕ) (actor : User) (user_id : ℕ) (patch : UserUpdate) (ctx : RequestContext) (db : Db)
      (v : User)
      → (update p now actor user_id patch ctx db).0 ≡ ok v
      → IsUpdated now actor user_id patch ctx db v
  update-IsUpdated now actor user_id patch ctx db v h =
      elim (update-cases now actor user_id patch ctx db) [
        | inl (w, e, c) ↦
            let same : w ≡ v = cc (sym e ∙ h) in
            subst (IsUpdated now actor user_id patch ctx db) same c
        | inr (x, e, _) ↦ cc (sym e ∙ h)
      ]
