-- ===== src/Users/Guards.antt =====
-- What an update of an account may not do: leave sessions open where it deactivates, and take away
-- the administrator's own role.
use diagnosis_system.Prelude.{
  ℕ, ◌≡◌, refl, sym, ap, subst, ◌∙◌, Bool, true, false, not, inl, inr, Option, none, some, List, [],
  ◌∷◌, map, arith, Text, codes, text_eq, text_before, strip, is_space, distinct_texts, sorted_by,
  sorted_by-IsIn, any, filter, IsIn, any-IsIn, IsIn-distinct_texts, IsIn-map, IsIn-filter,
  filter-nil, ◌==◌, ==_iff, Bool-cases,
}
use diagnosis_system.Errors.{ok, ok->>=}
use diagnosis_system.Audit.{RequestContext}
use diagnosis_system.Tables.Laws.{count_where_none, first_holds}
use diagnosis_system.Auth.Store.{User, Db, user_by_id, revoke_all_for_user, open_session}
use diagnosis_system.Auth.Security.{Platform, Documented}
use diagnosis_system.Auth.Sessions.Logout.{open_sessions}
use diagnosis_system.Users.{
  AdminFields, UserUpdate, set_email, set_name, set_flags, set_roles, set_admin, apply_update,
  update, resolve_roles, roles_of, all_found, among, is_blank, drops_own_admin, closes_sessions,
  is_admin,
}
use diagnosis_system.Users.Updates.{set_email-IsReaddressed, set_roles-cases, update-IsUpdated}

all_found-ok :
    (found missing roles : List Text)
    → all_found found missing ≡ ok roles
    → (missing ≡ []) × (found ≡ roles)
unfolding all_found
all_found-ok found [] roles h = (refl, ground arith)
all_found-ok found (t ∷ ts) roles h = cc

not-false : (b : Bool) → not b ≡ false → b ≡ true
not-false true h = refl
not-false false h = cc

-- every name that is wanted is among the roles that are found
roles_of-found :
    (role_names wanted roles : List Text) (t : Text)
    → roles_of role_names wanted ≡ ok roles
    → IsIn t wanted
    → any (text_eq t) roles ≡ true
unfolding roles_of
roles_of-found role_names [] roles t h i = absurd i
roles_of-found role_names (w ∷ ws) roles t h i =
    let found = filter (among (w ∷ ws)) role_names in
    let missing = filter (λ n. not (among found n)) (w ∷ ws) in
    let (nothing, same) = all_found-ok found missing roles h in
    subst (λ rs. any (text_eq t) rs ≡ true) same
      (not-false (among found t) (filter-nil (λ n. not (among found n)) t (w ∷ ws) nothing i))

module _ (p : Platform) where
  -- `admin` is its own normal form
  cleaned : Documented p → p.lower (strip (codes "admin")) ≡ codes "admin"
  unfolding strip is_space
  cleaned doc = doc.lower_plain (codes "admin") (omega arith)

  not_blank : not (is_blank (strip (codes "admin"))) ≡ true
  unfolding is_blank strip is_space
  not_blank = refl

  resolve_roles-admin :
      (doc : Documented p) (role_names names roles : List Text)
      → resolve_roles p role_names names ≡ ok roles
      → any (text_eq (codes "admin")) names ≡ true
      → any (text_eq (codes "admin")) roles ≡ true
  unfolding resolve_roles
  resolve_roles-admin doc role_names names roles h k =
      let given = filter (λ n. not (is_blank (strip n))) names in
      let clean = λ (n : Text). p.lower (strip n) in
      let asked =
        IsIn-filter (λ n. not (is_blank (strip n))) (codes "admin") names not_blank
          (any-IsIn (codes "admin") names k) in
      let wanted =
        subst (λ t. IsIn t (map clean given)) (cleaned doc)
          (IsIn-map clean (codes "admin") given asked) in
      roles_of-found role_names (sorted_by text_before (distinct_texts (map clean given))) roles
        (codes "admin") h
        (sorted_by-IsIn text_before (codes "admin") (distinct_texts (map clean given))
          (IsIn-distinct_texts (codes "admin") (map clean given) wanted))

  -- roles that the guard lets through hold the role that the administrator has
  guarded :
      (u actor : User) (names : List Text)
      → u.id ≡ actor.id
      → is_admin u ≡ true
      → drops_own_admin u actor names ≡ false
      → any (text_eq (codes "admin")) names ≡ true
  unfolding drops_own_admin
  guarded u actor names same admin h = elim (Bool-cases (any (text_eq (codes "admin")) names)) [
    | inl e ↦ e
    | inr e ↦ ground (arith, e, (==_iff u.id actor.id).1 same)
  ]

  set_roles-admin :
      (doc : Documented p) (role_names : List Text) (actor : User) (o : Option (List Text))
      (u v : User)
      → u.id ≡ actor.id
      → is_admin u ≡ true
      → set_roles p role_names actor o u ≡ ok v
      → is_admin v ≡ true
  set_roles-admin doc role_names actor o u v same admin h =
      elim (set_roles-cases p role_names actor o u v h) [
        | inl e ↦ rw e admin
        | inr (names, roles, e, f, g) ↦
            rw g (
              resolve_roles-admin doc role_names names roles f (guarded u actor names same admin e))
      ]

  set_admin-admin :
      (doc : Documented p) (role_names : List Text) (actor : User) (o : Option AdminFields)
      (u v : User)
      → u.id ≡ actor.id
      → is_admin u ≡ true
      → set_admin p role_names actor o u ≡ ok v
      → is_admin v ≡ true
  unfolding set_admin set_flags
  set_admin-admin doc role_names actor none u v same admin h = ground arith
  set_admin-admin doc role_names actor (some a) u v same admin h =
      set_roles-admin doc role_names actor a.roles (set_flags a u) v same admin h

  set_name-roles : (o : Option (Option Text)) (u : User) → (set_name o u).roles ≡ u.roles
  unfolding set_name
  set_name-roles none u = refl
  set_name-roles (some n) u = refl

  set_name-id : (o : Option (Option Text)) (u : User) → (set_name o u).id ≡ u.id
  unfolding set_name
  set_name-id none u = refl
  set_name-id (some n) u = refl

  set_name-active : (o : Option (Option Text)) (u : User) → (set_name o u).is_active ≡ u.is_active
  unfolding set_name
  set_name-active none u = refl
  set_name-active (some n) u = refl

  apply_update-admin :
      (doc : Documented p) (db : Db) (actor : User) (patch : UserUpdate) (u v : User)
      → u.id ≡ actor.id
      → is_admin u ≡ true
      → apply_update p db actor patch u ≡ ok v
      → is_admin v ≡ true
  unfolding apply_update
  apply_update-admin doc db actor patch u v same admin h =
      let (w, e, f) =
        ok->>= (set_email p db.users patch.email u)
          (λ w. set_admin p db.role_names actor patch.admin (set_name patch.full_name w)) h in
      let r = set_email-IsReaddressed p db.users patch.email u w e in
      let roles : (set_name patch.full_name w).roles ≡ u.roles =
        set_name-roles patch.full_name w ∙ ap (λ (x : User). x.roles) r.same in
      let id : (set_name patch.full_name w).id ≡ u.id =
        set_name-id patch.full_name w ∙ ap (λ (x : User). x.id) r.same in
      set_admin-admin doc db.role_names actor patch.admin (set_name patch.full_name w) v (id ∙ same)
        (ap (any (text_eq (codes "admin"))) roles ∙ admin) f

  set_admin-closes :
      (role_names : List Text) (actor : User) (o : Option AdminFields) (u v w : User)
      → w.is_active ≡ u.is_active
      → u.is_active ≡ true
      → set_admin p role_names actor o w ≡ ok v
      → v.is_active ≡ false
      → closes_sessions u o ≡ true
  unfolding set_admin set_flags closes_sessions
  set_admin-closes role_names actor none u v w same active h inactive = ground arith
  set_admin-closes role_names actor (some a) u v w same active h inactive =
      elim (set_roles-cases p role_names actor a.roles (set_flags a w) v h) [
        | inl e ↦ ground (arith, e)
        | inr (names, roles, e, f, g) ↦ ground (arith, g)
      ]

  apply_update-closes :
      (db : Db) (actor : User) (patch : UserUpdate) (u v : User)
      → u.is_active ≡ true
      → apply_update p db actor patch u ≡ ok v
      → v.is_active ≡ false
      → closes_sessions u patch.admin ≡ true
  unfolding apply_update
  apply_update-closes db actor patch u v active h inactive =
      let (w, e, f) =
        ok->>= (set_email p db.users patch.email u)
          (λ w. set_admin p db.role_names actor patch.admin (set_name patch.full_name w)) h in
      let r = set_email-IsReaddressed p db.users patch.email u w e in
      set_admin-closes db.role_names actor patch.admin u v (set_name patch.full_name w)
        (set_name-active patch.full_name w ∙ ap (λ (x : User). x.is_active) r.same) active f
        inactive

  by_id_id :
      (id : ℕ) (users : List User) {u : User} → user_by_id id users ≡ some u → (u.id == id) ≡ true
  unfolding user_by_id
  by_id_id id users h = first_holds (λ u. u.id == id) users h

  -- An administrator who updates the own account, whatever the payload, is one afterwards.
  pub update_keeps_own_admin :
      (now : ℕ) (actor : User) (patch : UserUpdate) (ctx : RequestContext) (db : Db) (u v : User)
      → Documented p
      → user_by_id actor.id db.users ≡ some u
      → is_admin u ≡ true
      → (update p now actor actor.id patch ctx db).0 ≡ ok v
      → is_admin v ≡ true
  update_keeps_own_admin now actor patch ctx db u v doc found admin h =
      let r = update-IsUpdated p now actor actor.id patch ctx db v h in
      let same : u ≡ r.user = cc (sym found ∙ r.found) in
      let own : r.user.id ≡ actor.id =
        (==_iff r.user.id actor.id).0 (by_id_id actor.id db.users r.found) in
      apply_update-admin doc db actor patch r.user v own (rw (sym same) admin) r.applied

  -- An update that deactivates an active account leaves it no open session.
  pub update_closes_sessions :
      (now : ℕ) (actor : User) (user_id : ℕ) (patch : UserUpdate) (ctx : RequestContext) (db : Db)
      (u v : User)
      → user_by_id user_id db.users ≡ some u
      → u.is_active ≡ true
      → (update p now actor user_id patch ctx db).0 ≡ ok v
      → v.is_active ≡ false
      → open_sessions v.id (update p now actor user_id patch ctx db).1 ≡ 0
  unfolding revoke_all_for_user
  update_closes_sessions now actor user_id patch ctx db u v found active h inactive =
      let r = update-IsUpdated p now actor user_id patch ctx db v h in
      let same : u ≡ r.user = cc (sym found ∙ r.found) in
      let closes =
        apply_update-closes db actor patch r.user v (rw (sym same) active) r.applied inactive in
      rw (r.same, r.tokens, closes)
        (count_where_none (open_session r.user.id) (λ t. record t { revoked_at = some now })
          db.refresh_tokens (λ t e. ground arith))
