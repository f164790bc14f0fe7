-- ===== src/Users.antt =====
-- backend/app/services/user.py: the administration of accounts, over the tables of Auth/Store. What
-- raises is rolled back with its request, so it leaves the database as it was.
pub mod Directory
pub mod Steps
pub mod Updates
pub mod Guards
mod Tests
use diagnosis_system.Prelude.{
  ℕ, Bool, true, false, not, ◌&&◌, Option, none, some, List, [], ◌∷◌, ◌++◌, map, Text, codes,
  text_eq, text_before, strip, distinct_texts, sorted_by, filter, any, ◌==◌, if◌then◌else◌,
}
use diagnosis_system.Errors.{
  Outcome, ok, raised, not_found, conflict, validation_error, value_error, ◌>>=◌,
}
use diagnosis_system.Audit.{
  AuditAction, user_updated, user_deleted, user_roles_changed, RequestContext, entry_by, created,
  changed, of_text, AuditLog,
}
use diagnosis_system.Auth.Store.{User, Db, user_by_id, save_user, revoke_all_for_user, log}
use diagnosis_system.Auth.Security.{Platform, hash_password, normalize_email}
use diagnosis_system.Auth.Login.{email_exists}

-- `UserAdminCreate`
pub record UserAdminCreate : Type 0 where
  pub email : Text
  pub full_name : Option Text
  pub password : Text
  pub roles : List Text
  pub is_active : Bool
  pub is_verified : Bool

-- what only `UserAdminUpdate` has; `none` is a field that is unset or null
pub record AdminFields : Type 0 where
  pub is_active : Option Bool
  pub is_verified : Option Bool
  pub roles : Option (List Text)

-- `UserUpdate`, and `UserAdminUpdate` where `admin` is there; a name may be set to null
pub record UserUpdate : Type 0 where
  pub email : Option Text
  pub full_name : Option (Option Text)
  pub admin : Option AdminFields

abbrev pub has_role : Text → User → Bool
has_role name u = any (text_eq name) u.roles

-- `User.is_admin`
abbrev pub is_admin : User → Bool
is_admin u = has_role (codes "admin") u

is_blank : Text → Bool
is_blank [] = true
is_blank (c ∷ cs) = false

all_found : List Text → List Text → Outcome (List Text)
all_found found [] = ok found
all_found found (t ∷ missing) = raised validation_error

-- `get_by_names`, and the names that have no row
abbrev among : List Text → Text → Bool
among names t = any (text_eq t) names

roles_of : List Text → List Text → Outcome (List Text)
unfolding all_found
roles_of role_names [] = raised validation_error
roles_of role_names (w ∷ ws) =
    let found = filter (among (w ∷ ws)) role_names in
    all_found found (filter (λ n. not (among found n)) (w ∷ ws))

-- `_guard_last_admin`, where it raises
unfoldable pub drops_own_admin : User → User → List Text → Bool
drops_own_admin u actor new_roles =
    u.id == actor.id && is_admin u && not (any (text_eq (codes "admin")) new_roles)

-- the sessions end where an active account is deactivated
abbrev deactivates : Bool → Option Bool → Bool
deactivates active (some false) = active
deactivates active _ = false

unfoldable pub closes_sessions : User → Option AdminFields → Bool
closes_sessions u none = false
closes_sessions u (some a) = deactivates u.is_active a.is_active

or_old : Option Bool → Bool → Bool
or_old none old = old
or_old (some b) old = b

set_name : Option (Option Text) → User → User
set_name none u = u
set_name (some n) u = record u { full_name = n }

set_flags : AdminFields → User → User
unfolding or_old
set_flags a u = record u {
  is_active = or_old a.is_active u.is_active;
  is_verified = or_old a.is_verified u.is_verified;
}

abbrev named : {A : Type 0} → Text → Option A → List Text
named name none = []
named name (some a) = name ∷ []

named_email : Option Text → List Text
named_email none = []
named_email (some []) = []
named_email (some (c ∷ cs)) = codes "email" ∷ []

named_admin : Option AdminFields → List Text
named_admin none = []
named_admin (some a) =
    named (codes "is_active") a.is_active
    ++ (named (codes "is_verified") a.is_verified ++ named (codes "roles") a.roles)

-- the keys of `changed`
changed_keys : UserUpdate → List Text
unfolding named_email named_admin
changed_keys patch =
    named_email patch.email
    ++ (named (codes "full_name") patch.full_name ++ named_admin patch.admin)

sets_roles : Option AdminFields → AuditAction
sets_roles none = user_updated
sets_roles (some a) = elim a.roles [ none ↦ user_updated | some rs ↦ user_roles_changed ]

module _ (p : Platform) where
  -- `_resolve_roles`
  unfoldable pub resolve_roles : List Text → List Text → Outcome (List Text)
  unfolding roles_of is_blank strip
  resolve_roles role_names names =
      let given = filter (λ n. not (is_blank (strip n))) names in
      roles_of role_names
        (sorted_by text_before (distinct_texts (map (λ n. p.lower (strip n)) given)))

  pub set_email : List User → Option Text → User → Outcome User
  set_email users none u = ok u
  set_email users (some []) u = ok u
  set_email users (some (c ∷ cs)) u =
      let email = normalize_email p (c ∷ cs) in
      if not (text_eq email u.email) && email_exists p email users
      then raised conflict
      else ok (record u { email = email })

  pub set_roles : List Text → User → Option (List Text) → User → Outcome User
  unfolding drops_own_admin
  set_roles role_names actor none u = ok u
  set_roles role_names actor (some names) u =
      if drops_own_admin u actor names
      then raised validation_error
      else (resolve_roles role_names names >>= λ roles. ok (record u { roles = roles }))

  pub set_admin : List Text → User → Option AdminFields → User → Outcome User
  unfolding set_flags set_roles
  set_admin role_names actor none u = ok u
  set_admin role_names actor (some a) u = set_roles role_names actor a.roles (set_flags a u)

  -- the loaded user with the fields of the payload
  unfoldable pub apply_update : Db → User → UserUpdate → User → Outcome User
  unfolding set_email set_name set_admin
  apply_update db actor patch u = set_email db.users patch.email u >>= λ v.
      set_admin db.role_names actor patch.admin (set_name patch.full_name v)

  write_update :
      ℕ → User → UserUpdate → RequestContext → Db → User → Outcome User → Outcome User × Db
  unfolding changed_keys sets_roles closes_sessions log
  write_update now actor patch ctx db u (raised e) = (raised e, db)
  write_update now actor patch ctx db u (ok v) =
      let saved = record db {
        users = save_user v db.users;
        refresh_tokens =
            if closes_sessions u patch.admin
            then (revoke_all_for_user now u.id db.refresh_tokens).0
            else db.refresh_tokens;
      } in
      (
        ok v,
        log
            (entry_by (sets_roles patch.admin) actor.id actor.email (codes "user") u.id ctx
              (changed (changed_keys patch)))
            saved,
      )

  -- `update`
  unfoldable pub update : ℕ → User → ℕ → UserUpdate → RequestContext → Db → Outcome User × Db
  unfolding write_update apply_update
  update now actor user_id patch ctx db = elim (user_by_id user_id db.users) [
    | none ↦ (raised not_found, db)
    | some u ↦ write_update now actor patch ctx db u (apply_update db actor patch u)
  ]

  -- `create`, once the password is hashed and the roles are found
  create_user :
      ℕ → User → UserAdminCreate → RequestContext → Db → Text → List Text → Outcome User × Db
  unfolding log
  create_user id actor payload ctx db hash roles =
      let u : User = record {
        id = id;
        email = normalize_email p payload.email;
        full_name = payload.full_name;
        hashed_password = hash;
        is_active = payload.is_active;
        is_verified = payload.is_verified;
        last_login_at = none;
        failed_login_attempts = 0;
        locked_until = none;
        roles = roles;
      } in
      (
        ok u,
        log
            (entry_by user_updated actor.id actor.email (codes "user") id ctx
              (created payload.roles))
            (record db { users = db.users ++ (u ∷ []) }),
      )

  create_resolved :
      ℕ
      → User
      → UserAdminCreate
      → RequestContext
      → Db
      → Text
      → Outcome (List Text)
      → Outcome User × Db
  unfolding create_user
  create_resolved id actor payload ctx db hash (raised e) = (raised e, db)
  create_resolved id actor payload ctx db hash (ok roles) =
      create_user id actor payload ctx db hash roles

  -- `hash_password` comes before `_resolve_roles`
  create_hashed : ℕ → User → UserAdminCreate → RequestContext → Db → Option Text → Outcome User × Db
  unfolding create_resolved
  create_hashed id actor payload ctx db none = (raised value_error, db)
  create_hashed id actor payload ctx db (some hash) =
      create_resolved id actor payload ctx db hash (resolve_roles db.role_names payload.roles)

  -- `create`, with the id and the salt that are drawn
  unfoldable pub create : ℕ → ℕ → User → UserAdminCreate → RequestContext → Db → Outcome User × Db
  unfolding create_hashed
  create id salt actor payload ctx db =
      if email_exists p (normalize_email p payload.email) db.users
      then (raised conflict, db)
      else create_hashed id actor payload ctx db (hash_password p payload.password salt)

-- `ON DELETE SET NULL`
forget_actor : ℕ → AuditLog → AuditLog
forget_actor id e = elim e.actor_id [
  | none ↦ e
  | some a ↦ if a == id then record e { actor_id = none } else e
]

-- the row, and what the foreign keys take with it
unfoldable pub delete_user : ℕ → Db → Db
unfolding forget_actor
delete_user id db = record db {
  users = filter (λ u. not (u.id == id)) db.users;
  refresh_tokens = filter (λ t. not (t.user_id == id)) db.refresh_tokens;
  reset_tokens = filter (λ t. not (t.user_id == id)) db.reset_tokens;
  audit_logs = map (forget_actor id) db.audit_logs;
}

delete_found : User → RequestContext → Db → Option User → Outcome Unit × Db
unfolding delete_user log
delete_found actor ctx db none = (raised not_found, db)
delete_found actor ctx db (some u) = if u.id == actor.id then (raised validation_error, db) else (
  ok tt,
  delete_user u.id (
      log (entry_by user_deleted actor.id actor.email (codes "user") u.id ctx (of_text u.email))
        db),
)

-- `delete`
unfoldable pub delete : User → ℕ → RequestContext → Db → Outcome Unit × Db
unfolding delete_found
delete actor user_id ctx db = delete_found actor ctx db (user_by_id user_id db.users)
