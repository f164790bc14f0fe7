-- ===== src/Users/Tests.antt =====
-- Runs of the administration of accounts on the small database.
use diagnosis_system.Prelude.{
  ◌≡◌, refl, true, false, Option, none, some, List, [], ◌∷◌, arith, Text, codes, is_space,
  distinct_texts, sorted_by, text_before,
}
use diagnosis_system.Errors.{ok, raised, validation_error, conflict}
use diagnosis_system.Auth.Store.{User, Db, user_by_id}
use diagnosis_system.Auth.Security.{normalize_email}
use diagnosis_system.Auth.Login.{register, email_exists}
use diagnosis_system.Auth.Sessions.Logout.{open_sessions}
use diagnosis_system.Auth.Tests.{platform, platform-Documented, ctx, draws, alice, database}
use diagnosis_system.Users.{AdminFields, UserUpdate, update, resolve_roles, is_admin, delete}
use diagnosis_system.Users.Directory.{IsDirectory}
use diagnosis_system.Users.Steps.{Reach, here, next, registers, updates, Reach-IsDirectory}
use diagnosis_system.Users.Guards.{update_keeps_own_admin, update_closes_sessions}

abbrev root : User
root = record alice { id = 1; email = codes "root@example.com"; roles = codes "admin" ∷ [] }

abbrev staffed : Db
staffed = record database {
  users = root ∷ alice ∷ [];
  role_names = codes "admin" ∷ codes "engineer" ∷ codes "viewer" ∷ [];
}

abbrev patch : Option AdminFields → UserUpdate
patch fields = record { email = none; full_name = none; admin = fields }

abbrev deactivation : UserUpdate
deactivation = patch (some (record { is_active = some false; is_verified = none; roles = none }))

abbrev roles : List Text → UserUpdate
roles names = patch (some (record { is_active = none; is_verified = none; roles = some names }))

by_id : user_by_id 7 staffed.users ≡ some alice
unfolding user_by_id
by_id = refl

root_by_id : user_by_id 1 staffed.users ≡ some root
unfolding user_by_id
root_by_id = refl

deactivated :
    (update platform 5 root 7 deactivation ctx staffed).0 ≡ ok (record alice { is_active = false })
unfolding update user_by_id
deactivated = refl

update_closes_sessions_example :
    open_sessions 7 (update platform 5 root 7 deactivation ctx staffed).1 ≡ 0
update_closes_sessions_example =
    update_closes_sessions platform 5 root 7 deactivation ctx staffed alice
      (record alice { is_active = false }) by_id refl deactivated refl

abbrev both : List Text
both = codes "admin" ∷ codes " Viewer" ∷ []

-- a role that is not known here, and the own role given up
unknown_role : (update platform 5 root 7 (roles both) ctx staffed).0 ≡ raised validation_error
unfolding update user_by_id resolve_roles is_space sorted_by distinct_texts text_before
unknown_role = refl

own_role :
    (update platform 5 root 1 (roles (codes "viewer" ∷ [])) ctx staffed).0 ≡ raised validation_error
unfolding update user_by_id
own_role = refl

abbrev promoted : User
promoted = record root { roles = codes "admin" ∷ codes "viewer" ∷ [] }

with_viewer :
    (update platform 5 root 1 (roles (codes "viewer" ∷ codes "admin" ∷ [])) ctx staffed).0
    ≡ ok promoted
unfolding update user_by_id resolve_roles is_space sorted_by distinct_texts text_before
with_viewer = refl

update_keeps_own_admin_example : is_admin promoted ≡ true
update_keeps_own_admin_example =
    update_keeps_own_admin platform 5 root (roles (codes "viewer" ∷ codes "admin" ∷ [])) ctx staffed
      root promoted platform-Documented root_by_id refl with_viewer

own_account : delete root 1 ctx staffed ≡ (raised validation_error, staffed)
unfolding delete user_by_id
own_account = refl

taken :
    (register platform (draws 9) (codes " root@example.com") (codes "pw") none ctx staffed).0
    ≡ raised conflict
unfolding register email_exists normalize_email is_space
taken = refl

abbrev joined : Db
joined = (register platform (draws 9) (codes "bob@example.com") (codes "pw") none ctx staffed).1

two_apart : IsDirectory platform staffed.users
two_apart = record {
  ids = ((omega arith, tt), (tt, tt));
  emails = ((λ e. cc, tt), (tt, tt));
  lowered = (refl, (refl, tt));
}

run : Reach platform staffed (update platform 5 root 7 deactivation ctx joined).1
run =
    next
      (next here (
        registers (draws 9) (codes "bob@example.com") (codes "pw") none ctx staffed
          (omega arith, (omega arith, tt))))
      (updates 5 root 7 deactivation ctx joined)

Reach-IsDirectory_example :
    IsDirectory platform (update platform 5 root 7 deactivation ctx joined).1.users
Reach-IsDirectory_example = Reach-IsDirectory platform platform-Documented two_apart run
