-- ===== src/Auth/Tests/Resets.antt =====
-- Password resets and changes on the small database.
use diagnosis_system.Prelude.{
  ◌≡◌, ◌≢◌, refl, true, none, some, [], ◌∷◌, arith, Text, codes, is_space,
}
use diagnosis_system.Errors.{ok, raised, token_error}
use diagnosis_system.Auth.Store.{User, Db, user_by_id, active_by_hash, invalidate_for_user}
use diagnosis_system.Auth.Security.{verify_password, hash_password, normalize_email}
use diagnosis_system.Auth.Login.{user_by_email}
use diagnosis_system.Auth.Passwords.{
  request_password_reset, reset_password, reset_row, unlocked, change_password,
}
use diagnosis_system.Auth.Passwords.Change.{change_password_secures}
use diagnosis_system.Auth.Passwords.Reset.{reset_password_secures, reset_password_once}
use diagnosis_system.Auth.Passwords.Links.{
  request_password_reset_newest, request_password_reset_works,
}
use diagnosis_system.Auth.Sessions.Logout.{open_sessions}
use diagnosis_system.Auth.Tests.{platform, platform-Documented, ctx, alice, database, shown_hash}

abbrev email : Text
email = codes "alice@example.com"

-- a database with a link that is not used
abbrev asked : Db
asked = record database { reset_tokens = reset_row platform 10 (codes "link") 7 ∷ [] }

abbrev renewed : User
renewed = unlocked (shown_hash (codes "new")) alice

reset_done : (reset_password platform 20 (codes "link") (codes "new") 1 ctx asked).0 ≡ ok renewed
unfolding reset_password active_by_hash user_by_id hash_password
reset_done = refl

reset_password_secures_example :
    (open_sessions renewed.id
        (reset_password platform 20 (codes "link") (codes "new") 1 ctx asked).1
      ≡ 0)
    × (user_by_id renewed.id
          (reset_password platform 20 (codes "link") (codes "new") 1 ctx asked).1.users
        ≡ some renewed)
    × (renewed.is_active ≡ true)
    × (renewed.locked_until ≡ none)
    × (verify_password platform (codes "new") renewed.hashed_password ≡ true)
reset_password_secures_example =
    reset_password_secures platform 20 (codes "link") (codes "new") 1 ctx asked renewed
      platform-Documented reset_done

reset_password_once_example :
    (reset_password platform 21
      (codes "link")
      (codes "again")
      2
      ctx
      (reset_password platform 20 (codes "link") (codes "new") 1 ctx asked).1).0
    ≡ raised token_error
reset_password_once_example =
    reset_password_once platform 20 21 (codes "link") (codes "new") (codes "again") 1 2 ctx ctx
      asked renewed reset_done (ground arith)

wrong_link :
    (reset_password platform 20 (codes "guess") (codes "new") 1 ctx asked).0 ≡ raised token_error
unfolding reset_password active_by_hash
wrong_link = refl

found : user_by_email platform email asked.users ≡ some alice
unfolding user_by_email normalize_email is_space
found = refl

by_id : user_by_id 7 asked.users ≡ some alice
unfolding user_by_id
by_id = refl

-- a newer link
requested :
    (request_password_reset platform 30 (codes "newer") email ctx asked).0 ≡ some (codes "newer")
unfolding request_password_reset user_by_email normalize_email is_space
requested = refl

-- a link of another user, which still works
abbrev bob : User
bob = record alice { id = 8; email = codes "bob@example.com" }

abbrev both : Db
both = record asked {
  users = alice ∷ bob ∷ [];
  reset_tokens = reset_row platform 10 (codes "bobs") 8 ∷ [];
}

requested_both :
    (request_password_reset platform 30 (codes "newer") email ctx both).0 ≡ some (codes "newer")
unfolding request_password_reset user_by_email normalize_email is_space
requested_both = refl

found_both : user_by_email platform email both.users ≡ some alice
unfolding user_by_email normalize_email is_space
found_both = refl

abbrev renewed_bob : User
renewed_bob = unlocked (shown_hash (codes "new")) bob

bob_resets :
    (reset_password platform 40
      (codes "bobs")
      (codes "new")
      1
      ctx
      (request_password_reset platform 30 (codes "newer") email ctx both).1).0
    ≡ ok renewed_bob
unfolding reset_password active_by_hash user_by_id hash_password request_password_reset
    user_by_email normalize_email is_space invalidate_for_user
bob_resets = refl

request_password_reset_newest_example : renewed_bob.id ≢ alice.id
request_password_reset_newest_example =
    request_password_reset_newest platform 30 40 (codes "newer") email (codes "newer") ctx both
      alice requested_both found_both (codes "bobs") (codes "new") 1 ctx renewed_bob (λ e. cc)
      bob_resets

request_password_reset_works_example :
    (v : User) × ((reset_password platform 40
        (codes "newer")
        (codes "new")
        1
        ctx
        (request_password_reset platform 30 (codes "newer") email ctx asked).1).0
      ≡ ok v)
    × (v.id ≡ 7)
request_password_reset_works_example =
    request_password_reset_works platform 30 40 (codes "newer") email (codes "newer") (codes "new")
      1 ctx ctx asked alice requested found by_id refl (ground arith) (ground arith)

abbrev changed : User
changed = record alice { hashed_password = shown_hash (codes "new") }

change_done :
    (change_password platform 20 alice (codes "secret") (codes "new") 1 ctx database).0 ≡ ok changed
unfolding change_password verify_password hash_password
change_done = refl

change_password_secures_example :
    (verify_password platform (codes "secret") alice.hashed_password ≡ true)
    × (open_sessions alice.id
          (change_password platform 20 alice (codes "secret") (codes "new") 1 ctx database).1
        ≡ 0)
    × (user_by_id alice.id
          (change_password platform 20 alice (codes "secret") (codes "new") 1 ctx database).1.users
        ≡ some changed)
    × (verify_password platform (codes "new") changed.hashed_password ≡ true)
    × (changed ≡ record alice { hashed_password = changed.hashed_password })
change_password_secures_example =
    change_password_secures platform 20 alice (codes "secret") (codes "new") 1 ctx database changed
      platform-Documented by_id change_done
