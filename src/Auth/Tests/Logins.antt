-- ===== src/Auth/Tests/Logins.antt =====
-- Logins and sessions on the small database.
use diagnosis_system.Prelude.{ℕ, ◌≡◌, ◌≢◌, refl, false, some, [], ◌∷◌, arith, Text, codes, is_space}
use diagnosis_system.Errors.{account_locked, ok, raised, token_error}
use diagnosis_system.Auth.Store.{User, Db, user_by_id, active_by_jti}
use diagnosis_system.Auth.Security.{
  Claims, refresh, decode_token, decode_token-encode, token_claims, uuid_text, uuid_text-ne_nil,
  minutes, verify_password, hash_password, normalize_email, needs_rehash,
}
use diagnosis_system.Auth.Login.{TokenPair, authenticate, user_by_email, issue_tokens, kept_hash}
use diagnosis_system.Auth.Login.Lockout.{Attempt, attempts, AllWrong, authenticate_locked, lockout}
use diagnosis_system.Auth.Login.Granted.{IsGranted, authenticate-IsGranted}
use diagnosis_system.Auth.Sessions.{refresh_session}
use diagnosis_system.Auth.Sessions.Rotation.{IsSpent, refresh_session_once}
use diagnosis_system.Auth.Sessions.Renewal.{refreshes, refresh_session_next}
use diagnosis_system.Auth.Tests.{
  platform, platform-Documented, ctx, draws, alice, session, database, shown_hash,
}

abbrev email : Text
email = codes "alice@example.com"

found_alice : user_by_email platform email database.users ≡ some alice
unfolding user_by_email normalize_email is_space
found_alice = refl

verified_example : hash_password platform (codes "secret") 3 ≡ some (shown_hash (codes "secret"))
unfolding hash_password
verified_example = refl

wrong : verify_password platform (codes "guess") (shown_hash (codes "secret")) ≡ false
unfolding verify_password
wrong = refl

abbrev attempt : ℕ → Attempt platform
attempt now = record { now = now; draws = draws now; password = codes "guess"; ctx = ctx }

abbrev guessed : Db
guessed = attempts platform email (attempt 1 ∷ []) database

abbrev locked_db : Db
locked_db = (authenticate platform 2 (draws 2) email (codes "guess") ctx guessed).1

all_wrong : AllWrong platform alice.hashed_password (attempt 1 ∷ [])
unfolding AllWrong
all_wrong = (wrong, tt)

lockout_example :
    (authenticate platform 3 (draws 3) email (codes "secret") ctx locked_db).0
    ≡ raised account_locked
lockout_example =
    lockout platform email (attempt 1 ∷ []) (attempt 2) database alice found_alice refl refl
      all_wrong wrong refl 3 (draws 3) (codes "secret") ctx (ground arith)

abbrev barred : User
barred = record alice { locked_until = some 100 }

abbrev barred_db : Db
barred_db = record database { users = barred ∷ [] }

found_barred : user_by_email platform email barred_db.users ≡ some barred
unfolding user_by_email normalize_email is_space
found_barred = refl

abbrev after_login : User
after_login = record alice { last_login_at = some 5 }

abbrev pair : TokenPair
pair = (issue_tokens platform 5 (draws 5) after_login ctx database).0

logged_in :
    (authenticate platform 5 (draws 5) email (codes "secret") ctx database).0
    ≡ ok (after_login, pair)
unfolding authenticate user_by_email normalize_email is_space verify_password needs_rehash
    hash_password kept_hash issue_tokens token_claims uuid_text
logged_in = refl

authenticate-IsGranted_example :
    IsGranted platform 5 (draws 5) email (codes "secret") ctx database after_login
authenticate-IsGranted_example =
    authenticate-IsGranted platform 5 (draws 5) email (codes "secret") ctx database after_login pair
      logged_in

refused_login :
    (authenticate platform 5 (draws 5) email (codes "secret") ctx barred_db).0
    ≡ raised account_locked
refused_login =
    (authenticate_locked platform 5 (draws 5) email (codes "secret") ctx barred_db barred
      found_barred refl).0

-- the refresh token of the stored session
abbrev claims : Claims
claims = token_claims platform (uuid_text 7) refresh (minutes 10080) (codes "first") 0 []

abbrev token : Text
token = platform.encode claims

decoded_claims : decode_token platform token refresh 100 ≡ some claims
decoded_claims =
    decode_token-encode platform (uuid_text 7) refresh (minutes 10080) (codes "first") 0 100 []
      platform-Documented (uuid_text-ne_nil 7) (ground arith) (ground arith)

live : active_by_jti 100 (codes "first") database.refresh_tokens ≡ some (session (codes "first"))
unfolding active_by_jti
live = refl

alice_by_id : user_by_id 7 database.users ≡ some alice
unfolding user_by_id
alice_by_id = refl

refreshed : (t : TokenPair) × ((refresh_session platform 100 (draws 9) token ctx database).0 ≡ ok t)
unfolding token_claims
refreshed =
    refreshes platform 100 (draws 9) token ctx database claims (session (codes "first")) alice
      decoded_claims live alice_by_id refl

other_jti : (draws 9).refresh_jti ≢ claims.jti
unfolding token_claims
other_jti e = cc

refresh_session_once_example :
    (refresh_session platform 101
      (draws 10)
      token
      ctx
      (refresh_session platform 100 (draws 9) token ctx database).1).0
    ≡ raised token_error
refresh_session_once_example =
    refresh_session_once platform 100 (draws 9) token ctx database claims refreshed.0
      platform-Documented decoded_claims other_jti refreshed.1 101 (draws 10) ctx

unused : IsSpent (draws 9).refresh_jti database
unfolding active_by_jti
unused = record { never = λ now. refl }

refresh_session_next_example :
    (t : TokenPair) × ((refresh_session platform 200
        (draws 10)
        refreshed.0.refresh_token
        ctx
        (refresh_session platform 100 (draws 9) token ctx database).1).0
      ≡ ok t)
refresh_session_next_example =
    refresh_session_next platform 100 (draws 9) token ctx database refreshed.0 platform-Documented
      refreshed.1 unused 200 (draws 10) ctx (ground arith) (ground arith)
