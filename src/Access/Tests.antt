-- ===== src/Access/Tests.antt =====
-- Requests on the small database.
use diagnosis_system.Prelude.{
  ◌≡◌, ◌⊎◌, refl, true, none, some, [], ◌∷◌, arith, Text, codes, is_space, any,
}
use diagnosis_system.Errors.{ok, raised, token_error, permission_denied}
use diagnosis_system.Auth.Store.{User, Db, user_by_id}
use diagnosis_system.Auth.Security.{
  uuid_text, token_claims, normalize_email, verify_password, needs_rehash, hash_password,
}
use diagnosis_system.Auth.Login.{TokenPair, authenticate, user_by_email, issue_tokens, kept_hash}
use diagnosis_system.Fleet.{Device, DeviceApiKey, active, device_by_id}
use diagnosis_system.Auth.ApiKeys.{authenticate_api_key, split_api_key, cut}
use diagnosis_system.Auth.Tests.{platform, platform-Documented, ctx, draws, alice, database}
use diagnosis_system.Users.{has_role, is_admin}
use diagnosis_system.Access.{
  get_current_user, require, require_roles, viewer_roles, admin_roles, of_device,
  get_ingest_principal, get_request_context,
}
use diagnosis_system.Access.Uuid.{uuid_of}
use diagnosis_system.Access.Current.{IsCurrent, get_current_user-IsCurrent, require-Allows}
use diagnosis_system.Access.Issued.{get_current_user-authenticate}

braces : uuid_of (codes "{urn:uuid:00000000-0000-0000-0000-0000000000AB}") ≡ some 0xAB
unfolding uuid_of is_space
braces = refl

short : uuid_of (codes "0xAB") ≡ none
unfolding uuid_of
short = refl

abbrev after_login : User
after_login = record alice { last_login_at = some 5 }

abbrev pair : TokenPair
pair = (issue_tokens platform 5 (draws 5) after_login ctx database).0

abbrev db : Db
db = (authenticate platform 5 (draws 5) (codes "alice@example.com") (codes "secret") ctx database).1

logged_in :
    (authenticate platform 5 (draws 5) (codes "alice@example.com") (codes "secret") ctx database).0
    ≡ ok (after_login, pair)
unfolding authenticate user_by_email normalize_email is_space verify_password needs_rehash
    hash_password kept_hash issue_tokens token_claims uuid_text
logged_in = refl

stored : user_by_id 7 database.users ≡ some alice
unfolding user_by_id
stored = refl

get_current_user-authenticate_example :
    get_current_user platform 100 (some pair.access_token) database.users ≡ ok alice
get_current_user-authenticate_example =
    get_current_user-authenticate platform 5 (draws 5) (codes "alice@example.com") (codes "secret")
      ctx database after_login pair platform-Documented (omega arith) logged_in 100 database.users
      alice (omega arith) (omega arith) stored

get_current_user-IsCurrent_example : IsCurrent platform 100 pair.access_token database.users alice
get_current_user-IsCurrent_example =
    get_current_user-IsCurrent platform 100 pair.access_token database.users alice
      get_current_user-authenticate_example

viewed : require platform viewer_roles 100 (some pair.access_token) database.users ≡ ok alice
unfolding require require_roles
viewed = rw (get_current_user-authenticate_example) refl

not_admin :
    require platform admin_roles 100 (some pair.access_token) database.users
    ≡ raised permission_denied
unfolding require require_roles
not_admin = rw (get_current_user-authenticate_example) refl

require-Allows_example :
    IsCurrent platform 100 pair.access_token database.users alice
    × ((is_admin alice ≡ true) ⊎ (any (λ r. has_role r alice) viewer_roles ≡ true))
require-Allows_example =
    require-Allows platform viewer_roles 100 pair.access_token database.users alice viewed

abbrev device : Device
device = record {
  id = 3;
  device_id = codes "STM32-0003";
  serial_number = codes "SN-3";
  firmware_version = codes "1.4.2";
  hardware_model = codes "STM32F407VG";
  status = active;
  location = none;
  description = none;
  owner_id = none;
  last_online_at = none;
  tags = [];
}

abbrev key : DeviceApiKey
key = record {
  id = 1;
  device_id = 3;
  prefix = codes "000000001f2e";
  key_hash = codes "s_3";
  name = codes "field";
  created_by_id = none;
  expires_at = none;
  last_used_at = none;
  revoked_at = none;
}

abbrev shown : Text
shown = codes "bx_000000001f2e_s_3"

submits :
    (get_ingest_principal platform (device ∷ []) 9 (some (b'b' ∷ shown)) none [] (key ∷ [])).0
    ≡ ok (of_device device)
unfolding get_ingest_principal authenticate_api_key split_api_key cut is_space device_by_id
submits = refl

no_credentials :
    (get_ingest_principal platform (device ∷ []) 9 none none [] []).0 ≡ raised token_error
unfolding get_ingest_principal get_current_user
no_credentials = refl

forwarded :
    (get_request_context (record {
      forwarded_for = some (codes " 10.0.0.1, 10.0.0.2");
      user_agent = none;
      client_host = none;
    })).ip_address
    ≡ some (codes "10.0.0.1")
unfolding get_request_context is_space
forwarded = refl
