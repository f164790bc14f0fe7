-- ===== src/Auth/ApiKeys/Tests.antt =====
-- A key that is made and presented.
use diagnosis_system.Prelude.{
  ◌≡◌, refl, none, some, [], ◌∷◌, Text, codes, is_space, hex, hex_onto, hex_digit, text_eq, All,
  IsSolid,
}
use diagnosis_system.Tables.{first}
use diagnosis_system.Auth.Security.{Platform}
use diagnosis_system.Fleet.{Device, DeviceApiKey, active, device_by_id}
use diagnosis_system.Auth.ApiKeys.{generate_api_key, authenticate_api_key}
use diagnosis_system.Auth.ApiKeys.Accepted.{
  IsAccepted, authenticate_api_key-IsAccepted, authenticate_api_key-generate_api_key,
}

-- only the digest matters here
abbrev platform : Platform
platform = record {
  settings = record {
    project_name = [];
    access_token_expire_minutes = 0;
    refresh_token_expire_minutes = 0;
    password_reset_token_expire_minutes = 0;
    max_failed_login_attempts = 0;
    account_lockout_minutes = 0;
  };
  hashpw = λ password salt. password;
  checkpw = λ password hashed. none;
  encode = λ c. [];
  decode = λ token seconds. none;
  sha256 = λ t. b'#' ∷ t;
  lower = λ t. t;
}

abbrev device : Device
device = record {
  id = 3;
  device_id = codes "STM32-0003";
  serial_number = codes "SN-3";
  firmware_version = codes "1.4.2";
  hardware_model = codes "STM32F407VG";
  status = active;
  location = none;
  description = none;
  owner_id = none;
  last_online_at = none;
  tags = [];
}

abbrev secret : Text
secret = codes "s_3"

abbrev key : DeviceApiKey
key = record {
  id = 1;
  device_id = 3;
  prefix = codes "000000001f2e";
  key_hash = codes "#s_3";
  name = codes "field";
  created_by_id = none;
  expires_at = some 100;
  last_used_at = none;
  revoked_at = none;
}

found :
    first (λ k. text_eq k.prefix (generate_api_key platform 0x1f2e secret).prefix) (key ∷ [])
    ≡ some key
unfolding generate_api_key hex hex_onto hex_digit
found = refl

hashed : key.key_hash ≡ (generate_api_key platform 0x1f2e secret).key_hash
unfolding generate_api_key
hashed = refl

owner : device_by_id 3 (device ∷ []) ≡ some device
unfolding device_by_id
owner = refl

solid : All IsSolid secret
unfolding is_space
solid = (refl, (refl, (refl, tt)))

accepted_key :
    (authenticate_api_key platform
      (device ∷ [])
      99
      (generate_api_key platform 0x1f2e secret).plaintext
      (key ∷ [])).0
    ≡ some device
accepted_key =
    authenticate_api_key-generate_api_key platform (device ∷ []) 99 0x1f2e secret (key ∷ []) key
      device (λ e. cc) solid found hashed refl refl owner refl

authenticate_api_key-IsAccepted_example :
    IsAccepted platform
      (device ∷ [])
      99
      (generate_api_key platform 0x1f2e secret).plaintext
      (key ∷ [])
      device
authenticate_api_key-IsAccepted_example =
    authenticate_api_key-IsAccepted platform (device ∷ []) 99
      (generate_api_key platform 0x1f2e secret).plaintext (key ∷ []) device accepted_key
