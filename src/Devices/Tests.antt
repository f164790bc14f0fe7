-- ===== src/Devices/Tests.antt =====
-- Runs of the device service.
use diagnosis_system.Prelude.{
  ◌≡◌, refl, none, some, [], ◌∷◌, arith, Text, codes, is_space, strip, text_eq, All, IsSolid, hex,
  hex_onto, hex_digit,
}
use diagnosis_system.Errors.{ok, raised, not_found, conflict, integrity_error}
use diagnosis_system.Tables.{first}
use diagnosis_system.Auth.ApiKeys.{generate_api_key, split_api_key, authenticate_api_key, cut}
use diagnosis_system.Auth.Tests.{platform, ctx, alice}
use diagnosis_system.Fleet.{
  Device, DeviceApiKey, Fleet, active, inactive, device_by_id, identifier_taken, key_by_id,
}
use diagnosis_system.Devices.{DeviceCreate, DeviceUpdate, create, update, heartbeat}
use diagnosis_system.Devices.Credentials.{create_api_key, revoke_api_key, new_key}
use diagnosis_system.Devices.Payload.{validate_identifier, normalize_tags}
use diagnosis_system.Devices.Keys.{authenticate_api_key-create_api_key, revoke_api_key_refuses}
use diagnosis_system.Devices.Identity.{
  AreIdentified, Reach, here, next, creates, Reach-AreIdentified,
}

identifier : validate_identifier (codes " STM32-F4:01 ") ≡ some (codes "STM32-F4:01")
unfolding validate_identifier is_space
identifier = refl

bad_identifier : validate_identifier (codes "-a") ≡ none
unfolding validate_identifier is_space
bad_identifier = refl

tags :
    normalize_tags platform (codes " eu" ∷ codes "" ∷ codes "eu" ∷ codes "lab 2" ∷ [])
    ≡ some (codes "eu" ∷ codes "lab 2" ∷ [])
unfolding normalize_tags is_space
tags = refl

abbrev device : Device
device = record {
  id = 3;
  device_id = codes "STM-3";
  serial_number = codes "SN-3";
  firmware_version = codes "1.4.2";
  hardware_model = codes "F407";
  status = inactive;
  location = none;
  description = none;
  owner_id = none;
  last_online_at = none;
  tags = [];
}

abbrev fleet : Fleet
fleet = record {
  devices = device ∷ [];
  tags = codes "eu" ∷ [];
  api_keys = [];
  crashes = [];
  audit_logs = [];
}

abbrev payload : Text → Text → DeviceCreate
payload device_id serial_number = record {
  device_id = device_id;
  serial_number = serial_number;
  firmware_version = codes "1.0";
  hardware_model = codes "F103";
  status = active;
  location = none;
  description = none;
  owner_id = none;
  tags = codes "EU" ∷ codes "eu" ∷ [];
}

taken :
    (create platform 9 alice (payload (codes "STM-3") (codes "SN-9")) ctx fleet).0 ≡ raised conflict
unfolding create identifier_taken is_space
taken = refl

single : AreIdentified fleet.devices
single = record { ids = (tt, tt); identifiers = (tt, tt); serials = (tt, tt) }

found : device_by_id 3 fleet.devices ≡ some device
unfolding device_by_id
found = refl

abbrev grown : Fleet
grown = (create platform 9 alice (payload (codes "STM-9") (codes "STM-3")) ctx fleet).1

stripped_id : strip (codes "STM-9") ≡ codes "STM-9"
unfolding strip is_space
stripped_id = refl

stripped_serial : strip (codes "STM-3") ≡ codes "STM-3"
unfolding strip is_space
stripped_serial = refl

run : Reach platform fleet grown
run = next here (
    creates 9 alice (payload (codes "STM-9") (codes "STM-3")) ctx fleet (omega arith, tt)
      (λ e. cc, stripped_id) (λ e. cc, stripped_serial))

Reach-AreIdentified_example : AreIdentified grown.devices
Reach-AreIdentified_example = Reach-AreIdentified platform single run

online : (heartbeat 50 device none fleet).0 ≡ record device { last_online_at = some 50 }
unfolding heartbeat
online = refl

abbrev no_change : DeviceUpdate
no_change = record {
  firmware_version = none;
  hardware_model = none;
  status = none;
  location = none;
  description = none;
  owner_id = none;
  tags = none;
}

null_status :
    (update platform alice 3 (record no_change { status = some none }) ctx fleet).0
    ≡ raised integrity_error
unfolding update device_by_id
null_status = refl

abbrev secret : Text
secret = codes "s3"

abbrev key : DeviceApiKey
key = new_key platform 5 0x1f2e secret alice 3 (codes " lab ") (some 90)

abbrev shown : Text
shown = (generate_api_key platform 0x1f2e secret).plaintext

abbrev with_key : Fleet
with_key =
    (create_api_key platform 10 5 0x1f2e secret alice 3 (codes " lab ") (some 90) ctx fleet).1

made :
    (create_api_key platform 10 5 0x1f2e secret alice 3 (codes " lab ") (some 90) ctx fleet).0
    ≡ ok (key, shown)
unfolding create_api_key device_by_id
made = refl

solid : All IsSolid secret
unfolding is_space
solid = (refl, (refl, tt))

authenticate_api_key-create_api_key_example :
    (authenticate_api_key platform with_key.devices 89 shown with_key.api_keys).0 ≡ some device
authenticate_api_key-create_api_key_example =
    authenticate_api_key-create_api_key platform 10 5 0x1f2e secret alice 3 (codes " lab ")
      (some 90) ctx fleet key shown device 89 (λ e. cc) solid refl made found refl refl

abbrev keyed : Fleet
keyed = record fleet { api_keys = key ∷ [] }

key_found : key_by_id 5 keyed.api_keys ≡ some key
unfolding key_by_id
key_found = refl

only_one : first (λ k. text_eq k.prefix key.prefix) keyed.api_keys ≡ some key
unfolding generate_api_key hex hex_onto hex_digit
only_one = refl

revoked : (revoke_api_key 20 alice 3 5 ctx keyed).0 ≡ ok tt
unfolding revoke_api_key device_by_id key_by_id
revoked = refl

parts : split_api_key (codes "bbx_000000001f2e_s3") ≡ some (key.prefix, secret)
unfolding split_api_key cut is_space generate_api_key hex hex_onto hex_digit
parts = refl

revoke_api_key_refuses_example :
    (authenticate_api_key platform
      (device ∷ [])
      30
      (codes "bbx_000000001f2e_s3")
      (revoke_api_key 20 alice 3 5 ctx keyed).1.api_keys).0
    ≡ none
revoke_api_key_refuses_example =
    revoke_api_key_refuses platform 20 alice 3 5 ctx keyed key (device ∷ []) 30
      (codes "bbx_000000001f2e_s3") secret key_found only_one revoked parts

unknown_key : (revoke_api_key 20 alice 3 6 ctx keyed).0 ≡ raised not_found
unfolding revoke_api_key device_by_id key_by_id
unknown_key = refl
