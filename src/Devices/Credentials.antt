-- ===== src/Devices/Credentials.antt =====
-- backend/app/services/device.py: the keys of a device are made and revoked.
use diagnosis_system.Prelude.{
  ℕ, Bool, false, not, Option, none, some, [], ◌∷◌, ◌++◌, Text, codes, strip, leb, ◌==◌,
  if◌then◌else◌,
}
use diagnosis_system.Errors.{Outcome, ok, raised, not_found, validation_error}
use diagnosis_system.Audit.{
  RequestContext, entry_by, device_key_created, device_key_revoked, of_key,
}
use diagnosis_system.Auth.Store.{User}
use diagnosis_system.Auth.Security.{Platform}
use diagnosis_system.Auth.ApiKeys.{generate_api_key}
use diagnosis_system.Fleet.{Device, DeviceApiKey, Fleet, device_by_id, log, key_by_id, revoke_key}

revoke_found :
    ℕ → User → RequestContext → Fleet → Device → Option DeviceApiKey → Outcome Unit × Fleet
unfolding log revoke_key
revoke_found now actor ctx fleet d none = (raised not_found, fleet)
revoke_found now actor ctx fleet d (some key) =
    if not (key.device_id == d.id) then (raised not_found, fleet) else (
      ok tt,
      log
          (entry_by device_key_revoked actor.id actor.email (codes "device") d.id ctx
            (of_key key.prefix key.name))
          (record fleet { api_keys = revoke_key now key.id fleet.api_keys }),
    )

revoke_of : ℕ → User → ℕ → RequestContext → Fleet → Option Device → Outcome Unit × Fleet
unfolding revoke_found
revoke_of now actor key_id ctx fleet none = (raised not_found, fleet)
revoke_of now actor key_id ctx fleet (some d) =
    revoke_found now actor ctx fleet d (key_by_id key_id fleet.api_keys)

-- `revoke_api_key`
unfoldable pub revoke_api_key : ℕ → User → ℕ → ℕ → RequestContext → Fleet → Outcome Unit × Fleet
unfolding revoke_of
revoke_api_key now actor id key_id ctx fleet =
    revoke_of now actor key_id ctx fleet (device_by_id id fleet.devices)

pub in_past : ℕ → Option ℕ → Bool
in_past now none = false
in_past now (some at) = leb at now

module _ (p : Platform) where
  -- the row that `create_api_key` adds
  abbrev pub new_key : ℕ → ℕ → Text → User → ℕ → Text → Option ℕ → DeviceApiKey
  new_key key_id drawn secret actor device_id name expires_at =
      let made = generate_api_key p drawn secret in
      record {
        id = key_id;
        device_id = device_id;
        prefix = made.prefix;
        key_hash = made.key_hash;
        name = strip name;
        created_by_id = some actor.id;
        expires_at = expires_at;
        last_used_at = none;
        revoked_at = none;
      }

  key_for :
      ℕ
      → ℕ
      → ℕ
      → Text
      → User
      → Text
      → Option ℕ
      → RequestContext
      → Fleet
      → Option Device
      → Outcome (DeviceApiKey × Text) × Fleet
  unfolding log in_past
  key_for now key_id drawn secret actor name expires_at ctx fleet none = (raised not_found, fleet)
  key_for now key_id drawn secret actor name expires_at ctx fleet (some d) =
      let key = new_key key_id drawn secret actor d.id name expires_at in
      if in_past now expires_at then (raised validation_error, fleet) else (
        ok (key, (generate_api_key p drawn secret).plaintext),
        log
            (entry_by device_key_created actor.id actor.email (codes "device") d.id ctx
              (of_key key.prefix key.name))
            (record fleet { api_keys = fleet.api_keys ++ (key ∷ []) }),
      )

  -- `create_api_key`: the row and the plaintext
  unfoldable pub create_api_key :
      ℕ
      → ℕ
      → ℕ
      → Text
      → User
      → ℕ
      → Text
      → Option ℕ
      → RequestContext
      → Fleet
      → Outcome (DeviceApiKey × Text) × Fleet
  unfolding key_for
  create_api_key now key_id drawn secret actor id name expires_at ctx fleet =
      key_for now key_id drawn secret actor name expires_at ctx fleet
        (device_by_id id fleet.devices)
