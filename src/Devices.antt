-- ===== src/Devices.antt =====
-- backend/app/services/device.py: the devices of the fleet and their keys. What raises is rolled back
-- with its request. Ids, and the bytes of a new key, are drawn outside.
pub mod Payload
pub mod Credentials
pub mod Keys
pub mod Identity
mod Tests
use diagnosis_system.Prelude.{
  ℕ, Bool, true, false, not, ◌&&◌, ◌||◌, Option, none, some, List, [], ◌∷◌, ◌++◌, Text, codes,
  text_eq, strip, leb, ◌==◌, if◌then◌else◌, filter, any,
}
use diagnosis_system.Errors.{
  Outcome, ok, raised, not_found, conflict, validation_error, integrity_error, ◌>>=◌,
}
use diagnosis_system.Audit.{
  AuditLog, RequestContext, entry_by, append_entry, device_created, device_updated, device_deleted,
  device_key_created, device_key_revoked, changed, of_device, deleted_device, of_key,
}
use diagnosis_system.Tables.{required, nullable}
use diagnosis_system.Auth.Store.{User}
use diagnosis_system.Auth.Security.{Platform}
use diagnosis_system.Auth.ApiKeys.{generate_api_key}
use diagnosis_system.Fleet.{
  DeviceStatus, active, inactive, Device, DeviceApiKey, Fleet, device_by_id, identifier_taken,
  save_device, log, key_by_id, revoke_key, count_for_device,
}

-- `DeviceCreate`
pub record DeviceCreate : Type 0 where
  pub device_id : Text
  pub serial_number : Text
  pub firmware_version : Text
  pub hardware_model : Text
  pub status : DeviceStatus
  pub location : Option Text
  pub description : Option Text
  pub owner_id : Option ℕ
  pub tags : List Text

-- `DeviceUpdate`: the outer `none` is a field that is unset, the inner one a null
pub record DeviceUpdate : Type 0 where
  pub firmware_version : Option (Option Text)
  pub hardware_model : Option (Option Text)
  pub status : Option (Option DeviceStatus)
  pub location : Option (Option Text)
  pub description : Option (Option Text)
  pub owner_id : Option (Option ℕ)
  pub tags : Option (List Text)

-- `DeviceHeartbeat`
pub record DeviceHeartbeat : Type 0 where
  pub firmware_version : Option Text
  pub status : Option DeviceStatus

abbrev or_actor : Option ℕ → User → ℕ
or_actor none actor = actor.id
or_actor (some id) actor = id

abbrev is_blank : Text → Bool
is_blank [] = true
is_blank (c ∷ cs) = false

-- the attributes of `update` but the tags
unfoldable pub set_attributes : DeviceUpdate → Device → Outcome Device
unfolding required nullable
set_attributes patch d = required patch.firmware_version d.firmware_version >>= λ firmware_version.
    (required patch.hardware_model d.hardware_model >>= λ hardware_model.
    (required patch.status d.status >>= λ status. ok (record d {
      firmware_version = firmware_version;
      hardware_model = hardware_model;
      status = status;
      location = nullable patch.location d.location;
      description = nullable patch.description d.description;
      owner_id = nullable patch.owner_id d.owner_id;
    })))

abbrev named : {A : Type 0} → Text → Option A → List Text
named name none = []
named name (some a) = name ∷ []

-- the keys of `changed`
changed_keys : DeviceUpdate → List Text
changed_keys patch =
    named (codes "firmware_version") patch.firmware_version
    ++ (named (codes "hardware_model") patch.hardware_model
        ++ (named (codes "status") patch.status
            ++ (named (codes "location") patch.location
                ++ (named (codes "description") patch.description
                    ++ (named (codes "owner_id") patch.owner_id
                        ++ named (codes "tags") patch.tags)))))

reactivated : DeviceStatus → DeviceStatus
reactivated inactive = active
reactivated s = s

reported_status : Option DeviceStatus → DeviceStatus → DeviceStatus
unfolding reactivated
reported_status none old = reactivated old
reported_status (some s) old = s

reported_version : Option Text → Text → Text
reported_version none old = old
reported_version (some []) old = old
reported_version (some (c ∷ cs)) old = c ∷ cs

checked_in : Option DeviceHeartbeat → Device → Device
unfolding reported_status reported_version
checked_in none d = d
checked_in (some h) d = record d {
  firmware_version = reported_version h.firmware_version d.firmware_version;
  status = reported_status h.status d.status;
}

-- `heartbeat` of a loaded device
unfoldable pub heartbeat : ℕ → Device → Option DeviceHeartbeat → Fleet → Device × Fleet
unfolding checked_in
heartbeat now device payload fleet =
    let seen = checked_in payload (record device { last_online_at = some now }) in
    (seen, record fleet { devices = save_device seen fleet.devices })

-- the row, and what the foreign keys take with it
unfoldable pub delete_device : ℕ → Fleet → Fleet
delete_device id fleet = record fleet {
  devices = filter (λ d. not (d.id == id)) fleet.devices;
  api_keys = filter (λ k. not (k.device_id == id)) fleet.api_keys;
  crashes = filter (λ r. not (r.device_id == id)) fleet.crashes;
}

delete_found : ℕ → User → RequestContext → Fleet → Option Device → Outcome Unit × Fleet
unfolding delete_device log count_for_device
delete_found now actor ctx fleet none = (raised not_found, fleet)
delete_found now actor ctx fleet (some d) = (
  ok tt,
  delete_device d.id (
      log
        (entry_by device_deleted actor.id actor.email (codes "device") d.id ctx (
          deleted_device d.device_id d.serial_number
            (count_for_device now d.id fleet.crashes).total))
        fleet),
)

-- `delete`
unfoldable pub delete : ℕ → User → ℕ → RequestContext → Fleet → Outcome Unit × Fleet
unfolding delete_found
delete now actor id ctx fleet = delete_found now actor ctx fleet (device_by_id id fleet.devices)

module _ (p : Platform) where
  -- one step of the loop of `get_or_create_many`
  add_tag : List Text → Text → List Text
  unfolding strip
  add_tag seen name =
      let tag = p.lower (strip name) in
      if is_blank tag || any (text_eq tag) seen then seen else seen ++ (tag ∷ [])

  normalized_from : List Text → List Text → List Text
  unfolding add_tag
  normalized_from seen [] = seen
  normalized_from seen (name ∷ rest) = normalized_from (add_tag seen name) rest

  -- `get_or_create_many`: the tags of the device, and the table
  get_or_create_many : List Text → List Text → List Text × List Text
  unfolding normalized_from
  get_or_create_many names tags =
      let wanted = normalized_from [] names in
      (wanted, tags ++ filter (λ t. not (any (text_eq t) tags)) wanted)

  -- the row that `create` adds
  new_device : ℕ → User → DeviceCreate → List Text → Device
  unfolding strip
  new_device id actor payload tags = record {
    id = id;
    device_id = strip payload.device_id;
    serial_number = strip payload.serial_number;
    firmware_version = payload.firmware_version;
    hardware_model = payload.hardware_model;
    status = payload.status;
    location = payload.location;
    description = payload.description;
    owner_id = some (or_actor payload.owner_id actor);
    last_online_at = none;
    tags = tags;
  }

  -- `create`
  unfoldable pub create : ℕ → User → DeviceCreate → RequestContext → Fleet → Outcome Device × Fleet
  unfolding get_or_create_many new_device log
  create id actor payload ctx fleet =
      let found = get_or_create_many payload.tags fleet.tags in
      let d = new_device id actor payload found.0 in
      if identifier_taken payload.device_id payload.serial_number fleet.devices
      then (raised conflict, fleet)
      else (
        ok d,
        log
            (entry_by device_created actor.id actor.email (codes "device") id ctx
              (of_device d.device_id payload.tags))
            (record fleet { devices = fleet.devices ++ (d ∷ []); tags = found.1 }),
      )

  set_tags : Option (List Text) → List Text → Device → Device × List Text
  unfolding get_or_create_many
  set_tags none tags d = (d, tags)
  set_tags (some names) tags d =
      let found = get_or_create_many names tags in (record d { tags = found.0 }, found.1)

  write_update :
      User
      → DeviceUpdate
      → RequestContext
      → Fleet
      → Device
      → Outcome Device
      → Outcome Device × Fleet
  unfolding set_tags changed_keys log
  write_update actor patch ctx fleet d (raised e) = (raised e, fleet)
  write_update actor patch ctx fleet d (ok v) =
      let tagged = set_tags patch.tags fleet.tags v in
      (
        ok tagged.0,
        log
            (entry_by device_updated actor.id actor.email (codes "device") d.id ctx
              (changed (changed_keys patch)))
            (record fleet { devices = save_device tagged.0 fleet.devices; tags = tagged.1 }),
      )

  update_found :
      User → DeviceUpdate → RequestContext → Fleet → Option Device → Outcome Device × Fleet
  unfolding write_update
  update_found actor patch ctx fleet none = (raised not_found, fleet)
  update_found actor patch ctx fleet (some d) =
      write_update actor patch ctx fleet d (set_attributes patch d)

  -- `update`
  unfoldable pub update : User → ℕ → DeviceUpdate → RequestContext → Fleet → Outcome Device × Fleet
  unfolding update_found set_attributes
  update actor id patch ctx fleet =
      update_found actor patch ctx fleet (device_by_id id fleet.devices)
