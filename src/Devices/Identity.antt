-- ===== src/Devices/Identity.antt =====
-- The identifiers of the fleet: no two devices share one of a kind, but a device may be registered
-- with the serial number that is another's identifier.
use diagnosis_system.Prelude.{
  ℕ, ◌≡◌, ◌≢◌, refl, ap, ◌∙◌, Bool, false, not, inl, inr, Option, none, some, List, [], ◌∷◌, arith,
  Text, text_eq_iff, strip, filter, any_none, All, All-map, Pairwise, Pairwise-snoc,
  Pairwise-filter, ◌==◌, ==_iff, Bool-cases, Option-cases,
}
use diagnosis_system.Errors.{Outcome, ok, raised, ok->>=}
use diagnosis_system.Audit.{RequestContext}
use diagnosis_system.Tables.{first}
use diagnosis_system.Tables.Laws.{first_holds}
use diagnosis_system.Tables.Rows.{save-Pairwise, save-Differ, keys-Apart}
use diagnosis_system.Auth.Store.{User}
use diagnosis_system.Auth.Security.{Platform}
use diagnosis_system.Fleet.{
  Device, Fleet, device_by_id, identifier_taken, has_identifier, save_device,
}
use diagnosis_system.Devices.{
  DeviceCreate, DeviceUpdate, DeviceHeartbeat, create, update, delete, heartbeat, delete_device,
  set_attributes, set_tags, checked_in, required, write_update,
}

abbrev id_of : Device → ℕ
id_of d = d.id

abbrev OtherId : Device → Device → Type 0
OtherId a b = a.id ≢ b.id

abbrev OtherIdentifier : Device → Device → Type 0
OtherIdentifier a b = a.device_id ≢ b.device_id

abbrev OtherSerial : Device → Device → Type 0
OtherSerial a b = a.serial_number ≢ b.serial_number

pub record AreIdentified (devices : List Device) : Type 0 where
  pub ids : Pairwise OtherId devices
  pub identifiers : Pairwise OtherIdentifier devices
  pub serials : Pairwise OtherSerial devices

-- the same physical unit
abbrev SameUnit : Device → Device → Type 0
SameUnit u v = (v.id ≡ u.id) × (v.device_id ≡ u.device_id) × (v.serial_number ≡ u.serial_number)

-- A loaded device is saved as the unit that it is.
save-AreIdentified :
    (u v : Device) (devices : List Device)
    → AreIdentified devices
    → device_by_id u.id devices ≡ some u
    → SameUnit u v
    → AreIdentified (save_device v devices)
unfolding save_device device_by_id
save-AreIdentified u v devices d found same =
    let at : first (λ x. x.id == v.id) devices ≡ some u =
      ap (λ i. first (λ (x : Device). x.id == i) devices) same.0 ∙ found in
    record {
      ids = save-Pairwise id_of OtherId v devices d.ids d.ids (keys-Apart id_of v devices);
      identifiers =
          save-Differ id_of (λ (x : Device). x.device_id) u v devices d.ids d.identifiers at same.1;
      serials =
          save-Differ id_of (λ (x : Device). x.serial_number) u v devices d.ids d.serials at same.2;
    }

-- a device that is found by its id is found by the id that it has
found_by_own_id :
    (id : ℕ) (devices : List Device) {u : Device}
    → device_by_id id devices ≡ some u
    → device_by_id u.id devices ≡ some u
unfolding device_by_id
found_by_own_id id devices {u} h =
    ap (λ i. first (λ (x : Device). x.id == i) devices)
      ((==_iff u.id id).0 (first_holds (λ x. x.id == id) devices h))
    ∙ h

filter-AreIdentified :
    (q : Device → Bool) (devices : List Device)
    → AreIdentified devices
    → AreIdentified (filter q devices)
filter-AreIdentified q devices d = record {
  ids = Pairwise-filter q OtherId devices d.ids;
  identifiers = Pairwise-filter q OtherIdentifier devices d.identifiers;
  serials = Pairwise-filter q OtherSerial devices d.serials;
}

-- identifiers as the validators leave them: not blank, and with no space at their ends
abbrev pub IsIdentifier : Text → Type 0
IsIdentifier t = (t ≢ []) × (strip t ≡ t)

free_device :
    (a b : Text) (d : Device)
    → IsIdentifier a
    → IsIdentifier b
    → has_identifier a b d ≡ false
    → (d.device_id ≢ strip a) × (d.serial_number ≢ strip b)
free_device [] b d i j h = absurd (i.0 refl)
free_device (c ∷ cs) [] d i j h = absurd (j.0 refl)
free_device (c ∷ cs) (e ∷ es) d i j h = (
  λ f. ground (arith, (text_eq_iff d.device_id (strip (c ∷ cs))).1 f),
  λ f. ground (arith, (text_eq_iff d.serial_number (strip (e ∷ es))).1 f),
)

-- an identifier that is not taken is that of no device
free_devices :
    (a b : Text) (devices : List Device)
    → IsIdentifier a
    → IsIdentifier b
    → identifier_taken a b devices ≡ false
    → All (λ d. (d.device_id ≢ strip a) × (d.serial_number ≢ strip b)) devices
unfolding identifier_taken
free_devices a b devices i j h =
    All-map (λ d. has_identifier a b d ≡ false) _ (λ d k. free_device a b d i j k) devices
      (any_none (has_identifier a b) devices h)

set_attributes-SameUnit :
    (patch : DeviceUpdate) (d v : Device) → set_attributes patch d ≡ ok v → SameUnit d v
unfolding set_attributes
set_attributes-SameUnit patch d v h =
    let (a, e, f) = ok->>= (required patch.firmware_version d.firmware_version) _ h in
    let (b, g, k) = ok->>= (required patch.hardware_model d.hardware_model) _ f in
    let (c, l, m) = ok->>= (required patch.status d.status) _ k in ground arith

checked_in-SameUnit : (o : Option DeviceHeartbeat) (d : Device) → SameUnit d (checked_in o d)
unfolding checked_in
checked_in-SameUnit none d = (refl, refl, refl)
checked_in-SameUnit (some h) d = (refl, refl, refl)

heartbeat-AreIdentified :
    (now : ℕ) (d : Device) (o : Option DeviceHeartbeat) (fleet : Fleet)
    → device_by_id d.id fleet.devices ≡ some d
    → AreIdentified fleet.devices
    → AreIdentified (heartbeat now d o fleet).1.devices
unfolding heartbeat
heartbeat-AreIdentified now d o fleet found all =
    save-AreIdentified d (checked_in o (record d { last_online_at = some now })) fleet.devices all
      found (checked_in-SameUnit o (record d { last_online_at = some now }))

delete-AreIdentified :
    (now : ℕ) (actor : User) (id : ℕ) (ctx : RequestContext) (fleet : Fleet)
    → AreIdentified fleet.devices
    → AreIdentified (delete now actor id ctx fleet).1.devices
unfolding delete delete_device
delete-AreIdentified now actor id ctx fleet all =
    elim (Option-cases (device_by_id id fleet.devices)) [
      | inl e ↦ rw e all
      | inr (d, e) ↦ rw e (filter-AreIdentified (λ x. not (x.id == d.id)) fleet.devices all)
    ]

module _ (p : Platform) where
  create-AreIdentified :
      (id : ℕ) (actor : User) (payload : DeviceCreate) (ctx : RequestContext) (fleet : Fleet)
      → All (λ d. d.id ≢ id) fleet.devices
      → IsIdentifier payload.device_id
      → IsIdentifier payload.serial_number
      → AreIdentified fleet.devices
      → AreIdentified (create p id actor payload ctx fleet).1.devices
  unfolding create
  create-AreIdentified id actor payload ctx fleet new i j all =
      elim (Bool-cases (identifier_taken payload.device_id payload.serial_number fleet.devices)) [
        | inl e ↦ rw e all
        | inr e ↦
            let free = free_devices payload.device_id payload.serial_number fleet.devices i j e in
            rw e (record {
              ids = Pairwise-snoc OtherId _ fleet.devices all.ids new;
              identifiers = Pairwise-snoc OtherIdentifier _ fleet.devices all.identifiers (
                  All-map _ (λ d. d.device_id ≢ strip payload.device_id) (λ d f. f.0) fleet.devices
                    free);
              serials = Pairwise-snoc OtherSerial _ fleet.devices all.serials (
                  All-map _ (λ d. d.serial_number ≢ strip payload.serial_number) (λ d f. f.1)
                    fleet.devices free);
            })
      ]

  set_tags-SameUnit :
      (o : Option (List Text)) (tags : List Text) (u d : Device)
      → SameUnit u d
      → SameUnit u (set_tags p o tags d).0
  unfolding set_tags
  set_tags-SameUnit none tags u d h = h
  set_tags-SameUnit (some names) tags u d h = h

  write_update-AreIdentified :
      (actor : User) (patch : DeviceUpdate) (ctx : RequestContext) (fleet : Fleet) (d : Device)
      → device_by_id d.id fleet.devices ≡ some d
      → AreIdentified fleet.devices
      → (o : Outcome Device) → set_attributes patch d ≡ o
      → AreIdentified (write_update p actor patch ctx fleet d o).1.devices
  unfolding write_update
  write_update-AreIdentified actor patch ctx fleet d found all (raised x) e = all
  write_update-AreIdentified actor patch ctx fleet d found all (ok v) e =
      save-AreIdentified d (set_tags p patch.tags fleet.tags v).0 fleet.devices all found
        (set_tags-SameUnit patch.tags fleet.tags d v (set_attributes-SameUnit patch d v e))

  update-AreIdentified :
      (actor : User) (id : ℕ) (patch : DeviceUpdate) (ctx : RequestContext) (fleet : Fleet)
      → AreIdentified fleet.devices
      → AreIdentified (update p actor id patch ctx fleet).1.devices
  unfolding update
  update-AreIdentified actor id patch ctx fleet all =
      elim (Option-cases (device_by_id id fleet.devices)) [
        | inl e ↦ rw e all
        | inr (d, e) ↦ rw e (
            write_update-AreIdentified actor patch ctx fleet d (found_by_own_id id fleet.devices e)
              all (set_attributes patch d) refl)
      ]

  -- The calls that write devices. Ids are new, a payload is as the validators leave it, and the
  -- device of a heartbeat is one of the table.
  pub data Step : Fleet → Fleet → Type 0 where
    creates :
        (id : ℕ) (actor : User) (payload : DeviceCreate) (ctx : RequestContext) (fleet : Fleet)
        → All (λ d. d.id ≢ id) fleet.devices
        → IsIdentifier payload.device_id
        → IsIdentifier payload.serial_number
        → Step fleet (create p id actor payload ctx fleet).1
    updates :
        (actor : User) (id : ℕ) (patch : DeviceUpdate) (ctx : RequestContext) (fleet : Fleet)
        → Step fleet (update p actor id patch ctx fleet).1
    deletes :
        (now : ℕ) (actor : User) (id : ℕ) (ctx : RequestContext) (fleet : Fleet)
        → Step fleet (delete now actor id ctx fleet).1
    checks_in :
        (now : ℕ) (d : Device) (o : Option DeviceHeartbeat) (fleet : Fleet)
        → device_by_id d.id fleet.devices ≡ some d
        → Step fleet (heartbeat now d o fleet).1

  pub data Reach (s : Fleet) : Fleet → Type 0 where
    here : Reach s s
    next : {t u : Fleet} → Reach s t → Step t u → Reach s u

  Step-AreIdentified : {s t : Fleet} → Step s t → AreIdentified s.devices → AreIdentified t.devices
  Step-AreIdentified (creates id actor payload ctx fleet new i j) all =
      create-AreIdentified id actor payload ctx fleet new i j all
  Step-AreIdentified (updates actor id patch ctx fleet) all =
      update-AreIdentified actor id patch ctx fleet all
  Step-AreIdentified (deletes now actor id ctx fleet) all =
      delete-AreIdentified now actor id ctx fleet all
  Step-AreIdentified (checks_in now d o fleet found) all =
      heartbeat-AreIdentified now d o fleet found all

  -- Registering, updating, deleting and checking in devices, in any order, keep the ids, the
  -- identifiers and the serial numbers of the devices apart, each among its kind.
  pub Reach-AreIdentified :
      {s t : Fleet} → AreIdentified s.devices → Reach s t → AreIdentified t.devices
  Reach-AreIdentified all here = all
  Reach-AreIdentified all (next r st) = Step-AreIdentified st (Reach-AreIdentified all r)
