-- ===== src/Devices/Keys.antt =====
-- A key that is made for a device is accepted, until it expires or is revoked.
use diagnosis_system.Prelude.{
  ℕ, ◌≡◌, ◌≢◌, refl, sym, ap, subst, ◌∙◌, true, false, not, ◌&&◌, inl, inr, Option, none, some,
  List, [], ◌∷◌, ◌++◌, arith, Text, text_eq, text_eq_refl, ◌==◌, ==_iff, if◌then◌else◌, All,
  IsSolid, Bool-cases, Option-cases,
}
use diagnosis_system.Errors.{ok}
use diagnosis_system.Audit.{RequestContext}
use diagnosis_system.Tables.{is_set, first}
use diagnosis_system.Tables.Laws.{first_here, first-append_none, first-update_keep, first_holds}
use diagnosis_system.Auth.Store.{User}
use diagnosis_system.Auth.Security.{Platform}
use diagnosis_system.Auth.ApiKeys.{expired, generate_api_key, split_api_key, authenticate_api_key}
use diagnosis_system.Auth.ApiKeys.Accepted.{
  authenticate_api_key-generate_api_key, authenticate_api_key-IsAccepted,
}
use diagnosis_system.Fleet.{
  Device, DeviceApiKey, Fleet, is_decommissioned, device_by_id, key_by_id, revoke_key,
}
use diagnosis_system.Devices.Credentials.{create_api_key, revoke_api_key, new_key, in_past}

module _ (p : Platform) where
  -- what a key that is made has come from
  record IsMade (now key_id drawn : ℕ) (secret : Text) (actor : User) (id : ℕ) (name : Text)
      (expires_at : Option ℕ) (ctx : RequestContext) (fleet : Fleet) (key : DeviceApiKey)
      (plaintext : Text) : Type 0 where
    pub device : Device
    pub found : device_by_id id fleet.devices ≡ some device
    pub row : key ≡ new_key p key_id drawn secret actor device.id name expires_at
    pub shown : plaintext ≡ (generate_api_key p drawn secret).plaintext
    pub keys :
        (create_api_key p now key_id drawn secret actor id name expires_at ctx fleet).1.api_keys
        ≡ fleet.api_keys ++ (key ∷ [])
    pub devices :
        (create_api_key p now key_id drawn secret actor id name expires_at ctx fleet).1.devices
        ≡ fleet.devices

  create_api_key-IsMade :
      (now key_id drawn : ℕ) (secret : Text) (actor : User) (id : ℕ) (name : Text)
      (expires_at : Option ℕ) (ctx : RequestContext) (fleet : Fleet) (key : DeviceApiKey)
      (plaintext : Text)
      → (create_api_key p now key_id drawn secret actor id name expires_at ctx fleet).0
        ≡ ok (key, plaintext)
      → IsMade now key_id drawn secret actor id name expires_at ctx fleet key plaintext
  unfolding create_api_key
  create_api_key-IsMade now key_id drawn secret actor id name expires_at ctx fleet key plaintext h =
      elim (Option-cases (device_by_id id fleet.devices)) [
        | inl e ↦ ground (arith, e)
        | inr (d, e) ↦ elim (Bool-cases (in_past now expires_at)) [
          | inl f ↦ ground (arith, e, f)
          | inr f ↦ record {
            device = d;
            found = e;
            row = ground (arith, e, f);
            shown = ground (arith, e, f);
            keys = ground (arith, e, f);
            devices = ground (arith, e, f);
          }
        ]
      ]

  by_id_id :
      (id : ℕ) (devices : List Device) {d : Device} → device_by_id id devices ≡ some d → d.id ≡ id
  unfolding device_by_id
  by_id_id id devices {d} h = (==_iff d.id id).0 (first_holds (λ x. x.id == id) devices h)

  -- A key that is made for a device is accepted from then on, until it expires: its plaintext leads
  -- to the device, if no key had its prefix and the device is not decommissioned.
  pub authenticate_api_key-create_api_key :
      (now key_id drawn : ℕ) (secret : Text) (actor : User) (id : ℕ) (name : Text)
      (expires_at : Option ℕ) (ctx : RequestContext) (fleet : Fleet) (key : DeviceApiKey)
      (plaintext : Text) (d : Device) (later : ℕ)
      → secret ≢ []
      → All IsSolid secret
      → first (λ k. text_eq k.prefix (generate_api_key p drawn secret).prefix) fleet.api_keys ≡ none
      → (create_api_key p now key_id drawn secret actor id name expires_at ctx fleet).0
        ≡ ok (key, plaintext)
      → device_by_id id fleet.devices ≡ some d
      → is_decommissioned d.status ≡ false
      → expired later expires_at ≡ false
      → (authenticate_api_key p
          (create_api_key p now key_id drawn secret actor id name expires_at ctx fleet).1.devices
          later
          plaintext
          (create_api_key p now key_id drawn secret actor id name expires_at ctx
            fleet).1.api_keys).0
        ≡ some d
  authenticate_api_key-create_api_key now key_id drawn secret actor id name expires_at ctx fleet key
        plaintext d later ne solid unused h found in_use early =
      let m =
        create_api_key-IsMade now key_id drawn secret actor id name expires_at ctx fleet key
          plaintext h in
      let has_prefix =
        λ (k : DeviceApiKey). text_eq k.prefix (generate_api_key p drawn secret).prefix in
      let own : key.device_id ≡ id =
        ap (λ (k : DeviceApiKey). k.device_id) m.row ∙ by_id_id id fleet.devices m.found in
      let named : has_prefix key ≡ true =
        ap has_prefix m.row ∙ text_eq_refl (generate_api_key p drawn secret).prefix in
      rw (m.keys, m.devices, m.shown)
        (authenticate_api_key-generate_api_key p fleet.devices later drawn secret
          (fleet.api_keys ++ (key ∷ [])) key d ne solid
          (first-append_none has_prefix fleet.api_keys (key ∷ []) unused
            ∙ first_here has_prefix key [] named)
          (ap (λ (k : DeviceApiKey). k.key_hash) m.row)
          (ap (λ (k : DeviceApiKey). k.revoked_at) m.row)
          (ap (λ (k : DeviceApiKey). expired later k.expires_at) m.row ∙ early)
          (ap (λ i. device_by_id i fleet.devices) own ∙ found) in_use)

  -- the row of a revoked key
  revoked_row :
      (now : ℕ) (prefix : Text) (keys : List DeviceApiKey) (key : DeviceApiKey)
      → first (λ k. text_eq k.prefix prefix) keys ≡ some key
      → (k : DeviceApiKey) × (first (λ k. text_eq k.prefix prefix) (revoke_key now key.id keys)
          ≡ some k)
        × (is_set k.revoked_at ≡ true)
  unfolding revoke_key
  revoked_row now prefix keys key h =
      let q = λ (k : DeviceApiKey). k.id == key.id && not (is_set k.revoked_at) in
      let f = λ (k : DeviceApiKey). record k { revoked_at = some now } in
      (
        if q key then f key else key,
        first-update_keep (λ k. text_eq k.prefix prefix) q f keys (λ x. refl) h,
        ground arith,
      )

  revoked_keys :
      (now : ℕ) (actor : User) (id key_id : ℕ) (ctx : RequestContext) (fleet : Fleet)
      (key : DeviceApiKey)
      → key_by_id key_id fleet.api_keys ≡ some key
      → (revoke_api_key now actor id key_id ctx fleet).0 ≡ ok tt
      → (revoke_api_key now actor id key_id ctx fleet).1.api_keys
        ≡ revoke_key now key.id fleet.api_keys
  unfolding revoke_api_key
  revoked_keys now actor id key_id ctx fleet key found h =
      elim (Option-cases (device_by_id id fleet.devices)) [
        | inl e ↦ ground (arith, e)
        | inr (d, e) ↦ elim (Bool-cases (key.device_id == d.id)) [
          | inl f ↦ ground (arith, e, f, found)
          | inr f ↦ ground (arith, e, f, found)
        ]
      ]

  -- Once a key was revoked, nothing that is presented with its prefix is accepted, at any time, as
  -- long as the prefix is that of one row.
  pub revoke_api_key_refuses :
      (now : ℕ) (actor : User) (id key_id : ℕ) (ctx : RequestContext) (fleet : Fleet)
      (key : DeviceApiKey) (devices : List Device) (later : ℕ) (candidate secret : Text)
      → key_by_id key_id fleet.api_keys ≡ some key
      → first (λ k. text_eq k.prefix key.prefix) fleet.api_keys ≡ some key
      → (revoke_api_key now actor id key_id ctx fleet).0 ≡ ok tt
      → split_api_key candidate ≡ some (key.prefix, secret)
      → (authenticate_api_key p devices later candidate
          (revoke_api_key now actor id key_id ctx fleet).1.api_keys).0
        ≡ none
  revoke_api_key_refuses now actor id key_id ctx fleet key devices later candidate secret found one
        h parts =
      let keys = revoke_key now key.id fleet.api_keys in
      rw (revoked_keys now actor id key_id ctx fleet key found h)
        (elim (Option-cases (authenticate_api_key p devices later candidate keys).0) [
          | inl e ↦ e
          | inr (d, e) ↦
              let a = authenticate_api_key-IsAccepted p devices later candidate keys d e in
              let (k, row, revoked) = revoked_row now key.prefix fleet.api_keys key one in
              let same_prefix : a.prefix ≡ key.prefix = cc (sym a.parts ∙ parts) in
              let same : a.key ≡ k =
                cc (
                  sym a.found ∙ ap (λ t. first (λ x. text_eq x.prefix t) keys) same_prefix ∙ row) in
              absurd (
                cc (
                  subst (λ (x : DeviceApiKey). is_set x.revoked_at ≡ false) same a.not_revoked,
                  revoked,
                ))
        ])
