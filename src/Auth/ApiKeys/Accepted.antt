-- ===== src/Auth/ApiKeys/Accepted.antt =====
-- Which keys are accepted.
use diagnosis_system.Prelude.{
  ℕ, ◌<◌, ◌≡◌, ◌≢◌, refl, ap, subst, ◌∙◌, true, false, not, ◌||◌, inl, inr, Option, none, some,
  List, [], ◌∷◌, ◌++◌, arith, Text, text_eq, text_eq_iff, text_eq_refl, hex, hex_digit, hex_onto,
  hex_onto-All, length-hex_onto, IsSolid, strip_solid, All-append, is_space, length, ◌==◌, All,
  Bool-cases, Option-cases,
}
use diagnosis_system.Tables.{first, is_set}
use diagnosis_system.Auth.Security.{Platform}
use diagnosis_system.Fleet.{Device, DeviceApiKey, is_decommissioned, device_by_id}
use diagnosis_system.Auth.ApiKeys.{
  api_key_namespace, cut, is_empty, accept_parts, cut_rest, cut_twice, split_api_key, key_of,
  expired, generate_api_key, verify_api_key, accept_device, accept_key, accept_split,
  authenticate_api_key,
}

abbrev IsPlain : ℕ → Type 0
IsPlain c = (c == b'_') ≡ false

cut-append : (s t : Text) → All IsPlain s → cut (s ++ (b'_' ∷ t)) ≡ some (s, t)
unfolding cut
cut-append [] t h = refl
cut-append (c ∷ cs) t h = rw (h.0, cut) (rw (cut-append cs t h.1, cut) refl)

digit-IsPlain : (d : ℕ) → d < 16 → IsPlain (hex_digit d)
unfolding hex_digit
digit-IsPlain d h = ground arith

digit-IsSolid : (d : ℕ) → d < 16 → IsSolid (hex_digit d)
unfolding is_space hex_digit
digit-IsSolid d h = ground arith

prefix-IsPlain : (prefix : ℕ) → All IsPlain (hex 12 prefix)
unfolding hex
prefix-IsPlain prefix = hex_onto-All hex_digit IsPlain digit-IsPlain 12 prefix [] tt

length-prefix : (prefix : ℕ) → length (hex 12 prefix) ≡ 12
unfolding hex
length-prefix prefix = length-hex_onto hex_digit 12 prefix []

accept_parts_lem :
    (prefix secret : Text)
    → length prefix ≡ 12
    → secret ≢ []
    → accept_parts api_key_namespace prefix secret ≡ some (prefix, secret)
unfolding accept_parts is_empty
accept_parts_lem [] secret h ne = absurd (ground arith)
accept_parts_lem (c ∷ cs) [] h ne = absurd (ne refl)
accept_parts_lem (c ∷ cs) (d ∷ ds) h ne = ground arith

module _ (p : Platform) (devices : List Device) where
  key-IsSolid :
      (prefix : ℕ) (secret : Text)
      → All IsSolid secret
      → All IsSolid (key_of (hex 12 prefix) secret)
  unfolding hex is_space
  key-IsSolid prefix secret h = (
    refl,
    (
      refl,
      (
        refl,
        (
          refl,
          All-append IsSolid (hex_onto hex_digit 12 prefix []) (b'_' ∷ secret)
              (hex_onto-All hex_digit IsSolid digit-IsSolid 12 prefix [] tt) (refl, h),
        ),
      ),
    ),
  )

  -- A generated key splits into the prefix and the secret that it was made of.
  split_api_key-generate_api_key :
      (prefix : ℕ) (secret : Text)
      → secret ≢ []
      → All IsSolid secret
      → split_api_key (generate_api_key p prefix secret).plaintext ≡ some (hex 12 prefix, secret)
  unfolding split_api_key generate_api_key cut_twice cut_rest
  split_api_key-generate_api_key prefix secret ne solid =
      let shown = hex 12 prefix in
      let rest = shown ++ (b'_' ∷ secret) in
      ap (λ t. cut_twice (cut t))
        (strip_solid b'b' (b'b' ∷ b'x' ∷ b'_' ∷ rest) (key-IsSolid prefix secret solid))
      ∙ ap cut_twice (cut-append api_key_namespace rest (refl, (refl, (refl, tt))))
      ∙ ap (cut_rest api_key_namespace) (cut-append shown secret (prefix-IsPlain prefix))
      ∙ accept_parts_lem shown secret (length-prefix prefix) ne

  accepts :
      (now : ℕ) (secret : Text) (keys : List DeviceApiKey) (key : DeviceApiKey) (device : Device)
      → text_eq (p.sha256 secret) key.key_hash ≡ true
      → is_set key.revoked_at ≡ false
      → expired now key.expires_at ≡ false
      → device_by_id key.device_id devices ≡ some device
      → is_decommissioned device.status ≡ false
      → (accept_key p devices now secret (some key) keys).0 ≡ some device
  unfolding accept_key accept_device verify_api_key
  accepts now secret keys key device verified opened early held in_use =
      rw (verified, opened, early)
        (ap (λ o. (accept_device p devices now key.id o keys).0) held ∙ rw in_use refl)

  -- A generated key is accepted and leads to its device, if the row that is stored for its prefix
  -- keeps its hash, is not revoked and has not expired, and the device is not decommissioned.
  pub authenticate_api_key-generate_api_key :
      (now prefix : ℕ) (secret : Text) (keys : List DeviceApiKey) (key : DeviceApiKey)
      (device : Device)
      → secret ≢ []
      → All IsSolid secret
      → first (λ k. text_eq k.prefix (generate_api_key p prefix secret).prefix) keys ≡ some key
      → key.key_hash ≡ (generate_api_key p prefix secret).key_hash
      → key.revoked_at ≡ none
      → expired now key.expires_at ≡ false
      → device_by_id key.device_id devices ≡ some device
      → is_decommissioned device.status ≡ false
      → (authenticate_api_key p devices now (generate_api_key p prefix secret).plaintext keys).0
        ≡ some device
  unfolding authenticate_api_key generate_api_key accept_split accept_key accept_device
      verify_api_key
  authenticate_api_key-generate_api_key now prefix secret keys key device ne solid found hash opened
        early held in_use =
      ap (λ (parts : Option (Text × Text)). (accept_split p devices now parts keys).0)
        (split_api_key-generate_api_key prefix secret ne solid)
      ∙ ap (λ (o : Option DeviceApiKey). (accept_key p devices now secret o keys).0) found
      ∙ accepts now secret keys key device
          (ap (text_eq (p.sha256 secret)) hash ∙ text_eq_refl (p.sha256 secret)) (ap is_set opened)
          early held in_use

  -- what stands behind an accepted key
  pub record IsAccepted (now : ℕ) (candidate : Text) (keys : List DeviceApiKey) (device : Device)
      : Type 0 where
    pub prefix : Text
    pub secret : Text
    pub parts : split_api_key candidate ≡ some (prefix, secret)
    pub key : DeviceApiKey
    pub found : first (λ k. text_eq k.prefix prefix) keys ≡ some key
    pub verified : p.sha256 secret ≡ key.key_hash
    pub not_revoked : is_set key.revoked_at ≡ false
    pub not_expired : expired now key.expires_at ≡ false
    pub owner : device_by_id key.device_id devices ≡ some device
    pub in_use : is_decommissioned device.status ≡ false

  guarded :
      (now : ℕ) (secret : Text) (key : DeviceApiKey) (keys : List DeviceApiKey) (device : Device)
      → (accept_key p devices now secret (some key) keys).0 ≡ some device
      → (not (verify_api_key p secret key.key_hash)
            || is_set key.revoked_at
            || expired now key.expires_at
          ≡ false)
        × ((accept_device p devices now key.id (device_by_id key.device_id devices) keys).0
            ≡ some device)
  unfolding accept_key
  guarded now secret key keys device h =
      elim (Bool-cases (
        not (verify_api_key p secret key.key_hash)
        || is_set key.revoked_at
        || expired now key.expires_at)) [ inl e ↦ cc (rw e at h) | inr e ↦ (e, rw e at h) ]

  owned :
      (now id : ℕ) (o : Option Device) (keys : List DeviceApiKey) (device : Device)
      → (accept_device p devices now id o keys).0 ≡ some device
      → (o ≡ some device) × (is_decommissioned device.status ≡ false)
  unfolding accept_device
  owned now id none keys device h = cc
  owned now id (some d) keys device h = elim (Bool-cases (is_decommissioned d.status)) [
    | inl e ↦ cc (rw e at h)
    | inr e ↦
        let same : d ≡ device = cc (rw e at h) in
        (ap some same, subst (λ (x : Device). is_decommissioned x.status ≡ false) same e)
  ]

  -- A key is accepted only if it has the shape of a key, and the row of its prefix keeps the hash of
  -- its secret, is not revoked, has not expired, and belongs to the device, which is in use.
  pub authenticate_api_key-IsAccepted :
      (now : ℕ) (candidate : Text) (keys : List DeviceApiKey) (device : Device)
      → (authenticate_api_key p devices now candidate keys).0 ≡ some device
      → IsAccepted now candidate keys device
  unfolding authenticate_api_key accept_split verify_api_key
  authenticate_api_key-IsAccepted now candidate keys device h =
      elim (Option-cases (split_api_key candidate)) [
        | inl e ↦ cc (rw (e, accept_split) at h)
        | inr ((prefix, secret), e) ↦
            elim (Option-cases (first (λ k. text_eq k.prefix prefix) keys)) [
              | inl f ↦ cc (rw (e, f, accept_split, accept_key) at h)
              | inr (key, f) ↦
                  let (guard, left) =
                    guarded now secret key keys device (rw (e, f, accept_split) at h) in
                  let (owner, in_use) =
                    owned now key.id (device_by_id key.device_id devices) keys device left in
                  record {
                    prefix = prefix;
                    secret = secret;
                    parts = e;
                    key = key;
                    found = f;
                    verified = (text_eq_iff (p.sha256 secret) key.key_hash).0 (ground arith);
                    not_revoked = ground arith;
                    not_expired = ground arith;
                    owner = owner;
                    in_use = in_use;
                  }
            ]
      ]
