-- ===== src/Auth/ApiKeys.antt =====
-- The keys of devices: backend/app/core/security.py and `authenticate_api_key` of
-- backend/app/services/device.py, with the queries of backend/app/repositories/device.py.
pub mod Accepted
mod Tests
use diagnosis_system.Prelude.{
  ℕ, ◌+◌, ◌*◌, Bool, true, false, not, ◌&&◌, ◌||◌, Option, none, some, List, [], ◌∷◌, ◌++◌, Text,
  codes, text_eq, strip, hex, length, leb, ◌==◌, if◌then◌else◌,
}
use diagnosis_system.Tables.{first, is_set, update_where}
use diagnosis_system.Auth.Security.{Platform}
use diagnosis_system.Fleet.{Device, DeviceApiKey, is_decommissioned, device_by_id, touch_last_used}

pub record GeneratedApiKey : Type 0 where
  pub plaintext : Text
  pub prefix : Text
  pub key_hash : Text

abbrev pub api_key_namespace : Text
api_key_namespace = codes "bbx"

abbrev pub api_key_prefix_bytes : ℕ
api_key_prefix_bytes = 6

-- what is before the first underscore and what is behind it
unfoldable pub cut : Text → Option (Text × Text)
cut [] = none
cut (c ∷ cs) = elim (c == b'_') [
  | true ↦ some ([], cs)
  | false ↦ elim (cut cs) [ none ↦ none | some parts ↦ some (c ∷ parts.0, parts.1) ]
]

is_empty : Text → Bool
is_empty [] = true
is_empty (c ∷ cs) = false

-- the checks on the three parts
accept_parts : Text → Text → Text → Option (Text × Text)
unfolding is_empty
accept_parts namespace prefix secret =
    if not (text_eq namespace api_key_namespace) || is_empty prefix || is_empty secret
    then none
    else if not (length prefix == api_key_prefix_bytes * 2)
    then none
    else some (prefix, secret)

cut_rest : Text → Option (Text × Text) → Option (Text × Text)
unfolding accept_parts
cut_rest namespace none = none
cut_rest namespace (some (prefix, secret)) = accept_parts namespace prefix secret

cut_twice : Option (Text × Text) → Option (Text × Text)
unfolding cut_rest
cut_twice none = none
cut_twice (some (namespace, rest)) = cut_rest namespace (cut rest)

-- `split_api_key`
unfoldable pub split_api_key : Text → Option (Text × Text)
unfolding cut_twice strip
split_api_key candidate = cut_twice (cut (strip candidate))

abbrev pub key_of : Text → Text → Text
key_of prefix secret = api_key_namespace ++ (b'_' ∷ (prefix ++ (b'_' ∷ secret)))

abbrev pub expired : ℕ → Option ℕ → Bool
expired now none = false
expired now (some at) = leb at now

module _ (p : Platform) where
  -- `generate_api_key`, with the bytes of the prefix as a number and the secret as they are drawn
  unfoldable pub generate_api_key : ℕ → Text → GeneratedApiKey
  unfolding hex
  generate_api_key prefix secret =
      let shown = hex (api_key_prefix_bytes * 2) prefix in
      record { plaintext = key_of shown secret; prefix = shown; key_hash = p.sha256 secret }

  unfoldable pub verify_api_key : Text → Text → Bool
  verify_api_key secret stored_hash = text_eq (p.sha256 secret) stored_hash

module _ (p : Platform) (devices : List Device) where
  -- `none` is the `TokenError`; a device that is accepted is noted in `last_used_at`
  accept_device : ℕ → ℕ → Option Device → List DeviceApiKey → Option Device × List DeviceApiKey
  accept_device now key_id none keys = (none, keys)
  accept_device now key_id (some device) keys =
      if is_decommissioned device.status
      then (none, keys)
      else (some device, touch_last_used now key_id keys)

  accept_key :
      ℕ → Text → Option DeviceApiKey → List DeviceApiKey → Option Device × List DeviceApiKey
  unfolding accept_device verify_api_key
  accept_key now secret none keys = (none, keys)
  accept_key now secret (some key) keys =
      if not (verify_api_key p secret key.key_hash)
        || is_set key.revoked_at
        || expired now key.expires_at
      then (none, keys)
      else accept_device now key.id (device_by_id key.device_id devices) keys

  accept_split : ℕ → Option (Text × Text) → List DeviceApiKey → Option Device × List DeviceApiKey
  unfolding accept_key
  accept_split now none keys = (none, keys)
  accept_split now (some (prefix, secret)) keys =
      accept_key now secret (first (λ k. text_eq k.prefix prefix) keys) keys

  -- `authenticate_api_key`
  unfoldable pub authenticate_api_key :
      ℕ → Text → List DeviceApiKey → Option Device × List DeviceApiKey
  unfolding accept_split split_api_key
  authenticate_api_key now candidate keys = accept_split now (split_api_key candidate) keys
