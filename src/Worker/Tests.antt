-- ===== src/Worker/Tests.antt =====
-- Runs of the tasks of backend/app/worker.py.
use diagnosis_system.Prelude.{◌≡◌, refl, none, some, [], ◌∷◌, codes, ℕ}
use diagnosis_system.Auth.Store.{RefreshToken}
use diagnosis_system.Fleet.{DeviceStatus, active, inactive, maintenance, Device}
use diagnosis_system.Worker.{purge_expired, mark_stale}

abbrev token : ℕ → RefreshToken
token expires_at = record {
  jti = codes "a";
  user_id = 7;
  expires_at = expires_at;
  revoked_at = none;
  user_agent = none;
  ip_address = none;
}

-- a token that expires at the cutoff stays
purged : purge_expired 10 (token 9 ∷ token 10 ∷ []) ≡ (token 10 ∷ [], 1)
unfolding purge_expired
purged = refl

abbrev device : DeviceStatus → Device
device status = record {
  id = 3;
  device_id = codes "STM-3";
  serial_number = codes "SN-3";
  firmware_version = codes "1.4.2";
  hardware_model = codes "F407";
  status = status;
  location = none;
  description = none;
  owner_id = none;
  last_online_at = some 5;
  tags = [];
}

-- a day and a microsecond after the last check-in
marked :
    mark_stale 86_400_000_006 24 (device active ∷ device maintenance ∷ [])
    ≡ (device inactive ∷ device maintenance ∷ [], 1)
unfolding mark_stale
marked = refl

kept : mark_stale 86_400_000_005 24 (device active ∷ []) ≡ (device active ∷ [], 0)
unfolding mark_stale
kept = refl
