-- ===== src/Fleet.antt =====
-- The tables of devices, their keys and their crash reports: backend/app/models/device.py and crash.py,
-- with the queries of backend/app/repositories/device.py and crash.py. A report is stored with what
-- the parser made of it; the columns that symbolication and diagnosis fill in later are left out, but
-- for its group.
use diagnosis_system.Prelude.{
  ℕ, ◌+◌, Bool, true, false, not, ◌&&◌, ◌||◌, Option, none, some, List, [], ◌∷◌, Text, text_eq,
  strip, leb, ◌==◌, any,
}
use diagnosis_system.Tables.{is_set, first, update_where, count_where}
use diagnosis_system.Audit.{AuditLog, append_entry}
use diagnosis_system.Parser.Value.{Members, Warning}
use diagnosis_system.Parser.Fault.{FaultType, CrashSeverity, fault_value}
use diagnosis_system.Parser.Registers.{Registers}
use diagnosis_system.Parser.StackWords.{StackDump}

pub data DeviceStatus : Type 0 where
  active inactive maintenance decommissioned : DeviceStatus

abbrev pub is_decommissioned : DeviceStatus → Bool
is_decommissioned active = false
is_decommissioned inactive = false
is_decommissioned maintenance = false
is_decommissioned decommissioned = true

pub record Device : Type 0 where
  pub id : ℕ
  pub device_id : Text
  pub serial_number : Text
  pub firmware_version : Text
  pub hardware_model : Text
  pub status : DeviceStatus
  pub location : Option Text
  pub description : Option Text
  pub owner_id : Option ℕ
  pub last_online_at : Option ℕ
  pub tags : List Text

pub record DeviceApiKey : Type 0 where
  pub id : ℕ
  pub device_id : ℕ
  pub prefix : Text
  pub key_hash : Text
  pub name : Text
  pub created_by_id : Option ℕ
  pub expires_at : Option ℕ
  pub last_used_at : Option ℕ
  pub revoked_at : Option ℕ

pub data CrashStatus : Type 0 where
  new triaged investigating resolved ignored duplicate : CrashStatus

pub record CrashReport : Type 0 where
  pub id : ℕ
  pub device_id : ℕ
  pub firmware_version : Text
  pub build_version : Option Text
  pub occurred_at : ℕ
  pub received_at : ℕ
  pub fault_type : FaultType
  pub exception_type : Option Text
  pub task_name : Option Text
  pub program_counter : Option ℕ
  pub link_register : Option ℕ
  pub stack_pointer : Option ℕ
  pub register_dump : Option Registers
  pub stack_dump : Option StackDump
  pub raw_payload : Members
  pub parse_warnings : List Warning
  pub severity : CrashSeverity
  pub status : CrashStatus
  pub notes : Option Text
  pub group_id : Option ℕ

-- tags are the names of their rows
pub record Fleet : Type 0 where
  pub devices : List Device
  pub tags : List Text
  pub api_keys : List DeviceApiKey
  pub crashes : List CrashReport
  pub audit_logs : List AuditLog

-- `AuditService.record`
unfoldable pub log : AuditLog → Fleet → Fleet
unfolding append_entry
log entry fleet = record fleet { audit_logs = append_entry entry fleet.audit_logs }

-- `get_full` of a device
unfoldable pub device_by_id : ℕ → List Device → Option Device
device_by_id id = first (λ d. d.id == id)

abbrev pub answers_to : Text → Device → Bool
answers_to name d = text_eq d.device_id name || text_eq d.serial_number name

-- `get_by_identifier`
unfoldable pub device_by_identifier : Text → List Device → Option Device
unfolding strip
device_by_identifier identifier = first (answers_to (strip identifier))

abbrev is_given : Text → Bool
is_given [] = false
is_given (c ∷ cs) = true

abbrev pub has_identifier : Text → Text → Device → Bool
has_identifier device_id serial_number d =
    (is_given device_id && text_eq d.device_id (strip device_id))
    || (is_given serial_number && text_eq d.serial_number (strip serial_number))

-- `identifier_taken`; with no identifier there is no condition that holds
unfoldable pub identifier_taken : Text → Text → List Device → Bool
unfolding strip
identifier_taken device_id serial_number = any (has_identifier device_id serial_number)

-- the changed attributes of a loaded device
unfoldable pub save_device : Device → List Device → List Device
save_device v = update_where (λ d. d.id == v.id) (λ _. v)

-- `touch_last_online`
unfoldable pub touch_last_online : ℕ → ℕ → List Device → List Device
touch_last_online when id =
    update_where (λ d. d.id == id) (λ d. record d { last_online_at = some when })

-- `get` of a key
unfoldable pub key_by_id : ℕ → List DeviceApiKey → Option DeviceApiKey
key_by_id id = first (λ k. k.id == id)

-- `revoke` of a key, which leaves a key that is revoked as it is
unfoldable pub revoke_key : ℕ → ℕ → List DeviceApiKey → List DeviceApiKey
revoke_key now id =
    update_where (λ k. k.id == id && not (is_set k.revoked_at))
      (λ k. record k { revoked_at = some now })

-- `touch_last_used`
unfoldable pub touch_last_used : ℕ → ℕ → List DeviceApiKey → List DeviceApiKey
touch_last_used now id = update_where (λ k. k.id == id) (λ k. record k { last_used_at = some now })

-- `get_full` of a report
unfoldable pub crash_by_id : ℕ → List CrashReport → Option CrashReport
crash_by_id id = first (λ r. r.id == id)

abbrev pub is_open : CrashStatus → Bool
is_open new = true
is_open triaged = true
is_open investigating = true
is_open resolved = false
is_open ignored = false
is_open duplicate = false

pub record Counts : Type 0 where
  pub total : ℕ
  pub opened : ℕ
  pub last_24h : ℕ

-- `count_for_device`, a day being 86,400 seconds
unfoldable pub count_for_device : ℕ → ℕ → List CrashReport → Counts
count_for_device now id crashes = record {
  total = count_where (λ r. r.device_id == id) crashes;
  opened = count_where (λ r. r.device_id == id && is_open r.status) crashes;
  last_24h =
      count_where (λ r. r.device_id == id && leb now (r.occurred_at + 86_400_000_000)) crashes;
}

abbrev pub same_counter : Option ℕ → Option ℕ → Bool
same_counter none none = true
same_counter (some a) (some b) = a == b
same_counter _ _ = false

-- the condition of `find_recent_duplicate`, with its window of 60 seconds
abbrev pub repeats : ℕ → FaultType → Option ℕ → ℕ → CrashReport → Bool
repeats device_id fault_type program_counter occurred_at r =
    r.device_id == device_id
    && text_eq (fault_value r.fault_type) (fault_value fault_type)
    && leb occurred_at (r.occurred_at + 60_000_000)
    && leb r.occurred_at (occurred_at + 60_000_000)
    && same_counter r.program_counter program_counter

-- `find_recent_duplicate`
unfoldable pub find_recent_duplicate :
    ℕ → FaultType → Option ℕ → ℕ → List CrashReport → Option CrashReport
find_recent_duplicate device_id fault_type program_counter occurred_at =
    first (repeats device_id fault_type program_counter occurred_at)
