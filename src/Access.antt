-- ===== src/Access.antt =====
-- backend/app/api/deps.py: who makes a request, and what a route lets through.
pub mod Uuid
pub mod Current
pub mod Issued
mod Tests
use diagnosis_system.Prelude.{
  ℕ, Bool, true, false, not, ◌||◌, Option, none, some, List, [], ◌∷◌, Text, codes, strip, any, ◌==◌,
  if◌then◌else◌,
}
use diagnosis_system.Errors.{
  Outcome, ok, raised, inactive_user, permission_denied, token_error, ◌>>=◌,
}
use diagnosis_system.Audit.{RequestContext}
use diagnosis_system.Auth.Store.{User, user_by_id}
use diagnosis_system.Auth.Security.{Platform, Claims, access, decode_token}
use diagnosis_system.Fleet.{Device, DeviceApiKey}
use diagnosis_system.Auth.ApiKeys.{authenticate_api_key}
use diagnosis_system.Users.{has_role, is_admin}
use diagnosis_system.Access.Uuid.{uuid_of}

-- the headers that are read, and the address of the peer
pub record Request : Type 0 where
  pub forwarded_for : Option Text
  pub user_agent : Option Text
  pub client_host : Option Text

-- `forwarded.split(",")[0]`
before_comma : Text → Text
before_comma [] = []
before_comma (c ∷ cs) = elim (c == b',') [ true ↦ [] | false ↦ c ∷ before_comma cs ]

client_ip : Option Text → Option Text → Option Text
unfolding before_comma strip
client_ip none host = host
client_ip (some []) host = host
client_ip (some (c ∷ cs)) host = some (strip (before_comma (c ∷ cs)))

unfoldable pub get_request_context : Request → RequestContext
unfolding client_ip
get_request_context r = record {
  ip_address = client_ip r.forwarded_for r.client_host;
  user_agent = r.user_agent;
}

-- the user of a subject, if it is there and active
active_user : Option User → Outcome User
active_user none = raised token_error
active_user (some u) = if u.is_active then ok u else raised inactive_user

user_of_id : Option ℕ → List User → Outcome User
unfolding active_user
user_of_id none users = raised token_error
user_of_id (some id) users = active_user (user_by_id id users)

subject_id : Option Text → Option ℕ
subject_id none = none
subject_id (some t) = uuid_of t

user_of_claims : Option Claims → List User → Outcome User
unfolding user_of_id subject_id
user_of_claims none users = raised token_error
user_of_claims (some c) users = user_of_id (subject_id c.sub) users

-- the check of `require_roles`
unfoldable pub allows : List Text → User → Bool
allows roles u = is_admin u || any (λ r. has_role r u) roles

unfoldable pub require_roles : List Text → User → Outcome User
unfolding allows
require_roles roles u = if allows roles u then ok u else raised permission_denied

abbrev pub admin_roles : List Text
admin_roles = codes "admin" ∷ []

abbrev pub engineer_roles : List Text
engineer_roles = codes "engineer" ∷ []

abbrev pub viewer_roles : List Text
viewer_roles = codes "viewer" ∷ codes "engineer" ∷ []

-- `IngestPrincipal`
pub data Principal : Type 0 where
  of_device : Device → Principal
  of_user : User → Principal

accepted_device : Option Device × List DeviceApiKey → Outcome Device × List DeviceApiKey
accepted_device (none, keys) = (raised token_error, keys)
accepted_device (some d, keys) = (ok d, keys)

as_principal : Outcome Device × List DeviceApiKey → Outcome Principal × List DeviceApiKey
as_principal (ok d, keys) = (ok (of_device d), keys)
as_principal (raised e, keys) = (raised e, keys)

module _ (p : Platform) where
  -- `get_current_user`, with the token of the bearer header
  unfoldable pub get_current_user : ℕ → Option Text → List User → Outcome User
  unfolding user_of_claims
  get_current_user now none users = raised token_error
  get_current_user now (some []) users = raised token_error
  get_current_user now (some (c ∷ cs)) users =
      user_of_claims (decode_token p (c ∷ cs) access now) users

  -- a route that asks for roles
  unfoldable pub require : List Text → ℕ → Option Text → List User → Outcome User
  unfolding require_roles
  require roles now token users = get_current_user now token users >>= λ u. require_roles roles u

  unfoldable pub get_current_device :
      List Device → ℕ → Option Text → List DeviceApiKey → Outcome Device × List DeviceApiKey
  unfolding accepted_device
  get_current_device devices now none keys = (raised token_error, keys)
  get_current_device devices now (some []) keys = (raised token_error, keys)
  get_current_device devices now (some (c ∷ cs)) keys =
      accepted_device (authenticate_api_key p devices now (c ∷ cs) keys)

  -- an engineer's token, where there is no key
  user_principal : ℕ → Option Text → List User → Outcome Principal
  unfolding require
  user_principal now token users = require engineer_roles now token users >>= λ u. ok (of_user u)

  unfoldable pub get_ingest_principal :
      List Device
      → ℕ
      → Option Text
      → Option Text
      → List User
      → List DeviceApiKey
      → Outcome Principal × List DeviceApiKey
  unfolding as_principal get_current_device user_principal
  get_ingest_principal devices now (some (c ∷ cs)) token users keys =
      as_principal (get_current_device devices now (some (c ∷ cs)) keys)
  get_ingest_principal devices now none token users keys = (user_principal now token users, keys)
  get_ingest_principal devices now (some []) token users keys =
      (user_principal now token users, keys)
