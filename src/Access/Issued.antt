-- ===== src/Access/Issued.antt =====
-- The access token of a login: it works until it expires, for as long as the account is active.
use diagnosis_system.Prelude.{
  ℕ, ◌+◌, ◌^◌, ◌≤◌, ◌<◌, ◌≡◌, refl, ap, ◌∙◌, true, false, some, List, Text,
}
use diagnosis_system.Errors.{ok, raised, inactive_user}
use diagnosis_system.Audit.{RequestContext}
use diagnosis_system.Auth.Store.{User, Db, user_by_id}
use diagnosis_system.Auth.Security.{
  Platform, Documented, access, minutes, token_claims, uuid_text, uuid_text-ne_nil,
  decode_token-encode,
}
use diagnosis_system.Auth.Login.{Draws, TokenPair, authenticate}
use diagnosis_system.Auth.Login.Issued.{issued_token}
use diagnosis_system.Access.Uuid.RoundTrip.{uuid_of-uuid_text}
use diagnosis_system.Access.{get_current_user}
use diagnosis_system.Access.Current.{current}

module _ (p : Platform) (now : ℕ) (d : Draws) (email password : Text) (ctx : RequestContext)
    (db : Db) where
  -- The access token that a login gives stands for its user until it expires: it is accepted while
  -- the account is active, and refused as inactive once it is not, whatever else was changed of it.
  pub get_current_user-authenticate :
      (v : User) (t : TokenPair)
      → Documented p
      → v.id < 2 ^ 128
      → (authenticate p now d email password ctx db).0 ≡ ok (v, t)
      → (later : ℕ) (users : List User) (u : User) → now ≤ later
      → later ≤ now + minutes p.settings.access_token_expire_minutes
      → user_by_id v.id users ≡ some u
      → get_current_user p later (some t.access_token) users
        ≡ (elim u.is_active [ true ↦ ok u | false ↦ raised inactive_user ])
  unfolding token_claims
  get_current_user-authenticate v t doc small h later users u from to found =
      let claims =
        token_claims p (uuid_text v.id) access (minutes p.settings.access_token_expire_minutes)
          d.access_jti now v.roles in
      ap (λ s. get_current_user p later (some s) users)
        (issued_token p now d email password ctx db v t h)
      ∙ current p later (p.encode claims) users u (doc.encode-ne_nil claims)
          (decode_token-encode p (uuid_text v.id) access
            (minutes p.settings.access_token_expire_minutes) d.access_jti now later v.roles doc
            (uuid_text-ne_nil v.id) from to)
          refl (uuid_of-uuid_text v.id small) found
