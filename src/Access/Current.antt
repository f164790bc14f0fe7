-- ===== src/Access/Current.antt =====
-- Whom a bearer token makes the current user, and what the roles of a route let through.
use diagnosis_system.Prelude.{
  ℕ, ◌≡◌, ◌≢◌, ◌⊎◌, refl, sym, ap, ◌∙◌, true, false, inl, inr, Option, none, some, List, [], ◌∷◌,
  arith, Text, Option-cases, Bool-cases, any,
}
use diagnosis_system.Errors.{ok, raised, inactive_user, ok->>=}
use diagnosis_system.Auth.Store.{User, user_by_id}
use diagnosis_system.Auth.Security.{Platform, Claims, access, decode_token}
use diagnosis_system.Fleet.{Device, DeviceApiKey}
use diagnosis_system.Auth.ApiKeys.{authenticate_api_key}
use diagnosis_system.Users.{has_role, is_admin}
use diagnosis_system.Access.Uuid.{uuid_of}
use diagnosis_system.Access.{
  allows, require_roles, get_current_user, require, engineer_roles, Principal, of_device, of_user,
  get_ingest_principal,
}

module _ (p : Platform) where
  -- The token is a live access token, its subject the id of the user, who is there and active.
  pub record IsCurrent (now : ℕ) (token : Text) (users : List User) (u : User) : Type 0 where
    pub claims : Claims
    pub decodes : decode_token p token access now ≡ some claims
    pub subject : Text
    pub sub : claims.sub ≡ some subject
    pub id : ℕ
    pub reads : uuid_of subject ≡ some id
    pub found : user_by_id id users ≡ some u
    pub active : u.is_active ≡ true

  IsCurrent-of_claims :
      (now : ℕ) (c : ℕ) (cs : Text) (users : List User) (u : User) (claims : Claims)
      → decode_token p (c ∷ cs) access now ≡ some claims
      → get_current_user p now (some (c ∷ cs)) users ≡ ok u
      → IsCurrent now (c ∷ cs) users u
  unfolding get_current_user
  IsCurrent-of_claims now c cs users u claims e h = elim (Option-cases claims.sub) [
    | inl f ↦ ground (arith, e, f)
    | inr (t, f) ↦ elim (Option-cases (uuid_of t)) [
      | inl g ↦ ground (arith, e, f, g)
      | inr (id, g) ↦ elim (Option-cases (user_by_id id users)) [
        | inl k ↦ ground (arith, e, f, g, k)
        | inr (v, k) ↦ elim (Bool-cases v.is_active) [
          | inl a ↦
              let same : v ≡ u = ground (arith, e, f, g, k, a) in
              record {
                claims = claims;
                decodes = e;
                subject = t;
                sub = f;
                id = id;
                reads = g;
                found = k ∙ ap some same;
                active = sym (ap (λ (w : User). w.is_active) same) ∙ a;
              }
          | inr a ↦ ground (arith, e, f, g, k, a)
        ]
      ]
    ]
  ]

  -- A bearer token is accepted only as a live access token whose subject is the id of a user who is
  -- there and active.
  pub get_current_user-IsCurrent :
      (now : ℕ) (token : Text) (users : List User) (u : User)
      → get_current_user p now (some token) users ≡ ok u
      → IsCurrent now token users u
  unfolding get_current_user
  get_current_user-IsCurrent now [] users u h = cc
  get_current_user-IsCurrent now (c ∷ cs) users u h =
      elim (Option-cases (decode_token p (c ∷ cs) access now)) [
        | inl e ↦ ground (arith, e)
        | inr (claims, e) ↦ IsCurrent-of_claims now c cs users u claims e h
      ]

  -- What such a token leads to.
  pub current :
      (now : ℕ) (token : Text) (users : List User) (u : User) {claims : Claims} {subject : Text}
      {id : ℕ}
      → token ≢ []
      → decode_token p token access now ≡ some claims
      → claims.sub ≡ some subject
      → uuid_of subject ≡ some id
      → user_by_id id users ≡ some u
      → get_current_user p now (some token) users
        ≡ (elim u.is_active [ true ↦ ok u | false ↦ raised inactive_user ])
  unfolding get_current_user
  current now [] users u ne e f g k = absurd (ne refl)
  current now (c ∷ cs) users u ne e f g k = ground (arith, e, f, g, k)

  -- A route that asks for roles lets through only a current user who has one of them or is an
  -- administrator.
  pub require-Allows :
      (roles : List Text) (now : ℕ) (token : Text) (users : List User) (u : User)
      → require p roles now (some token) users ≡ ok u
      → IsCurrent now token users u × ((is_admin u ≡ true) ⊎ (any (λ r. has_role r u) roles ≡ true))
  unfolding require allows require_roles
  require-Allows roles now token users u h =
      let (v, e, k) = ok->>= (get_current_user p now (some token) users) (require_roles roles) h in
      elim (Bool-cases (is_admin v)) [
        | inl a ↦
            let same : v ≡ u = ground (arith, a) in
            (get_current_user-IsCurrent now token users u (e ∙ ap ok same), inl (rw (sym same) a))
        | inr a ↦ elim (Bool-cases (any (λ r. has_role r v) roles)) [
          | inl b ↦
              let same : v ≡ u = ground (arith, a, b) in
              (get_current_user-IsCurrent now token users u (e ∙ ap ok same), inr (rw (sym same) b))
          | inr b ↦ ground (arith, a, b)
        ]
      ]

  -- Where a key is presented, only the device of an accepted key may submit a report, and the
  -- bearer token is not looked at.
  pub get_ingest_principal_key :
      (devices : List Device) (now : ℕ) (c : ℕ) (cs : Text) (token : Option Text)
      (users : List User) (keys : List DeviceApiKey) (q : Principal)
      → (get_ingest_principal p devices now (some (c ∷ cs)) token users keys).0 ≡ ok q
      → (d : Device) × (q ≡ of_device d)
        × ((authenticate_api_key p devices now (c ∷ cs) keys).0 ≡ some d)
  unfolding get_ingest_principal
  get_ingest_principal_key devices now c cs token users keys q h =
      elim (Option-cases (authenticate_api_key p devices now (c ∷ cs) keys).0) [
        | inl e ↦ ground (arith, e)
        | inr (d, e) ↦ (d, ground (arith, e), e)
      ]

  -- Without a key it takes the token of a current user who is an engineer or an administrator.
  pub get_ingest_principal_user :
      (devices : List Device) (now : ℕ) (token : Option Text) (users : List User)
      (keys : List DeviceApiKey) (q : Principal)
      → (get_ingest_principal p devices now none token users keys).0 ≡ ok q
      → (u : User) × (q ≡ of_user u) × (require p engineer_roles now token users ≡ ok u)
  unfolding get_ingest_principal
  get_ingest_principal_user devices now token users keys q h =
      let (u, e, k) = ok->>= (require p engineer_roles now token users) (λ u. ok (of_user u)) h in
      (u, ground arith, e)
