-- ===== src/Auth/Login/Issued.antt =====
-- The access token that `authenticate` gives.
use diagnosis_system.Prelude.{ℕ, ◌≡◌, sym, ap, ◌∙◌, Option, none, some, arith, Text}
use diagnosis_system.Errors.{ok}
use diagnosis_system.Audit.{RequestContext}
use diagnosis_system.Auth.Store.{User, Db}
use diagnosis_system.Auth.Security.{Platform, access, minutes, token_claims, uuid_text}
use diagnosis_system.Auth.Login.{
  Draws, TokenPair, issue_tokens, authenticate, authenticate_user, log_in, kept_hash,
}
use diagnosis_system.Auth.Login.Granted.{authenticate-IsGranted, authenticate_found}

module _ (p : Platform) (now : ℕ) (d : Draws) (email password : Text) (ctx : RequestContext)
    (db : Db) where
  -- the access token of a user
  abbrev pub access_token_of : User → Text
  access_token_of u = p.encode (
      token_claims p (uuid_text u.id) access (minutes p.settings.access_token_expire_minutes)
        d.access_jti now u.roles)

  log_in_token :
      (u v : User) (t : TokenPair) (o : Option Text)
      → (log_in p now d u ctx db o).0 ≡ ok (v, t)
      → t.access_token ≡ access_token_of v
  unfolding log_in issue_tokens
  log_in_token u v t none h = cc
  log_in_token u v t (some hash) h = ground arith

  user_token :
      (u v : User) (t : TokenPair)
      → (authenticate_user p now d password ctx db u).0 ≡ ok (v, t)
      → t.access_token ≡ access_token_of v
  unfolding authenticate_user
  user_token u v t h = ground (arith, log_in_token u v t (kept_hash p password d u))

  -- A login gives the access token of its user.
  pub issued_token :
      (v : User) (t : TokenPair)
      → (authenticate p now d email password ctx db).0 ≡ ok (v, t)
      → t.access_token ≡ access_token_of v
  issued_token v t h =
      let g = authenticate-IsGranted p now d email password ctx db v t h in
      user_token g.user v t
        (sym (ap (λ r. r.0) (authenticate_found p now d email password ctx db g.user g.found)) ∙ h)
