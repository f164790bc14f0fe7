-- ===== src/Auth/Tests.antt =====
-- A platform that keeps what bcrypt and the JWT library document, and a small database.
mod Logins
mod Resets
use diagnosis_system.Prelude.{
  ℕ, zero, suc, ◌+◌, ◌≡◌, ◌≢◌, inl, inr, Option-cases, refl, sym, ap, ◌∙◌, Bool, true, false,
  Option, none, some, List, [], ◌∷◌, ◌++◌, arith, Text, codes, text_eq, text_eq_refl, length, take,
  drop,
}
use diagnosis_system.Audit.{RequestContext}
use diagnosis_system.Auth.Security.{Claims, Settings, Platform, Documented}
use diagnosis_system.Auth.Store.{User, RefreshToken, Db}
use diagnosis_system.Auth.Login.{Draws}

-- a text with its length before it
put : Text → Text → Text
put t rest = length t ∷ (t ++ rest)

get : Text → Text × Text
get [] = ([], [])
get (n ∷ rest) = (take n rest, drop n rest)

take-append : (s t : Text) → take (length s) (s ++ t) ≡ s
take-append [] t = refl
take-append (c ∷ cs) t = ap (◌∷◌ c) (take-append cs t)

drop-append : (s t : Text) → drop (length s) (s ++ t) ≡ t
drop-append [] t = refl
drop-append (c ∷ cs) t = drop-append cs t

get-put : (t rest : Text) → get (put t rest) ≡ (t, rest)
unfolding get put
get-put t rest = rw (take-append t rest, drop-append t rest)

put_optional : Option Text → Text → Text
put_optional none rest = 0 ∷ rest
put_optional (some t) rest = 1 ∷ put t rest

get_optional : Text → Option Text × Text
get_optional [] = (none, [])
get_optional (zero ∷ rest) = (none, rest)
get_optional (suc n ∷ rest) = let (t, rest') = get rest in (some t, rest')

get_optional-put : (o : Option Text) (rest : Text) → get_optional (put_optional o rest) ≡ (o, rest)
unfolding get_optional put_optional
get_optional-put none rest = refl
get_optional-put (some t) rest = rw (get-put t rest)

abbrev put_all : List Text → Text
put_all [] = []
put_all (t ∷ ts) = put t (put_all ts)

abbrev get_count : ℕ → Text → List Text
get_count zero rest = []
get_count (suc n) rest = let (t, rest') = get rest in t ∷ get_count n rest'

abbrev count : List Text → ℕ
count [] = 0
count (t ∷ ts) = suc (count ts)

get_count-put : (ts : List Text) → get_count (count ts) (put_all ts) ≡ ts
get_count-put [] = refl
get_count-put (t ∷ ts) = rw (get-put t (put_all ts)) (ap (◌∷◌ t) (get_count-put ts))

pub encode_claims : Claims → Text
encode_claims c = put_optional c.sub (
    put_optional c.type
      (put c.jti (put c.iss (c.iat ∷ c.nbf ∷ c.exp ∷ count c.roles ∷ put_all c.roles))))

abbrev read_times : Option Text → Option Text → Text → Text → Text → Option Claims
read_times sub type jti iss (iat ∷ nbf ∷ exp ∷ n ∷ rest) = some (record {
  sub = sub;
  type = type;
  jti = jti;
  iat = iat;
  nbf = nbf;
  exp = exp;
  iss = iss;
  roles = get_count n rest;
})
read_times sub type jti iss _ = none

pub decode_claims : Text → Option Claims
decode_claims token =
    let (sub, a) = get_optional token in
    let (type, b) = get_optional a in
    let (jti, c) = get b in let (iss, d) = get c in read_times sub type jti iss d

encode_claims-ne_nil : (c : Claims) → encode_claims c ≢ []
unfolding encode_claims put_optional
encode_claims-ne_nil c e = elim (Option-cases c.sub) [
  | inl f ↦ ground (arith, f)
  | inr (t, f) ↦ ground (arith, f)
]

decode_claims-encode : (c : Claims) → decode_claims (encode_claims c) ≡ some c
unfolding decode_claims encode_claims
decode_claims-encode c =
    let times = c.iat ∷ c.nbf ∷ c.exp ∷ count c.roles ∷ put_all c.roles in
    let from_jti = put c.jti (put c.iss times) in
    rw
      (
        get_optional-put c.sub (put_optional c.type from_jti),
        get_optional-put c.type from_jti,
        get-put c.jti (put c.iss times),
        get-put c.iss times,
        get_count-put c.roles,
      )
      refl

abbrev pub settings : Settings
settings = record {
  project_name = codes "BlackBox";
  access_token_expire_minutes = 30;
  refresh_token_expire_minutes = 10080;
  password_reset_token_expire_minutes = 60;
  max_failed_login_attempts = 2;
  account_lockout_minutes = 15;
}

-- a hash that shows the password
abbrev pub shown_hash : Text → Text
shown_hash password = codes "$2b$12$" ++ password

abbrev pub platform : Platform
platform = record {
  settings = settings;
  hashpw = λ password salt. shown_hash password;
  checkpw = λ password hashed. some (text_eq (shown_hash password) hashed);
  encode = encode_claims;
  decode = λ token seconds. decode_claims token;
  sha256 = λ t. t;
  lower = λ t. t;
}

pub platform-Documented : Documented platform
platform-Documented = record {
  checkpw-hashpw = λ password salt. ap some (text_eq_refl (shown_hash password));
  decode-encode = λ c seconds issuer from to. decode_claims-encode c;
  lower-lower = λ t. refl;
  strip-lower = λ t. refl;
  lower_plain = λ t h. refl;
  encode-ne_nil = encode_claims-ne_nil;
  decode_same = λ token seconds later c c' h k. cc (sym h ∙ k);
}

abbrev pub ctx : RequestContext
ctx = record { ip_address = none; user_agent = some (codes "curl") }

abbrev pub draws : ℕ → Draws
draws n = record {
  user_id = n;
  access_jti = codes "a" ++ (n ∷ []);
  refresh_jti = codes "r" ++ (n ∷ []);
  salt = n;
}

abbrev pub alice : User
alice = record {
  id = 7;
  email = codes "alice@example.com";
  full_name = none;
  hashed_password = shown_hash (codes "secret");
  is_active = true;
  is_verified = true;
  last_login_at = none;
  failed_login_attempts = 0;
  locked_until = none;
  roles = codes "viewer" ∷ [];
}

abbrev pub session : Text → RefreshToken
session jti = record {
  jti = jti;
  user_id = 7;
  expires_at = 604_800_000_000;
  revoked_at = none;
  user_agent = none;
  ip_address = none;
}

abbrev pub database : Db
database = record {
  users = alice ∷ [];
  role_names = codes "viewer" ∷ [];
  refresh_tokens = session (codes "first") ∷ [];
  reset_tokens = [];
  audit_logs = [];
  outbox = [];
}
