-- ===== src/Auth/Security.antt =====
-- backend/app/core/security.py. bcrypt, the JWT library, SHA-256, the case mapping of Unicode and
-- the settings enter as `Platform`.
use diagnosis_system.Prelude.{
  ℕ, ◌+◌, ◌*◌, ◌/◌, ◌≤◌, ◌≡◌, ◌≢◌, Bool, true, false, ◌&&◌, ◌||◌, Option, none, some, List, [], ◌∷◌,
  ◌++◌, Text, codes, text_eq, text_eq_refl, refl, arith, strip, digit_value, hex, utf8_length, ltb,
  ◌==◌, if◌then◌else◌, take, drop, All, inl, inr, Bool-cases, sym,
}

pub data TokenType : Type 0 where
  access refresh : TokenType

-- `.value`
abbrev pub type_value : TokenType → Text
type_value access = codes "access"
type_value refresh = codes "refresh"

-- The claims of a token; one that somebody else made may lack `sub` or `type`.
pub record Claims : Type 0 where
  pub sub : Option Text
  pub type : Option Text
  pub jti : Text
  pub iat : ℕ
  pub nbf : ℕ
  pub exp : ℕ
  pub iss : Text
  pub roles : List Text

pub record Settings : Type 0 where
  pub project_name : Text
  pub access_token_expire_minutes : ℕ
  pub refresh_token_expire_minutes : ℕ
  pub password_reset_token_expire_minutes : ℕ
  pub max_failed_login_attempts : ℕ
  pub account_lockout_minutes : ℕ

-- `bcrypt.hashpw` takes the salt that `gensalt` draws; `checkpw` raises (`none`) on a hash that it
-- cannot read. `encode` and `decode` use the secret key and the algorithm of the settings;
-- `decode` checks signature, issuer and times at a number of seconds, and `none` is a `JWTError`.
pub record Platform : Type 0 where
  pub settings : Settings
  pub hashpw : Text → ℕ → Text
  pub checkpw : Text → Text → Option Bool
  pub encode : Claims → Text
  pub decode : Text → ℕ → Option Claims
  pub sha256 : Text → Text
  pub lower : Text → Text

-- what bcrypt, the JWT library and Unicode's case mapping document
pub record Documented (p : Platform) : Type 0 where
  pub checkpw-hashpw :
      (password : Text) (salt : ℕ) → p.checkpw password (p.hashpw password salt) ≡ some true
  pub decode-encode :
      (c : Claims) (seconds : ℕ)
      → c.iss ≡ p.settings.project_name
      → c.nbf ≤ seconds
      → seconds ≤ c.exp
      → p.decode (p.encode c) seconds ≡ some c
  pub lower-lower : (t : Text) → p.lower (p.lower t) ≡ p.lower t
  -- no space is made or mapped away
  pub strip-lower : (t : Text) → strip (p.lower t) ≡ p.lower (strip t)
  -- the letters from a to z are as they are
  pub lower_plain : (t : Text) → All (λ c. (97 ≤ c) × (c ≤ 122)) t → p.lower t ≡ t
  pub encode-ne_nil : (c : Claims) → p.encode c ≢ []
  -- the claims are in the token: they do not depend on when it is read
  pub decode_same :
      (token : Text) (seconds later : ℕ) (c c' : Claims)
      → p.decode token seconds ≡ some c
      → p.decode token later ≡ some c'
      → c ≡ c'

abbrev pub max_password_bytes : ℕ
max_password_bytes = 72

abbrev pub bcrypt_rounds : ℕ
bcrypt_rounds = 12

abbrev pub minutes : ℕ → ℕ
minutes m = m * 60_000_000

abbrev pub to_seconds : ℕ → ℕ
to_seconds t = t / 1_000_000

-- `str(uuid)`
unfoldable pub uuid_text : ℕ → Text
unfolding hex
uuid_text id =
    let digits = hex 32 id in
    take 8 digits
    ++ (b'-'
        ∷ (take 4 (drop 8 digits)
            ++ (b'-'
                ∷ (take 4 (drop 12 digits)
                    ++ (b'-' ∷ (take 4 (drop 16 digits) ++ (b'-' ∷ drop 20 digits)))))))

append-cons-ne : (s : Text) (c : ℕ) (t : Text) → s ++ (c ∷ t) ≢ []
append-cons-ne [] c t e = cc
append-cons-ne (d ∷ ds) c t e = cc

pub uuid_text-ne_nil : (id : ℕ) → uuid_text id ≢ []
unfolding uuid_text
uuid_text-ne_nil id e = append-cons-ne (take 8 (hex 32 id)) b'-' _ e

-- `\d{2}`, the cost, then `\$`
cost_below : Option ℕ → Option ℕ → ℕ → Bool
cost_below (some tens) (some ones) after =
    if after == b'$' then ltb (tens * 10 + ones) bcrypt_rounds else true
cost_below _ _ after = true

-- `_HASH_COST` at the start of the hash; a hash that does not match is replaced
unfoldable pub needs_rehash : Text → Bool
unfolding cost_below digit_value
needs_rehash (a ∷ b ∷ c ∷ d ∷ x ∷ y ∷ z ∷ rest) =
    if a == b'$' && b == b'2' && (c == b'a' || c == b'b' || c == b'y') && d == b'$'
    then cost_below (digit_value x) (digit_value y) z
    else true
needs_rehash _ = true

or_false : Option Bool → Bool
or_false none = false
or_false (some b) = b

type_is : Option Text → TokenType → Bool
type_is none expected = false
type_is (some t) expected = text_eq t (type_value expected)

has_sub : Option Text → Bool
has_sub none = false
has_sub (some []) = false
has_sub (some (c ∷ cs)) = true

module _ (p : Platform) where
  -- `none` is the `ValueError` on a password that is too long
  unfoldable pub hash_password : Text → ℕ → Option Text
  hash_password password salt =
      if ltb max_password_bytes (utf8_length password) then none else some (p.hashpw password salt)

  unfoldable pub verify_password : Text → Text → Bool
  unfolding or_false
  verify_password password hashed =
      if ltb max_password_bytes (utf8_length password)
      then false
      else or_false (p.checkpw password hashed)

  -- `_create_token`: the claims; `encode` signs them
  unfoldable pub token_claims : Text → TokenType → ℕ → Text → ℕ → List Text → Claims
  token_claims subject type delta jti now roles = record {
    sub = some subject;
    type = some (type_value type);
    jti = jti;
    iat = to_seconds now;
    nbf = to_seconds now;
    exp = to_seconds (now + delta);
    iss = p.settings.project_name;
    roles = roles;
  }

  -- `payload.get("type") != expected_type.value`, then `not payload.get("sub")`
  accept_claims : TokenType → Option Claims → Option Claims
  unfolding type_is has_sub
  accept_claims expected none = none
  accept_claims expected (some c) =
      if type_is c.type expected && has_sub c.sub then some c else none

  -- `decode_token`; `none` is the `TokenError`
  unfoldable pub decode_token : Text → TokenType → ℕ → Option Claims
  unfolding accept_claims
  decode_token token expected now = accept_claims expected (p.decode token (to_seconds now))

  unfoldable pub normalize_email : Text → Text
  unfolding strip
  normalize_email email = p.lower (strip email)

  pub decode_token-decode :
      (token : Text) (expected : TokenType) (now : ℕ) {c : Claims}
      → decode_token token expected now ≡ some c
      → p.decode token (to_seconds now) ≡ some c
  unfolding decode_token
  decode_token-decode token expected now h = ground arith

  -- A token that was made here is read back with its claims until it expires.
  pub decode_token-encode :
      (subject : Text) (type : TokenType) (delta : ℕ) (jti : Text) (now later : ℕ)
      (roles : List Text)
      → Documented p
      → subject ≢ []
      → now ≤ later
      → later ≤ now + delta
      → decode_token (p.encode (token_claims subject type delta jti now roles)) type later
        ≡ some (token_claims subject type delta jti now roles)
  unfolding decode_token token_claims
  decode_token-encode [] type delta jti now later roles doc ne from to = absurd (ne refl)
  decode_token-encode (c ∷ cs) type delta jti now later roles doc ne from to =
      rw
        (doc.decode-encode (token_claims (c ∷ cs) type delta jti now roles) (to_seconds later) refl
          (omega arith) (omega arith))
        (rw (text_eq_refl (type_value type)))

  -- A password verifies against its own hash, whatever the salt.
  pub verify_password-hash_password :
      (password : Text) (salt : ℕ) {hash : Text}
      → Documented p
      → hash_password password salt ≡ some hash
      → verify_password password hash ≡ true
  unfolding hash_password verify_password
  verify_password-hash_password password salt {hash} doc h =
      elim (Bool-cases (ltb max_password_bytes (utf8_length password))) [
        | inl e ↦ ground (arith, e)
        | inr e ↦
            let same : p.hashpw password salt ≡ hash = ground (arith, e) in
            rw (e, sym same, doc.checkpw-hashpw password salt)
      ]
