-- ===== src/Errors.antt =====
-- backend/app/core/exceptions.py: what a service raises, with the status and the code of its answer.
-- `integrity_error` is the database's, on a column that may not be null, and `value_error` and
-- `arithmetic_error` Python's own; backend/app/core/error_handlers.py answers the first as a conflict
-- and the others as an internal error.
use diagnosis_system.Prelude.{ℕ, Text, codes, ◌≡◌, ◌⊎◌, inl, inr, refl}

pub data AppError : Type 0 where
  not_found conflict validation_error authentication_failed invalid_credentials : AppError
  inactive_user account_locked permission_denied token_error rate_limited : AppError
  elf_parse_error crash_parse_error integrity_error value_error arithmetic_error : AppError

-- what a call that may raise gives
pub data Outcome (A : Type 0) : Type 0 where
  ok : A → Outcome A
  raised : AppError → Outcome A

-- what raises ends the call
infixl 1 ◌>>=◌
abbrev pub ◌>>=◌ : {A : Type 0} {B : Type 0} → Outcome A → (A → Outcome B) → Outcome B
ok a >>= f = f a
raised e >>= f = raised e

abbrev pub status_code : AppError → ℕ
status_code not_found = 404
status_code conflict = 409
status_code validation_error = 422
status_code authentication_failed = 401
status_code invalid_credentials = 401
status_code inactive_user = 403
status_code account_locked = 423
status_code permission_denied = 403
status_code token_error = 401
status_code rate_limited = 429
status_code elf_parse_error = 422
status_code crash_parse_error = 422
status_code integrity_error = 409
status_code value_error = 500
status_code arithmetic_error = 500

abbrev pub error_code : AppError → Text
error_code not_found = codes "not_found"
error_code conflict = codes "conflict"
error_code validation_error = codes "validation_error"
error_code authentication_failed = codes "authentication_failed"
error_code invalid_credentials = codes "invalid_credentials"
error_code inactive_user = codes "inactive_user"
error_code account_locked = codes "account_locked"
error_code permission_denied = codes "permission_denied"
error_code token_error = codes "invalid_token"
error_code rate_limited = codes "rate_limited"
error_code elf_parse_error = codes "elf_parse_error"
error_code crash_parse_error = codes "crash_parse_error"
error_code integrity_error = codes "conflict"
error_code value_error = codes "internal_error"
error_code arithmetic_error = codes "internal_error"

pub Outcome-cases :
    {A : Type 0} (o : Outcome A) → ((a : A) × (o ≡ ok a)) ⊎ ((e : AppError) × (o ≡ raised e))
Outcome-cases (ok a) = inl (a, refl)
Outcome-cases (raised e) = inr (e, refl)

-- what a chain that succeeds has come from
pub ok->>= :
    {A : Type 0} {B : Type 0} (o : Outcome A) (f : A → Outcome B) {b : B}
    → (o >>= f) ≡ ok b
    → (a : A) × (o ≡ ok a) × (f a ≡ ok b)
ok->>= (ok a) f h = (a, refl, h)
ok->>= (raised e) f h = cc
