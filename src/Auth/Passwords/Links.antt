-- ===== src/Auth/Passwords/Links.antt =====
-- Reset links: the newest of a user is the only one that works, and it does work.
use diagnosis_system.Prelude.{
  ℕ, ◌+◌, ◌≤◌, ◌<◌, ◌≡◌, ◌≢◌, refl, sym, ◌∙◌, ap, subst, true, false, not, ◌&&◌, inl, inr, none,
  some, List, [], ◌∷◌, ◌++◌, arith, Text, text_eq, text_eq_refl, text_eq_iff, ◌==◌, ==_iff,
  Option-cases, utf8_length,
}
use diagnosis_system.Errors.{ok}
use diagnosis_system.Audit.{RequestContext}
use diagnosis_system.Tables.{first, is_set, update_where}
use diagnosis_system.Auth.Store.{
  User, PasswordResetToken, Db, user_by_id, active_by_hash, invalidate_for_user, is_usable,
}
use diagnosis_system.Tables.Laws.{
  first_holds, first-update_none, first-append_none, first_here, first-none_stronger,
  first-append_miss, first-update_where_out,
}
use diagnosis_system.Auth.Security.{Platform, hash_password, minutes, max_password_bytes}
use diagnosis_system.Auth.Login.{user_by_email}
use diagnosis_system.Auth.Passwords.{reset_row, request_password_reset, unlocked, reset_password}
use diagnosis_system.Auth.Passwords.Reset.{reset_password-IsReset}

module _ (p : Platform) where
  -- a request that gives a link
  record IsRequested (now : ℕ) (plaintext email : Text) (ctx : RequestContext) (db : Db)
      (link : Text) : Type 0 where
    user : User
    known : user_by_email p email db.users ≡ some user
    active : user.is_active ≡ true
    same : link ≡ plaintext
    users : (request_password_reset p now plaintext email ctx db).1.users ≡ db.users
    rows :
        (request_password_reset p now plaintext email ctx db).1.reset_tokens
        ≡ invalidate_for_user now user.id db.reset_tokens
          ++ (reset_row p now plaintext user.id ∷ [])

  request_password_reset-IsRequested :
      (now : ℕ) (plaintext email : Text) (ctx : RequestContext) (db : Db) (link : Text)
      → (request_password_reset p now plaintext email ctx db).0 ≡ some link
      → IsRequested now plaintext email ctx db link
  unfolding request_password_reset
  request_password_reset-IsRequested now plaintext email ctx db link h =
      elim (Option-cases (user_by_email p email db.users)) [
        | inl e ↦ ground (arith, e)
        | inr (u, e) ↦ record {
          user = u;
          known = e;
          active = ground (arith, e);
          same = ground (arith, e);
          users = ground (arith, e);
          rows = ground (arith, e);
        }
      ]

  -- another link finds no row of the user
  other_row :
      (now later id : ℕ) (old plaintext : Text) (rows : List PasswordResetToken)
      {row : PasswordResetToken}
      → p.sha256 old ≢ p.sha256 plaintext
      → active_by_hash later
          (p.sha256 old)
          (invalidate_for_user now id rows ++ (reset_row p now plaintext id ∷ []))
        ≡ some row
      → (row.user_id == id) ≡ false
  unfolding active_by_hash invalidate_for_user
  other_row now later id old plaintext rows {row} ne h =
      let usable =
        λ (t : PasswordResetToken). text_eq t.token_hash (p.sha256 old) && is_usable later t in
      let outstanding = λ (t : PasswordResetToken). t.user_id == id && not (is_set t.used_at) in
      let revoked = update_where outstanding (λ t. record t { used_at = some now }) rows in
      let miss : usable (reset_row p now plaintext id) ≡ false = ground (
        arith,
        text_eq_iff (p.sha256 plaintext) (p.sha256 old),
        λ (e : p.sha256 plaintext ≡ p.sha256 old). ne (sym e),
      ) in
      let found = sym (first-append_miss usable revoked (reset_row p now plaintext id) miss) ∙ h in
      let out : outstanding row ≡ false =
        first-update_where_out usable outstanding (λ t. record t { used_at = some now }) rows
          (λ t e. ground arith) found in
      let held : usable row ≡ true = first_holds usable revoked found in ground arith

  -- Once a link was asked for, no other link resets the password of that user.
  pub request_password_reset_newest :
      (now later : ℕ) (plaintext email link : Text) (ctx : RequestContext) (db : Db) (u : User)
      → (request_password_reset p now plaintext email ctx db).0 ≡ some link
      → user_by_email p email db.users ≡ some u
      → (old password : Text) (salt : ℕ) (ctx' : RequestContext) (v : User)
      → p.sha256 old ≢ p.sha256 link
      → (reset_password p later old password salt ctx'
          (request_password_reset p now plaintext email ctx db).1).0
        ≡ ok v
      → v.id ≢ u.id
  unfolding user_by_id
  request_password_reset_newest now later plaintext email link ctx db u h known old password salt
        ctx' v ne done same =
      let q = request_password_reset-IsRequested now plaintext email ctx db link h in
      let db' = (request_password_reset p now plaintext email ctx db).1 in
      let r = reset_password-IsReset p later old password salt ctx' db' v done in
      let user : q.user ≡ u = cc (sym q.known ∙ known) in
      let live = sym (ap (active_by_hash later (p.sha256 old)) q.rows) ∙ r.live in
      let other =
        other_row now later q.user.id old plaintext db.reset_tokens {row = r.row}
          (λ e. ne (e ∙ ap p.sha256 (sym q.same))) live in
      let owner =
        (==_iff r.owner.id r.row.user_id).0
          (first_holds (λ w. w.id == r.row.user_id) db'.users r.found) in
      let at : r.row.user_id ≡ q.user.id =
        sym owner ∙ ap (λ w. w.id) (sym r.result) ∙ same ∙ ap (λ w. w.id) (sym user) in
      cc (sym other ∙ (==_iff r.row.user_id q.user.id).1 at)

  -- the new row is found, if no earlier one has its hash
  new_row :
      (now later id : ℕ) (plaintext : Text) (rows : List PasswordResetToken)
      → first (λ t. text_eq t.token_hash (p.sha256 plaintext)) rows ≡ none
      → later < now + minutes p.settings.password_reset_token_expire_minutes
      → active_by_hash later
          (p.sha256 plaintext)
          (invalidate_for_user now id rows ++ (reset_row p now plaintext id ∷ []))
        ≡ some (reset_row p now plaintext id)
  unfolding active_by_hash invalidate_for_user
  new_row now later id plaintext rows fresh before =
      let usable = λ (t : PasswordResetToken).
        text_eq t.token_hash (p.sha256 plaintext) && is_usable later t in
      let outstanding = λ (t : PasswordResetToken). t.user_id == id && not (is_set t.used_at) in
      let spend = λ (t : PasswordResetToken). record t { used_at = some now } in
      let none_before =
        first-none_stronger (λ t. text_eq t.token_hash (p.sha256 plaintext)) usable rows
          (λ t e. ground arith) fresh in
      first-append_none usable (update_where outstanding spend rows)
        (reset_row p now plaintext id ∷ [])
        (first-update_none usable outstanding spend rows (λ t k e. ground arith) none_before)
      ∙ first_here usable (reset_row p now plaintext id) []
          (ground (arith, text_eq_refl (p.sha256 plaintext), before))

  resets :
      (now : ℕ) (token password : Text) (salt : ℕ) (ctx : RequestContext) (db : Db)
      (row : PasswordResetToken) (u : User)
      → active_by_hash now (p.sha256 token) db.reset_tokens ≡ some row
      → user_by_id row.user_id db.users ≡ some u
      → u.is_active ≡ true
      → utf8_length password ≤ max_password_bytes
      → (v : User) × ((reset_password p now token password salt ctx db).0 ≡ ok v) × (v.id ≡ u.id)
  unfolding reset_password hash_password
  resets now token password salt ctx db row u e f a short =
      (unlocked (p.hashpw password salt) u, ground (arith, e, f), refl)

  -- A link that was asked for resets the user's password until it expires, with a password of at
  -- most 72 bytes, if no earlier link had its hash.
  pub request_password_reset_works :
      (now later : ℕ) (plaintext email link password : Text) (salt : ℕ) (ctx ctx' : RequestContext)
      (db : Db) (u : User)
      → (request_password_reset p now plaintext email ctx db).0 ≡ some link
      → user_by_email p email db.users ≡ some u
      → user_by_id u.id db.users ≡ some u
      → first (λ t. text_eq t.token_hash (p.sha256 link)) db.reset_tokens ≡ none
      → later < now + minutes p.settings.password_reset_token_expire_minutes
      → utf8_length password ≤ max_password_bytes
      → (v : User) × ((reset_password p later link password salt ctx'
            (request_password_reset p now plaintext email ctx db).1).0
          ≡ ok v)
        × (v.id ≡ u.id)
  request_password_reset_works now later plaintext email link password salt ctx ctx' db u h known
        unique fresh before short =
      let q = request_password_reset-IsRequested now plaintext email ctx db link h in
      let user : q.user ≡ u = cc (sym q.known ∙ known) in
      let new =
        new_row now later q.user.id plaintext db.reset_tokens
          (subst (λ l. first (λ t. text_eq t.token_hash (p.sha256 l)) db.reset_tokens ≡ none) q.same
            fresh)
          before in
      resets later link password salt ctx' (request_password_reset p now plaintext email ctx db).1
        (reset_row p now plaintext q.user.id) u
        (ap
            (λ l.
              active_by_hash later (p.sha256 l)
                (request_password_reset p now plaintext email ctx db).1.reset_tokens)
            q.same
          ∙ ap (active_by_hash later (p.sha256 plaintext)) q.rows
          ∙ new)
        (ap (user_by_id q.user.id) q.users ∙ ap (λ w. user_by_id w.id db.users) user ∙ unique)
        (ap (λ w. w.is_active) (sym user) ∙ q.active) short
