-- ===== src/Auth/Sessions/Renewal.antt =====
-- The pair of tokens that a refresh gives: its refresh token works in its turn.
use diagnosis_system.Prelude.{
  ℕ, ◌+◌, ◌≤◌, ◌<◌, ◌≡◌, refl, sym, ap, ◌∙◌, true, not, ◌&&◌, none, some, List, [], arith, Text,
  text_eq, text_eq_refl, ◌==◌, ==_iff,
}
use diagnosis_system.Errors.{ok}
use diagnosis_system.Audit.{RequestContext}
use diagnosis_system.Tables.{is_set}
use diagnosis_system.Tables.Laws.{first_holds, first-append_none, first-update_none}
use diagnosis_system.Auth.Store.{User, RefreshToken, Db, is_live, active_by_jti, revoke, user_by_id}
use diagnosis_system.Auth.Security.{
  Platform, Documented, Claims, refresh, decode_token, decode_token-encode, uuid_text,
  uuid_text-ne_nil, token_claims, minutes,
}
use diagnosis_system.Auth.Login.{Draws, TokenPair, issue_tokens, new_session}
use diagnosis_system.Auth.Sessions.{refresh_session, revoke_in}
use diagnosis_system.Auth.Sessions.Rotation.{IsSpent, refresh_session-IsRotated}

module _ (p : Platform) where
  first_issued :
      (now at : ℕ) (d : Draws) (u : User) (ctx : RequestContext) (db : Db)
      → active_by_jti at d.refresh_jti db.refresh_tokens ≡ none
      → at < now + minutes p.settings.refresh_token_expire_minutes
      → active_by_jti at d.refresh_jti (issue_tokens p now d u ctx db).1.refresh_tokens
        ≡ some (new_session p now d u.id ctx)
  unfolding issue_tokens active_by_jti
  first_issued now at d u ctx db h lt =
      first-append_none (λ t. text_eq t.jti d.refresh_jti && is_live at t) db.refresh_tokens _ h
      ∙ ground (arith, text_eq_refl d.refresh_jti)

  revoke-none :
      (now at : ℕ) (jti jti' : Text) (ts : List RefreshToken)
      → active_by_jti at jti ts ≡ none
      → active_by_jti at jti (revoke now jti' ts) ≡ none
  unfolding active_by_jti revoke
  revoke-none now at jti jti' ts h =
      first-update_none (λ t. text_eq t.jti jti && is_live at t)
        (λ t. text_eq t.jti jti' && not (is_set t.revoked_at))
        (λ t. record t { revoked_at = some now }) ts (λ t k e. ground arith) h

  users-refresh_session :
      (now : ℕ) (d : Draws) (token : Text) (ctx : RequestContext) (db : Db)
      → (refresh_session p now d token ctx db).1.users ≡ db.users
  unfolding refresh_session issue_tokens
  users-refresh_session now d token ctx db = ground arith

  issued_decodes :
      (now later : ℕ) (d : Draws) (u : User) (ctx : RequestContext) (db : Db)
      → Documented p
      → now ≤ later
      → later ≤ now + minutes p.settings.refresh_token_expire_minutes
      → (c : Claims) × (decode_token p (issue_tokens p now d u ctx db).0.refresh_token refresh later
          ≡ some c)
        × (c.jti ≡ d.refresh_jti)
  unfolding issue_tokens token_claims
  issued_decodes now later d u ctx db doc from to = (
    token_claims p (uuid_text u.id) refresh (minutes p.settings.refresh_token_expire_minutes)
        d.refresh_jti now [],
    decode_token-encode p (uuid_text u.id) refresh (minutes p.settings.refresh_token_expire_minutes)
        d.refresh_jti now later [] doc (uuid_text-ne_nil u.id) from to,
    refl,
  )

  -- A live session of an active user refreshes.
  pub refreshes :
      (now : ℕ) (d : Draws) (token : Text) (ctx : RequestContext) (db : Db) (c : Claims)
      (s : RefreshToken) (u : User)
      → decode_token p token refresh now ≡ some c
      → active_by_jti now c.jti db.refresh_tokens ≡ some s
      → user_by_id s.user_id db.users ≡ some u
      → u.is_active ≡ true
      → (t : TokenPair) × ((refresh_session p now d token ctx db).0 ≡ ok t)
  unfolding refresh_session
  refreshes now d token ctx db c s u e f g a =
      ((issue_tokens p now d u ctx (revoke_in p now s.jti db)).0, ground (arith, e, f, g))

  -- The refresh token that a refresh gives works in its turn, until it expires, if no session had
  -- the id that was drawn for it.
  pub refresh_session_next :
      (now : ℕ) (d : Draws) (token : Text) (ctx : RequestContext) (db : Db) (t : TokenPair)
      → Documented p
      → (refresh_session p now d token ctx db).0 ≡ ok t
      → IsSpent d.refresh_jti db
      → (later : ℕ) (d' : Draws) (ctx' : RequestContext) → now ≤ later
      → later < now + minutes p.settings.refresh_token_expire_minutes
      → (t' : TokenPair) × ((refresh_session p later d' t.refresh_token ctx'
            (refresh_session p now d token ctx db).1).0
          ≡ ok t')
  unfolding user_by_id
  refresh_session_next now d token ctx db t doc done unused later d' ctx' from to =
      let r = refresh_session-IsRotated p now d token ctx db t done in
      let revoked = revoke_in p now r.stored.jti db in
      let db' = (refresh_session p now d token ctx db).1 in
      let (c, decodes, names) =
        issued_decodes now later d r.user ctx revoked doc from (omega arith) in
      let gone =
        revoke-none now later d.refresh_jti r.stored.jti db.refresh_tokens (unused.never later) in
      let stored = first_issued now later d r.user ctx revoked gone to in
      let owner : r.user.id ≡ r.stored.user_id =
        (==_iff r.user.id r.stored.user_id).0
          (first_holds (λ u. u.id == r.stored.user_id) db.users r.found) in
      refreshes later d' t.refresh_token ctx' db' c (new_session p now d r.user.id ctx) r.user
        (ap (λ (x : TokenPair). decode_token p x.refresh_token refresh later) (sym r.pair)
          ∙ decodes)
        (rw (names, r.tokens) stored)
        (ap (λ us. user_by_id r.user.id us) (users-refresh_session now d token ctx db)
          ∙ ap (λ id. user_by_id id db.users) owner
          ∙ r.found)
        r.active
