-- ===== src/Auth/Sessions/Rotation.antt =====
-- A refresh token works once; the one that replaces it works next.
use diagnosis_system.Prelude.{
  ℕ, ◌≡◌, subst, ◌≢◌, sym, ap, ◌∙◌, true, not, ◌&&◌, inl, inr, none, some, Option-cases, List,
  arith, Text, text_eq, text_eq_iff,
}
use diagnosis_system.Errors.{ok, raised, token_error}
use diagnosis_system.Audit.{RequestContext}
use diagnosis_system.Tables.{is_set}
use diagnosis_system.Tables.Laws.{first_holds, first-append_none, first-update_where-none}
use diagnosis_system.Auth.Store.{User, RefreshToken, Db, is_live, active_by_jti, revoke, user_by_id}
use diagnosis_system.Auth.Security.{
  Platform, Documented, Claims, refresh, decode_token, decode_token-decode, to_seconds,
}
use diagnosis_system.Auth.Login.{Draws, TokenPair, issue_tokens}
use diagnosis_system.Auth.Sessions.{
  refresh_session, refresh_claims, refresh_stored, rotate_if_active, revoke_in,
}

-- No session with this id can be refreshed, at any time.
pub record IsSpent (jti : Text) (db : Db) : Type 0 where
  pub never : (now : ℕ) → active_by_jti now jti db.refresh_tokens ≡ none

revoked_never :
    (now at : ℕ) (jti : Text) (ts : List RefreshToken)
    → active_by_jti at jti (revoke now jti ts) ≡ none
unfolding active_by_jti revoke
revoked_never now at jti ts =
    first-update_where-none (λ t. text_eq t.jti jti && is_live at t)
      (λ t. text_eq t.jti jti && not (is_set t.revoked_at))
      (λ t. record t { revoked_at = some now }) ts (λ t h. ground arith) (λ t h. ground arith)

active_by_jti-jti :
    (now : ℕ) (jti : Text) (ts : List RefreshToken) {t : RefreshToken}
    → active_by_jti now jti ts ≡ some t
    → t.jti ≡ jti
unfolding active_by_jti
active_by_jti-jti now jti ts {t} h =
    let held = first_holds (λ x. text_eq x.jti jti && is_live now x) ts h in
    ground (arith, text_eq_iff t.jti jti)

module _ (p : Platform) where
  issued_tokens :
      (now : ℕ) (d : Draws) (u : User) (ctx : RequestContext) (db : Db) (at : ℕ) (jti : Text)
      → d.refresh_jti ≢ jti
      → active_by_jti at jti db.refresh_tokens ≡ none
      → active_by_jti at jti (issue_tokens p now d u ctx db).1.refresh_tokens ≡ none
  unfolding issue_tokens active_by_jti
  issued_tokens now d u ctx db at jti fresh h =
      first-append_none (λ t. text_eq t.jti jti && is_live at t) db.refresh_tokens _ h
      ∙ ground (arith, text_eq_iff d.refresh_jti jti, fresh)

  -- The token names a live session whose user is there and active; the session is revoked, and
  -- a pair is issued to its user.
  pub record IsRotated (now : ℕ) (d : Draws) (token : Text) (ctx : RequestContext) (db : Db)
      (t : TokenPair) : Type 0 where
    pub claims : Claims
    pub decoded : decode_token p token refresh now ≡ some claims
    pub stored : RefreshToken
    pub live : active_by_jti now claims.jti db.refresh_tokens ≡ some stored
    pub user : User
    pub found : user_by_id stored.user_id db.users ≡ some user
    pub active : user.is_active ≡ true
    pub pair : (issue_tokens p now d user ctx (revoke_in p now stored.jti db)).0 ≡ t
    pub tokens :
        (refresh_session p now d token ctx db).1.refresh_tokens
        ≡ (issue_tokens p now d user ctx (revoke_in p now stored.jti db)).1.refresh_tokens

  -- A refresh succeeds only so.
  pub refresh_session-IsRotated :
      (now : ℕ) (d : Draws) (token : Text) (ctx : RequestContext) (db : Db) (t : TokenPair)
      → (refresh_session p now d token ctx db).0 ≡ ok t
      → IsRotated now d token ctx db t
  unfolding refresh_session
  refresh_session-IsRotated now d token ctx db t h =
      elim (Option-cases (decode_token p token refresh now)) [
        | inl e ↦ cc (rw (e, refresh_claims) at h)
        | inr (c, e) ↦ elim (Option-cases (active_by_jti now c.jti db.refresh_tokens)) [
          | inl f ↦ cc (rw (e, f, refresh_claims, refresh_stored) at h)
          | inr (stored, f) ↦ elim (Option-cases (user_by_id stored.user_id db.users)) [
            | inl g ↦ cc (rw (e, f, g, refresh_claims, refresh_stored, rotate_if_active) at h)
            | inr (user, g) ↦ record {
              claims = c;
              decoded = e;
              stored = stored;
              live = f;
              user = user;
              found = g;
              active = ground (arith, e, f, g);
              pair = ground (arith, e, f, g);
              tokens = ground (arith, e, f, g);
            }
          ]
        ]
      ]

  -- A refreshed token is spent, if the id drawn for the next session is another.
  pub refresh_session-IsSpent :
      (now : ℕ) (d : Draws) (token : Text) (ctx : RequestContext) (db : Db) (t : TokenPair)
      (r : IsRotated now d token ctx db t)
      → d.refresh_jti ≢ r.claims.jti
      → IsSpent r.claims.jti (refresh_session p now d token ctx db).1
  refresh_session-IsSpent now d token ctx db t r fresh = record {
    never = λ at.
        let jti = r.claims.jti in
        let same : r.stored.jti ≡ jti = active_by_jti-jti now jti db.refresh_tokens r.live in
        rw (r.tokens) (
          issued_tokens now d r.user ctx (revoke_in p now r.stored.jti db) at jti fresh
            (rw same (revoked_never now at jti db.refresh_tokens)));
  }

  -- A spent token is refused, whenever it is presented.
  pub refresh_session_refused :
      (now : ℕ) (d : Draws) (token : Text) (ctx : RequestContext) (db : Db) (jti : Text)
      → IsSpent jti db
      → ((c : Claims) → decode_token p token refresh now ≡ some c → c.jti ≡ jti)
      → (refresh_session p now d token ctx db).0 ≡ raised token_error
  unfolding refresh_session
  refresh_session_refused now d token ctx db jti spent names =
      elim (Option-cases (decode_token p token refresh now)) [
        | inl e ↦ rw (e, refresh_claims)
        | inr (c, e) ↦
            let gone : active_by_jti now c.jti db.refresh_tokens ≡ none =
              rw (names c e) (spent.never now) in
            rw (e, gone, refresh_claims, refresh_stored)
      ]

  -- A refresh token works once: after a refresh that succeeds, the same token is refused at any
  -- time, unless the id drawn for the next session is the id in the token.
  pub refresh_session_once :
      (now : ℕ) (d : Draws) (token : Text) (ctx : RequestContext) (db : Db) (c : Claims)
      (t : TokenPair)
      → Documented p
      → decode_token p token refresh now ≡ some c
      → d.refresh_jti ≢ c.jti
      → (refresh_session p now d token ctx db).0 ≡ ok t
      → (later : ℕ) (d' : Draws) (ctx' : RequestContext)
      → (refresh_session p later d' token ctx' (refresh_session p now d token ctx db).1).0
        ≡ raised token_error
  refresh_session_once now d token ctx db c t doc decoded fresh done later d' ctx' =
      let r = refresh_session-IsRotated now d token ctx db t done in
      let claims : r.claims ≡ c = cc (sym r.decoded ∙ decoded) in
      refresh_session_refused later d' token ctx' (refresh_session p now d token ctx db).1
        r.claims.jti
        (refresh_session-IsSpent now d token ctx db t r
          (subst (λ (x : Claims). d.refresh_jti ≢ x.jti) (sym claims) fresh))
        (λ c' e.
          let same =
            doc.decode_same token (to_seconds now) (to_seconds later) r.claims c'
              (decode_token-decode p token refresh now r.decoded)
              (decode_token-decode p token refresh later e) in
          ap (λ (x : Claims). x.jti) (sym same))
