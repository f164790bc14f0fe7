-- ===== src/Auth/Sessions/Logout.antt =====
-- `AuthService.logout`: what it revokes, and whose sessions.
use diagnosis_system.Prelude.{
  ℕ, ◌≡◌, refl, sym, ◌∙◌, ap, Bool, true, false, not, ◌&&◌, inl, inr, Option, none, some, List, [],
  ◌∷◌, arith, Text, text_eq, ◌==◌, Bool-cases, Option-cases, text_eq_iff,
}
use diagnosis_system.Audit.{RequestContext}
use diagnosis_system.Tables.{count_where, is_set}
use diagnosis_system.Auth.Store.{
  User, RefreshToken, Db, open_session, token_by_jti, revoke, revoke_all_for_user,
}
use diagnosis_system.Tables.Laws.{count_where_none, first_holds, first-update_where_out}
use diagnosis_system.Auth.Security.{Platform, refresh, decode_token}
use diagnosis_system.Auth.Sessions.{logout, revoke_own, revoke_claimed, revoke_presented}

abbrev pub open_sessions : ℕ → Db → ℕ
open_sessions id db = count_where (open_session id) db.refresh_tokens

token_by_jti-jti :
    (jti : Text) (ts : List RefreshToken) {t : RefreshToken}
    → token_by_jti jti ts ≡ some t
    → t.jti ≡ jti
unfolding token_by_jti
token_by_jti-jti jti ts {t} h =
    (text_eq_iff t.jti jti).0 (first_holds (λ x. text_eq x.jti jti) ts h)

module _ (p : Platform) where
  -- Logging out of every session gives the number of the user's sessions that were open, and leaves
  -- none of them open.
  pub logout_all :
      (now : ℕ) (user : User) (token : Option Text) (ctx : RequestContext) (db : Db)
      → ((logout p now user token true ctx db).0 ≡ open_sessions user.id db)
        × (open_sessions user.id (logout p now user token true ctx db).1 ≡ 0)
  unfolding logout revoke_all_for_user
  logout_all now user token ctx db = (
    refl,
    count_where_none (open_session user.id) (λ t. record t { revoked_at = some now })
        db.refresh_tokens (λ t e. ground arith),
  )

  -- a token of that id that is found after it was revoked is revoked
  found_revoked :
      (now : ℕ) (jti : Text) (ts : List RefreshToken) {t : RefreshToken}
      → token_by_jti jti (revoke now jti ts) ≡ some t
      → is_set t.revoked_at ≡ true
  unfolding token_by_jti revoke
  found_revoked now jti ts {t} h =
      let named = λ (x : RefreshToken). text_eq x.jti jti in
      let held = first_holds named (revoke now jti ts) h in
      let out =
        first-update_where_out named (λ x. text_eq x.jti jti && not (is_set x.revoked_at))
          (λ x. record x { revoked_at = some now }) ts (λ x e. ground arith) h in
      ground arith

  nothing_left :
      (now later : ℕ) (user : User) (jti : Text) (db db' : Db)
      → db'.refresh_tokens ≡ revoke now jti db.refresh_tokens
      → (revoke_own p later user db' (token_by_jti jti db'.refresh_tokens)).1 ≡ 0
  unfolding revoke_own
  nothing_left now later user jti db db' h =
      elim (Option-cases (token_by_jti jti db'.refresh_tokens)) [
        | inl e ↦ ground (arith, e)
        | inr (t, e) ↦
            let set = found_revoked now jti db.refresh_tokens (ap (token_by_jti jti) (sym h) ∙ e) in
            ground (arith, e, set)
      ]

  -- a token that is not found, or is not the user's to revoke, revokes nothing
  own_none :
      (now : ℕ) (user : User) (db : Db) (o : Option RefreshToken)
      → o ≡ none
      → (revoke_own p now user db o).1 ≡ 0
  unfolding revoke_own
  own_none now user db o e = ground (arith, e)

  own_other :
      (now : ℕ) (user : User) (db : Db) (o : Option RefreshToken) (t : RefreshToken)
      → o ≡ some t
      → (t.user_id == user.id && not (is_set t.revoked_at)) ≡ false
      → (revoke_own p now user db o).1 ≡ 0
  unfolding revoke_own
  own_other now user db o t e k = ground (arith, e)

  own_twice :
      (now later : ℕ) (user : User) (jti : Text) (db db' : Db)
      → db'.refresh_tokens
        ≡ (revoke_own p now user db (token_by_jti jti db.refresh_tokens)).0.refresh_tokens
      → (revoke_own p later user db' (token_by_jti jti db'.refresh_tokens)).1 ≡ 0
  unfolding revoke_own
  own_twice now later user jti db db' h = elim (Option-cases (token_by_jti jti db.refresh_tokens)) [
    | inl e ↦
        let same : db'.refresh_tokens ≡ db.refresh_tokens = ground (arith, e, h) in
        own_none later user db' (token_by_jti jti db'.refresh_tokens)
          (ap (token_by_jti jti) same ∙ e)
    | inr (t, e) ↦ elim (Bool-cases (t.user_id == user.id && not (is_set t.revoked_at))) [
      | inl k ↦
          let named : t.jti ≡ jti = token_by_jti-jti jti db.refresh_tokens e in
          let written : db'.refresh_tokens ≡ revoke now t.jti db.refresh_tokens =
            ground (arith, e, h, k) in
          nothing_left now later user jti db db'
            (written ∙ ap (λ j. revoke now j db.refresh_tokens) named)
      | inr k ↦
          let same : db'.refresh_tokens ≡ db.refresh_tokens = ground (arith, e, h, k) in
          own_other later user db' (token_by_jti jti db'.refresh_tokens) t
            (ap (token_by_jti jti) same ∙ e) k
    ]
  ]

  presented_twice :
      (now : ℕ) (user : User) (token : Option Text) (db db' : Db)
      → db'.refresh_tokens ≡ (revoke_presented p now user db token).0.refresh_tokens
      → (revoke_presented p now user db' token).1 ≡ 0
  unfolding revoke_presented revoke_claimed
  presented_twice now user none db db' h = refl
  presented_twice now user (some []) db db' h = refl
  presented_twice now user (some (c ∷ cs)) db db' h =
      elim (Option-cases (decode_token p (c ∷ cs) refresh now)) [
        | inl e ↦ ground (arith, e)
        | inr (claims, e) ↦
            let again = own_twice now now user claims.jti db db' (rw (e, revoke_claimed) at h) in
            rw (e, revoke_claimed) again
      ]

  -- Logging out again with the same token, or again out of every session, revokes nothing more.
  pub logout_idempotent :
      (now : ℕ) (user : User) (token : Option Text) (all_sessions : Bool)
      (ctx ctx' : RequestContext) (db : Db)
      → (logout p now user token all_sessions ctx'
          (logout p now user token all_sessions ctx db).1).0
        ≡ 0
  unfolding logout
  logout_idempotent now user token true ctx ctx' db =
      (logout_all now user token ctx' (logout p now user token true ctx db).1).0
      ∙ (logout_all now user token ctx db).1
  logout_idempotent now user token false ctx ctx' db =
      presented_twice now user token db (logout p now user token false ctx db).1 refl
