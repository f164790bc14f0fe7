-- ===== src/Users/Directory.antt =====
-- The table of accounts: no two have an id or an e-mail address in common, and each address is in
-- the form by which it is looked up.
use diagnosis_system.Prelude.{
  ℕ, ◌≡◌, ◌≢◌, sym, ap, subst, ◌∙◌, Bool, false, some, List, [], ◌∷◌, ◌++◌, Text, text_eq,
  text_eq_iff, strip, strip-strip, filter, any_none, All, All-filter, All-append, Pairwise,
  Pairwise-snoc, Pairwise-filter, ◌==◌,
}
use diagnosis_system.Tables.Laws.{first-All}
use diagnosis_system.Tables.Rows.{save-All, save-Pairwise, save-Differ, keys-Apart, Apart-of_unused}
use diagnosis_system.Auth.Store.{User, save_user, user_by_id}
use diagnosis_system.Auth.Security.{Platform, Documented, normalize_email}
use diagnosis_system.Auth.Login.{email_exists}

abbrev pub id_of : User → ℕ
id_of u = u.id

abbrev pub OtherId : User → User → Type 0
OtherId u v = u.id ≢ v.id

abbrev pub OtherEmail : User → User → Type 0
OtherEmail u v = u.email ≢ v.email

module _ (p : Platform) where
  pub record IsDirectory (users : List User) : Type 0 where
    pub ids : Pairwise OtherId users
    pub emails : Pairwise OtherEmail users
    pub lowered : All (λ u. p.lower u.email ≡ u.email) users

  normalized_twice :
      (doc : Documented p) (t : Text)
      → normalize_email p (normalize_email p t) ≡ normalize_email p t
  unfolding normalize_email
  normalized_twice doc t =
      ap p.lower (doc.strip-lower (strip t) ∙ ap p.lower (strip-strip t))
      ∙ doc.lower-lower (strip t)

  normalize_email-lowered :
      (doc : Documented p) (t : Text) → p.lower (normalize_email p t) ≡ normalize_email p t
  unfolding normalize_email
  normalize_email-lowered doc t = doc.lower-lower (strip t)

  -- an address that is not taken is that of no account
  unused_email :
      (doc : Documented p) (t : Text) (users : List User)
      → All (λ u. p.lower u.email ≡ u.email) users
      → email_exists p (normalize_email p t) users ≡ false
      → All (λ u. u.email ≢ normalize_email p t) users
  unfolding email_exists
  unused_email doc t users low h =
      both users low (
        any_none (λ u. text_eq (p.lower u.email) (normalize_email p (normalize_email p t))) users h)
    where
      both :
          (us : List User)
          → All (λ u. p.lower u.email ≡ u.email) us
          → All
              (λ u. text_eq (p.lower u.email) (normalize_email p (normalize_email p t)) ≡ false)
              us
          → All (λ u. u.email ≢ normalize_email p t) us
      both [] l k = tt
      both (u ∷ us) l k = (
        λ e. cc (
          (text_eq_iff (p.lower u.email) (normalize_email p (normalize_email p t))).1
              (l.0 ∙ e ∙ sym (normalized_twice doc t)),
          k.0,
        ),
        both us l.1 k.1,
      )

  -- An account is added whose id is new and whose address is not taken.
  pub add-IsDirectory :
      (doc : Documented p) (v : User) (t : Text) (users : List User)
      → IsDirectory users
      → All (λ w. w.id ≢ v.id) users
      → v.email ≡ normalize_email p t
      → email_exists p (normalize_email p t) users ≡ false
      → IsDirectory (users ++ (v ∷ []))
  add-IsDirectory doc v t users d new e h = record {
    ids = Pairwise-snoc OtherId v users d.ids new;
    emails =
        Pairwise-snoc OtherEmail v users d.emails (
          subst (λ x. All (λ w. w.email ≢ x) users) (sym e) (unused_email doc t users d.lowered h));
    lowered =
        All-append (λ u. p.lower u.email ≡ u.email) users (v ∷ []) d.lowered
          (ap p.lower e ∙ normalize_email-lowered doc t ∙ sym e, tt);
  }

  -- An account is saved with an address that is not taken.
  pub save_email-IsDirectory :
      (doc : Documented p) (v : User) (t : Text) (users : List User)
      → IsDirectory users
      → v.email ≡ normalize_email p t
      → email_exists p (normalize_email p t) users ≡ false
      → IsDirectory (save_user v users)
  unfolding save_user
  save_email-IsDirectory doc v t users d e h =
      let unused =
        subst (λ x. All (λ w. w.email ≢ x) users) (sym e) (unused_email doc t users d.lowered h) in
      record {
        ids = save-Pairwise id_of OtherId v users d.ids d.ids (keys-Apart id_of v users);
        emails =
            save-Pairwise id_of OtherEmail v users d.ids d.emails
              (Apart-of_unused id_of (λ (u : User). u.email) v users unused);
        lowered =
            save-All id_of (λ u. p.lower u.email ≡ u.email) v users
              (ap p.lower e ∙ normalize_email-lowered doc t ∙ sym e) d.lowered;
      }

  -- An account is saved with the address that it has.
  pub save_same-IsDirectory :
      (u v : User) (users : List User)
      → IsDirectory users
      → user_by_id v.id users ≡ some u
      → v.email ≡ u.email
      → IsDirectory (save_user v users)
  unfolding user_by_id save_user
  save_same-IsDirectory u v users d found e = record {
    ids = save-Pairwise id_of OtherId v users d.ids d.ids (keys-Apart id_of v users);
    emails = save-Differ id_of (λ (w : User). w.email) u v users d.ids d.emails found e;
    lowered =
        let low : p.lower u.email ≡ u.email =
          first-All (λ w. p.lower w.email ≡ w.email) (λ x. x.id == v.id) users d.lowered found in
        save-All id_of (λ w. p.lower w.email ≡ w.email) v users (ap p.lower e ∙ low ∙ sym e)
          d.lowered;
  }

  pub filter-IsDirectory :
      (q : User → Bool) (users : List User) → IsDirectory users → IsDirectory (filter q users)
  filter-IsDirectory q users d = record {
    ids = Pairwise-filter q OtherId users d.ids;
    emails = Pairwise-filter q OtherEmail users d.emails;
    lowered = All-filter q (λ u. p.lower u.email ≡ u.email) users d.lowered;
  }
