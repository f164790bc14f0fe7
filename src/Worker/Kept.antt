-- ===== src/Worker/Kept.antt =====
-- What the tasks of backend/app/worker.py leave as it is.
use diagnosis_system.Prelude.{
  ℕ, ◌≤◌, ◌≡◌, ◌≢◌, refl, sym, ap, ◌∙◌, Bool, Bool-cases, true, false, not, inl, inr, Option, none,
  some, List, [], ◌∷◌, Text, arith, ltb, ◌==◌, filter, filter_keep, filter_drop, All,
}
use diagnosis_system.Tables.{first}
use diagnosis_system.Tables.Laws.{first_here, first_later, first-All, first-update_keep}
use diagnosis_system.Tables.Rows.{save-All}
use diagnosis_system.Auth.Store.{RefreshToken, active_by_jti}
use diagnosis_system.Parser.Value.{Value, Members, no_members, member}
use diagnosis_system.Parser.Timestamp.{Clock}
use diagnosis_system.Parser.Parse.{
  ParsedCrash, Parsed, parsed, field_required, clock_error, overflow, parse,
}
use diagnosis_system.Parser.Parse.Stored.{IsNormal, parse-IsNormal}
use diagnosis_system.Fleet.{
  DeviceStatus, active, inactive, maintenance, decommissioned, Device, CrashReport, device_by_id,
  crash_by_id,
}
use diagnosis_system.Crashes.Triage.Evidence.{IsEvidence}
use diagnosis_system.Worker.{
  purge_expired, is_active, is_stale, mark_stale, refreshed, rewrite, reparse_payload,
  reparse_found, reparse,
}

-- a row that every search meets is not filtered out
first-filter :
    {A : Type 0} (p q : A → Bool) (xs : List A)
    → ((x : A) → p x ≡ true → q x ≡ true)
    → first p (filter q xs) ≡ first p xs
first-filter p q [] h = refl
first-filter p q (x ∷ xs) h = elim (Bool-cases (q x)) [
  | inl kept ↦ elim (Bool-cases (p x)) [
    | inl here ↦
        ap (first p) (filter_keep q x xs kept)
        ∙ first_here p x (filter q xs) here
        ∙ sym (first_here p x xs here)
    | inr there ↦
        ap (first p) (filter_keep q x xs kept)
        ∙ first_later p x (filter q xs) there
        ∙ first-filter p q xs h
        ∙ sym (first_later p x xs there)
  ]
  | inr dropped ↦ elim (Bool-cases (p x)) [
    | inl here ↦ cc (h x here)
    | inr there ↦
        ap (first p) (filter_drop q x xs dropped)
        ∙ first-filter p q xs h
        ∙ sym (first_later p x xs there)
  ]
]

-- Deleting the expired tokens ends no session: what is found by its jti is found as before.
pub active_by_jti-purge_expired :
    (cutoff now : ℕ) (jti : Text) (tokens : List RefreshToken)
    → cutoff ≤ now
    → active_by_jti now jti (purge_expired cutoff tokens).0 ≡ active_by_jti now jti tokens
unfolding active_by_jti purge_expired
active_by_jti-purge_expired cutoff now jti tokens h =
    first-filter _ (λ (t : RefreshToken). not (ltb t.expires_at cutoff)) tokens
      (λ t e. ground (arith, e, h))

is_active_other : (s : DeviceStatus) → s ≢ active → is_active s ≡ false
unfolding is_active
is_active_other active h = absurd (h refl)
is_active_other inactive h = refl
is_active_other maintenance h = refl
is_active_other decommissioned h = refl

is_stale_other : (now hours : ℕ) (d : Device) → d.status ≢ active → is_stale now hours d ≡ false
unfolding is_stale
is_stale_other now hours d h = rw (is_active_other d.status h) refl

-- A device whose status is not `active` is left as it is, however long it has been silent.
pub mark_stale_keeps :
    (now hours id : ℕ) (devices : List Device) (d : Device)
    → device_by_id id devices ≡ some d
    → d.status ≢ active
    → device_by_id id (mark_stale now hours devices).0 ≡ some d
unfolding device_by_id mark_stale
mark_stale_keeps now hours id devices d found other =
    first-update_keep (λ (x : Device). x.id == id) (is_stale now hours)
      (λ (x : Device). record x { status = inactive }) devices (λ x. refl) found
    ∙ rw (is_stale_other now hours d other) refl

refreshed-IsEvidence :
    (now : ℕ) (r : CrashReport) (p : ParsedCrash)
    → IsEvidence r
    → IsNormal now p
    → IsEvidence (refreshed r p)
unfolding refreshed
refreshed-IsEvidence now r p h n = record {
  version = h.version;
  time = h.time;
  counter = n.counter;
  link = n.link;
  pointer = n.pointer;
  registers = n.registers;
  stack = n.stack;
}

rewrite-IsEvidence :
    (now : ℕ) (crashes : List CrashReport) (r : CrashReport) (outcome : Parsed)
    → ((p : ParsedCrash) → outcome ≡ parsed p → IsNormal now p)
    → IsEvidence r
    → All IsEvidence crashes
    → All IsEvidence (rewrite crashes r outcome).1
unfolding rewrite refreshed
rewrite-IsEvidence now crashes r (parsed p) h k all =
    save-All (λ (c : CrashReport). c.id) IsEvidence (refreshed r p) crashes
      (refreshed-IsEvidence now r p k (h p refl)) all
rewrite-IsEvidence now crashes r (field_required f) h k all = all
rewrite-IsEvidence now crashes r clock_error h k all = all
rewrite-IsEvidence now crashes r overflow h k all = all

module _ (render : Value → Text) (clock : Clock) where
  reparse_payload-IsEvidence :
      (now : ℕ) (crashes : List CrashReport) (r : CrashReport) (payload : Members)
      → IsEvidence r
      → All IsEvidence crashes
      → All IsEvidence (reparse_payload render clock now crashes r payload).1
  unfolding reparse_payload
  reparse_payload-IsEvidence now crashes r no_members k all = all
  reparse_payload-IsEvidence now crashes r (member key value rest) k all =
      rewrite-IsEvidence now crashes r (parse render clock now (member key value rest))
        (λ p e. parse-IsNormal render clock now (member key value rest) p e) k all

  reparse_found-IsEvidence :
      (now : ℕ) (crashes : List CrashReport) (found : Option CrashReport)
      → ((r : CrashReport) → found ≡ some r → IsEvidence r)
      → All IsEvidence crashes
      → All IsEvidence (reparse_found render clock now crashes found).1
  unfolding reparse_found
  reparse_found-IsEvidence now crashes none h all = all
  reparse_found-IsEvidence now crashes (some r) h all =
      reparse_payload-IsEvidence now crashes r r.raw_payload (h r refl) all

  -- Parsing a stored report again, whatever comes of it, keeps what the reports satisfy.
  pub reparse-IsEvidence :
      (now id : ℕ) (crashes : List CrashReport)
      → All IsEvidence crashes
      → All IsEvidence (reparse render clock now id crashes).1
  unfolding reparse crash_by_id
  reparse-IsEvidence now id crashes all =
      reparse_found-IsEvidence now crashes (crash_by_id id crashes)
        (λ r e. first-All IsEvidence (λ (c : CrashReport). c.id == id) crashes all e) all
