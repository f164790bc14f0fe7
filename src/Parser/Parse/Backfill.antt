-- ===== src/Parser/Parse/Backfill.antt =====
-- `_backfill_from_registers`: a second run changes nothing.
use diagnosis_system.Prelude.{
  ℕ, ◌≡◌, refl, sym, ap, ◌∙◌, inl, inr, Option, none, some, List, [], ◌∷◌, append-nil, Text, codes,
  Option-cases,
}
use diagnosis_system.Parser.Value.{
  Field, program_counter, link_register, stack_pointer, Warning, taken_from_registers,
}
use diagnosis_system.Parser.Registers.{Registers}
use diagnosis_system.Parser.Parse.{ParsedCrash, register_value, fill, backfill}

fill-none :
    (f : Field) (name : Text) (dump : Registers)
    → register_value name dump ≡ none
    → fill f name (some dump) none ≡ (none, [])
unfolding fill
fill-none f name dump e = rw (e, fill)

fill-some :
    (f : Field) (name : Text) (dump : Registers) (a : ℕ)
    → register_value name dump ≡ some a
    → fill f name (some dump) none ≡ (some a, taken_from_registers f ∷ [])
unfolding fill
fill-some f name dump a e = rw (e, fill)

-- what is filled in once needs no second filling
fill_twice :
    (f : Field) (name : Text) (dump : Option Registers) (value : Option ℕ)
    → fill f name dump (fill f name dump value).0 ≡ ((fill f name dump value).0, [])
unfolding fill
fill_twice f name none value = refl
fill_twice f name (some dump) (some value) = refl
fill_twice f name (some dump) none = elim (Option-cases (register_value name dump)) [
  | inl e ↦
      let q = fill-none f name dump e in
      ap (λ (r : Option ℕ × List Warning). fill f name (some dump) r.0) q
      ∙ q
      ∙ sym (ap (λ (r : Option ℕ × List Warning). (r.0, [])) q)
  | inr (a, e) ↦
      let q = fill-some f name dump a e in
      ap (λ (r : Option ℕ × List Warning). fill f name (some dump) r.0) q
      ∙ sym (ap (λ (r : Option ℕ × List Warning). (r.0, [])) q)
]

-- Completing a record from its register dump is idempotent: what is filled in, or was given, is
-- kept, and no further warning is added.
pub backfill_idempotent : (c : ParsedCrash) → backfill (backfill c) ≡ backfill c
unfolding backfill
backfill_idempotent c =
    let pc = fill_twice program_counter (codes "pc") c.register_dump c.program_counter in
    let lr = fill_twice link_register (codes "lr") c.register_dump c.link_register in
    let sp = fill_twice stack_pointer (codes "sp") c.register_dump c.stack_pointer in
    rw (pc, lr, sp)
      (ap (λ w. record (backfill c) { warnings = w }) (append-nil (backfill c).warnings))
