-- ===== src/Chunking/Errors.antt =====
-- What `chunk_text` refuses.
use diagnosis_system.Prelude.{
  ℕ, ◌≤◌, ◌≡◌, ◌≢◌, refl, inl, inr, Option, none, some, List, [], ◌∷◌, arith, Text, leb, Bool-cases,
  length, ◌↔◌,
}
use diagnosis_system.Chunking.{
  Chunk, outcome_of, value_error, chunk_cleaned, chunk_text, normalize_text,
}

outcome_of-ne : (o : Option (List Chunk)) → outcome_of o ≢ value_error
unfolding outcome_of
outcome_of-ne none e = cc
outcome_of-ne (some r) e = cc

chunk_cleaned-ne : (size overlap : ℕ) (t : Text) → chunk_cleaned size overlap t ≢ value_error
unfolding chunk_cleaned
chunk_cleaned-ne size overlap [] e = cc
chunk_cleaned-ne size overlap (c ∷ cs) e = elim (Bool-cases (leb (length (c ∷ cs)) size)) [
  | inl short ↦ cc (rw short at e)
  | inr long ↦ outcome_of-ne _ (rw long at e)
]

-- The call refuses exactly an overlap that is not below the chunk size.
pub value_error_iff :
    (size overlap : ℕ) (text : Text)
    → (chunk_text size overlap text ≡ value_error) ↔ (size ≤ overlap)
unfolding chunk_text
value_error_iff size overlap text = elim (Bool-cases (leb size overlap)) [
  | inl refused ↦ rw refused ((λ _. ground arith), (λ _. refl))
  | inr go ↦ rw go (
    (λ e. absurd (chunk_cleaned-ne size overlap (normalize_text text) e)),
    (λ h. absurd (ground arith)),
  )
]
