-- ===== src/Chunking/Cover.antt =====
-- What `chunk_text` returns.
use diagnosis_system.Prelude.{
  ℕ, suc, ◌<◌, ◌≡◌, refl, inl, inr, false, List, [], ◌∷◌, arith, Text, leb, Bool-cases, length,
  strip, strip-strip,
}
use diagnosis_system.Chunking.{
  Chunk, collapse_lines, slice, window_end, add_chunk, outcome_of, Outcome, returned, chunk_cleaned,
  chunk_text, normalize_text,
}
use diagnosis_system.Chunking.Boundary.{window_end_bounds, length-slice}
use diagnosis_system.Chunking.Loop.{loop_rule}
use diagnosis_system.Chunking.Chunks.{
  AreChunks, CoveredTo, add_chunk-AreChunks, add_chunk-CoveredTo, whole-CoveredTo,
}

pub data Returns (P : List Chunk → Type 0) : Outcome → Type 0 where
  returns : (r : List Chunk) → P r → Returns P (returned r)

abbrev Good : ℕ → Text → ℕ → List Chunk → Type 0
Good size t s chunks = AreChunks size chunks × CoveredTo t s chunks

window-Good :
    (size start : ℕ) (t : Text) (chunks : List Chunk)
    → 0 < size
    → start < length t
    → Good size t start chunks
    → Good size t
        (window_end size t start)
        (add_chunk chunks (slice start (window_end size t start) t))
window-Good size start t chunks pos lt inv =
    let (gt, fits, le) = window_end_bounds size start t pos lt in
    let end = window_end size t start in
    (
      add_chunk-AreChunks size chunks (slice start end t)
          (omega (arith, length-slice start end t le)) inv.0,
      add_chunk-CoveredTo t start end chunks le inv.1,
    )

chunk_cleaned-Returns :
    (size overlap : ℕ) (t : Text)
    → overlap < size
    → strip t ≡ t
    → Returns (Good size t (length t)) (chunk_cleaned size overlap t)
unfolding chunk_cleaned
chunk_cleaned-Returns size overlap [] h s =
    returns [] (record { numbered = tt; fitting = tt }, (λ i c lt g dark. absurd (omega arith)))
chunk_cleaned-Returns size overlap (c ∷ cs) h s = elim (Bool-cases (leb (length (c ∷ cs)) size)) [
  | inl short ↦ rw short (
      returns _ (
        record { numbered = (refl, tt); fitting = (((λ e. cc), ground arith), tt) },
        whole-CoveredTo (c ∷ cs) _ refl s,
      ))
  | inr long ↦ rw long (
      let t = c ∷ cs in
      let (r, eq, good) =
        loop_rule size overlap t (Good size t)
          (λ start chunks lt inv. window-Good size start t chunks (omega arith) lt inv)
          (λ s s' chunks le inv. (inv.0, λ i x lt g dark. inv.1 i x (omega arith) g dark))
          (omega arith) (suc (length t)) 0 [] (omega arith) (omega arith)
          (record { numbered = tt; fitting = tt }, (λ i x lt g dark. absurd (omega arith))) in
      rw (eq, outcome_of) (returns r good))
]

strip-normalize_text : (text : Text) → strip (normalize_text text) ≡ normalize_text text
unfolding normalize_text
strip-normalize_text text = strip-strip (collapse_lines text)

-- With an overlap below the chunk size the call returns chunks numbered from 0, none of them empty
-- or longer than the chunk size, and every character of the normalised text that is not space lies
-- in a window whose stripped text is one of the chunks.
pub chunk_text-Returns :
    (size overlap : ℕ) (text : Text)
    → overlap < size
    → Returns
        (λ r. AreChunks size r × CoveredTo (normalize_text text) (length (normalize_text text)) r)
        (chunk_text size overlap text)
unfolding chunk_text
chunk_text-Returns size overlap text h =
    let go : leb size overlap ≡ false = ground arith in
    rw go (chunk_cleaned-Returns size overlap (normalize_text text) h (strip-normalize_text text))
