-- ===== src/Chunking/Loop.antt =====
-- The loop of `chunk_text` ends, with one rule for its invariants.
use diagnosis_system.Prelude.{
  ℕ, zero, suc, ◌+◌, ◌-◌, ◌≤◌, ◌<◌, ◌≡◌, inl, inr, true, false, Option, some, List, arith, Text,
  ltb, leb, Bool-cases, length,
}
use diagnosis_system.Chunking.{Chunk, slice, max', window_end, add_chunk, chunk_loop}
use diagnosis_system.Chunking.Boundary.{window_end_bounds}

module _ (size overlap : ℕ) (text : Text) where
  abbrev loop : ℕ → ℕ → List Chunk → Option (List Chunk)
  loop fuel = chunk_loop fuel size overlap text

  abbrev pub window_at : ℕ → Text
  window_at start = slice start (window_end size text start) text

  loop_done :
      (fuel start : ℕ) (chunks : List Chunk)
      → ltb start (length text) ≡ false
      → loop (suc fuel) start chunks ≡ some chunks
  unfolding chunk_loop
  loop_done fuel start chunks h = rw (h, chunk_loop)

  loop_last :
      (fuel start : ℕ) (chunks : List Chunk)
      → ltb start (length text) ≡ true
      → leb (length text) (window_end size text start) ≡ true
      → loop (suc fuel) start chunks ≡ some (add_chunk chunks (window_at start))
  unfolding chunk_loop
  loop_last fuel start chunks h k = rw (h, k, chunk_loop)

  loop_next :
      (fuel start : ℕ) (chunks : List Chunk)
      → ltb start (length text) ≡ true
      → leb (length text) (window_end size text start) ≡ false
      → loop (suc fuel) start chunks
        ≡ loop fuel
            (max' (window_end size text start - overlap) (start + 1))
            (add_chunk chunks (window_at start))
  unfolding chunk_loop
  loop_next fuel start chunks h k = rw (h, k, chunk_loop)

  -- With an invariant of the position reached and the chunks so far, which a window carries from
  -- its start to its end, and which holds of earlier positions too, enough fuel gives a result, and
  -- the invariant holds of it at the end of the text.
  pub loop_rule :
      (I : ℕ → List Chunk → Type 0)
      → ((start : ℕ) (chunks : List Chunk)
          → start < length text
          → I start chunks
          → I (window_end size text start) (add_chunk chunks (window_at start)))
      → ((start earlier : ℕ) (chunks : List Chunk)
          → earlier ≤ start
          → I start chunks
          → I earlier chunks)
      → 0 < size
      → (fuel start : ℕ) (chunks : List Chunk) → start ≤ length text
      → length text < start + fuel
      → I start chunks
      → (r : List Chunk) × (loop fuel start chunks ≡ some r) × I (length text) r
  loop_rule I step weaken pos zero start chunks within enough i = absurd (omega arith)
  loop_rule I step weaken pos (suc fuel) start chunks within enough i =
      elim (Bool-cases (ltb start (length text))) [
        | inr done ↦ (
          chunks,
          loop_done fuel start chunks done,
          weaken start (length text) chunks (ground arith) i,
        )
        | inl more ↦
            let (gt, _, le) = window_end_bounds size start text pos (ground arith) in
            let end = window_end size text start in
            let next = add_chunk chunks (window_at start) in
            let kept : I end next = step start chunks (ground arith) i in
            elim (Bool-cases (leb (length text) end)) [
              | inl last ↦ (
                next,
                loop_last fuel start chunks more last,
                weaken end (length text) next (ground arith) kept,
              )
              | inr further ↦ rw (loop_next fuel start chunks more further) (
                  loop_rule I step weaken pos fuel (max' (end - overlap) (start + 1)) next
                    (ground arith) (ground arith)
                    (weaken end (max' (end - overlap) (start + 1)) next (ground arith) kept))
            ]
      ]
