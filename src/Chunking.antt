-- ===== src/Chunking.antt =====
-- backend/app/services/ai/chunking.py: normalised text cut into overlapping windows. The three
-- regular expressions are scans that find the one match that the code uses.
pub mod Boundary
pub mod Loop
pub mod Chunks
pub mod Cover
pub mod Errors
mod Tests
use diagnosis_system.Prelude.{
  ℕ, zero, suc, ◌+◌, ◌-◌, ◌/◌, Bool, true, false, not, ◌&&◌, ◌||◌, Option, none, some, List, [],
  ◌∷◌, ◌++◌, map, Text, is_space, rstrip, strip, join, ltb, leb, ◌==◌, if◌then◌else◌, length, take,
  drop,
}

pub record Chunk : Type 0 where
  pub index : ℕ
  pub content : Text

abbrev newline_next : Text → Bool
newline_next [] = false
newline_next (c ∷ cs) = c == b'\n'

-- `text.replace("\r\n", "\n")`
replace_crlf : Text → Text
replace_crlf [] = []
replace_crlf (c ∷ cs) =
    let rest = replace_crlf cs in if c == b'\r' && newline_next cs then rest else c ∷ rest

-- `text.replace("\r", "\n")`
replace_cr : Text → Text
replace_cr = map (λ c. if c == b'\r' then b'\n' else c)

abbrev extend : ℕ → List Text → List Text
extend c [] = (c ∷ []) ∷ []
extend c (t ∷ ts) = (c ∷ t) ∷ ts

-- `text.split("\n")`
split_lines : Text → List Text
split_lines [] = [] ∷ []
split_lines (c ∷ cs) = let rest = split_lines cs in if c == b'\n' then [] ∷ rest else extend c rest

-- `re.sub(r"\n{3,}", "\n\n", text)`, with the newlines that the current run has so far
squeeze : ℕ → Text → Text
squeeze run [] = []
squeeze run (c ∷ cs) =
    let rest = squeeze (if c == b'\n' then run + 1 else 0) cs in
    if c == b'\n' && leb 2 run then rest else c ∷ rest

-- everything but the last `strip`
collapse_lines : Text → Text
unfolding replace_crlf replace_cr split_lines squeeze rstrip
collapse_lines text =
    let lines = map rstrip (split_lines (replace_cr (replace_crlf text))) in
    squeeze 0 (join (b'\n' ∷ []) lines)

unfoldable pub normalize_text : Text → Text
unfolding collapse_lines strip
normalize_text text = strip (collapse_lines text)

-- `list(_PARAGRAPH.finditer(window))[-1].start()`: the first newline of the last run of space that
-- holds two. `first` is the first newline of the current run, `i` the position.
abbrev first_newline : ℕ → Option ℕ → Option ℕ
first_newline i none = some i
first_newline i (some p) = some p

abbrev either : Option ℕ → Option ℕ → Option ℕ
either none other = other
either (some p) other = some p

last_paragraph : ℕ → Option ℕ → Option ℕ → Text → Option ℕ
last_paragraph i first best [] = best
last_paragraph i first best (c ∷ cs) =
    last_paragraph (i + 1)
      (if not (is_space c) then none else if c == b'\n' then first_newline i first else first)
      (if is_space c && c == b'\n' then either first best else best) cs

abbrev ends_sentence : ℕ → Bool
ends_sentence c = c == b'.' || c == b'!' || c == b'?'

-- `list(_SENTENCE.finditer(window))[-1].end()`: the end of the last run of space behind a full
-- stop, `!` or `?`. `inside` says whether a space here goes on such a run.
last_sentence : ℕ → Bool → Option ℕ → Text → Option ℕ
last_sentence i inside best [] = best
last_sentence i inside best (c ∷ cs) =
    let in_run = is_space c && inside in
    last_sentence (i + 1) (in_run || ends_sentence c) (if in_run then some (i + 1) else best) cs

-- `window.rfind(" ")`
last_blank : ℕ → Option ℕ → Text → Option ℕ
last_blank i best [] = best
last_blank i best (c ∷ cs) = last_blank (i + 1) (if c == b' ' then some i else best) cs

-- a break found, if it lies in the back half
accept : ℕ → Option ℕ → Option ℕ
accept half none = none
accept half (some p) = if leb half p then some p else none

abbrev or_else : Option ℕ → ℕ → ℕ
or_else none other = other
or_else (some p) other = p

unfoldable pub last_boundary : Text → ℕ
unfolding last_paragraph last_sentence last_blank accept
last_boundary window =
    let half = length window / 2 in
    let by_blank = or_else (accept half (last_blank 0 none window)) 0 in
    let by_sentence = or_else (accept half (last_sentence 0 false none window)) by_blank in
    or_else (accept half (last_paragraph 0 none none window)) by_sentence

-- `text[start:end]`
abbrev pub slice : ℕ → ℕ → Text → Text
slice start end text = take (end - start) (drop start text)

abbrev min' : ℕ → ℕ → ℕ
min' a b = if leb a b then a else b

abbrev max' : ℕ → ℕ → ℕ
max' a b = if leb a b then b else a

retreat : ℕ → ℕ → Text → ℕ
unfolding last_boundary
retreat start end text =
    let boundary = last_boundary (slice start end text) in
    if ltb 0 boundary then start + boundary else end

-- where the window that begins at `start` ends
pub window_end : ℕ → Text → ℕ → ℕ
unfolding retreat
window_end chunk_size text start =
    let end = min' (start + chunk_size) (length text) in
    if ltb end (length text) then retreat start end text else end

-- `content = window.strip()`, kept if it is not empty
append_content : List Chunk → Text → List Chunk
append_content chunks [] = chunks
append_content chunks (c ∷ cs) =
    chunks ++ ((record { index = length chunks; content = c ∷ cs }) ∷ [])

pub add_chunk : List Chunk → Text → List Chunk
unfolding append_content strip
add_chunk chunks window = append_content chunks (strip window)

-- the `while` loop; `none` would be a loop that does not end
pub chunk_loop : ℕ → ℕ → ℕ → Text → ℕ → List Chunk → Option (List Chunk)
chunk_loop zero chunk_size overlap text start chunks = none
chunk_loop (suc fuel) chunk_size overlap text start chunks = elim (ltb start (length text)) [
  | false ↦ some chunks
  | true ↦
      let end = window_end chunk_size text start in
      let chunks' = add_chunk chunks (slice start end text) in
      elim (leb (length text) end) [
        | true ↦ some chunks'
        | false ↦ chunk_loop fuel chunk_size overlap text (max' (end - overlap) (start + 1)) chunks'
      ]
]

pub data Outcome : Type 0 where
  value_error : Outcome
  diverged : Outcome
  returned : List Chunk → Outcome

outcome_of : Option (List Chunk) → Outcome
outcome_of none = diverged
outcome_of (some chunks) = returned chunks

chunk_cleaned : ℕ → ℕ → Text → Outcome
unfolding outcome_of chunk_loop window_end add_chunk
chunk_cleaned chunk_size overlap [] = returned []
chunk_cleaned chunk_size overlap (c ∷ cs) =
    let cleaned = c ∷ cs in
    if leb (length cleaned) chunk_size
    then returned ((record { index = 0; content = cleaned }) ∷ [])
    else outcome_of (chunk_loop (suc (length cleaned)) chunk_size overlap cleaned 0 [])

pub chunk_text : ℕ → ℕ → Text → Outcome
chunk_text chunk_size overlap text =
    if leb chunk_size overlap
    then value_error
    else chunk_cleaned chunk_size overlap (normalize_text text)
