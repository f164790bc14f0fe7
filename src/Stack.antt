-- ===== src/Stack.antt =====
-- backend/app/services/stack_analyzer.py: `looks_like_return_address` and `reconstruct_stack`.
-- The nonlocal `seen_adjacent`, the list of frames and the symbolizer are the state `Scan`.
pub mod Pushes
pub mod Chain
pub mod Frames
pub mod Signature
mod Tests
use diagnosis_system.Prelude.{
  ℕ, Bool, true, false, not, ◌&&◌, Option, none, some, List, [], ◌∷◌, ◌++◌, leb, ◌==◌,
  if◌then◌else◌, length, any,
}
use diagnosis_system.Symbols.{
  SectionRange, section_contains, is_thumb_address, normalize_thumb_address,
}
use diagnosis_system.Symbolizer.{
  Artifact, Symbolizer, Origin, pc, lr, stack, ResolvedFrame, resolve,
}

abbrev pub default_max_frames : ℕ
default_max_frames = 32

abbrev in_ranges : ℕ → List SectionRange → Bool
in_ranges address [] = true
in_ranges address (r ∷ rs) = any (λ s. section_contains s address) (r ∷ rs)

-- the two early returns, then the range check, which is skipped without ranges
unfoldable pub looks_like_return_address : ℕ → List SectionRange → Bool → Bool
looks_like_return_address word ranges require_thumb =
    if require_thumb && not (is_thumb_address word)
    then false
    else if normalize_thumb_address word == 0
    then false
    else in_ranges (normalize_thumb_address word) ranges

pub data Warning : Type 0 where
  no_ranges : Warning
  stopped_at : ℕ → Warning
  no_candidates : Warning

pub record StackAnalysis : Type 0 where
  pub frames : List ResolvedFrame
  pub candidate_addresses : List ℕ
  pub words_scanned : ℕ
  pub warnings : List Warning

pub record Scan : Type 0 where
  pub seen_adjacent : Option ℕ
  pub frames : List ResolvedFrame
  pub symbolizer : Symbolizer

abbrev same_as : Option ℕ → ℕ → Bool
same_as none clean = false
same_as (some seen) clean = clean == seen

add_frame : Artifact → Scan → ℕ → Origin → Scan
add_frame file s address origin =
    let found = resolve file s.symbolizer address origin in
    record s { frames = s.frames ++ (found.0 ∷ []); symbolizer = found.1 }

-- the local function `push`
push : Artifact → ℕ → Scan → ℕ → Origin → Scan
unfolding add_frame
push file max_frames s address origin =
    let clean = normalize_thumb_address address in
    if same_as s.seen_adjacent clean
    then s
    else let s' = record s { seen_adjacent = some clean } in
      if not (leb max_frames (length s.frames)) then add_frame file s' address origin else s'

push_optional : Artifact → ℕ → Scan → Option ℕ → Origin → Scan
unfolding push
push_optional file max_frames s none origin = s
push_optional file max_frames s (some address) origin = push file max_frames s address origin

-- The loop over the stack words: the state, the candidates, and whether the loop broke off.
scan_words : Artifact → ℕ → List SectionRange → Bool → Scan → List ℕ → List ℕ → Scan × List ℕ × Bool
unfolding push
scan_words file max_frames ranges thumb s candidates [] = (s, candidates, false)
scan_words file max_frames ranges thumb s candidates (w ∷ ws) =
    elim (looks_like_return_address w ranges thumb) [
      | false ↦ scan_words file max_frames ranges thumb s candidates ws
      | true ↦
          let s' = push file max_frames s w stack in
          let candidates' = candidates ++ (normalize_thumb_address w ∷ []) in
          elim (leb max_frames (length s'.frames)) [
            | true ↦ (s', candidates', true)
            | false ↦ scan_words file max_frames ranges thumb s' candidates' ws
          ]
    ]

abbrev range_warnings : List SectionRange → List Warning
range_warnings [] = no_ranges ∷ []
range_warnings (r ∷ rs) = []

abbrev stop_warnings : ℕ → Bool → List Warning
stop_warnings max_frames true = stopped_at max_frames ∷ []
stop_warnings max_frames false = []

abbrev candidate_warnings : List ℕ → List ℕ → List Warning
candidate_warnings [] candidates = []
candidate_warnings (w ∷ ws) [] = no_candidates ∷ []
candidate_warnings (w ∷ ws) (c ∷ cs) = []

-- the state before the loop: the program counter, then the link register
start : Artifact → ℕ → Symbolizer → Option ℕ → Option ℕ → Scan
unfolding push_optional
start file max_frames symbolizer program_counter link_register =
    let empty : Scan = record { seen_adjacent = none; frames = []; symbolizer = symbolizer } in
    let s = push_optional file max_frames empty program_counter pc in
    push_optional file max_frames s link_register lr

unfoldable pub reconstruct_stack :
    Artifact
    → List ℕ
    → Symbolizer
    → List SectionRange
    → Option ℕ
    → Option ℕ
    → Bool
    → ℕ
    → StackAnalysis
unfolding start scan_words
reconstruct_stack file words symbolizer ranges program_counter link_register thumb max_frames =
    let s = start file max_frames symbolizer program_counter link_register in
    let scanned = scan_words file max_frames ranges thumb s [] words in
    record {
      frames = scanned.0.frames;
      candidate_addresses = scanned.1;
      words_scanned = length words;
      warnings =
          range_warnings ranges
          ++ (stop_warnings max_frames scanned.2 ++ candidate_warnings words scanned.1);
    }
