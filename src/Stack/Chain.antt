-- ===== src/Stack/Chain.antt =====
-- `reconstruct_stack` gives the call chain that Pushes describes.
use diagnosis_system.Prelude.{
  ℕ, suc, ◌-◌, ◌≤◌, ◌≡◌, refl, sym, ap, ◌∙◌, Bool, true, false, inl, inr, Option, none, some, List,
  [], ◌∷◌, ◌++◌, map, arith, append-nil, append_assoc, leb, Bool-cases, length, take, take-nil,
  filter_keep, filter_drop, length-append, sub-zero,
}
use diagnosis_system.Symbols.{SectionRange, normalize_thumb_address}
use diagnosis_system.Symbolizer.{
  Artifact, Symbolizer, Origin, pc, lr, stack, ResolvedFrame, resolve,
}
use diagnosis_system.Symbolizer.Caching.{
  IsReady, fresh, frame_of, resolve_fresh, resolve-IsReady, fresh-resolve,
}
use diagnosis_system.Stack.{
  Scan, same_as, add_frame, push, push_optional, scan_words, start, looks_like_return_address,
  reconstruct_stack,
}
use diagnosis_system.Stack.Pushes.{
  Pushed, collapse, collapse_drop, collapse_keep, register, from_stack, return_addresses, pushes,
}

module _ (file : Artifact) (origin : Symbolizer) (limit : ℕ) where
  abbrev frame : Pushed → ResolvedFrame
  frame (a, o) = frame_of file origin o a

  -- the frames that a state stands for, when `rest` is still to be pushed
  abbrev outcome : Scan → List Pushed → List ResolvedFrame
  outcome s rest =
      s.frames ++ map frame (take (limit - length s.frames) (collapse s.seen_adjacent rest))

  record Fits (s : Scan) : Type 0 where
    ready : IsReady file s.symbolizer
    made : fresh s.symbolizer ≡ fresh origin

  add_frame-Fits : (s : Scan) (a : ℕ) (o : Origin) → Fits s → Fits (add_frame file s a o)
  unfolding add_frame
  add_frame-Fits s a o h = record {
    ready = resolve-IsReady file s.symbolizer h.ready a o;
    made = fresh-resolve file s.symbolizer h.ready a o ∙ h.made;
  }

  push-Fits : (s : Scan) (a : ℕ) (o : Origin) → Fits s → Fits (push file limit s a o)
  unfolding push
  push-Fits s a o h = elim (Bool-cases (same_as s.seen_adjacent (normalize_thumb_address a))) [
    | inl e ↦ rw e h
    | inr e ↦ elim (Bool-cases (leb limit (length s.frames))) [
      | inl full ↦ rw (e, full) (record { ready = h.ready; made = h.made })
      | inr room ↦
          rw (e, room)
            (add_frame-Fits (record s { seen_adjacent = some (normalize_thumb_address a) }) a o
              (record { ready = h.ready; made = h.made }))
    ]
  ]

  frame-resolve :
      (s : Scan) (a : ℕ) (o : Origin) → Fits s → (resolve file s.symbolizer a o).0 ≡ frame (a, o)
  frame-resolve s a o h =
      resolve_fresh file s.symbolizer h.ready a o
      ∙ ap (λ (t : Symbolizer). (resolve file t a o).0) h.made

  outcome_full :
      (fs : List ResolvedFrame) (xs ys : List Pushed)
      → limit ≤ length fs
      → fs ++ map frame (take (limit - length fs) xs)
        ≡ fs ++ map frame (take (limit - length fs) ys)
  outcome_full fs xs ys h = let none_left : limit - length fs ≡ 0 = omega arith in rw none_left

  outcome_room :
      (fs : List ResolvedFrame) (x : Pushed) (xs : List Pushed)
      → suc (length fs) ≤ limit
      → (fs ++ (frame x ∷ [])) ++ map frame (take (limit - length (fs ++ (frame x ∷ []))) xs)
        ≡ fs ++ map frame (take (limit - length fs) (x ∷ xs))
  outcome_room fs x xs h =
      let more : limit - length fs ≡ suc (limit - length (fs ++ (frame x ∷ []))) =
        omega (arith, length-append fs (frame x ∷ [])) in
      rw (more, append_assoc)

  outcome-push :
      (s : Scan) (a : ℕ) (o : Origin) (rest : List Pushed)
      → Fits s
      → outcome (push file limit s a o) rest ≡ outcome s ((a, o) ∷ rest)
  unfolding push add_frame
  outcome-push s a o rest h =
      elim (Bool-cases (same_as s.seen_adjacent (normalize_thumb_address a))) [
        | inl e ↦ rw (e, collapse_drop s.seen_adjacent a o rest e)
        | inr e ↦ elim (Bool-cases (leb limit (length s.frames))) [
          | inl full ↦
              rw (e, full)
                (outcome_full s.frames (collapse (some (normalize_thumb_address a)) rest)
                  (collapse s.seen_adjacent ((a, o) ∷ rest)) (ground arith))
          | inr room ↦
              rw (e, room, collapse_keep s.seen_adjacent a o rest e)
                (rw (frame-resolve s a o h) (
                  outcome_room s.frames (a, o) (collapse (some (normalize_thumb_address a)) rest)
                    (ground arith)))
        ]
      ]

  outcome-push_optional :
      (s : Scan) (a : Option ℕ) (o : Origin) (rest : List Pushed)
      → Fits s
      → Fits (push_optional file limit s a o)
        × (outcome (push_optional file limit s a o) rest ≡ outcome s (register a o ++ rest))
  unfolding push_optional
  outcome-push_optional s none o rest h = (h, refl)
  outcome-push_optional s (some a) o rest h = (push-Fits s a o h, outcome-push s a o rest h)

  outcome_nil : (s : Scan) → outcome s [] ≡ s.frames
  outcome_nil s = rw take-nil (append-nil s.frames)

  outcome_stop :
      (s : Scan) (rest : List Pushed) → limit ≤ length s.frames → s.frames ≡ outcome s rest
  outcome_stop s rest h =
      let full : limit - length s.frames ≡ 0 = omega arith in rw full (sym (append-nil s.frames))

  module _ (ranges : List SectionRange) (thumb : Bool) where
    abbrev scan : Scan → List ℕ → List ℕ → Scan × List ℕ × Bool
    scan = scan_words file limit ranges thumb

    abbrev kept : Scan → ℕ → Scan
    kept s w = push file limit s w stack

    scan_skip :
        (s : Scan) (cs : List ℕ) (w : ℕ) (ws : List ℕ)
        → looks_like_return_address w ranges thumb ≡ false
        → scan s cs (w ∷ ws) ≡ scan s cs ws
    unfolding scan_words
    scan_skip s cs w ws h = rw (h, scan_words)

    scan_stop :
        (s : Scan) (cs : List ℕ) (w : ℕ) (ws : List ℕ)
        → looks_like_return_address w ranges thumb ≡ true
        → leb limit (length (kept s w).frames) ≡ true
        → scan s cs (w ∷ ws) ≡ (kept s w, cs ++ (normalize_thumb_address w ∷ []), true)
    unfolding scan_words
    scan_stop s cs w ws h k = rw (h, k, scan_words)

    scan_more :
        (s : Scan) (cs : List ℕ) (w : ℕ) (ws : List ℕ)
        → looks_like_return_address w ranges thumb ≡ true
        → leb limit (length (kept s w).frames) ≡ false
        → scan s cs (w ∷ ws) ≡ scan (kept s w) (cs ++ (normalize_thumb_address w ∷ [])) ws
    unfolding scan_words
    scan_more s cs w ws h k = rw (h, k, scan_words)

    scan-frames :
        (s : Scan) (cs ws : List ℕ)
        → Fits s
        → (scan s cs ws).0.frames ≡ outcome s (from_stack (return_addresses ranges thumb ws))
    unfolding scan_words
    scan-frames s cs [] h = sym (outcome_nil s)
    scan-frames s cs (w ∷ ws) h = elim (Bool-cases (looks_like_return_address w ranges thumb)) [
      | inr skip ↦
          rw
            (
              scan_skip s cs w ws skip,
              filter_drop (λ v. looks_like_return_address v ranges thumb) w ws skip,
            )
            (scan-frames s cs ws h)
      | inl keep ↦
          let rest = from_stack (return_addresses ranges thumb ws) in
          rw (filter_keep (λ v. looks_like_return_address v ranges thumb) w ws keep)
            (elim (Bool-cases (leb limit (length (kept s w).frames))) [
              | inr more ↦ rw (scan_more s cs w ws keep more) (
                  scan-frames (kept s w) (cs ++ (normalize_thumb_address w ∷ [])) ws
                    (push-Fits s w stack h)
                  ∙ outcome-push s w stack rest h)
              | inl stop ↦
                  rw (scan_stop s cs w ws keep stop)
                    (outcome_stop (kept s w) rest (ground arith) ∙ outcome-push s w stack rest h)
            ])
    ]

-- The frames are those of the addresses pushed (PC, LR, then every stack word that could be a
-- return address, in stack order), without the adjacent repeats, cut at `max_frames`; each frame
-- is the one that a symbolizer just made gives for its address.
pub frames-reconstruct_stack :
    (file : Artifact) (s : Symbolizer) (words : List ℕ) (ranges : List SectionRange)
    (program_counter link_register : Option ℕ) (thumb : Bool) (max_frames : ℕ)
    → IsReady file s
    → (reconstruct_stack file words s ranges program_counter link_register thumb max_frames).frames
      ≡ map
          (λ p. frame_of file s p.1 p.0)
          (take max_frames
            (collapse none (pushes words ranges program_counter link_register thumb)))
unfolding reconstruct_stack start
frames-reconstruct_stack file s words ranges pc? lr? thumb limit ready =
    let empty : Scan = record { seen_adjacent = none; frames = []; symbolizer = s } in
    let rest = from_stack (return_addresses ranges thumb words) in
    let begun : Fits file s limit empty = record { ready = ready; made = refl } in
    let (one, first) =
      outcome-push_optional file s limit empty pc? pc (register lr? lr ++ rest) begun in
    let (two, second) =
      outcome-push_optional file s limit (push_optional file limit empty pc? pc) lr? lr rest one in
    scan-frames file s limit ranges thumb (start file limit s pc? lr?) [] words two
    ∙ second
    ∙ first
    ∙ ap
        (λ n.
          map (λ (p : Pushed). frame_of file s p.1 p.0)
            (take n (collapse none (pushes words ranges pc? lr? thumb))))
        (sub-zero limit)
