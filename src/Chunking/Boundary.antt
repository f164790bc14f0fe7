-- ===== src/Chunking/Boundary.antt =====
-- Where a window may be cut.
use diagnosis_system.Prelude.{
  ℕ, zero, suc, ◌+◌, ◌-◌, ◌/◌, ◌≤◌, ◌<◌, ◌≡◌, refl, Bool, false, inl, ◌⊎◌, Option, none, some, [],
  ◌∷◌, arith, Text, length, take, drop,
}
use diagnosis_system.Chunking.{
  last_paragraph, last_sentence, last_blank, accept, or_else, last_boundary, slice, retreat,
  window_end,
}

abbrev Within : ℕ → Option ℕ → Type 0
Within n none = Unit
Within n (some p) = p ≤ n

last_paragraph-Within :
    (i n : ℕ) (first best : Option ℕ) (t : Text)
    → i + length t ≤ n
    → Within n first
    → Within n best
    → Within n (last_paragraph i first best t)
unfolding last_paragraph
last_paragraph-Within i n first best [] h f b = b
last_paragraph-Within i n first best (c ∷ cs) h f b =
    last_paragraph-Within (i + 1) n _ _ cs (omega arith) (ground arith) (ground arith)

last_sentence-Within :
    (i n : ℕ) (inside : Bool) (best : Option ℕ) (t : Text)
    → i + length t ≤ n
    → Within n best
    → Within n (last_sentence i inside best t)
unfolding last_sentence
last_sentence-Within i n inside best [] h b = b
last_sentence-Within i n inside best (c ∷ cs) h b =
    last_sentence-Within (i + 1) n _ _ cs (omega arith) (ground arith)

last_blank-Within :
    (i n : ℕ) (best : Option ℕ) (t : Text)
    → i + length t ≤ n
    → Within n best
    → Within n (last_blank i best t)
unfolding last_blank
last_blank-Within i n best [] h b = b
last_blank-Within i n best (c ∷ cs) h b =
    last_blank-Within (i + 1) n _ cs (omega arith) (ground arith)

-- zero, or a place in the back half
abbrev IsBreak : ℕ → ℕ → Type 0
IsBreak n p = (p ≤ n) × ((p ≡ 0) ⊎ (n / 2 ≤ p))

or_else-IsBreak :
    (n : ℕ) (o : Option ℕ) (p : ℕ)
    → Within n o
    → IsBreak n p
    → IsBreak n (or_else (accept (n / 2) o) p)
unfolding accept
or_else-IsBreak n none p w h = h
or_else-IsBreak n (some q) p w h = ground arith

-- The break found in a window lies in its back half, or is 0, and does not pass its end.
pub last_boundary-IsBreak :
    (window : Text)
    → (last_boundary window ≤ length window)
      × ((last_boundary window ≡ 0) ⊎ (length window / 2 ≤ last_boundary window))
unfolding last_boundary
last_boundary-IsBreak window =
    let n = length window in
    or_else-IsBreak n (last_paragraph 0 none none window) _
      (last_paragraph-Within 0 n none none window (omega arith) tt tt)
      (or_else-IsBreak n (last_sentence 0 false none window) _
        (last_sentence-Within 0 n false none window (omega arith) tt)
        (or_else-IsBreak n (last_blank 0 none window) 0
          (last_blank-Within 0 n none window (omega arith) tt) (omega arith, inl refl)))

length-drop : (n : ℕ) (t : Text) → length (drop n t) ≡ length t - n
length-drop zero t = omega arith
length-drop (suc n) [] = omega arith
length-drop (suc n) (c ∷ cs) = omega (arith, length-drop n cs)

length-take_below : (n : ℕ) (t : Text) → n ≤ length t → length (take n t) ≡ n
length-take_below zero t h = refl
length-take_below (suc n) [] h = absurd (omega arith)
length-take_below (suc n) (c ∷ cs) h = omega (arith, length-take_below n cs)

pub length-slice : (s e : ℕ) (t : Text) → e ≤ length t → length (slice s e t) ≡ e - s
length-slice s e t h = length-take_below (e - s) (drop s t) (omega (arith, length-drop s t))

-- A window that begins inside the text is not empty, not longer than `chunk_size`, and does not
-- pass the end of the text.
pub window_end_bounds :
    (size s : ℕ) (t : Text)
    → 0 < size
    → s < length t
    → (s < window_end size t s)
      × (window_end size t s ≤ s + size)
      × (window_end size t s ≤ length t)
unfolding window_end retreat
window_end_bounds size s t h k =
    ground (arith, last_boundary-IsBreak (slice s (s + size) t), length-slice s (s + size) t)
