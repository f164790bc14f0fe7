-- ===== src/Stack/Signature/Names.antt =====
-- The names in a signature: those of the named frames, adjacent repeats dropped, cut at the depth.
use diagnosis_system.Prelude.{
  ℕ, zero, suc, ◌+◌, ◌-◌, ◌≤◌, ◌≡◌, refl, sym, ap, ◌∙◌, Bool, true, false, inl, inr, Option, none,
  some, Option-cases, List, [], ◌∷◌, ◌++◌, append-nil, append_assoc, arith, Text, text_eq, leb,
  leb→le, Bool-cases, length, take, take-nil, length-append, sub-zero,
}
use diagnosis_system.Symbolizer.{ResolvedFrame}
use diagnosis_system.Stack.Signature.{frame_name, last_is, collect}

-- the names of the frames that have one, innermost first
abbrev pub names : List ResolvedFrame → List Text
names [] = []
names (f ∷ fs) = elim (frame_name f) [ none ↦ names fs | some name ↦ name ∷ names fs ]

abbrev follows : Option Text → Text → Bool
follows none name = false
follows (some seen) name = text_eq seen name

-- without the names that equal the one just before them
abbrev pub distinct : Option Text → List Text → List Text
distinct seen [] = []
distinct seen (t ∷ ts) = elim (follows seen t) [
  | true ↦ distinct seen ts
  | false ↦ t ∷ distinct (some t) ts
]

abbrev last : List Text → Option Text
last [] = none
last (t ∷ []) = some t
last (t ∷ u ∷ us) = last (u ∷ us)

last_is-last : (ts : List Text) (t : Text) → last_is ts t ≡ follows (last ts) t
unfolding last_is
last_is-last [] t = refl
last_is-last (u ∷ []) t = refl
last_is-last (u ∷ v ∷ vs) t = last_is-last (v ∷ vs) t

last-append : (ts : List Text) (t : Text) → last (ts ++ (t ∷ [])) ≡ some t
last-append [] t = refl
last-append (u ∷ []) t = refl
last-append (u ∷ v ∷ vs) t = last-append (v ∷ vs) t

-- at least one name is taken, also at depth 0
abbrev pub at_least_one : ℕ → ℕ
at_least_one zero = 1
at_least_one (suc n) = suc n

length-snoc : (ts : List Text) (t : Text) → 1 ≤ length (ts ++ (t ∷ []))
length-snoc ts t = omega (arith, length-append ts (t ∷ []))

full_at_least : (depth n : ℕ) → 1 ≤ n → depth ≤ n → at_least_one depth ≤ n
full_at_least zero n h k = h
full_at_least (suc d) n h k = k

room_at_least : (depth n : ℕ) → n + 1 ≤ depth → n + 1 ≤ at_least_one depth
room_at_least zero n h = absurd (omega arith)
room_at_least (suc d) n h = h

one_at_least : (depth : ℕ) → 0 + 1 ≤ at_least_one depth
one_at_least zero = omega arith
one_at_least (suc d) = omega arith

module _ (depth : ℕ) where
  abbrev rest_of : List Text → List ResolvedFrame → List Text
  rest_of resolved fs =
      resolved ++ take (at_least_one depth - length resolved) (distinct (last resolved) (names fs))

  rest_of_full :
      (resolved : List Text) (fs : List ResolvedFrame)
      → at_least_one depth ≤ length resolved
      → resolved ≡ rest_of resolved fs
  rest_of_full resolved fs h =
      let none_left : at_least_one depth - length resolved ≡ 0 = omega arith in
      rw none_left (sym (append-nil resolved))

  rest_of_new :
      (resolved : List Text) (name : Text) (f : ResolvedFrame) (fs : List ResolvedFrame)
      → frame_name f ≡ some name
      → last_is resolved name ≡ false
      → length resolved + 1 ≤ at_least_one depth
      → rest_of (resolved ++ (name ∷ [])) fs ≡ rest_of resolved (f ∷ fs)
  rest_of_new resolved name f fs n d h =
      let more : at_least_one depth - length resolved
          ≡ suc (at_least_one depth - length (resolved ++ (name ∷ []))) =
        omega (arith, length-append resolved (name ∷ [])) in
      rw (n, names)
        (rw (sym (last_is-last resolved name) ∙ d, distinct)
          (rw (more, last-append resolved name, append_assoc)))

  collect-distinct :
      (resolved : List Text) (fs : List ResolvedFrame)
      → length resolved + 1 ≤ at_least_one depth
      → collect depth resolved fs ≡ rest_of resolved fs
  unfolding collect
  collect-distinct resolved [] h = rw take-nil (sym (append-nil resolved))
  collect-distinct resolved (f ∷ fs) h = elim (Option-cases (frame_name f)) [
    | inl no_name ↦ rw (no_name, collect, names) (collect-distinct resolved fs h)
    | inr (name, n) ↦ elim (Bool-cases (last_is resolved name)) [
      | inl same ↦
          rw (n, same, collect, names)
            (rw (sym (last_is-last resolved name) ∙ same, distinct)
              (collect-distinct resolved fs h))
      | inr new ↦ elim (Bool-cases (leb depth (length (resolved ++ (name ∷ []))))) [
        | inl full ↦
            rw (n, new, full, collect)
              (rest_of_full (resolved ++ (name ∷ [])) fs
                  (full_at_least depth _ (length-snoc resolved name) (leb→le _ _ full))
                ∙ rest_of_new resolved name f fs n new h)
        | inr room ↦
            rw (n, new, room, collect)
              (collect-distinct (resolved ++ (name ∷ [])) fs (room_at_least depth _ (ground arith))
                ∙ rest_of_new resolved name f fs n new h)
      ]
    ]
  ]

-- The loop takes the names of the named frames, drops each that equals the one just before it, and
-- stops at the depth, or after the first name if the depth is 0.
pub collect_lem :
    (depth : ℕ) (fs : List ResolvedFrame)
    → collect depth [] fs ≡ take (at_least_one depth) (distinct none (names fs))
collect_lem depth fs =
    collect-distinct depth [] fs (one_at_least depth)
    ∙ ap (λ n. take n (distinct none (names fs))) (sub-zero (at_least_one depth))
