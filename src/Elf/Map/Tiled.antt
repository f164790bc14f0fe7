-- ===== src/Elf/Map/Tiled.antt =====
-- The symbols of a map file that `MapParser.parse_text` gives: where they lie, and that the lookup
-- finds every address between two of them.
use diagnosis_system.Prelude.{
  ℕ, ◌%◌, ◌≤◌, ◌<◌, ◌≡◌, refl, ap, inl, inr, Bool, Bool-cases, false, Option, none, some, List, [],
  ◌∷◌, Text, arith, leb, ◌==◌, All, All-IsIn, All-map, IsIn, Pairwise, sorted_by, sorted_by-All,
  sorted_by-Pairwise, sorted_by_order,
}
use diagnosis_system.Errors.{ok}
use diagnosis_system.Symbols.{Symbol, end_address, normalize_thumb_address}
use diagnosis_system.Symbols.Lookup.{lookup_in, Apart, Covers, lookup_symbol_complete}
use diagnosis_system.Elf.{ElfInfo}
use diagnosis_system.Elf.Map.{
  set_default, collect_match, collect, match_line, sized, finish, parse_text, earlier, splitlines,
}

abbrev IsEven : ℕ → Type 0
IsEven a = (0 < a) × (a % 2 ≡ 0)

abbrev Differ : ℕ × Text → ℕ × Text → Type 0
Differ a b = a.0 == b.0 ≡ false

Differ-sym : (a b : ℕ × Text) → Differ a b → Differ b a
Differ-sym a b h = ground arith

-- what `collected` holds: even addresses, each once
abbrev Collected : List (ℕ × Text) → Type 0
Collected c = All (λ a. IsEven a.0) c × Pairwise Differ c

set_default-All :
    (P : ℕ × Text → Type 0) (a : ℕ) (n : Text) (c : List (ℕ × Text))
    → P (a, n)
    → All P c
    → All P (set_default a n c)
unfolding set_default
set_default-All P a n [] h k = (h, tt)
set_default-All P a n ((b, m) ∷ c) h k = elim (Bool-cases (b == a)) [
  | inl e ↦ rw e k
  | inr e ↦ rw e (k.0, set_default-All P a n c h k.1)
]

set_default-Pairwise :
    (a : ℕ) (n : Text) (c : List (ℕ × Text))
    → Pairwise Differ c
    → Pairwise Differ (set_default a n c)
unfolding set_default
set_default-Pairwise a n [] h = (tt, tt)
set_default-Pairwise a n ((b, m) ∷ c) h = elim (Bool-cases (b == a)) [
  | inl e ↦ rw e h
  | inr e ↦ rw e (set_default-All (Differ (b, m)) a n c e h.0, set_default-Pairwise a n c h.1)
]

collect_match-Collected :
    (m : Option (ℕ × Text)) (c : List (ℕ × Text)) → Collected c → Collected (collect_match m c)
unfolding collect_match
collect_match-Collected none c h = h
collect_match-Collected (some (raw, name)) c h =
    let a = normalize_thumb_address raw in
    elim (Bool-cases (a == 0)) [
      | inl e ↦ rw e h
      | inr e ↦ rw e (
        set_default-All (λ b. IsEven b.0) a name c (ground arith, omega arith) h.0,
        set_default-Pairwise a name c h.1,
      )
    ]

collect-Collected :
    (alphanumeric : ℕ → Bool) (lines : List Text) (c : List (ℕ × Text))
    → Collected c
    → Collected (collect alphanumeric c lines)
unfolding collect
collect-Collected alphanumeric [] c h = h
collect-Collected alphanumeric (line ∷ lines) c h =
    collect-Collected alphanumeric lines (collect_match (match_line alphanumeric line) c)
      (collect_match-Collected (match_line alphanumeric line) c h)

abbrev Before : ℕ × Text → ℕ × Text → Type 0
Before a b = a.0 < b.0

strictly :
    (c : List (ℕ × Text)) → Pairwise (λ a b. a.0 ≤ b.0) c → Pairwise Differ c → Pairwise Before c
strictly [] h k = tt
strictly (a ∷ c) h k = (strictly_from a c h.0 k.0, strictly c h.1 k.1)
  where
    strictly_from :
        (a : ℕ × Text) (c : List (ℕ × Text))
        → All (λ b. a.0 ≤ b.0) c
        → All (Differ a) c
        → All (Before a) c
    strictly_from a [] h k = tt
    strictly_from a (b ∷ c) h k = (ground (arith, h, k), strictly_from a c h.1 k.1)

sorted-Before : (c : List (ℕ × Text)) → Collected c → Pairwise Before (sorted_by earlier c)
sorted-Before c h =
    strictly (sorted_by earlier c)
      (sorted_by_order earlier (λ a b. a.0 ≤ b.0) c (λ a b e. ground arith) (λ a b e. ground arith)
        (λ a b d p q. omega arith))
      (sorted_by-Pairwise earlier Differ c Differ-sym h.1)

-- each symbol ends where the next one begins; the last has no size
abbrev pub Tiles : List Symbol → Type 0
Tiles [] = Unit
Tiles (s ∷ []) = s.size ≡ 0
Tiles (s ∷ t ∷ ss) = ((s.address < t.address) × (end_address s ≡ t.address)) × Tiles (t ∷ ss)

sized-Tiles : (c : List (ℕ × Text)) → Pairwise Before c → Tiles (sized c)
unfolding sized
sized-Tiles [] h = tt
sized-Tiles (a ∷ []) h = refl
sized-Tiles (a ∷ b ∷ c) h = ((h.0.0, ground (arith, h.0.0)), sized-Tiles (b ∷ c) h.1)

sized-IsEven :
    (c : List (ℕ × Text)) → All (λ a. IsEven a.0) c → All (λ s. IsEven s.address) (sized c)
unfolding sized
sized-IsEven [] h = tt
sized-IsEven (a ∷ c) h = (h.0, sized-IsEven c h.1)

finish-symbols : (ss : List Symbol) {info : ElfInfo} → finish ss ≡ ok info → info.symbols ≡ ss
unfolding finish
finish-symbols [] h = cc
finish-symbols (s ∷ ss) h = cc

-- The symbols of a map file that is read lie at nonzero even addresses, in strictly ascending order,
-- and each ends where the next one begins; the last has no size.
pub parse_text-Tiles :
    (alphanumeric : ℕ → Bool) (text : Text) {info : ElfInfo}
    → parse_text alphanumeric text ≡ ok info
    → All (λ s. (0 < s.address) × (s.address % 2 ≡ 0)) info.symbols × Tiles info.symbols
unfolding parse_text
parse_text-Tiles alphanumeric text h =
    let lines = collect alphanumeric [] (splitlines text) in
    let good = collect-Collected alphanumeric (splitlines text) [] (tt, tt) in
    let ordered = sorted_by earlier lines in
    rw (finish-symbols (sized ordered) h) (
      sized-IsEven ordered (sorted_by-All earlier (λ a. IsEven a.0) lines good.0),
      sized-Tiles ordered (sorted-Before lines good),
    )

-- the ends of what tiles lie in order
Tiles-above :
    (s : Symbol) (ss : List Symbol) → Tiles (s ∷ ss) → All (λ t. end_address s ≤ t.address) ss
Tiles-above s [] h = tt
Tiles-above s (t ∷ ss) h = (
  omega (arith, h.0.0, h.0.1),
  All-map (λ u. end_address t ≤ u.address) (λ u. end_address s ≤ u.address)
      (λ u k. ground (arith, h.0.0, h.0.1, k)) ss (Tiles-above t ss h.1),
)

Tiles-Apart : (ss : List Symbol) → Tiles ss → Pairwise Apart ss
Tiles-Apart [] h = tt
Tiles-Apart (s ∷ []) h = (tt, tt)
Tiles-Apart (s ∷ t ∷ ss) h = (
  All-map (λ u. end_address s ≤ u.address) (Apart s) (λ u k. inl k) (t ∷ ss)
      (Tiles-above s (t ∷ ss) h),
  Tiles-Apart (t ∷ ss) h.1,
)

-- an address between the first symbol and another one lies in a symbol
Tiles-Covers :
    (a : ℕ) (s l : Symbol) (ss : List Symbol)
    → Tiles (s ∷ ss)
    → IsIn l (s ∷ ss)
    → s.address ≤ a
    → a ≤ l.address
    → (t : Symbol) × IsIn t (s ∷ ss) × Covers t a
Tiles-Covers a s l ss h (inl same) lo hi = (s, inl refl, rw (← same) ground arith)
Tiles-Covers a s l [] h (inr i) lo hi = absurd i
Tiles-Covers a s l (t ∷ ss) h (inr i) lo hi = elim (Bool-cases (leb t.address a)) [
  | inl late ↦
      let (u, j, covers) = Tiles-Covers a t l ss h.1 i (ground arith) hi in (u, inr j, covers)
  | inr before ↦ (s, inl refl, (lo, ground (arith, h.0.1)))
]

Tiles-between :
    (a : ℕ) (ss : List Symbol) (s l : Symbol)
    → Tiles ss
    → IsIn s ss
    → IsIn l ss
    → s.address ≤ a
    → a ≤ l.address
    → (t : Symbol) × IsIn t ss × Covers t a
Tiles-between a [] s l h i j lo hi = absurd i
Tiles-between a (f ∷ ss) s l h (inl e) j lo hi =
    Tiles-Covers a f l ss h j (omega (arith, lo, ap (λ (x : Symbol). x.address) e)) hi
Tiles-between a (f ∷ ss) s l h (inr i) j lo hi =
    let up = All-IsIn (λ t. end_address f ≤ t.address) s ss (Tiles-above f ss h) i in
    Tiles-Covers a f l ss h j (ground arith) hi

-- Between any two symbols of a map file that is read, the lookup finds a symbol for every address, and
-- the symbol covers it.
pub parse_text-lookup :
    (alphanumeric : ℕ → Bool) (text : Text) (a : ℕ) (s l : Symbol) {info : ElfInfo}
    → parse_text alphanumeric text ≡ ok info
    → IsIn s info.symbols
    → IsIn l info.symbols
    → s.address ≤ a
    → a ≤ l.address
    → (t : Symbol) × (lookup_in info.symbols a ≡ some t) × Covers t a
parse_text-lookup alphanumeric text a s l {info} h i j lo hi =
    let tiles = (parse_text-Tiles alphanumeric text h).1 in
    let (t, k, covers) = Tiles-between a info.symbols s l tiles i j lo hi in
    (t, lookup_symbol_complete info.symbols a t (Tiles-Apart info.symbols tiles) k covers, covers)
