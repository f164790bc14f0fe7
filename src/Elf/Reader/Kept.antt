-- ===== src/Elf/Reader/Kept.antt =====
-- What `ElfParser._read_symbols` keeps of a symbol table.
use diagnosis_system.Prelude.{
  ℕ, ◌+◌, ◌%◌, ◌≤◌, ◌<◌, ◌≡◌, inl, inr, Bool, Bool-cases, true, false, ◌||◌, Option, none, some,
  List, [], ◌∷◌, arith, ltb, ◌==◌, length, any, All, All-map, Pairwise,
}
use diagnosis_system.Symbols.{Symbol, SymbolKind}
use diagnosis_system.Elf.{is_arm_arch, max_symbols}
use diagnosis_system.Elf.Reader.{
  RawSymbol, ElfFile, kind_of, candidate, candidates, clean_value, is_empty, same_key, keep_symbols,
  table_of, symbols_of, read_symbols,
}

-- a property of what a row gives
abbrev Holds : (Symbol → Type 0) → Option Symbol → Type 0
Holds P none = Unit
Holds P (some s) = P s

keep_symbols-All :
    (P : Symbol → Type 0) (limit : ℕ) (rows : List (Option Symbol)) (seen : List Symbol) (count : ℕ)
    → All (Holds P) rows
    → All P (keep_symbols limit seen count rows).0
unfolding keep_symbols
keep_symbols-All P limit [] seen count h = tt
keep_symbols-All P limit (none ∷ rows) seen count h = keep_symbols-All P limit rows seen count h.1
keep_symbols-All P limit (some s ∷ rows) seen count h = elim (Bool-cases (any (same_key s) seen)) [
  | inl e ↦ rw (e, All) (keep_symbols-All P limit rows seen count h.1)
  | inr e ↦ elim (Bool-cases (ltb limit (count + 1))) [
    | inl f ↦ rw (e, f, All) tt
    | inr f ↦ rw (e, f, All) (h.0, keep_symbols-All P limit rows (s ∷ seen) (count + 1) h.1)
  ]
]

abbrev IsFresh : List Symbol → Symbol → Type 0
IsFresh seen s = any (same_key s) seen ≡ false

-- nothing that is kept was seen before
keep_symbols-IsFresh :
    (limit : ℕ) (rows : List (Option Symbol)) (seen : List Symbol) (count : ℕ)
    → All (IsFresh seen) (keep_symbols limit seen count rows).0
unfolding keep_symbols
keep_symbols-IsFresh limit [] seen count = tt
keep_symbols-IsFresh limit (none ∷ rows) seen count = keep_symbols-IsFresh limit rows seen count
keep_symbols-IsFresh limit (some s ∷ rows) seen count = elim (Bool-cases (any (same_key s) seen)) [
  | inl e ↦ rw (e, All) (keep_symbols-IsFresh limit rows seen count)
  | inr e ↦ elim (Bool-cases (ltb limit (count + 1))) [
    | inl f ↦ rw (e, f, All) tt
    | inr f ↦
        let later = keep_symbols-IsFresh limit rows (s ∷ seen) (count + 1) in
        rw (e, f, All)
          (e, All-map (IsFresh (s ∷ seen)) (IsFresh seen) (λ t k. ground (arith, k)) _ later)
  ]
]

-- two symbols of different name or address
abbrev pub Distinct : Symbol → Symbol → Type 0
Distinct s t = same_key t s ≡ false

keep_symbols-Distinct :
    (limit : ℕ) (rows : List (Option Symbol)) (seen : List Symbol) (count : ℕ)
    → Pairwise Distinct (keep_symbols limit seen count rows).0
unfolding keep_symbols
keep_symbols-Distinct limit [] seen count = tt
keep_symbols-Distinct limit (none ∷ rows) seen count = keep_symbols-Distinct limit rows seen count
keep_symbols-Distinct limit (some s ∷ rows) seen count = elim (Bool-cases (any (same_key s) seen)) [
  | inl e ↦ rw (e, Pairwise) (keep_symbols-Distinct limit rows seen count)
  | inr e ↦ elim (Bool-cases (ltb limit (count + 1))) [
    | inl f ↦ rw (e, f, Pairwise) tt
    | inr f ↦
        let later = keep_symbols-IsFresh limit rows (s ∷ seen) (count + 1) in
        rw (e, f, Pairwise)
          (
            All-map (IsFresh (s ∷ seen)) (Distinct s) (λ t k. ground (arith, k)) _ later,
            keep_symbols-Distinct limit rows (s ∷ seen) (count + 1),
          )
  ]
]

keep_symbols-length :
    (limit : ℕ) (rows : List (Option Symbol)) (seen : List Symbol) (count : ℕ)
    → count ≤ limit
    → count + length (keep_symbols limit seen count rows).0 ≤ limit
unfolding keep_symbols
keep_symbols-length limit [] seen count h = omega arith
keep_symbols-length limit (none ∷ rows) seen count h = keep_symbols-length limit rows seen count h
keep_symbols-length limit (some s ∷ rows) seen count h = elim (Bool-cases (any (same_key s) seen)) [
  | inl e ↦ rw (e, length) (keep_symbols-length limit rows seen count h)
  | inr e ↦ elim (Bool-cases (ltb limit (count + 1))) [
    | inl f ↦ rw (e, f, length) omega (arith, h)
    | inr f ↦
        let next = keep_symbols-length limit rows (s ∷ seen) (count + 1) (ground arith) in
        rw (e, f, length) omega (arith, next)
  ]
]

-- a symbol has a name and an address, which is even where the Thumb bit is cleared
abbrev pub IsUsable : Bool → Symbol → Type 0
IsUsable clear s = (is_empty s.name ≡ false) × (0 < s.address) × (clear ≡ true → s.address % 2 ≡ 0)

clean_value-even : (clear : Bool) (n : ℕ) → clear ≡ true → clean_value clear n % 2 ≡ 0
clean_value-even clear n h = rw h omega arith

candidate-IsUsable :
    (clear : Bool) (r : RawSymbol) (k : Option SymbolKind)
    → Holds (IsUsable clear) (candidate clear r k)
unfolding candidate
candidate-IsUsable clear r none = tt
candidate-IsUsable clear r (some k) =
    elim (Bool-cases (is_empty r.name || clean_value clear r.value == 0)) [
      | inl e ↦ rw e tt
      | inr e ↦ rw e (ground arith, ground arith, clean_value-even clear r.value)
    ]

candidates-IsUsable :
    (clear : Bool) (table : List RawSymbol) → All (Holds (IsUsable clear)) (candidates clear table)
unfolding candidates
candidates-IsUsable clear [] = tt
candidates-IsUsable clear (r ∷ rs) =
    (candidate-IsUsable clear r (kind_of r.type), candidates-IsUsable clear rs)

abbrev AreKept : Bool → List Symbol → Type 0
AreKept clear ss = All (IsUsable clear) ss × Pairwise Distinct ss × (length ss ≤ max_symbols)

symbols_of-AreKept :
    (clear : Bool) (table : Option (List RawSymbol)) → AreKept clear (symbols_of clear table).0
unfolding symbols_of
symbols_of-AreKept clear none = (tt, tt, omega arith)
symbols_of-AreKept clear (some table) =
    let rows = candidates clear table in
    (
      keep_symbols-All (IsUsable clear) max_symbols rows [] 0 (candidates-IsUsable clear table),
      keep_symbols-Distinct max_symbols rows [] 0,
      omega (arith, keep_symbols-length max_symbols rows [] 0 (omega arith)),
    )

-- The symbols that are read of a file have a name and a nonzero address, which is even on an ARM
-- machine; no two agree in name and address, and there are at most 200,000.
pub read_symbols-AreKept :
    (f : ElfFile)
    → All (IsUsable (is_arm_arch (some f.arch))) (read_symbols f).0
      × Pairwise Distinct (read_symbols f).0
      × (length (read_symbols f).0 ≤ max_symbols)
unfolding read_symbols
read_symbols-AreKept f = symbols_of-AreKept (is_arm_arch (some f.arch)) (table_of f)
