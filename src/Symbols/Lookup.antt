-- ===== src/Symbols/Lookup.antt =====
-- `lookup_symbol` on the index that `build_address_index` makes.
use diagnosis_system.Prelude.{
  ℕ, zero, suc, ◌-◌, ◌≤◌, ◌<◌, ◌≡◌, refl, sym, ap, ◌∙◌, ◌⊎◌, inl, inr, Option, Option-cases, some,
  List, [], ◌∷◌, map, arith, ◌==◌, ==_iff, Bool-cases, length, get_elem?, All, IsIn, get_elem?-IsIn,
  IsIn-get_elem?, Pairwise, Pairwise-get_elem?, sorted_by, sorted_by-IsIn, IsIn-sorted_by,
  sorted_by-Pairwise, sorted_by_order, count_le, IsSorted, get_elem?-above, get_elem?-below,
  get_elem?-total, bisect_right-count_le, count_le-le-length,
}
use diagnosis_system.Symbols.{
  Symbol, end_address, index_order, build_address_index, lookup_symbol, covering, candidate_at,
}

abbrev address_of : Symbol → ℕ
address_of s = s.address

abbrev pub lookup_in : List Symbol → ℕ → Option Symbol
lookup_in symbols address =
    let index = build_address_index symbols in lookup_symbol address index.0 index.1

get_elem?-map :
    (ss : List Symbol) (i : ℕ) {s : Symbol}
    → get_elem? ss i ≡ some s
    → get_elem? (map address_of ss) i ≡ some s.address
get_elem?-map [] i h = cc
get_elem?-map (t ∷ ts) zero h = cc
get_elem?-map (t ∷ ts) (suc i) h = get_elem?-map ts i h

length-map : (ss : List Symbol) → length (map address_of ss) ≡ length ss
length-map [] = refl
length-map (s ∷ ss) = ap suc (length-map ss)

-- `lookup_symbol` on addresses in order, by the number of addresses at most the one asked for
lookup_by_count :
    (a : ℕ) (ss : List Symbol)
    → IsSorted (map address_of ss)
    → lookup_symbol a (map address_of ss) ss ≡ candidate_at a ss (count_le a (map address_of ss))
unfolding lookup_symbol
lookup_by_count a [] h = refl
lookup_by_count a (s ∷ ss) h =
    ap (candidate_at a (s ∷ ss)) (bisect_right-count_le (map address_of (s ∷ ss)) a h)

All-map_address :
    (n : ℕ) (ss : List Symbol) → All (λ s. n ≤ s.address) ss → All (λ m. n ≤ m) (map address_of ss)
All-map_address n [] h = tt
All-map_address n (s ∷ ss) h = (h.0, All-map_address n ss h.1)

IsSorted-map :
    (ss : List Symbol) → Pairwise (λ s t. s.address ≤ t.address) ss → IsSorted (map address_of ss)
IsSorted-map [] h = tt
IsSorted-map (s ∷ ss) h = (All-map_address s.address ss h.0, IsSorted-map ss h.1)

ordered_addresses :
    (ss : List Symbol) → Pairwise (λ s t. s.address ≤ t.address) (sorted_by index_order ss)
ordered_addresses ss =
    sorted_by_order index_order (λ s t. s.address ≤ t.address) ss (λ s t h. ground arith)
      (λ s t h. ground arith) (λ s t u p q. omega arith)

candidate_sound :
    (a : ℕ) (ss : List Symbol) (n : ℕ) {s : Symbol}
    → candidate_at a ss n ≡ some s
    → (get_elem? ss (n - 1) ≡ some s) × (s.address ≤ a) × (a < end_address s)
unfolding candidate_at covering
candidate_sound a ss zero h = cc
candidate_sound a ss (suc i) {s} h = elim (Option-cases (get_elem? ss i)) [
  | inl e ↦ ground (arith, e)
  | inr (c, e) ↦ ground (arith, e)
]

abbrev pub Covers : Symbol → ℕ → Type 0
Covers s a = (s.address ≤ a) × (a < end_address s)

-- What is found covers the address, and is one of the symbols given.
pub lookup_symbol_sound :
    (symbols : List Symbol) (a : ℕ) {s : Symbol}
    → lookup_in symbols a ≡ some s
    → IsIn s symbols × Covers s a
unfolding build_address_index
lookup_symbol_sound symbols a {s} h =
    let ordered = sorted_by index_order symbols in
    let n = count_le a (map address_of ordered) in
    let found = lookup_by_count a ordered (IsSorted-map ordered (ordered_addresses symbols)) in
    let (e, lo, hi) = candidate_sound a ordered n (sym found ∙ h) in
    (IsIn-sorted_by index_order s symbols (get_elem?-IsIn ordered (n - 1) e), (lo, hi))

abbrev pub Apart : Symbol → Symbol → Type 0
Apart s t = (end_address s ≤ t.address) ⊎ (end_address t ≤ s.address)

Apart-sym : (s t : Symbol) → Apart s t → Apart t s
Apart-sym s t (inl h) = inr h
Apart-sym s t (inr h) = inl h

-- a symbol below the last one at or below the address does not cover it
last-Covers :
    (a : ℕ) (ss : List Symbol) (i k : ℕ) {s c : Symbol}
    → Pairwise (λ s t. s.address ≤ t.address) ss
    → Pairwise Apart ss
    → get_elem? ss i ≡ some s
    → get_elem? ss k ≡ some c
    → i ≤ k
    → Covers s a
    → c.address ≤ a
    → get_elem? ss k ≡ some s
last-Covers a ss i k {s} {c} order apart e f le h below = elim (Bool-cases (i == k)) [
  | inl same ↦ rw (← (==_iff i k).0 same) e
  | inr other ↦
      let lt : suc i ≤ k = ground arith in
      let up = Pairwise-get_elem? (λ s t. s.address ≤ t.address) ss i k order lt e f in
      absurd (ground (arith, Pairwise-get_elem? Apart ss i k apart lt e f))
]

candidate_complete :
    (a : ℕ) (ss : List Symbol) (i n : ℕ) {s : Symbol}
    → Pairwise (λ s t. s.address ≤ t.address) ss
    → Pairwise Apart ss
    → get_elem? ss i ≡ some s
    → Covers s a
    → count_le a (map address_of ss) ≡ n
    → candidate_at a ss n ≡ some s
unfolding candidate_at covering
candidate_complete a ss i zero {s} order apart e h m = absurd (
    omega (
      arith,
      get_elem?-above a (map address_of ss) i (IsSorted-map ss order) (get_elem?-map ss i e),
    ))
candidate_complete a ss i (suc k) {s} order apart e h m =
    let sorted = IsSorted-map ss order in
    let (c, f) =
      get_elem?-total ss k
        (omega (arith, length-map ss, count_le-le-length a (map address_of ss))) in
    let below =
      get_elem?-below a (map address_of ss) k sorted (get_elem?-map ss k f) (omega arith) in
    let early : i ≤ k =
      ground (arith, get_elem?-above a (map address_of ss) i sorted (get_elem?-map ss i e)) in
    rw (last-Covers a ss i k order apart e f early h below) (ground arith)

-- If the ranges of the symbols are apart, the symbol that covers an address is found, in whatever
-- order the symbols are given.
pub lookup_symbol_complete :
    (symbols : List Symbol) (a : ℕ) (s : Symbol)
    → Pairwise Apart symbols
    → IsIn s symbols
    → Covers s a
    → lookup_in symbols a ≡ some s
unfolding build_address_index
lookup_symbol_complete symbols a s apart member h =
    let ordered = sorted_by index_order symbols in
    let order = ordered_addresses symbols in
    let (i, e, _) = IsIn-get_elem? s ordered (sorted_by-IsIn index_order s symbols member) in
    lookup_by_count a ordered (IsSorted-map ordered order)
    ∙ candidate_complete a ordered i _ order
        (sorted_by-Pairwise index_order Apart symbols Apart-sym apart) e h refl
