-- ===== src/Symbolizer/Lines.antt =====
-- The row that `_DwarfLineTable.lookup` returns.
use diagnosis_system.Prelude.{
  ℕ, zero, suc, ◌≤◌, ◌<◌, ◌≡◌, refl, sym, ◌∙◌, ◌⊎◌, inl, inr, some, List, [], ◌∷◌, map, arith, ltb,
  ◌==◌, ==_iff, get_elem?, All, IsIn, get_elem?-IsIn, IsIn-get_elem?, Pairwise, sorted_by,
  sorted_by-IsIn, IsIn-sorted_by, sorted_by_order, count_le, IsSorted, get_elem?-above,
  get_elem?-below, bisect_right-count_le, Pairwise-get_elem?, Text, Bool-cases,
}
use diagnosis_system.Symbolizer.{Row, row_order, table_of_rows, entry_at, lookup}

abbrev address_of : Row → ℕ
address_of r = r.address

abbrev entry_of : Row → Text × ℕ
entry_of r = (r.name, r.line)

get_elem?-map-address :
    (rs : List Row) (i : ℕ) {r : Row}
    → get_elem? rs i ≡ some r
    → get_elem? (map address_of rs) i ≡ some r.address
get_elem?-map-address [] i h = cc
get_elem?-map-address (t ∷ ts) zero h = cc
get_elem?-map-address (t ∷ ts) (suc i) h = get_elem?-map-address ts i h

get_elem?-map-entry :
    (rs : List Row) (i : ℕ) {e : Text × ℕ}
    → get_elem? (map entry_of rs) i ≡ some e
    → (r : Row) × (get_elem? rs i ≡ some r) × (entry_of r ≡ e)
get_elem?-map-entry [] i h = cc
get_elem?-map-entry (t ∷ ts) zero h = (t, refl, cc)
get_elem?-map-entry (t ∷ ts) (suc i) h = get_elem?-map-entry ts i h

All-map-address :
    (n : ℕ) (rs : List Row) → All (λ r. n ≤ r.address) rs → All (λ m. n ≤ m) (map address_of rs)
All-map-address n [] h = tt
All-map-address n (r ∷ rs) h = (h.0, All-map-address n rs h.1)

IsSorted-map :
    (rs : List Row) → Pairwise (λ r s. r.address ≤ s.address) rs → IsSorted (map address_of rs)
IsSorted-map [] h = tt
IsSorted-map (r ∷ rs) h = (All-map-address r.address rs h.0, IsSorted-map rs h.1)

-- `r` is a row at or below the address, and no row lies between the two.
pub record IsNearest (rows : List Row) (address : ℕ) (r : Row) : Type 0 where
  pub member : IsIn r rows
  pub below : r.address ≤ address
  pub nearest : (t : Row) → IsIn t rows → (t.address ≤ r.address) ⊎ (address < t.address)

entry_at-suc :
    (es : List (Text × ℕ)) (n : ℕ) {e : Text × ℕ}
    → entry_at es n ≡ some e
    → (i : ℕ) × (n ≡ suc i) × (get_elem? es i ≡ some e)
unfolding entry_at
entry_at-suc es zero h = cc
entry_at-suc es (suc i) h = (i, refl, h)

row_apart :
    (a : ℕ) (rs : List Row) (i j : ℕ) {r t : Row}
    → Pairwise (λ r s. r.address ≤ s.address) rs
    → count_le a (map address_of rs) ≡ suc i
    → get_elem? rs i ≡ some r
    → get_elem? rs j ≡ some t
    → (t.address ≤ r.address) ⊎ (a < t.address)
row_apart a rs i j {r} {t} order n e f = elim (Bool-cases (j == i)) [
  | inl same ↦ let one : some t ≡ some r = cc (f, e, (==_iff j i).0 same) in inl (ground arith)
  | inr other ↦ elim (Bool-cases (ltb j i)) [
    | inl lt ↦
        inl (Pairwise-get_elem? (λ r s. r.address ≤ s.address) rs j i order (ground arith) f e)
    | inr ge ↦ inr (
        get_elem?-above a (map address_of rs) j (IsSorted-map rs order)
          (get_elem?-map-address rs j f) (ground arith))
  ]
]

-- A location found for an address is that of a nearest row of the line program: one at or below
-- the address, with no row between the two, in whatever order the rows were read.
pub lookup-IsNearest :
    (rows : List Row) (address : ℕ) {e : Text × ℕ}
    → lookup (table_of_rows rows) address ≡ some e
    → (r : Row) × IsNearest rows address r × ((r.name, r.line) ≡ e)
unfolding lookup table_of_rows
lookup-IsNearest rows a {e} h =
    let ordered = sorted_by row_order rows in
    let order =
      sorted_by_order row_order (λ r s. r.address ≤ s.address) rows (λ r s p. ground arith)
        (λ r s p. ground arith) (λ r s t p q. omega arith) in
    let sorted = IsSorted-map ordered order in
    let (i, n, found) = entry_at-suc (map entry_of ordered) _ h in
    let count = sym (bisect_right-count_le (map address_of ordered) a sorted) ∙ n in
    let (r, at, same) = get_elem?-map-entry ordered i found in
    (
      r,
      record {
        member = IsIn-sorted_by row_order r rows (get_elem?-IsIn ordered i at);
        below =
            get_elem?-below a (map address_of ordered) i sorted (get_elem?-map-address ordered i at)
              (omega arith);
        nearest = λ t m.
            let (j, at_j, _) = IsIn-get_elem? t ordered (sorted_by-IsIn row_order t rows m) in
            row_apart a ordered i j order count at at_j;
      },
      same,
    )
