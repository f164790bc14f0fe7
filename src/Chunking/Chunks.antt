-- ===== src/Chunking/Chunks.antt =====
-- What adding a chunk keeps: the numbering, the size, and what the chunks cover.
use diagnosis_system.Prelude.{
  ℕ, zero, suc, ◌+◌, ◌-◌, ◌≤◌, ◌<◌, ◌≡◌, ◌≢◌, refl, sym, ap, ◌∙◌, inl, inr, false, some, List, [],
  ◌∷◌, ◌++◌, map, arith, Text, ltb, Bool-cases, length, take, drop, All, IsIn, get_elem?, is_space,
  strip, length-strip, strip-IsIn, sub-zero,
}
use diagnosis_system.Chunking.{Chunk, slice, append_content, add_chunk}

-- the chunks are numbered from `n` on
abbrev pub NumberedFrom : ℕ → List Chunk → Type 0
NumberedFrom n [] = Unit
NumberedFrom n (c ∷ cs) = (c.index ≡ n) × NumberedFrom (n + 1) cs

abbrev pub Fits : ℕ → Chunk → Type 0
Fits size c = (c.content ≢ []) × (length c.content ≤ size)

pub NumberedFrom-append :
    (n : ℕ) (cs : List Chunk) (c : Chunk)
    → NumberedFrom n cs
    → c.index ≡ n + length cs
    → NumberedFrom n (cs ++ (c ∷ []))
NumberedFrom-append n [] c h e = (omega arith, tt)
NumberedFrom-append n (d ∷ ds) c h e = (h.0, NumberedFrom-append (n + 1) ds c h.1 (omega arith))

All-append :
    (P : Chunk → Type 0) (cs : List Chunk) (c : Chunk) → All P cs → P c → All P (cs ++ (c ∷ []))
All-append P [] c h p = (p, tt)
All-append P (d ∷ ds) c h p = (h.0, All-append P ds c h.1 p)

IsIn-append :
    (x : Text) (cs : List Chunk) (c : Chunk)
    → IsIn x (map (λ d. d.content) cs)
    → IsIn x (map (λ d. d.content) (cs ++ (c ∷ [])))
IsIn-append x [] c h = absurd h
IsIn-append x (d ∷ ds) c (inl e) = inl e
IsIn-append x (d ∷ ds) c (inr h) = inr (IsIn-append x ds c h)

IsIn-append_new :
    (cs : List Chunk) (c : Chunk) → IsIn c.content (map (λ d. d.content) (cs ++ (c ∷ [])))
IsIn-append_new [] c = inl refl
IsIn-append_new (d ∷ ds) c = inr (IsIn-append_new ds c)

-- chunks numbered in order, each with a content that is not empty and not longer than the size
pub record AreChunks (size : ℕ) (chunks : List Chunk) : Type 0 where
  pub numbered : NumberedFrom 0 chunks
  pub fitting : All (Fits size) chunks

append_content-AreChunks :
    (size : ℕ) (chunks : List Chunk) (t : Text)
    → length t ≤ size
    → AreChunks size chunks
    → AreChunks size (append_content chunks t)
unfolding append_content
append_content-AreChunks size chunks [] h a = a
append_content-AreChunks size chunks (c ∷ cs) h a = record {
  numbered = NumberedFrom-append 0 chunks _ a.numbered (omega arith);
  fitting = All-append (Fits size) chunks _ a.fitting ((λ e. cc), h);
}

pub add_chunk-AreChunks :
    (size : ℕ) (chunks : List Chunk) (window : Text)
    → length window ≤ size
    → AreChunks size chunks
    → AreChunks size (add_chunk chunks window)
unfolding add_chunk
add_chunk-AreChunks size chunks window h =
    append_content-AreChunks size chunks (strip window) (omega (arith, length-strip window))

-- One of the chunks is the stripped text of a window that holds position `i`.
pub record IsCovered (text : Text) (chunks : List Chunk) (i : ℕ) : Type 0 where
  pub from : ℕ
  pub to : ℕ
  pub after : from ≤ i
  pub before : i < to
  pub inside : to ≤ length text
  pub kept : IsIn (strip (slice from to text)) (map (λ c. c.content) chunks)

append_content-keeps :
    (x t : Text) (chunks : List Chunk)
    → IsIn x (map (λ c. c.content) chunks)
    → IsIn x (map (λ c. c.content) (append_content chunks t))
unfolding append_content
append_content-keeps x [] chunks h = h
append_content-keeps x (c ∷ cs) chunks h = IsIn-append x chunks _ h

append_content-adds :
    (t : Text) (chunks : List Chunk)
    → t ≢ []
    → IsIn t (map (λ c. c.content) (append_content chunks t))
unfolding append_content
append_content-adds [] chunks h = absurd (h refl)
append_content-adds (c ∷ cs) chunks h = IsIn-append_new chunks _

get_elem?-take : (n i : ℕ) (t : Text) (c : ℕ) → i < n → get_elem? t i ≡ some c → IsIn c (take n t)
get_elem?-take zero i t c h e = absurd (omega arith)
get_elem?-take (suc n) i [] c h e = cc
get_elem?-take (suc n) zero (d ∷ ds) c h e = inl (cc)
get_elem?-take (suc n) (suc i) (d ∷ ds) c h e = inr (get_elem?-take n i ds c (omega arith) e)

get_elem?-drop : (n i : ℕ) (t : Text) → n ≤ i → get_elem? (drop n t) (i - n) ≡ get_elem? t i
get_elem?-drop zero i t h = ap (get_elem? t) (sub-zero i)
get_elem?-drop (suc n) i [] h = refl
get_elem?-drop (suc n) zero (d ∷ ds) h = absurd (omega arith)
get_elem?-drop (suc n) (suc i) (d ∷ ds) h =
    let same : suc i - suc n ≡ i - n = omega arith in rw same (get_elem?-drop n i ds (omega arith))

get_elem?-slice :
    (s e i : ℕ) (t : Text) (c : ℕ) → s ≤ i → i < e → get_elem? t i ≡ some c → IsIn c (slice s e t)
get_elem?-slice s e i t c h k g =
    get_elem?-take (e - s) (i - s) (drop s t) c (omega arith) (get_elem?-drop s i t h ∙ g)

IsIn-ne_nil : (c : ℕ) (t : Text) → IsIn c t → t ≢ []
IsIn-ne_nil c [] h e = h
IsIn-ne_nil c (d ∷ ds) h e = cc

-- every character before `s` that is not space is covered
abbrev pub CoveredTo : Text → ℕ → List Chunk → Type 0
CoveredTo text s chunks =
    (i c : ℕ) → i < s → get_elem? text i ≡ some c → is_space c ≡ false → IsCovered text chunks i

pub add_chunk-CoveredTo :
    (text : Text) (start end : ℕ) (chunks : List Chunk)
    → end ≤ length text
    → CoveredTo text start chunks
    → CoveredTo text end (add_chunk chunks (slice start end text))
unfolding add_chunk
add_chunk-CoveredTo text start end chunks le old i c lt g dark = elim (Bool-cases (ltb i start)) [
  | inl before ↦
      let was = old i c (ground arith) g dark in
      record {
        from = was.from;
        to = was.to;
        after = was.after;
        before = was.before;
        inside = was.inside;
        kept = append_content-keeps _ (strip (slice start end text)) chunks was.kept;
      }
  | inr since ↦
      let held = get_elem?-slice start end i text c (ground arith) lt g in
      record {
        from = start;
        to = end;
        after = ground arith;
        before = lt;
        inside = le;
        kept = append_content-adds (strip (slice start end text)) chunks (
            IsIn-ne_nil c (strip (slice start end text))
              (strip-IsIn c dark (slice start end text) held));
      }
]

take_all : (n : ℕ) (t : Text) → length t ≤ n → take n t ≡ t
take_all zero [] h = refl
take_all zero (c ∷ cs) h = absurd (omega arith)
take_all (suc n) [] h = refl
take_all (suc n) (c ∷ cs) h = ap (◌∷◌ c) (take_all n cs (omega arith))

slice_whole : (t : Text) → slice 0 (length t) t ≡ t
slice_whole t = take_all (length t - 0) t (omega arith)

-- the one chunk of a short text
pub whole-CoveredTo :
    (t : Text) (c : Chunk) → c.content ≡ t → strip t ≡ t → CoveredTo t (length t) (c ∷ [])
whole-CoveredTo t c e s i x lt g dark = record {
  from = 0;
  to = length t;
  after = omega arith;
  before = lt;
  inside = omega arith;
  kept = inl (rw slice_whole (s ∙ sym e));
}
