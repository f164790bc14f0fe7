-- ===== src/Stack/Pushes.antt =====
-- The call chain without a loop: the addresses pushed, and adjacent repeats dropped.
use diagnosis_system.Prelude.{
  ℕ, ◌≡◌, Bool, true, false, Option, none, some, List, [], ◌∷◌, ◌++◌, map, filter,
}
use diagnosis_system.Symbols.{SectionRange, normalize_thumb_address}
use diagnosis_system.Symbolizer.{Origin, pc, lr, stack}
use diagnosis_system.Stack.{same_as, looks_like_return_address}

-- an address with where it came from
abbrev pub Pushed : Type 0
Pushed = ℕ × Origin

-- drops each address that is the same instruction address as the one pushed just before it
abbrev pub collapse : Option ℕ → List Pushed → List Pushed
collapse seen [] = []
collapse seen ((a, o) ∷ rest) = elim (same_as seen (normalize_thumb_address a)) [
  | true ↦ collapse seen rest
  | false ↦ (a, o) ∷ collapse (some (normalize_thumb_address a)) rest
]

pub collapse_drop :
    (seen : Option ℕ) (a : ℕ) (o : Origin) (rest : List Pushed)
    → same_as seen (normalize_thumb_address a) ≡ true
    → collapse seen ((a, o) ∷ rest) ≡ collapse seen rest
collapse_drop seen a o rest h = rw (h, collapse)

pub collapse_keep :
    (seen : Option ℕ) (a : ℕ) (o : Origin) (rest : List Pushed)
    → same_as seen (normalize_thumb_address a) ≡ false
    → collapse seen ((a, o) ∷ rest) ≡ (a, o) ∷ collapse (some (normalize_thumb_address a)) rest
collapse_keep seen a o rest h = rw (h, collapse)

abbrev pub register : Option ℕ → Origin → List Pushed
register none o = []
register (some a) o = (a, o) ∷ []

abbrev pub from_stack : List ℕ → List Pushed
from_stack = map (λ w. (w, stack))

abbrev pub return_addresses : List SectionRange → Bool → List ℕ → List ℕ
return_addresses ranges thumb = filter (λ w. looks_like_return_address w ranges thumb)

-- PC, LR, and the stack words that could be return addresses, in stack order
abbrev pub pushes : List ℕ → List SectionRange → Option ℕ → Option ℕ → Bool → List Pushed
pushes words ranges program_counter link_register thumb =
    register program_counter pc
    ++ (register link_register lr ++ from_stack (return_addresses ranges thumb words))
