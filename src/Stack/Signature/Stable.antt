-- ===== src/Stack/Signature/Stable.antt =====
-- Which crashes share a signature.
use diagnosis_system.Prelude.{ℕ, ◌≡◌, ◌≢◌, refl, Option, none, List, [], ◌∷◌, Text, take}
use diagnosis_system.Symbolizer.{ResolvedFrame}
use diagnosis_system.Stack.Signature.{locate, build_signature}
use diagnosis_system.Stack.Signature.Names.{names, distinct, at_least_one, collect_lem}

-- the part of a call chain that a signature of this depth reads
abbrev pub top_names : ℕ → List ResolvedFrame → List Text
top_names depth fs = take (at_least_one depth) (distinct none (names fs))

locate_named :
    (ts : List Text) (c c' : Option ℕ) (v v' : Option Text)
    → ts ≢ []
    → locate ts c v ≡ locate ts c' v'
unfolding locate
locate_named [] c c' v v' h = absurd (h refl)
locate_named (t ∷ ts) c c' v v' h = refl

-- Two crashes with the same fault type and task and the same top function names, at least one, have
-- the same signature and the same components, whatever their addresses, program counters and
-- firmware versions, and whatever lies deeper in their chains.
pub build_signature_stable :
    (digest : Text → Text) (fault_type : Text) (task_name : Option Text) (depth : ℕ)
    (fs gs : List ResolvedFrame) (c c' : Option ℕ) (v v' : Option Text)
    → top_names depth fs ≢ []
    → top_names depth fs ≡ top_names depth gs
    → build_signature digest fault_type task_name fs c v depth
      ≡ build_signature digest fault_type task_name gs c' v' depth
unfolding build_signature
build_signature_stable digest fault_type task_name depth fs gs c c' v v' named same = rw (
  collect_lem depth fs,
  collect_lem depth gs,
  ← same,
  locate_named (top_names depth fs) c c' v v' named,
)
