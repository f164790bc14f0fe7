-- ===== src/Stack/Tests.antt =====
-- Runs of backend/app/services/stack_analyzer.py on a small stack.
use diagnosis_system.Prelude.{
  ℕ, ◌≡◌, refl, true, false, none, some, List, [], ◌∷◌, map, take, codes,
}
use diagnosis_system.Symbols.{Symbol, SectionRange, func}
use diagnosis_system.Symbolizer.{Artifact, new}
use diagnosis_system.Symbolizer.Caching.{new-IsReady, frame_of}
use diagnosis_system.Stack.{StackAnalysis, reconstruct_stack}
use diagnosis_system.Stack.Pushes.{collapse, pushes}
use diagnosis_system.Stack.Chain.{frames-reconstruct_stack}

-- an artifact with no line table
abbrev stripped : Artifact
stripped = record { is_file = false; contents = none }

abbrev symbols : List Symbol
symbols =
    (record { name = codes "fault"; address = 0x8000; size = 64; kind = func })
    ∷ (record { name = codes "main_task"; address = 0x8040; size = 64; kind = func })
    ∷ []

abbrev text : List SectionRange
text = (record { name = codes ".text"; start = 0x8000; size = 0x100; executable = true }) ∷ []

-- a return address twice, a number, and another return address
abbrev words : List ℕ
words = 0x8051 ∷ 0x8051 ∷ 0x1234 ∷ 0x8061 ∷ []

abbrev analysis : StackAnalysis
analysis =
    reconstruct_stack stripped words (new symbols true) text (some 0x8010) (some 0x8051) true 3

frames-reconstruct_stack_example :
    analysis.frames
    ≡ map
        (λ p. frame_of stripped (new symbols true) p.1 p.0)
        (take 3 (collapse none (pushes words text (some 0x8010) (some 0x8051) true)))
frames-reconstruct_stack_example =
    frames-reconstruct_stack stripped (new symbols true) words text (some 0x8010) (some 0x8051) true
      3 (new-IsReady stripped symbols true)

arm : (new symbols true).normalize_thumb ≡ true
unfolding new
arm = refl
