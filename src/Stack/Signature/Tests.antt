-- ===== src/Stack/Signature/Tests.antt =====
-- Signatures of one crash in two builds.
use diagnosis_system.Prelude.{
  ℕ, ◌≡◌, refl, sym, ◌∙◌, true, false, none, some, List, [], ◌∷◌, Text, codes, is_space,
}
use diagnosis_system.Symbolizer.{ResolvedFrame, stack}
use diagnosis_system.Stack.Signature.{frame_name, build_signature}
use diagnosis_system.Stack.Signature.Stable.{top_names, build_signature_stable}

abbrev frame_in : Text → ℕ → ResolvedFrame
frame_in name address = record {
  address = address;
  origin = stack;
  function = some name;
  offset = none;
  source_file = none;
  line = none;
  resolved = true;
  thumb = false;
  inlined = false;
}

-- two builds of one crash
abbrev old_frames : List ResolvedFrame
old_frames = frame_in (codes "fault") 0x8010 ∷ frame_in (codes "main_task") 0x8050 ∷ []

abbrev new_frames : List ResolvedFrame
new_frames = frame_in (codes "fault.isra.0") 0x9010 ∷ frame_in (codes "main_task") 0x9050 ∷ []

old_names : top_names 5 old_frames ≡ codes "fault" ∷ codes "main_task" ∷ []
unfolding frame_name is_space
old_names = refl

new_names : top_names 5 new_frames ≡ codes "fault" ∷ codes "main_task" ∷ []
unfolding frame_name is_space
new_names = refl

build_signature_stable_example :
    build_signature
      (λ t. t)
      (codes "hard_fault")
      none
      old_frames
      (some 0x8010)
      (some (codes "1.0"))
      5
    ≡ build_signature
        (λ t. t)
        (codes "hard_fault")
        none
        new_frames
        (some 0x9010)
        (some (codes "1.1"))
        5
build_signature_stable_example =
    build_signature_stable (λ t. t) (codes "hard_fault") none 5 old_frames new_frames (some 0x8010)
      (some 0x9010) (some (codes "1.0")) (some (codes "1.1")) (λ e. cc (sym old_names ∙ e))
      (old_names ∙ sym new_names)
