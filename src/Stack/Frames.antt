-- ===== src/Stack/Frames.antt =====
-- What holds of every reconstructed call chain: its length, its order, and where its stack frames
-- come from.
use diagnosis_system.Prelude.{
  ℕ, zero, suc, ◌≤◌, ◌≡◌, ◌≢◌, refl, sym, ap, ◌∙◌, Bool, true, false, inl, inr, Option, none, some,
  List, [], ◌∷◌, map, arith, Bool-cases, length, take, filter_keep, filter_drop, All, length-take,
}
use diagnosis_system.Symbols.{SectionRange, normalize_thumb_address, is_thumb_address}
use diagnosis_system.Symbolizer.{Artifact, Symbolizer, Origin, stack, ResolvedFrame}
use diagnosis_system.Symbolizer.Caching.{
  IsReady, fresh, frame_of, address-resolve, origin-resolve, thumb-resolve,
}
use diagnosis_system.Stack.Pushes.{Pushed, collapse, pushes, from_stack, return_addresses}
use diagnosis_system.Stack.Chain.{frames-reconstruct_stack}
use diagnosis_system.Stack.{same_as, looks_like_return_address, in_ranges, reconstruct_stack}

length-map : {A B : Type 0} (f : A → B) (xs : List A) → length (map f xs) ≡ length xs
length-map f [] = refl
length-map f (x ∷ xs) = ap suc (length-map f xs)

-- each element is related to the one just behind it
abbrev pub Adjacent : {A : Type 0} → (A → A → Type 0) → List A → Type 0
Adjacent R [] = Unit
Adjacent R (x ∷ []) = Unit
Adjacent R (x ∷ y ∷ ys) = R x y × Adjacent R (y ∷ ys)

abbrev Differ : Pushed → Pushed → Type 0
Differ p q = normalize_thumb_address p.0 ≢ normalize_thumb_address q.0

-- the head of what is kept differs from what was seen before
abbrev HeadDiffers : Option ℕ → List Pushed → Type 0
HeadDiffers seen [] = Unit
HeadDiffers seen (p ∷ ps) = same_as seen (normalize_thumb_address p.0) ≡ false

Adjacent-cons :
    (a : ℕ) (o : Origin) (ps : List Pushed)
    → HeadDiffers (some (normalize_thumb_address a)) ps
    → Adjacent Differ ps
    → Adjacent Differ ((a, o) ∷ ps)
Adjacent-cons a o [] h d = tt
Adjacent-cons a o (p ∷ ps) h d = ((λ e. ground arith), d)

collapse-Adjacent :
    (seen : Option ℕ) (ps : List Pushed)
    → HeadDiffers seen (collapse seen ps) × Adjacent Differ (collapse seen ps)
collapse-Adjacent seen [] = (tt, tt)
collapse-Adjacent seen ((a, o) ∷ ps) =
    elim (Bool-cases (same_as seen (normalize_thumb_address a))) [
      | inl e ↦ rw (e, collapse) (collapse-Adjacent seen ps)
      | inr e ↦
          let (h, d) = collapse-Adjacent (some (normalize_thumb_address a)) ps in
          rw (e, collapse) (e, Adjacent-cons a o _ h d)
    ]

Adjacent-take :
    {A : Type 0} (R : A → A → Type 0) (n : ℕ) (xs : List A) → Adjacent R xs → Adjacent R (take n xs)
Adjacent-take R zero xs h = tt
Adjacent-take R (suc n) [] h = tt
Adjacent-take R (suc zero) (x ∷ xs) h = tt
Adjacent-take R (suc (suc n)) (x ∷ []) h = tt
Adjacent-take R (suc (suc n)) (x ∷ y ∷ ys) h = (h.0, Adjacent-take R (suc n) (y ∷ ys) h.1)

Adjacent-map :
    {A B : Type 0} (R : A → A → Type 0) (S : B → B → Type 0) (f : A → B)
    → ((x y : A) → R x y → S (f x) (f y))
    → (xs : List A) → Adjacent R xs
    → Adjacent S (map f xs)
Adjacent-map R S f g [] h = tt
Adjacent-map R S f g (x ∷ []) h = tt
Adjacent-map R S f g (x ∷ y ∷ ys) h = (g x y h.0, Adjacent-map R S f g (y ∷ ys) h.1)

All-take : {A : Type 0} (P : A → Type 0) (n : ℕ) (xs : List A) → All P xs → All P (take n xs)
All-take P zero xs h = tt
All-take P (suc n) [] h = tt
All-take P (suc n) (x ∷ xs) h = (h.0, All-take P n xs h.1)

All_mapped :
    {A B : Type 0} (P : A → Type 0) (Q : B → Type 0) (f : A → B)
    → ((x : A) → P x → Q (f x))
    → (xs : List A) → All P xs
    → All Q (map f xs)
All_mapped P Q f g [] h = tt
All_mapped P Q f g (x ∷ xs) h = (g x h.0, All_mapped P Q f g xs h.1)

All-collapse :
    (P : Pushed → Type 0) (seen : Option ℕ) (ps : List Pushed) → All P ps → All P (collapse seen ps)
All-collapse P seen [] h = tt
All-collapse P seen ((a, o) ∷ ps) h = elim (Bool-cases (same_as seen (normalize_thumb_address a))) [
  | inl e ↦ rw (e, collapse) (All-collapse P seen ps h.1)
  | inr e ↦ rw (e, collapse) (h.0, All-collapse P (some (normalize_thumb_address a)) ps h.1)
]

-- a pushed address from the stack passed the test
abbrev Plausible : List SectionRange → Bool → Pushed → Type 0
Plausible ranges thumb p = p.1 ≡ stack → looks_like_return_address p.0 ranges thumb ≡ true

-- a stack frame at a nonzero address in one of the ranges, from a word with the Thumb bit if that
-- is asked for
abbrev pub Placed : List SectionRange → Bool → ResolvedFrame → Type 0
Placed ranges thumb f =
    f.origin ≡ stack
    → (in_ranges f.address ranges ≡ true) × (f.address ≢ 0) × (thumb ≡ true → f.thumb ≡ true)

looks_like_return_address_lem :
    (w : ℕ) (ranges : List SectionRange) (thumb : Bool)
    → looks_like_return_address w ranges thumb ≡ true
    → (in_ranges (normalize_thumb_address w) ranges ≡ true)
      × (normalize_thumb_address w ≢ 0)
      × (thumb ≡ true → is_thumb_address w ≡ true)
unfolding looks_like_return_address
looks_like_return_address_lem w ranges thumb h = (ground arith, ground arith, λ t. ground arith)

from_stack-Plausible :
    (ranges : List SectionRange) (thumb : Bool) (ws : List ℕ)
    → All (Plausible ranges thumb) (from_stack (return_addresses ranges thumb ws))
from_stack-Plausible ranges thumb [] = tt
from_stack-Plausible ranges thumb (w ∷ ws) =
    elim (Bool-cases (looks_like_return_address w ranges thumb)) [
      | inl e ↦
          rw (filter_keep (λ v. looks_like_return_address v ranges thumb) w ws e)
            ((λ _. e), from_stack-Plausible ranges thumb ws)
      | inr e ↦
          rw (filter_drop (λ v. looks_like_return_address v ranges thumb) w ws e)
            (from_stack-Plausible ranges thumb ws)
    ]

pushes-Plausible :
    (words : List ℕ) (ranges : List SectionRange) (a b : Option ℕ) (thumb : Bool)
    → All (Plausible ranges thumb) (pushes words ranges a b thumb)
pushes-Plausible words ranges none none thumb = from_stack-Plausible ranges thumb words
pushes-Plausible words ranges (some a) none thumb =
    ((λ e. cc), from_stack-Plausible ranges thumb words)
pushes-Plausible words ranges none (some b) thumb =
    ((λ e. cc), from_stack-Plausible ranges thumb words)
pushes-Plausible words ranges (some a) (some b) thumb =
    ((λ e. cc), ((λ e. cc), from_stack-Plausible ranges thumb words))

module _ (file : Artifact) (s : Symbolizer) (words : List ℕ) (ranges : List SectionRange)
    (program_counter link_register : Option ℕ) (thumb : Bool) (max_frames : ℕ)
    (ready : IsReady file s) where
  abbrev frames : List ResolvedFrame
  frames =
      (reconstruct_stack file words s ranges program_counter link_register thumb max_frames).frames

  abbrev chain : List Pushed
  chain = collapse none (pushes words ranges program_counter link_register thumb)

  equation : frames ≡ map (λ p. frame_of file s p.1 p.0) (take max_frames chain)
  equation =
      frames-reconstruct_stack file s words ranges program_counter link_register thumb max_frames
        ready

  arm_address :
      s.normalize_thumb ≡ true
      → (p : Pushed) → (frame_of file s p.1 p.0).address ≡ normalize_thumb_address p.0
  arm_address arm p = address-resolve file (fresh s) p.0 p.1 ∙ rw arm

  arm_frame :
      s.normalize_thumb ≡ true
      → (p : Pushed) → Plausible ranges thumb p
      → Placed ranges thumb (frame_of file s p.1 p.0)
  arm_frame arm p h o =
      let passed = h (sym (origin-resolve file (fresh s) p.0 p.1) ∙ o) in
      rw (arm_address arm p, thumb-resolve file (fresh s) p.0 p.1)
        (looks_like_return_address_lem p.0 ranges thumb passed)

  -- The chain has at most `max_frames` frames.
  pub length-frames : length frames ≤ max_frames
  length-frames = rw (equation, length-map) (length-take max_frames chain)

  -- On an ARM build no two adjacent frames are at one instruction address.
  pub frames_differ : s.normalize_thumb ≡ true → Adjacent (λ f g. f.address ≢ g.address) frames
  frames_differ arm = rw equation (
      Adjacent-map Differ (λ f g. f.address ≢ g.address) (λ p. frame_of file s p.1 p.0)
        (λ p q d e. d (sym (arm_address arm p) ∙ e ∙ arm_address arm q)) (take max_frames chain)
        (Adjacent-take Differ max_frames chain
          (collapse-Adjacent none (pushes words ranges program_counter link_register thumb)).1))

  -- Every frame taken from the stack is, on an ARM build, at a nonzero instruction address that
  -- lies in one of the executable ranges, where there are any.
  pub stack_frames_in_ranges : s.normalize_thumb ≡ true → All (Placed ranges thumb) frames
  stack_frames_in_ranges arm = rw equation (
      All_mapped (Plausible ranges thumb) (Placed ranges thumb) (λ p. frame_of file s p.1 p.0)
        (arm_frame arm) (take max_frames chain)
        (All-take (Plausible ranges thumb) max_frames chain (
          All-collapse (Plausible ranges thumb) none
            (pushes words ranges program_counter link_register thumb)
            (pushes-Plausible words ranges program_counter link_register thumb))))
