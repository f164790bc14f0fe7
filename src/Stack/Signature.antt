-- ===== src/Stack/Signature.antt =====
-- backend/app/services/stack_analyzer.py: `normalize_function_name`, `build_signature` and
-- `build_title`. SHA-256 in hexadecimal is the parameter `digest`.
pub mod Names
pub mod Stable
mod Tests
use diagnosis_system.Prelude.{
  ℕ, zero, suc, Bool, true, false, not, ◌&&◌, ◌||◌, Option, none, some, List, [], ◌∷◌, ◌++◌, map,
  Text, codes, text_eq, strip, is_decimal, decimal, join, after_prefix, leb, ◌==◌, if◌then◌else◌,
  length, take, any,
}
use diagnosis_system.Symbolizer.{ResolvedFrame}

abbrev clone_words : List Text
clone_words =
    codes "constprop"
    ∷ codes "isra"
    ∷ codes "part"
    ∷ codes "cold"
    ∷ codes "lto_priv"
    ∷ codes "clone"
    ∷ []

-- `\d*$`
only_digits : Text → Bool
only_digits [] = true
only_digits (c ∷ cs) = is_decimal c && only_digits cs

-- `\.?\d*$`
dot_and_digits : Text → Bool
unfolding only_digits
dot_and_digits [] = true
dot_and_digits (c ∷ cs) = if c == b'.' then only_digits cs else only_digits (c ∷ cs)

ends_clone : Option Text → Bool
unfolding dot_and_digits
ends_clone none = false
ends_clone (some rest) = dot_and_digits rest

-- `_CLONE_SUFFIX` from this place to the end
is_clone_suffix : Text → Bool
unfolding ends_clone
is_clone_suffix [] = false
is_clone_suffix (c ∷ cs) = c == b'.' && any (λ w. ends_clone (after_prefix w cs)) clone_words

-- `_CLONE_SUFFIX.sub("", text)`: the match furthest to the left runs to the end
cut_clone_suffix : Text → Text
unfolding is_clone_suffix
cut_clone_suffix [] = []
cut_clone_suffix (c ∷ cs) = elim (is_clone_suffix (c ∷ cs)) [
  | true ↦ []
  | false ↦ c ∷ cut_clone_suffix cs
]

unfoldable pub normalize_function_name : Text → Text
unfolding cut_clone_suffix strip is_decimal
normalize_function_name name = cut_clone_suffix (strip name)

-- the name of a frame with `frame.resolved and frame.function`
name_if : Bool → Option Text → Option Text
unfolding normalize_function_name
name_if true (some (c ∷ cs)) = some (normalize_function_name (c ∷ cs))
name_if _ _ = none

unfoldable pub frame_name : ResolvedFrame → Option Text
unfolding name_if
frame_name f = name_if f.resolved f.function

-- `resolved and resolved[-1] == name`
last_is : List Text → Text → Bool
last_is [] name = false
last_is (t ∷ []) name = text_eq t name
last_is (t ∷ u ∷ us) name = last_is (u ∷ us) name

-- the loop of `build_signature`, with its `continue`s and its `break`
pub collect : ℕ → List Text → List ResolvedFrame → List Text
collect depth resolved [] = resolved
collect depth resolved (f ∷ fs) = elim (frame_name f) [
  | none ↦ collect depth resolved fs
  | some name ↦ elim (last_is resolved name) [
    | true ↦ collect depth resolved fs
    | false ↦ elim (leb depth (length (resolved ++ (name ∷ [])))) [
      | true ↦ resolved ++ (name ∷ [])
      | false ↦ collect depth (resolved ++ (name ∷ [])) fs
    ]
  ]
]

-- what the signature was made of
pub data Location : Type 0 where
  frames : List Text → Location
  raw : Option ℕ → Text → Location

pub record Components : Type 0 where
  pub version : Text
  pub fault_type : Text
  pub task_name : Text
  pub symbolized : Bool
  pub location : Location

abbrev pub signature_version : Text
signature_version = codes "v1"

abbrev pub signature_frame_depth : ℕ
signature_frame_depth = 5

-- `text or ""`
abbrev pub or_empty : Option Text → Text
or_empty none = []
or_empty (some t) = t

abbrev show_counter : Option ℕ → Text
show_counter none = codes "None"
show_counter (some n) = decimal n

locate : List Text → Option ℕ → Option Text → Location
locate [] program_counter firmware_version = raw program_counter (or_empty firmware_version)
locate (t ∷ ts) program_counter firmware_version = frames (t ∷ ts)

location_text : Location → Text
unfolding decimal
location_text (frames names) = join (codes ">") names
location_text (raw program_counter firmware_version) =
    codes "pc=" ++ (show_counter program_counter ++ (codes "&fw=" ++ firmware_version))

is_symbolized : Location → Bool
is_symbolized (frames names) = true
is_symbolized (raw program_counter firmware_version) = false

module _ (digest : Text → Text) where
  pub build_signature :
      Text → Option Text → List ResolvedFrame → Option ℕ → Option Text → ℕ → Text × Components
  unfolding collect locate location_text is_symbolized
  build_signature fault_type task_name frames' program_counter firmware_version depth =
      let location = locate (collect depth [] frames') program_counter firmware_version in
      let payload =
        join (codes "|")
          (signature_version ∷ fault_type ∷ or_empty task_name ∷ location_text location ∷ []) in
      (
        take 32 (digest payload),
        record {
          version = signature_version;
          fault_type = fault_type;
          task_name = or_empty task_name;
          symbolized = is_symbolized location;
          location = location;
        },
      )

-- `fault_type.replace("_", " ")`
abbrev label_of : Text → Text
label_of = map (λ c. if c == b'_' then b' ' else c)

title_for_task : Text → Option Text → Text
title_for_task label none = label
title_for_task label (some []) = label
title_for_task label (some (c ∷ cs)) = label ++ (codes " in task " ++ (c ∷ cs))

pub first_name : List ResolvedFrame → Option Text
unfolding frame_name
first_name [] = none
first_name (f ∷ fs) = elim (frame_name f) [ none ↦ first_name fs | some name ↦ some name ]

title_from : Text → Option Text → Option Text → Text
unfolding title_for_task
title_from label none task_name = title_for_task label task_name
title_from label (some name) task_name = label ++ (codes " in " ++ name)

pub build_title : Text → List ResolvedFrame → Option Text → Text
unfolding first_name title_from
build_title fault_type frames' task_name =
    title_from (label_of fault_type) (first_name frames') task_name
