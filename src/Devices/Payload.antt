-- ===== src/Devices/Payload.antt =====
-- backend/app/schemas/device.py: the checks on what a client sends about a device. `none` is the
-- `ValueError`.
use diagnosis_system.Prelude.{
  ℕ, ◌+◌, Bool, true, false, not, ◌&&◌, ◌||◌, Option, none, some, List, [], ◌∷◌, ◌++◌, Text,
  text_eq, strip, leb, ◌==◌, if◌then◌else◌, any,
}
use diagnosis_system.Auth.Security.{Platform}

abbrev is_small : ℕ → Bool
is_small c = leb 97 c && leb c 122

abbrev is_number : ℕ → Bool
is_number c = leb 48 c && leb c 57

abbrev is_alnum : ℕ → Bool
is_alnum c = is_number c || (leb 65 c && leb c 90) || is_small c

identifier_char : ℕ → Bool
identifier_char c = is_alnum c || c == b'.' || c == b'_' || c == b':' || c == b'-'

tag_char : ℕ → Bool
tag_char c = is_number c || is_small c || c == b' ' || c == b'.' || c == b'_' || c == b'-'

abbrev is_end : Text → Bool
is_end [] = true
is_end (c ∷ cs) = false

-- how many characters a repetition takes up to `$`, which also stands in front of a last newline
run_to_end : (ℕ → Bool) → Text → Option ℕ
run_to_end p [] = some 0
run_to_end p (c ∷ cs) = elim (p c) [
  | true ↦ elim (run_to_end p cs) [ none ↦ none | some n ↦ some (n + 1) ]
  | false ↦ if c == 10 && is_end cs then some 0 else none
]

abbrev counted : ℕ → ℕ → Option ℕ → Bool
counted least most none = false
counted least most (some n) = leb least n && leb n most

-- `_IDENTIFIER`
matches_identifier : Text → Bool
unfolding run_to_end identifier_char
matches_identifier [] = false
matches_identifier (c ∷ cs) = is_alnum c && counted 1 63 (run_to_end identifier_char cs)

-- `_TAG`
matches_tag : Text → Bool
unfolding run_to_end tag_char
matches_tag [] = false
matches_tag (c ∷ cs) = (is_number c || is_small c) && counted 0 49 (run_to_end tag_char cs)

-- `_validate_identifier`
unfoldable pub validate_identifier : Text → Option Text
unfolding matches_identifier strip
validate_identifier value =
    let stripped = strip value in if matches_identifier stripped then some stripped else none

module _ (p : Platform) where
  -- the loop of `normalize_tags`, with the tags so far
  tags_from : List Text → List Text → Option (List Text)
  unfolding matches_tag strip
  tags_from seen [] = some seen
  tags_from seen (raw ∷ rest) =
      let tag = p.lower (strip raw) in
      if not (is_end tag) && not (matches_tag tag)
      then none
      else tags_from (if is_end tag || any (text_eq tag) seen then seen else seen ++ (tag ∷ []))
          rest

  unfoldable pub normalize_tags : List Text → Option (List Text)
  unfolding tags_from
  normalize_tags value = tags_from [] value
