-- ===== src/Parser/StackWords.antt =====
-- backend/app/services/crash_parser.py: stack dumps.
pub mod Bounds
use diagnosis_system.Prelude.{
  ℕ, zero, suc, ◌+◌, ◌*◌, ◌-◌, Bool, true, false, not, ◌&&◌, ◌||◌, Option, none, some, List, [],
  ◌∷◌, ◌++◌, Text, codes, text_eq, strip, is_space, decimal, ltb, leb, ◌==◌, if◌then◌else◌, length,
  take, any, sorted_by, text_before,
}
use diagnosis_system.Parser.Value.{
  Value, Values, null, boolean, integer, float, text, array, object, Members, items, pairs, get,
  Warning, registers_truncated, registers_unexpected, registers_ignored, stack_without_words,
  stack_unexpected, stack_truncated, stack_skipped,
}
use diagnosis_system.Parser.Address.{parse_address}
use diagnosis_system.Parser.Fault.{squash}
use diagnosis_system.Parser.Value.{warn}

abbrev pub max_stack_words : ℕ
max_stack_words = 4096

pub record StackDump : Type 0 where
  pub start_address : Option ℕ
  pub words : List ℕ

-- the first of the keys that is there, whatever its value
first_key : Members → List Text → Option Value
first_key m [] = none
first_key m (key ∷ rest) = elim (get m key) [ none ↦ first_key m rest | some v ↦ some v ]

is_separator : ℕ → Bool
unfolding is_space
is_separator c = is_space c || c == b',' || c == b';'

abbrev with_token : Text → List Text → List Text
with_token [] tokens = tokens
with_token (c ∷ cs) tokens = tokens ++ ((c ∷ cs) ∷ [])

-- `[tok for tok in _SPLIT.split(raw_words.strip()) if tok]`, with the token that is being read
split_words : Text → List Text → Text → List Text
unfolding is_separator
split_words token tokens [] = with_token token tokens
split_words token tokens (c ∷ cs) =
    split_words (if is_separator c then [] else token ++ (c ∷ []))
      (if is_separator c then with_token token tokens else tokens) cs

as_texts : List Text → List Value
as_texts [] = []
as_texts (t ∷ ts) = text t ∷ as_texts ts

-- the loop over the tokens: the words and the number of those that are not addresses
unfoldable pub read_words : List Value → List ℕ × ℕ
read_words [] = ([], 0)
read_words (v ∷ vs) =
    let (words, unusable) = read_words vs in
    elim (parse_address v) [
      | none ↦ (words, unusable + 1)
      | some address ↦ (address ∷ words, unusable)
    ]

skipped_words : ℕ → List Warning
skipped_words zero = []
skipped_words (suc n) = stack_skipped (suc n) ∷ []

dump_of : Option ℕ → List ℕ → Option StackDump
dump_of start [] = none
dump_of start (w ∷ ws) = some (record { start_address = start; words = w ∷ ws })

dump_of_tokens : Option ℕ → List Value → Option StackDump × List Warning
unfolding read_words skipped_words dump_of
dump_of_tokens start tokens =
    let (words, unusable) = read_words tokens in (dump_of start words, skipped_words unusable)

stack_of_tokens : Option ℕ → List Value → Option StackDump × List Warning
unfolding dump_of_tokens
stack_of_tokens start tokens =
    if ltb max_stack_words (length tokens)
    then warn (stack_truncated (length tokens)) (dump_of_tokens start (take max_stack_words tokens))
    else dump_of_tokens start tokens

-- the words of a dump: a text, an array, or something else
stack_of_words : Option ℕ → Value → Option StackDump × List Warning
unfolding stack_of_tokens split_words as_texts strip
stack_of_words start (text t) = stack_of_tokens start (as_texts (split_words [] [] (strip t)))
stack_of_words start (array vs) = stack_of_tokens start (items vs)
stack_of_words start _ = (none, stack_unexpected ∷ [])

stack_of_member : Option ℕ → Option Value → Option StackDump × List Warning
unfolding stack_of_words
stack_of_member start none = (none, stack_without_words ∷ [])
stack_of_member start (some null) = (none, stack_without_words ∷ [])
stack_of_member start (some v) = stack_of_words start v

abbrev address_if : Option Value → Option ℕ
address_if none = none
address_if (some v) = parse_address v

abbrev start_keys : List Text
start_keys =
    codes "start_address" ∷ codes "startAddress" ∷ codes "address" ∷ codes "base" ∷ codes "sp" ∷ []

abbrev word_keys : List Text
word_keys = codes "words" ∷ codes "data" ∷ codes "stack" ∷ codes "values" ∷ codes "dump" ∷ []

-- `_parse_stack`
unfoldable pub parse_stack : Option Value → Option StackDump × List Warning
unfolding stack_of_words stack_of_member first_key
parse_stack none = (none, [])
parse_stack (some (object m)) =
    stack_of_member (address_if (first_key m start_keys)) (first_key m word_keys)
parse_stack (some v) = stack_of_words none v
