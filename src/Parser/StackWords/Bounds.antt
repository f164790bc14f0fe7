-- ===== src/Parser/StackWords/Bounds.antt =====
-- What `_parse_stack` stores.
use diagnosis_system.Prelude.{
  ℕ, ◌+◌, ◌≤◌, ◌≡◌, ◌≢◌, refl, subst, inl, inr, Option, none, some, List, [], ◌∷◌, arith, length,
  take, length-take, ltb, Bool-cases, Option-cases, All,
}
use diagnosis_system.Parser.Value.{Value, null, boolean, integer, float, text, array, object, items}
use diagnosis_system.Parser.Address.{parse_address, parse_address_bounds, max_address}
use diagnosis_system.Parser.StackWords.{
  max_stack_words, read_words, StackDump, dump_of, dump_of_tokens, stack_of_tokens, stack_of_words,
  stack_of_member, parse_stack, address_if, first_key, start_keys, word_keys,
}

read_words-All : (vs : List Value) → All (λ w. w ≤ max_address) (read_words vs).0
unfolding read_words
read_words-All [] = tt
read_words-All (v ∷ vs) = elim (Option-cases (parse_address v)) [
  | inl e ↦ rw (e, All, read_words) (read_words-All vs)
  | inr (a, e) ↦ rw (e, All, read_words) (parse_address_bounds v e, read_words-All vs)
]

-- Every word of a dump is read or counted as unusable.
pub read_words-length : (vs : List Value) → length (read_words vs).0 + (read_words vs).1 ≡ length vs
unfolding read_words
read_words-length [] = refl
read_words-length (v ∷ vs) = elim (Option-cases (parse_address v)) [
  | inl e ↦ rw (e, read_words) (omega (arith, read_words-length vs))
  | inr (a, e) ↦ rw (e, read_words) (omega (arith, read_words-length vs))
]

-- a dump that can be stored
pub record IsStorable (dump : StackDump) : Type 0 where
  pub some_words : dump.words ≢ []
  pub few_words : length dump.words ≤ max_stack_words
  pub in_space : All (λ w. w ≤ max_address) dump.words

abbrev Stored : Option StackDump → Type 0
Stored o = (dump : StackDump) → o ≡ some dump → IsStorable dump

nothing : Stored none
nothing dump e = cc

dump_of-Stored :
    (start : Option ℕ) (words : List ℕ)
    → length words ≤ max_stack_words
    → All (λ w. w ≤ max_address) words
    → Stored (dump_of start words)
unfolding dump_of
dump_of-Stored start [] short all dump e = cc
dump_of-Stored start (w ∷ ws) short all dump e =
    let made : StackDump = record { start_address = start; words = w ∷ ws } in
    let same : made ≡ dump = cc in
    subst IsStorable same (record { some_words = λ n. cc; few_words = short; in_space = all })

dump_of_tokens-Stored :
    (start : Option ℕ) (tokens : List Value)
    → length tokens ≤ max_stack_words
    → Stored (dump_of_tokens start tokens).0
unfolding dump_of_tokens
dump_of_tokens-Stored start tokens few =
    dump_of-Stored start (read_words tokens).0 (omega (arith, read_words-length tokens))
      (read_words-All tokens)

stack_of_tokens-Stored :
    (start : Option ℕ) (tokens : List Value) → Stored (stack_of_tokens start tokens).0
unfolding stack_of_tokens
stack_of_tokens-Stored start tokens = elim (Bool-cases (ltb max_stack_words (length tokens))) [
  | inl e ↦ rw e (
      dump_of_tokens-Stored start (take max_stack_words tokens)
        (length-take max_stack_words tokens))
  | inr e ↦ rw e (dump_of_tokens-Stored start tokens (ground arith))
]

stack_of_words-Stored : (start : Option ℕ) (v : Value) → Stored (stack_of_words start v).0
unfolding stack_of_words
stack_of_words-Stored start null = nothing
stack_of_words-Stored start (boolean b) = nothing
stack_of_words-Stored start (integer i) = nothing
stack_of_words-Stored start (float f) = nothing
stack_of_words-Stored start (text t) = stack_of_tokens-Stored start _
stack_of_words-Stored start (array vs) = stack_of_tokens-Stored start (items vs)
stack_of_words-Stored start (object m) = nothing

stack_of_member-Stored : (start : Option ℕ) (o : Option Value) → Stored (stack_of_member start o).0
unfolding stack_of_member
stack_of_member-Stored start none = nothing
stack_of_member-Stored start (some null) = nothing
stack_of_member-Stored start (some (boolean b)) = stack_of_words-Stored start (boolean b)
stack_of_member-Stored start (some (integer i)) = stack_of_words-Stored start (integer i)
stack_of_member-Stored start (some (float f)) = stack_of_words-Stored start (float f)
stack_of_member-Stored start (some (text t)) = stack_of_words-Stored start (text t)
stack_of_member-Stored start (some (array vs)) = stack_of_words-Stored start (array vs)
stack_of_member-Stored start (some (object m)) = stack_of_words-Stored start (object m)

-- A stack dump that is stored has at least one word and at most 4096, each a 32-bit address.
pub parse_stack-IsStorable :
    (o : Option Value) (dump : StackDump) → (parse_stack o).0 ≡ some dump → IsStorable dump
unfolding parse_stack
parse_stack-IsStorable none = nothing
parse_stack-IsStorable (some null) = nothing
parse_stack-IsStorable (some (boolean b)) = nothing
parse_stack-IsStorable (some (integer i)) = nothing
parse_stack-IsStorable (some (float f)) = nothing
parse_stack-IsStorable (some (text t)) = stack_of_words-Stored none (text t)
parse_stack-IsStorable (some (array vs)) = stack_of_words-Stored none (array vs)
parse_stack-IsStorable (some (object m)) =
    stack_of_member-Stored (address_if (first_key m start_keys)) (first_key m word_keys)
