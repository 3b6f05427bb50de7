-- ===== src/Cli/Samples.antt =====
-- A stand-in for the parser in the examples: the same result for every command line.
use rechnernetze.Base.{
  ℕ, ◌<◌, ◌^◌, ◌≡◌, ◌∙◌, ap, false, List, [], ◌∷◌, Option, none, some, ℤ, arith, bytes_eq,
  if◌then◌else◌,
}
use rechnernetze.Process.{Bytes}
use rechnernetze.Cli.{ParseResult, Parser}

-- Values by the names of their options.
abbrev pub value_of {ℓ} : {A : Type ℓ} → List (Bytes × A) → Bytes → Option A
value_of [] name = none
value_of ((key, value) ∷ values) name =
    let rest = value_of values name in if bytes_eq key name then some value else rest

-- The number of every unsigned short is 5000.
abbrev pub sample_result : List (Bytes × Bytes) → List (Bytes × ℤ) → ParseResult
sample_result strings ints = record {
  count = λ _. 0;
  int_of = value_of ints;
  unsigned_short_of = λ _. some 5000;
  bool_of = λ _. false;
  string_of = value_of strings;
}

pub number_small :
    (strings : List (Bytes × Bytes)) (ints : List (Bytes × ℤ)) (result : ParseResult)
    → some (sample_result strings ints) ≡ some result
    → (name : Bytes) (n : ℕ) → result.unsigned_short_of name ≡ some n
    → n < 2 ^ 16
number_small strings ints result e name n h =
    let same : sample_result strings ints ≡ result = cc in
    let given : some 5000 ≡ some n = ap (λ r. r.unsigned_short_of name) same ∙ h in
    let number : 5000 ≡ n = cc in omega arith

abbrev pub sample_parser : List (Bytes × Bytes) → List (Bytes × ℤ) → Parser
sample_parser strings ints = record {
  parse = λ _ _ _. some (sample_result strings ints);
  unsigned_short_bound = λ _ _ _ result e. number_small strings ints result e;
}
