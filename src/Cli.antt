-- ===== src/Cli.antt =====
-- The command lines of the programs: what they use of the option parser cxxopts, a parameter of the
-- models, and the conversions of the standard library.
pub mod Numbers
pub mod Samples
use rechnernetze.Base.{
  ℕ, zero, suc, ◌+◌, ◌*◌, ◌-◌, ◌^◌, ◌<◌, ◌≡◌, Bool, true, false, List, [], ◌∷◌, Option, none, some,
  ℤ, pos, neg, ltb, leb, ◌&&◌, ◌||◌, ◌==◌, codes, if◌then◌else◌, bytes_eq,
}
use rechnernetze.Process.{Bytes, Result, ok, stop, thrown, exited}

-- The type of the variable behind `cxxopts::value`.
pub data Value : Type 0 where
  no_value an_int an_unsigned_short a_bool a_string a_path : Value

-- A row of `add_options`.
pub record Declared : Type 0 where
  pub names : Bytes
  pub value : Value
  pub default_value : Option Bytes

abbrev pub option : Bytes → Value → Declared
option names value = record { names = names; value = value; default_value = none }

-- What is stored: by the long name of the option, how often it was given, and the value that was
-- written into its variable. A bool that is not given is stored as false.
pub record ParseResult : Type 0 where
  pub count : Bytes → ℕ
  pub int_of : Bytes → Option ℤ
  pub unsigned_short_of : Bytes → Option ℕ
  pub bool_of : Bytes → Bool
  pub string_of : Bytes → Option Bytes

-- `parse` with the rows and the names for positional arguments; nothing stands for an OptionException.
pub record Parser : Type 0 where
  pub parse : List Declared → List Bytes → List Bytes → Option ParseResult
  pub unsigned_short_bound :
      (rows : List Declared) (names args : List Bytes) (result : ParseResult)
      → parse rows names args ≡ some result
      → (name : Bytes) (n : ℕ) → result.unsigned_short_of name ≡ some n
      → n < 2 ^ 16

-- A variable that keeps its value if the option was not given.
abbrev pub stored {ℓ} : {A : Type ℓ} → Option A → A → A
stored none before = before
stored (some value) before = value

-- `if (result.count(name))`
abbrev pub given : ParseResult → Bytes → Bool
given result name = ltb 0 (result.count name)

-- std::stoi: white space, a sign, and digits; what follows them is left alone.
abbrev pub is_space : ℕ → Bool
is_space c = c == 32 || (leb 9 c && leb c 13)

abbrev pub is_digit : ℕ → Bool
is_digit c = leb 48 c && leb c 57

unfoldable pub skip_space : Bytes → Bytes
skip_space [] = []
skip_space (c ∷ text) = let rest = skip_space text in if is_space c then rest else c ∷ text

-- The value of the digits at the front, from a first value on, and how many they are.
unfoldable pub front_digits : ℕ → ℕ → Bytes → ℕ × ℕ
front_digits n count [] = (n, count)
front_digits n count (c ∷ text) =
    let more = front_digits (n * 10 + (c - 48)) (suc count) text in
    if is_digit c then more else (n, count)

-- Nothing at all, and a value outside of an int, raise an exception.
abbrev pub int_of_digits : Bool → ℕ × ℕ → Result ℤ
int_of_digits negative (n, zero) = stop thrown
int_of_digits true (n, suc count) = if leb n (2 ^ 31) then ok (neg n) else stop thrown
int_of_digits false (n, suc count) = if ltb n (2 ^ 31) then ok (pos n) else stop thrown

abbrev pub signed_digits : Bytes → Result ℤ
signed_digits [] = stop thrown
signed_digits (c ∷ text) =
    if c == 45
    then int_of_digits true (front_digits 0 0 text)
    else if c == 43
    then int_of_digits false (front_digits 0 0 text)
    else int_of_digits false (front_digits 0 0 (c ∷ text))

unfoldable pub stoi : Bytes → Result ℤ
unfolding skip_space front_digits
stoi text = signed_digits (skip_space text)
