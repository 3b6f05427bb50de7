-- ===== src/Http/SnatchOptions.antt =====
-- aufg2_3_http/snatch/src/options.hpp. What is printed before an exit is left out.
pub mod Slow
mod Examples
use rechnernetze.Base.{
  ℕ, Bool, true, false, not, ◌&&◌, List, [], ◌∷◌, ◌==◌, Option, none, some, ℤ, codes, if◌then◌else◌,
}
use rechnernetze.Process.{
  Bytes, Result, ok, stop, ◌>>=◌, ◌>>◌, require, thrown, exited, exit_success, exit_failure,
}
use rechnernetze.Cli.{
  Declared, option, no_value, a_bool, a_string, ParseResult, Parser, stored, given, is_digit, stoi,
}

pub record SlowInfo : Type 0 where
  pub bytes : ℤ
  pub timeout : ℤ

pub record Options : Type 0 where
  pub url : Bytes
  pub output : Bytes
  pub range : Bytes
  pub slow : Option SlowInfo
  pub remote_name : Bool
  pub verbose : Bool

unfoldable pub rows : List Declared
rows =
    option (codes "o,output") a_string
    ∷ option (codes "O,remote-name") a_bool
    ∷ option (codes "r,range") a_string
    ∷ option (codes "s,slow") a_string
    ∷ option (codes "v,verbose") a_bool
    ∷ option (codes "h,help") no_value
    ∷ option (codes "usage") no_value
    ∷ option (codes "V,version") no_value
    ∷ option (codes "url") a_string
    ∷ []

-- `substr(0, comma_idx)` and `substr(comma_idx + 1)`, where `find` gives the largest index for a text
-- without a comma, and one more than that is 0: both are the whole text then.
abbrev pub before_comma : ℕ → (Bool × Bytes) × Bytes → (Bool × Bytes) × Bytes
before_comma c ((found, front), rest) = ((found, c ∷ front), rest)

unfoldable pub find_comma : Bytes → (Bool × Bytes) × Bytes
find_comma [] = ((false, []), [])
find_comma (c ∷ text) =
    let later = find_comma text in if c == b',' then ((true, []), text) else before_comma c later

abbrev pub split : Bytes → (Bool × Bytes) × Bytes → Bytes × Bytes
split text ((true, front), rest) = (front, rest)
split text ((false, front), rest) = (text, text)

abbrev pub slow_info_of : Bytes × Bytes → Result SlowInfo
slow_info_of (first, second) = stoi first >>= λ bytes.
    stoi second >>= λ timeout. ok (record { bytes = bytes; timeout = timeout })

unfoldable pub parse_slow_info : Bytes → Result SlowInfo
unfolding find_comma
parse_slow_info slow_string = slow_info_of (split slow_string (find_comma slow_string))

-- `slow` stays empty if the text is.
unfoldable pub slow_of : Bytes → Result (Option SlowInfo)
unfolding parse_slow_info
slow_of [] = ok none
slow_of (c ∷ text) = parse_slow_info (c ∷ text) >>= λ info. ok (some info)

-- `\d*` at the front is skipped.
unfoldable pub skip_digits : Bytes → Bytes
skip_digits [] = []
skip_digits (c ∷ text) = let rest = skip_digits text in if is_digit c then rest else c ∷ text

abbrev pub is_empty : Bytes → Bool
is_empty [] = true
is_empty (c ∷ text) = false

-- The whole text is `\d*-(?:\d*)?`.
abbrev pub dash_and_digits : Bytes → Bool
dash_and_digits [] = false
dash_and_digits (c ∷ text) = (c == b'-') && is_empty (skip_digits text)

unfoldable pub is_range_text : Bytes → Bool
unfolding skip_digits
is_range_text range = dash_and_digits (skip_digits range)

unfoldable pub validate_and_exit_if_needed : Options → Result (Unit {0})
validate_and_exit_if_needed o =
    if not (is_empty o.range) && not (is_range_text o.range)
    then stop (exited exit_failure)
    else ok tt

unfoldable pub handle_info_params_and_exit_if_needed : ParseResult → Result (Unit {0})
handle_info_params_and_exit_if_needed result =
    require (not (given result (codes "help"))) (exited exit_success)
    >> (require (not (given result (codes "version"))) (exited exit_success)
        >> require (not (given result (codes "usage"))) (exited exit_success))

-- The values behind `cxxopts::value`, and the text of the option `slow` once read.
unfoldable pub store : ParseResult → Option SlowInfo → Options
store result slow = record {
  url = stored (result.string_of (codes "url")) [];
  output = stored (result.string_of (codes "output")) [];
  range = stored (result.string_of (codes "range")) [];
  slow = slow;
  remote_name = result.bool_of (codes "remote-name");
  verbose = result.bool_of (codes "verbose");
}

-- The exceptions of the parser and of std::stoi are not caught.
unfoldable pub of_result : ParseResult → Result Options
of_result result = slow_of (stored (result.string_of (codes "slow")) []) >>= λ slow.
    handle_info_params_and_exit_if_needed result
    >> (validate_and_exit_if_needed (store result slow) >> ok (store result slow))

-- The constructor of Options.
unfoldable pub of_args : Parser → List Bytes → Result Options
unfolding rows
of_args parser args = elim (parser.parse rows (codes "url" ∷ []) args) [
  | none ↦ stop thrown
  | some result ↦ of_result result
]
