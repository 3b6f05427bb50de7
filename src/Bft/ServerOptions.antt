-- ===== src/Bft/ServerOptions.antt =====
-- aufg4/bft_server/options.hpp. What is printed before an exit is left out.
use rechnernetze.Base.{ℕ, Bool, not, List, [], ◌∷◌, Option, none, some, codes, if◌then◌else◌}
use rechnernetze.Process.{
  Bytes, Result, ok, stop, ◌>>◌, ◌>>=◌, require, thrown, exited, exit_success,
}
use rechnernetze.Cli.{
  Declared, option, no_value, an_unsigned_short, a_bool, a_string, ParseResult, Parser, stored,
  given,
}

-- A number that has no value yet is indeterminate, which nothing stands for.
pub record Options : Type 0 where
  pub port : Option ℕ
  pub directory : Bytes
  pub debug : Bool

-- The directories that there are, as std::filesystem sees them: which paths exist, and what
-- `create_directories` makes of them, or an exception.
pub record Tree : Type 0 where
  pub paths : Bytes → Bool
  pub create_directories : Bytes → Option (Bytes → Bool)

unfoldable pub rows : List Declared
rows =
    option (codes "d,debug") a_bool
    ∷ option (codes "h,help") no_value
    ∷ option (codes "port") an_unsigned_short
    ∷ option (codes "directory") a_string
    ∷ []

abbrev pub created : Option (Bytes → Bool) → Result (Bytes → Bool)
created none = stop thrown
created (some paths) = ok paths

-- The paths that exist afterwards.
unfoldable pub validate_and_exit_if_needed : Tree → Options → Result (Bytes → Bool)
validate_and_exit_if_needed tree o =
    if tree.paths o.directory then ok tree.paths else created (tree.create_directories o.directory)

unfoldable pub handle_info_params_and_exit_if_needed : ParseResult → Result (Unit {0})
handle_info_params_and_exit_if_needed result =
    require (not (given result (codes "help"))) (exited exit_success)

-- The values behind `cxxopts::value`.
unfoldable pub store : ParseResult → Options
store result = record {
  port = result.unsigned_short_of (codes "port");
  directory = stored (result.string_of (codes "directory")) [];
  debug = result.bool_of (codes "debug");
}

unfoldable pub of_result : Tree → ParseResult → Result (Options × (Bytes → Bool))
of_result tree result =
    handle_info_params_and_exit_if_needed result
    >> (validate_and_exit_if_needed tree (store result) >>= λ paths. ok (store result, paths))

-- The constructor of Options; an exception of the parser is not caught.
unfoldable pub of_args : Tree → Parser → List Bytes → Result (Options × (Bytes → Bool))
unfolding rows
of_args tree parser args = elim (parser.parse rows (codes "port" ∷ codes "directory" ∷ []) args) [
  | none ↦ stop thrown
  | some result ↦ of_result tree result
]
