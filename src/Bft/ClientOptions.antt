-- ===== src/Bft/ClientOptions.antt =====
-- aufg4/bft_client/options.hpp. What is printed before an exit is left out.
use rechnernetze.Base.{ℕ, Bool, not, List, [], ◌∷◌, Option, none, some, ℤ, codes}
use rechnernetze.Process.{
  Bytes, Result, ok, stop, ◌>>◌, require, thrown, exited, exit_success, exit_failure,
}
use rechnernetze.Cli.{
  Declared, option, no_value, an_int, an_unsigned_short, a_bool, a_string, ParseResult, Parser,
  stored, given,
}

-- A number that has no value yet is indeterminate, which nothing stands for.
pub record Options : Type 0 where
  pub server_ip : Bytes
  pub server_port : Option ℕ
  pub file_path : Bytes
  pub retransmission_timeout_ms : Option ℤ
  pub debug : Bool
  pub max_consec_timeouts : Option ℤ

-- What std::filesystem says of a path.
pub record Paths : Type 0 where
  pub is_directory : Bytes → Bool
  pub exists : Bytes → Bool

abbrev pub with_default : Bytes → Declared → Declared
with_default text row = record row { default_value = some text }

unfoldable pub rows : List Declared
rows =
    with_default (codes "2000") (option (codes "r,retrans_timeout_ms") an_int)
    ∷ with_default (codes "-1") (option (codes "R,max_retrans") an_int)
    ∷ option (codes "d,debug") a_bool
    ∷ option (codes "h,help") no_value
    ∷ option (codes "server") a_string
    ∷ option (codes "port") an_unsigned_short
    ∷ option (codes "file") a_string
    ∷ []

abbrev pub positional : List Bytes
positional = codes "server" ∷ codes "port" ∷ codes "file" ∷ []

unfoldable pub validate_and_exit_if_needed : Paths → Options → Result (Unit {0})
validate_and_exit_if_needed paths o =
    require (not (paths.is_directory o.file_path)) (exited exit_failure)
    >> require (paths.exists o.file_path) (exited exit_failure)

unfoldable pub handle_info_params_and_exit_if_needed : ParseResult → Result (Unit {0})
handle_info_params_and_exit_if_needed result =
    require (not (given result (codes "help"))) (exited exit_success)

-- The values behind `cxxopts::value`.
unfoldable pub store : ParseResult → Options
store result = record {
  server_ip = stored (result.string_of (codes "server")) [];
  server_port = result.unsigned_short_of (codes "port");
  file_path = stored (result.string_of (codes "file")) [];
  retransmission_timeout_ms = result.int_of (codes "retrans_timeout_ms");
  debug = result.bool_of (codes "debug");
  max_consec_timeouts = result.int_of (codes "max_retrans");
}

unfoldable pub of_result : Paths → ParseResult → Result Options
of_result paths result =
    handle_info_params_and_exit_if_needed result
    >> (validate_and_exit_if_needed paths (store result) >> ok (store result))

-- The constructor of Options; an exception of the parser is not caught.
unfoldable pub of_args : Paths → Parser → List Bytes → Result Options
unfolding rows
of_args paths parser args = elim (parser.parse rows positional args) [
  | none ↦ stop thrown
  | some result ↦ of_result paths result
]
