-- ===== src/Http/ServerOptions.antt =====
-- aufg2_3_http/http_server/src/options.hpp. What is printed before an exit is left out.
use rechnernetze.Base.{
  Bool, true, false, not, List, [], ◌∷◌, ltb, Option, none, some, ℤ, pos, negsuc, codes,
}
use rechnernetze.Process.{
  Bytes, Result, ok, stop, ◌>>◌, require, exited, exit_success, exit_failure,
}
use rechnernetze.Cli.{
  Declared, option, no_value, an_int, a_path, ParseResult, Parser, stored, given,
}

pub record Options : Type 0 where
  pub port : Option ℤ
  pub logfile : Option Bytes
  pub document_root_folder : Bytes
  pub sleep_after_send : ℤ

-- What std::filesystem says of a path.
pub record Paths : Type 0 where
  pub exists : Bytes → Bool
  pub parent_path : Bytes → Bytes

unfoldable pub rows : List Declared
rows =
    option (codes "p,port") an_int
    ∷ option (codes "l,logfile") a_path
    ∷ option (codes "S,sleep") an_int
    ∷ option (codes "h,help") no_value
    ∷ option (codes "usage") no_value
    ∷ option (codes "V,version") no_value
    ∷ option (codes "document_root_folder") a_path
    ∷ []

-- `port > 65535`, where no port is not greater.
abbrev pub exceeds_ports : Option ℤ → Bool
exceeds_ports none = false
exceeds_ports (some (pos n)) = ltb 65535 n
exceeds_ports (some (negsuc n)) = false

abbrev pub is_empty : Bytes → Bool
is_empty [] = true
is_empty (c ∷ path) = false

abbrev pub has_folder : Paths → Option Bytes → Bool
has_folder paths none = true
has_folder paths (some logfile) = paths.exists (paths.parent_path logfile)

unfoldable pub validate_and_exit_if_needed : Paths → Options → Result (Unit {0})
validate_and_exit_if_needed paths o =
    require (not (exceeds_ports o.port)) (exited exit_failure)
    >> (require (not (is_empty o.document_root_folder)) (exited exit_failure)
        >> (require (paths.exists o.document_root_folder) (exited exit_failure)
            >> require (has_folder paths o.logfile) (exited exit_failure)))

unfoldable pub handle_info_params_and_exit_if_needed : ParseResult → Result (Unit {0})
handle_info_params_and_exit_if_needed result =
    require (not (given result (codes "help"))) (exited exit_success)
    >> (require (not (given result (codes "version"))) (exited exit_success)
        >> require (not (given result (codes "usage"))) (exited exit_success))

-- The values behind `cxxopts::value`.
unfoldable pub store : ParseResult → Options
store result = record {
  port = result.int_of (codes "port");
  logfile = result.string_of (codes "logfile");
  document_root_folder = stored (result.string_of (codes "document_root_folder")) [];
  sleep_after_send = stored (result.int_of (codes "sleep")) (pos 0);
}

unfoldable pub of_result : Paths → ParseResult → Result Options
of_result paths result =
    handle_info_params_and_exit_if_needed result
    >> (validate_and_exit_if_needed paths (store result) >> ok (store result))

-- The constructor of Options; an OptionException ends the program.
unfoldable pub of_args : Paths → Parser → List Bytes → Result Options
unfolding rows
of_args paths parser args = elim (parser.parse rows (codes "document_root_folder" ∷ []) args) [
  | none ↦ stop (exited exit_failure)
  | some result ↦ of_result paths result
]
