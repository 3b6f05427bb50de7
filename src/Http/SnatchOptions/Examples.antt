-- ===== src/Http/SnatchOptions/Examples.antt =====
-- The options of a slow request.
use rechnernetze.Base.{◌≡◌, refl, arith, [], ◌∷◌, ◌++◌, pos, negsuc, codes, decimal, bytes_eq}
use rechnernetze.Process.{ok, stop, exited}
use rechnernetze.Cli.{Parser, skip_space, front_digits, stoi}
use rechnernetze.Cli.Samples.{sample_parser}
use rechnernetze.Http.SnatchOptions.{
  find_comma, parse_slow_info, slow_of, rows, skip_digits, is_range_text, store, of_result, of_args,
  validate_and_exit_if_needed, handle_info_params_and_exit_if_needed,
}
use rechnernetze.Http.SnatchOptions.Slow.{parse_slow_info-decimal}

parse_slow_info-decimal_example :
    parse_slow_info (decimal 10 ++ (b',' ∷ decimal 250))
    ≡ ok (record { bytes = pos 10; timeout = pos 250 })
parse_slow_info-decimal_example = parse_slow_info-decimal 10 250 (omega arith) (omega arith)

negative_slow :
    parse_slow_info (codes "-1, +20ms") ≡ ok (record { bytes = negsuc 0; timeout = pos 20 })
unfolding parse_slow_info find_comma stoi skip_space front_digits
negative_slow = refl

abbrev parser : Parser
parser = sample_parser ((codes "url", codes "h.de/a") ∷ (codes "range", codes "5") ∷ []) []

-- A range without a dash ends the program.
bad_range : of_args parser [] ≡ stop (exited 1)
unfolding of_args of_result rows slow_of store validate_and_exit_if_needed
    handle_info_params_and_exit_if_needed is_range_text skip_digits bytes_eq
bad_range = refl
