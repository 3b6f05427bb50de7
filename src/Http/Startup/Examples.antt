-- ===== src/Http/Startup/Examples.antt =====
-- The server started with a folder and the port 8081.
use rechnernetze.Base.{ℕ, ◌+◌, ◌*◌, ◌≡◌, refl, true, [], ◌∷◌, some, pos, codes, bytes_eq}
use rechnernetze.Process.{htons, Result, ok, ◌>>=◌, Ensures}
use rechnernetze.Cli.{Parser}
use rechnernetze.Cli.Samples.{sample_parser}
use rechnernetze.Http.ServerOptions.{
  Paths, of_args, of_result, store, validate_and_exit_if_needed,
  handle_info_params_and_exit_if_needed, rows,
}
use rechnernetze.Http.Address.{World, release, without, get_any_address, destroy_origin}
use rechnernetze.Http.Listener.{Setup, listen}
use rechnernetze.Http.Startup.{start, Started}
use rechnernetze.Http.Startup.Port.{IsStarted, start-IsStarted}

abbrev parser : Parser
parser =
    sample_parser ((codes "document_root_folder", codes "/home") ∷ [])
      ((codes "port", pos 8081) ∷ [])

abbrev paths : Paths
paths = record { exists = λ _. true; parent_path = λ p. p }

abbrev setup : Setup
setup = record { socket = some 3; binds = true; listens = true }

abbrev empty_world : World
empty_world = record { live = []; next = 0; open_files = 0 ∷ 1 ∷ 2 ∷ [] }

start-IsStarted_example :
    Ensures (IsStarted paths parser [] empty_world) (start paths parser [] setup empty_world)
start-IsStarted_example = start-IsStarted paths parser [] setup empty_world

-- 8081 is 31 * 256 + 145.
abbrev bound_port_of : Result Started → Result ℕ
bound_port_of m = m >>= λ st. ok st.bound.sin_port

start_port : bound_port_of (start paths parser [] setup empty_world) ≡ ok (145 * 256 + 31)
unfolding start of_args of_result store validate_and_exit_if_needed
    handle_info_params_and_exit_if_needed rows htons release without get_any_address destroy_origin
    listen bytes_eq
start_port = refl
