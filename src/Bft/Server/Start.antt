-- ===== src/Bft/Server/Start.antt =====
-- aufg4/bft_server/main.cpp: `main` before its loop, and init_socket.
use rechnernetze.Base.{ℕ, Bool, true, false, List, [], Option, none, some}
use rechnernetze.Process.{
  Bytes, Result, ok, stop, ◌>>=◌, ◌>>◌, require, exited, exit_failure, indeterminate_value, Address,
  htons, Crc, RecvFrom,
}
use rechnernetze.Cli.{Parser}
use rechnernetze.Bft.Logger.{Level, debug_level, info_level, Logger, fresh_logger, set_level}
use rechnernetze.Bft.FileWriter.{Host}
use rechnernetze.Bft.ServerOptions.{Tree, of_args}
use rechnernetze.Bft.Server.{World, Server, run}

abbrev pub level_of : Bool → Level
level_of true = debug_level
level_of false = info_level

-- The address that `bind` is given; its result decides.
unfoldable pub init_socket : Bool → Option ℕ → Result Address
init_socket binds none = stop indeterminate_value
init_socket binds (some port) =
    require binds (exited exit_failure) >> ok (record { s_addr = 0; sin_port = htons port })

-- The state in which the loop begins.
pub record Started : Type 0 where
  pub logger : Logger
  pub bound : Address
  pub world : World
  pub server : Server
  pub paths : Bytes → Bool

unfoldable pub start :
    Crc → (Bytes → Bool) → Tree → Parser → Bool → Host → List Bytes → Result Started
start crc openable tree parser binds host args = of_args tree parser args >>= λ r.
    init_socket binds r.0.port >>= λ bound. ok (record {
      logger = set_level (level_of r.0.debug) fresh_logger;
      bound = bound;
      world = record { crc = crc; directory = r.0.directory; openable = openable };
      server = record { current_client = none; host = host; sent = [] };
      paths = r.1;
    })

-- `main`, with the outcomes of its rounds.
unfoldable pub main :
    Crc → (Bytes → Bool) → Tree → Parser → Bool → Host → List Bytes → List RecvFrom → Result Server
main crc openable tree parser binds host args events =
    start crc openable tree parser binds host args >>= λ st. run st.world st.server events
