-- ===== src/Http/Startup.antt =====
-- aufg2_3_http/http_server/src/main.cpp: the beginning of `main`, up to the listener.
pub mod Port
mod Examples
use rechnernetze.Base.{ℕ, Bool, true, false, List, [], Option, none, some, ℤ, pos}
use rechnernetze.Process.{Bytes, Result, ok, ◌>>=◌}
use rechnernetze.Cli.{Parser}
use rechnernetze.Http.Logger.{
  Logger, data_level, set_logfile, set_log_to_console, set_level, fresh_logger,
}
use rechnernetze.Http.ServerOptions.{Options, Paths, of_args}
use rechnernetze.Http.Address.{Sockaddr, World}
use rechnernetze.Http.Listener.{ConnectionListener, Setup, listen}

pub record Started : Type 0 where
  pub opt : Options
  pub logger : Logger
  pub listener : ConnectionListener
  pub bound : Sockaddr
  pub world : World

abbrev pub set_log : Option Bytes → Logger → Logger
set_log none l = set_log_to_console true (set_logfile [] l)
set_log (some logfile) l = set_log_to_console false (set_logfile logfile l)

abbrev pub port_or_default : Option ℤ → ℤ
port_or_default none = pos 8080
port_or_default (some port) = port

abbrev pub with_port : Options → Options
with_port opt = record opt { port = some (port_or_default opt.port) }

abbrev pub listen_with : Options → Setup → World → Result Started
listen_with opt setup w = listen setup (port_or_default opt.port) w >>= λ r. ok (record {
  opt = with_port opt;
  logger = set_level data_level (set_log opt.logfile fresh_logger);
  listener = r.0.0;
  bound = r.0.1;
  world = r.1;
})

unfoldable pub start : Paths → Parser → List Bytes → Setup → World → Result Started
start paths parser args setup w = of_args paths parser args >>= λ opt. listen_with opt setup w
