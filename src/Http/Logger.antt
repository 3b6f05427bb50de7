-- ===== src/Http/Logger.antt =====
-- aufg2_3_http/connection_base/src/logger.hpp. The text of the time of a call is given with it.
pub mod Mutex
mod Examples
use rechnernetze.Base.{
  ℕ, ◌≡◌, ◌==◌, Option, none, some, Bool, true, false, List, [], ◌∷◌, ◌++◌, codes, ltb,
  if◌then◌else◌,
}
use rechnernetze.Process.{Bytes}

-- Logger::level with its numbers.
pub data Level : Type 0 where
  err_level warn_level info_level data_level : Level

abbrev pub rank : Level → ℕ
rank err_level = 3
rank warn_level = 2
rank info_level = 1
rank data_level = 0

-- The fields of the only instance.
pub record Logger : Type 0 where
  pub logfile : Bytes
  pub log_to_console : Bool
  pub minimal_log_level : Level

abbrev pub fresh_logger : Logger
fresh_logger = record { logfile = []; log_to_console = false; minimal_log_level = info_level }

unfoldable pub level_str : Level → Bytes
level_str err_level = codes "[ERR] "
level_str warn_level = codes "[WARN] "
level_str info_level = codes "[INFO] "
level_str data_level = codes "[DATA] "

-- The text of the stream, which ends with a line feed of its own.
unfoldable pub log_text : Bytes → Bytes → Level → Bytes
unfolding level_str
log_text time log log_level =
    level_str log_level ++ ((91 ∷ []) ++ (time ++ (codes "] " ++ (log ++ (10 ∷ [])))))

-- Behind the lock: what is given to std::cout, one after the other.
unfoldable pub log_internal : Bytes → Bytes → Level → Logger → List Bytes
log_internal time log log_level l =
    if ltb (rank log_level) (rank l.minimal_log_level)
    then []
    else if l.log_to_console
    then log_text time log log_level ∷ (10 ∷ []) ∷ []
    else []

abbrev pub set_logfile : Bytes → Logger → Logger
set_logfile logfile l = record l { logfile = logfile }

abbrev pub set_log_to_console : Bool → Logger → Logger
set_log_to_console log_to_console l = record l { log_to_console = log_to_console }

abbrev pub set_level : Level → Logger → Logger
set_level log_level l = record l { minimal_log_level = log_level }

-- A call of `error`, `warn`, `info` or `data`, with the text of its time.
pub data Call : Type 0 where
  error warn info log_data : Bytes → Bytes → Call

unfoldable pub perform : Call → Logger → List Bytes
unfolding log_internal
perform (error time log) l = log_internal time log err_level l
perform (warn time log) l = log_internal time log warn_level l
perform (info time log) l = log_internal time log info_level l
perform (log_data time log) l = log_internal time log data_level l

-- A thread: the calls it has still to make, and what it has still to write of the one under way.
pub record Thread : Type 0 where
  pub calls : List Call
  pub pieces : List Bytes

-- The threads of a program, the one that holds the mutex, and what was written to the console.
pub record Program : Type 0 where
  pub threads : ℕ → Thread
  pub holder : Option ℕ
  pub console : List Bytes

abbrev pub set_thread : ℕ → Thread → (ℕ → Thread) → ℕ → Thread
set_thread i t threads j = if j == i then t else threads j

-- log_internal with its lock_guard, for settings that stay.
pub data Step (l : Logger) (s : Program) : Program → Type 0 where
  locked :
      (i : ℕ) (call : Call) (rest : List Call)
      → s.holder ≡ none
      → (s.threads i).calls ≡ call ∷ rest
      → Step l s (record s {
        threads = set_thread i (record { calls = rest; pieces = perform call l }) s.threads;
        holder = some i;
      })
  written :
      (i : ℕ) (piece : Bytes) (rest : List Bytes)
      → (s.threads i).pieces ≡ piece ∷ rest
      → Step l s (record s {
        threads = set_thread i (record { calls = (s.threads i).calls; pieces = rest }) s.threads;
        console = s.console ++ (piece ∷ []);
      })
  unlocked :
      (i : ℕ)
      → s.holder ≡ some i
      → (s.threads i).pieces ≡ []
      → Step l s (record s { holder = none })

pub data Reach (l : Logger) (start : Program) : Program → Type 0 where
  started : Reach l start start
  later : {s t : Program} → Reach l start s → Step l s t → Reach l start t
