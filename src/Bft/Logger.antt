-- ===== src/Bft/Logger.antt =====
-- aufg4/bft_base/logger.hpp. The text of the time of a call is given with it.
use rechnernetze.Base.{
  ℕ, ◌≡◌, ◌∙◌, sym, List, [], ◌∷◌, ◌++◌, append_assoc, append-nil, arith, codes, ltb, leb,
  concat_map, if◌then◌else◌,
}
use rechnernetze.Process.{Bytes}

-- Logger::level with its numbers.
pub data Level : Type 0 where
  err_level warn_level info_level debug_level data_level : Level

abbrev pub rank : Level → ℕ
rank err_level = 4
rank warn_level = 3
rank info_level = 2
rank debug_level = 1
rank data_level = 0

-- The field of the only instance, and what was given to std::cout, each with a line feed.
pub record Logger : Type 0 where
  pub minimal_log_level : Level
  pub cout : List Bytes

abbrev pub fresh_logger : Logger
fresh_logger = record { minimal_log_level = info_level; cout = [] }

unfoldable pub level_str : Level → Bytes
level_str debug_level = codes "[DEBUG] "
level_str err_level = codes "[ERROR] "
level_str warn_level = codes "[WARN] "
level_str info_level = codes "[INFO] "
level_str data_level = codes "[DATA] "

unfoldable pub log_text : Bytes → Bytes → Level → Bytes
unfolding level_str
log_text time log log_level = level_str log_level ++ ((91 ∷ []) ++ (time ++ (codes "] " ++ log)))

unfoldable pub log_internal : Bytes → Bytes → Level → Logger → Logger
log_internal time log log_level l =
    if ltb (rank log_level) (rank l.minimal_log_level)
    then l
    else record l { cout = l.cout ++ (log_text time log log_level ∷ []) }

abbrev pub set_level : Level → Logger → Logger
set_level log_level l = record l { minimal_log_level = log_level }

-- A call of `error`, `warn`, `info`, `debug` or `data`, with the text of its time.
pub data Call : Type 0 where
  error warn info debug log_data : Bytes → Bytes → Call

abbrev pub level_of : Call → Level
level_of (error time log) = err_level
level_of (warn time log) = warn_level
level_of (info time log) = info_level
level_of (debug time log) = debug_level
level_of (log_data time log) = data_level

unfoldable pub perform : Call → Logger → Logger
unfolding log_internal
perform (error time log) l = log_internal time log err_level l
perform (warn time log) l = log_internal time log warn_level l
perform (info time log) l = log_internal time log info_level l
perform (debug time log) l = log_internal time log debug_level l
perform (log_data time log) l = log_internal time log data_level l

unfoldable pub perform_all : List Call → Logger → Logger
unfolding perform
perform_all [] l = l
perform_all (call ∷ calls) l = perform_all calls (perform call l)

-- What is to be printed of a call at a minimal level.
abbrev pub text_of : Call → Bytes
text_of (error time log) = log_text time log err_level
text_of (warn time log) = log_text time log warn_level
text_of (info time log) = log_text time log info_level
text_of (debug time log) = log_text time log debug_level
text_of (log_data time log) = log_text time log data_level

abbrev pub due : Level → Call → List Bytes
due least call = if leb (rank least) (rank (level_of call)) then text_of call ∷ [] else []

log_internal-cout :
    (time log : Bytes) (level : Level) (l : Logger)
    → log_internal time log level l ≡ record l {
      cout =
          l.cout
          ++ (if leb (rank l.minimal_log_level) (rank level)
              then log_text time log level ∷ []
              else []);
    }
unfolding log_internal
log_internal-cout time log level l = ground (arith, append-nil l.cout)

perform-due :
    (call : Call) (l : Logger)
    → perform call l ≡ record l { cout = l.cout ++ due l.minimal_log_level call }
unfolding perform
perform-due (error time log) l = log_internal-cout time log err_level l
perform-due (warn time log) l = log_internal-cout time log warn_level l
perform-due (info time log) l = log_internal-cout time log info_level l
perform-due (debug time log) l = log_internal-cout time log debug_level l
perform-due (log_data time log) l = log_internal-cout time log data_level l

-- Calls print the texts of those whose level is not below the minimal one, in order.
pub perform_all-due :
    (calls : List Call) (l : Logger)
    → (perform_all calls l).cout ≡ l.cout ++ concat_map (due l.minimal_log_level) calls
unfolding perform_all concat_map
perform_all-due [] l = sym (append-nil l.cout)
perform_all-due (call ∷ calls) l =
    rw (perform_all, perform-due call l)
      (perform_all-due calls (record l { cout = l.cout ++ due l.minimal_log_level call })
        ∙ append_assoc l.cout (due l.minimal_log_level call)
            (concat_map (due l.minimal_log_level) calls))
