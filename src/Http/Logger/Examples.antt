-- ===== src/Http/Logger/Examples.antt =====
-- Two threads that log, and the texts of the levels.
use rechnernetze.Base.{ℕ, zero, suc, ◌≡◌, refl, true, List, [], ◌∷◌, ◌++◌, codes, none, some}
use rechnernetze.Http.Logger.{
  Logger, fresh_logger, set_log_to_console, Call, error, info, log_data, perform, log_internal,
  log_text, level_str, Thread, Program, set_thread, Reach, started, later, locked, written,
  unlocked,
}
use rechnernetze.Http.Logger.Mutex.{calls_of, lines_of, Reach-console}

abbrev console_logger : Logger
console_logger = set_log_to_console true fresh_logger

abbrev idle_thread : List Call → Thread
idle_thread calls = record { calls = calls; pieces = [] }

abbrev threads : ℕ → Thread
threads zero = idle_thread (info (codes "t1") (codes "a") ∷ [])
threads (suc zero) =
    idle_thread (log_data (codes "t2") (codes "b") ∷ error (codes "t3") (codes "c") ∷ [])
threads (suc (suc n)) = idle_thread []

abbrev program : Program
program = record { threads = threads; holder = none; console = [] }

quiet : (j : ℕ) → (threads j).pieces ≡ []
quiet zero = refl
quiet (suc zero) = refl
quiet (suc (suc n)) = refl

info_line :
    perform (info (codes "t1") (codes "a")) console_logger
    ≡ codes "[INFO] [t1] a\n" ∷ (10 ∷ []) ∷ []
unfolding perform log_internal log_text level_str
info_line = refl

-- Below the minimal level nothing is written.
data_line : perform (log_data (codes "t2") (codes "b")) console_logger ≡ []
unfolding perform log_internal
data_line = refl

silent : perform (error (codes "t3") (codes "c")) fresh_logger ≡ []
unfolding perform log_internal
silent = refl

-- The second thread logs below the minimal level, then the first one logs.
abbrev after_second : Program
after_second = record {
  threads =
      set_thread 1
        (record {
          calls = error (codes "t3") (codes "c") ∷ [];
          pieces = perform (log_data (codes "t2") (codes "b")) console_logger;
        })
        threads;
  holder = none;
  console = [];
}

after_second-Reach : Reach console_logger program after_second
unfolding perform log_internal
after_second-Reach = later (later started (locked 1 _ _ refl refl)) (unlocked 1 refl refl)

-- The first thread writes the line and the line feed that std::endl adds.
abbrev writes_line : Program
writes_line = record {
  threads =
      set_thread 0
        (record { calls = []; pieces = perform (info (codes "t1") (codes "a")) console_logger })
        after_second.threads;
  holder = some 0;
  console = [];
}

abbrev both_done : Program
both_done = record {
  threads =
      set_thread 0 (idle_thread [])
        (set_thread 0 (record { calls = []; pieces = (10 ∷ []) ∷ [] }) writes_line.threads);
  holder = none;
  console = codes "[INFO] [t1] a\n" ∷ (10 ∷ []) ∷ [];
}

both_done-Reach : Reach console_logger program both_done
unfolding perform log_internal log_text level_str
both_done-Reach =
    later
      (later
        (later (later after_second-Reach (locked 0 _ _ refl refl))
          (written 0 (codes "[INFO] [t1] a\n") ((10 ∷ []) ∷ []) refl))
        (written 0 (10 ∷ []) [] refl))
      (unlocked 0 refl refl)

Reach-console_example :
    (done : List (ℕ × Call)) × (both_done.console ≡ lines_of console_logger done)
    × ((j : ℕ) → calls_of j done ++ (both_done.threads j).calls ≡ (threads j).calls)
Reach-console_example =
    Reach-console console_logger program (refl, refl, quiet) both_done-Reach refl
