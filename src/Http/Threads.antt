-- ===== src/Http/Threads.antt =====
-- aufg2_3_http/http_server/src/main.cpp: the threads of the server. Each section under
-- `handler_threads_mutex` is one step.
pub mod Listed
pub mod Safety
mod Examples
use rechnernetze.Base.{
  ℕ, suc, ◌+◌, ◌≡◌, Bool, true, false, ◌&&◌, List, [], ◌∷◌, ◌++◌, length, ◌==◌, if◌then◌else◌,
}

-- An entry of `running_handler_threads`. Behind `join` or `detach` it names no thread.
pub record Thread : Type 0 where
  pub id : ℕ
  pub joinable : Bool

-- Where a handler is: not started; before the last lock of handle_incoming_request; waiting for that
-- lock; behind it, where the connection is still to be closed; at its end.
pub data Handler : Type 0 where
  unborn serving completing closing finished : Handler

-- Where `main` is: reading the keyboard; joining the listener's thread; behind that; at an entry of
-- the list; at its end.
pub data Main : Type 0 where
  reading joining_listener listener_joined : Main
  joining : ℕ → Main
  returned : Main

pub record Server : Type 0 where
  pub main : Main
  -- whether the socket was shut down, and the `running` of the listener's thread
  pub shut_down : Bool
  pub running : Bool
  pub running_handler_threads : List Thread
  pub remove_handler_threads_on_completion : Bool
  pub handlers : ℕ → Handler
  pub next_id : ℕ

abbrev pub start : Server
start = record {
  main = reading;
  shut_down = false;
  running = true;
  running_handler_threads = [];
  remove_handler_threads_on_completion = true;
  handlers = λ _. unborn;
  next_id = 0;
}

abbrev pub update : ℕ → Handler → (ℕ → Handler) → ℕ → Handler
update i h handlers j = if j == i then h else handlers j

-- `t.get_id() == id`
abbrev pub is_thread : ℕ → Thread → Bool
is_thread id t = t.joinable && (t.id == id)

-- The entry is detached and erased.
unfoldable pub remove_handler_thread : ℕ → List Thread → List Thread
remove_handler_thread id [] = []
remove_handler_thread id (t ∷ threads) =
    let rest = remove_handler_thread id threads in if is_thread id t then threads else t ∷ rest

-- The listener's thread: a connection, and the closing of the socket.
unfoldable pub emplace_back : Server → Server
emplace_back s = record s {
  running_handler_threads =
      s.running_handler_threads ++ (record { id = s.next_id; joinable = true } ∷ []);
  handlers = update s.next_id serving s.handlers;
  next_id = suc s.next_id;
}

abbrev pub stop_running : Server → Server
stop_running s = record s { running = false }

-- The lock at the end of handle_incoming_request. The thread goes on behind it, where the connection is
-- closed, also if it has just detached itself.
unfoldable pub complete : ℕ → Server → Server
unfolding remove_handler_thread
complete i s = record s {
  running_handler_threads =
      if s.remove_handler_threads_on_completion
      then remove_handler_thread i s.running_handler_threads
      else s.running_handler_threads;
  handlers = update i closing s.handlers;
}

abbrev pub set_handler : ℕ → Handler → Server → Server
set_handler i h s = record s { handlers = update i h s.handlers }

abbrev pub shutdown : Server → Server
shutdown s = record s { main = joining_listener; shut_down = true }

abbrev pub stop_removal : Server → Server
stop_removal s = record s { main = joining 0; remove_handler_threads_on_completion = false }

-- Behind `join` the entry names no thread.
abbrev pub joined : Thread → Thread
joined t = record t { joinable = false }

-- An entry that is not joinable, or whose thread has ended, does not hold `main` up.
abbrev pub IsOver : Server → Thread → Type 0
IsOver s t = t.joinable ≡ true → s.handlers t.id ≡ finished

pub data Step (s : Server) : Server → Type 0 where
  -- accept gives a connection, or another error than EINVAL; or EINVAL, behind the shutdown
  accepted : s.running ≡ true → Step s (emplace_back s)
  accept_failed : s.running ≡ true → Step s s
  closed : s.running ≡ true → s.shut_down ≡ true → Step s (stop_running s)
  -- a handler answers; or it returns early, for a bad request or by an exception; or takes the lock
  answered : (i : ℕ) → s.handlers i ≡ serving → Step s (set_handler i completing s)
  left_early : (i : ℕ) → s.handlers i ≡ serving → Step s (set_handler i finished s)
  completed : (i : ℕ) → s.handlers i ≡ completing → Step s (complete i s)
  ended : (i : ℕ) → s.handlers i ≡ closing → Step s (set_handler i finished s)
  -- the key `q`; another key is no step
  quit : s.main ≡ reading → Step s (shutdown s)
  joined_listener :
      s.main ≡ joining_listener → s.running ≡ false → Step s (record s { main = listener_joined })
  stopped_removal : s.main ≡ listener_joined → Step s (stop_removal s)
  joined_handler :
      (front : List Thread) (t : Thread) (back : List Thread)
      → s.main ≡ joining (length front)
      → s.running_handler_threads ≡ front ++ (t ∷ back)
      → IsOver s t
      → Step s (record s {
        main = joining (suc (length front));
        running_handler_threads = front ++ (joined t ∷ back);
      })
  main_returned :
      s.main ≡ joining (length s.running_handler_threads) → Step s (record s { main = returned })

pub data Reach : Server → Type 0 where
  started : Reach start
  later : {s t : Server} → Reach s → Step s t → Reach t
