-- ===== src/Http/Threads/Examples.antt =====
-- A run of the server with two connections: the first is answered, the second is a bad request.
use rechnernetze.Base.{ℕ, ◌≡◌, refl, false, true, [], ◌∷◌, All}
use rechnernetze.Http.Threads.{
  Server, start, emplace_back, complete, remove_handler_thread, set_handler, shutdown, stop_running,
  stop_removal, listener_joined, returned, completing, closing, finished, Reach, started, later,
  accepted, answered, left_early, completed, quit, closed, joined_listener, stopped_removal,
  joined_handler, main_returned,
}
use rechnernetze.Http.Threads.Listed.{IsJoined}
use rechnernetze.Http.Threads.Safety.{is_active, Reach-returned}

-- Both connections are accepted, the first is answered and removed, the second is left early.
abbrev two_handled : Server
two_handled =
    set_handler 1 finished
      (complete 0 (set_handler 0 completing (emplace_back (emplace_back start))))

two_handled-Reach : Reach two_handled
unfolding emplace_back complete remove_handler_thread
two_handled-Reach =
    later
      (later (later (later (later started (accepted refl)) (accepted refl)) (answered 0 refl))
        (completed 0 refl))
      (left_early 1 refl)

-- The thread of the bad request stays in the list.
two_handled_threads : two_handled.running_handler_threads ≡ record { id = 1; joinable = true } ∷ []
unfolding emplace_back complete remove_handler_thread
two_handled_threads = refl

-- The key `q`, the end of the listener, and the flag.
abbrev draining : Server
draining = stop_removal (record (stop_running (shutdown two_handled)) { main = listener_joined })

draining-Reach : Reach draining
unfolding emplace_back complete remove_handler_thread
draining-Reach =
    later
      (later (later (later two_handled-Reach (quit refl)) (closed refl refl))
        (joined_listener refl refl))
      (stopped_removal refl)

abbrev drained : Server
drained = record draining {
  main = returned;
  running_handler_threads = record { id = 1; joinable = false } ∷ [];
}

drained-Reach : Reach drained
unfolding emplace_back complete remove_handler_thread
drained-Reach =
    later
      (later draining-Reach
        (joined_handler [] (record { id = 1; joinable = true }) [] refl refl (λ _. refl)))
      (main_returned refl)

Reach-returned_example :
    ((j : ℕ) → is_active (drained.handlers j) ≡ false)
    × All IsJoined drained.running_handler_threads
Reach-returned_example = Reach-returned drained-Reach refl

-- A handler that has detached itself may still close its connection when `main` has returned: above,
-- that is the first one.
still_closing : drained.handlers 0 ≡ closing
unfolding emplace_back complete remove_handler_thread
still_closing = refl
