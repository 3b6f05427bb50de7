-- ===== src/Http/Threads/Safety.antt =====
-- What holds in every reachable state of the server's threads.
use rechnernetze.Base.{
  ℕ, suc, ◌≤◌, ◌≡◌, ◌≢◌, ◌∙◌, refl, subst, Bool, true, false, List, [], ◌∷◌, ◌++◌, arith, length,
  take, take_all, All, Bool-cases, inl, inr,
}
use rechnernetze.Http.Threads.{
  Thread, Handler, unborn, serving, completing, closing, finished, Main, reading, joining_listener,
  listener_joined, joining, returned, Server, start, emplace_back, complete, set_handler, joined,
  IsOver, Step, accepted, accept_failed, closed, answered, left_early, completed, ended, quit,
  joined_listener, stopped_removal, joined_handler, main_returned, Reach, started, later,
}
use rechnernetze.Http.Threads.Listed.{
  listed, IsJoined, listed-append, listed-remove, listed-joined, listed_none, take-joined,
}

-- Before the end of its last section under the lock.
abbrev pub is_active : Handler → Bool
is_active unborn = false
is_active serving = true
is_active completing = true
is_active closing = false
is_active finished = false

-- Behind the join of the listener's thread.
abbrev pub is_behind : Main → Bool
is_behind reading = false
is_behind joining_listener = false
is_behind listener_joined = true
is_behind (joining n) = true
is_behind returned = true

abbrev pub is_final : Main → Bool
is_final reading = false
is_final joining_listener = false
is_final listener_joined = false
is_final (joining n) = true
is_final returned = true

-- The entries that `main` has joined.
abbrev pub Done : Main → List Thread → Type 0
Done (joining n) threads = All IsJoined (take n threads)
Done returned threads = All IsJoined threads
Done reading threads = Unit
Done joining_listener threads = Unit
Done listener_joined threads = Unit

pub record Inv (s : Server) : Type 0 where
  pub active : (j : ℕ) → is_active (s.handlers j) ≡ true → listed j s.running_handler_threads ≡ true
  pub fresh : (j : ℕ) → s.next_id ≤ j → s.handlers j ≡ unborn
  pub stopped : is_behind s.main ≡ true → s.running ≡ false
  pub kept : is_final s.main ≡ true → s.remove_handler_threads_on_completion ≡ false
  pub done : Done s.main s.running_handler_threads

start-Inv : Inv start
start-Inv = record {
  active = λ j h. ground arith;
  fresh = λ j h. refl;
  stopped = λ h. ground arith;
  kept = λ h. ground arith;
  done = tt;
}

Done-early : (m : Main) (threads : List Thread) → is_final m ≡ false → Done m threads
Done-early reading threads h = tt
Done-early joining_listener threads h = tt
Done-early listener_joined threads h = tt
Done-early (joining n) threads h = ground arith
Done-early returned threads h = ground arith

final-behind : (m : Main) → is_behind m ≡ false → is_final m ≡ false
final-behind reading h = refl
final-behind joining_listener h = refl
final-behind listener_joined h = refl
final-behind (joining n) h = h
final-behind returned h = h

not_final : (s : Server) → Inv s → s.running ≡ true → is_final s.main ≡ false
not_final s inv r = elim (Bool-cases (is_behind s.main)) [
  | inl b ↦ ground (arith, inv.stopped b)
  | inr b ↦ final-behind s.main b
]

emplace_back-Inv : (s : Server) → Inv s → s.running ≡ true → Inv (emplace_back s)
unfolding emplace_back listed
emplace_back-Inv s inv r = record {
  active = λ j h. ground (
    arith,
    inv.active j,
    listed-append j s.running_handler_threads (record { id = s.next_id; joinable = true } ∷ []),
  );
  fresh = λ j h. ground (arith, inv.fresh j);
  stopped = λ h. inv.stopped h;
  kept = λ h. inv.kept h;
  done =
      Done-early s.main
        (s.running_handler_threads ++ (record { id = s.next_id; joinable = true } ∷ []))
        (not_final s inv r);
}

set_handler-Inv :
    (s : Server) (i : ℕ) (h : Handler)
    → Inv s
    → s.handlers i ≢ unborn
    → (is_active h ≡ true → is_active (s.handlers i) ≡ true)
    → Inv (set_handler i h s)
set_handler-Inv s i h inv born still = record {
  active = λ j a. inv.active j (ground (arith, still));
  fresh = λ j le. ground (arith, inv.fresh j);
  stopped = λ b. inv.stopped b;
  kept = λ b. inv.kept b;
  done = inv.done;
}

-- Without the removal the list stays, with it `main` is not there yet.
complete-Inv : (s : Server) (i : ℕ) → Inv s → s.handlers i ≡ completing → Inv (complete i s)
unfolding complete
complete-Inv s i inv e = record {
  active = λ j a. ground (arith, inv.active j, listed-remove j i s.running_handler_threads);
  fresh = λ j le. ground (arith, inv.fresh j);
  stopped = λ b. inv.stopped b;
  kept = λ b. inv.kept b;
  done = elim (Bool-cases s.remove_handler_threads_on_completion) [
    | inl on ↦ Done-early s.main _ (ground (arith, inv.kept))
    | inr off ↦ rw off inv.done
  ];
}

join-Inv :
    (s : Server) (front : List Thread) (t : Thread) (back : List Thread)
    → Inv s
    → s.main ≡ joining (length front)
    → s.running_handler_threads ≡ front ++ (t ∷ back)
    → IsOver s t
    → Inv (record s {
      main = joining (suc (length front));
      running_handler_threads = front ++ (joined t ∷ back);
    })
join-Inv s front t back inv m e over = record {
  active = λ j a.
      listed-joined j front t back (λ able same. ground (arith, over able))
      ∙ rw⁻¹ e (inv.active j a);
  fresh = inv.fresh;
  stopped = λ b. inv.stopped (rw m refl);
  kept = λ b. inv.kept (rw m refl);
  done = take-joined front t back (
      subst (λ threads. All IsJoined (take (length front) threads)) e
        (subst (λ main. Done main s.running_handler_threads) m inv.done));
}

return-Inv :
    (s : Server)
    → Inv s
    → s.main ≡ joining (length s.running_handler_threads)
    → Inv (record s { main = returned })
return-Inv s inv m = record {
  active = inv.active;
  fresh = inv.fresh;
  stopped = λ b. inv.stopped (rw m refl);
  kept = λ b. inv.kept (rw m refl);
  done =
      subst (All IsJoined)
        (take_all (length s.running_handler_threads) s.running_handler_threads (omega arith))
        (subst (λ main. Done main s.running_handler_threads) m inv.done);
}

-- Every step keeps the invariant: a handler that is not at its end is in the list to be joined.
pub Step-Inv : {s t : Server} → Inv s → Step s t → Inv t
Step-Inv {s} inv (accepted r) = emplace_back-Inv s inv r
Step-Inv inv (accept_failed r) = inv
Step-Inv {s} inv (closed r d) = record {
  active = inv.active;
  fresh = inv.fresh;
  stopped = λ b. refl;
  kept = inv.kept;
  done = inv.done;
}
Step-Inv {s} inv (answered i e) =
    set_handler-Inv s i completing inv (λ u. ground arith) (λ _. rw e refl)
Step-Inv {s} inv (left_early i e) =
    set_handler-Inv s i finished inv (λ u. ground arith) (λ _. rw e refl)
Step-Inv {s} inv (ended i e) =
    set_handler-Inv s i finished inv (λ u. ground arith) (λ h. absurd (cc h))
Step-Inv {s} inv (completed i e) = complete-Inv s i inv e
Step-Inv {s} inv (quit m) = record {
  active = inv.active;
  fresh = inv.fresh;
  stopped = λ b. ground arith;
  kept = λ b. ground arith;
  done = tt;
}
Step-Inv {s} inv (joined_listener m r) = record {
  active = inv.active;
  fresh = inv.fresh;
  stopped = λ b. r;
  kept = λ b. ground arith;
  done = tt;
}
Step-Inv {s} inv (stopped_removal m) = record {
  active = inv.active;
  fresh = inv.fresh;
  stopped = λ b. inv.stopped (rw m refl);
  kept = λ b. refl;
  done = tt;
}
Step-Inv {s} inv (joined_handler front t back m e over) = join-Inv s front t back inv m e over
Step-Inv {s} inv (main_returned m) = return-Inv s inv m

pub Reach-Inv : {s : Server} → Reach s → Inv s
Reach-Inv started = start-Inv
Reach-Inv (later r step) = Step-Inv (Reach-Inv r) step

not_active :
    (j : ℕ) (threads : List Thread) (h : Handler)
    → (is_active h ≡ true → listed j threads ≡ true)
    → listed j threads ≡ false
    → is_active h ≡ false
not_active j threads unborn h n = refl
not_active j threads serving h n = ground arith
not_active j threads completing h n = ground arith
not_active j threads closing h n = refl
not_active j threads finished h n = refl

-- Whatever the order of the steps of all threads, when `main` returns no handler is still answering or
-- before its last section under the lock, though one may still close its connection; and no entry of the
-- list is left to be joined, so its destructor does not end the program.
pub Reach-returned :
    {s : Server}
    → Reach s
    → s.main ≡ returned
    → ((j : ℕ) → is_active (s.handlers j) ≡ false) × All IsJoined s.running_handler_threads
Reach-returned {s} r m =
    let inv = Reach-Inv r in
    let over = subst (λ main. Done main s.running_handler_threads) m inv.done in
    (
      λ j.
          not_active j s.running_handler_threads (s.handlers j) (inv.active j)
            (listed_none j s.running_handler_threads over),
      over,
    )
