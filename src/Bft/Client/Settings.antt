-- ===== src/Bft/Client/Settings.antt =====
-- The receive timeout that `main` sets, and what the SIGINT handler makes of a silent server.
use native.Mathlib.Nat.{mod-eq-sub-mod, mod-eq_of_lt}
use rechnernetze.Base.{
  ℕ, ◌+◌, ◌*◌, ◌<◌, ◌≡◌, List, ◌++◌, arith, replicate, false, ◌∙◌, ◌-◌, ◌%◌, ◌/◌, ◌==◌, inl, inr,
  Bool-cases, pos,
}
use rechnernetze.Process.{exited, stop, thrown, exit_success, Crc}
use rechnernetze.Bft.Flags.{abr}
use rechnernetze.Bft.Datagram.{of_flags}
use rechnernetze.Bft.Client.Wait.{timeout, exchange_gives_up}
use rechnernetze.Bft.Client.{
  Client, Round, exchange, receive_timeout, notify_server, signal_handler,
}

-- The seconds and the microseconds add up to the option's milliseconds, and the microseconds stay
-- below a second, as `setsockopt` wants it.
pub receive_timeout_lem :
    (ms : ℕ)
    → ((receive_timeout ms).tv_sec * 1000000 + (receive_timeout ms).tv_usec ≡ ms * 1000)
      × ((receive_timeout ms).tv_usec < 1000000)
unfolding receive_timeout
receive_timeout_lem ms = elim (Bool-cases (ms / 1000 == 0)) [
  | inl short ↦ rw short (ground arith)
  | inr long ↦
      let past : ms % (ms / 1000 * 1000) ≡ ms - ms / 1000 * 1000 =
        mod-eq-sub-mod (omega arith) ∙ mod-eq_of_lt (ground arith) in
      rw (long, past) (omega arith)
]

-- An exchange that raises the exception ends the loop of the handler.
given_up :
    (crc : Crc) (rounds : List Round) (s : Client)
    → exchange (pos 3) (of_flags crc abr false) 0 rounds s ≡ stop thrown
    → signal_handler crc rounds s ≡ exited exit_success
unfolding signal_handler notify_server
given_up crc rounds s e = rw (e, signal_handler, notify_server)

-- On SIGINT the client waits for a silent server four times and exits with success.
pub signal_handler-silence :
    (crc : Crc) (rest : List Round) (s : Client)
    → signal_handler crc (replicate 4 timeout ++ rest) s ≡ exited exit_success
signal_handler-silence crc rest s =
    given_up crc (replicate 4 timeout ++ rest) s
      (exchange_gives_up 3 0 (of_flags crc abr false) rest s 4 (omega arith) (omega arith))
