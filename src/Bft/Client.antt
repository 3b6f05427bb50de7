-- ===== src/Bft/Client.antt =====
-- aufg4/bft_client/main.cpp. A round is one `sendto` with the `recvfrom` after it; a run is given the
-- outcomes of its rounds in advance, and is pending where they are used up.
pub mod Exchange
pub mod Wait
pub mod Blocks
pub mod Prompt
pub mod Settings
pub mod Start
pub mod Main
mod Examples
use rechnernetze.Base.{
  ℕ, zero, suc, ◌+◌, ◌-◌, ◌*◌, ◌/◌, ◌%◌, ◌^◌, Bool, true, false, not, ◌&&◌, ◌||◌, List, [], ◌∷◌,
  Option, none, some, ℤ, pos, negsuc, length, take, drop, ltb, ◌==◌, bool_eq, if◌then◌else◌,
}
use rechnernetze.Bft.Flags.{no_flags, fin, abr, syn, has_flag}
use rechnernetze.Process.{
  Bytes, Stop, Result, ok, stop, ◌>>=◌, exited, thrown, pending, exit_failure, exit_success,
  buffer_overrun, Address, RecvFrom, Crc,
}
use rechnernetze.Bft.Datagram.{
  BftDatagram, default_datagram, max_payload_size, get_flags, get_sqn, of_flags, of_range,
  of_string, check_integrity, is_ack_for, Received, message, would_block, receive, send,
}

-- The globals of main.cpp; whether errno is EAGAIN; and what was sent, newest first.
pub record Client : Type 0 where
  pub curr_sqn : Bool
  pub server_addr : Address
  pub n_retransmissions : ℕ
  pub errno_again : Bool
  pub sent : List (Address × Bytes)

-- Whether `sendto` succeeds, and what `recvfrom` yields then.
pub record Round : Type 0 where
  pub sends : Bool
  pub reply : RecvFrom

-- One pass of the inner loop: a response, or another try with its retry count.
pub data Attempt : Type 0 where
  responded : BftDatagram → Client → Attempt
  retry : ℕ → Client → Attempt

count_retransmission : Client → Client
count_retransmission s = record s { n_retransmissions = (s.n_retransmissions + 1) % 2 ^ 32 }

-- The part of the loop behind a receive that yielded nothing. A negative limit stands for none.
unfoldable pub no_response : ℤ → ℕ → Client → Result (ℕ × Client)
unfolding count_retransmission
no_response (negsuc _) retry_count s =
    if s.errno_again then ok (retry_count, count_retransmission s) else stop (exited exit_failure)
no_response (pos limit) retry_count s =
    if s.errno_again
    then (if ltb retry_count limit
        then ok (retry_count + 1, count_retransmission s)
        else stop thrown)
    else stop (exited exit_failure)

abbrev as_retry : ℕ × Client → Result Attempt
as_retry (n, s) = ok (retry n s)

-- `receive` writes the sender into the address that it is given, which is `server_addr`.
unfoldable pub after_receive : ℤ → ℕ → Client → Received → Result Attempt
after_receive limit retry_count s (message bytes_recvd sender response) =
    let heard = record s { server_addr = sender } in
    if ltb 0 bytes_recvd
    then ok (responded response heard)
    else no_response limit retry_count heard >>= as_retry
after_receive limit retry_count s would_block =
    no_response limit retry_count (record s { errno_again = true }) >>= as_retry

unfoldable pub attempt : ℤ → BftDatagram → ℕ → Round → Client → Result Attempt
attempt limit datagram retry_count round s =
    if round.sends
    then (receive default_datagram round.reply
        >>= after_receive limit retry_count
            (record s { sent = (s.server_addr, send datagram) ∷ s.sent }))
    else stop (exited exit_failure)

-- A response, the rounds that are left, and the client.
pub record Exchanged : Type 0 where
  pub response : BftDatagram
  pub rest : List Round
  pub client : Client

-- The loop of send_and_receive_response from a retry count on.
unfoldable pub exchange : ℤ → BftDatagram → ℕ → List Round → Client → Result Exchanged
exchange limit datagram retry_count [] s = stop pending
exchange limit datagram retry_count (round ∷ rounds) s =
    attempt limit datagram retry_count round s >>= elim [
      | responded response s' ↦ ok (record { response = response; rest = rounds; client = s' })
      | retry n s' ↦ exchange limit datagram n rounds s'
    ]

-- What the client makes of a response.
pub data Verdict : Type 0 where
  again busy acknowledged : Verdict

unfoldable pub built_or_overrun : Option BftDatagram → Result BftDatagram
built_or_overrun none = stop buffer_overrun
built_or_overrun (some d) = ok d

-- The blocks of the file, as `file.read` fills the array of 504 bytes: fuel for the rounds.
unfoldable pub read_blocks : ℕ → Bytes → List Bytes
read_blocks zero content = []
read_blocks (suc fuel) [] = []
read_blocks (suc fuel) (c ∷ content) =
    take max_payload_size (c ∷ content) ∷ read_blocks fuel (drop max_payload_size (c ∷ content))

module _ (crc : Crc) where
  unfoldable pub judge : BftDatagram → Bool → BftDatagram → Verdict
  judge datagram curr_sqn response =
      if not (check_integrity crc response)
      then again
      else if has_flag (get_flags response) abr && not (get_sqn response)
      then busy
      else if not (bool_eq (get_sqn response) curr_sqn)
      then again
      else if is_ack_for response datagram
      then acknowledged
      else again

  -- The loop of send_datagram_and_wait_for_ACK, with fuel for its passes.
  unfoldable pub wait_loop :
      ℕ → ℤ → BftDatagram → List Round → Client → Result (List Round × Client)
  wait_loop zero limit datagram rounds s = stop pending
  wait_loop (suc fuel) limit datagram rounds s = exchange limit datagram 0 rounds s >>= λ x.
      elim (judge datagram x.client.curr_sqn x.response) [
        | again ↦ wait_loop fuel limit datagram x.rest x.client
        | busy ↦ stop (exited exit_failure)
        | acknowledged ↦ ok (x.rest, record (x.client) { curr_sqn = not x.client.curr_sqn })
      ]

  -- Each pass uses up a round, so a pass for each round is enough.
  unfoldable pub send_and_wait :
      ℤ → BftDatagram → List Round → Client → Result (List Round × Client)
  send_and_wait limit datagram rounds s = wait_loop (suc (length rounds)) limit datagram rounds s

  unfoldable pub send_blocks : ℤ → List Bytes → List Round × Client → Result (List Round × Client)
  unfolding built_or_overrun
  send_blocks limit [] (rounds, s) = ok (rounds, s)
  send_blocks limit (block ∷ blocks) (rounds, s) =
      built_or_overrun (of_range crc no_flags block s.curr_sqn) >>= λ d.
      send_and_wait limit d rounds s >>= λ r. send_blocks limit blocks r

  -- `main` behind the options: SYN with the file's name, the blocks, and FIN.
  unfoldable pub upload : ℤ → Bytes → Bytes → List Round → Client → Result (List Round × Client)
  unfolding built_or_overrun
  upload limit filename content rounds s =
      built_or_overrun (of_string crc syn filename s.curr_sqn) >>= λ d.
      send_and_wait limit d rounds s >>= λ r.
      send_blocks limit (read_blocks (length content) content) r >>= λ r'.
      send_and_wait limit (of_flags crc fin r'.1.curr_sqn) r'.0 r'.1

  -- The loop of the SIGINT handler: ABR until it is acknowledged, or three timeouts in a row.
  unfoldable pub notify_server : ℕ → List Round → Client → Result Client
  notify_server zero rounds s = stop pending
  notify_server (suc fuel) rounds s = elim (exchange (pos 3) (of_flags crc abr false) 0 rounds s) [
    | ok x ↦
        elim (not (check_integrity crc x.response)
          || not (is_ack_for x.response (of_flags crc abr false))) [
            | true ↦ notify_server fuel x.rest x.client
            | false ↦ ok x.client
          ]
    | stop thrown ↦ ok s
    | stop other ↦ stop other
  ]

  unfoldable pub signal_handler : List Round → Client → Stop
  signal_handler rounds s = elim (notify_server (suc (length rounds)) rounds s) [
    | ok _ ↦ exited exit_success
    | stop why ↦ why
  ]

-- The receive timeout of the socket, in seconds and microseconds.
pub record TimeVal : Type 0 where
  pub tv_sec : ℕ
  pub tv_usec : ℕ

unfoldable pub receive_timeout : ℕ → TimeVal
receive_timeout retransmission_timeout_ms =
    let timeout_sec = retransmission_timeout_ms / 1000 in
    record {
      tv_sec = timeout_sec;
      tv_usec =
          if timeout_sec == 0
          then retransmission_timeout_ms * 1000
          else retransmission_timeout_ms % (timeout_sec * 1000) * 1000;
    }
