-- ===== src/Bft/Server.antt =====
-- aufg4/bft_server/main.cpp. A run handles one outcome of `recvfrom` after the other; what it sends is
-- kept with the address, newest first.
pub mod Sound
pub mod Arrivals
pub mod Upload
pub mod Growth
pub mod Running
pub mod Replies
pub mod Closing
pub mod Start
mod Examples
use rechnernetze.Base.{
  ℕ, ◌+◌, ◌%◌, ◌^◌, Bool, true, false, not, List, [], ◌∷◌, Option, none, some, ◌==◌, bool_eq,
  if◌then◌else◌,
}
use rechnernetze.Bft.Flags.{no_flags, sqn, fin, agn, has_flag, clear_flag}
use rechnernetze.Process.{
  Bytes, Stop, Result, ok, stop, ◌>>=◌, exited, exit_success, exit_failure, buffer_overread,
  null_dereference, Address, RecvFrom, Crc,
}
use rechnernetze.Bft.Datagram.{
  BftDatagram, default_datagram, get_payload, get_flags, get_sqn, of_flags, abr_datagram,
  check_integrity, is_syn, is_abr, create_ack, Received, message, would_block, receive, send,
}
use rechnernetze.Bft.Files.{Files, exists, remove, join}
use rechnernetze.Bft.FileWriter
use rechnernetze.Bft.FileWriter.{FileWriter, Host, now, tick}

pub record ClientData : Type 0 where
  pub file_writer : FileWriter
  pub file_transfer_start_time : ℕ
  pub address : Address
  pub n_duplicates : ℕ
  pub current_sqn : Bool

-- What the program does not choose: the checksum library, its directory option, and which paths the
-- system opens.
pub record World : Type 0 where
  pub crc : Crc
  pub directory : Bytes
  pub openable : Bytes → Bool

pub record Server : Type 0 where
  pub current_client : Option ClientData
  pub host : Host
  pub sent : List (Address × Bytes)

abbrev pub increment_sqn : ClientData → ClientData
increment_sqn c = record c { current_sqn = not c.current_sqn }

abbrev pub send_to : Address → BftDatagram → Server → Server
send_to to d s = record s { sent = (to, send d) ∷ s.sent }

-- `sin_addr.s_addr` alone is compared.
abbrev pub same_host : Address → Address → Bool
same_host a b = a.s_addr == b.s_addr

-- `sockaddr_in sender_addr{};`
abbrev pub zero_address : Address
zero_address = record { s_addr = 0; sin_port = 0 }

-- `const std::filesystem::path &filepath` and what follows it: the file goes if it exists, and a
-- client with a fresh file takes the place.
unfoldable pub open_upload : World → Bytes → Address → Host → Result (ClientData × Host)
open_upload w path client_addr h = do
  let cleared = if exists path h.files then record h { files = remove path h.files } else h
  (writer, opened) ← FileWriter.create w.openable path cleared
  ok (
    record {
      file_writer = writer;
      file_transfer_start_time = now opened;
      address = client_addr;
      n_duplicates = 0;
      current_sqn = false;
    },
    tick opened,
  )

unfoldable pub handle_syn : World → BftDatagram → Address → Server → Result (Server × Bool)
handle_syn w d client_addr s = elim s.current_client [
  | some _ ↦ ok (s, false)
  | none ↦ elim (get_payload d) [
    | none ↦ stop buffer_overread
    | some filename ↦ do
      (client, host) ← open_upload w (join w.directory filename) client_addr s.host
      ok (record s { current_client = some client; host = host }, true)
  ]
]

-- The FIN case reads the clock once before it logs.
unfoldable pub finish_upload : ClientData → Server → Result Server
finish_upload c s = do
  (_, host) ← FileWriter.log_bytes_written c.file_writer (tick s.host)
  ok (record s { current_client = none; host = host })

unfoldable pub store_payload : Bytes → ClientData → Server → Result Server
store_payload payload c s = do
  (writer, host) ← FileWriter.write_bytes payload c.file_writer s.host
  ok (record s { current_client = some (record c { file_writer = writer }); host = host })

store_datagram : BftDatagram → ClientData → Server → Result Server
store_datagram d c s = elim (get_payload d) [
  | none ↦ stop buffer_overread
  | some payload ↦ store_payload payload c s
]

unfoldable pub handle_valid_datagram : BftDatagram → ClientData → Server → Result Server
unfolding store_datagram
handle_valid_datagram d c s =
    if has_flag (get_flags d) fin
    then finish_upload c s
    else if clear_flag (get_flags d) sqn == no_flags
    then store_datagram d c s
    else ok (record s { current_client = some c })

module _ (w : World) where
  -- `current_client` is read without a test.
  unfoldable pub on_corrupt : Address → Server → Result Server
  on_corrupt sender s = elim s.current_client [
    | none ↦ stop null_dereference
    | some c ↦ ok (send_to sender (of_flags w.crc agn c.current_sqn) s)
  ]

  answer_syn : BftDatagram → Address → Server × Bool → Result Server
  answer_syn d sender (s, false) = ok (send_to sender (abr_datagram w.crc) s)
  answer_syn d sender (s, true) =
      let acked = send_to sender (create_ack w.crc d) s in
      elim acked.current_client [
        | none ↦ stop null_dereference
        | some c ↦ ok (record acked { current_client = some (increment_sqn c) })
      ]

  unfoldable pub on_syn : BftDatagram → Address → Server → Result Server
  unfolding answer_syn
  on_syn d sender s = handle_syn w d sender s >>= answer_syn d sender

  unfoldable pub on_abr : BftDatagram → Address → Server → Result Server
  on_abr d sender s =
      let acked = send_to sender (create_ack w.crc d) s in
      elim acked.current_client [
        | none ↦ ok acked
        | some c ↦
            if same_host sender c.address
            then ok (record acked {
              current_client = none;
              host = FileWriter.abort c.file_writer acked.host;
            })
            else ok acked
      ]

  unfoldable pub on_regular : BftDatagram → ClientData → Server → Result Server
  on_regular d c s =
      let acked = send_to c.address (create_ack w.crc d) s in
      if bool_eq (get_sqn d) c.current_sqn
      then handle_valid_datagram d (increment_sqn c) acked
      else ok (record acked {
        current_client = some (record c { n_duplicates = (c.n_duplicates + 1) % 2 ^ 32 });
      })

  unfoldable pub on_other : BftDatagram → Address → Server → Result Server
  on_other d sender s = elim s.current_client [
    | none ↦ ok (send_to sender (abr_datagram w.crc) s)
    | some c ↦
        if same_host sender c.address
        then on_regular d c s
        else ok (send_to sender (abr_datagram w.crc) s)
  ]

  unfoldable pub dispatch : BftDatagram → Address → Server → Result Server
  dispatch d sender s =
      if not (check_integrity w.crc d)
      then on_corrupt sender s
      else if is_syn w.crc d
      then on_syn d sender s
      else if is_abr w.crc d
      then on_abr d sender s
      else on_other d sender s

  -- The result of `receive` is not looked at: after -1 the object and the address are the fresh ones.
  unfoldable pub on_received : Received → Server → Result Server
  on_received (message n sender d) s = dispatch d sender s
  on_received would_block s = dispatch default_datagram zero_address s

  -- One round of the loop in `main`.
  unfoldable pub step : Server → RecvFrom → Result Server
  step s event = receive default_datagram event >>= λ r. on_received r s

  unfoldable pub run : Server → List RecvFrom → Result Server
  run s [] = ok s
  run s (event ∷ events) = step s event >>= λ s'. run s' events

  -- SIGINT: the server is gone afterwards; what it sends is its last word.
  unfoldable pub signal_handler : Server → Server × Stop
  signal_handler s = elim s.current_client [
    | none ↦ (s, exited exit_success)
    | some c ↦ (send_to c.address (abr_datagram w.crc) s, exited exit_success)
  ]
