-- ===== src/Bft/Server/Examples.antt =====
-- Runs of the server: an upload of two bytes, and what is refused.
use rechnernetze.Base.{
  ◌*◌, ◌+◌, ◌≡◌, ◌≢◌, ◌⊎◌, refl, true, false, Bool, List, [], ◌∷◌, map, some, none, arith, codes,
  bool_eq,
}
use rechnernetze.Bft.Flags.{no_flags, fin, syn, has_flag, or_flags, clear_flag}
use rechnernetze.Process.{Bytes, ok, stop, division_by_zero, RecvFrom, packet}
use rechnernetze.Bft.Datagram.{
  BftDatagram, default_datagram, of_flags, abr_datagram, create_ack, check_integrity, is_syn,
  is_abr, syn_datagram, get_sqn, get_payload, send, calc_checksum, zero_payload, receive,
  log_and_return, overwrite,
}
use rechnernetze.Bft.Datagram.Image.{receive-send}
use rechnernetze.Bft.Datagram.Checks.{built, built-IsFormed}
use rechnernetze.Bft.Samples.{sum_crc, localhost}
use rechnernetze.Bft.Files.{put, put_same}
use rechnernetze.Bft.FileWriter.{FileWriter, Host, now, tick, elapsed_ms}
use rechnernetze.Bft.FileWriter.Laws.{Writes}
use rechnernetze.Bft.Server.{
  ClientData, World, Server, dispatch, on_received, on_other, on_regular, step, run,
}
use rechnernetze.Bft.Server.Arrivals.{
  Progress, uploaded, dues, arrival, arrived, block, is_part, is_due, next_due, ends, NoneEnds,
}
use rechnernetze.Bft.Server.Sound.{IsSound, step-IsSound}
use rechnernetze.Bft.Server.Running.{Steady, Taken, run-uploaded}
use rechnernetze.Bft.Server.Replies.{Begun, dispatch_busy, dispatch_syn}
use rechnernetze.Bft.Server.Closing.{IsRegular, dispatch_acknowledged, dispatch-fin}

abbrev world : World
world = record { crc = sum_crc; directory = codes "out"; openable = λ _. true }

abbrev path : Bytes
path = codes "out/f"

abbrev writer : FileWriter
writer = record {
  file_path = path;
  is_open = true;
  bytes_written = 2;
  last_bytes_written = 0;
  last_log = 0;
}

abbrev host : Host
host = record { files = put path (some (1 ∷ 2 ∷ [])) (λ _. none); clock = λ n. (n + 1) * 300000000 }

abbrev client : ClientData
client = record {
  file_writer = writer;
  file_transfer_start_time = 0;
  address = localhost;
  n_duplicates = 0;
  current_sqn = true;
}

abbrev uploading : Server
uploading = record { current_client = some client; host = host; sent = [] }

abbrev idle : Server
idle = record { current_client = none; host = host; sent = [] }

writer-Writes : Writes writer (1 ∷ 2 ∷ []) host.files
writer-Writes = record {
  on_disk = put_same path (some (1 ∷ 2 ∷ [])) (λ _. none);
  counted = omega arith;
  opened = refl;
}

uploading-Progress : Progress localhost path true (1 ∷ 2 ∷ []) uploading
uploading-Progress = record {
  client = client;
  is_current = refl;
  same_address = refl;
  same_path = refl;
  sqn_due = refl;
  on_file = writer-Writes;
}

abbrev data_block : Bool → BftDatagram
data_block b = built sum_crc no_flags (3 ∷ 4 ∷ []) b

steady : Steady host
steady n = omega arith

-- The block that is due, its copy, and a timeout of `recvfrom`.
abbrev events : List RecvFrom
events = packet (send (data_block true)) localhost ∷ packet (send (data_block true)) localhost ∷ []

received : (b : Bool) → Taken (packet (send (data_block b)) localhost)
received b = (
  _,
  receive-send (data_block b) localhost
      (built-IsFormed sum_crc no_flags (3 ∷ 4 ∷ []) b (omega arith) (omega arith)),
)

arrived_block :
    (b : Bool) → arrived (packet (send (data_block b)) localhost) ≡ (data_block b, localhost)
unfolding arrived arrival receive log_and_return overwrite send built calc_checksum zero_payload
    or_flags has_flag
arrived_block true = refl
arrived_block false = refl

none_ends : NoneEnds world localhost.s_addr true (map arrived events)
unfolding arrived arrival receive log_and_return overwrite send built calc_checksum zero_payload
    or_flags has_flag ends next_due is_due is_part check_integrity is_syn is_abr syn_datagram
    abr_datagram of_flags clear_flag
none_ends = (refl, (refl, tt))

bytes_uploaded : uploaded world localhost.s_addr true (map arrived events) ≡ 3 ∷ 4 ∷ []
unfolding uploaded block arrived arrival receive log_and_return overwrite send built calc_checksum
    zero_payload or_flags has_flag next_due is_due is_part check_integrity is_syn is_abr
    syn_datagram abr_datagram of_flags clear_flag
bytes_uploaded = refl

run-uploaded_example :
    (s' : Server) × (run world uploading events ≡ ok s')
    × Progress localhost path
        (dues world localhost.s_addr true (map arrived events))
        (1 ∷ 2 ∷ uploaded world localhost.s_addr true (map arrived events))
        s'
run-uploaded_example =
    run-uploaded world localhost path (1 ∷ 2 ∷ []) true uploading events uploading-Progress steady
      (received true, (received true, tt)) none_ends

abbrev after : Server
after = record uploading { sent = (localhost, send (abr_datagram sum_crc)) ∷ [] }

abbrev start : BftDatagram
start = built sum_crc syn (codes "g") false

start_intact : check_integrity sum_crc start ≡ true
unfolding check_integrity built calc_checksum
start_intact = refl

start_recognised : is_syn sum_crc start ≡ true
unfolding is_syn built syn_datagram of_flags or_flags has_flag
start_recognised = refl

start_payload : get_payload start ≡ some (codes "g")
unfolding built
start_payload = refl

busy_step : step world uploading (packet (send start) localhost) ≡ ok after
unfolding step on_received
busy_step =
    rw
      (
        receive-send start localhost
            (built-IsFormed sum_crc syn (codes "g") false (omega arith) (omega arith)),
        on_received,
      )
      (dispatch_busy world start localhost uploading client refl start_intact start_recognised)

step-IsSound_example : IsSound after
step-IsSound_example =
    step-IsSound world uploading (packet (send start) localhost) (1 ∷ 2 ∷ [], writer-Writes)
      busy_step

dispatch_syn_example :
    (s' : Server) × (dispatch world start localhost idle ≡ ok s')
    × Begun world start (codes "g") localhost idle s'
dispatch_syn_example =
    dispatch_syn world start localhost idle (codes "g") refl start_intact start_recognised
      start_payload refl

damaged : check_integrity sum_crc default_datagram ≡ false
unfolding check_integrity calc_checksum zero_payload
damaged = refl

-- The last datagram of an upload, when the server has none any more.
abbrev finish : BftDatagram
finish = of_flags sum_crc fin true

finish_intact : check_integrity sum_crc finish ≡ true
unfolding check_integrity of_flags calc_checksum zero_payload or_flags
finish_intact = refl

finish_not_syn : is_syn sum_crc finish ≡ false
unfolding is_syn syn_datagram of_flags or_flags has_flag
finish_not_syn = refl

finish_not_abr : is_abr sum_crc finish ≡ false
unfolding is_abr abr_datagram of_flags or_flags has_flag
finish_not_abr = refl

finish-IsRegular : IsRegular world finish localhost client uploading
finish-IsRegular = record {
  current = refl;
  intact = finish_intact;
  not_syn = finish_not_syn;
  not_abr = finish_not_abr;
  from_client = refl;
}

finish_due : bool_eq (get_sqn finish) true ≡ true
unfolding of_flags or_flags has_flag
finish_due = refl

finish_is_fin : has_flag finish.flags fin ≡ true
unfolding of_flags or_flags has_flag
finish_is_fin = refl

dispatch-fin_example :
    ((elapsed_ms 0 (now (tick host)) ≡ 0)
      × (dispatch world finish localhost uploading ≡ stop division_by_zero))
    ⊎ ((elapsed_ms 0 (now (tick host)) ≢ 0)
        × ((s' : Server) × (dispatch world finish localhost uploading ≡ ok s')
            × (s'.current_client ≡ none)
            × (s'.host.files ≡ host.files)))
dispatch-fin_example =
    dispatch-fin world finish localhost client uploading finish-IsRegular finish_due finish_is_fin

-- A copy of what came before: not due.
abbrev copy : BftDatagram
copy = data_block false

abbrev counted : Server
counted = record uploading {
  current_client = some (record client { n_duplicates = 1 });
  sent = (localhost, send (create_ack sum_crc copy)) ∷ [];
}

copy-IsRegular : IsRegular world copy localhost client uploading
unfolding check_integrity built calc_checksum zero_payload is_syn syn_datagram of_flags or_flags
    has_flag is_abr abr_datagram
copy-IsRegular = record {
  current = refl;
  intact = refl;
  not_syn = refl;
  not_abr = refl;
  from_client = refl;
}

copy_counted : dispatch world copy localhost uploading ≡ ok counted
unfolding dispatch on_other on_regular check_integrity built calc_checksum zero_payload is_syn
    syn_datagram of_flags or_flags has_flag is_abr abr_datagram
copy_counted = refl

dispatch_acknowledged_example : counted.sent ≡ (localhost, send (create_ack sum_crc copy)) ∷ []
dispatch_acknowledged_example =
    dispatch_acknowledged world copy localhost client uploading copy-IsRegular copy_counted
