-- ===== src/Bft/Transfer/Examples.antt =====
-- A file of two bytes whose only block arrives twice.
use rechnernetze.Base.{
  ◌+◌, ◌*◌, ◌≡◌, refl, true, false, List, [], ◌∷◌, map, some, none, arith, codes,
}
use rechnernetze.Bft.Flags.{no_flags, syn, or_flags, has_flag}
use rechnernetze.Process.{Bytes, ok, RecvFrom, packet}
use rechnernetze.Bft.Samples.{sum_crc, localhost}
use rechnernetze.Bft.Datagram.{
  BftDatagram, send, calc_checksum, zero_payload, receive, log_and_return, overwrite,
}
use rechnernetze.Bft.Datagram.Image.{receive-send}
use rechnernetze.Bft.Datagram.Checks.{built, built-IsFormed}
use rechnernetze.Bft.Files.{put, put_same}
use rechnernetze.Bft.Client.{read_blocks}
use rechnernetze.Bft.Server.{ClientData, World, Server, run}
use rechnernetze.Bft.Server.Arrivals.{Progress, arrival, arrived, dues}
use rechnernetze.Bft.Server.Running.{Steady, Taken}
use rechnernetze.Bft.Transfer.{Delivered, all_there, fresh, repeated, blocks_sent, transfer}

abbrev world : World
world = record { crc = sum_crc; directory = codes "out"; openable = λ _. true }

abbrev path : Bytes
path = codes "out/f"

abbrev client : ClientData
client = record {
  file_writer = record {
    file_path = path;
    is_open = true;
    bytes_written = 0;
    last_bytes_written = 0;
    last_log = 0;
  };
  file_transfer_start_time = 0;
  address = localhost;
  n_duplicates = 0;
  current_sqn = true;
}

abbrev begun : Server
begun = record {
  current_client = some client;
  host = record { files = put path (some []) (λ _. none); clock = λ n. (n + 1) * 300000000 };
  sent = [];
}

begun-Progress : Progress localhost path true [] begun
begun-Progress = record {
  client = client;
  is_current = refl;
  same_address = refl;
  same_path = refl;
  sqn_due = refl;
  on_file = record {
    on_disk = put_same path (some []) (λ _. none);
    counted = omega arith;
    opened = refl;
  };
}

steady : Steady begun.host
steady n = omega arith

abbrev data_block : BftDatagram
data_block = built sum_crc no_flags (3 ∷ 4 ∷ []) true

abbrev events : List RecvFrom
events = packet (send data_block) localhost ∷ packet (send data_block) localhost ∷ []

received : Taken (packet (send data_block) localhost)
received = (
  _,
  receive-send data_block localhost
      (built-IsFormed sum_crc no_flags (3 ∷ 4 ∷ []) true (omega arith) (omega arith)),
)

arrived_block : arrived (packet (send data_block) localhost) ≡ (data_block, localhost)
unfolding arrived arrival receive log_and_return overwrite send built calc_checksum zero_payload
    or_flags has_flag
arrived_block = refl

arrive :
    Delivered world localhost.s_addr
      (built sum_crc syn (codes "f") false)
      (blocks_sent world true (read_blocks 2 (3 ∷ 4 ∷ [])))
      (map arrived events)
unfolding read_blocks
arrive = rw arrived_block (fresh localhost refl (repeated localhost all_there))

transfer_example :
    (s' : Server) × (run world begun events ≡ ok s')
    × Progress localhost path
        (dues world localhost.s_addr true (map arrived events))
        (3 ∷ 4 ∷ [])
        s'
transfer_example =
    transfer world localhost path (codes "f") (3 ∷ 4 ∷ []) begun events begun-Progress steady
      (received, (received, tt)) arrive
