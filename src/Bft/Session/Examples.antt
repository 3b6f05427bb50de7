-- ===== src/Bft/Session/Examples.antt =====
-- A client that begins to send the file `g`, and one at its end.
use rechnernetze.Base.{ℕ, ◌≡◌, ◌≢◌, some, ◌+◌, ◌*◌, refl, true, false, [], ◌∷◌, none, codes, arith}
use rechnernetze.Process.{Bytes, ok, packet}
use rechnernetze.Bft.Flags.{syn, fin}
use rechnernetze.Bft.Samples.{sum_crc, localhost}
use rechnernetze.Bft.Datagram.{BftDatagram, of_flags, default_datagram, message, receive, send}
use rechnernetze.Bft.Datagram.Checks.{built}
use rechnernetze.Bft.Client.{busy, judge}
use rechnernetze.Bft.Server.{ClientData, World, Server, step}
use rechnernetze.Bft.Server.Arrivals.{Progress}
use rechnernetze.Bft.Files.{put, put_same}
use rechnernetze.Bft.FileWriter.{now, tick, elapsed_ms}
use rechnernetze.Bft.Server.Replies.{Begun}
use rechnernetze.Bft.Session.{syn_again-busy, fin_again-busy}

abbrev world : World
world = record { crc = sum_crc; directory = codes "out"; openable = λ _. true }

abbrev idle : Server
idle = record {
  current_client = none;
  host = record { files = λ _. none; clock = λ n. (n + 1) * 300000000 };
  sent = [];
}

abbrev start : BftDatagram
start = built sum_crc syn (codes "g") false

syn_again-busy_example :
    (s' : Server) × (step world idle (packet (send start) localhost) ≡ ok s')
    × Begun world start (codes "g") localhost idle s'
    × (reply : Bytes) × (step world s' (packet (send start) localhost)
        ≡ ok (record s' { sent = (localhost, reply) ∷ s'.sent }))
    × (n : ℕ) × (response : BftDatagram) × (receive default_datagram (packet reply localhost)
        ≡ ok (message n localhost response))
    × (judge sum_crc start false response ≡ busy)
syn_again-busy_example =
    syn_again-busy world (codes "g") (omega arith) localhost idle localhost refl refl

-- An upload of an empty file, whose FIN is due.
abbrev path : Bytes
path = codes "out/f"

abbrev client : ClientData
client = record {
  file_writer = record {
    file_path = path;
    is_open = true;
    bytes_written = 0;
    last_bytes_written = 0;
    last_log = 0;
  };
  file_transfer_start_time = 0;
  address = localhost;
  n_duplicates = 0;
  current_sqn = true;
}

abbrev uploading : Server
uploading = record {
  current_client = some client;
  host = record { files = put path (some []) (λ _. none); clock = λ n. (n + 1) * 300000000 };
  sent = [];
}

uploading-Progress : Progress localhost path true [] uploading
uploading-Progress = record {
  client = client;
  is_current = refl;
  same_address = refl;
  same_path = refl;
  sqn_due = refl;
  on_file = record {
    on_disk = put_same path (some []) (λ _. none);
    counted = omega arith;
    opened = refl;
  };
}

abbrev finish : BftDatagram
finish = of_flags sum_crc fin true

some_time : elapsed_ms 0 (now (tick uploading.host)) ≢ 0
some_time h = cc

fin_again-busy_example :
    (s' : Server) × (step world uploading (packet (send finish) localhost) ≡ ok s')
    × (s'.current_client ≡ none)
    × (s'.host.files ≡ uploading.host.files)
    × (reply : Bytes) × (step world s' (packet (send finish) localhost)
        ≡ ok (record s' { sent = (localhost, reply) ∷ s'.sent }))
    × (n : ℕ) × (response : BftDatagram) × (receive default_datagram (packet reply localhost)
        ≡ ok (message n localhost response))
    × (judge sum_crc finish true response ≡ busy)
unfolding uploading-Progress
fin_again-busy_example =
    fin_again-busy world true localhost path [] uploading localhost uploading-Progress some_time
