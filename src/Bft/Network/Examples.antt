-- ===== src/Bft/Network/Examples.antt =====
-- A file of one block, whose first datagram is lost on its way to the server.
use rechnernetze.Base.{
  ℕ, ◌+◌, ◌*◌, ◌≡◌, ◌≢◌, refl, true, false, List, [], ◌∷◌, some, none, arith, codes,
}
use rechnernetze.Bft.Flags.{no_flags}
use rechnernetze.Process.{Bytes, ok, packet, Returns}
use rechnernetze.Bft.Samples.{sum_crc, localhost}
use rechnernetze.Bft.Datagram.{
  BftDatagram, default_datagram, message, receive, send, create_ack, size,
}
use rechnernetze.Bft.Datagram.Image.{receive-send}
use rechnernetze.Bft.Datagram.Checks.{built}
use rechnernetze.Bft.Files.{put, put_same}
use rechnernetze.Bft.Client.{busy, judge, read_blocks}
use rechnernetze.Bft.Client.Prompt.{built-Outgoing, create_ack-IsFormed, judge-create_ack}
use rechnernetze.Bft.Server.{ClientData, World, Server, step}
use rechnernetze.Bft.Server.Arrivals.{Progress}
use rechnernetze.Bft.Server.Running.{Steady}
use rechnernetze.Bft.Network.{Net, Reach, started, later, sends, up_lost, arrives, turns}
use rechnernetze.Bft.Network.Arrival.{took, acknowledged_to_owner}
use rechnernetze.Bft.Network.Delivery.{begun, Reach-Progress}
use rechnernetze.Bft.Network.Completion.{Moves, Reach-Moves}
use rechnernetze.Bft.Network.Answering.{Answers, Reach-Answers}

abbrev world : World
world = record { crc = sum_crc; directory = codes "out"; openable = λ _. true }

abbrev path : Bytes
path = codes "out/f"

abbrev client : ClientData
client = record {
  file_writer = record {
    file_path = path;
    is_open = true;
    bytes_written = 0;
    last_bytes_written = 0;
    last_log = 0;
  };
  file_transfer_start_time = 0;
  address = localhost;
  n_duplicates = 0;
  current_sqn = true;
}

abbrev server : Server
server = record {
  current_client = some client;
  host = record { files = put path (some []) (λ _. none); clock = λ n. (n + 1) * 300000000 };
  sent = [];
}

begun-Progress : Progress localhost path true [] server
begun-Progress = record {
  client = client;
  is_current = refl;
  same_address = refl;
  same_path = refl;
  sqn_due = refl;
  on_file = record {
    on_disk = put_same path (some []) (λ _. none);
    counted = omega arith;
    opened = refl;
  };
}

steady : Steady server.host
steady n = omega arith

abbrev content : Bytes
content = 3 ∷ 4 ∷ []

abbrev net : Net
net = begun world localhost localhost path content server

abbrev sent : BftDatagram
sent = built sum_crc no_flags content true

one_block : net.todo ≡ content ∷ []
unfolding read_blocks
one_block = refl

-- The datagram of the block is lost, and sent again.
abbrev waiting_again : Net
waiting_again = record net { up = send sent ∷ [] }

lost_once : Reach world localhost localhost net waiting_again
lost_once =
    later (later (later started (sends content [] one_block)) (up_lost [] (send sent) [] refl))
      (sends content [] one_block)

taken :
    Returns
      (λ s. s.sent ≡ (localhost, send (create_ack sum_crc sent)) ∷ server.sent)
      (step world server (packet (send sent) localhost))
taken =
    let (s, ran, _) =
      took world localhost path [] content true server (omega arith) steady begun-Progress in
    (
      s,
      ran,
      acknowledged_to_owner world localhost path [] content true server (omega arith) steady true
          begun-Progress ran,
    )

-- Its acknowledgement comes, and nothing is left to send.
abbrev finished : Net
finished = record { todo = []; curr_sqn = false; up = []; down = []; server = taken.0 }

done : Reach world localhost localhost net finished
done =
    later
      (later lost_once
        (arrives (send sent) [] taken.0 (send (create_ack sum_crc sent)) refl taken.1 taken.2))
      (turns (send (create_ack sum_crc sent)) [] content [] (size (create_ack sum_crc sent))
        (create_ack sum_crc sent) refl one_block
        (receive-send (create_ack sum_crc sent) localhost
          (create_ack-IsFormed sum_crc sent (built-Outgoing sum_crc content true).bound))
        (judge-create_ack sum_crc sent true (built-Outgoing sum_crc content true)))

Reach-Progress_example : Progress localhost path false (3 ∷ 4 ∷ []) finished.server
Reach-Progress_example =
    Reach-Progress world localhost localhost path content server begun-Progress steady done refl

Reach-Moves_example :
    (m : Net) × Moves world localhost localhost waiting_again m
    × (m.todo ≡ [])
    × Progress localhost path m.curr_sqn (3 ∷ 4 ∷ []) m.server
Reach-Moves_example =
    Reach-Moves world localhost localhost path content server begun-Progress steady lost_once

Reach-Answers_example :
    ((p : Bytes) (rest : List Bytes)
      → waiting_again.up ≡ p ∷ rest
      → Returns (Answers world localhost server) (step world server (packet p localhost)))
    × ((p : Bytes) (rest : List Bytes)
        → waiting_again.down ≡ p ∷ rest
        → (k : ℕ) × (r : BftDatagram) × (receive default_datagram (packet p localhost)
            ≡ ok (message k localhost r))
          × ((text : Bytes) → judge sum_crc (built sum_crc no_flags text true) true r ≢ busy))
Reach-Answers_example =
    Reach-Answers world localhost localhost path content server begun-Progress steady lost_once
