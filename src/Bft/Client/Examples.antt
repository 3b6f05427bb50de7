-- ===== src/Bft/Client/Examples.antt =====
-- Runs of the client: an upload of two bytes to a server that answers, and to one that does not.
use rechnernetze.Base.{
  ◌≡◌, refl, true, false, List, [], ◌∷◌, ◌++◌, arith, codes, bytes_eq, replicate, pos,
}
use rechnernetze.Bft.Flags.{no_flags, fin, syn}
use rechnernetze.Process.{ok, stop, thrown, Returns, Ensures, htons}
use rechnernetze.Bft.Samples.{sum_crc, localhost}
use rechnernetze.Bft.Datagram.{BftDatagram, of_flags}
use rechnernetze.Bft.Datagram.Checks.{built}
use rechnernetze.Bft.Client.{Client, Round, exchange, send_and_wait, read_blocks, upload}
use rechnernetze.Cli.{Parser}
use rechnernetze.Cli.Samples.{sample_parser}
use rechnernetze.Bft.ClientOptions.{
  Paths, of_args, of_result, store, rows, validate_and_exit_if_needed,
  handle_info_params_and_exit_if_needed,
}
use rechnernetze.Bft.Client.Start.{System, prepare, main}
use rechnernetze.Bft.Client.Main.{HasUploaded, main-HasUploaded}
use rechnernetze.Bft.Client.Wait.{timeout, Waited, send_and_wait-Waited, exchange_gives_up}
use rechnernetze.Bft.Client.Blocks.{plan, SentRuns, upload-SentRuns}
use rechnernetze.Bft.Client.Prompt.{
  acked, AnsweredIn, done, next, At, syn-Outgoing, send_and_wait-Returns, upload-Returns,
}

abbrev client : Client
client = record {
  curr_sqn = false;
  server_addr = localhost;
  n_retransmissions = 0;
  errno_again = false;
  sent = [];
}

abbrev first : BftDatagram
first = built sum_crc syn (codes "f") false

abbrev datagrams : List BftDatagram
datagrams = plan sum_crc false (codes "f") (3 ∷ 4 ∷ [])

-- A timeout before the second answer.
abbrev rounds : List Round
rounds =
    acked sum_crc localhost (built sum_crc syn (codes "f") false)
    ∷ timeout
    ∷ acked sum_crc localhost (built sum_crc no_flags (3 ∷ 4 ∷ []) true)
    ∷ acked sum_crc localhost (of_flags sum_crc fin false)
    ∷ []

one_block : read_blocks 2 (3 ∷ 4 ∷ []) ≡ (3 ∷ 4 ∷ []) ∷ []
unfolding read_blocks
one_block = refl

answered : AnsweredIn sum_crc 3 datagrams rounds
unfolding read_blocks
answered =
    next 0 localhost (omega arith)
      (next 1 localhost (omega arith) (next 0 localhost (omega arith) done))

upload-Returns_example :
    (r : List Round × Client) × (upload sum_crc (pos 3) (codes "f") (3 ∷ 4 ∷ []) rounds client
      ≡ ok r)
    × (r.0 ≡ [])
upload-Returns_example =
    upload-Returns sum_crc 3 (codes "f") (3 ∷ 4 ∷ []) client rounds (omega arith) answered

finished :
    (r : List Round × Client) × (upload sum_crc (pos 3) (codes "f") (3 ∷ 4 ∷ []) rounds client
      ≡ ok r)
    × (r.0 ≡ [])
finished = upload-Returns sum_crc 3 (codes "f") (3 ∷ 4 ∷ []) client rounds (omega arith) answered

upload-SentRuns_example : SentRuns datagrams [] finished.0.1.sent
upload-SentRuns_example =
    upload-SentRuns sum_crc (pos 3) (codes "f") (3 ∷ 4 ∷ []) rounds client (omega arith) finished.1

acknowledged_syn :
    Returns
      (At sum_crc true [])
      (send_and_wait sum_crc (pos 3) first (acked sum_crc localhost first ∷ []) client)
acknowledged_syn =
    send_and_wait-Returns sum_crc 3 0 first localhost [] client (omega arith)
      (syn-Outgoing sum_crc (codes "f") false)

send_and_wait-Waited_example :
    Waited sum_crc first (acked sum_crc localhost first ∷ []) client acknowledged_syn.0
send_and_wait-Waited_example =
    send_and_wait-Waited sum_crc (pos 3) first (acked sum_crc localhost first ∷ []) client
      acknowledged_syn.1

exchange_gives_up_example :
    exchange (pos 3) (of_flags sum_crc fin true) 0 (replicate 4 timeout ++ rounds) client
    ≡ stop thrown
exchange_gives_up_example =
    exchange_gives_up 3 0 (of_flags sum_crc fin true) rounds client 4 (omega arith) (omega arith)

-- The options of a client for the file `f`.
abbrev options_parser : Parser
options_parser =
    sample_parser ((codes "file", codes "f") ∷ [])
      ((codes "retrans_timeout_ms", pos 2000) ∷ (codes "max_retrans", pos 3) ∷ [])

abbrev file_paths : Paths
file_paths = record { is_directory = λ _. false; exists = λ _. true }

abbrev client_system : System
client_system = record {
  creates_socket = true;
  inet_addr = λ _. 16777343;
  filename = λ p. p;
  content = λ _. 3 ∷ 4 ∷ [];
}

main-HasUploaded_example :
    Ensures
      (HasUploaded sum_crc file_paths client_system options_parser [])
      (main sum_crc file_paths client_system options_parser [] rounds)
main-HasUploaded_example =
    main-HasUploaded sum_crc file_paths client_system options_parser [] rounds

-- The same upload, from the command line on.
main_returns :
    main sum_crc file_paths client_system options_parser [] rounds
    ≡ upload sum_crc
        (pos 3)
        (codes "f")
        (3 ∷ 4 ∷ [])
        rounds
        (record client { server_addr = record { s_addr = 16777343; sin_port = 34835 } })
unfolding main of_args of_result store rows validate_and_exit_if_needed
    handle_info_params_and_exit_if_needed prepare htons bytes_eq
main_returns = refl
