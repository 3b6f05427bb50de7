-- ===== src/Bft/Client/Start.antt =====
-- aufg4/bft_client/main.cpp: `main` from its options on.
use rechnernetze.Base.{ℕ, suc, Bool, true, false, List, [], Option, none, some, ℤ, pos, negsuc, neg}
use rechnernetze.Process.{
  Bytes, Result, ok, stop, ◌>>=◌, ◌>>◌, require, exited, exit_failure, indeterminate_value, Address,
  htons, Crc,
}
use rechnernetze.Cli.{Parser}
use rechnernetze.Bft.Logger.{Level, debug_level, info_level, Logger, fresh_logger, set_level}
use rechnernetze.Bft.ClientOptions.{Options, Paths, of_args}
use rechnernetze.Bft.Client.{Client, Round, receive_timeout, upload}

-- Reading a variable without a value is undefined.
abbrev pub determined {ℓ} : {A : Type ℓ} → Option A → Result A
determined none = stop indeterminate_value
determined (some a) = ok a

-- The `timeval` of SO_RCVTIMEO, whose numbers are those of the option's sign.
abbrev pub signed_timeout : ℤ → ℤ × ℤ
signed_timeout (pos ms) = (pos (receive_timeout ms).tv_sec, pos (receive_timeout ms).tv_usec)
signed_timeout (negsuc n) =
    (neg (receive_timeout (suc n)).tv_sec, neg (receive_timeout (suc n)).tv_usec)

abbrev pub level_of : Bool → Level
level_of true = debug_level
level_of false = info_level

-- What `main` has set up before it uploads.
pub record Prepared : Type 0 where
  pub logger : Logger
  pub timeout : ℤ × ℤ
  pub limit : ℤ
  pub client : Client

-- The globals: no bit, no retransmission, and errno 0.
abbrev pub fresh_client : Address → Client
fresh_client server_addr = record {
  curr_sqn = false;
  server_addr = server_addr;
  n_retransmissions = 0;
  errno_again = false;
  sent = [];
}

-- The system: whether `socket` succeeds, the address that `inet_addr` gives (all bits set for a text
-- that is no address), the last part of a path, and the bytes of the files.
pub record System : Type 0 where
  pub creates_socket : Bool
  pub inet_addr : Bytes → ℕ
  pub filename : Bytes → Bytes
  pub content : Bytes → Bytes

unfoldable pub prepare : System → Options → Result Prepared
prepare system options =
    require system.creates_socket (exited exit_failure)
    >> (determined options.server_port >>= λ port.
        determined options.retransmission_timeout_ms >>= λ ms.
        determined options.max_consec_timeouts >>= λ limit. ok (record {
          logger = set_level (level_of options.debug) fresh_logger;
          timeout = signed_timeout ms;
          limit = limit;
          client =
              fresh_client
                (record { s_addr = system.inet_addr options.server_ip; sin_port = htons port });
        }))

-- `main`, with the outcomes of the rounds.
unfoldable pub main :
    Crc → Paths → System → Parser → List Bytes → List Round → Result (List Round × Client)
main crc paths system parser args rounds = of_args paths parser args >>= λ options.
    prepare system options >>= λ p.
    upload crc p.limit (system.filename options.file_path) (system.content options.file_path) rounds
      p.client
