-- ===== src/Http/Snatch/Fetch.antt =====
-- aufg2_3_http/snatch/src/main.cpp: `main`, and the operations of connection_base/src/HttpResponse.cpp
-- that it uses.
pub mod Output
mod Examples
use rechnernetze.Base.{
  ℕ, suc, ◌-◌, ◌^◌, Bool, true, false, List, [], ◌∷◌, ◌++◌, Option, none, some, ℤ, pos, negsuc, map,
}
use rechnernetze.Process.{
  Bytes, Result, ok, stop, ◌>>=◌, ◌>>◌, require, thrown, exit_success, exit_failure,
}
use rechnernetze.Bft.Files.{Files, put}
use rechnernetze.Http.Response.{HttpResponse}
use rechnernetze.Http.Connection.{Connection, Recv, receive_http_response}
use rechnernetze.Http.SnatchOptions.{Options, SlowInfo}
use rechnernetze.Http.Snatch.{UrlInfo, build_request, send_request}
use rechnernetze.Http.Snatch.Url.{parse}

-- What there is at the end: what was handed to ::send, the files, the standard output without the log,
-- and the exit code.
pub record Finished : Type 0 where
  pub cnn : Connection
  pub files : Files
  pub cout : Bytes
  pub exit_code : ℕ

abbrev pub get_metadata : HttpResponse → Bytes
get_metadata r = r.header

abbrev pub get_payload_as_binary : HttpResponse → Bytes
get_payload_as_binary r = r.payload

abbrev pub get_payload_as_string : HttpResponse → Bytes
get_payload_as_string r = r.payload

-- Opening a file for writing empties it.
abbrev pub written_if : Bool → Bytes → HttpResponse → Files → Bool × Files
written_if false filename r files = (false, files)
written_if true filename r files = (true, put filename (some (get_payload_as_binary r)) files)

abbrev pub write_to_file : (Bytes → Bool) → Bytes → HttpResponse → Files → Bool × Files
write_to_file opens filename r files = written_if (opens filename) filename r files

abbrev pub slow_bytes : Option SlowInfo → Option ℤ
slow_bytes none = none
slow_bytes (some slow) = some slow.bytes

abbrev pub remote_name_of : Bool → UrlInfo → Bytes
remote_name_of true url_info = url_info.file_name
remote_name_of false url_info = []

abbrev pub filename_of : Bytes → Bool → UrlInfo → Bytes
filename_of [] remote_name url_info = remote_name_of remote_name url_info
filename_of (c ∷ output) remote_name url_info = c ∷ output

-- The branches behind the reception.
abbrev pub after_write : Bool × Files → HttpResponse → Connection → Finished
after_write (true, files) r cnn = record {
  cnn = cnn;
  files = files;
  cout = get_payload_as_string r;
  exit_code = exit_success;
}
after_write (false, files) r cnn = record {
  cnn = cnn;
  files = files;
  cout = [];
  exit_code = exit_failure;
}

abbrev pub deliver : (Bytes → Bool) → Bytes → HttpResponse → Files → Connection → Finished
deliver opens [] r files cnn = after_write (true, files) r cnn
deliver opens (c ∷ filename) r files cnn =
    after_write (write_to_file opens (c ∷ filename) r files) r cnn

-- The system: whether a host can be connected to, what `recv` gives then, which files can be opened.
pub record System : Type 0 where
  pub connects : Bytes → Option ℕ → Bool
  pub incoming : List Recv
  pub opens : Bytes → Bool

-- `main` behind the options.
unfoldable pub fetch : Options → System → Files → Result Finished
fetch opt system files = parse opt.url >>= λ url_info.
    require (system.connects url_info.host url_info.port) thrown
    >> (send_request (build_request url_info opt.range) (slow_bytes opt.slow)
          (record { calls = [] })
        >>= λ cnn. receive_http_response system.incoming >>= λ response. ok (
            deliver system.opens (filename_of opt.output opt.remote_name url_info) response files
              cnn))
