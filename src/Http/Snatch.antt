-- ===== src/Http/Snatch.antt =====
-- aufg2_3_http/snatch/src/http_request_builder.h, http_request_builder.cpp and main.cpp: the request
-- that the client builds and sends.
pub mod Line
pub mod Fields
pub mod Understood
pub mod Url
pub mod Fetch
mod Examples
use rechnernetze.Base.{ℕ, ℤ, List, [], ◌∷◌, ◌++◌, Option, none, some, codes}
use rechnernetze.Process.{Bytes, Result, ok}
use rechnernetze.Http.Response.{crlf}
use rechnernetze.Http.Connection.{Connection, send, send_slow}

pub record UrlInfo : Type 0 where
  pub host : Bytes
  pub file_path_name : Bytes
  pub file_name : Bytes
  pub port : Option ℕ

-- HttpRequestBuilder(const UrlInfo &) and its operations, on the text of the stream.
abbrev pub add : Bytes → Bytes → Bytes → Bytes
add key value stream = stream ++ (key ++ (codes ": " ++ (value ++ crlf)))

unfoldable pub request_line : UrlInfo → Bytes
request_line url_info = codes "GET /" ++ (url_info.file_path_name ++ (codes " HTTP/1.1" ++ crlf))

abbrev pub start_request : UrlInfo → Bytes
start_request url_info = add (codes "Host") url_info.host (request_line url_info)

abbrev pub add_range : Bytes → Bytes → Bytes
add_range value stream = add (codes "Range") (codes "bytes=" ++ value) stream

abbrev pub to_string : Bytes → Bytes
to_string stream = stream ++ crlf

abbrev pub with_range_option : Bytes → Bytes → Bytes
with_range_option [] stream = stream
with_range_option (c ∷ range) stream = add_range (c ∷ range) stream

unfoldable pub build_request : UrlInfo → Bytes → Bytes
build_request url_info range = to_string (
    with_range_option range (
      add (codes "Connection") (codes "close") (
        add (codes "User-Agent") (codes "snatch/0.1.0")
          (add (codes "Accept") (codes "*/*") (start_request url_info)))))

-- With the bytes per call of the slow mode.
unfoldable pub send_request : Bytes → Option ℤ → Connection → Result Connection
send_request message none cnn = ok (send message cnn)
send_request message (some n_bytes) cnn = send_slow message n_bytes cnn
