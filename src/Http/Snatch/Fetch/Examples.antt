-- ===== src/Http/Snatch/Fetch/Examples.antt =====
-- A short short_answer, written to a file.
use rechnernetze.Base.{◌≡◌, refl, arith, true, false, [], ◌∷◌, none, codes, bytes_eq, take}
use rechnernetze.Process.{Bytes, ok, Returns}
use rechnernetze.Bft.Files.{Files}
use rechnernetze.Http.Request.{all_dots}
use rechnernetze.Http.Response.{HttpResponse, of_data}
use rechnernetze.Http.Connection.{chunk}
use rechnernetze.Http.SnatchOptions.{Options}
use rechnernetze.Http.Snatch.{UrlInfo, build_request}
use rechnernetze.Http.Snatch.Url.{
  parse, match_url, match_here, match_host, split_at, behind_last_slash,
}
use rechnernetze.Http.Snatch.Fetch.{System, fetch}
use rechnernetze.Http.Snatch.Fetch.Output.{Left, fetch-Left}

abbrev to_file : Options
to_file = record {
  url = codes "h.de/a";
  output = codes "out";
  range = [];
  slow = none;
  remote_name = false;
  verbose = false;
}

abbrev short_answer : Bytes
short_answer = codes "HTTP/1.1 200 OK\r\n\r\nhello"

abbrev system : System
system = record { connects = λ _ _. true; incoming = chunk short_answer ∷ []; opens = λ _. true }

abbrev no_files : Files
no_files = λ _. none

abbrev url_info : UrlInfo
url_info = record {
  host = codes "h.de";
  file_path_name = codes "a";
  file_name = codes "a";
  port = none;
}

url_understood : parse to_file.url ≡ ok url_info
unfolding parse match_url match_here match_host split_at behind_last_slash bytes_eq all_dots
url_understood = refl

fetch-Left_example :
    Returns
      (λ f.
        (f.cnn.calls ≡ build_request url_info [] ∷ [])
        × (r : HttpResponse) × (of_data (take 2048 short_answer) ≡ ok r)
        × Left r no_files f (codes "out") true)
      (fetch to_file system no_files)
fetch-Left_example =
    fetch-Left to_file system no_files url_info short_answer [] url_understood refl refl refl
      (omega arith)
