-- ===== src/Http/Exchange/Examples.antt =====
-- A file of three bytes, of which the client asks for a part.
use rechnernetze.Base.{◌≡◌, refl, true, false, [], ◌∷◌, ◌++◌, none, codes, bytes_eq, arith}
use rechnernetze.Bft.Files.{Files}
use rechnernetze.Http.Request.{all_dots, of_text, parsed, get}
use rechnernetze.Http.Handler.{Site}
use rechnernetze.Http.SnatchOptions.{Options}
use rechnernetze.Http.Snatch.{UrlInfo, build_request}
use rechnernetze.Http.Snatch.Line.{is_plain}
use rechnernetze.Http.Snatch.Understood.{build_request-of_text}

abbrev site : Site
site = record {
  disk = record {
    is_directory = λ _. false;
    exists = λ path. bytes_eq path (codes "/srv/a");
    read_file = λ _. 7 ∷ 13 ∷ 10 ∷ [];
    directory_iterator = λ _. [];
    join = λ dir name. dir ++ (47 ∷ name);
    extension = λ _. [];
    file_size_to_str = λ _. [];
  };
  document_root_folder = codes "/srv";
  stoi_what = codes "stoi";
}

abbrev part_to_file : Options
part_to_file = record {
  url = codes "h.de/a";
  output = codes "out";
  range = codes "0-1";
  slow = none;
  remote_name = false;
  verbose = false;
}

abbrev url_info : UrlInfo
url_info = record {
  host = codes "h.de";
  file_path_name = codes "a";
  file_name = codes "a";
  port = none;
}

abbrev no_files : Files
no_files = λ _. none

path_plain : is_plain (codes "a") ≡ true
unfolding is_plain
path_plain = refl

host_dots : all_dots (codes "h.de") ≡ true
unfolding all_dots
host_dots = refl

range_dots : all_dots (codes "0-1") ≡ true
unfolding all_dots
range_dots = refl

build_request-of_text_example :
    of_text (build_request url_info (codes "0-1"))
    ≡ parsed (record {
      method = get;
      uri = codes "/a";
      http_version = codes "HTTP/1.1";
      headers =
          (codes "Range", codes "bytes=0-1")
          ∷ (codes "Connection", codes "close")
          ∷ (codes "User-Agent", codes "snatch/0.1.0")
          ∷ (codes "Accept", codes "*/*")
          ∷ (codes "Host", codes "h.de")
          ∷ [];
      range = none;
    })
build_request-of_text_example =
    build_request-of_text url_info (codes "0-1") path_plain host_dots (omega arith) range_dots
