-- ===== src/Http/Request/Examples.antt =====
-- Requests that are parsed and refused.
use rechnernetze.Base.{◌≡◌, refl, true, [], ◌∷◌, ◌++◌, some, codes, bytes_eq}
use rechnernetze.Process.{Bytes}
use rechnernetze.Http.Request.{
  HttpRequest, get, parsed, refused, bad_status_line, is_path, of_text, of_lines, get_lines,
  match_status_line, is_version_end, all_dots, find_path, get_headers, match_header, match_field,
  match_value, lookup, read_digits, check_range, after_start, get_range_of, with_range,
}
use rechnernetze.Http.Request.Sound.{SoundRange, of_text-Sound}

abbrev return : Bytes
return = 13 ∷ 10 ∷ []

abbrev text : Bytes
text =
    codes "GET /a b HTTP/1.1"
    ++ (return
        ++ (codes "Host: h:80" ++ (return ++ (codes "Content-Range:2-15" ++ (return ++ return)))))

abbrev request : HttpRequest
request = record {
  method = get;
  uri = codes "/a b";
  http_version = codes "HTTP/1.1";
  headers = (codes "Content-Range", codes "2-15") ∷ (codes "Host", codes "h:80") ∷ [];
  range = some (record { start = 2; end = some 15 });
}

text_parsed : of_text text ≡ parsed request
unfolding of_text of_lines get_lines match_status_line is_version_end all_dots find_path get_headers
    match_header match_field match_value lookup read_digits check_range after_start get_range_of
    with_range bytes_eq
text_parsed = refl

-- Without the carriage return.
text_refused : of_text (codes "GET / HTTP/1.1") ≡ refused (bad_status_line (codes "GET / HTTP/1.1"))
unfolding of_text of_lines get_lines match_status_line is_version_end all_dots find_path bytes_eq
text_refused = refl

of_text-Sound_example :
    SoundRange (some (record { start = 2; end = some 15 })) × (is_path (codes "/a b") ≡ true)
of_text-Sound_example = of_text-Sound text text_parsed
