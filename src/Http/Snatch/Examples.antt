-- ===== src/Http/Snatch/Examples.antt =====
-- A request that the client builds.
use rechnernetze.Base.{◌≡◌, refl, [], ◌∷◌, none, codes, bytes_eq}
use rechnernetze.Http.Request.{
  get, parsed, of_text, of_lines, get_lines, match_status_line, is_version_end, all_dots, find_path,
  get_headers, match_header, match_field, match_value, lookup, get_range_of, with_range,
}
use rechnernetze.Http.Snatch.{UrlInfo, request_line, build_request}

abbrev url : UrlInfo
url = record {
  host = codes "h.de";
  file_path_name = codes "a/b";
  file_name = codes "b";
  port = none;
}

-- The range of the client is a header field that the server does not look at.
range_ignored :
    of_text (build_request url (codes "2-15"))
    ≡ parsed (record {
      method = get;
      uri = codes "/a/b";
      http_version = codes "HTTP/1.1";
      headers =
          (codes "Range", codes "bytes=2-15")
          ∷ (codes "Connection", codes "close")
          ∷ (codes "User-Agent", codes "snatch/0.1.0")
          ∷ (codes "Accept", codes "*/*")
          ∷ (codes "Host", codes "h.de")
          ∷ [];
      range = none;
    })
unfolding build_request request_line of_text of_lines get_lines match_status_line is_version_end
    all_dots find_path get_headers match_header match_field match_value lookup get_range_of
    with_range bytes_eq
range_ignored = refl
