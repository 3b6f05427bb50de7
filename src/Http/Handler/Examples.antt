-- ===== src/Http/Handler/Examples.antt =====
-- A server with one file, and a request for it.
use rechnernetze.Base.{
  ◌≡◌, refl, true, false, [], ◌∷◌, ◌++◌, none, arith, codes, bytes_eq, length, ◌+◌, ◌<◌, ◌^◌,
  decimal,
}
use rechnernetze.Process.{Bytes, ok, Returns}
use rechnernetze.Http.Request.{
  HttpRequest, get, parsed, of_text, of_lines, get_lines, match_status_line, is_version_end,
  all_dots, find_path, get_headers, match_header, match_field, match_value, lookup, get_range_of,
  with_range,
}
use rechnernetze.Http.Response.{
  of_data, build_header, status_line, get_status_text, status_code, add_header,
}
use rechnernetze.Http.Connection.{Connection, chunk, send_response}
use rechnernetze.Http.Connection.Sending.{stream, empty_connection}
use rechnernetze.Http.Factory.{
  create, create_for_method, create_for_path, create_from_file, get_content_type, find_type,
  content_type_map,
}
use rechnernetze.Http.Handler.{Site, handle_incoming_request}
use rechnernetze.Http.Handler.Answers.{response_to, handle_incoming_request-payload, reply}

abbrev site : Site
site = record {
  disk = record {
    is_directory = λ _. false;
    exists = λ path. bytes_eq path (codes "/srv/a");
    read_file = λ _. 7 ∷ 13 ∷ 10 ∷ [];
    directory_iterator = λ _. [];
    join = λ dir name. dir ++ (47 ∷ name);
    extension = λ _. [];
    file_size_to_str = λ _. [];
  };
  document_root_folder = codes "/srv";
  stoi_what = codes "stoi";
}

abbrev text : Bytes
text = codes "GET /a HTTP/1.1" ++ (13 ∷ 10 ∷ 13 ∷ 10 ∷ [])

abbrev request : HttpRequest
request = record {
  method = get;
  uri = codes "/a";
  http_version = codes "HTTP/1.1";
  headers = [];
  range = none;
}

text_parsed : of_text text ≡ parsed request
unfolding of_text of_lines get_lines match_status_line is_version_end all_dots find_path get_headers
    match_header match_field match_value lookup get_range_of with_range bytes_eq
text_parsed = refl

file_there : site.disk.exists (codes "/srv/a") ≡ true
unfolding bytes_eq
file_there = refl

reply_fits : length (reply site text) + 3 < 2 ^ 31
unfolding response_to send_response build_header status_line get_status_text status_code decimal
    create create_for_method create_for_path create_from_file get_content_type find_type
    content_type_map add_header bytes_eq of_text of_lines get_lines match_status_line is_version_end
    all_dots find_path with_range get_range_of lookup get_headers match_header match_field
    match_value
reply_fits = omega arith

handle_incoming_request-payload_example :
    (cnn : Connection) × (handle_incoming_request site (chunk text ∷ []) empty_connection ≡ ok cnn)
    × Returns (λ r. r.payload ≡ 7 ∷ 13 ∷ 10 ∷ []) (of_data (stream cnn.calls))
handle_incoming_request-payload_example =
    handle_incoming_request-payload site text [] request (omega arith) (omega arith) text_parsed
      refl refl refl file_there reply_fits
