-- ===== src/Http/Snatch/Understood.antt =====
-- The whole request that the client builds, read by the server's parser.
use rechnernetze.Base.{
  ◌≡◌, refl, sym, ◌∙◌, ap, true, List, [], ◌∷◌, ◌++◌, append_assoc, none, some, codes, bytes_eq,
  All, ◌<◌, length, arith,
}
use rechnernetze.Process.{Bytes}
use rechnernetze.Http.Response.{crlf}
use rechnernetze.Http.Request.{
  StatusLine, get, parsed, all_dots, get_headers, lookup, of_lines, of_text, get_range_of,
  with_range, match_status_line,
}
use rechnernetze.Http.Snatch.{UrlInfo, add, request_line, build_request, with_range_option}
use rechnernetze.Http.Snatch.Line.{is_plain, request_line-match_status_line}
use rechnernetze.Http.Snatch.Fields.{
  is_key, field_line, IsField, field, fields_text, lines_of, fields_text-get_lines, reversed,
  fields-get_headers,
}

added-append :
    (key value stream rest : Bytes)
    → add key value stream ++ rest ≡ stream ++ (field_line (key, value) ++ (10 ∷ rest))
added-append key value stream rest =
    append_assoc stream (key ++ (codes ": " ++ (value ++ crlf))) rest
    ∙ ap (λ t. stream ++ t)
        (append_assoc key (codes ": " ++ (value ++ crlf)) rest
          ∙ ap (λ t. key ++ (codes ": " ++ t))
              (append_assoc value crlf rest ∙ sym (append_assoc value (13 ∷ []) (10 ∷ rest)))
          ∙ sym (append_assoc key (codes ": " ++ (value ++ (13 ∷ []))) (10 ∷ rest)))

-- The field for a range that is given.
abbrev pub range_field : Bytes → List (Bytes × Bytes)
range_field [] = []
range_field (c ∷ range) = (codes "Range", codes "bytes=" ++ (c ∷ range)) ∷ []

abbrev pub client_fields : UrlInfo → Bytes → List (Bytes × Bytes)
client_fields url range =
    (codes "Host", url.host)
    ∷ (codes "Accept", codes "*/*")
    ∷ (codes "User-Agent", codes "snatch/0.1.0")
    ∷ (codes "Connection", codes "close")
    ∷ range_field range

with_range-fields :
    (range stream : Bytes)
    → with_range_option range stream ++ crlf ≡ stream ++ fields_text (range_field range)
with_range-fields [] stream = refl
with_range-fields (c ∷ range) stream =
    added-append (codes "Range") (codes "bytes=" ++ (c ∷ range)) stream crlf

pub build_request-fields :
    (url : UrlInfo) (range : Bytes)
    → build_request url range ≡ request_line url ++ fields_text (client_fields url range)
unfolding build_request
build_request-fields url range =
    let s = request_line url in
    let host = add (codes "Host") url.host s in
    let accept = add (codes "Accept") (codes "*/*") host in
    let agent = add (codes "User-Agent") (codes "snatch/0.1.0") accept in
    let last = fields_text (range_field range) in
    let at_agent = field_line (codes "Connection", codes "close") ++ (10 ∷ last) in
    let at_accept = field_line (codes "User-Agent", codes "snatch/0.1.0") ++ (10 ∷ at_agent) in
    let at_host = field_line (codes "Accept", codes "*/*") ++ (10 ∷ at_accept) in
    with_range-fields range (add (codes "Connection") (codes "close") agent)
    ∙ added-append (codes "Connection") (codes "close") agent last
    ∙ added-append (codes "User-Agent") (codes "snatch/0.1.0") accept at_agent
    ∙ added-append (codes "Accept") (codes "*/*") host at_accept
    ∙ added-append (codes "Host") url.host s at_host

range-IsField : (range : Bytes) → all_dots range ≡ true → All IsField (range_field range)
unfolding is_key all_dots
range-IsField [] h = tt
range-IsField (c ∷ range) h = (field refl h, tt)

host-IsField :
    (host : Bytes) → all_dots host ≡ true → 0 < length host → IsField (codes "Host", host)
unfolding is_key
host-IsField [] h long = absurd (omega arith)
host-IsField (c ∷ host) h long = field refl h

client-IsField :
    (url : UrlInfo) (range : Bytes)
    → all_dots url.host ≡ true
    → 0 < length url.host
    → all_dots range ≡ true
    → All IsField (client_fields url range)
unfolding is_key all_dots
client-IsField url range h long k = (
  host-IsField url.host h long,
  (field refl refl, (field refl refl, (field refl refl, range-IsField range k))),
)

-- The fields as the server's map has them.
abbrev pub client_headers : UrlInfo → Bytes → List (Bytes × Bytes)
client_headers url range =
    range_field range
    ++ ((codes "Connection", codes "close")
        ∷ (codes "User-Agent", codes "snatch/0.1.0")
        ∷ (codes "Accept", codes "*/*")
        ∷ (codes "Host", url.host)
        ∷ [])

client_fields-reversed :
    (url : UrlInfo) (range : Bytes)
    → reversed (client_fields url range) [] ≡ client_headers url range
client_fields-reversed url [] = refl
client_fields-reversed url (c ∷ range) = refl

client_headers-lookup :
    (url : UrlInfo) (range : Bytes)
    → lookup (codes "Content-Range") (client_headers url range) ≡ none
unfolding lookup bytes_eq
client_headers-lookup url [] = refl
client_headers-lookup url (c ∷ range) = refl

-- A first line that is understood, and no field for the range.
of_lines-with_range :
    (line : Bytes) (rest : List Bytes) (first : StatusLine)
    → match_status_line line ≡ some first
    → lookup (codes "Content-Range") (get_headers [] rest) ≡ none
    → of_lines (line ∷ rest) ≡ with_range first (get_headers [] rest) (parsed none)
unfolding of_lines get_range_of
of_lines-with_range line rest first found no_range = rw (found, of_lines, no_range) refl

-- Let the path of the URL have no space and no line break, its host at least one byte, and neither the
-- host nor the text of the range a line break. The server reads the whole request of the client as a GET
-- for the path behind a slash, in the version HTTP/1.1, with the fields Host, Accept, User-Agent and
-- Connection as the client has set them, and Range if it asks for one, as headers, and without a range:
-- the field in which the client asks for one is not the one the server looks at.
pub build_request-of_text :
    (url : UrlInfo) (range : Bytes)
    → is_plain url.file_path_name ≡ true
    → all_dots url.host ≡ true
    → 0 < length url.host
    → all_dots range ≡ true
    → of_text (build_request url range)
      ≡ parsed (record {
        method = get;
        uri = 47 ∷ url.file_path_name;
        http_version = codes "HTTP/1.1";
        headers = client_headers url range;
        range = none;
      })
unfolding of_text with_range bytes_eq
build_request-of_text url range plain dots long range_dots =
    let fields = client_fields url range in
    let fine = client-IsField url range dots long range_dots in
    let (line, split, found) = request_line-match_status_line url (fields_text fields) plain in
    let headers : get_headers [] (lines_of fields) ≡ client_headers url range =
      fields-get_headers fields [] fine ∙ client_fields-reversed url range in
    ap of_text (build_request-fields url range)
    ∙ ap of_lines (split ∙ ap (λ t. line ∷ t) (fields_text-get_lines fields fine))
    ∙ of_lines-with_range line (lines_of fields) _ found
        (ap (lookup (codes "Content-Range")) headers ∙ client_headers-lookup url range)
    ∙ ap
        (λ h.
          with_range
            (record {
              method_text = codes "GET";
              path = 47 ∷ url.file_path_name;
              version = codes "HTTP/1.1";
            })
            h (parsed none))
        headers
