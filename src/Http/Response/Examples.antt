-- ===== src/Http/Response/Examples.antt =====
-- A response printed and parsed.
use rechnernetze.Base.{◌≡◌, refl, [], ◌∷◌, ◌++◌, codes, bytes_eq, decimal, spell}
use rechnernetze.Process.{ok}
use rechnernetze.Http.Response.{
  success, no_status, status_code, get_status_text, HttpResponse, crlf, split_header, is_indexed,
  has_end, of_data, status_line, build_header,
}
use rechnernetze.Http.Response.Parsing.{is_line, no_return, HasLines}

abbrev page : HttpResponse
page = record { status = success; header = codes "A: b" ++ crlf; payload = 1 ∷ 2 ∷ [] }

page-HasLines : HasLines page
unfolding is_line no_return
page-HasLines = record { fields = codes "A: b" ∷ []; are_lines = (refl, tt); printed = refl }

printed : build_header page ≡ codes "HTTP/1.1 200 OK " ++ (crlf ++ (codes "A: b" ++ (crlf ++ crlf)))
unfolding build_header status_line status_code get_status_text decimal spell
printed = refl

-- Without an empty line all is header.
unfinished :
    of_data (codes "HTTP/1.1 200 OK")
    ≡ ok (record { status = no_status; header = codes "HTTP/1.1 200 OK"; payload = [] })
unfolding of_data is_indexed has_end split_header bytes_eq
unfinished = refl
