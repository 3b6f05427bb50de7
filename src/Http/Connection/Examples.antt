-- ===== src/Http/Connection/Examples.antt =====
-- Runs of Connection.
use rechnernetze.Base.{
  ◌≡◌, refl, [], ◌∷◌, ◌++◌, some, none, arith, leb, pos, negsuc, decimal, spell, if◌then◌else◌,
}
use rechnernetze.Process.{ok}
use rechnernetze.Http.Response.{
  HttpResponse, success, no_status, crlf, status_line, of_data, build_header, status_code,
  get_status_text, add_header,
}
use rechnernetze.Http.Response.Parsing.{HasLines}
use rechnernetze.Http.Request.{Range, IsRange}
use rechnernetze.Http.Connection.{
  Connection, chunk, send_response, send_range, send_slow, slow_loop, next_count, add_length,
  receive_bytes,
}
use rechnernetze.Http.Connection.Sending.{
  stream, empty_connection, send_response-of_data, range_part, sent_or_overread, send_range_lem,
  send_slow_lem,
}
use rechnernetze.Http.Connection.Receiving.{receive_bytes_lem}

abbrev page : HttpResponse
page = record { status = success; header = []; payload = 1 ∷ 2 ∷ 3 ∷ [] }

page-HasLines : HasLines page
page-HasLines = record { fields = []; are_lines = tt; printed = refl }

abbrev range : Range
range = record { start = 1; end = some 2 }

range-IsRange : IsRange range
range-IsRange e h = ground (arith, h)

part : range_part range page.payload ≡ some (2 ∷ 3 ∷ [])
unfolding range_part
part = refl

-- The end of the range is the length of the content.
too_far : range_part (record { start = 1; end = some 3 }) page.payload ≡ none
unfolding range_part
too_far = refl

twice :
    send_slow (1 ∷ 2 ∷ []) (pos 5) empty_connection
    ≡ ok (record { calls = (1 ∷ 2 ∷ []) ∷ (1 ∷ 2 ∷ []) ∷ [] })
unfolding send_slow slow_loop next_count
twice = refl

in_parts :
    send_slow (1 ∷ 2 ∷ 3 ∷ []) (pos 2) empty_connection
    ≡ ok (record { calls = (1 ∷ 2 ∷ []) ∷ (3 ∷ []) ∷ [] })
unfolding send_slow slow_loop next_count
in_parts = refl

send_response-of_data_example :
    of_data (stream (send_response page empty_connection).1.calls)
    ≡ ok (record {
      status = no_status;
      header = status_line success ++ (crlf ++ (add_length 3 page).header);
      payload = 1 ∷ 2 ∷ 3 ∷ [];
    })
send_response-of_data_example = send_response-of_data page page-HasLines (
    unfold send_response in
    unfold build_header in
    unfold status_line in
    unfold status_code in
    unfold get_status_text in unfold add_header in unfold decimal in unfold spell in omega arith)

send_range_example :
    send_range page range empty_connection
    ≡ sent_or_overread page empty_connection (range_part range (1 ∷ 2 ∷ 3 ∷ []))
send_range_example = send_range_lem page empty_connection range range-IsRange (omega arith)

-- Less than nothing per call sends the message twice too.
negative :
    send_slow (1 ∷ 2 ∷ []) (negsuc 0) empty_connection
    ≡ ok (record { calls = (1 ∷ 2 ∷ []) ∷ (1 ∷ 2 ∷ []) ∷ [] })
unfolding send_slow slow_loop next_count
negative = refl

send_slow_example :
    (c : Connection) × (send_slow (1 ∷ 2 ∷ []) (pos 5) empty_connection ≡ ok c)
    × (stream c.calls ≡ (if leb 2 5 then (1 ∷ 2 ∷ []) ++ (1 ∷ 2 ∷ []) else 1 ∷ 2 ∷ []))
send_slow_example = send_slow_lem (1 ∷ 2 ∷ []) 5 (omega arith) (omega arith)

receive_bytes_example :
    receive_bytes (chunk (1 ∷ 2 ∷ 3 ∷ []) ∷ chunk (4 ∷ []) ∷ []) ≡ ok (1 ∷ 2 ∷ 3 ∷ [])
receive_bytes_example = receive_bytes_lem (1 ∷ 2 ∷ 3 ∷ []) (chunk (4 ∷ []) ∷ []) (omega arith)
