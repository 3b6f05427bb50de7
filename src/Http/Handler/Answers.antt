-- ===== src/Http/Handler/Answers.antt =====
-- What a client receives for the text that it sends.
use rechnernetze.Base.{
  ◌≡◌, ◌≤◌, ◌<◌, ◌+◌, ◌^◌, refl, sym, ◌∙◌, ap, subst, true, false, List, ◌∷◌, ◌++◌, none, length,
  take_all,
}
use rechnernetze.Process.{Bytes, ok, Returns}
use rechnernetze.Http.Request.{HttpRequest, Parsed, parsed, refused, get, of_text}
use rechnernetze.Http.Response.{HttpResponse, no_status, bad_request, crlf, status_line, of_data}
use rechnernetze.Http.Response.Parsing.{HasLines}
use rechnernetze.Http.Connection.{Connection, add_length, send_response, Recv, chunk}
use rechnernetze.Http.Connection.Sending.{stream, empty_connection, send_response-of_data}
use rechnernetze.Http.Connection.Receiving.{receive_bytes_lem}
use rechnernetze.Http.Factory.{create, create_from_plain_text}
use rechnernetze.Http.Factory.Headers.{
  create-HasLines, create_from_plain_text-HasLines, create-payload,
}
use rechnernetze.Http.Handler.{Site, what, send_answer, answer, handle_incoming_request}

abbrev pub WithoutRange : Parsed HttpRequest → Type 0
WithoutRange (refused why) = Unit {0}
WithoutRange (parsed request) = request.range ≡ none

-- A response as the other side parses what was sent of it.
abbrev pub as_received : HttpResponse → HttpResponse
as_received r = record {
  status = no_status;
  header = status_line r.status ++ (crlf ++ (add_length (length r.payload) r).header);
  payload = r.payload;
}

module _ (site : Site) where
  -- The response to a text.
  unfoldable pub response_to : Parsed HttpRequest → HttpResponse
  response_to (refused why) = create_from_plain_text bad_request (what site why)
  response_to (parsed request) = (create site.disk request site.document_root_folder).0

  pub response_to-HasLines : (p : Parsed HttpRequest) → HasLines (response_to p)
  unfolding response_to
  response_to-HasLines (refused why) = create_from_plain_text-HasLines bad_request (what site why)
  response_to-HasLines (parsed request) =
      create-HasLines site.disk request site.document_root_folder

  answer-Returns :
      (p : Parsed HttpRequest)
      → WithoutRange p
      → answer site p empty_connection ≡ ok (send_response (response_to p) empty_connection).1
  unfolding answer response_to send_answer
  answer-Returns (refused why) h = refl
  answer-Returns (parsed request) h = rw (h, send_answer)

  pub handle_incoming_request-Returns :
      (text : Bytes) (more : List Recv)
      → 3 ≤ length text
      → length text ≤ 2048
      → WithoutRange (of_text text)
      → handle_incoming_request site (chunk text ∷ more) empty_connection
        ≡ ok (send_response (response_to (of_text text)) empty_connection).1
  unfolding handle_incoming_request
  handle_incoming_request-Returns text more long short no_range =
      rw (receive_bytes_lem text more long, take_all 2048 text short)
        (answer-Returns (of_text text) no_range)

  -- What is sent for a text.
  abbrev pub reply : Bytes → Bytes
  reply text = stream (send_response (response_to (of_text text)) empty_connection).1.calls

  pub handle_incoming_request-of_data :
      (text : Bytes) (more : List Recv)
      → 3 ≤ length text
      → length text ≤ 2048
      → WithoutRange (of_text text)
      → length (reply text) + 3 < 2 ^ 31
      → (cnn : Connection) × (handle_incoming_request site (chunk text ∷ more) empty_connection
          ≡ ok cnn)
        × (of_data (stream cnn.calls) ≡ ok (as_received (response_to (of_text text))))
  handle_incoming_request-of_data text more long short no_range fits = (
    (send_response (response_to (of_text text)) empty_connection).1,
    handle_incoming_request-Returns text more long short no_range,
    send_response-of_data (response_to (of_text text)) (response_to-HasLines (of_text text)) fits,
  )

  pub response_to-payload :
      (text : Bytes) (request : HttpRequest)
      → of_text text ≡ parsed request
      → request.method ≡ get
      → site.disk.is_directory (site.document_root_folder ++ request.uri) ≡ false
      → site.disk.exists (site.document_root_folder ++ request.uri) ≡ true
      → (response_to (of_text text)).payload
        ≡ site.disk.read_file (site.document_root_folder ++ request.uri)
  unfolding response_to
  response_to-payload text request e m folder there =
      ap (λ p. (response_to p).payload) e
      ∙ create-payload site.disk request site.document_root_folder m folder there

  -- A GET of three to 2048 bytes, without a range, that comes in the first call of `recv`, for a file that
  -- is there and no directory: where header and content together have less than 2^31 - 3 bytes, the content
  -- of the file comes, byte for byte, to a client that parses the whole of what is sent.
  pub handle_incoming_request-payload :
      (text : Bytes) (more : List Recv) (request : HttpRequest)
      → 3 ≤ length text
      → length text ≤ 2048
      → of_text text ≡ parsed request
      → request.method ≡ get
      → request.range ≡ none
      → site.disk.is_directory (site.document_root_folder ++ request.uri) ≡ false
      → site.disk.exists (site.document_root_folder ++ request.uri) ≡ true
      → length (reply text) + 3 < 2 ^ 31
      → (cnn : Connection) × (handle_incoming_request site (chunk text ∷ more) empty_connection
          ≡ ok cnn)
        × Returns
            (λ r. r.payload ≡ site.disk.read_file (site.document_root_folder ++ request.uri))
            (of_data (stream cnn.calls))
  handle_incoming_request-payload text more request long short e m r folder there fits =
      let (cnn, ran, got) =
        handle_incoming_request-of_data text more long short (subst WithoutRange (sym e) r) fits in
      (
        cnn,
        ran,
        (
          as_received (response_to (of_text text)),
          got,
          response_to-payload text request e m folder there,
        ),
      )
