-- ===== src/Http/Exchange.antt =====
-- The HTTP client and the server together: `fetch`, snatch/src/main.cpp behind its options, and
-- handle_incoming_request, http_server/src/main.cpp, with the request in one piece, and the
-- response in two.
pub mod Content
mod Examples
use rechnernetze.Base.{ℕ, Bool, true, take, drop, List, [], ◌∷◌}
use rechnernetze.Process.{Bytes, Result, ◌>>=◌}
use rechnernetze.Bft.Files.{Files}
use rechnernetze.Http.Connection.{chunk}
use rechnernetze.Http.Connection.Sending.{stream, empty_connection}
use rechnernetze.Http.Handler.{Site, handle_incoming_request}
use rechnernetze.Http.SnatchOptions.{Options}
use rechnernetze.Http.Snatch.{build_request}
use rechnernetze.Http.Snatch.Url.{parse}
use rechnernetze.Http.Snatch.Fetch.{Finished, fetch}

-- The server takes the request of the client by one call of `recv`, and the client what the server sends
-- by two, of which the first brings `cut` bytes.
unfoldable pub serve_and_fetch : Site → Options → (Bytes → Bool) → ℕ → Files → Result Finished
serve_and_fetch site opt opens cut files = parse opt.url >>= λ url_info.
    handle_incoming_request site (chunk (build_request url_info opt.range) ∷ []) empty_connection
    >>= λ cnn.
        fetch opt
          (record {
            connects = λ _ _. true;
            incoming =
                chunk (take cut (stream cnn.calls)) ∷ chunk (drop cut (stream cnn.calls)) ∷ [];
            opens = opens;
          })
          files
