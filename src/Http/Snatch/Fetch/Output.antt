-- ===== src/Http/Snatch/Fetch/Output.antt =====
-- Where the client leaves what it receives.
use rechnernetze.Base.{
  ℕ, ◌≤◌, ◌≡◌, refl, Bool, true, false, List, [], ◌∷◌, none, some, length, take, ap, arith,
  length-take,
}
use rechnernetze.Process.{Bytes, ok, exit_success, exit_failure, Returns}
use rechnernetze.Bft.Files.{Files, put}
use rechnernetze.Http.Response.{HttpResponse, of_data}
use rechnernetze.Http.Response.Parsing.{short-of_data}
use rechnernetze.Http.Connection.{Connection, Recv, chunk, receive_http_response, send}
use rechnernetze.Http.Connection.Receiving.{receive_bytes_lem}
use rechnernetze.Http.Connection.Sending.{empty_connection}
use rechnernetze.Http.SnatchOptions.{Options}
use rechnernetze.Http.Snatch.{UrlInfo, build_request, send_request}
use rechnernetze.Http.Snatch.Url.{parse}
use rechnernetze.Http.Snatch.Fetch.{
  Finished, System, fetch, deliver, after_write, filename_of, written_if,
}

-- The file that is named, the standard output and the exit code.
pub data Left (r : HttpResponse) (files : Files) (f : Finished) : Bytes → Bool → Type 0 where
  printed :
      {opens : Bool}
      → f.cout ≡ r.payload
      → f.files ≡ files
      → f.exit_code ≡ exit_success
      → Left r files f [] opens
  written :
      {c : ℕ} {name : Bytes}
      → f.cout ≡ r.payload
      → f.files ≡ put (c ∷ name) (some r.payload) files
      → f.exit_code ≡ exit_success
      → Left r files f (c ∷ name) true
  refused :
      {c : ℕ} {name : Bytes}
      → f.cout ≡ []
      → f.files ≡ files
      → f.exit_code ≡ exit_failure
      → Left r files f (c ∷ name) false

written_if-Left :
    (c : ℕ) (name : Bytes) (r : HttpResponse) (files : Files) (cnn : Connection) (opens : Bool)
    → Left r files (after_write (written_if opens (c ∷ name) r files) r cnn) (c ∷ name) opens
written_if-Left c name r files cnn true = written refl refl refl
written_if-Left c name r files cnn false = refused refl refl refl

written_if-cnn :
    (name : Bytes) (r : HttpResponse) (files : Files) (cnn : Connection) (opens : Bool)
    → (after_write (written_if opens name r files) r cnn).cnn ≡ cnn
written_if-cnn name r files cnn true = refl
written_if-cnn name r files cnn false = refl

deliver-Left :
    (opens : Bytes → Bool) (name : Bytes) (r : HttpResponse) (files : Files) (cnn : Connection)
    → ((deliver opens name r files cnn).cnn ≡ cnn)
      × Left r files (deliver opens name r files cnn) name (opens name)
deliver-Left opens [] r files cnn = (refl, printed refl refl refl)
deliver-Left opens (c ∷ name) r files cnn = (
  written_if-cnn (c ∷ name) r files cnn (opens (c ∷ name)),
  written_if-Left c name r files cnn (opens (c ∷ name)),
)

-- A client without the option `slow`, whose URL is understood and whose server is reached, sends the
-- request in one call and comes to its end: with the payload of what the first call of `recv` brought,
-- if that has at least three bytes. The payload is on the standard output, and also in the file if
-- one is named by the option `output` or by `remote-name`; if that file cannot be opened, nothing is
-- printed and the exit code is the one of a failure.
pub fetch-Left :
    (opt : Options) (system : System) (files : Files) (url_info : UrlInfo) (bytes : Bytes)
    (more : List Recv)
    → parse opt.url ≡ ok url_info
    → system.connects url_info.host url_info.port ≡ true
    → opt.slow ≡ none
    → system.incoming ≡ chunk bytes ∷ more
    → 3 ≤ length bytes
    → Returns
        (λ f.
          (f.cnn.calls ≡ build_request url_info opt.range ∷ [])
          × (r : HttpResponse) × (of_data (take 2048 bytes) ≡ ok r)
          × Left r files f
              (filename_of opt.output opt.remote_name url_info)
              (system.opens (filename_of opt.output opt.remote_name url_info)))
        (fetch opt system files)
unfolding fetch send_request receive_http_response
fetch-Left opt system files url_info bytes more u c s i h =
    let name = filename_of opt.output opt.remote_name url_info in
    let sent = send (build_request url_info opt.range) empty_connection in
    let (r, parsed) = short-of_data (take 2048 bytes) (omega (arith, length-take 2048 bytes)) in
    let (same, left) = deliver-Left system.opens name r files sent in
    rw (u, c, s, i, receive_bytes_lem bytes more h)
      (rw parsed (_, refl, (ap (λ cnn. cnn.calls) same, r, refl, left)))
