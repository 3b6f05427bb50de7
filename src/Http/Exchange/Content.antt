-- ===== src/Http/Exchange/Content.antt =====
-- What the client has at the end of an exchange.
use rechnernetze.Base.{◌<◌, ◌≡◌, true, ◌∷◌, ◌++◌, length}
use rechnernetze.Process.{Bytes}
use rechnernetze.Bft.Files.{Files}
use rechnernetze.Http.Response.{HttpResponse, build_header}
use rechnernetze.Http.Request.{all_dots, of_text}
use rechnernetze.Http.Connection.{add_length}
use rechnernetze.Http.Handler.{Site}
use rechnernetze.Http.Handler.Answers.{response_to}
use rechnernetze.Http.SnatchOptions.{Options}
use rechnernetze.Http.Snatch.{UrlInfo, build_request}
use rechnernetze.Http.Snatch.Line.{is_plain}

module _ (site : Site) (text : Bytes) where
  abbrev response : HttpResponse
  response = response_to site (of_text text)

  -- The header that the server sends for a text.
  abbrev pub head : Bytes
  head = build_header (add_length (length response.payload) response)

module _ (site : Site) (opt : Options) (url_info : UrlInfo)
    (plain : is_plain url_info.file_path_name ≡ true) (host_dots : all_dots url_info.host ≡ true)
    (host_long : 0 < length url_info.host) (range_dots : all_dots opt.range ≡ true) where
  abbrev request : Bytes
  request = build_request url_info opt.range

  abbrev file_path : Bytes
  file_path = site.document_root_folder ++ (47 ∷ url_info.file_path_name)
