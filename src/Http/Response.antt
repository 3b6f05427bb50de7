-- ===== src/Http/Response.antt =====
-- aufg2_3_http/connection_base/src/HttpResponse.hpp and HttpResponse.cpp.
pub mod Parsing
mod Examples
use rechnernetze.Base.{
  ℕ, Bool, true, false, List, [], ◌∷◌, ◌++◌, codes, bytes_eq, take, drop, decimal, if◌then◌else◌,
  ◌||◌, ◌+◌, length,
}
use rechnernetze.Process.{Bytes, Result, ok, ◌>>◌, require, fits_int, signed_overflow}

-- `NONE` and the rest of the enum, without its numbers.
pub data Status : Type 0 where
  no_status success accepted partial_content multiple_choices moved_permanently bad_request : Status
  unauthorized forbidden not_found method_not_allowed not_acceptable request_timeout : Status
  unsupported_media_type internal_server_error not_implemented service_unavailable : Status
  version_not_supported : Status

-- The numbers of the enum.
unfoldable pub status_code : Status → ℕ
status_code no_status = 0
status_code success = 200
status_code accepted = 202
status_code partial_content = 206
status_code multiple_choices = 300
status_code moved_permanently = 301
status_code bad_request = 400
status_code unauthorized = 401
status_code forbidden = 403
status_code not_found = 404
status_code method_not_allowed = 405
status_code not_acceptable = 406
status_code request_timeout = 408
status_code unsupported_media_type = 415
status_code internal_server_error = 500
status_code not_implemented = 501
status_code service_unavailable = 503
status_code version_not_supported = 505

unfoldable pub get_status_text : Status → Bytes
get_status_text success = codes "OK"
get_status_text accepted = codes "Accepted"
get_status_text partial_content = codes "Partial Content"
get_status_text multiple_choices = codes "Multiple Choices"
get_status_text moved_permanently = codes "Moved Permanently"
get_status_text bad_request = codes "Bad Request"
get_status_text unauthorized = codes "Unauthorized"
get_status_text forbidden = codes "Forbidden"
get_status_text not_found = codes "Not Found"
get_status_text method_not_allowed = codes "Method Not Allowed"
get_status_text not_acceptable = codes "Not Acceptable"
get_status_text request_timeout = codes "Request Timeout"
get_status_text unsupported_media_type = codes "Unsupported Media Type"
get_status_text internal_server_error = codes "Internal Server Error"
get_status_text not_implemented = codes "Not Implemented"
get_status_text service_unavailable = codes "Service Unavailable"
get_status_text version_not_supported = codes "HTTP Version Not Suported"
get_status_text no_status = codes "unknown"

pub record HttpResponse : Type 0 where
  pub status : Status
  pub header : Bytes
  pub payload : Bytes

-- "\r\n"
abbrev pub crlf : Bytes
crlf = 13 ∷ 10 ∷ []

-- HttpResponse()
abbrev pub empty_response : HttpResponse
empty_response = record { status = accepted; header = []; payload = [] }

-- Whether the header ends here.
abbrev pub at_end : Bytes → Bool
at_end bytes = bytes_eq (take 4 bytes) (13 ∷ 10 ∷ 13 ∷ 10 ∷ [])

-- The header, with the one line break that is put back, and what follows the empty line. Data without
-- an empty line is header throughout.
unfoldable pub split_header : Bytes → Bytes × Bytes
split_header [] = ([], [])
split_header (c ∷ bytes) =
    let rest = split_header bytes in
    if at_end (c ∷ bytes) then (crlf, drop 4 (c ∷ bytes)) else (c ∷ rest.0, rest.1)

-- Whether the loop over the header ends at an empty line.
unfoldable pub has_end : Bytes → Bool
has_end [] = false
has_end (c ∷ bytes) = let rest = has_end bytes in at_end (c ∷ bytes) || rest

-- The index is an `int`: it counts up to the size, and `i + 4` is computed at every byte of the header,
-- which is all of the data where no empty line ends it.
unfoldable pub is_indexed : Bytes → Bool
is_indexed bytes = fits_int (if has_end bytes then length bytes else length bytes + 3)

-- HttpResponse(const std::vector<char> &), which leaves the status as it is initialised.
unfoldable pub of_data : Bytes → Result HttpResponse
of_data bytes =
    require (is_indexed bytes) signed_overflow
    >> ok (record {
      status = no_status;
      header = (split_header bytes).0;
      payload = (split_header bytes).1;
    })

abbrev pub set_content : Bytes → HttpResponse → HttpResponse
set_content bytes r = record r { payload = bytes }

abbrev pub set_status : Status → HttpResponse → HttpResponse
set_status s r = record r { status = s }

unfoldable pub add_header : Bytes → Bytes → HttpResponse → HttpResponse
add_header key value r = record r { header = r.header ++ (key ++ (codes ": " ++ (value ++ crlf))) }

-- The status line, with its space before the line break.
unfoldable pub status_line : Status → Bytes
status_line s =
    codes "HTTP/1.1 "
    ++ (decimal (status_code s) ++ (codes " " ++ (get_status_text s ++ codes " ")))

unfoldable pub build_header : HttpResponse → Bytes
unfolding status_line
build_header r = status_line r.status ++ (crlf ++ (r.header ++ crlf))
