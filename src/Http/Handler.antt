-- ===== src/Http/Handler.antt =====
-- aufg2_3_http/http_server/src/main.cpp: the handling of one connection.
pub mod Answers
mod Examples
use rechnernetze.Base.{ℕ, zero, suc, List, [], ◌∷◌, ◌++◌, Option, none, some, codes}
use rechnernetze.Process.{Bytes, Result, ok, stop, ◌>>=◌}
use rechnernetze.Http.Request.{
  Range, HttpRequest, Refusal, bad_status_line, reversed_range, out_of_range, Parsed, parsed,
  refused, of_text, get_range,
}
use rechnernetze.Http.Response.{HttpResponse, bad_request}
use rechnernetze.Http.Connection.{Connection, send_response, send_range, Recv, receive_string}
use rechnernetze.Http.Factory.{Disk, create, create_from_plain_text}

-- A text as it is read through a pointer to its first character.
unfoldable pub c_str : Bytes → Bytes
c_str [] = []
c_str (zero ∷ bytes) = []
c_str (suc c ∷ bytes) = suc c ∷ c_str bytes

-- The files, the folder of the documents, and the text of the exception of std::stoi.
pub record Site : Type 0 where
  pub disk : Disk
  pub document_root_folder : Bytes
  pub stoi_what : Bytes

module _ (site : Site) where
  -- `e.what()`, a text of C that ends at the first zero.
  unfoldable pub what : Refusal → Bytes
  what (bad_status_line line) = c_str (codes "Failed to parse Status-Line: " ++ line)
  what reversed_range = codes "Range end can't be smaller than range start"
  what out_of_range = site.stoi_what

  unfoldable pub send_answer : Option Range → HttpResponse → Connection → Result Connection
  send_answer (some range) response cnn = send_range response range cnn >>= λ sent. ok sent.1
  send_answer none response cnn = ok (send_response response cnn).1

  unfoldable pub answer : Parsed HttpRequest → Connection → Result Connection
  unfolding what send_answer
  answer (refused why) cnn =
      ok (send_response (create_from_plain_text bad_request (what why)) cnn).1
  answer (parsed request) cnn =
      send_answer (get_range request) (create site.disk request site.document_root_folder).0 cnn

  unfoldable pub handle_incoming_request : List Recv → Connection → Result Connection
  unfolding answer
  handle_incoming_request incoming cnn =
      receive_string incoming >>= λ received. answer (of_text received) cnn
