-- ===== src/Http/Connection.antt =====
-- aufg2_3_http/connection_base/src/connection.hpp and connection.cpp, where a call
--  of `::send` takes all of its bytes; what `recv` yields is given in advance.
pub mod Sending
pub mod Receiving
mod Examples
use rechnernetze.Base.{
  ℕ, zero, suc, ◌+◌, ◌-◌, ◌%◌, ◌^◌, Bool, true, false, List, [], ◌∷◌, ◌++◌, Option, none, some,
  codes, bytes_eq, length, ℤ, pos, negsuc, take, drop, ltb, leb, ◌==◌, decimal, if◌then◌else◌,
}
use rechnernetze.Process.{
  Bytes, Result, ok, stop, ◌>>=◌, ◌>>◌, require, fits_int, pending, buffer_overread,
  signed_overflow,
}
use rechnernetze.Http.Request.{Range}
use rechnernetze.Http.Response.{HttpResponse, add_header, build_header, of_data}

-- The arguments of the calls of `::send`, in order.
pub record Connection : Type 0 where
  pub calls : List Bytes

-- Connection::send(const std::string &)
abbrev pub send : Bytes → Connection → Connection
send message c = record { calls = c.calls ++ (message ∷ []) }

abbrev pub add_length : ℕ → HttpResponse → HttpResponse
add_length n r = add_header (codes "Content-Length") (decimal n) r

-- The header and a part of the content; the response keeps the field that was added.
abbrev pub send_parts : ℕ → Bytes → HttpResponse → Connection → HttpResponse × Connection
send_parts n part r c =
    let announced = add_length n r in (announced, send part (send (build_header announced) c))

-- Connection::send(HttpResponse &)
unfoldable pub send_response : HttpResponse → Connection → HttpResponse × Connection
send_response r c = send_parts (length r.payload) r.payload r c

-- The end of a range, unless it lies behind the content.
unfoldable pub end_inside : ℕ → Option ℕ → Option ℕ
end_inside n none = none
end_inside n (some e) = if ltb n e then none else some e

-- The count of bytes as a size_t, the result of the conditional expression; its first branch is
-- computed as an `int`.
unfoldable pub range_size : ℕ → ℕ → Option ℕ → Result ℕ
range_size n start none = ok (n - start)
range_size n start (some e) =
    require (fits_int (e - start + 1)) signed_overflow >> ok ((e + 2 ^ 64 - start + 1) % 2 ^ 64)

-- `begin` to `begin + size` is read; past the content there is no answer.
unfoldable pub send_inside : ℕ → ℕ → HttpResponse → Connection → Result (HttpResponse × Connection)
send_inside start size r c =
    if leb (start + size) (length r.payload)
    then ok (send_parts size (take size (drop start r.payload)) r c)
    else stop buffer_overread

-- Connection::send(HttpResponse &, Range)
unfoldable pub send_range : HttpResponse → Range → Connection → Result (HttpResponse × Connection)
send_range r range c =
    if ltb (length r.payload) range.start
    then ok (send_response r c)
    else range_size (length r.payload) range.start (end_inside (length r.payload) range.end)
      >>= λ size. send_inside range.start size r c

-- An `int` that is compared with a size_t, or handed over as one.
abbrev pub to_size : ℤ → ℕ
to_size (pos n) = n
to_size (negsuc n) = 2 ^ 64 - suc n

-- `(int) message.length() - bytes_sent`, as the size_t that it becomes.
abbrev pub int_rest : ℕ → ℕ → ℕ
int_rest n bytes_sent =
    (n % 2 ^ 32 + 2 ^ 64 - (if fits_int (n % 2 ^ 32) then 0 else 2 ^ 32) - bytes_sent) % 2 ^ 64

-- The count of the next call as a size_t, for a message of `n` bytes. `bytes_sent + n_bytes` is an
-- `int`, which is compared as a size_t.
unfoldable pub next_count : ℕ → ℤ → ℕ → Result ℕ
next_count n (pos n_bytes) bytes_sent =
    require (fits_int (bytes_sent + n_bytes)) signed_overflow
    >> ok (if leb n (bytes_sent + n_bytes) then int_rest n bytes_sent else n_bytes)
next_count n (negsuc k) bytes_sent = ok (
    if leb n ((bytes_sent + 2 ^ 64 - suc k) % 2 ^ 64)
    then int_rest n bytes_sent
    else to_size (negsuc k))

-- The loop of send_slow with fuel for its passes. A call of `::send` with a count above what is left of
-- the message reads past the substring; so none goes on with a negative count.
unfoldable pub slow_loop : ℕ → Bytes → ℤ → ℕ → Connection → Result Connection
slow_loop zero message n_bytes bytes_sent c = stop pending
slow_loop (suc fuel) message n_bytes bytes_sent c = elim (ltb bytes_sent (length message)) [
  | true ↦ next_count (length message) n_bytes bytes_sent >>= λ n.
      require (leb n (length message - bytes_sent)) buffer_overread
      >> (require (fits_int (bytes_sent + n)) signed_overflow
          >> slow_loop fuel message (pos n) (bytes_sent + n)
              (send (take n (drop bytes_sent message)) c))
  | false ↦ ok c
]

-- A message that is sent as a whole is sent by the loop as well.
unfoldable pub send_slow : Bytes → ℤ → Connection → Result Connection
send_slow message n_bytes c =
    slow_loop (suc (length message)) message n_bytes 0
      (if leb (length message) (to_size n_bytes) then send message c else c)

-- One call of `recv`: what came, nothing at the end of the stream, or -1.
pub data Recv : Type 0 where
  chunk : Bytes → Recv
  failed : Recv

-- The last three bytes are compared with four; -1 is a large size_t.
unfoldable pub receive_loop : Bytes → List Recv → Result Bytes
receive_loop result [] = stop pending
receive_loop result (failed ∷ more) = stop buffer_overread
receive_loop result (chunk bytes ∷ more) =
    let size = length (take 2048 bytes) in
    let grown = result ++ take 2048 bytes in
    let again = receive_loop (result ++ take 2048 bytes) more in
    if size == 0
    then ok grown
    else if ltb (length grown) 3
    then stop buffer_overread
    else if bytes_eq (drop (length grown - 3) grown) (13 ∷ 10 ∷ 13 ∷ 10 ∷ [])
    then again
    else ok grown

unfoldable pub receive_bytes : List Recv → Result Bytes
receive_bytes incoming = receive_loop [] incoming

abbrev pub receive_string : List Recv → Result Bytes
receive_string incoming = receive_bytes incoming

unfoldable pub receive_http_response : List Recv → Result HttpResponse
receive_http_response incoming = receive_bytes incoming >>= λ bytes. of_data bytes
