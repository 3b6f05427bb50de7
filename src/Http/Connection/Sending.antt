-- ===== src/Http/Connection/Sending.antt =====
-- Which bytes the sending operations hand to the system.
use rechnernetze.Base.{
  ℕ, zero, suc, ◌+◌, ◌-◌, ◌%◌, ◌^◌, ◌≤◌, ◌<◌, ◌≡◌, refl, sym, ◌∙◌, ap, inl, inr, List, [], ◌∷◌,
  ◌++◌, append_assoc, append-nil, Option, none, some, arith, length, take, drop, length-drop,
  drop-drop, drop_all, ltb→lt, length-take, take_all, take-append-drop, ltb, leb, le→leb, lt→leb,
  ◌==◌, true, subst, pos, Bool-cases, Option-cases, codes, if◌then◌else◌,
}
use rechnernetze.Process.{Bytes, Result, ok, stop, ◌>>=◌, fits_int, buffer_overread, Returns}
use rechnernetze.Http.Response.{
  HttpResponse, no_status, crlf, status_line, add_header, build_header, of_data,
}
use rechnernetze.Http.Response.Parsing.{
  HasLines, is_line, no_return, add_header-HasLines, decimal-no_return, build_header-of_data,
}
use rechnernetze.Http.Request.{Range, IsRange}
use rechnernetze.Http.Connection.{
  Connection, send, add_length, send_parts, send_response, end_inside, range_size, send_inside,
  send_range, int_rest, next_count, slow_loop, send_slow,
}

-- All the bytes of the calls, in order.
abbrev pub stream : List Bytes → Bytes
stream [] = []
stream (bytes ∷ calls) = bytes ++ stream calls

abbrev pub empty_connection : Connection
empty_connection = record { calls = [] }

pub add_length-HasLines : (n : ℕ) (r : HttpResponse) → HasLines r → HasLines (add_length n r)
add_length-HasLines n r v =
    add_header-HasLines (codes "Content-Length") _ r (unfold is_line in unfold no_return in refl)
      (decimal-no_return n) v

-- Let the header of a response consist of lines, and let it be sent as less than 2^31 - 3 bytes. What is
-- sent, parsed as a response, has the content, and the header with the length.
pub send_response-of_data :
    (r : HttpResponse)
    → HasLines r
    → length (stream (send_response r empty_connection).1.calls) + 3 < 2 ^ 31
    → of_data (stream (send_response r empty_connection).1.calls)
      ≡ ok (record {
        status = no_status;
        header = status_line r.status ++ (crlf ++ (add_length (length r.payload) r).header);
        payload = r.payload;
      })
unfolding send_response add_header
send_response-of_data r v short =
    let whole = build_header (add_length (length r.payload) r) ++ r.payload in
    let same : build_header (add_length (length r.payload) r) ++ (r.payload ++ []) ≡ whole =
      ap (λ t. build_header (add_length (length r.payload) r) ++ t) (append-nil r.payload) in
    ap of_data same
    ∙ build_header-of_data (add_length (length r.payload) r) r.payload
        (add_length-HasLines (length r.payload) r v) (subst (λ t. length t + 3 < 2 ^ 31) same short)

-- The part of the content that a range stands for, or nothing where its end is the length.
unfoldable pub range_part : Range → Bytes → Option Bytes
range_part range content =
    if ltb (length content) range.start then some content else elim range.end [
      | none ↦ some (drop range.start content)
      | some e ↦
          if ltb (length content) e
          then some (drop range.start content)
          else if e == length content
          then none
          else some (take (e + 1 - range.start) (drop range.start content))
    ]

abbrev pub sent_or_overread :
    HttpResponse → Connection → Option Bytes → Result (HttpResponse × Connection)
sent_or_overread r c none = stop buffer_overread
sent_or_overread r c (some part) = ok (send_parts (length part) part r c)

module _ (r : HttpResponse) (c : Connection) where
  inside :
      (start size : ℕ)
      → start + size ≤ length r.payload
      → send_inside start size r c ≡ sent_or_overread r c (some (take size (drop start r.payload)))
  unfolding send_inside
  inside start size h =
      let full : length (take size (drop start r.payload)) ≡ size =
        omega (arith, length-take size (drop start r.payload), length-drop start r.payload) in
      rw (le→leb (start + size) (length r.payload) h, full)

  to_the_end :
      (start : ℕ)
      → start ≤ length r.payload
      → send_inside start (length r.payload - start) r c
        ≡ sent_or_overread r c (some (drop start r.payload))
  to_the_end start h =
      inside start (length r.payload - start) (omega arith)
      ∙ ap (λ t. sent_or_overread r c (some t))
          (take_all (length r.payload - start) (drop start r.payload)
            (omega (arith, length-drop start r.payload)))

  outside :
      (start size : ℕ)
      → length r.payload < start + size
      → send_inside start size r c ≡ stop buffer_overread
  unfolding send_inside
  outside start size h = rw (lt→leb (start + size) (length r.payload) h)

  up_to :
      (start e : ℕ)
      → start ≤ length r.payload
      → start ≤ e
      → length r.payload + 1 < 2 ^ 31
      → (range_size (length r.payload) start (end_inside (length r.payload) (some e)) >>= λ size.
          send_inside start size r c)
        ≡ sent_or_overread r c (
            if ltb (length r.payload) e
            then some (drop start r.payload)
            else if e == length r.payload
            then none
            else some (take (e + 1 - start) (drop start r.payload)))
  unfolding range_size end_inside
  up_to start e hs he small = elim (Bool-cases (ltb (length r.payload) e)) [
    | inl past ↦ rw (past, end_inside) (to_the_end start hs)
    | inr within ↦ elim (Bool-cases (e == length r.payload)) [
      | inl last ↦
          let fits : fits_int (e - start + 1) ≡ true = ground arith in
          rw (within, last, end_inside) (rw (fits, range_size) (outside start _ (ground arith)))
      | inr before ↦
          let fits : fits_int (e - start + 1) ≡ true = ground arith in
          let size : (e + 2 ^ 64 - start + 1) % 2 ^ 64 ≡ e + 1 - start = ground arith in
          rw (within, before, end_inside)
            (rw (fits, size, range_size) (inside start (e + 1 - start) (ground arith)))
    ]
  ]

  -- With a range whose end is not before its start, and less than 2^31 - 1 bytes of content, the
  -- header and the part of the content that the range stands for are sent; where the end is just
  -- the length, a byte past the content is read.
  pub send_range_lem :
      (range : Range)
      → IsRange range
      → length r.payload + 1 < 2 ^ 31
      → send_range r range c ≡ sent_or_overread r c (range_part range r.payload)
  unfolding send_range range_part send_response
  send_range_lem range v small = elim (Bool-cases (ltb (length r.payload) range.start)) [
    | inl past ↦ rw (past, send_range, range_part)
    | inr within ↦ elim (Option-cases range.end) [
      | inl open_end ↦
          rw (within, open_end, send_range, range_part)
            (unfold end_inside in unfold range_size in to_the_end range.start (ground arith))
      | inr (e, there) ↦
          rw (within, there, send_range, range_part)
            (up_to range.start e (ground arith) (v e there) small)
    ]
  ]

stream-append :
    (calls : List Bytes) (bytes : Bytes) → stream (calls ++ (bytes ∷ [])) ≡ stream calls ++ bytes
stream-append [] bytes = append-nil bytes
stream-append (first ∷ calls) bytes =
    ap (λ t. first ++ t) (stream-append calls bytes) ∙ sym (append_assoc first (stream calls) bytes)

-- One call that sends `k` bytes, and then the rest.
pass :
    (message : Bytes) (k sent : ℕ) (c : Connection) (m : Result Connection)
    → Returns
        (λ c'.
          stream c'.calls
          ≡ stream (send (take k (drop sent message)) c).calls ++ drop (sent + k) message)
        m
    → Returns (λ c'. stream c'.calls ≡ stream c.calls ++ drop sent message) m
pass message k sent c m (c', ran, e) = (
  c',
  ran,
  e
      ∙ ap (λ t. t ++ drop (sent + k) message) (stream-append c.calls (take k (drop sent message)))
      ∙ append_assoc (stream c.calls) (take k (drop sent message)) (drop (sent + k) message)
      ∙ ap (λ t. stream c.calls ++ t)
          (ap (λ t. take k (drop sent message) ++ t) (sym (drop-drop k sent message))
            ∙ take-append-drop k (drop sent message)),
)

-- In the last call the numbers stay in the range of an `int`.
int_rest_lem : (n sent : ℕ) → n < 2 ^ 31 → sent ≤ n → int_rest n sent ≡ n - sent
int_rest_lem n sent small h =
    let same : n % 2 ^ 32 ≡ n = omega arith in
    let fits : fits_int n ≡ true = ground arith in rw (same, fits) (omega arith)

-- What the loop has still to send.
slow_loop-Returns :
    (fuel : ℕ) (message : Bytes) (n sent : ℕ) (c : Connection)
    → 0 < n
    → length message + n < 2 ^ 31
    → length message - sent < fuel
    → Returns
        (λ c'. stream c'.calls ≡ stream c.calls ++ drop sent message)
        (slow_loop fuel message (pos n) sent c)
unfolding slow_loop next_count
slow_loop-Returns zero message n sent c hn small h = absurd (omega arith)
slow_loop-Returns (suc fuel) message n sent c hn small h =
    elim (Bool-cases (ltb sent (length message))) [
      | inr all_sent ↦
          rw (all_sent, slow_loop)
            (c, refl, rw (drop_all sent message (ground arith), append-nil) refl)
      | inl more ↦
          let room = ltb→lt sent (length message) more in
          let fits : fits_int (sent + n) ≡ true = ground (arith, room) in
          rw (more, slow_loop)
            (elim (Bool-cases (leb (length message) (sent + n))) [
              | inl last ↦
                  let rest = length message - sent in
                  let count : int_rest (length message) sent ≡ rest =
                    int_rest_lem (length message) sent (omega (arith, room))
                      (omega (arith, room)) in
                  let enough : leb rest rest ≡ true = ground arith in
                  let fits' : fits_int (sent + rest) ≡ true = ground (arith, room) in
                  rw (fits, last, count, next_count)
                    (rw (enough, fits')
                      (pass message rest sent c _ (
                        slow_loop-Returns fuel message rest (sent + rest) _ (omega (arith, room))
                          (ground (arith, room)) (omega (arith, room)))))
              | inr full ↦
                  let enough : leb n (length message - sent) ≡ true = ground arith in
                  rw (fits, full, next_count)
                    (rw (enough, fits)
                      (pass message n sent c _ (
                        slow_loop-Returns fuel message n (sent + n) _ hn small
                          (omega (arith, room)))))
            ])
    ]

-- With at least a byte per call, and less than 2^31 as the sum of the message's length and the bytes per
-- call, sending slowly comes to its end and sends the message, and twice if it fits into one call.
pub send_slow_lem :
    (message : Bytes) (n : ℕ)
    → 0 < n
    → length message + n < 2 ^ 31
    → (c : Connection) × (send_slow message (pos n) empty_connection ≡ ok c)
      × (stream c.calls ≡ (if leb (length message) n then message ++ message else message))
unfolding send_slow
send_slow_lem message n hn small =
    let (c, ran, e) =
      slow_loop-Returns (suc (length message)) message n 0
        (if leb (length message) n then send message empty_connection else empty_connection) hn
        small (omega arith) in
    (
      c,
      ran,
      e ∙ (elim (Bool-cases (leb (length message) n)) [
        | inl whole ↦ rw whole (ap (λ t. t ++ message) (append-nil message))
        | inr part ↦ rw part
      ]),
    )
