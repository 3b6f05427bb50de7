-- ===== src/Http/Connection/Receiving.antt =====
-- How much of an answer is received.
use rechnernetze.Base.{
  ◌-◌, ◌≤◌, ◌<◌, ◌≡◌, refl, false, List, [], ◌∷◌, arith, length, take, drop, length-drop,
  length-take, ltb, bytes_eq, ◌==◌,
}
use rechnernetze.Process.{Bytes, ok}
use rechnernetze.Http.Connection.{Recv, chunk, receive_loop, receive_bytes}

bytes_eq-length : (s t : Bytes) → length s < length t → bytes_eq s t ≡ false
unfolding bytes_eq
bytes_eq-length [] [] h = absurd (omega arith)
bytes_eq-length [] (c ∷ t) h = refl
bytes_eq-length (b ∷ s) [] h = absurd (omega arith)
bytes_eq-length (b ∷ s) (c ∷ t) h = ground (arith, bytes_eq-length s t)

-- After a first call of `recv` with at least three bytes no other is made, whatever is still to
-- come: the result is what the first brought into the buffer of 2048 bytes.
pub receive_bytes_lem :
    (bytes : Bytes) (more : List Recv)
    → 3 ≤ length bytes
    → receive_bytes (chunk bytes ∷ more) ≡ ok (take 2048 bytes)
unfolding receive_bytes receive_loop
receive_bytes_lem bytes more h =
    let part = take 2048 bytes in
    let long : 3 ≤ length part = omega (arith, length-take 2048 bytes) in
    let filled : (length part == 0) ≡ false = ground arith in
    let readable : ltb (length part) 3 ≡ false = ground arith in
    let differs : bytes_eq (drop (length part - 3) part) (13 ∷ 10 ∷ 13 ∷ 10 ∷ []) ≡ false =
      bytes_eq-length (drop (length part - 3) part) _
        (omega (arith, length-drop (length part - 3) part, long)) in
    rw (filled, readable, differs)
