-- ===== src/Bft/Datagram/Image.antt =====
-- What one side sends is what the other side receives: the memory image of a datagram there and back.
use native.Mathlib.Numerals.{towards_suc}
use rechnernetze.Base.{
  ℕ, ◌-◌, ◌^◌, ◌≤◌, ◌<◌, ◌≡◌, refl, ap, ◌∙◌, sym, ◌++◌, arith, length, take, drop, replicate,
  take-append, take_all, drop-replicate, le→leb,
}
use rechnernetze.Process.{Bytes, ok, Address, packet}
use rechnernetze.Bft.Datagram.{
  BftDatagram, max_payload_size, le_bytes, of_le_bytes, zero_payload, default_datagram, memory,
  of_memory, size, send, overwrite, log_and_return, receive, message,
}

-- A datagram as the constructors leave it: numbers within their fields, and zeros behind the text.
pub record IsFormed (d : BftDatagram) : Type 0 where
  pub text : Bytes
  pub checksum_bound : d.checksum < 2 ^ 32
  pub flags_bound : d.flags < 2 ^ 16
  pub size_bound : d.payload_size ≤ max_payload_size
  pub size_exact : length text ≡ d.payload_size
  pub zero_filled : d.payload ≡ text ++ replicate (max_payload_size - d.payload_size) 0

eq_of_fields :
    {a b : BftDatagram}
    → a.checksum ≡ b.checksum
    → a.payload_size ≡ b.payload_size
    → a.flags ≡ b.flags
    → a.payload ≡ b.payload
    → a ≡ b
eq_of_fields c n f p =
    λ i. record { checksum = c i; payload_size = n i; flags = f i; payload = p i }

of_le_bytes-le_bytes : (n : ℕ) → n < 2 ^ 32 → of_le_bytes (le_bytes 4 n) ≡ n
of_le_bytes-le_bytes n h = omega arith

of_le_bytes-le_bytes_short : (n : ℕ) → n < 2 ^ 16 → of_le_bytes (le_bytes 2 n) ≡ n
of_le_bytes-le_bytes_short n h = omega arith

header : BftDatagram → Bytes → Bytes
header d rest = le_bytes 4 d.checksum ++ (le_bytes 2 d.payload_size ++ (le_bytes 2 d.flags ++ rest))

module _ (d : BftDatagram) (v : IsFormed d) where
  open v use {text}

  send_lem : send d ≡ header d text
  unfolding send header
  send_lem = rw (v.zero_filled) (
      simp towards_suc (
        rw
          (take-append d.payload_size text (replicate (max_payload_size - d.payload_size) 0)
            v.size_exact)
          refl))

  take-header : take 512 (header d text) ≡ header d text
  unfolding header
  take-header = rw (take_all 504 text (omega (arith, v.size_exact, v.size_bound)))

  drop-header :
      drop (length (header d text)) (memory default_datagram)
      ≡ replicate (max_payload_size - d.payload_size) 0
  unfolding header zero_payload
  drop-header = rw (v.size_exact) (drop-replicate d.payload_size 504 0)

  of_memory-header :
      of_memory (header d (text ++ replicate (max_payload_size - d.payload_size) 0)) ≡ d
  unfolding header
  of_memory-header =
      eq_of_fields (of_le_bytes-le_bytes d.checksum v.checksum_bound)
        (of_le_bytes-le_bytes_short d.payload_size (omega (arith, v.size_bound)))
        (of_le_bytes-le_bytes_short d.flags v.flags_bound) (sym v.zero_filled)

  header-append : (rest : Bytes) → header d text ++ rest ≡ header d (text ++ rest)
  unfolding header
  header-append rest = refl

  overwrite_lem : overwrite default_datagram (send d) ≡ d
  unfolding overwrite
  overwrite_lem =
      rw (send_lem, take-header, drop-header) (ap of_memory (header-append _) ∙ of_memory-header)

  length-send : length (take 512 (send d)) ≡ size d
  length-send = rw (send_lem, take-header) (unfold header in omega (arith, v.size_exact))

-- A datagram that a constructor built is received, by an object fresh from the default constructor,
-- as it was sent, with its length as the count of bytes.
pub receive-send :
    (d : BftDatagram) (sender : Address)
    → IsFormed d
    → receive default_datagram (packet (send d) sender) ≡ ok (message (size d) sender d)
unfolding receive log_and_return
receive-send d sender v =
    rw (overwrite_lem d v, length-send d v)
      (rw (le→leb d.payload_size max_payload_size v.size_bound, log_and_return))
