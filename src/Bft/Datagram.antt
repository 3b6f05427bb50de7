-- ===== src/Bft/Datagram.antt =====
-- aufg4/bft_base/bft_datagram.hpp and bft_datagram.cpp. The memory image of a datagram is that of
-- the packed class on a little-endian machine.
pub mod Print
pub mod Image
pub mod Checks
mod Examples
use rechnernetze.Base.{
  ℕ, zero, suc, ◌+◌, ◌-◌, ◌*◌, ◌/◌, ◌%◌, ◌^◌, Bool, true, false, ◌&&◌, List, [], ◌∷◌, ◌++◌, Option,
  none, some, length, take, drop, replicate, leb, ◌==◌, bool_eq, if◌then◌else◌,
}
use rechnernetze.Bft.Flags.{Flags, no_flags, sqn, ack, abr, syn, or_flags, has_flag, clear_flag}
use rechnernetze.Process.{
  Bytes, Result, ok, stop, exited, exit_failure, buffer_overread, Address, RecvFrom, packet, again,
  broken, Crc,
}

-- sizeof(int) + sizeof(short) + sizeof(Flags)
abbrev pub header_size : ℕ
header_size = 4 + 2 + 2

abbrev pub max_datagram_size : ℕ
max_datagram_size = 512

abbrev pub max_payload_size : ℕ
max_payload_size = max_datagram_size - header_size

pub record BftDatagram : Type 0 where
  pub checksum : ℕ
  pub payload_size : ℕ
  pub flags : Flags
  pub payload : Bytes

-- The bytes of a number in memory, lowest first, and the number that bytes spell.
abbrev pub le_bytes : ℕ → ℕ → Bytes
le_bytes zero n = []
le_bytes (suc k) n = n % 256 ∷ le_bytes k (n / 256)

abbrev pub of_le_bytes : Bytes → ℕ
of_le_bytes [] = 0
of_le_bytes (b ∷ bs) = b + 256 * of_le_bytes bs

unfoldable pub zero_payload : Bytes
zero_payload = replicate max_payload_size 0

-- BftDatagram()
abbrev pub default_datagram : BftDatagram
default_datagram = record {
  checksum = 0;
  payload_size = 0;
  flags = no_flags;
  payload = zero_payload;
}

-- The memory from `payload_size` on: what the checksum covers.
abbrev pub covered : BftDatagram → Bytes
covered d = le_bytes 2 d.payload_size ++ (le_bytes 2 d.flags ++ d.payload)

abbrev pub memory : BftDatagram → Bytes
memory d = le_bytes 4 d.checksum ++ covered d

-- The object whose memory holds the given bytes.
abbrev pub of_memory : Bytes → BftDatagram
of_memory bytes = record {
  checksum = of_le_bytes (take 4 bytes);
  payload_size = of_le_bytes (take 2 (drop 4 bytes));
  flags = of_le_bytes (take 2 (drop 6 bytes));
  payload = drop 8 bytes;
}

-- Reads `payload_size` bytes from the start of `payload`; past the array there is no answer.
abbrev pub get_payload : BftDatagram → Option Bytes
get_payload d =
    if leb d.payload_size max_payload_size then some (take d.payload_size d.payload) else none

abbrev pub get_flags : BftDatagram → Flags
get_flags d = d.flags

abbrev pub get_sqn : BftDatagram → Bool
get_sqn d = has_flag d.flags sqn

abbrev pub size : BftDatagram → ℕ
size d = d.payload_size + header_size

-- `if (sqn) this->flags = (flags | Flags::SQN);`
abbrev pub add_sqn : Flags → Bool → Flags
add_sqn flags sqn_bit = if sqn_bit then or_flags flags sqn else flags

-- A copy to the start of the zeroed array; a longer text overruns it.
unfoldable pub fill_payload : Bytes → Option Bytes
fill_payload text =
    if leb (length text) max_payload_size
    then some (text ++ replicate (max_payload_size - length text) 0)
    else none

unfoldable pub is_ack_for : BftDatagram → BftDatagram → Bool
is_ack_for d original =
    has_flag (get_flags d) ack
    && ((clear_flag (get_flags d) ack == get_flags original)
        && bool_eq (get_sqn d) (get_sqn original))

module _ (crc : Crc) where
  unfoldable pub calc_checksum : BftDatagram → ℕ
  calc_checksum d = crc.calculate (covered d)

  -- The last line of each constructor.
  abbrev pub seal : BftDatagram → BftDatagram
  seal d = record d { checksum = calc_checksum d }

  -- BftDatagram(Flags, bool)
  unfoldable pub of_flags : Flags → Bool → BftDatagram
  of_flags flags sqn_bit = seal (record {
    checksum = 0;
    payload_size = 0;
    flags = add_sqn flags sqn_bit;
    payload = zero_payload;
  })

  -- BftDatagram(Flags, char *, char *, bool); `payload_size` is an unsigned short.
  unfoldable pub of_range : Flags → Bytes → Bool → Option BftDatagram
  unfolding fill_payload
  of_range flags text sqn_bit = elim (fill_payload text) [
    | none ↦ none
    | some payload ↦ some (
        seal (record {
          checksum = 0;
          payload_size = length text % 2 ^ 16;
          flags = add_sqn flags sqn_bit;
          payload = payload;
        }))
  ]

  -- BftDatagram(Flags, const std::string &, bool)
  unfoldable pub of_string : Flags → Bytes → Bool → Option BftDatagram
  unfolding of_range
  of_string flags text sqn_bit = of_range flags text sqn_bit

  unfoldable pub check_integrity : BftDatagram → Bool
  check_integrity d = (calc_checksum d == d.checksum) && leb (size d) max_datagram_size

  unfoldable pub syn_datagram : BftDatagram
  unfolding of_flags
  syn_datagram = of_flags syn false

  unfoldable pub abr_datagram : BftDatagram
  unfolding of_flags
  abr_datagram = of_flags abr false

  unfoldable pub is_syn : BftDatagram → Bool
  unfolding syn_datagram
  is_syn d = (get_flags d == syn_datagram.flags) && bool_eq (get_sqn d) (get_sqn syn_datagram)

  unfoldable pub is_abr : BftDatagram → Bool
  unfolding abr_datagram
  is_abr d = (get_flags d == abr_datagram.flags) && bool_eq (get_sqn d) (get_sqn abr_datagram)

  unfoldable pub create_ack : BftDatagram → BftDatagram
  unfolding of_flags
  create_ack d = of_flags (or_flags (get_flags d) ack) (get_sqn d)

-- The bytes that `send` hands to `sendto`: the first `size()` of the object.
unfoldable pub send : BftDatagram → Bytes
send d = take (size d) (memory d)

-- What `receive` returns: the number of bytes, with the sender and the object filled in; or -1.
pub data Received : Type 0 where
  message : ℕ → Address → BftDatagram → Received
  would_block : Received

-- `recvfrom` writes the first 512 bytes of the packet over the object's memory.
unfoldable pub overwrite : BftDatagram → Bytes → BftDatagram
overwrite response bytes =
    let arrived = take max_datagram_size bytes in
    of_memory (arrived ++ drop (length arrived) (memory response))

-- The log line at the end reads the payload, before any check of the datagram.
unfoldable pub log_and_return : ℕ → Address → BftDatagram → Result Received
log_and_return bytes_recvd sender response = elim (get_payload response) [
  | none ↦ stop buffer_overread
  | some _ ↦ ok (message bytes_recvd sender response)
]

unfoldable pub receive : BftDatagram → RecvFrom → Result Received
receive response again = ok would_block
receive response broken = stop (exited exit_failure)
receive response (packet bytes sender) =
    log_and_return (length (take max_datagram_size bytes)) sender (overwrite response bytes)
