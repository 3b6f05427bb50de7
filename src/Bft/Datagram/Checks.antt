-- ===== src/Bft/Datagram/Checks.antt =====
-- What the constructors build, and the tests that the programs make of a datagram that came in.
use rechnernetze.Base.{
  ◌+◌, ◌-◌, ◌%◌, ◌^◌, ◌≤◌, ◌<◌, ◌≡◌, ◌↔◌, ◌⊎◌, inl, inr, refl, ap, Bool, true, false, not, [], ◌∷◌,
  ◌++◌, none, some, arith, length, take, drop, replicate, take-append, le→leb, lt→leb, ==_refl,
  dec_le,
}
use rechnernetze.Bft.Flags.{Flags, sqn, ack, or_flags, has_flag}
use rechnernetze.Bft.Flags.Laws.{flag_bits}
use rechnernetze.Process.{Bytes, ok, stop, buffer_overread, Address, packet, Crc}
use rechnernetze.Bft.Datagram.{
  BftDatagram, max_payload_size, of_le_bytes, default_datagram, get_payload, get_sqn, add_sqn, send,
  overwrite, log_and_return, receive, message, fill_payload, of_range, of_flags, calc_checksum,
  check_integrity, is_ack_for, create_ack,
}
use rechnernetze.Bft.Datagram.Image.{IsFormed, receive-send}

-- The flag word of a datagram after `add_sqn`.
pub add_sqn-bound : (flags : Flags) (b : Bool) → flags < 2 ^ 16 → add_sqn flags b < 2 ^ 16
add_sqn-bound flags b h = ground (arith, flag_bits 0 flags)

pub add_sqn-get :
    (flags : Flags) (b : Bool)
    → flags < 2 ^ 16
    → has_flag flags sqn ≡ false
    → has_flag (add_sqn flags b) sqn ≡ b
add_sqn-get flags b h e = ground (arith, flag_bits 0 flags, flag_bits 0 (or_flags flags sqn))

module _ (crc : Crc) where
  -- The object that the constructors build from a text that fits.
  unfoldable pub built : Flags → Bytes → Bool → BftDatagram
  unfolding calc_checksum
  built flags text b = record plain { checksum = calc_checksum crc plain }
    where
      plain : BftDatagram
      plain = record {
        checksum = 0;
        payload_size = length text;
        flags = add_sqn flags b;
        payload = text ++ replicate (max_payload_size - length text) 0;
      }

  pub of_range-some :
      (flags : Flags) (text : Bytes) (b : Bool)
      → length text ≤ max_payload_size
      → of_range crc flags text b ≡ some (built flags text b)
  unfolding of_range built
  of_range-some flags text b h =
      let short : length text % 2 ^ 16 ≡ length text = omega arith in
      rw (le→leb (length text) max_payload_size h, of_range, fill_payload) (rw short)

  pub of_range-none :
      (flags : Flags) (text : Bytes) (b : Bool)
      → max_payload_size < length text
      → of_range crc flags text b ≡ none
  unfolding of_range
  of_range-none flags text b h =
      rw (lt→leb (length text) max_payload_size h, of_range, fill_payload)

  pub built-IsFormed :
      (flags : Flags) (text : Bytes) (b : Bool)
      → flags < 2 ^ 16
      → length text ≤ max_payload_size
      → IsFormed (built flags text b)
  unfolding built calc_checksum
  built-IsFormed flags text b hf hn = record {
    text = text;
    checksum_bound = crc.calculate_bound _;
    flags_bound = add_sqn-bound flags b hf;
    size_bound = hn;
    size_exact = refl;
    zero_filled = refl;
  }

  pub built-check :
      (flags : Flags) (text : Bytes) (b : Bool)
      → length text ≤ max_payload_size
      → check_integrity crc (built flags text b) ≡ true
  unfolding built check_integrity calc_checksum
  built-check flags text b hn =
      rw (
        ==_refl (calc_checksum crc (built flags text b)),
        le→leb (length text + 8) 512 (omega arith),
      )

  built-payload :
      (flags : Flags) (text : Bytes) (b : Bool)
      → length text ≤ max_payload_size
      → get_payload (built flags text b) ≡ some text
  unfolding built
  built-payload flags text b hn =
      rw (le→leb (length text) max_payload_size hn)
        (ap some (take-append (length text) text _ refl))

  -- With a 16-bit flag word, a datagram built from up to 504 bytes passes the check, and is
  -- received as it was sent, with its text as payload; from more bytes the constructor overruns
  -- the array.
  pub of_range_lem :
      (flags : Flags) (text : Bytes) (b : Bool) (sender : Address)
      → flags < 2 ^ 16
      → ((length text ≤ max_payload_size)
          × ((d : BftDatagram) × (of_range crc flags text b ≡ some d)
              × (check_integrity crc d ≡ true)
              × (receive default_datagram (packet (send d) sender)
                  ≡ ok (message (length text + 8) sender d))
              × (get_payload d ≡ some text)))
        ⊎ ((max_payload_size < length text) × (of_range crc flags text b ≡ none))
  unfolding built
  of_range_lem flags text b sender hf = elim (dec_le (length text) max_payload_size) [
    | yes h ↦ inl (
      h,
      (
        built flags text b,
        of_range-some flags text b h,
        built-check flags text b h,
        receive-send (built flags text b) sender (built-IsFormed flags text b hf h),
        built-payload flags text b h,
      ),
    )
    | no h ↦ inr (omega arith, of_range-none flags text b (omega arith))
  ]

-- Among 16-bit flag words, one datagram acknowledges another exactly when its flags are the other's
-- with ACK added and the other has no ACK itself.
pub is_ack_for_iff :
    (r d : BftDatagram)
    → r.flags < 2 ^ 16
    → d.flags < 2 ^ 16
    → (is_ack_for r d ≡ true) ↔ ((r.flags ≡ or_flags d.flags ack) × (has_flag d.flags ack ≡ false))
unfolding is_ack_for
is_ack_for_iff r d hr hd =
    ground
      (arith, flag_bits 1 r.flags, flag_bits 1 d.flags, flag_bits 0 r.flags, flag_bits 0 d.flags)

is_ack_for-or_flags :
    (r d : BftDatagram)
    → d.flags < 2 ^ 16
    → r.flags ≡ or_flags d.flags ack
    → is_ack_for r d ≡ not (has_flag d.flags ack)
unfolding is_ack_for
is_ack_for-or_flags r d h e = rw e (
    ground (
      arith,
      flag_bits 0 d.flags,
      flag_bits 1 d.flags,
      flag_bits 0 (or_flags d.flags ack),
      flag_bits 1 (or_flags d.flags ack),
    ))

module _ (crc : Crc) where
  pub create_ack-flags :
      (d : BftDatagram) → d.flags < 2 ^ 16 → (create_ack crc d).flags ≡ or_flags d.flags ack
  unfolding create_ack
  create_ack-flags d h =
      ground (arith, flag_bits 0 d.flags, flag_bits 1 d.flags, flag_bits 0 (or_flags d.flags ack))

  of_flags-check : (flags : Flags) (b : Bool) → check_integrity crc (of_flags crc flags b) ≡ true
  unfolding check_integrity of_flags calc_checksum
  of_flags-check flags b = ground (arith, ==_refl (calc_checksum crc (of_flags crc flags b)))

  create_ack-payload : (d : BftDatagram) → get_payload (create_ack crc d) ≡ some []
  unfolding create_ack
  create_ack-payload d = refl

  -- The acknowledgement of a datagram with a 16-bit flag word is an intact datagram without
  -- payload, with the sequence number of the other; the other side accepts it unless what it sent
  -- had the ACK flag already.
  pub create_ack_lem :
      (d : BftDatagram)
      → d.flags < 2 ^ 16
      → (check_integrity crc (create_ack crc d) ≡ true)
        × (get_payload (create_ack crc d) ≡ some [])
        × (get_sqn (create_ack crc d) ≡ get_sqn d)
        × (is_ack_for (create_ack crc d) d ≡ not (has_flag d.flags ack))
  create_ack_lem d h = (
    unfold create_ack in of_flags-check (or_flags d.flags ack) (get_sqn d),
    create_ack-payload d,
    rw (create_ack-flags d h) (
        ground
          (arith, flag_bits 0 (or_flags d.flags ack), flag_bits 0 d.flags, flag_bits 1 d.flags)),
    is_ack_for-or_flags (create_ack crc d) d h (create_ack-flags d h),
  )

-- A packet of at least six bytes whose size field exceeds the array makes `receive` read past it,
-- whatever its checksum.
pub receive_overread :
    (bytes : Bytes) (sender : Address)
    → 6 ≤ length bytes
    → max_payload_size < of_le_bytes (take 2 (drop 4 bytes))
    → receive default_datagram (packet bytes sender) ≡ stop buffer_overread
unfolding receive log_and_return overwrite
receive_overread (b0 ∷ b1 ∷ b2 ∷ b3 ∷ b4 ∷ b5 ∷ bytes) sender h big =
    rw (lt→leb (of_le_bytes (b4 ∷ b5 ∷ [])) max_payload_size big, receive, log_and_return)
receive_overread _ sender h big = absurd (omega arith)
