-- ===== src/Bft/Network/Answers.antt =====
-- What the client makes of the server's answers.
use rechnernetze.Base.{◌≡◌, refl, Bool, true, false, not, ◌&&◌, arith, bool_eq, []}
use rechnernetze.Process.{Bytes, Crc}
use rechnernetze.Bft.Flags.{no_flags, abr, agn, ack, or_flags, has_flag}
use rechnernetze.Bft.Datagram.{
  BftDatagram, get_sqn, check_integrity, send, size, of_flags, create_ack, calc_checksum,
  zero_payload, is_ack_for,
}
use rechnernetze.Bft.Datagram.Image.{IsFormed, receive-send}
use rechnernetze.Bft.Datagram.Checks.{built, add_sqn-bound}
use rechnernetze.Bft.Client.{again, judge}
use rechnernetze.Bft.Client.Prompt.{built-Outgoing, create_ack-IsFormed}
use rechnernetze.Bft.Network.{IsReceived, IsDamaged}

module _ (crc : Crc) where
  -- An answer that is not ABR, and that the client takes for nothing while its bit is `b`.
  pub record IsIdle (b : Bool) (p : Bytes) : Type 0 where
    pub count : _
    pub datagram : BftDatagram
    pub received : IsReceived p count datagram
    pub no_refusal :
        (check_integrity crc datagram && (has_flag datagram.flags abr && not (get_sqn datagram)))
        ≡ false
    pub again_is : (text : Bytes) → judge crc (built crc no_flags text b) b datagram ≡ again

  pub damaged-IsIdle : (b : Bool) (p : Bytes) → IsDamaged crc p → IsIdle b p
  unfolding judge
  damaged-IsIdle b p h = record {
    count = h.count;
    datagram = h.datagram;
    received = h.received;
    no_refusal = rw h.broken refl;
    again_is = λ text. rw h.broken refl;
  }

  agn-IsFormed : (c : Bool) → IsFormed (of_flags crc agn c)
  unfolding of_flags calc_checksum zero_payload
  agn-IsFormed c = record {
    text = [];
    checksum_bound = crc.calculate_bound _;
    flags_bound = add_sqn-bound agn c (omega arith);
    size_bound = omega arith;
    size_exact = refl;
    zero_filled = refl;
  }

  agn-flags :
      (c : Bool)
      → (has_flag (of_flags crc agn c).flags abr ≡ false)
        × (has_flag (of_flags crc agn c).flags ack ≡ false)
  unfolding of_flags has_flag or_flags
  agn-flags true = (refl, refl)
  agn-flags false = (refl, refl)

  -- The call for a repetition.
  pub agn-IsIdle : (b c : Bool) → IsIdle b (send (of_flags crc agn c))
  unfolding judge is_ack_for
  agn-IsIdle b c = record {
    count = size (of_flags crc agn c);
    datagram = of_flags crc agn c;
    received = λ a. receive-send (of_flags crc agn c) a (agn-IsFormed c);
    no_refusal = rw ((agn-flags c).0) (ground arith);
    again_is = λ text. ground (arith, agn-flags c);
  }

  ack-flags :
      (text : Bytes) (b : Bool)
      → (has_flag (create_ack crc (built crc no_flags text b)).flags abr ≡ false)
        × (get_sqn (create_ack crc (built crc no_flags text b)) ≡ b)
  unfolding built create_ack of_flags has_flag or_flags
  ack-flags text true = (refl, refl)
  ack-flags text false = (refl, refl)

  turned : (b : Bool) → bool_eq b (not b) ≡ false
  turned true = refl
  turned false = refl

  -- The acknowledgement of a block with the other bit.
  pub create_ack-IsIdle :
      (text : Bytes) (b : Bool) → IsIdle (not b) (send (create_ack crc (built crc no_flags text b)))
  unfolding judge
  create_ack-IsIdle text b = record {
    count = size (create_ack crc (built crc no_flags text b));
    datagram = create_ack crc (built crc no_flags text b);
    received = λ a.
        receive-send (create_ack crc (built crc no_flags text b)) a
          (create_ack-IsFormed crc (built crc no_flags text b) (built-Outgoing crc text b).bound);
    no_refusal = ground (arith, ack-flags text b);
    again_is = λ other. ground (arith, ack-flags text b, turned b);
  }
