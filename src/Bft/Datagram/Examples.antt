-- ===== src/Bft/Datagram/Examples.antt =====
-- Runs of bft_datagram.cpp at single datagrams, with a sum of bytes in place of the CRC.
use rechnernetze.Base.{
  spell, decimal, ◌<◌, ◌≤◌, ◌≡◌, ◌⊎◌, refl, true, [], ◌∷◌, some, none, arith, codes, replicate,
}
use rechnernetze.Bft.Flags.{no_flags, flags_to_str}
use rechnernetze.Process.{packet, ok, stop, buffer_overread}
use rechnernetze.Bft.Samples.{sum_crc, localhost}
use rechnernetze.Bft.Datagram.{
  BftDatagram, default_datagram, of_range, check_integrity, receive, send, message, get_payload,
}
use rechnernetze.Bft.Datagram.Image.{IsFormed, receive-send}
use rechnernetze.Bft.Datagram.Checks.{of_range_lem, receive_overread}
use rechnernetze.Bft.Datagram.Print.{checksum_as_string, to_string}

abbrev greeting : BftDatagram
greeting = record {
  checksum = 1234;
  payload_size = 2;
  flags = 1;
  payload = 104 ∷ 105 ∷ replicate 502 0;
}

greeting_printed : to_string greeting ≡ codes "'4d2: SQN, payload size: 2'"
unfolding to_string checksum_as_string spell decimal flags_to_str
greeting_printed = refl

greeting-IsFormed : IsFormed greeting
greeting-IsFormed = record {
  text = 104 ∷ 105 ∷ [];
  checksum_bound = omega arith;
  flags_bound = omega arith;
  size_bound = omega arith;
  size_exact = refl;
  zero_filled = refl;
}

receive-send_example :
    receive default_datagram (packet (send greeting) localhost) ≡ ok (message 10 localhost greeting)
receive-send_example = receive-send greeting localhost greeting-IsFormed

of_range_example :
    ((2 ≤ 504)
      × ((d : BftDatagram) × (of_range sum_crc no_flags (104 ∷ 105 ∷ []) true ≡ some d)
          × (check_integrity sum_crc d ≡ true)
          × (receive default_datagram (packet (send d) localhost) ≡ ok (message 10 localhost d))
          × (get_payload d ≡ some (104 ∷ 105 ∷ []))))
    ⊎ ((504 < 2) × (of_range sum_crc no_flags (104 ∷ 105 ∷ []) true ≡ none))
of_range_example = of_range_lem sum_crc no_flags (104 ∷ 105 ∷ []) true localhost (omega arith)

receive_overread_example :
    receive default_datagram (packet (replicate 8 255) localhost) ≡ stop buffer_overread
receive_overread_example = receive_overread (replicate 8 255) localhost (omega arith) (omega arith)
