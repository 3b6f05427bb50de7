-- ===== src/Bft/Datagram/Print.antt =====
-- The texts of a datagram in the log: its checksum in hexadecimal, its flags and its size.
use rechnernetze.Base.{spell, decimal, read_from, read_from-spell, suc, ◌≡◌, ◌++◌, arith, codes}
use rechnernetze.Bft.Flags.{flags_to_str}
use rechnernetze.Process.{Bytes}
use rechnernetze.Bft.Datagram.{BftDatagram}

unfoldable pub checksum_as_string : BftDatagram → Bytes
unfolding spell
checksum_as_string d = spell (suc d.checksum) 16 d.checksum

unfoldable pub to_string : BftDatagram → Bytes
unfolding checksum_as_string
to_string d =
    codes "'"
    ++ (checksum_as_string d
        ++ (codes ": "
            ++ (flags_to_str d.flags
                ++ (codes ", payload size: " ++ (decimal d.payload_size ++ codes "'")))))

-- The text of a checksum, read as a hexadecimal number, is the checksum.
pub checksum_as_string_lem : (d : BftDatagram) → read_from 16 0 (checksum_as_string d) ≡ d.checksum
unfolding checksum_as_string
checksum_as_string_lem d =
    read_from-spell (suc d.checksum) 16 d.checksum (omega arith) (omega arith) (omega arith)
