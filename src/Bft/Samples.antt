-- ===== src/Bft/Samples.antt =====
-- Concrete stand-ins for the tests and the examples: a sum of bytes in place of the CRC, an address.
use rechnernetze.Base.{ℕ, ◌+◌, ◌%◌, ◌^◌, [], ◌∷◌, arith}
use rechnernetze.Process.{Bytes, Crc, Address}

abbrev pub sum : Bytes → ℕ
sum [] = 1
sum (b ∷ bs) = b + sum bs

abbrev pub sum_crc : Crc
sum_crc = record { calculate = λ bytes. sum bytes % 2 ^ 32; calculate_bound = λ bytes. omega arith }

abbrev pub localhost : Address
localhost = record { s_addr = 16777343; sin_port = 5000 }
