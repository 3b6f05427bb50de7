-- ===== src/Bft/Flags.antt =====
-- aufg4/bft_base/flags.hpp and flags.cpp: the flag word of a datagram, an unsigned short.
pub mod Laws
mod Examples
use rechnernetze.Base.{
  ℕ, ◌-◌, ◌%◌, ◌^◌, bit_and, bit_or, bit_xor, Bool, List, [], ◌∷◌, ◌++◌, codes, ◌==◌, if◌then◌else◌,
}

abbrev pub Flags : Type 0
Flags = ℕ

abbrev pub no_flags : Flags
no_flags = 0

abbrev pub sqn : Flags
sqn = 2 ^ 0

abbrev pub ack : Flags
ack = 2 ^ 1

abbrev pub fin : Flags
fin = 2 ^ 2

abbrev pub abr : Flags
abr = 2 ^ 3

abbrev pub syn : Flags
syn = 2 ^ 4

abbrev pub agn : Flags
agn = 2 ^ 5

-- static_cast<unsigned short>
abbrev to_ushort : ℕ → Flags
to_ushort n = n % 2 ^ 16

unfoldable pub or_flags : Flags → Flags → Flags
or_flags lhs rhs = to_ushort (bit_or lhs rhs)

unfoldable pub and_flags : Flags → Flags → Flags
and_flags lhs rhs = to_ushort (bit_and lhs rhs)

unfoldable pub xor_flags : Flags → Flags → Flags
xor_flags lhs rhs = to_ushort (bit_xor lhs rhs)

-- `~` works on the operand promoted to a 32-bit int.
unfoldable pub clear_flag : Flags → Flags → Flags
clear_flag original flags_to_clear = to_ushort (bit_and original (2 ^ 32 - 1 - flags_to_clear))

-- `(flags & flag) == flag`, the test that the program writes out wherever it asks for a flag.
unfoldable pub has_flag : Flags → Flags → Bool
unfolding and_flags
has_flag flags flag = and_flags flags flag == flag

word : Flags → Flags → List ℕ → List ℕ
unfolding has_flag
word flags flag name = if has_flag flags flag then name else []

-- `if (!str.empty()) str.pop_back();`
pop_back : List ℕ → List ℕ
pop_back [] = []
pop_back (c ∷ []) = []
pop_back (c ∷ d ∷ s) = c ∷ pop_back (d ∷ s)

unfoldable pub flags_to_str : Flags → List ℕ
unfolding word pop_back
flags_to_str flags = pop_back (
    if flags == no_flags
    then codes "(no flags) "
    else word flags ack (codes "ACK ")
      ++ (word flags syn (codes "SYN ")
          ++ (word flags agn (codes "AGN ")
              ++ (word flags abr (codes "ABR ")
                  ++ (word flags fin (codes "FIN ") ++ word flags sqn (codes "SQN "))))))
