-- ===== src/Http/Address.antt =====
-- aufg2_3_http/connection_base/src/address.hpp and address.cpp, with the memory and the descriptors
-- that a process holds.
use rechnernetze.Base.{
  ℕ, suc, ◌-◌, ◌%◌, ◌^◌, Bool, false, List, [], ◌∷◌, ◌++◌, Option, none, some, ℤ, pos, negsuc,
  codes, ◌==◌, if◌then◌else◌,
}
use rechnernetze.Process.{Bytes, Result, ok, stop, thrown, invalid_free, htons}

-- A `sockaddr`: the family, the port in network order, and the bytes behind it.
pub record Sockaddr : Type 0 where
  pub sa_family : ℕ
  pub sin_port : ℕ
  pub sin_addr : Bytes

-- The numbers of the families on Linux.
abbrev pub af_unspec : ℕ
af_unspec = 0

abbrev pub af_inet : ℕ
af_inet = 2

-- The conversion of an int to 16 bits.
abbrev pub to_uint16 : ℤ → ℕ
to_uint16 (pos n) = n % 2 ^ 16
to_uint16 (negsuc n) = 2 ^ 16 - 1 - n % 2 ^ 16

-- An allocation: by `new`, or by `getaddrinfo`.
pub data Block : Type 0 where
  new_block info_block : ℕ → Block

abbrev pub same_block : Block → Block → Bool
same_block (new_block a) (new_block b) = a == b
same_block (new_block a) (info_block b) = false
same_block (info_block a) (new_block b) = false
same_block (info_block a) (info_block b) = a == b

-- The blocks that are allocated, the number of the next one, and the open descriptors.
pub record World : Type 0 where
  pub live : List Block
  pub next : ℕ
  pub open_files : List ℕ

abbrev pub allocated : (ℕ → Block) → World → World
allocated block w = record {
  live = block w.next ∷ w.live;
  next = suc w.next;
  open_files = w.open_files;
}

unfoldable pub without : Block → List Block → Option (List Block)
without block [] = none
without block (b ∷ blocks) =
    let rest = without block blocks in
    if same_block b block
    then some blocks
    else elim rest [ none ↦ none | some found ↦ some (b ∷ found) ]

-- `delete` or `freeaddrinfo` of a block of the other kind, or of none, is undefined.
unfoldable pub release : Block → World → Result World
unfolding without
release block w = elim (without block w.live) [
  | none ↦ stop invalid_free
  | some blocks ↦ ok (record w { live = blocks })
]

-- `address_info`: the list of `getaddrinfo` behind its first entry, or a null pointer, where the
-- address itself comes from `new`.
pub data Origin : Type 0 where
  resolved : ℕ → List Sockaddr → Origin
  wrapped : ℕ → Origin

pub record Address : Type 0 where
  pub origin : Origin
  pub sockaddr_in_use : Sockaddr
  pub sockaddr_in_use_length : ℕ

-- The addresses of a host, as `getaddrinfo` lists them, or its failure.
pub data Lookup : Type 0 where
  unknown_host : Lookup
  found : Sockaddr → ℕ → List Sockaddr → Lookup

abbrev pub set_port : Option ℕ → Sockaddr → Sockaddr
set_port none a = a
set_port (some port) a = record a { sin_port = htons port }

-- Address(const std::string &, std::optional<unsigned short>)
unfoldable pub of_host : (Bytes → Lookup) → Bytes → Option ℕ → World → Result (Address × World)
of_host getaddrinfo host_address port w = elim (getaddrinfo host_address) [
  | unknown_host ↦ stop thrown
  | found first len more ↦ ok (
    record {
      origin = resolved w.next more;
      sockaddr_in_use = set_port port first;
      sockaddr_in_use_length = len;
    },
    allocated info_block w,
  )
]

-- Address(struct sockaddr *, socklen_t), of a block by `new`.
abbrev pub of_sockaddr : ℕ → Sockaddr → ℕ → Address
of_sockaddr block sockaddr socklen = record {
  origin = wrapped block;
  sockaddr_in_use = sockaddr;
  sockaddr_in_use_length = socklen;
}

-- ~Address
unfoldable pub destroy_origin : Origin → World → Result World
destroy_origin (resolved n more) w = release (info_block n) w
destroy_origin (wrapped n) w = release (new_block n) w

abbrev pub destroy : Address → World → Result World
destroy a w = destroy_origin a.origin w

abbrev pub get_sockaddr : Address → Sockaddr
get_sockaddr a = a.sockaddr_in_use

abbrev pub get_socklen : Address → ℕ
get_socklen a = a.sockaddr_in_use_length

-- `inet_ntop`, and the text of its error.
pub record Printer : Type 0 where
  pub inet_ntop : ℕ → Bytes → Option Bytes
  pub error_text : ℕ → Bytes

module _ (printer : Printer) where
  unfoldable pub addr_to_string : Sockaddr → Bytes
  addr_to_string a =
      if a.sa_family == af_unspec
      then codes "address family not specified"
      else elim (printer.inet_ntop a.sa_family a.sin_addr) [
        | none ↦ printer.error_text a.sa_family
        | some text ↦ text
      ]

  abbrev pub str : Address → Bytes
  str a = addr_to_string (get_sockaddr a)

  abbrev pub print_list : List Sockaddr → Bytes
  print_list [] = []
  print_list (a ∷ more) = addr_to_string a ++ (10 ∷ print_list more)

  -- print_all_ip_addresses, with what it gives to std::cout.
  abbrev pub print_origin : Origin → Sockaddr → Bytes
  print_origin (wrapped n) first = addr_to_string first
  print_origin (resolved n more) first = print_list (first ∷ more)

  abbrev pub print_all_ip_addresses : Address → Bytes
  print_all_ip_addresses a = print_origin a.origin a.sockaddr_in_use

-- The size of a `sockaddr_in`.
abbrev pub sockaddr_in_size : ℕ
sockaddr_in_size = 16

abbrev pub any_sockaddr : ℤ → Sockaddr
any_sockaddr port = record {
  sa_family = af_inet;
  sin_port = htons (to_uint16 port);
  sin_addr = 0 ∷ 0 ∷ 0 ∷ 0 ∷ [];
}

unfoldable pub get_any_address : ℤ → World → Address × World
get_any_address port w =
    (of_sockaddr w.next (any_sockaddr port) sockaddr_in_size, allocated new_block w)
