-- ===== src/Http/Listener/Resources.antt =====
-- The memory and the descriptors of the server's connections, in every order in which they begin and
-- end.
use rechnernetze.Base.{
  ℕ, ◌≡◌, refl, ap, Bool, false, List, [], ◌∷◌, ◌++◌, arith, some, ==_refl, contains,
}
use rechnernetze.Process.{ok}
use rechnernetze.Http.Address.{Sockaddr, Block, new_block, World, of_sockaddr, without}
use rechnernetze.Http.Listener.{
  Endpoint, without_file, peer, refused, connection, after_refusal, accept_next_connection,
  disconnect,
}

-- What a connection holds: the block of its address, and its descriptor.
pub record Held : Type 0 where
  pub block : ℕ
  pub file : ℕ
  pub sockaddr : Sockaddr
  pub socklen : ℕ

abbrev pub endpoint : Held → Endpoint
endpoint h = record { file_descriptor = h.file; address = of_sockaddr h.block h.sockaddr h.socklen }

-- The server's connections with its process: they begin by `accept`, which gives a descriptor that is
-- not open, and end in any order.
pub data Run (w : World) : List Held → World → Type 0 where
  begun : Run w [] w
  accepted :
      {cs : List Held} {v v' : World} (h : Held)
      → Run w cs v
      → contains h.file v.open_files ≡ false
      → accept_next_connection (peer h.file h.sockaddr h.socklen) v
        ≡ ok (connection (endpoint h), v')
      → Run w (h ∷ cs) v'
  not_accepted :
      {cs : List Held} {v v' : World} (einval : Bool)
      → Run w cs v
      → accept_next_connection (refused einval) v ≡ ok (after_refusal einval, v')
      → Run w cs v'
  ended :
      (front : List Held) (h : Held) (back : List Held) {v v' : World}
      → Run w (front ++ (h ∷ back)) v
      → disconnect (endpoint h) v ≡ ok v'
      → Run w (front ++ back) v'

abbrev pub blocks : List Held → List ℕ
blocks [] = []
blocks (h ∷ hs) = h.block ∷ blocks hs

abbrev pub files : List Held → List ℕ
files [] = []
files (h ∷ hs) = h.file ∷ files hs

abbrev pub live_blocks : List Held → List Block
live_blocks [] = []
live_blocks (h ∷ hs) = new_block h.block ∷ live_blocks hs

pub files-append : (front back : List Held) → files (front ++ back) ≡ files front ++ files back
files-append [] back = refl
files-append (h ∷ front) back = ap (◌∷◌ h.file) (files-append front back)

pub blocks-append : (front back : List Held) → blocks (front ++ back) ≡ blocks front ++ blocks back
blocks-append [] back = refl
blocks-append (h ∷ front) back = ap (◌∷◌ h.block) (blocks-append front back)

pub without_file-middle :
    (front back : List Held) (h : Held) (rest : List ℕ)
    → contains h.file (files front) ≡ false
    → without_file h.file (files (front ++ (h ∷ back)) ++ rest) ≡ files (front ++ back) ++ rest
unfolding without_file
without_file-middle [] back h rest fresh = rw (==_refl h.file) refl
without_file-middle (g ∷ front) back h rest fresh =
    ground (arith, without_file-middle front back h rest)

pub without-middle :
    (front back : List Held) (h : Held) (rest : List Block)
    → contains h.block (blocks front) ≡ false
    → without (new_block h.block) (live_blocks (front ++ (h ∷ back)) ++ rest)
      ≡ some (live_blocks (front ++ back) ++ rest)
unfolding without
without-middle [] back h rest fresh = rw (==_refl h.block) refl
without-middle (g ∷ front) back h rest fresh = ground (arith, without-middle front back h rest)
