-- ===== src/Bft/Network.antt =====
-- The client's loops over the blocks of a file and the server's loop, with a network between them
-- that keeps the order of its packets, and loses, doubles and damages them. Each datagram is sent as
-- often as the client's timeouts make it; what `exchange` and `judge` make of an answer, and `step` of
-- a packet, is the code's.
pub mod Queues
pub mod Answers
pub mod Arrival
pub mod Invariant
pub mod Steps
pub mod Turns
pub mod Delivery
pub mod Completion
pub mod Answering
mod Examples
use rechnernetze.Base.{ℕ, ◌≡◌, Bool, false, true, not, ◌&&◌, List, [], ◌∷◌, ◌++◌, ◌==◌}
use rechnernetze.Bft.Flags.{no_flags}
use rechnernetze.Process.{Bytes, Result, ok, Address, RecvFrom, packet, Crc}
use rechnernetze.Bft.Datagram.{
  BftDatagram, default_datagram, check_integrity, is_abr, Received, message, receive, send,
}
use rechnernetze.Bft.Datagram.Checks.{built}
use rechnernetze.Bft.Client.{Verdict, acknowledged, judge}
use rechnernetze.Bft.Server.{World, Server, step}
use rechnernetze.Bft.Server.Arrivals.{arrived, is_part}
use rechnernetze.Bft.Server.Running.{Taken}

-- A packet that is received as a datagram, whoever sent it.
abbrev pub IsReceived : Bytes → ℕ → BftDatagram → Type 0
IsReceived p n d = (a : Address) → receive default_datagram (packet p a) ≡ ok (message n a d)

-- What the network can make of a packet: one that fails the test of integrity.
pub record IsDamaged (crc : Crc) (p : Bytes) : Type 0 where
  pub count : ℕ
  pub datagram : BftDatagram
  pub received : IsReceived p count datagram
  pub broken : check_integrity crc datagram ≡ false

-- The blocks that are not acknowledged yet, the client's bit, the packets under way to the server and
-- to the client, the next one to arrive first, and the server.
pub record Net : Type 0 where
  pub todo : List Bytes
  pub curr_sqn : Bool
  pub up : List Bytes
  pub down : List Bytes
  pub server : Server

module _ (w : World) (owner peer : Address) where
  -- The datagram of a block as the client sends it.
  abbrev pub block_packet : Bytes → Bool → Bytes
  block_packet text b = send (built w.crc no_flags text b)

  pub data Move (n : Net) : Net → Type 0 where
    -- the client sends its block, for the first time or after a timeout or an answer of no use
    sends :
        (text : Bytes) (rest : List Bytes)
        → n.todo ≡ text ∷ rest
        → Move n (record n { up = n.up ++ (block_packet text n.curr_sqn ∷ []) })
    up_lost :
        (front : List Bytes) (p : Bytes) (back : List Bytes)
        → n.up ≡ front ++ (p ∷ back)
        → Move n (record n { up = front ++ back })
    up_doubled :
        (front : List Bytes) (p : Bytes) (back : List Bytes)
        → n.up ≡ front ++ (p ∷ back)
        → Move n (record n { up = front ++ (p ∷ p ∷ back) })
    up_damaged :
        (front : List Bytes) (p q : Bytes) (back : List Bytes)
        → n.up ≡ front ++ (p ∷ back)
        → IsDamaged w.crc q
        → Move n (record n { up = front ++ (q ∷ back) })
    -- the server takes a packet of the client and answers
    arrives :
        (p : Bytes) (rest : List Bytes) (s : Server) (reply : Bytes)
        → n.up ≡ p ∷ rest
        → step w n.server (packet p owner) ≡ ok s
        → s.sent ≡ (owner, reply) ∷ n.server.sent
        → Move n (record n { up = rest; down = n.down ++ (reply ∷ []); server = s })
    -- the server takes something else: no datagram of the upload, and no ABR of the client's host
    stray :
        (event : RecvFrom) (s : Server)
        → Taken event
        → is_part w owner.s_addr (arrived event) ≡ false
        → (check_integrity w.crc (arrived event).0
            && (is_abr w.crc (arrived event).0 && (arrived event).1.s_addr == owner.s_addr))
          ≡ false
        → step w n.server event ≡ ok s
        → Move n (record n { server = s })
    -- an answer that the client makes nothing of is as good as lost
    down_lost :
        (front : List Bytes) (p : Bytes) (back : List Bytes)
        → n.down ≡ front ++ (p ∷ back)
        → Move n (record n { down = front ++ back })
    down_doubled :
        (front : List Bytes) (p : Bytes) (back : List Bytes)
        → n.down ≡ front ++ (p ∷ back)
        → Move n (record n { down = front ++ (p ∷ p ∷ back) })
    down_damaged :
        (front : List Bytes) (p q : Bytes) (back : List Bytes)
        → n.down ≡ front ++ (p ∷ back)
        → IsDamaged w.crc q
        → Move n (record n { down = front ++ (q ∷ back) })
    -- the client is content with an answer and turns its bit
    turns :
        (p : Bytes) (rest : List Bytes) (text : Bytes) (texts : List Bytes) (k : ℕ)
        (r : BftDatagram)
        → n.down ≡ p ∷ rest
        → n.todo ≡ text ∷ texts
        → receive default_datagram (packet p peer) ≡ ok (message k peer r)
        → judge w.crc (built w.crc no_flags text n.curr_sqn) n.curr_sqn r ≡ acknowledged
        → Move n (record n { down = rest; todo = texts; curr_sqn = not n.curr_sqn })

  -- From a network in which nothing is under way.
  pub data Reach (start : Net) : Net → Type 0 where
    started : Reach start start
    later : {n m : Net} → Reach start n → Move n m → Reach start m
