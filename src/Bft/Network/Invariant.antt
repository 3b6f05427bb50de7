-- ===== src/Bft/Network/Invariant.antt =====
-- What holds of the network at every time: the server is at the client's block or one ahead.
use rechnernetze.Base.{◌≤◌, ◌≡◌, refl, Bool, not, List, [], ◌∷◌, ◌++◌, length, ◌⊎◌, inl, inr, All}
use rechnernetze.Process.{Bytes, Address}
use rechnernetze.Bft.Datagram.{max_payload_size}
use rechnernetze.Bft.Client.Blocks.{concat}
use rechnernetze.Bft.Server.{World}
use rechnernetze.Bft.Server.Arrivals.{Progress}
use rechnernetze.Bft.Server.Running.{Steady}
use rechnernetze.Bft.Network.{IsDamaged, Net, block_packet}
use rechnernetze.Bft.Network.Queues.{
  All-remove, All-replace, All-snoc, Fifo, Fifo-snoc, Fifo-remove, Fifo-replace, All-double,
  Fifo-double,
}
use rechnernetze.Bft.Network.Answers.{IsIdle, damaged-IsIdle}

module _ (w : World) (owner peer : Address) (path : Bytes) (texts : List Bytes) where
  -- Packets under way to the server while the client's bit is `b`: of a block before, and of its block.
  pub record IsOld (b : Bool) (p : Bytes) : Type 0 where
    pub text : Bytes
    pub bit : Bool
    pub small : length text ≤ max_payload_size
    pub other : b ≡ not bit
    pub same : p ≡ block_packet w owner peer text bit

  abbrev pub Old : Bool → Bytes → Type 0
  Old b p = IsOld b p ⊎ IsDamaged w.crc p

  abbrev pub IsNow : List Bytes → Bool → Bytes → Type 0
  IsNow [] b p = ⊥
  IsNow (text ∷ rest) b p = p ≡ block_packet w owner peer text b

  abbrev pub Now : List Bytes → Bool → Bytes → Type 0
  Now todo b p = IsNow todo b p ⊎ IsDamaged w.crc p

  -- The server waits for the client's block; or it has it, and its answer is still to come.
  pub data Inv (n : Net) : Type 0 where
    waiting :
        (sent : List Bytes)
        → texts ≡ sent ++ n.todo
        → Fifo (Old n.curr_sqn) (Now n.todo n.curr_sqn) n.up
        → All (IsIdle w.crc n.curr_sqn) n.down
        → Progress owner path n.curr_sqn (concat sent) n.server
        → Steady n.server.host
        → Inv n
    ahead :
        (sent : List Bytes) (text : Bytes) (rest : List Bytes)
        → n.todo ≡ text ∷ rest
        → texts ≡ sent ++ (text ∷ rest)
        → All (Now n.todo n.curr_sqn) n.up
        → Fifo (IsIdle w.crc n.curr_sqn) (IsIdle w.crc (not n.curr_sqn)) n.down
        → Progress owner path (not n.curr_sqn) (concat sent ++ text) n.server
        → Steady n.server.host
        → Inv n

  module _ (n : Net) where
    pub sends-Inv :
        (text : Bytes) (rest : List Bytes)
        → n.todo ≡ text ∷ rest
        → Inv n
        → Inv (record n { up = n.up ++ (block_packet w owner peer text n.curr_sqn ∷ []) })
    sends-Inv text rest e (waiting sent split ups downs p steady) =
        waiting sent split (Fifo-snoc _ _ n.up _ ups (inl (rw e refl))) downs p steady
    sends-Inv text rest e (ahead sent t r e' split ups downs p steady) =
        ahead sent t r e' split (All-snoc _ n.up _ ups (inl (rw e refl))) downs p steady

    pub up_lost-Inv :
        (front : List Bytes) (p : Bytes) (back : List Bytes)
        → n.up ≡ front ++ (p ∷ back)
        → Inv n
        → Inv (record n { up = front ++ back })
    up_lost-Inv front q back e (waiting sent split ups downs p steady) =
        waiting sent split (Fifo-remove _ _ front q back (rw e at ups)) downs p steady
    up_lost-Inv front q back e (ahead sent t r e' split ups downs p steady) =
        ahead sent t r e' split (All-remove _ front q back (rw e at ups)) downs p steady

    pub up_doubled-Inv :
        (front : List Bytes) (p : Bytes) (back : List Bytes)
        → n.up ≡ front ++ (p ∷ back)
        → Inv n
        → Inv (record n { up = front ++ (p ∷ p ∷ back) })
    up_doubled-Inv front q back e (waiting sent split ups downs p steady) =
        waiting sent split (Fifo-double _ _ front q back (rw e at ups)) downs p steady
    up_doubled-Inv front q back e (ahead sent t r e' split ups downs p steady) =
        ahead sent t r e' split (All-double _ front q back (rw e at ups)) downs p steady

    pub up_damaged-Inv :
        (front : List Bytes) (p q : Bytes) (back : List Bytes)
        → n.up ≡ front ++ (p ∷ back)
        → IsDamaged w.crc q
        → Inv n
        → Inv (record n { up = front ++ (q ∷ back) })
    up_damaged-Inv front p' q back e h (waiting sent split ups downs p steady) =
        waiting sent split (Fifo-replace _ _ front p' q back (inr h) (inr h) (rw e at ups)) downs p
          steady
    up_damaged-Inv front p' q back e h (ahead sent t r e' split ups downs p steady) =
        ahead sent t r e' split (All-replace _ front p' q back (inr h) (rw e at ups)) downs p steady

    pub down_lost-Inv :
        (front : List Bytes) (p : Bytes) (back : List Bytes)
        → n.down ≡ front ++ (p ∷ back)
        → Inv n
        → Inv (record n { down = front ++ back })
    down_lost-Inv front q back e (waiting sent split ups downs p steady) =
        waiting sent split ups (All-remove _ front q back (rw e at downs)) p steady
    down_lost-Inv front q back e (ahead sent t r e' split ups downs p steady) =
        ahead sent t r e' split ups (Fifo-remove _ _ front q back (rw e at downs)) p steady

    pub down_doubled-Inv :
        (front : List Bytes) (p : Bytes) (back : List Bytes)
        → n.down ≡ front ++ (p ∷ back)
        → Inv n
        → Inv (record n { down = front ++ (p ∷ p ∷ back) })
    down_doubled-Inv front q back e (waiting sent split ups downs p steady) =
        waiting sent split ups (All-double _ front q back (rw e at downs)) p steady
    down_doubled-Inv front q back e (ahead sent t r e' split ups downs p steady) =
        ahead sent t r e' split ups (Fifo-double _ _ front q back (rw e at downs)) p steady

    pub down_damaged-Inv :
        (front : List Bytes) (p q : Bytes) (back : List Bytes)
        → n.down ≡ front ++ (p ∷ back)
        → IsDamaged w.crc q
        → Inv n
        → Inv (record n { down = front ++ (q ∷ back) })
    down_damaged-Inv front p' q back e h (waiting sent split ups downs p steady) =
        waiting sent split ups
          (All-replace _ front p' q back (damaged-IsIdle w.crc n.curr_sqn q h) (rw e at downs)) p
          steady
    down_damaged-Inv front p' q back e h (ahead sent t r e' split ups downs p steady) =
        ahead sent t r e' split ups
          (Fifo-replace _ _ front p' q back (damaged-IsIdle w.crc n.curr_sqn q h)
            (damaged-IsIdle w.crc (not n.curr_sqn) q h) (rw e at downs))
          p steady
