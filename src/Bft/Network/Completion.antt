-- ===== src/Bft/Network/Completion.antt =====
-- The moves that complete an upload, for the client's loop (bft_client/main.cpp) and the server's
-- (bft_server/main.cpp).
use rechnernetze.Base.{◌≡◌, ◌∙◌, refl, sym, ap, ap₂, subst, true, not, List, [], ◌∷◌, ◌++◌, All}
use rechnernetze.Process.{Bytes, Address, packet, Returns}
use rechnernetze.Bft.Flags.{no_flags}
use rechnernetze.Bft.Datagram.{send, size, create_ack}
use rechnernetze.Bft.Datagram.Image.{receive-send}
use rechnernetze.Bft.Datagram.Checks.{built}
use rechnernetze.Bft.Client.Blocks.{concat, IsBlock}
use rechnernetze.Bft.Client.Prompt.{built-Outgoing, create_ack-IsFormed, judge-create_ack}
use rechnernetze.Bft.Server.{World, Server, step}
use rechnernetze.Bft.Server.Arrivals.{Progress}
use rechnernetze.Bft.Server.Running.{Steady}
use rechnernetze.Bft.Network.{
  Net, block_packet, Move, sends, up_lost, arrives, down_lost, turns, Reach,
}
use rechnernetze.Bft.Network.Arrival.{took, kept, acknowledged_to_owner}
use rechnernetze.Bft.Network.Invariant.{Inv, waiting, ahead}
use rechnernetze.Bft.Network.Steps.{block-small}
use rechnernetze.Bft.Network.Delivery.{texts, texts-IsBlock, begun, Reach-Inv, Move-Inv, complete}

module _ (w : World) (owner peer : Address) where
  pub data Moves : Net → Net → Type 0 where
    none : {n : Net} → Moves n n
    more : {n m k : Net} → Move w owner peer n m → Moves m k → Moves n k

  Moves-trans : {n m k : Net} → Moves n m → Moves m k → Moves n k
  Moves-trans none h = h
  Moves-trans (more move rest) h = more move (Moves-trans rest h)

  -- The network can lose everything.
  cleared :
      (ups downs : List Bytes) (n : Net)
      → n.up ≡ ups
      → n.down ≡ downs
      → Moves n (record n { up = []; down = [] })
  cleared [] [] n e f = subst (Moves n) (ap₂ (λ u d. record n { up = u; down = d }) e f) none
  cleared [] (q ∷ downs) n e f =
      more (down_lost [] q downs f) (cleared [] downs (record n { down = downs }) e refl)
  cleared (p ∷ ups) downs n e f =
      more (up_lost [] p ups e) (cleared ups downs (record n { up = ups }) refl f)

module _ (w : World) (owner peer : Address) (path content : Bytes) where
  -- The server's answer to the client's block.
  block-answer :
      (n : Net) (text : Bytes) (rest : List Bytes)
      → Inv w owner peer path (texts w owner peer path content) n
      → n.todo ≡ text ∷ rest
      → Returns
          (λ s.
            s.sent
            ≡ (owner, send (create_ack w.crc (built w.crc no_flags text n.curr_sqn)))
              ∷ n.server.sent)
          (step w n.server (packet (block_packet w owner peer text n.curr_sqn) owner))
  block-answer n text rest (waiting sent split ups downs p steady) e =
      let small = block-small sent text rest (
        subst (All IsBlock) (split ∙ ap (λ t. sent ++ t) e)
          (texts-IsBlock w owner peer path content)) in
      let (s, ran, _) = took w owner path (concat sent) text n.curr_sqn n.server small steady p in
      (
        s,
        ran,
        acknowledged_to_owner w owner path (concat sent) text n.curr_sqn n.server small steady
            n.curr_sqn p ran,
      )
  block-answer n text rest (ahead sent t more' e' split ups downs p steady) e =
      let small = block-small sent text rest (
        subst (All IsBlock) (split ∙ ap (λ t. sent ++ t) (sym e' ∙ e))
          (texts-IsBlock w owner peer path content)) in
      let (s, ran, _) =
        kept w owner path (concat sent ++ t) text n.curr_sqn n.server small steady p in
      (
        s,
        ran,
        acknowledged_to_owner w owner path (concat sent ++ t) text n.curr_sqn n.server small steady
            (not n.curr_sqn) p ran,
      )

  one_more :
      (n : Net) (text : Bytes) (rest : List Bytes)
      → Inv w owner peer path (texts w owner peer path content) n
      → n.todo ≡ text ∷ rest
      → (m : Net) × Moves w owner peer n m × (m.todo ≡ rest)
  one_more n text rest inv e =
      let d = built w.crc no_flags text n.curr_sqn in
      let out = built-Outgoing w.crc text n.curr_sqn in
      let (s, ran, sent) = block-answer n text rest inv e in
      (
        _,
        Moves-trans w owner peer (cleared w owner peer n.up n.down n refl refl) (
            more (sends text rest e) (
              more (arrives (send d) [] s (send (create_ack w.crc d)) refl ran sent) (
                more
                  (turns (send (create_ack w.crc d)) [] text rest (size (create_ack w.crc d))
                    (create_ack w.crc d) refl e
                    (receive-send (create_ack w.crc d) peer (create_ack-IsFormed w.crc d out.bound))
                    (judge-create_ack w.crc d n.curr_sqn out))
                  none))),
        refl,
      )

  Moves-Inv :
      {n m : Net}
      → Inv w owner peer path (texts w owner peer path content) n
      → Moves w owner peer n m
      → Inv w owner peer path (texts w owner peer path content) m
  Moves-Inv inv none = inv
  Moves-Inv inv (more move rest) = Moves-Inv (Move-Inv w owner peer path content inv move) rest

  all_more :
      (todo : List Bytes) (n : Net)
      → Inv w owner peer path (texts w owner peer path content) n
      → n.todo ≡ todo
      → (m : Net) × Moves w owner peer n m × (m.todo ≡ [])
  all_more [] n inv e = (n, none, e)
  all_more (text ∷ todo) n inv e =
      let (m, moves, e') = one_more n text todo inv e in
      let (k, moves', done) = all_more todo m (Moves-Inv inv moves) e' in
      (k, Moves-trans w owner peer moves moves', done)

  -- Let the server have begun the upload of the client, with the set bit due, its clock not run
  -- back, and let no packet be under way. At every time after moves in any order, where the
  -- client sends its blocks as often as it likes, and the network keeps the order of the packets
  -- and loses, doubles and damages them: a damaged packet is one that `receive` takes, so its
  -- size field is at most 504, and that fails the test of the checksum; strays are packets that
  -- `receive` takes and that are neither datagrams of the upload nor ABR of the client's host,
  -- and the server's answers to them do not come to the client: there are further moves of the
  -- client, the server and the network that bring the client behind its last block and the whole
  -- content to its file.
  pub Reach-Moves :
      (s : Server)
      → Progress owner path true [] s
      → Steady s.host
      → {n : Net} → Reach w owner peer (begun w owner peer path content s) n
      → (m : Net) × Moves w owner peer n m
        × (m.todo ≡ [])
        × Progress owner path m.curr_sqn content m.server
  Reach-Moves s p steady {n} r =
      let inv = Reach-Inv w owner peer path content s p steady r in
      let (m, moves, done) = all_more n.todo n inv refl in
      (m, moves, done, complete w owner peer path content m (Moves-Inv inv moves) done)
