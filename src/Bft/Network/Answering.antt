-- ===== src/Bft/Network/Answering.antt =====
-- What is under way: packets for the loop of bft_server/main.cpp, and answers for `judge`, which is
-- in bft_client/main.cpp.
use rechnernetze.Base.{
  ℕ, ◌≡◌, ◌≢◌, ◌∙◌, ap, subst, Bool, true, false, not, ◌&&◌, List, [], ◌∷◌, ◌++◌, arith, inl, inr,
  All,
}
use rechnernetze.Process.{Bytes, ok, Address, packet, Returns}
use rechnernetze.Bft.Flags.{no_flags, abr, has_flag}
use rechnernetze.Bft.Datagram.{
  BftDatagram, default_datagram, check_integrity, get_sqn, message, receive,
}
use rechnernetze.Bft.Datagram.Checks.{built}
use rechnernetze.Bft.Client.{busy, judge}
use rechnernetze.Bft.Client.Blocks.{concat, IsBlock}
use rechnernetze.Bft.Server.{World, Server, step}
use rechnernetze.Bft.Server.Arrivals.{Progress}
use rechnernetze.Bft.Server.Running.{Steady}
use rechnernetze.Bft.Network.{Net, Reach}
use rechnernetze.Bft.Network.Queues.{Fifo-cons}
use rechnernetze.Bft.Network.Answers.{IsIdle}
use rechnernetze.Bft.Network.Arrival.{Answered, took, damaged}
use rechnernetze.Bft.Network.Invariant.{IsNow, Inv, waiting, ahead}
use rechnernetze.Bft.Network.Steps.{block-small, IsNow-cons, before, again_now}
use rechnernetze.Bft.Network.Delivery.{texts, texts-IsBlock, begun, Reach-Inv}

module _ (w : World) (owner : Address) where
  -- The server goes on, with one answer.
  abbrev pub Answers : Server → Server → Type 0
  Answers s s' = (reply : Bytes) × (s'.sent ≡ (owner, reply) ∷ s.sent)

  answer_of :
      (path : Bytes) (due : Bool) (content p : Bytes) (s : Server)
      → Returns (Answered w owner path due content s) (step w s (packet p owner))
      → Returns (Answers s) (step w s (packet p owner))
  answer_of path due content p s (s', ran, a) = (s', ran, (a.reply, a.sent))

  -- No refusal is no end.
  not_busy :
      (d r : BftDatagram) (b : Bool)
      → (check_integrity w.crc r && (has_flag r.flags abr && not (get_sqn r))) ≡ false
      → judge w.crc d b r ≢ busy
  unfolding judge
  not_busy d r b h e = ground arith

module _ (w : World) (owner peer : Address) (path content : Bytes) where
  abbrev ts : List Bytes
  ts = texts w owner peer path content

  abbrev blocks : All IsBlock ts
  blocks = texts-IsBlock w owner peer path content

  -- The block that the server waits for.
  first_block :
      (n : Net) (q : Bytes) (sent : List Bytes)
      → ts ≡ sent ++ n.todo
      → IsNow w owner peer path ts n.todo n.curr_sqn q
      → Progress owner path n.curr_sqn (concat sent) n.server
      → Steady n.server.host
      → Returns (Answers w owner n.server) (step w n.server (packet q owner))
  first_block n q sent split now p steady =
      let (text, more, e', same) = IsNow-cons w owner peer path ts blocks n.todo n.curr_sqn q now in
      rw same (
        answer_of w owner path (not n.curr_sqn) (concat sent ++ text) _ n.server (
          took w owner path (concat sent) text n.curr_sqn n.server
            (block-small sent text more
              (subst (All IsBlock) (split ∙ ap (λ t. sent ++ t) e') blocks))
            steady p))

  front-Answers :
      (n : Net) (p : Bytes) (rest : List Bytes)
      → Inv w owner peer path (texts w owner peer path content) n
      → n.up ≡ p ∷ rest
      → Returns (Answers w owner n.server) (step w n.server (packet p owner))
  front-Answers n q rest (waiting sent split ups downs p steady) e =
      elim (Fifo-cons _ _ (rw e at ups)) [
        | inl new ↦ elim new.0 [
          | inl now ↦ first_block n q sent split now p steady
          | inr broken ↦
              answer_of w owner path n.curr_sqn (concat sent) q n.server
                (damaged w owner path (concat sent) q n.curr_sqn n.server broken steady p)
        ]
        | inr old ↦ elim old.0 [
          | inl old_block ↦ answer_of w owner path n.curr_sqn (concat sent) q n.server (
              before w owner peer path ts blocks n.curr_sqn (concat sent) q n.server old_block p
                steady)
          | inr broken ↦
              answer_of w owner path n.curr_sqn (concat sent) q n.server
                (damaged w owner path (concat sent) q n.curr_sqn n.server broken steady p)
        ]
      ]
  front-Answers n q rest (ahead sent text more e' split ups downs p steady) e =
      elim (rw e at ups).0 [
        | inl now ↦
            answer_of w owner path (not n.curr_sqn) (concat sent ++ text) q n.server
              (again_now w owner peer path ts blocks n sent text more q e' split now p steady)
        | inr broken ↦
            answer_of w owner path (not n.curr_sqn) (concat sent ++ text) q n.server (
              damaged w owner path (concat sent ++ text) q (not n.curr_sqn) n.server broken steady
                p)
      ]

  -- An answer under way is idle for one of the two bits.
  front-IsIdle :
      (n : Net) (p : Bytes) (rest : List Bytes)
      → Inv w owner peer path ts n
      → n.down ≡ p ∷ rest
      → (b : Bool) × IsIdle w.crc b p
  front-IsIdle n q rest (waiting sent split ups downs p steady) e = (n.curr_sqn, (rw e at downs).0)
  front-IsIdle n q rest (ahead sent text more e' split ups downs p steady) e =
      elim (Fifo-cons _ _ (rw e at downs)) [
        | inl new ↦ (not n.curr_sqn, new.0)
        | inr old ↦ (n.curr_sqn, old.0)
      ]

  -- Let the server have begun the upload of the client, with the set bit due, its clock not run
  -- back, and let no packet be under way. At every time after moves in any order, where the
  -- client sends its blocks as often as it likes, and the network keeps the order of the packets
  -- and loses, doubles and damages them: a damaged packet is one that `receive` takes, so its
  -- size field is at most 504, and that fails the test of the checksum; strays are packets that
  -- `receive` takes and that are neither datagrams of the upload nor ABR of the client's host,
  -- and the server's answers to them do not come to the client: the server takes the packet of
  -- the client, damaged or not, that comes next, and answers it with one packet; and the answer
  -- to a packet of the client, damaged or not, that comes next does not make the client stop with
  -- "Server busy", whatever block it is sending.
  pub Reach-Answers :
      (s : Server)
      → Progress owner path true [] s
      → Steady s.host
      → {n : Net} → Reach w owner peer (begun w owner peer path content s) n
      → ((p : Bytes) (rest : List Bytes)
          → n.up ≡ p ∷ rest
          → Returns (Answers w owner n.server) (step w n.server (packet p owner)))
        × ((p : Bytes) (rest : List Bytes)
            → n.down ≡ p ∷ rest
            → (k : ℕ) × (r : BftDatagram) × (receive default_datagram (packet p peer)
                ≡ ok (message k peer r))
              × ((text : Bytes)
                  → judge w.crc (built w.crc no_flags text n.curr_sqn) n.curr_sqn r ≢ busy))
  Reach-Answers s progress steady {n} r =
      let inv = Reach-Inv w owner peer path content s progress steady r in
      (
        λ p rest e. front-Answers n p rest inv e,
        λ p rest e.
            let (b, idle) = front-IsIdle n p rest inv e in
            (
              idle.count,
              idle.datagram,
              idle.received peer,
              λ text.
                  not_busy w owner (built w.crc no_flags text n.curr_sqn) idle.datagram n.curr_sqn
                    idle.no_refusal,
            ),
      )
