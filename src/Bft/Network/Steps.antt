-- ===== src/Bft/Network/Steps.antt =====
-- The moves of the server and the turns of the client keep the invariant.
use rechnernetze.Base.{
  ◌≤◌, ◌≡◌, ◌∙◌, refl, sym, ap, subst, Bool, not, List, [], ◌∷◌, ◌++◌, length, inl, inr, All,
}
use rechnernetze.Process.{Bytes, ok, Address, packet, Returns, of_ok}
use rechnernetze.Bft.Datagram.{max_payload_size}
use rechnernetze.Bft.Client.Blocks.{concat, IsBlock}
use rechnernetze.Bft.Server.{World, Server, step}
use rechnernetze.Bft.Server.Arrivals.{Progress}
use rechnernetze.Bft.Server.Running.{Steady}
use rechnernetze.Bft.Network.{Net, block_packet}
use rechnernetze.Bft.Network.Queues.{All-snoc, Fifo, only_new, Fifo-all, Fifo-snoc, Fifo-cons}
use rechnernetze.Bft.Network.Answers.{IsIdle}
use rechnernetze.Bft.Network.Arrival.{Answered, took, kept, damaged}
use rechnernetze.Bft.Network.Invariant.{IsOld, Old, IsNow, Now, Inv, waiting, ahead}

-- A block of the file fits.
pub block-small :
    (sent : List Bytes) (text : Bytes) (rest : List Bytes)
    → All IsBlock (sent ++ (text ∷ rest))
    → length text ≤ max_payload_size
block-small [] text rest (h, _) = h.1
block-small (t ∷ sent) text rest (_, h) = block-small sent text rest h

same_reply :
    {owner : Address} {p q : Bytes} {sent new : List (Address × Bytes)}
    → new ≡ (owner, p) ∷ sent
    → new ≡ (owner, q) ∷ sent
    → p ≡ q
same_reply h k = cc

module _ (w : World) (owner peer : Address) (path : Bytes) (texts : List Bytes)
    (blocks : All IsBlock texts) where
  -- The answer of the server, as the move has it.
  moved :
      (due : Bool) (content p reply : Bytes) (s s' : Server)
      → Returns (Answered w owner path due content s) (step w s (packet p owner))
      → step w s (packet p owner) ≡ ok s'
      → s'.sent ≡ (owner, reply) ∷ s.sent
      → Progress owner path due content s' × Steady s'.host × IsIdle w.crc due reply
  moved due content p reply s s' (t, e, answered) ran sent =
      let here = of_ok (Answered w owner path due content s) e ran answered in
      (here.progress, here.steady, subst (IsIdle w.crc due) (same_reply here.sent sent) here.idle)

  pub IsNow-cons :
      (todo : List Bytes) (b : Bool) (p : Bytes)
      → IsNow w owner peer path texts todo b p
      → (text : Bytes) × (rest : List Bytes) × (todo ≡ text ∷ rest)
        × (p ≡ block_packet w owner peer text b)
  IsNow-cons [] b p h = absurd h
  IsNow-cons (text ∷ rest) b p h = (text, rest, refl, h)

  -- A block that came before.
  pub before :
      (b : Bool) (content q : Bytes) (s : Server)
      → IsOld w owner peer path texts b q
      → Progress owner path b content s
      → Steady s.host
      → Returns (Answered w owner path b content s) (step w s (packet q owner))
  before b content q s old p steady = rw old.same (
      subst
        (λ c.
          Progress owner path c content s
          → Returns (Answered w owner path c content s)
              (step w s (packet (block_packet w owner peer old.text old.bit) owner)))
        (sym old.other) (kept w owner path content old.text old.bit s old.small steady) p)

  module _ (n : Net) where
    -- The block that the server has already.
    pub again_now :
        (sent : List Bytes) (text : Bytes) (more : List Bytes) (q : Bytes)
        → n.todo ≡ text ∷ more
        → texts ≡ sent ++ (text ∷ more)
        → IsNow w owner peer path texts n.todo n.curr_sqn q
        → Progress owner path (not n.curr_sqn) (concat sent ++ text) n.server
        → Steady n.server.host
        → Returns
            (Answered w owner path (not n.curr_sqn) (concat sent ++ text) n.server)
            (step w n.server (packet q owner))
    again_now sent text more q e split now p steady =
        let (text', more', e', same) = IsNow-cons n.todo n.curr_sqn q now in
        let split' : texts ≡ sent ++ (text' ∷ more') = split ∙ ap (λ t. sent ++ t) (sym e ∙ e') in
        rw same (
          kept w owner path (concat sent ++ text) text' n.curr_sqn n.server
            (block-small sent text' more' (subst (All IsBlock) split' blocks)) steady p)

    -- The server's step on a packet of the client, by what is at the front.
    took-Inv :
        (sent : List Bytes) (text : Bytes) (more rest : List Bytes) (reply : Bytes) (s : Server)
        → n.todo ≡ text ∷ more
        → texts ≡ sent ++ (text ∷ more)
        → All (Now w owner peer path texts n.todo n.curr_sqn) rest
        → All (IsIdle w.crc n.curr_sqn) n.down
        → Progress owner path n.curr_sqn (concat sent) n.server
        → Steady n.server.host
        → step w n.server (packet (block_packet w owner peer text n.curr_sqn) owner) ≡ ok s
        → s.sent ≡ (owner, reply) ∷ n.server.sent
        → Inv w owner peer path texts
            (record n { up = rest; down = n.down ++ (reply ∷ []); server = s })
    took-Inv sent text more rest reply s e split ups downs p steady ran answer =
        let (p', steady', idle) =
          moved (not n.curr_sqn) (concat sent ++ text) _ reply n.server s
            (took w owner path (concat sent) text n.curr_sqn n.server
              (block-small sent text more (subst (All IsBlock) split blocks)) steady p)
            ran answer in
        ahead sent text more e split ups
          (Fifo-snoc _ _ n.down reply (Fifo-all _ _ n.down downs) idle) p' steady'

    -- The answer to a packet that changes nothing, while the server waits.
    still_waiting :
        (sent rest : List Bytes) (q reply : Bytes) (s : Server)
        → texts ≡ sent ++ n.todo
        → Fifo
            (Old w owner peer path texts n.curr_sqn)
            (Now w owner peer path texts n.todo n.curr_sqn)
            rest
        → All (IsIdle w.crc n.curr_sqn) n.down
        → Returns
            (Answered w owner path n.curr_sqn (concat sent) n.server)
            (step w n.server (packet q owner))
        → step w n.server (packet q owner) ≡ ok s
        → s.sent ≡ (owner, reply) ∷ n.server.sent
        → Inv w owner peer path texts
            (record n { up = rest; down = n.down ++ (reply ∷ []); server = s })
    still_waiting sent rest q reply s split ups downs answered ran answer =
        let (p', steady', idle) =
          moved n.curr_sqn (concat sent) q reply n.server s answered ran answer in
        waiting sent split ups (All-snoc _ n.down reply downs idle) p' steady'

    -- And while it is ahead.
    still_ahead :
        (sent : List Bytes) (text : Bytes) (more rest : List Bytes) (q reply : Bytes) (s : Server)
        → n.todo ≡ text ∷ more
        → texts ≡ sent ++ (text ∷ more)
        → All (Now w owner peer path texts n.todo n.curr_sqn) rest
        → Fifo (IsIdle w.crc n.curr_sqn) (IsIdle w.crc (not n.curr_sqn)) n.down
        → Returns
            (Answered w owner path (not n.curr_sqn) (concat sent ++ text) n.server)
            (step w n.server (packet q owner))
        → step w n.server (packet q owner) ≡ ok s
        → s.sent ≡ (owner, reply) ∷ n.server.sent
        → Inv w owner peer path texts
            (record n { up = rest; down = n.down ++ (reply ∷ []); server = s })
    still_ahead sent text more rest q reply s e split ups downs answered ran answer =
        let (p', steady', idle) =
          moved (not n.curr_sqn) (concat sent ++ text) q reply n.server s answered ran answer in
        ahead sent text more e split ups (Fifo-snoc _ _ n.down reply downs idle) p' steady'

    pub arrives-Inv :
        (p : Bytes) (rest : List Bytes) (s : Server) (reply : Bytes)
        → n.up ≡ p ∷ rest
        → step w n.server (packet p owner) ≡ ok s
        → s.sent ≡ (owner, reply) ∷ n.server.sent
        → Inv w owner peer path texts n
        → Inv w owner peer path texts
            (record n { up = rest; down = n.down ++ (reply ∷ []); server = s })
    arrives-Inv q rest s reply e ran answer (waiting sent split ups downs p steady) =
        elim (Fifo-cons _ _ (rw e at ups)) [
          | inl new ↦ elim new.0 [
            | inl now ↦
                let (text, more, e', same) = IsNow-cons n.todo n.curr_sqn q now in
                took-Inv sent text more rest reply s e' (split ∙ ap (λ t. sent ++ t) e') new.1 downs
                  p steady (rw same at ran) answer
            | inr broken ↦
                still_waiting sent rest q reply s split (only_new new.1) downs
                  (damaged w owner path (concat sent) q n.curr_sqn n.server broken steady p) ran
                  answer
          ]
          | inr old ↦ elim old.0 [
            | inl old_block ↦
                still_waiting sent rest q reply s split old.1 downs
                  (before n.curr_sqn (concat sent) q n.server old_block p steady) ran answer
            | inr broken ↦
                still_waiting sent rest q reply s split old.1 downs
                  (damaged w owner path (concat sent) q n.curr_sqn n.server broken steady p) ran
                  answer
          ]
        ]
    arrives-Inv q rest s reply e ran answer (ahead sent text more e' split ups downs p steady) =
        elim (rw e at ups).0 [
          | inl now ↦
              still_ahead sent text more rest q reply s e' split (rw e at ups).1 downs
                (again_now sent text more q e' split now p steady) ran answer
          | inr broken ↦
              still_ahead sent text more rest q reply s e' split (rw e at ups).1 downs
                (damaged w owner path (concat sent ++ text) q (not n.curr_sqn) n.server broken
                  steady p)
                ran answer
        ]
