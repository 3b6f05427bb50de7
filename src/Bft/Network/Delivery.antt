-- ===== src/Bft/Network/Delivery.antt =====
-- What the client and the server achieve over a network that loses, doubles and damages packets.
use rechnernetze.Base.{
  ◌≡◌, ◌∙◌, refl, sym, ap, subst, true, List, [], ◌∷◌, ◌++◌, append-nil, arith, length, All,
}
use rechnernetze.Process.{Bytes, Address}
use rechnernetze.Bft.Client.{read_blocks}
use rechnernetze.Bft.Client.Blocks.{concat, IsBlock, read_blocks-concat, read_blocks-IsBlock}
use rechnernetze.Bft.Server.{World, Server}
use rechnernetze.Bft.Server.Arrivals.{Progress}
use rechnernetze.Bft.Server.Running.{Steady}
use rechnernetze.Bft.Network.{
  Net, Move, sends, up_lost, up_doubled, up_damaged, arrives, stray, down_lost, down_doubled,
  down_damaged, turns, Reach, started, later,
}
use rechnernetze.Bft.Network.Queues.{only_new}
use rechnernetze.Bft.Network.Invariant.{
  Inv, waiting, ahead, sends-Inv, up_lost-Inv, up_doubled-Inv, up_damaged-Inv, down_lost-Inv,
  down_doubled-Inv, down_damaged-Inv,
}
use rechnernetze.Bft.Network.Steps.{arrives-Inv}
use rechnernetze.Bft.Network.Turns.{stray-Inv, turns-Inv}

nil_or_cons {ℓ} : {A : Type ℓ} {x : A} {xs : List A} → [] ≡ x ∷ xs → ⊥
nil_or_cons h = cc

module _ (w : World) (owner peer : Address) (path content : Bytes) where
  abbrev pub texts : List Bytes
  texts = read_blocks (length content) content

  pub texts-IsBlock : All IsBlock texts
  texts-IsBlock = read_blocks-IsBlock (length content) content

  pub Move-Inv :
      {n m : Net}
      → Inv w owner peer path texts n
      → Move w owner peer n m
      → Inv w owner peer path texts m
  Move-Inv {n} inv (sends text rest e) = sends-Inv w owner peer path texts n text rest e inv
  Move-Inv {n} inv (up_lost front p back e) =
      up_lost-Inv w owner peer path texts n front p back e inv
  Move-Inv {n} inv (up_doubled front p back e) =
      up_doubled-Inv w owner peer path texts n front p back e inv
  Move-Inv {n} inv (up_damaged front p q back e h) =
      up_damaged-Inv w owner peer path texts n front p q back e h inv
  Move-Inv {n} inv (arrives p rest s reply e ran answer) =
      arrives-Inv w owner peer path texts texts-IsBlock n p rest s reply e ran answer inv
  Move-Inv {n} inv (stray event s taken other no_abr ran) =
      stray-Inv w owner peer path texts texts-IsBlock n event s taken other no_abr ran inv
  Move-Inv {n} inv (down_lost front p back e) =
      down_lost-Inv w owner peer path texts n front p back e inv
  Move-Inv {n} inv (down_doubled front p back e) =
      down_doubled-Inv w owner peer path texts n front p back e inv
  Move-Inv {n} inv (down_damaged front p q back e h) =
      down_damaged-Inv w owner peer path texts n front p q back e h inv
  Move-Inv {n} inv (turns p rest text more k r e e' got good) =
      turns-Inv w owner peer path texts texts-IsBlock n p rest text more k r e e' got good inv

  -- The upload has begun, and nothing is under way.
  abbrev pub begun : Server → Net
  begun s = record { todo = texts; curr_sqn = true; up = []; down = []; server = s }

  pub Reach-Inv :
      (s : Server)
      → Progress owner path true [] s
      → Steady s.host
      → {n : Net} → Reach w owner peer (begun s) n
      → Inv w owner peer path texts n
  Reach-Inv s p steady started = waiting [] refl (only_new tt) tt p steady
  Reach-Inv s p steady (later r move) = Move-Inv (Reach-Inv s p steady r) move

  pub complete :
      (n : Net)
      → Inv w owner peer path texts n
      → n.todo ≡ []
      → Progress owner path n.curr_sqn content n.server
  complete n (waiting sent split ups downs p steady) e =
      let all : texts ≡ sent = split ∙ ap (λ t. sent ++ t) e ∙ append-nil sent in
      subst (λ t. Progress owner path n.curr_sqn t n.server)
        (ap concat (sym all) ∙ read_blocks-concat (length content) content (omega arith)) p
  complete n (ahead sent text rest e' split ups downs p steady) e =
      absurd (nil_or_cons (sym e ∙ e'))

  -- Let the server have begun the upload of the client, with the set bit due, its clock not run
  -- back, and let no packet be under way. In every order of moves, where the client sends its
  -- blocks as often as it likes, and the network keeps the order of the packets and loses,
  -- doubles and damages them: a damaged packet is one that `receive` takes, so its size field is
  -- at most 504, and that fails the test of the checksum; strays are packets that `receive` takes
  -- and that are neither datagrams of the upload nor ABR of the client's host, and the server's
  -- answers to them do not come to the client. When the client has no block left to send, its
  -- file at the server holds the content.
  pub Reach-Progress :
      (s : Server)
      → Progress owner path true [] s
      → Steady s.host
      → {n : Net} → Reach w owner peer (begun s) n
      → n.todo ≡ []
      → Progress owner path n.curr_sqn content n.server
  Reach-Progress s p steady {n} r e = complete n (Reach-Inv s p steady r) e
