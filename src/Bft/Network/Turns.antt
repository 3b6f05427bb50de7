-- ===== src/Bft/Network/Turns.antt =====
-- What else moves: packets of others, and the client's turn to its next block.
use rechnernetze.Base.{
  ℕ, ◌≤◌, ◌≡◌, ◌∙◌, refl, sym, ap, subst, Bool, false, not, ◌&&◌, ◌==◌, List, [], ◌∷◌, ◌++◌,
  append_assoc, append-nil, length, inl, inr, All,
}
use rechnernetze.Process.{Bytes, ok, Address, RecvFrom, packet, ok-injective, of_ok}
use rechnernetze.Bft.Flags.{no_flags}
use rechnernetze.Bft.Datagram.{
  BftDatagram, default_datagram, check_integrity, is_abr, message, receive, max_payload_size,
}
use rechnernetze.Bft.Datagram.Checks.{built}
use rechnernetze.Bft.Client.{again, acknowledged, judge}
use rechnernetze.Bft.Client.Blocks.{concat, IsBlock}
use rechnernetze.Bft.Server.{World, Server, step}
use rechnernetze.Bft.Server.Arrivals.{arrived, is_part, next_due, Progress}
use rechnernetze.Bft.Server.Running.{Steady, Taken, step-returns}
use rechnernetze.Bft.Server.Growth.{step-Progress}
use rechnernetze.Bft.Transfer.{stray-IsPast}
use rechnernetze.Bft.Network.{Net}
use rechnernetze.Bft.Network.Queues.{Fifo-all, Fifo-cons}
use rechnernetze.Bft.Network.Answers.{IsIdle}
use rechnernetze.Bft.Network.Invariant.{Old, Now, Inv, waiting, ahead}
use rechnernetze.Bft.Network.Steps.{block-small}

concat-snoc :
    (texts : List Bytes) (text : Bytes) → concat (texts ++ (text ∷ [])) ≡ concat texts ++ text
concat-snoc [] text = append-nil text
concat-snoc (t ∷ texts) text =
    ap (◌++◌ t) (concat-snoc texts text) ∙ sym (append_assoc t (concat texts) text)

message-injective :
    {k l : ℕ} {a b : Address} {x y : BftDatagram} → message k a x ≡ message l b y → x ≡ y
message-injective h = cc

again_or_acknowledged : again ≡ acknowledged → ⊥
again_or_acknowledged h = cc

cons-tail {ℓ} : {A : Type ℓ} {x y : A} {xs ys : List A} → x ∷ xs ≡ y ∷ ys → xs ≡ ys
cons-tail h = cc

module _ (w : World) (owner peer : Address) (path : Bytes) (texts : List Bytes)
    (blocks : All IsBlock texts) where
  -- A packet that is no part of the upload changes neither the file nor the bit.
  stray-Progress :
      (due : Bool) (content : Bytes) (s s' : Server) (event : RecvFrom)
      → Taken event
      → is_part w owner.s_addr (arrived event) ≡ false
      → (check_integrity w.crc (arrived event).0
          && (is_abr w.crc (arrived event).0 && (arrived event).1.s_addr == owner.s_addr))
        ≡ false
      → step w s event ≡ ok s'
      → Progress owner path due content s
      → Steady s.host
      → Progress owner path due content s' × Steady s'.host
  unfolding next_due
  stray-Progress due content s s' event taken other no_abr ran p steady =
      let (late, still) = stray-IsPast w owner.s_addr due (arrived event) other no_abr in
      let (t, e, steady') = step-returns w owner path content due s event p steady taken still in
      let after = step-Progress w owner path content due s event p still ran in
      (rw (late, append-nil) at after, of_ok (λ t. Steady t.host) e ran steady')

  pub stray-Inv :
      (n : Net) (event : RecvFrom) (s : Server)
      → Taken event
      → is_part w owner.s_addr (arrived event) ≡ false
      → (check_integrity w.crc (arrived event).0
          && (is_abr w.crc (arrived event).0 && (arrived event).1.s_addr == owner.s_addr))
        ≡ false
      → step w n.server event ≡ ok s
      → Inv w owner peer path texts n
      → Inv w owner peer path texts (record n { server = s })
  stray-Inv n event s taken other no_abr ran (waiting sent split ups downs p steady) =
      let (p', steady') =
        stray-Progress n.curr_sqn (concat sent) n.server s event taken other no_abr ran p steady in
      waiting sent split ups downs p' steady'
  stray-Inv n event s taken other no_abr ran (ahead sent text more e split ups downs p steady) =
      let (p', steady') =
        stray-Progress (not n.curr_sqn) (concat sent ++ text) n.server s event taken other no_abr
          ran p steady in
      ahead sent text more e split ups downs p' steady'

  -- An answer that is idle is not the one that the client turns for.
  not_idle :
      (b : Bool) (p text : Bytes) (k : ℕ) (r : BftDatagram)
      → IsIdle w.crc b p
      → receive default_datagram (packet p peer) ≡ ok (message k peer r)
      → judge w.crc (built w.crc no_flags text b) b r ≡ acknowledged
      → ⊥
  not_idle b p text k r idle got content_with =
      let same : idle.datagram ≡ r =
        message-injective (ok-injective (sym (idle.received peer) ∙ got)) in
      again_or_acknowledged (
        sym (idle.again_is text)
        ∙ ap (λ x. judge w.crc (built w.crc no_flags text b) b x) same
        ∙ content_with)

  -- What was under way for a block is of the block before, behind the turn.
  older-Now :
      (text : Bytes) (rest : List Bytes) (b : Bool) (ps : List Bytes)
      → length text ≤ max_payload_size
      → All (Now w owner peer path texts (text ∷ rest) b) ps
      → All (Old w owner peer path texts (not b)) ps
  older-Now text rest b [] small h = tt
  older-Now text rest b (p ∷ ps) small (inl now, h) = (
    inl (record { text = text; bit = b; small = small; other = refl; same = now }),
    older-Now text rest b ps small h,
  )
  older-Now text rest b (p ∷ ps) small (inr broken, h) =
      (inr broken, older-Now text rest b ps small h)

  pub turns-Inv :
      (n : Net) (p : Bytes) (rest : List Bytes) (text : Bytes) (more : List Bytes) (k : ℕ)
      (r : BftDatagram)
      → n.down ≡ p ∷ rest
      → n.todo ≡ text ∷ more
      → receive default_datagram (packet p peer) ≡ ok (message k peer r)
      → judge w.crc (built w.crc no_flags text n.curr_sqn) n.curr_sqn r ≡ acknowledged
      → Inv w owner peer path texts n
      → Inv w owner peer path texts
          (record n { down = rest; todo = more; curr_sqn = not n.curr_sqn })
  turns-Inv n q rest text more k r e e' got good (waiting sent split ups downs p steady) =
      absurd (not_idle n.curr_sqn q text k r (rw e at downs).0 got good)
  turns-Inv n q rest text more k r e e' got good (ahead sent t more' e'' split ups downs p steady) =
      elim (Fifo-cons _ _ (rw e at downs)) [
        | inr old ↦ absurd (not_idle n.curr_sqn q text k r old.0 got good)
        | inl new ↦
            let same_rest : more ≡ more' = cons-tail (sym e' ∙ e'') in
            let small = block-small sent t more' (subst (All IsBlock) split blocks) in
            waiting (sent ++ (t ∷ []))
              (split
                ∙ sym (append_assoc sent (t ∷ []) more')
                ∙ ap (λ xs. (sent ++ (t ∷ [])) ++ xs) (sym same_rest))
              (Fifo-all _ _ n.up (older-Now t more' n.curr_sqn n.up small (rw e'' at ups))) new.1
              (rw (concat-snoc sent t) p) steady
      ]
