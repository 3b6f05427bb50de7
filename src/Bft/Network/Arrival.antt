-- ===== src/Bft/Network/Arrival.antt =====
-- What the server does with a packet of its client, and how it answers.
use rechnernetze.Base.{
  ◌≤◌, ◌≡◌, ◌∙◌, refl, sym, ap, subst, Bool, false, not, [], ◌∷◌, ◌++◌, append-nil, arith, length,
  ==_refl, if◌then◌else◌, inl, inr, none, some,
}
use rechnernetze.Process.{Bytes, ok, Address, packet, Returns, ok-injective}
use rechnernetze.Bft.Flags.{no_flags, agn}
use rechnernetze.Bft.Datagram.{BftDatagram, message, send, create_ack, of_flags, max_payload_size}
use rechnernetze.Bft.Datagram.Image.{receive-send}
use rechnernetze.Bft.Datagram.Checks.{built, built-check, built-IsFormed}
use rechnernetze.Bft.Server.{World, Server, step, dispatch}
use rechnernetze.Bft.Server.Arrivals.{
  arrival, arrived, block, is_part, is_due, next_due, ends, Progress,
}
use rechnernetze.Bft.Server.Running.{Steady, Taken, step-returns}
use rechnernetze.Bft.Server.Growth.{step-Progress, step-arrived}
use rechnernetze.Bft.Server.Closing.{IsRegular, dispatch_acknowledged}
use rechnernetze.Bft.Server.Replies.{dispatch_damaged}
use rechnernetze.Bft.Transfer.{built-flags, built-block, built-due, built-IsPast}
use rechnernetze.Bft.Network.{IsReceived, IsDamaged}
use rechnernetze.Bft.Network.Answers.{IsIdle, agn-IsIdle, create_ack-IsIdle}

none_or_some {ℓ} : {A : Type ℓ} {a : A} → none ≡ some a → ⊥
none_or_some h = cc

some-injective {ℓ} : {A : Type ℓ} {a b : A} → some a ≡ some b → a ≡ b
some-injective h = cc

module _ (w : World) (owner : Address) (path : Bytes) where
  -- The server afterwards: the bit that is due and the content, and one answer to the client that is
  -- idle while the client's bit is that one.
  pub record Answered (due : Bool) (content : Bytes) (s s' : Server) : Type 0 where
    pub progress : Progress owner path due content s'
    pub steady : Steady s'.host
    pub reply : Bytes
    pub sent : s'.sent ≡ (owner, reply) ∷ s.sent
    pub idle : IsIdle w.crc due reply

  -- A packet that is received as a datagram.
  received-arrived :
      (p : Bytes) {n : _} {d : BftDatagram}
      → IsReceived p n d
      → (arrived (packet p owner) ≡ (d, owner)) × Taken (packet p owner)
  unfolding arrived arrival
  received-arrived p {n} {d} got = (rw (got owner) refl, (message n owner d, got owner))

  module _ (content text : Bytes) (c : Bool) (s : Server) (small : length text ≤ max_payload_size)
      (steady : Steady s.host) where
    abbrev d : BftDatagram
    d = built w.crc no_flags text c

    d-arrived : (arrived (packet (send d) owner) ≡ (d, owner)) × Taken (packet (send d) owner)
    d-arrived =
        received-arrived (send d)
          (λ a. receive-send d a (built-IsFormed w.crc no_flags text c (omega arith) small))

    -- The answer to a block, new or not.
    pub acknowledged_to_owner :
        (due : Bool) {s' : Server}
        → Progress owner path due content s
        → step w s (packet (send d) owner) ≡ ok s'
        → s'.sent ≡ (owner, send (create_ack w.crc d)) ∷ s.sent
    acknowledged_to_owner due {s'} p ran =
        subst (λ a. s'.sent ≡ (a, send (create_ack w.crc d)) ∷ s.sent) p.same_address
          (dispatch_acknowledged w d owner p.client s regular (
            subst (λ q. dispatch w q.0 q.1 s ≡ ok s') d-arrived.0
              (step-arrived w s (packet (send d) owner) ran)))
      where
        regular : IsRegular w d owner p.client s
        regular = record {
          current = p.is_current;
          intact = built-check w.crc no_flags text c small;
          not_syn = (built-flags w owner.s_addr text small c).0;
          not_abr = (built-flags w owner.s_addr text small c).1;
          from_client = rw p.same_address (==_refl owner.s_addr);
        }

    -- The progress behind a packet that does not end the upload.
    went_on :
        (due : Bool)
        → Progress owner path due content s
        → ends w owner.s_addr due (d, owner) ≡ false
        → Returns
            (λ s'.
              Steady s'.host
              × Progress owner path
                  (next_due w owner.s_addr due (d, owner))
                  (content ++ (if is_due w owner.s_addr due (d, owner) then block d else []))
                  s'
              × (s'.sent ≡ (owner, send (create_ack w.crc d)) ∷ s.sent))
            (step w s (packet (send d) owner))
    went_on due p still =
        let event = packet (send d) owner in
        let open_still : ends w owner.s_addr due (arrived event) ≡ false = rw (d-arrived.0) still in
        let (s', ran, steady') =
          step-returns w owner path content due s event p steady d-arrived.1 open_still in
        (
          s',
          ran,
          (
            steady',
            subst
                (λ q.
                  Progress owner path (next_due w owner.s_addr due q)
                    (content ++ (if is_due w owner.s_addr due q then block q.0 else [])) s')
                d-arrived.0 (step-Progress w owner path content due s event p open_still ran),
            acknowledged_to_owner due p ran,
          ),
        )

    -- A block that is due goes to the file.
    pub took :
        Progress owner path c content s
        → Returns (Answered (not c) (content ++ text) s) (step w s (packet (send d) owner))
    unfolding next_due
    took p =
        let (due, still) = built-due w owner.s_addr text small c owner (==_refl owner.s_addr) in
        let (s', ran, (steady', progress, sent)) = went_on c p still in
        (
          s',
          ran,
          record {
            progress = rw (due, built-block w owner.s_addr text small c) at progress;
            steady = steady';
            reply = send (create_ack w.crc d);
            sent = sent;
            idle = create_ack-IsIdle w.crc text c;
          },
        )

    -- One that is not due only turns up in an answer.
    pub kept :
        Progress owner path (not c) content s
        → Returns (Answered (not c) content s) (step w s (packet (send d) owner))
    unfolding next_due
    kept p =
        let (late, still) = built-IsPast w owner.s_addr text small c owner in
        let (s', ran, (steady', progress, sent)) = went_on (not c) p still in
        (
          s',
          ran,
          record {
            progress = rw (late, append-nil) at progress;
            steady = steady';
            reply = send (create_ack w.crc d);
            sent = sent;
            idle = create_ack-IsIdle w.crc text c;
          },
        )

  module _ (content p : Bytes) (due : Bool) (s : Server) (h : IsDamaged w.crc p)
      (steady : Steady s.host) where
    damaged_past :
        (is_due w owner.s_addr due (h.datagram, owner) ≡ false)
        × (ends w owner.s_addr due (h.datagram, owner) ≡ false)
    unfolding is_due is_part ends
    damaged_past = (ground (arith, h.broken), ground (arith, h.broken))

    damaged-sent :
        {s' : Server}
        → Progress owner path due content s
        → dispatch w h.datagram owner s ≡ ok s'
        → s'.sent ≡ (owner, send (of_flags w.crc agn due)) ∷ s.sent
    damaged-sent {s'} progress ran = elim (dispatch_damaged w h.datagram owner s h.broken) [
      | inl (nobody, _) ↦ absurd (none_or_some (sym nobody ∙ progress.is_current))
      | inr (c, e, answered) ↦
          let same : c ≡ progress.client = some-injective (sym e ∙ progress.is_current) in
          let bit : c.current_sqn ≡ due = ap (λ x. x.current_sqn) same ∙ progress.sqn_due in
          ap (λ x. x.sent) (ok-injective (sym ran ∙ answered))
          ∙ ap (λ b. (owner, send (of_flags w.crc agn b)) ∷ s.sent) bit
    ]

    -- A damaged packet is answered by a call for a repetition.
    pub damaged :
        Progress owner path due content s
        → Returns (Answered due content s) (step w s (packet p owner))
    unfolding next_due
    damaged progress =
        let (there, taken) = received-arrived p h.received in
        let (late, still) = damaged_past in
        let open_still : ends w owner.s_addr due (arrived (packet p owner)) ≡ false =
          rw there still in
        let (s', ran, steady') =
          step-returns w owner path content due s (packet p owner) progress steady taken
            open_still in
        let after =
          step-Progress w owner path content due s (packet p owner) progress open_still ran in
        (
          s',
          ran,
          record {
            progress = rw (there, late, append-nil) at after;
            steady = steady';
            reply = send (of_flags w.crc agn due);
            sent = damaged-sent progress (
                subst (λ q. dispatch w q.0 q.1 s ≡ ok s') there
                  (step-arrived w s (packet p owner) ran));
            idle = agn-IsIdle w.crc due due;
          },
        )
