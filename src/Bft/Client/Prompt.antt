-- ===== src/Bft/Client/Prompt.antt =====
-- An upload to a server that answers in time.
use rechnernetze.Base.{
  ℕ, zero, suc, ◌+◌, ◌^◌, ◌≤◌, ◌<◌, ◌≡◌, refl, sym, ap, subst, Bool, true, false, not, List, [],
  ◌∷◌, ◌++◌, arith, pos, length, replicate, lt→ltb, bool_eq_refl, All,
}
use rechnernetze.Process.{Bytes, ok, ◌>>=◌, Address, packet, Returns, Returns-bind, >>=-assoc, Crc}
use rechnernetze.Bft.Flags.{no_flags, fin, abr, syn, ack, or_flags, has_flag}
use rechnernetze.Bft.Flags.Laws.{flag_bits}
use rechnernetze.Bft.Datagram.{
  BftDatagram, default_datagram, get_sqn, of_flags, of_string, max_payload_size, create_ack,
  receive, send, message, calc_checksum, zero_payload, size,
}
use rechnernetze.Bft.Datagram.Image.{IsFormed, receive-send}
use rechnernetze.Bft.Datagram.Checks.{
  built, of_range-some, create_ack_lem, create_ack-flags, add_sqn-bound,
}
use rechnernetze.Bft.Client.Wait.{timeout}
use rechnernetze.Bft.Client.Blocks.{plan, block_plan, IsBlock, read_blocks-IsBlock}
use rechnernetze.Bft.Client.{
  Client, Round, attempt, after_receive, no_response, exchange, judge, acknowledged, wait_loop,
  send_and_wait, read_blocks, built_or_overrun, send_blocks, upload,
}

-- Timeouts, fewer than the limit has left, and then a round with a datagram.
exchange-Returns :
    (limit k n m : ℕ) (d r : BftDatagram) (a : Address) (round : Round) (rest : List Round)
    (s : Client)
    → k + n ≤ limit
    → 0 < m
    → round.sends ≡ true
    → receive default_datagram round.reply ≡ ok (message m a r)
    → Returns
        (λ x. (x.response ≡ r) × (x.rest ≡ rest) × (x.client.curr_sqn ≡ s.curr_sqn))
        (exchange (pos limit) d k (replicate n timeout ++ (round ∷ rest)) s)
unfolding exchange attempt after_receive no_response receive
exchange-Returns limit k zero m d r a round rest s h hm hs hr =
    rw (hs, hr, lt→ltb 0 m hm, attempt, after_receive) (_, refl, (refl, refl, refl))
exchange-Returns limit k (suc n) m d r a round rest s h hm hs hr =
    rw (lt→ltb k limit (omega arith))
      (exchange-Returns limit (k + 1) n m d r a round rest _ (omega arith) hm hs hr)

module _ (crc : Crc) where
  -- A datagram as the client sends it while its bit is `b`.
  pub record Outgoing (d : BftDatagram) (b : Bool) : Type 0 where
    pub bound : d.flags < 2 ^ 16
    pub no_ack : has_flag d.flags ack ≡ false
    pub no_abr : has_flag d.flags abr ≡ false
    pub in_turn : get_sqn d ≡ b

  or_ack-bound : (f : ℕ) → f < 2 ^ 16 → or_flags f ack < 2 ^ 16
  or_ack-bound f h = ground (arith, flag_bits 1 f)

  pub create_ack-IsFormed : (d : BftDatagram) → d.flags < 2 ^ 16 → IsFormed (create_ack crc d)
  unfolding create_ack of_flags calc_checksum zero_payload
  create_ack-IsFormed d h = record {
    text = [];
    checksum_bound = crc.calculate_bound _;
    flags_bound = add_sqn-bound (or_flags d.flags ack) (get_sqn d) (or_ack-bound d.flags h);
    size_bound = omega arith;
    size_exact = refl;
    zero_filled = refl;
  }

  pub judge-create_ack :
      (d : BftDatagram) (b : Bool) → Outgoing d b → judge crc d b (create_ack crc d) ≡ acknowledged
  unfolding judge
  judge-create_ack d b o =
      let made = create_ack_lem crc d o.bound in
      rw (made.0, made.2, o.in_turn, bool_eq_refl b, made.3, no_abr) (ground arith)
    where
      no_abr : has_flag (create_ack crc d).flags abr ≡ false
      no_abr = rw (create_ack-flags crc d o.bound) (
          ground (
            arith,
            o.no_abr,
            flag_bits 3 d.flags,
            flag_bits 3 (or_flags d.flags ack),
            flag_bits 1 d.flags,
            or_ack-bound d.flags,
          ))

  -- The round in which the server acknowledges a datagram.
  abbrev pub acked : Address → BftDatagram → Round
  acked a d = record { sends = true; reply = packet (send (create_ack crc d)) a }

  -- Rounds that answer each datagram of a list, after at most `limit` timeouts each.
  pub data AnsweredIn (limit : ℕ) : List BftDatagram → List Round → Type 0 where
    done : AnsweredIn limit [] []
    next :
        {d : BftDatagram} {ds : List BftDatagram} {rounds : List Round} (n : ℕ) (a : Address)
        → n ≤ limit
        → AnsweredIn limit ds rounds
        → AnsweredIn limit (d ∷ ds) (replicate n timeout ++ (acked a d ∷ rounds))

  -- The client behind a datagram, with the rounds that are left and its bit.
  abbrev pub At : Bool → List Round → List Round × Client → Type 0
  At b rounds r = (r.0 ≡ rounds) × (r.1.curr_sqn ≡ b)

  -- The call for one datagram, with timeouts and then its acknowledgement ahead.
  pub send_and_wait-Returns :
      (limit n : ℕ) (d : BftDatagram) (a : Address) (rest : List Round) (s : Client)
      → n ≤ limit
      → Outgoing d s.curr_sqn
      → Returns
          (At (not s.curr_sqn) rest)
          (send_and_wait crc (pos limit) d (replicate n timeout ++ (acked a d ∷ rest)) s)
  unfolding send_and_wait wait_loop
  send_and_wait-Returns limit n d a rest s h o =
      Returns-bind _ (exchange (pos limit) d 0 _ s) _ _
        (exchange-Returns limit 0 n (size (create_ack crc d)) d (create_ack crc d) a (acked a d)
          rest s (omega arith) (unfold create_ack in unfold of_flags in omega arith) refl
          (receive-send (create_ack crc d) a (create_ack-IsFormed d o.bound)))
        (λ x q. rw (q.0, q.2, judge-create_ack d s.curr_sqn o) (_, refl, (q.1, ap not q.2)))

  pub built-Outgoing : (text : Bytes) (b : Bool) → Outgoing (built crc no_flags text b) b
  unfolding built has_flag or_flags
  built-Outgoing text true = record {
    bound = omega arith;
    no_ack = refl;
    no_abr = refl;
    in_turn = refl;
  }
  built-Outgoing text false = record {
    bound = omega arith;
    no_ack = refl;
    no_abr = refl;
    in_turn = refl;
  }

  pub syn-Outgoing : (text : Bytes) (b : Bool) → Outgoing (built crc syn text b) b
  unfolding built has_flag or_flags
  syn-Outgoing text true = record {
    bound = omega arith;
    no_ack = refl;
    no_abr = refl;
    in_turn = refl;
  }
  syn-Outgoing text false = record {
    bound = omega arith;
    no_ack = refl;
    no_abr = refl;
    in_turn = refl;
  }

  fin-Outgoing : (b : Bool) → Outgoing (of_flags crc fin b) b
  unfolding of_flags has_flag or_flags
  fin-Outgoing true = record { bound = omega arith; no_ack = refl; no_abr = refl; in_turn = refl }
  fin-Outgoing false = record { bound = omega arith; no_ack = refl; no_abr = refl; in_turn = refl }

  Ends : List Round × Client → Type 0
  Ends r = r.0 ≡ []

  -- What is left to answer, behind a datagram.
  answered_next :
      {limit : ℕ} {rest : List Round} (b : Bool) (blocks : List Bytes) (r : List Round × Client)
      → At b rest r
      → AnsweredIn limit (block_plan crc b blocks) rest
      → AnsweredIn limit (block_plan crc r.1.curr_sqn blocks) r.0
  answered_next {limit} b blocks r (e, e') h =
      subst (λ c. AnsweredIn limit (block_plan crc c blocks) r.0) (sym e')
        (subst (AnsweredIn limit (block_plan crc b blocks)) (sym e) h)

  send_blocks-Returns :
      (limit : ℕ) (blocks : List Bytes) (s : Client) (rounds : List Round)
      → All IsBlock blocks
      → AnsweredIn limit (block_plan crc s.curr_sqn blocks) rounds
      → Returns Ends (
          send_blocks crc (pos limit) blocks (rounds, s) >>= λ r'.
          send_and_wait crc (pos limit) (of_flags crc fin r'.1.curr_sqn) r'.0 r'.1)
  unfolding send_blocks Ends built_or_overrun
  send_blocks-Returns limit [] s _ h (next n a k done) =
      let (r, e, at) =
        send_and_wait-Returns limit n (of_flags crc fin s.curr_sqn) a [] s k (fin-Outgoing _) in
      (r, e, at.0)
  send_blocks-Returns limit (block ∷ blocks) s _ (h, hs) (next {rounds = rest} n a k more) =
      rw
        (
          of_range-some crc no_flags block s.curr_sqn h.1,
          >>=-assoc
              (send_and_wait crc (pos limit) (built crc no_flags block s.curr_sqn)
                (replicate n timeout ++ (acked a (built crc no_flags block s.curr_sqn) ∷ rest)) s)
              (send_blocks crc (pos limit) blocks)
              (λ r'. send_and_wait crc (pos limit) (of_flags crc fin r'.1.curr_sqn) r'.0 r'.1),
        )
        (Returns-bind Ends
          (send_and_wait crc (pos limit) (built crc no_flags block s.curr_sqn)
            (replicate n timeout ++ (acked a (built crc no_flags block s.curr_sqn) ∷ rest)) s)
          _ (At (not s.curr_sqn) rest)
          (send_and_wait-Returns limit n (built crc no_flags block s.curr_sqn) a rest s k
            (built-Outgoing block s.curr_sqn))
          (λ r at.
            send_blocks-Returns limit blocks r.1 r.0 hs
              (answered_next (not s.curr_sqn) blocks r at more)))

  -- An upload of a file whose name has at most 504 bytes, of which each datagram is acknowledged
  -- after at most as many timeouts as the limit allows, returns and has used up the rounds.
  pub upload-Returns :
      (limit : ℕ) (filename content : Bytes) (s : Client) (rounds : List Round)
      → length filename ≤ max_payload_size
      → AnsweredIn limit (plan crc s.curr_sqn filename content) rounds
      → (r : List Round × Client) × (upload crc (pos limit) filename content rounds s ≡ ok r)
        × (r.0 ≡ [])
  unfolding upload Ends built_or_overrun of_string
  upload-Returns limit filename content s _ h (next {rounds = rest} n a k more) =
      rw (of_range-some crc syn filename s.curr_sqn h) (
        Returns-bind Ends
          (send_and_wait crc (pos limit) (built crc syn filename s.curr_sqn)
            (replicate n timeout ++ (acked a (built crc syn filename s.curr_sqn) ∷ rest)) s)
          _ (At (not s.curr_sqn) rest)
          (send_and_wait-Returns limit n (built crc syn filename s.curr_sqn) a rest s k
            (syn-Outgoing filename s.curr_sqn))
          (λ r at.
            send_blocks-Returns limit _ r.1 r.0 (read_blocks-IsBlock (length content) content)
              (answered_next (not s.curr_sqn) (read_blocks (length content) content) r at more)))
