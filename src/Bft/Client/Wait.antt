-- ===== src/Bft/Client/Wait.antt =====
-- Sending one datagram until it is acknowledged: the calls that return, the fuel of the model,
-- and the limit.
use rechnernetze.Base.{
  ℕ, zero, suc, ◌+◌, ◌≤◌, ◌<◌, ◌≡◌, inl, inr, refl, sym, ◌∙◌, ap, subst, Bool, true, not, List,
  ◌++◌, append_assoc, arith, ℤ, pos, length, replicate, ltb, length-append, Bool-cases,
}
use rechnernetze.Process.{
  ok, stop, thrown, Ensures, Ensures-ok, Ensures-bind, Ensures-mono, >>=-cong, RecvFrom, Crc,
}
use rechnernetze.Bft.Datagram.{BftDatagram, get_sqn, check_integrity, is_ack_for, receive}
use rechnernetze.Bft.Client.Exchange.{
  Resent, Resent-trans, Heard, Exchange, exchange-Exchange, Heard-right,
}
use rechnernetze.Bft.Client.{
  Client, Round, no_response, after_receive, attempt, Exchanged, exchange, Verdict, again, busy,
  acknowledged, judge, wait_loop, send_and_wait,
}

data VerdictIs (v : Verdict) : Type 0 where
  again_is : v ≡ again → VerdictIs v
  busy_is : v ≡ busy → VerdictIs v
  acknowledged_is : v ≡ acknowledged → VerdictIs v

Verdict-cases : (v : Verdict) → VerdictIs v
Verdict-cases again = again_is refl
Verdict-cases busy = busy_is refl
Verdict-cases acknowledged = acknowledged_is refl

module _ (crc : Crc) where
  -- What it takes to be content with a response.
  pub record Accepted (d : BftDatagram) (sqn_bit : Bool) (r : BftDatagram) : Type 0 where
    pub intact : check_integrity crc r ≡ true
    pub acks : is_ack_for r d ≡ true
    pub in_turn : get_sqn r ≡ sqn_bit

  judge-Accepted :
      (d : BftDatagram) (b : Bool) (r : BftDatagram)
      → judge crc d b r ≡ acknowledged
      → Accepted d b r
  unfolding judge
  judge-Accepted d b r e = ground arith

  -- What a returning call of send_datagram_and_wait_for_ACK has done.
  pub record Waited (d : BftDatagram) (rounds : List Round) (s : Client) (r : List Round × Client)
      : Type 0 where
    pub resent : Resent d s.sent r.1.sent
    pub turned : r.1.curr_sqn ≡ not s.curr_sqn
    pub front : List Round
    pub split : rounds ≡ front ++ r.0
    pub answer : BftDatagram
    pub heard : Heard answer front
    pub accepted : Accepted d s.curr_sqn answer

  after_pass :
      (d : BftDatagram) (rounds : List Round) (s : Client) (x : Exchanged) (r : List Round × Client)
      → Exchange d rounds s x
      → Waited d x.rest x.client r
      → Waited d rounds s r
  after_pass d rounds s x r p q = record {
    resent = Resent-trans p.resent q.resent;
    turned = q.turned ∙ ap not p.same_sqn;
    front = p.front ++ q.front;
    split = p.split ∙ ap (◌++◌ p.front) q.split ∙ sym (append_assoc p.front q.front r.0);
    answer = q.answer;
    heard = Heard-right p.front q.front q.heard;
    accepted = subst (λ b. Accepted d b q.answer) p.same_sqn q.accepted;
  }

  wait_loop-Waited :
      (fuel : ℕ) (limit : ℤ) (d : BftDatagram) (rounds : List Round) (s : Client)
      → Ensures (Waited d rounds s) (wait_loop crc fuel limit d rounds s)
  unfolding wait_loop
  wait_loop-Waited zero limit d rounds s = tt
  wait_loop-Waited (suc fuel) limit d rounds s =
      Ensures-bind (Waited d rounds s) (exchange limit d 0 rounds s) _ (Exchange d rounds s)
        (exchange-Exchange limit d 0 rounds s)
        (λ x p. elim (Verdict-cases (judge crc d x.client.curr_sqn x.response)) [
          | again_is e ↦ rw e (
              Ensures-mono (Waited d x.rest x.client) (Waited d rounds s)
                (wait_loop crc fuel limit d x.rest x.client) (λ r q. after_pass d rounds s x r p q)
                (wait_loop-Waited fuel limit d x.rest x.client))
          | busy_is e ↦ rw e tt
          | acknowledged_is e ↦ rw e (record {
            resent = p.resent;
            turned = ap not p.same_sqn;
            front = p.front;
            split = p.split;
            answer = x.response;
            heard = p.heard;
            accepted =
                subst (λ b. Accepted d b x.response) p.same_sqn
                  (judge-Accepted d x.client.curr_sqn x.response e);
          })
        ])

  -- A call that returns has sent the datagram, at least once, and nothing else; it has turned the
  -- sequence bit; and it has heard, in a round of its own, an intact response that acknowledges the
  -- datagram and has the bit that was current.
  pub send_and_wait-Waited :
      (limit : ℤ) (d : BftDatagram) (rounds : List Round) (s : Client) {r : List Round × Client}
      → send_and_wait crc limit d rounds s ≡ ok r
      → Waited d rounds s r
  unfolding send_and_wait
  send_and_wait-Waited limit d rounds s =
      Ensures-ok (Waited d rounds s) _ (wait_loop-Waited (suc (length rounds)) limit d rounds s)

  shorter :
      (d : BftDatagram) (rounds : List Round) (s : Client) (x : Exchanged)
      → Exchange d rounds s x
      → length x.rest < length rounds
  shorter d rounds s x p = omega (arith, ap length p.split, length-append p.front x.rest, p.used)

  -- Any fuel above the number of rounds gives the same result.
  pub wait_loop-fuel :
      (f g : ℕ) (limit : ℤ) (d : BftDatagram) (rounds : List Round) (s : Client)
      → length rounds < f
      → length rounds < g
      → wait_loop crc f limit d rounds s ≡ wait_loop crc g limit d rounds s
  unfolding wait_loop
  wait_loop-fuel zero g limit d rounds s hf hg = absurd (omega arith)
  wait_loop-fuel (suc f) zero limit d rounds s hf hg = absurd (omega arith)
  wait_loop-fuel (suc f) (suc g) limit d rounds s hf hg =
      >>=-cong (exchange limit d 0 rounds s) _ _ (λ x e.
        let less = shorter d rounds s x (Ensures-ok _ _ (exchange-Exchange limit d 0 rounds s) e) in
        elim (Verdict-cases (judge crc d x.client.curr_sqn x.response)) [
          | again_is v ↦ rw v (
              wait_loop-fuel f g limit d x.rest x.client (omega (arith, less))
                (omega (arith, less)))
          | busy_is v ↦ rw v
          | acknowledged_is v ↦ rw v
        ])

-- A round in which the send succeeds and nothing comes before the timeout.
abbrev pub timeout : Round
timeout = record { sends = true; reply = RecvFrom.again }

-- From a retry count within the limit on, timeouts in a row until the count would exceed the
-- limit raise the exception, whatever would come later.
pub exchange_gives_up :
    (limit n : ℕ) (d : BftDatagram) (rest : List Round) (s : Client) (more : ℕ)
    → n ≤ limit
    → limit < n + more
    → exchange (pos limit) d n (replicate more timeout ++ rest) s ≡ stop thrown
unfolding exchange attempt after_receive no_response receive
exchange_gives_up limit n d rest s zero h k = absurd (omega arith)
exchange_gives_up limit n d rest s (suc more) h k = elim (Bool-cases (ltb n limit)) [
  | inl yet ↦ rw yet (exchange_gives_up limit (n + 1) d rest _ more (ground arith) (ground arith))
  | inr last ↦ rw last
]
