-- ===== src/Bft/Client/Exchange.antt =====
-- Sending one datagram until something comes back.
use rechnernetze.Base.{
  ℕ, ◌+◌, ◌<◌, ◌≡◌, refl, sym, ◌∙◌, ap, true, List, [], ◌∷◌, ◌++◌, append_assoc, arith, ℤ, pos,
  negsuc, length, ltb, All, All-append, length-append,
}
use rechnernetze.Process.{
  Bytes, ok, stop, ◌>>=◌, thrown, exited, exit_failure, Ensures, Ensures-bind, Ensures-intro,
  Ensures-if, Ensures-mono, Address,
}
use rechnernetze.Bft.Datagram.{
  BftDatagram, default_datagram, Received, message, would_block, receive, send,
}
use rechnernetze.Bft.Client.{
  Client, Round, Attempt, responded, retry, count_retransmission, no_response, as_retry,
  after_receive, attempt, Exchanged, exchange,
}

-- Between two states of what was sent, newest first: copies of one datagram and nothing else.
pub record Resent (d : BftDatagram) (old new : List (Address × Bytes)) : Type 0 where
  pub copies : List (Address × Bytes)
  pub grown : new ≡ copies ++ old
  pub same : All (λ p. p.1 ≡ send d) copies
  pub at_least_one : 0 < length copies

pub Resent-trans :
    {d : BftDatagram} {s t u : List (Address × Bytes)} → Resent d s t → Resent d t u → Resent d s u
Resent-trans p q = record {
  copies = q.copies ++ p.copies;
  grown = q.grown ∙ ap (◌++◌ q.copies) p.grown ∙ sym (append_assoc q.copies p.copies _);
  same = All-append _ q.copies p.copies q.same p.same;
  at_least_one = omega (arith, length-append q.copies p.copies, p.at_least_one);
}

-- A datagram is among what the rounds yield.
pub data Heard (r : BftDatagram) : List Round → Type 0 where
  here :
      {round : Round} {rounds : List Round} (n : ℕ) (a : Address)
      → receive default_datagram round.reply ≡ ok (message n a r)
      → Heard r (round ∷ rounds)
  there : {round : Round} {rounds : List Round} → Heard r rounds → Heard r (round ∷ rounds)

abbrev Kept : Client → ℕ × Client → Type 0
Kept s r = (r.1.curr_sqn ≡ s.curr_sqn) × (r.1.sent ≡ s.sent)

no_response-Kept : (limit : ℤ) (n : ℕ) (s : Client) → Ensures (Kept s) (no_response limit n s)
unfolding no_response
no_response-Kept (negsuc m) n s =
    Ensures-if (Kept s) s.errno_again (ok (n, count_retransmission s)) _ (λ _. (refl, refl))
      (λ _. tt)
no_response-Kept (pos m) n s =
    Ensures-if (Kept s) s.errno_again _ (stop (exited exit_failure))
      (λ _.
        Ensures-if (Kept s) (ltb n m) (ok (n + 1, count_retransmission s)) (stop thrown)
          (λ _. (refl, refl)) (λ _. tt))
      (λ _. tt)

-- After one pass: the datagram was sent once, and a response is one that the round yielded.
abbrev SentOnce : BftDatagram → Client → Client → Type 0
SentOnce d s s' = (s'.curr_sqn ≡ s.curr_sqn) × (s'.sent ≡ (s.server_addr, send d) ∷ s.sent)

abbrev Attempted : BftDatagram → Round → Client → Attempt → Type 0
Attempted d round s (responded r s') = SentOnce d s s' × Heard r (round ∷ [])
Attempted d round s (retry n s') = SentOnce d s s'

attempt-Attempted :
    (limit : ℤ) (d : BftDatagram) (n : ℕ) (round : Round) (s : Client)
    → Ensures (Attempted d round s) (attempt limit d n round s)
unfolding attempt after_receive
attempt-Attempted limit d n round s =
    Ensures-if (Attempted d round s) round.sends _ (stop (exited exit_failure))
      (λ _.
        Ensures-bind (Attempted d round s) (receive default_datagram round.reply)
          (after_receive limit n after) (λ r. receive default_datagram round.reply ≡ ok r)
          (Ensures-intro _ _ (λ r e. e)) received)
      (λ _. tt)
  where
    after : Client
    after = record s { sent = (s.server_addr, send d) ∷ s.sent }

    waited :
        (s1 : Client)
        → SentOnce d s s1
        → Ensures (Attempted d round s) (no_response limit n s1 >>= as_retry)
    waited s1 once =
        Ensures-bind (Attempted d round s) (no_response limit n s1) as_retry (Kept s1)
          (no_response-Kept limit n s1) (λ r kept. (kept.0 ∙ once.0, kept.1 ∙ once.1))

    received :
        (r : Received)
        → receive default_datagram round.reply ≡ ok r
        → Ensures (Attempted d round s) (after_receive limit n after r)
    received would_block e = waited (record after { errno_again = true }) (refl, refl)
    received (message k a response) e =
        Ensures-if (Attempted d round s) (ltb 0 k) (ok (responded response heard)) _
          (λ _. ((refl, refl), here k a e)) (λ _. waited heard (refl, refl))
      where
        heard : Client
        heard = record after { server_addr = a }

-- What an exchange has done when it returns: it has used up some rounds, and heard the response in
-- one of them.
pub record Exchange (d : BftDatagram) (rounds : List Round) (s : Client) (x : Exchanged)
    : Type 0 where
  pub resent : Resent d s.sent x.client.sent
  pub same_sqn : x.client.curr_sqn ≡ s.curr_sqn
  pub front : List Round
  pub split : rounds ≡ front ++ x.rest
  pub used : 0 < length front
  pub heard : Heard x.response front

SentOnce-Resent : (d : BftDatagram) (s s' : Client) → SentOnce d s s' → Resent d s.sent s'.sent
SentOnce-Resent d s s' once = record {
  copies = (s.server_addr, send d) ∷ [];
  grown = once.1;
  same = (refl, tt);
  at_least_one = omega arith;
}

pub exchange-Exchange :
    (limit : ℤ) (d : BftDatagram) (n : ℕ) (rounds : List Round) (s : Client)
    → Ensures (Exchange d rounds s) (exchange limit d n rounds s)
unfolding exchange
exchange-Exchange limit d n [] s = tt
exchange-Exchange limit d n (round ∷ rounds) s =
    Ensures-bind (Exchange d (round ∷ rounds) s) (attempt limit d n round s) _ (Attempted d round s)
      (attempt-Attempted limit d n round s)
      (elim [
        | responded r s' ↦ λ p. record {
          resent = SentOnce-Resent d s s' p.0;
          same_sqn = p.0.0;
          front = round ∷ [];
          split = refl;
          used = omega arith;
          heard = p.1;
        }
        | retry n' s' ↦ λ p.
            Ensures-mono (Exchange d rounds s') (Exchange d (round ∷ rounds) s)
              (exchange limit d n' rounds s')
              (λ x q. record {
                resent = Resent-trans (SentOnce-Resent d s s' p) q.resent;
                same_sqn = q.same_sqn ∙ p.0;
                front = round ∷ q.front;
                split = ap (◌∷◌ round) q.split;
                used = omega arith;
                heard = there q.heard;
              })
              (exchange-Exchange limit d n' rounds s')
      ])

pub Heard-left :
    {r : BftDatagram} (front rest : List Round) → Heard r front → Heard r (front ++ rest)
Heard-left [] rest h = elim h [ ]
Heard-left (_ ∷ front) rest (here n a e) = here n a e
Heard-left (_ ∷ front) rest (there h) = there (Heard-left front rest h)

pub Heard-right :
    {r : BftDatagram} (front rest : List Round) → Heard r rest → Heard r (front ++ rest)
Heard-right [] rest h = h
Heard-right (_ ∷ front) rest h = there (Heard-right front rest h)
