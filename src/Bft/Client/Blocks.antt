-- ===== src/Bft/Client/Blocks.antt =====
-- The whole upload: the datagrams that a file is sent as.
use rechnernetze.Base.{
  ℕ, zero, suc, ◌≤◌, ◌<◌, ◌≡◌, refl, subst, Bool, not, List, [], ◌∷◌, ◌++◌, arith, ℤ, length, drop,
  length-take, length-drop, take-append-drop, All,
}
use rechnernetze.Process.{
  Bytes, Result, ok, ◌>>=◌, Address, Ensures, Ensures-ok, Ensures-intro, Ensures-bind, Ensures-mono,
  >>=-assoc, Crc,
}
use rechnernetze.Bft.Flags.{no_flags, fin, syn}
use rechnernetze.Bft.Datagram.{BftDatagram, of_flags, of_string, max_payload_size}
use rechnernetze.Bft.Datagram.Checks.{built, of_range-some}
use rechnernetze.Bft.Client.Exchange.{Resent}
use rechnernetze.Bft.Client.Wait.{send_and_wait-Waited, Waited}
use rechnernetze.Bft.Client.{
  Client, Round, send_and_wait, read_blocks, built_or_overrun, send_blocks, upload,
}

abbrev pub concat : List Bytes → Bytes
concat [] = []
concat (b ∷ bs) = b ++ concat bs

-- What `file.read` can fill its array with.
abbrev pub IsBlock : Bytes → Type 0
IsBlock b = (0 < length b) × (length b ≤ max_payload_size)

pub read_blocks-concat :
    (fuel : ℕ) (content : Bytes)
    → length content ≤ fuel
    → concat (read_blocks fuel content) ≡ content
unfolding read_blocks
read_blocks-concat zero [] h = refl
read_blocks-concat zero (c ∷ content) h = absurd (omega arith)
read_blocks-concat (suc fuel) [] h = refl
read_blocks-concat (suc fuel) (c ∷ content) h =
    rw
      (read_blocks-concat fuel (drop max_payload_size (c ∷ content))
        (omega (arith, length-drop 503 content)))
      (take-append-drop max_payload_size (c ∷ content))

pub read_blocks-IsBlock : (fuel : ℕ) (content : Bytes) → All IsBlock (read_blocks fuel content)
unfolding read_blocks
read_blocks-IsBlock zero content = tt
read_blocks-IsBlock (suc fuel) [] = tt
read_blocks-IsBlock (suc fuel) (c ∷ content) = (
  (omega arith, omega (arith, length-take 504 (c ∷ content))),
  read_blocks-IsBlock fuel (drop max_payload_size (c ∷ content)),
)

-- The blocks of a file: their bytes in order are the content, and each is one to 504 bytes long.
pub read_blocks_lem :
    (content : Bytes)
    → (concat (read_blocks (length content) content) ≡ content)
      × All IsBlock (read_blocks (length content) content)
read_blocks_lem content = (
  read_blocks-concat (length content) content (omega arith),
  read_blocks-IsBlock (length content) content,
)

-- Between two states of what was sent: runs of copies, one run for each datagram of a list in turn.
pub data SentRuns
    : List BftDatagram → List (Address × Bytes) → List (Address × Bytes) → Type 0 where
  none_sent : {sent : List (Address × Bytes)} → SentRuns [] sent sent
  run_sent :
      {d : BftDatagram} {ds : List BftDatagram} {old mid new : List (Address × Bytes)}
      → Resent d old mid
      → SentRuns ds mid new
      → SentRuns (d ∷ ds) old new

module _ (crc : Crc) where
  -- The blocks with alternating sequence bits, and FIN.
  abbrev pub block_plan : Bool → List Bytes → List BftDatagram
  block_plan b [] = of_flags crc fin b ∷ []
  block_plan b (block ∷ blocks) = built crc no_flags block b ∷ block_plan (not b) blocks

  -- The datagrams that a file is sent as.
  abbrev pub plan : Bool → Bytes → Bytes → List BftDatagram
  plan b filename content =
      built crc syn filename b ∷ block_plan (not b) (read_blocks (length content) content)

module _ (crc : Crc) (limit : ℤ) where
  SentPlan : List BftDatagram → Client → List Round × Client → Type 0
  SentPlan ds s r = SentRuns ds s.sent r.1.sent

  after_wait :
      (P : List Round × Client → Type 0) (d : BftDatagram) (rounds : List Round) (s : Client)
      (f : List Round × Client → Result (List Round × Client))
      → ((r : List Round × Client) → Waited crc d rounds s r → Ensures P (f r))
      → Ensures P (send_and_wait crc limit d rounds s >>= f)
  after_wait P d rounds s f k =
      Ensures-bind P (send_and_wait crc limit d rounds s) f (Waited crc d rounds s)
        (Ensures-intro _ _ (λ r e. send_and_wait-Waited crc limit d rounds s e)) k

  Finishes : List Bytes → List Round × Client → Bool → Type 0
  Finishes blocks r b = Ensures (SentPlan (block_plan crc b blocks) r.1) (
      send_blocks crc limit blocks r >>= λ r'.
      send_and_wait crc limit (of_flags crc fin r'.1.curr_sqn) r'.0 r'.1)

  blocks_plan :
      (blocks : List Bytes) (r : List Round × Client)
      → All IsBlock blocks
      → Finishes blocks r r.1.curr_sqn
  unfolding send_blocks built_or_overrun SentPlan Finishes
  blocks_plan [] (rounds, s) h =
      Ensures-intro (SentPlan (block_plan crc s.curr_sqn []) s)
        (send_and_wait crc limit (of_flags crc fin s.curr_sqn) rounds s)
        (λ r' e. run_sent (send_and_wait-Waited crc limit _ rounds s e).resent none_sent)
  blocks_plan (block ∷ blocks) (rounds, s) (h, hs) =
      rw
        (
          of_range-some crc no_flags block s.curr_sqn h.1,
          >>=-assoc (send_and_wait crc limit (built crc no_flags block s.curr_sqn) rounds s)
              (send_blocks crc limit blocks)
              (λ r'. send_and_wait crc limit (of_flags crc fin r'.1.curr_sqn) r'.0 r'.1),
        )
        (after_wait (SentPlan (block_plan crc s.curr_sqn (block ∷ blocks)) s)
          (built crc no_flags block s.curr_sqn) rounds s _
          (λ r w.
            Ensures-mono (SentPlan (block_plan crc (not s.curr_sqn) blocks) r.1) _ _
              (λ r' q. run_sent w.resent q)
              (subst (Finishes blocks r) w.turned (blocks_plan blocks r hs))))

  -- An upload of a file whose name has at most 504 bytes, if it returns, has sent the datagrams
  -- of the file and nothing else: SYN with the name, the blocks of the content with alternating
  -- bits, FIN, each as often as it took, in this order.
  pub upload-SentRuns :
      (filename content : Bytes) (rounds : List Round) (s : Client) {r : List Round × Client}
      → length filename ≤ max_payload_size
      → upload crc limit filename content rounds s ≡ ok r
      → SentRuns (plan crc s.curr_sqn filename content) s.sent r.1.sent
  unfolding upload built_or_overrun SentPlan of_string Finishes
  upload-SentRuns filename content rounds s h =
      Ensures-ok (SentPlan (plan crc s.curr_sqn filename content) s) _ (
        rw (of_range-some crc syn filename s.curr_sqn h) (
          after_wait (SentPlan (plan crc s.curr_sqn filename content) s) _ rounds s _ (λ r w.
            Ensures-mono
              (SentPlan (block_plan crc (not s.curr_sqn) (read_blocks (length content) content))
                r.1)
              _ _ (λ r' q. run_sent w.resent q)
              (subst (Finishes (read_blocks (length content) content) r) w.turned
                (blocks_plan _ r (read_blocks-IsBlock (length content) content))))))
