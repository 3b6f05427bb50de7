-- ===== src/Bft/Transfer.antt =====
-- Both programs together: the datagrams that the client sends a file as, on a network that loses,
-- repeats and damages them and mixes in packets of others, and the file that the server writes.
mod Examples
use rechnernetze.Base.{
  ℕ, zero, suc, ◌+◌, ◌≤◌, ◌≡◌, refl, sym, ◌∙◌, ap, subst, inl, inr, Bool, true, false, not, ◌&&◌,
  List, [], ◌∷◌, ◌++◌, map, take, length, arith, ◌==◌, bool_eq, bool_eq_refl, Bool-cases,
  if◌then◌else◌, All, take-append,
}
use rechnernetze.Bft.Flags.{no_flags, sqn, fin, syn, has_flag, clear_flag, or_flags}
use rechnernetze.Process.{Bytes, ok, Address, RecvFrom}
use rechnernetze.Bft.Datagram.{
  BftDatagram, get_flags, get_sqn, check_integrity, is_syn, is_abr, syn_datagram, abr_datagram,
  of_flags, max_payload_size,
}
use rechnernetze.Bft.Datagram.Checks.{built, built-check}
use rechnernetze.Bft.Client.{read_blocks}
use rechnernetze.Bft.Client.Blocks.{concat, IsBlock, read_blocks-concat, read_blocks-IsBlock}
use rechnernetze.Bft.Server.{World, Server, run}
use rechnernetze.Bft.Server.Arrivals.{
  arrived, block, is_part, is_due, next_due, uploaded, dues, ends, NoneEnds, Progress,
}
use rechnernetze.Bft.Server.Running.{Steady, AllTaken, run-uploaded}

turned_bit : (b : Bool) → bool_eq b (not b) ≡ false
turned_bit true = refl
turned_bit false = refl

module _ (w : World) where
  -- The datagrams of blocks, with alternating bits.
  abbrev pub blocks_sent : Bool → List Bytes → List BftDatagram
  blocks_sent b [] = []
  blocks_sent b (text ∷ texts) = built w.crc no_flags text b ∷ blocks_sent (not b) texts

module _ (w : World) (host : ℕ) where
  -- How datagrams that are sent one after the other arrive, the last one before them being `last`:
  -- each at least once, again while none has come after it, and between packets that are no datagram
  -- of the upload.
  pub data Delivered : BftDatagram → List BftDatagram → List (BftDatagram × Address) → Type 0 where
    all_there : {last : BftDatagram} → Delivered last [] []
    fresh :
        {last d : BftDatagram} {ds : List BftDatagram} {ps : List (BftDatagram × Address)}
        (a : Address)
        → (a.s_addr == host) ≡ true
        → Delivered d ds ps
        → Delivered last (d ∷ ds) ((d, a) ∷ ps)
    repeated :
        {last : BftDatagram} {ds : List BftDatagram} {ps : List (BftDatagram × Address)}
        (a : Address)
        → Delivered last ds ps
        → Delivered last ds ((last, a) ∷ ps)
    stray :
        {last : BftDatagram} {ds : List BftDatagram} {ps : List (BftDatagram × Address)}
        (p : BftDatagram × Address)
        → is_part w host p ≡ false
        → (check_integrity w.crc p.0 && (is_abr w.crc p.0 && p.1.s_addr == host)) ≡ false
        → Delivered last ds ps
        → Delivered last ds (p ∷ ps)

  -- A datagram that does nothing when it comes while the bit is due.
  abbrev pub IsPast : Bool → BftDatagram → Type 0
  IsPast due d =
      (a : Address) → (is_due w host due (d, a) ≡ false) × (ends w host due (d, a) ≡ false)

  pub stray-IsPast :
      (due : Bool) (p : BftDatagram × Address)
      → is_part w host p ≡ false
      → (check_integrity w.crc p.0 && (is_abr w.crc p.0 && p.1.s_addr == host)) ≡ false
      → (is_due w host due p ≡ false) × (ends w host due p ≡ false)
  unfolding is_due ends
  stray-IsPast due (d, a) h k = ground arith

  module _ (text : Bytes) (small : length text ≤ max_payload_size) where
    pub built-flags :
        (b : Bool)
        → (is_syn w.crc (built w.crc no_flags text b) ≡ false)
          × (is_abr w.crc (built w.crc no_flags text b) ≡ false)
          × (get_sqn (built w.crc no_flags text b) ≡ b)
          × (has_flag (get_flags (built w.crc no_flags text b)) fin ≡ false)
          × ((clear_flag (get_flags (built w.crc no_flags text b)) sqn == no_flags) ≡ true)
    unfolding built is_syn is_abr syn_datagram abr_datagram of_flags or_flags has_flag clear_flag
    built-flags true = (refl, refl, refl, refl, refl)
    built-flags false = (refl, refl, refl, refl, refl)

    pub built-block : (b : Bool) → block (built w.crc no_flags text b) ≡ text
    unfolding block
    built-block b =
        rw ((built-flags b).4, block) (unfold built in take-append (length text) text _ refl)

    pub built-due :
        (b : Bool) (a : Address)
        → (a.s_addr == host) ≡ true
        → (is_due w host b (built w.crc no_flags text b, a) ≡ true)
          × (ends w host b (built w.crc no_flags text b, a) ≡ false)
    unfolding is_due is_part ends
    built-due b a h =
        let due : is_due w host b (built w.crc no_flags text b, a) ≡ true = rw (
          built-check w.crc no_flags text b small,
          (built-flags b).0,
          (built-flags b).1,
          (built-flags b).2,
          bool_eq_refl b,
          h,
        ) in
        (due, rw (due, (built-flags b).3))

    pub built-IsPast : (b : Bool) → IsPast (not b) (built w.crc no_flags text b)
    unfolding is_due is_part ends
    built-IsPast b a =
        let late : is_due w host (not b) (built w.crc no_flags text b, a) ≡ false =
          rw ((built-flags b).2) (ground (arith, turned_bit b)) in
        (late, rw (late, (built-flags b).0, (built-flags b).1) (ground arith))

  -- What an arrival leaves to show, in terms of the rest.
  module _ (b : Bool) (p : BftDatagram × Address) (ps : List (BftDatagram × Address)) where
    past :
        {content : Bytes}
        → (is_due w host b p ≡ false) × (ends w host b p ≡ false)
        → NoneEnds w host b ps × (uploaded w host b ps ≡ content)
        → NoneEnds w host b (p ∷ ps) × (uploaded w host b (p ∷ ps) ≡ content)
    unfolding uploaded next_due
    past (late, still) (rest, e) = rw (late) ((still, rest), e)

    taken :
        {content : Bytes}
        → (is_due w host b p ≡ true) × (ends w host b p ≡ false)
        → NoneEnds w host (not b) ps × (uploaded w host (not b) ps ≡ content)
        → NoneEnds w host b (p ∷ ps) × (uploaded w host b (p ∷ ps) ≡ block p.0 ++ content)
    unfolding uploaded next_due
    taken (due, still) (rest, e) = rw (due) ((still, rest), ap (◌++◌ (block p.0)) e)

  delivered :
      (b : Bool) (texts : List Bytes) (last : BftDatagram) (ps : List (BftDatagram × Address))
      → All IsBlock texts
      → IsPast b last
      → Delivered last (blocks_sent w b texts) ps
      → NoneEnds w host b ps × (uploaded w host b ps ≡ concat texts)
  unfolding uploaded
  delivered b [] last [] h old all_there = (tt, refl)
  delivered b [] last (_ ∷ ps) h old (repeated a more) =
      past b (last, a) ps (old a) (delivered b [] last ps h old more)
  delivered b [] last (_ ∷ ps) h old (stray p not_part not_abr more) =
      past b p ps (stray-IsPast b p not_part not_abr) (delivered b [] last ps h old more)
  delivered b (text ∷ texts) last [] h old sent = elim sent [ ]
  delivered b (text ∷ texts) last (_ ∷ ps) h old (repeated a more) =
      past b (last, a) ps (old a) (delivered b (text ∷ texts) last ps h old more)
  delivered b (text ∷ texts) last (_ ∷ ps) h old (stray p not_part not_abr more) =
      past b p ps (stray-IsPast b p not_part not_abr)
        (delivered b (text ∷ texts) last ps h old more)
  delivered b (text ∷ texts) last (_ ∷ ps) (h, hs) old (fresh a from more) =
      subst
        (λ t.
          NoneEnds w host b ((built w.crc no_flags text b, a) ∷ ps)
          × (uploaded w host b ((built w.crc no_flags text b, a) ∷ ps) ≡ t ++ concat texts))
        (built-block text h.1 b)
        (taken b (built w.crc no_flags text b, a) ps (built-due text h.1 b a from)
          (delivered (not b) texts (built w.crc no_flags text b) ps hs (built-IsPast text h.1 b)
            more))

module _ (w : World) where
  syn-IsPast :
      (host : ℕ) (b : Bool) (filename : Bytes) → IsPast w host b (built w.crc syn filename false)
  unfolding is_due is_part ends built is_syn syn_datagram of_flags or_flags has_flag
  syn-IsPast host b filename a = (ground arith, ground arith)

  -- Let the server have begun an upload and have the set bit due, its clock not run back, and
  -- each packet be one that `receive` takes. When the blocks of a file arrive from the client's
  -- host as the client sends them one after the other, each at least once, again while none has
  -- come after it, and between packets that are neither datagrams of the upload nor ABR of the
  -- client's host, the server takes every packet, and then the client's file holds the content.
  pub transfer :
      (owner : Address) (path filename content : Bytes) (s : Server) (events : List RecvFrom)
      → Progress owner path true [] s
      → Steady s.host
      → AllTaken events
      → Delivered w owner.s_addr
          (built w.crc syn filename false)
          (blocks_sent w true (read_blocks (length content) content))
          (map arrived events)
      → (s' : Server) × (run w s events ≡ ok s')
        × Progress owner path (dues w owner.s_addr true (map arrived events)) content s'
  transfer owner path filename content s events p steady all sent =
      let (going, e) =
        delivered w owner.s_addr true (read_blocks (length content) content) _ (map arrived events)
          (read_blocks-IsBlock (length content) content) (syn-IsPast owner.s_addr true filename)
          sent in
      let (s', ran, after) = run-uploaded w owner path [] true s events p steady all going in
      (
        s',
        ran,
        subst (λ t. Progress owner path (dues w owner.s_addr true (map arrived events)) t s')
            (e ∙ read_blocks-concat (length content) content (omega arith)) after,
      )
