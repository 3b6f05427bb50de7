-- ===== src/Bft/Server/Upload.antt =====
-- The server's branches against the description of an upload in Arrivals.
use rechnernetze.Base.{
  ℕ, ◌≡◌, refl, inl, inr, true, false, not, [], ◌++◌, append-nil, some, arith, take, ◌==◌, bool_eq,
  Bool-cases, Option-cases, if◌then◌else◌,
}
use rechnernetze.Bft.Flags.{no_flags, sqn, fin, has_flag, clear_flag}
use rechnernetze.Process.{Bytes, Ensures, Ensures-if, Ensures-mono, Address}
use rechnernetze.Bft.Datagram.{
  BftDatagram, get_payload, get_flags, get_sqn, check_integrity, is_syn, is_abr,
}
use rechnernetze.Bft.FileWriter.Laws.{Writes}
use rechnernetze.Bft.Server.{
  ClientData, World, Server, increment_sqn, store_payload, store_datagram, handle_valid_datagram,
  on_corrupt, on_syn, handle_syn, on_abr, on_regular, on_other, dispatch,
}
use rechnernetze.Bft.Server.Sound.{Stored, store_payload-Stored}
use rechnernetze.Bft.Server.Arrivals.{block, is_part, is_due, next_due, ends, Progress}

get_payload-take :
    (d : BftDatagram) (payload : Bytes)
    → get_payload d ≡ some payload
    → payload ≡ take d.payload_size d.payload
get_payload-take d payload e = ground arith

due-facts :
    (w : World) (d : BftDatagram) (a : Address) (c : ClientData)
    → is_due w c.address.s_addr c.current_sqn (d, a) ≡ true
    → (check_integrity w.crc d ≡ true)
      × (is_syn w.crc d ≡ false)
      × (is_abr w.crc d ≡ false)
      × ((a.s_addr == c.address.s_addr) ≡ true)
      × (bool_eq (get_sqn d) c.current_sqn ≡ true)
unfolding is_due is_part
due-facts w d a c due = ground arith

module _ (w : World) (d : BftDatagram) (a : Address) (c : ClientData) (content : Bytes) where
  kept :
      (s : Server) (n : ℕ)
      → s.current_client ≡ some (record c { n_duplicates = n })
      → Writes c.file_writer content s.host.files
      → Progress c.address c.file_writer.file_path c.current_sqn content s
  kept s n e v = record {
    client = record c { n_duplicates = n };
    is_current = e;
    same_address = refl;
    same_path = refl;
    sqn_due = refl;
    on_file = v;
  }

  module _ (s : Server) (e : s.current_client ≡ some c)
      (v : Writes c.file_writer content s.host.files) where
    on_corrupt-kept :
        Ensures
          (Progress c.address c.file_writer.file_path c.current_sqn content)
          (on_corrupt w a s)
    unfolding on_corrupt
    on_corrupt-kept = rw (e, on_corrupt) (kept _ c.n_duplicates e v)

    on_syn-kept :
        Ensures (Progress c.address c.file_writer.file_path c.current_sqn content) (on_syn w d a s)
    unfolding on_syn handle_syn
    on_syn-kept = rw (e, on_syn, handle_syn) (kept _ c.n_duplicates e v)

    on_abr-kept :
        (a.s_addr == c.address.s_addr) ≡ false
        → Ensures
            (Progress c.address c.file_writer.file_path c.current_sqn content)
            (on_abr w d a s)
    unfolding on_abr
    on_abr-kept other = rw (e, on_abr) (rw other (kept _ c.n_duplicates e v))

    on_regular-kept :
        bool_eq (get_sqn d) c.current_sqn ≡ false
        → Ensures
            (Progress c.address c.file_writer.file_path c.current_sqn content)
            (on_regular w d c s)
    unfolding on_regular
    on_regular-kept late = rw (late, on_regular) (kept _ _ refl v)

    on_other-kept :
        ((a.s_addr == c.address.s_addr) ≡ true → bool_eq (get_sqn d) c.current_sqn ≡ false)
        → Ensures
            (Progress c.address c.file_writer.file_path c.current_sqn content)
            (on_other w d a s)
    unfolding on_other
    on_other-kept late =
        rw (e, on_other)
          (Ensures-if (Progress c.address c.file_writer.file_path c.current_sqn content)
            (a.s_addr == c.address.s_addr) (on_regular w d c s) _ (λ h. on_regular-kept (late h))
            (λ _. kept _ c.n_duplicates e v))

    -- What is not due leaves the file and the bit as they are, unless it ends the upload.
    dispatch-kept :
        is_due w c.address.s_addr c.current_sqn (d, a) ≡ false
        → ends w c.address.s_addr c.current_sqn (d, a) ≡ false
        → Ensures
            (Progress c.address c.file_writer.file_path c.current_sqn content)
            (dispatch w d a s)
    unfolding dispatch is_due is_part ends
    dispatch-kept nd ne =
        Ensures-if _ (not (check_integrity w.crc d)) (on_corrupt w a s) _ (λ _. on_corrupt-kept)
          (λ i.
            Ensures-if _ (is_syn w.crc d) (on_syn w d a s) _ (λ _. on_syn-kept)
              (λ y.
                Ensures-if _ (is_abr w.crc d) (on_abr w d a s) (on_other w d a s)
                  (λ b. on_abr-kept (ground arith)) (λ b. on_other-kept (λ h. ground arith))))

    stored_datagram :
        (s1 : Server)
        → s1.host.files ≡ s.host.files
        → Ensures
            (Progress c.address c.file_writer.file_path
              (not c.current_sqn)
              (content ++ take d.payload_size d.payload))
            (store_datagram d (increment_sqn c) s1)
    unfolding store_datagram
    stored_datagram s1 same = elim (Option-cases (get_payload d)) [
      | inl nothing ↦ rw (nothing, store_datagram) tt
      | inr (payload, there) ↦
          rw (there, store_datagram, ← get_payload-take d payload there)
            (Ensures-mono (Stored content payload (increment_sqn c) s1) _
              (store_payload payload (increment_sqn c) s1)
              (λ s' (writer, current, wrote, _). record {
                client = record (increment_sqn c) { file_writer = writer };
                is_current = current;
                same_address = refl;
                same_path = wrote.1;
                sqn_due = refl;
                on_file = wrote.0;
              })
              (store_payload-Stored payload content (increment_sqn c) s1 (rw same v)))
    ]

    handled :
        (s1 : Server)
        → s1.host.files ≡ s.host.files
        → has_flag (get_flags d) fin ≡ false
        → Ensures
            (Progress c.address c.file_writer.file_path (not c.current_sqn) (content ++ block d))
            (handle_valid_datagram d (increment_sqn c) s1)
    unfolding handle_valid_datagram block
    handled s1 same nf = elim (Bool-cases (clear_flag (get_flags d) sqn == no_flags)) [
      | inl plain ↦ rw (nf, plain, handle_valid_datagram, block) (stored_datagram s1 same)
      | inr other ↦
          rw (nf, other, handle_valid_datagram, block)
            (record {
              client = increment_sqn c;
              is_current = refl;
              same_address = refl;
              same_path = refl;
              sqn_due = refl;
              on_file = rw (append-nil, same) v;
            })
    ]

    -- What is due goes to the end of the file, and the bit is turned.
    dispatch-due :
        is_due w c.address.s_addr c.current_sqn (d, a) ≡ true
        → has_flag (get_flags d) fin ≡ false
        → Ensures
            (Progress c.address c.file_writer.file_path (not c.current_sqn) (content ++ block d))
            (dispatch w d a s)
    unfolding dispatch on_other on_regular
    dispatch-due due nf =
        let (i, y, b, h, m) = due-facts w d a c due in
        rw (i, y, b, dispatch) (rw (e, on_other) (rw (h, m, on_regular) (handled _ refl nf)))

    -- One arrival, due or not.
    pub dispatch-Progress :
        ends w c.address.s_addr c.current_sqn (d, a) ≡ false
        → Ensures
            (Progress c.address c.file_writer.file_path
              (next_due w c.address.s_addr c.current_sqn (d, a))
              (content ++ (if is_due w c.address.s_addr c.current_sqn (d, a) then block d else [])))
            (dispatch w d a s)
    unfolding next_due ends
    dispatch-Progress ne = elim (Bool-cases (is_due w c.address.s_addr c.current_sqn (d, a))) [
      | inl due ↦ rw due (dispatch-due due (rw due at ne))
      | inr not_due ↦ rw (not_due, append-nil) (dispatch-kept not_due ne)
    ]
