-- ===== src/Bft/Server/Sound.antt =====
-- What one round of the server's loop does.
use rechnernetze.Base.{
  ◌≡◌, ◌≢◌, inl, inr, refl, sym, ◌∙◌, subst, true, false, not, [], ◌++◌, Option, none, some, arith,
  ◌==◌, bool_eq, Option-cases, if◌then◌else◌,
}
use rechnernetze.Bft.Flags.{no_flags, sqn, fin, has_flag, clear_flag}
use rechnernetze.Process.{
  Bytes, ok, ◌>>=◌, Ensures, Ensures-ok, Ensures-bind, Ensures-intro, Ensures-if, Ensures-mono,
  Result-cases, Address, RecvFrom,
}
use rechnernetze.Bft.Datagram.{
  BftDatagram, default_datagram, get_payload, get_flags, get_sqn, check_integrity, is_syn, is_abr,
  create_ack, message, would_block, receive,
}
use rechnernetze.Bft.Files.{Files, exists, remove, join, put_same, put_other}
use rechnernetze.Bft.FileWriter
use rechnernetze.Bft.FileWriter.{FileWriter, Host, now, tick}
use rechnernetze.Bft.FileWriter.Laws.{Writes, Written, Fresh, write_bytes-Written, create-Written}
use rechnernetze.Bft.Server.{
  ClientData, World, Server, increment_sqn, send_to, same_host, zero_address, open_upload,
  handle_syn, finish_upload, store_payload, store_datagram, handle_valid_datagram, on_corrupt,
  on_syn, on_abr, on_regular, on_other, answer_syn, dispatch, on_received, step,
}

-- The client's file is there, as long as the writer's count says, and open.
abbrev pub ClientHolds : Files → Option ClientData → Type 0
ClientHolds f none = Unit {0}
ClientHolds f (some c) = (content : Bytes) × Writes c.file_writer content f

abbrev pub IsSound : Server → Type 0
IsSound s = ClientHolds s.host.files s.current_client

cleared-files :
    (path : Bytes) (h : Host)
    → let cleared = if exists path h.files then record h { files = remove path h.files } else h in
      (cleared.files path ≡ none) × ((p : Bytes) → p ≢ path → cleared.files p ≡ h.files p)
unfolding exists remove
cleared-files path h = elim (Option-cases (h.files path)) [
  | inl e ↦ rw (e, exists) (e, λ p ne. refl)
  | inr (old, e) ↦
      rw (e, exists) (put_same path none h.files, λ p ne. put_other path p none h.files ne)
]

-- An upload starts with an empty file at its path, whatever was there, and the other files as they were.
abbrev pub Opened : Bytes → Address → Host → ClientData × Host → Type 0
Opened path a h r =
    Writes r.0.file_writer [] r.1.files
    × (r.0.file_writer.file_path ≡ path)
    × (r.0.address ≡ a)
    × (r.0.current_sqn ≡ false)
    × ((p : Bytes) → p ≢ path → r.1.files p ≡ h.files p)

pub open_upload-Opened :
    (w : World) (path : Bytes) (a : Address) (h : Host)
    → Ensures (Opened path a h) (open_upload w path a h)
unfolding open_upload
open_upload-Opened w path a h =
    let cleared : Host =
      if exists path h.files then record h { files = remove path h.files } else h in
    let (gone, others) = cleared-files path h in
    Ensures-bind (Opened path a h) (FileWriter.create w.openable path cleared) _
      (Fresh path cleared)
      (Ensures-intro _ _ (λ r e. create-Written w.openable path cleared gone e))
      (λ r fresh. (fresh.0, fresh.1, refl, refl, λ p ne. fresh.2 p ne ∙ others p ne))

pub finish_upload-closes :
    (c : ClientData) (s : Server)
    → Ensures
        (λ s'. (s'.current_client ≡ none) × (s'.host.files ≡ s.host.files) × (s'.sent ≡ s.sent))
        (finish_upload c s)
unfolding finish_upload FileWriter.log_bytes_written
finish_upload-closes c s = Ensures-intro _ (finish_upload c s) (λ s' e. ground arith)

-- A stored payload is appended to the client's file; the rest of the client and the other files stay.
abbrev pub Stored : Bytes → Bytes → ClientData → Server → Server → Type 0
Stored content payload c s s' =
    (writer : FileWriter) × (s'.current_client ≡ some (record c { file_writer = writer }))
    × Written c.file_writer s.host (content ++ payload) (writer, s'.host)
    × (s'.sent ≡ s.sent)

pub store_payload-Stored :
    (payload content : Bytes) (c : ClientData) (s : Server)
    → Writes c.file_writer content s.host.files
    → Ensures (Stored content payload c s) (store_payload payload c s)
unfolding store_payload
store_payload-Stored payload content c s v =
    Ensures-bind (Stored content payload c s) (FileWriter.write_bytes payload c.file_writer s.host)
      _ (Written c.file_writer s.host (content ++ payload))
      (Ensures-intro _ _ (λ r e. write_bytes-Written payload content c.file_writer s.host v e))
      (λ r w. (r.0, refl, w, refl))

IsSound-none : (s : Server) → s.current_client ≡ none → IsSound s
IsSound-none s e = subst (ClientHolds s.host.files) (sym e) tt

IsSound-some :
    (s : Server) (c : ClientData)
    → s.current_client ≡ some c
    → ClientHolds s.host.files (some c)
    → IsSound s
IsSound-some s c e h = subst (ClientHolds s.host.files) (sym e) h

store_datagram-IsSound :
    (d : BftDatagram) (c : ClientData) (s : Server)
    → ClientHolds s.host.files (some c)
    → Ensures IsSound (store_datagram d c s)
unfolding store_datagram
store_datagram-IsSound d c s (content, v) = elim (Option-cases (get_payload d)) [
  | inl e ↦ rw (e, store_datagram) tt
  | inr (payload, e) ↦
      rw (e, store_datagram)
        (Ensures-mono (Stored content payload c s) IsSound (store_payload payload c s)
          (λ s' (writer, kept, wrote, _). IsSound-some s' _ kept (content ++ payload, wrote.0))
          (store_payload-Stored payload content c s v))
]

handle_valid_datagram-IsSound :
    (d : BftDatagram) (c : ClientData) (s : Server)
    → ClientHolds s.host.files (some c)
    → Ensures IsSound (handle_valid_datagram d c s)
unfolding handle_valid_datagram
handle_valid_datagram-IsSound d c s v =
    Ensures-if IsSound (has_flag (get_flags d) fin) (finish_upload c s) _
      (λ _.
        Ensures-mono _ IsSound (finish_upload c s) (λ s' closed. IsSound-none s' closed.0)
          (finish_upload-closes c s))
      (λ _.
        Ensures-if IsSound (clear_flag (get_flags d) sqn == no_flags) (store_datagram d c s)
          (ok (record s { current_client = some c })) (λ _. store_datagram-IsSound d c s v)
          (λ _. v))

module _ (w : World) where
  on_corrupt-IsSound : (a : Address) (s : Server) → IsSound s → Ensures IsSound (on_corrupt w a s)
  unfolding on_corrupt
  on_corrupt-IsSound a s v = elim (Option-cases s.current_client) [
    | inl e ↦ rw (e, on_corrupt) tt
    | inr (c, e) ↦ rw (e, on_corrupt) v
  ]

  on_syn-IsSound :
      (d : BftDatagram) (a : Address) (s : Server) → IsSound s → Ensures IsSound (on_syn w d a s)
  unfolding on_syn handle_syn
  on_syn-IsSound d a s v = elim (Option-cases s.current_client) [
    | inr (c, e) ↦ rw (e, on_syn, handle_syn) v
    | inl e ↦ elim (Option-cases (get_payload d)) [
      | inl e' ↦ rw (e, e', on_syn, handle_syn) tt
      | inr (name, e') ↦ rw (e, e', on_syn, handle_syn) (started name)
    ]
  ]
    where
      started :
          (name : Bytes)
          → Ensures IsSound (
              open_upload w (join w.directory name) a s.host
              >>= (λ r. ok (record s { current_client = some r.0; host = r.1 }, true))
              >>= answer_syn w d a)
      started name = elim (Result-cases (open_upload w (join w.directory name) a s.host)) [
        | inl (r, e) ↦
            rw e ([], (Ensures-ok _ _ (open_upload-Opened w (join w.directory name) a s.host) e).0)
        | inr (why, e) ↦ rw e tt
      ]

  on_abr-IsSound :
      (d : BftDatagram) (a : Address) (s : Server) → IsSound s → Ensures IsSound (on_abr w d a s)
  unfolding on_abr
  on_abr-IsSound d a s v = elim (Option-cases s.current_client) [
    | inl e ↦ rw (e, on_abr) v
    | inr (c, e) ↦
        rw (e, on_abr) (Ensures-if IsSound (same_host a c.address) _ _ (λ _. tt) (λ _. v))
  ]

  on_regular-IsSound :
      (d : BftDatagram) (c : ClientData) (s : Server)
      → ClientHolds s.host.files (some c)
      → Ensures IsSound (on_regular w d c s)
  unfolding on_regular
  on_regular-IsSound d c s v =
      Ensures-if IsSound (bool_eq (get_sqn d) c.current_sqn)
        (handle_valid_datagram d (increment_sqn c) (send_to c.address (create_ack w.crc d) s)) _
        (λ _.
          handle_valid_datagram-IsSound d (increment_sqn c)
            (send_to c.address (create_ack w.crc d) s) v)
        (λ _. v)

  on_other-IsSound :
      (d : BftDatagram) (a : Address) (s : Server) → IsSound s → Ensures IsSound (on_other w d a s)
  unfolding on_other
  on_other-IsSound d a s v = elim (Option-cases s.current_client) [
    | inl e ↦ rw (e, on_other) v
    | inr (c, e) ↦
        rw (e, on_other)
          (Ensures-if IsSound (same_host a c.address) (on_regular w d c s) _
            (λ _. on_regular-IsSound d c s (subst (ClientHolds s.host.files) e v)) (λ _. v))
  ]

  dispatch-IsSound :
      (d : BftDatagram) (a : Address) (s : Server) → IsSound s → Ensures IsSound (dispatch w d a s)
  unfolding dispatch
  dispatch-IsSound d a s v =
      Ensures-if IsSound (not (check_integrity w.crc d)) (on_corrupt w a s) _
        (λ _. on_corrupt-IsSound a s v)
        (λ _.
          Ensures-if IsSound (is_syn w.crc d) (on_syn w d a s) _ (λ _. on_syn-IsSound d a s v)
            (λ _.
              Ensures-if IsSound (is_abr w.crc d) (on_abr w d a s) (on_other w d a s)
                (λ _. on_abr-IsSound d a s v) (λ _. on_other-IsSound d a s v)))

  step-Ensures : (s : Server) (event : RecvFrom) → IsSound s → Ensures IsSound (step w s event)
  unfolding step on_received
  step-Ensures s event v =
      Ensures-bind IsSound (receive default_datagram event) (λ r. on_received w r s) (λ _. Unit {0})
        (Ensures-intro _ _ (λ _ _. tt))
        (λ r _. elim r as (λ r. Ensures IsSound (on_received w r s)) [
          | message n a d ↦ dispatch-IsSound d a s v
          | would_block ↦ dispatch-IsSound default_datagram zero_address s v
        ])

  -- Whatever arrives, a round that returns keeps the server sound: the file of the current client is
  -- there and open, and the count of its writer is its length.
  pub step-IsSound :
      (s : Server) (event : RecvFrom) {s' : Server}
      → IsSound s
      → step w s event ≡ ok s'
      → IsSound s'
  step-IsSound s event v e = Ensures-ok IsSound (step w s event) (step-Ensures s event v) e
