-- ===== src/Bft/Server/Replies.antt =====
-- How the server answers: what it refuses, what it acknowledges, and how an upload begins and ends.
use rechnernetze.Base.{
  ◌≡◌, ◌≢◌, ◌⊎◌, refl, ap, inl, inr, true, false, not, [], ◌∷◌, none, some, arith, Option-cases,
  if◌then◌else◌,
}
use rechnernetze.Bft.Flags.{agn}
use rechnernetze.Process.{Bytes, ok, stop, null_dereference, Ensures-ok, Returns-bind, Address}
use rechnernetze.Bft.Datagram.{
  BftDatagram, get_payload, of_flags, abr_datagram, check_integrity, is_syn, is_abr, create_ack,
  send,
}
use rechnernetze.Bft.Files.{exists, remove, join}
use rechnernetze.Bft.FileWriter
use rechnernetze.Bft.FileWriter.{FileWriter, Host, now, tick, elapsed_ms}
use rechnernetze.Bft.Server.{
  ClientData, World, Server, increment_sqn, send_to, same_host, open_upload, handle_syn, on_corrupt,
  on_syn, answer_syn, on_other, dispatch,
}
use rechnernetze.Bft.Server.Sound.{open_upload-Opened}
use rechnernetze.Bft.Server.Arrivals.{Progress}

-- No client, or one of another host.
abbrev pub IsStranger : Address → Server → Type 0
IsStranger a s = (c : ClientData) → s.current_client ≡ some c → same_host a c.address ≡ false

module _ (w : World) (d : BftDatagram) (a : Address) (s : Server) where
  -- A damaged datagram is answered by AGN with the bit that is due, and nothing else happens; if there
  -- is no client the server reads through a null pointer.
  pub dispatch_damaged :
      check_integrity w.crc d ≡ false
      → ((s.current_client ≡ none) × (dispatch w d a s ≡ stop null_dereference))
        ⊎ ((c : ClientData) × (s.current_client ≡ some c)
            × (dispatch w d a s ≡ ok (send_to a (of_flags w.crc agn c.current_sqn) s)))
  unfolding dispatch on_corrupt
  dispatch_damaged damaged = elim (Option-cases s.current_client) [
    | inl e ↦ inl (e, ground arith)
    | inr (c, e) ↦ inr (c, e, ground arith)
  ]

  -- While there is a client every SYN is refused by ABR and changes nothing, also the client's own
  -- SYN that was sent again because its acknowledgement was lost.
  pub dispatch_busy :
      (c : ClientData)
      → s.current_client ≡ some c
      → check_integrity w.crc d ≡ true
      → is_syn w.crc d ≡ true
      → dispatch w d a s ≡ ok (send_to a (abr_datagram w.crc) s)
  unfolding dispatch on_syn handle_syn answer_syn
  dispatch_busy c e i y = ground arith

  -- An intact datagram that is neither SYN nor ABR is refused by ABR and changes nothing if there is no
  -- client or the sender is not its host, also the FIN that a client sends again because the
  -- acknowledgement of its FIN was lost.
  pub dispatch_stranger :
      IsStranger a s
      → check_integrity w.crc d ≡ true
      → is_syn w.crc d ≡ false
      → is_abr w.crc d ≡ false
      → dispatch w d a s ≡ ok (send_to a (abr_datagram w.crc) s)
  unfolding dispatch on_other
  dispatch_stranger stranger i y b = elim (Option-cases s.current_client) [
    | inl e ↦ ground arith
    | inr (c, e) ↦ ground (arith, stranger c e)
  ]

-- The state in which an upload of the named file has begun.
pub record Begun (w : World) (d : BftDatagram) (name : Bytes) (a : Address) (s s' : Server)
    : Type 0 where
  pub progress : Progress a (join w.directory name) true [] s'
  pub others : (p : Bytes) → p ≢ join w.directory name → s'.host.files p ≡ s.host.files p
  pub reply : s'.sent ≡ (a, send (create_ack w.crc d)) ∷ s.sent

module _ (w : World) (d : BftDatagram) (a : Address) (s : Server) where
  begin :
      (name : Bytes) (r : ClientData × Host)
      → s.current_client ≡ none
      → get_payload d ≡ some name
      → open_upload w (join w.directory name) a s.host ≡ ok r
      → on_syn w d a s
        ≡ ok (record s {
          current_client = some (increment_sqn r.0);
          host = r.1;
          sent = (a, send (create_ack w.crc d)) ∷ s.sent;
        })
  unfolding on_syn handle_syn answer_syn
  begin name r e there opened = ground arith

  open_upload-returns :
      (path : Bytes)
      → w.openable path ≡ true
      → (r : ClientData × Host) × (open_upload w path a s.host ≡ ok r)
  unfolding open_upload FileWriter.create
  open_upload-returns path openable =
      let cleared : Host =
        if exists path s.host.files
        then record s.host { files = remove path s.host.files }
        else s.host in
      let (r, e, _) =
        Returns-bind (λ _. Unit {0}) (FileWriter.create w.openable path cleared) _ (λ _. Unit {0})
          (FileWriter.opened_writer path cleared, rw (openable, FileWriter.create), tt)
          (λ r _. (_, refl, tt)) in
      (r, e)

  -- The first SYN, whose name the system opens, makes the sender the client: the file of that name is
  -- empty, the other files are as they were, the bit that is due is set, and the SYN is acknowledged.
  pub dispatch_syn :
      (name : Bytes)
      → s.current_client ≡ none
      → check_integrity w.crc d ≡ true
      → is_syn w.crc d ≡ true
      → get_payload d ≡ some name
      → w.openable (join w.directory name) ≡ true
      → (s' : Server) × (dispatch w d a s ≡ ok s') × Begun w d name a s s'
  unfolding dispatch
  dispatch_syn name e i y there openable =
      let (r, opened) = open_upload-returns (join w.directory name) openable in
      let (on_file, path, address, bit, others) =
        Ensures-ok _ _ (open_upload-Opened w (join w.directory name) a s.host) opened in
      (
        record s {
          current_client = some (increment_sqn r.0);
          host = r.1;
          sent = (a, send (create_ack w.crc d)) ∷ s.sent;
        },
        rw (i, y) (begin name r e there opened),
        record {
          progress = record {
            client = increment_sqn r.0;
            is_current = refl;
            same_address = address;
            same_path = path;
            sqn_due = ap not bit;
            on_file = on_file;
          };
          others = others;
          reply = refl;
        },
      )
