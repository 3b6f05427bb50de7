-- ===== src/Bft/Server/Arrivals.antt =====
-- An upload as the packets describe it, without a file and a writer: which datagrams of a client are
-- due, which bytes they carry, and which arrival ends it.
use rechnernetze.Base.{
  ℕ, ◌≡◌, Bool, false, not, ◌&&◌, List, [], ◌∷◌, ◌++◌, some, take, ◌==◌, bool_eq, if◌then◌else◌,
}
use rechnernetze.Bft.Flags.{no_flags, sqn, fin, has_flag, clear_flag}
use rechnernetze.Process.{Bytes, Result, ok, stop, Address, RecvFrom}
use rechnernetze.Bft.Datagram.{
  BftDatagram, default_datagram, get_flags, get_sqn, check_integrity, is_syn, is_abr, Received,
  message, would_block, receive,
}
use rechnernetze.Bft.FileWriter.Laws.{Writes}
use rechnernetze.Bft.Server.{ClientData, World, Server, zero_address}

-- The datagram of a round and its sender: what `receive` filled in, or the fresh objects.
unfoldable pub arrival : Result Received → BftDatagram × Address
arrival (ok (message n sender d)) = (d, sender)
arrival (ok would_block) = (default_datagram, zero_address)
arrival (stop _) = (default_datagram, zero_address)

unfoldable pub arrived : RecvFrom → BftDatagram × Address
unfolding arrival
arrived event = arrival (receive default_datagram event)

-- The bytes that a datagram carries: those of one without a flag but SQN.
unfoldable pub block : BftDatagram → Bytes
block d = if clear_flag (get_flags d) sqn == no_flags then take d.payload_size d.payload else []

module _ (w : World) (host : ℕ) where
  -- An intact datagram of the client that is neither SYN nor ABR.
  unfoldable pub is_part : BftDatagram × Address → Bool
  is_part (d, sender) =
      check_integrity w.crc d
      && (not (is_syn w.crc d) && (not (is_abr w.crc d) && sender.s_addr == host))

  -- One that comes with the sequence bit that is due.
  unfoldable pub is_due : Bool → BftDatagram × Address → Bool
  unfolding is_part
  is_due due (d, sender) = is_part (d, sender) && bool_eq (get_sqn d) due

  unfoldable pub next_due : Bool → BftDatagram × Address → Bool
  unfolding is_due
  next_due due p = if is_due due p then not due else due

  -- The bytes of an upload: of the datagrams that are due, in order.
  unfoldable pub uploaded : Bool → List (BftDatagram × Address) → Bytes
  unfolding next_due block
  uploaded due [] = []
  uploaded due (p ∷ ps) = (if is_due due p then block p.0 else []) ++ uploaded (next_due due p) ps

  -- The bit that is due afterwards.
  unfoldable pub dues : Bool → List (BftDatagram × Address) → Bool
  unfolding next_due
  dues due [] = due
  dues due (p ∷ ps) = dues (next_due due p) ps

  -- An arrival that ends the upload: FIN that is due, or ABR from the client's host.
  unfoldable pub ends : Bool → BftDatagram × Address → Bool
  unfolding is_due
  ends due (d, sender) =
      if is_due due (d, sender)
      then has_flag (get_flags d) fin
      else check_integrity w.crc d
        && (not (is_syn w.crc d) && (is_abr w.crc d && sender.s_addr == host))

  abbrev pub NoneEnds : Bool → List (BftDatagram × Address) → Type 0
  NoneEnds due [] = Unit {0}
  NoneEnds due (p ∷ ps) = (ends due p ≡ false) × NoneEnds (next_due due p) ps

-- The server has a client from the address, with the content so far in the file at the path.
pub record Progress (owner : Address) (path : Bytes) (due : Bool) (content : Bytes) (s : Server)
    : Type 0 where
  pub client : ClientData
  pub is_current : s.current_client ≡ some client
  pub same_address : client.address ≡ owner
  pub same_path : client.file_writer.file_path ≡ path
  pub sqn_due : client.current_sqn ≡ due
  pub on_file : Writes client.file_writer content s.host.files
