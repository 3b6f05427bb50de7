-- ===== src/Bft/Session.antt =====
-- A datagram that the client sends again because the server's acknowledgement of it was lost, by the loop
-- of bft_server/main.cpp and `judge` of bft_client/main.cpp.
mod Examples
use rechnernetze.Base.{
  ℕ, ◌≤◌, ◌≡◌, ◌≢◌, inl, inr, bool_eq, bool_eq_refl, refl, sym, ◌∙◌, ap, Bool, true, false, List,
  [], ◌∷◌, none, some, arith, length, take-append, ==_refl, le→leb,
}
use rechnernetze.Process.{Bytes, ok, Address, packet, Crc}
use rechnernetze.Bft.Flags.{syn, fin, abr, has_flag, or_flags}
use rechnernetze.Bft.Datagram.{
  BftDatagram, default_datagram, check_integrity, is_syn, is_abr, get_payload, get_flags, get_sqn,
  of_flags, abr_datagram, syn_datagram, create_ack, calc_checksum, zero_payload, message, receive,
  send, size, max_payload_size,
}
use rechnernetze.Bft.Datagram.Image.{IsFormed, receive-send}
use rechnernetze.Bft.Datagram.Checks.{built, built-check, built-IsFormed, add_sqn-bound}
use rechnernetze.Bft.Client.{Verdict, busy, judge}
use rechnernetze.Bft.Files.{join}
use rechnernetze.Bft.Server.{World, Server, send_to, dispatch, on_received, step}
use rechnernetze.Bft.Server.Replies.{Begun, dispatch_syn, dispatch_busy, dispatch_stranger}
use rechnernetze.Bft.Server.Arrivals.{Progress}
use rechnernetze.Bft.Server.Closing.{IsRegular, dispatch-fin}
use rechnernetze.Bft.FileWriter.{now, tick, elapsed_ms}

none_or_some {ℓ} : {A : Type ℓ} {a : A} → none ≡ some a → ⊥
none_or_some h = cc

module _ (crc : Crc) where
  abr-IsFormed : IsFormed (abr_datagram crc)
  unfolding abr_datagram of_flags calc_checksum zero_payload
  abr-IsFormed = record {
    text = [];
    checksum_bound = crc.calculate_bound _;
    flags_bound = add_sqn-bound abr false (omega arith);
    size_bound = omega arith;
    size_exact = refl;
    zero_filled = refl;
  }

  abr-check : check_integrity crc (abr_datagram crc) ≡ true
  unfolding check_integrity abr_datagram of_flags calc_checksum
  abr-check = rw (==_refl (abr_datagram crc).checksum) refl

  abr-flags : (has_flag (abr_datagram crc).flags abr ≡ true) × (get_sqn (abr_datagram crc) ≡ false)
  unfolding abr_datagram of_flags has_flag or_flags
  abr-flags = (refl, refl)

  -- Whatever the client is sending, ABR makes it stop.
  judge-abr_datagram : (d : BftDatagram) (b : Bool) → judge crc d b (abr_datagram crc) ≡ busy
  unfolding judge
  judge-abr_datagram d b = rw (abr-check, abr-flags.0, abr-flags.1) refl

module _ (w : World) (filename : Bytes) (small : length filename ≤ max_payload_size)
    (a : Address) where
  abbrev start : BftDatagram
  start = built w.crc syn filename false

  start-is_syn : is_syn w.crc start ≡ true
  unfolding is_syn built syn_datagram of_flags or_flags has_flag
  start-is_syn = refl

  start-get_payload : get_payload start ≡ some filename
  unfolding built
  start-get_payload =
      rw (le→leb (length filename) max_payload_size small)
        (ap some (take-append (length filename) filename _ refl))

  start-step : (s : Server) → step w s (packet (send start) a) ≡ dispatch w start a s
  unfolding step on_received
  start-step s =
      rw (receive-send start a (built-IsFormed w.crc syn filename false (omega arith) small)) refl

  -- A server without a client takes the SYN of a client with a file name of up to 504 bytes that the system
  -- opens, and the upload begins. If the acknowledgement is lost, the client sends the SYN again: the server
  -- takes it too, keeps the upload and answers by ABR, and what the client receives then makes it give up
  -- with "Server busy", though the upload is its own.
  pub syn_again-busy :
      (s : Server) (peer : Address)
      → s.current_client ≡ none
      → w.openable (join w.directory filename) ≡ true
      → (s' : Server) × (step w s (packet (send start) a) ≡ ok s')
        × Begun w start filename a s s'
        × (reply : Bytes) × (step w s' (packet (send start) a)
            ≡ ok (record s' { sent = (a, reply) ∷ s'.sent }))
        × (n : ℕ) × (response : BftDatagram) × (receive default_datagram (packet reply peer)
            ≡ ok (message n peer response))
        × (judge w.crc start false response ≡ busy)
  syn_again-busy s peer free openable =
      let intact = built-check w.crc syn filename false small in
      let (s', ran, begun) =
        dispatch_syn w start a s filename free intact start-is_syn start-get_payload openable in
      (
        s',
        start-step s ∙ ran,
        begun,
        send (abr_datagram w.crc),
        start-step s'
            ∙ dispatch_busy w start a s' begun.progress.client begun.progress.is_current intact
                start-is_syn,
        size (abr_datagram w.crc),
        abr_datagram w.crc,
        receive-send (abr_datagram w.crc) peer (abr-IsFormed w.crc),
        judge-abr_datagram w.crc start false,
      )

module _ (w : World) (due : Bool) (owner : Address) where
  abbrev finish : BftDatagram
  finish = of_flags w.crc fin due

  finish-IsFormed : IsFormed finish
  unfolding of_flags calc_checksum zero_payload
  finish-IsFormed = record {
    text = [];
    checksum_bound = w.crc.calculate_bound _;
    flags_bound = add_sqn-bound fin due (omega arith);
    size_bound = omega arith;
    size_exact = refl;
    zero_filled = refl;
  }

  finish-check : check_integrity w.crc finish ≡ true
  unfolding check_integrity of_flags calc_checksum
  finish-check = rw (==_refl finish.checksum) refl

  finish-flags :
      (b : Bool)
      → (is_syn w.crc (of_flags w.crc fin b) ≡ false)
        × (is_abr w.crc (of_flags w.crc fin b) ≡ false)
        × (get_sqn (of_flags w.crc fin b) ≡ b)
        × (has_flag (get_flags (of_flags w.crc fin b)) fin ≡ true)
  unfolding is_syn is_abr syn_datagram abr_datagram of_flags has_flag or_flags
  finish-flags true = (refl, refl, refl, refl)
  finish-flags false = (refl, refl, refl, refl)

  finish-step : (s : Server) → step w s (packet (send finish) owner) ≡ dispatch w finish owner s
  unfolding step on_received
  finish-step s = rw (receive-send finish owner finish-IsFormed) refl

  -- Let an upload be under way with the FIN of the client due, and at least a millisecond have passed since
  -- the writer's last log line. The server takes the FIN, keeps every file as it is and has no client any
  -- more. If the acknowledgement is lost, the client sends the FIN again: the server answers by ABR, and
  -- what the client receives then makes it give up with "Server busy", though the upload is complete.
  pub fin_again-busy :
      (path content : Bytes) (s : Server) (peer : Address) (p : Progress owner path due content s)
      → elapsed_ms p.client.file_writer.last_log (now (tick s.host)) ≢ 0
      → (s' : Server) × (step w s (packet (send finish) owner) ≡ ok s')
        × (s'.current_client ≡ none)
        × (s'.host.files ≡ s.host.files)
        × (reply : Bytes) × (step w s' (packet (send finish) owner)
            ≡ ok (record s' { sent = (owner, reply) ∷ s'.sent }))
        × (n : ℕ) × (response : BftDatagram) × (receive default_datagram (packet reply peer)
            ≡ ok (message n peer response))
        × (judge w.crc finish due response ≡ busy)
  fin_again-busy path content s peer p later =
      let flags = finish-flags due in
      let regular : IsRegular w finish owner p.client s = record {
        current = p.is_current;
        intact = finish-check;
        not_syn = flags.0;
        not_abr = flags.1;
        from_client = rw p.same_address (==_refl owner.s_addr);
      } in
      elim (dispatch-fin w finish owner p.client s regular
        (rw (flags.2, p.sqn_due) (bool_eq_refl due)) flags.3) [
          | inl zero ↦ absurd (later zero.0)
          | inr taken ↦
              let (s', ran, gone, files) = taken.1 in
              (
                s',
                finish-step s ∙ ran,
                gone,
                files,
                send (abr_datagram w.crc),
                finish-step s'
                    ∙ dispatch_stranger w finish owner s'
                        (λ c e. absurd (none_or_some (sym gone ∙ e))) finish-check flags.0 flags.1,
                size (abr_datagram w.crc),
                abr_datagram w.crc,
                receive-send (abr_datagram w.crc) peer (abr-IsFormed w.crc),
                judge-abr_datagram w.crc finish due,
              )
        ]
