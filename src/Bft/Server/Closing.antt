-- ===== src/Bft/Server/Closing.antt =====
-- The regular datagrams of a client, and FIN among them.
use rechnernetze.Base.{
  ◌≡◌, ◌≢◌, ◌⊎◌, refl, sym, ◌∙◌, inl, inr, true, false, ◌∷◌, none, some, arith, ◌==◌, ==_iff,
  bool_eq, Bool-cases,
}
use rechnernetze.Bft.Flags.{no_flags, sqn, fin, has_flag, clear_flag}
use rechnernetze.Process.{
  ok, stop, division_by_zero, Ensures, Ensures-ok, Ensures-bind, Ensures-intro, Ensures-if,
  Ensures-mono, buffer_overread, Address,
}
use rechnernetze.Bft.Datagram.{
  BftDatagram, get_payload, get_flags, get_sqn, check_integrity, is_syn, is_abr, create_ack, send,
}
use rechnernetze.Bft.FileWriter
use rechnernetze.Bft.FileWriter.{FileWriter, Host, now, tick, elapsed_ms}
use rechnernetze.Bft.Server.{
  ClientData, World, Server, increment_sqn, send_to, same_host, finish_upload, store_payload,
  store_datagram, handle_valid_datagram, on_regular, on_other, dispatch,
}
use rechnernetze.Bft.Server.Sound.{finish_upload-closes}

-- A datagram of the client's host that is neither SYN nor ABR.
pub record IsRegular (w : World) (d : BftDatagram) (a : Address) (c : ClientData) (s : Server)
    : Type 0 where
  pub current : s.current_client ≡ some c
  pub intact : check_integrity w.crc d ≡ true
  pub not_syn : is_syn w.crc d ≡ false
  pub not_abr : is_abr w.crc d ≡ false
  pub from_client : same_host a c.address ≡ true

handle_valid_datagram-sent :
    (d : BftDatagram) (c : ClientData) (s : Server)
    → Ensures (λ s'. s'.sent ≡ s.sent) (handle_valid_datagram d c s)
unfolding handle_valid_datagram store_datagram store_payload
handle_valid_datagram-sent d c s =
    Ensures-if SameSent (has_flag (get_flags d) fin) (finish_upload c s) _
      (λ _.
        Ensures-mono _ SameSent (finish_upload c s) (λ s' closed. closed.2)
          (finish_upload-closes c s))
      (λ _.
        Ensures-if SameSent (clear_flag (get_flags d) sqn == no_flags) (store_datagram d c s) _
          (λ _.
            elim (get_payload d)
              as (λ o.
                Ensures SameSent
                  (elim o [ none ↦ stop buffer_overread | some p ↦ store_payload p c s ])) [
                    | none ↦ tt
                    | some p ↦
                        Ensures-bind SameSent (FileWriter.write_bytes p c.file_writer s.host) _
                          (λ _. Unit {0}) (Ensures-intro _ _ (λ _ _. tt)) (λ _ _. refl)
                  ])
          (λ _. refl))
  where
    SameSent : Server → Type 0
    SameSent s' = s'.sent ≡ s.sent

module _ (w : World) (d : BftDatagram) (a : Address) (c : ClientData) (s : Server)
    (v : IsRegular w d a c s) where
  dispatch_regular : dispatch w d a s ≡ on_regular w d c s
  unfolding dispatch on_other
  dispatch_regular = ground (arith, v.current, v.intact, v.not_syn, v.not_abr, v.from_client)

  -- Let a datagram come from the client's host during an upload, intact and neither SYN nor ABR.
  -- It is acknowledged to the client's address, a duplicate too, if the round returns.
  pub dispatch_acknowledged :
      {s' : Server}
      → dispatch w d a s ≡ ok s'
      → s'.sent ≡ (c.address, send (create_ack w.crc d)) ∷ s.sent
  unfolding on_regular
  dispatch_acknowledged run =
      let acked = send_to c.address (create_ack w.crc d) s in
      Ensures-ok (λ s'. s'.sent ≡ acked.sent) (on_regular w d c s)
        (Ensures-if (λ s'. s'.sent ≡ acked.sent) (bool_eq (get_sqn d) c.current_sqn)
          (handle_valid_datagram d (increment_sqn c) acked) _
          (λ _. handle_valid_datagram-sent d (increment_sqn c) acked) (λ _. refl))
        (sym dispatch_regular ∙ run)

  -- FIN that is due closes the upload and leaves every file as it is, unless less than a millisecond
  -- has passed since the writer's last log line: then the server divides by zero.
  pub dispatch-fin :
      bool_eq (get_sqn d) c.current_sqn ≡ true
      → has_flag (get_flags d) fin ≡ true
      → let ms = elapsed_ms c.file_writer.last_log (now (tick s.host)) in
        ((ms ≡ 0) × (dispatch w d a s ≡ stop division_by_zero))
        ⊎ ((ms ≢ 0)
            × ((s' : Server) × (dispatch w d a s ≡ ok s')
                × (s'.current_client ≡ none)
                × (s'.host.files ≡ s.host.files)))
  unfolding on_regular handle_valid_datagram finish_upload FileWriter.log_bytes_written
  dispatch-fin m f =
      elim (Bool-cases (elapsed_ms c.file_writer.last_log (now (tick s.host)) == 0)) [
        | inl z ↦ inl (
          (==_iff _ _).0 z,
          dispatch_regular ∙ rw (m, on_regular) (rw (f, handle_valid_datagram) (rw z)),
        )
        | inr n ↦
            let closed : Server = record s {
              current_client = none;
              host = tick (tick (tick s.host));
              sent = (c.address, send (create_ack w.crc d)) ∷ s.sent;
            } in
            inr (
              ground arith,
              (
                closed,
                dispatch_regular ∙ rw (m, on_regular) (rw (f, handle_valid_datagram) (rw n)),
                refl,
                refl,
              ),
            )
      ]
