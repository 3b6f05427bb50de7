-- ===== src/Bft/Server/Running.antt =====
-- The runs of the server's loop that go on: with a client, a clock that does not run back, and
-- packets that `receive` can take.
use rechnernetze.Base.{
  ℕ, ◌+◌, ◌≤◌, ◌≡◌, refl, ◌∙◌, inl, inr, Bool, true, false, not, List, [], ◌∷◌, ◌++◌, map, some,
  arith, ◌==◌, bool_eq, ltb, Bool-cases, if◌then◌else◌, take,
}
use rechnernetze.Bft.Flags.{no_flags, sqn, fin, has_flag, clear_flag}
use rechnernetze.Process.{Bytes, ok, Returns, Returns-if, Returns-bind, Address, RecvFrom, Crc}
use rechnernetze.Bft.Datagram.{
  BftDatagram, default_datagram, get_payload, get_flags, get_sqn, check_integrity, is_syn, is_abr,
  Received, message, would_block, receive,
}
use rechnernetze.Bft.FileWriter
use rechnernetze.Bft.FileWriter.{FileWriter, Host, now, tick, second, elapsed_ms}
use rechnernetze.Bft.Server.{
  ClientData, World, Server, store_payload, store_datagram, handle_valid_datagram, on_corrupt,
  on_syn, handle_syn, on_abr, on_regular, on_other, dispatch, on_received, step, run,
}
use rechnernetze.Bft.Server.Arrivals.{
  arrival, arrived, block, is_part, is_due, next_due, uploaded, dues, ends, NoneEnds, Progress,
}
use rechnernetze.Bft.Server.Growth.{step-Progress, run-Progress}

-- The readings of the clock do not fall.
abbrev pub Steady : Host → Type 0
Steady h = (n : ℕ) → h.clock n ≤ h.clock (n + 1)

Steady-tick : (h : Host) → Steady h → Steady (tick h)
Steady-tick h steady n = steady (n + 1)

log_if_due-returns :
    (w : FileWriter) (h : Host)
    → Steady h
    → Returns (λ r. Steady r.1 × (r.0.is_open ≡ w.is_open)) (FileWriter.log_if_due w h)
unfolding FileWriter.log_if_due FileWriter.log_bytes_written
log_if_due-returns w h steady = elim (Bool-cases (ltb (w.last_log + second) (now h))) [
  | inr early ↦ rw (early, FileWriter.log_if_due) ((w, tick h), refl, (Steady-tick h steady, refl))
  | inl due ↦
      let ran : (elapsed_ms w.last_log (now (tick h)) == 0) ≡ false = ground (arith, steady 0) in
      rw (due, FileWriter.log_if_due)
        (rw (ran, FileWriter.log_bytes_written)
          (
            (
              record w { last_bytes_written = w.bytes_written; last_log = now (tick (tick h)) },
              tick (tick (tick h)),
            ),
            refl,
            (λ n. steady (n + 1 + 1 + 1), refl),
          ))
]

write_bytes-returns :
    (bytes : Bytes) (w : FileWriter) (h : Host)
    → Steady h
    → w.is_open ≡ true
    → Returns (λ r. Steady r.1) (FileWriter.write_bytes bytes w h)
unfolding FileWriter.write_bytes FileWriter.append_bytes
write_bytes-returns bytes w h steady open_now =
    Returns-bind (λ r. Steady r.1) (FileWriter.log_if_due w h) (FileWriter.append_bytes bytes) _
      (log_if_due-returns w h steady)
      (λ r q. rw (q.1 ∙ open_now, FileWriter.append_bytes) (_, refl, q.0))

get_payload-some :
    (crc : Crc) (d : BftDatagram)
    → check_integrity crc d ≡ true
    → (p : Bytes) × (get_payload d ≡ some p)
unfolding check_integrity
get_payload-some crc d h = (take d.payload_size d.payload, ground arith)

abbrev SteadyServer : Server → Type 0
SteadyServer s = Steady s.host

module _ (w : World) (d : BftDatagram) (a : Address) (c : ClientData) (s : Server)
    (e : s.current_client ≡ some c) (open_now : c.file_writer.is_open ≡ true)
    (steady : Steady s.host) where
  on_regular-returns :
      check_integrity w.crc d ≡ true
      → (bool_eq (get_sqn d) c.current_sqn ≡ true → has_flag (get_flags d) fin ≡ false)
      → Returns SteadyServer (on_regular w d c s)
  unfolding on_regular handle_valid_datagram store_datagram store_payload
  on_regular-returns i nf = elim (Bool-cases (bool_eq (get_sqn d) c.current_sqn)) [
    | inr late ↦ rw (late, on_regular) (_, refl, steady)
    | inl due ↦ elim (Bool-cases (clear_flag (get_flags d) sqn == no_flags)) [
      | inr other ↦
          rw (due, on_regular) (rw (nf due, other, handle_valid_datagram) (_, refl, steady))
      | inl plain ↦
          let (p, there) = get_payload-some w.crc d i in
          rw (due, on_regular)
            (rw (nf due, plain, handle_valid_datagram)
              (rw (there, store_datagram)
                (Returns-bind SteadyServer (FileWriter.write_bytes p c.file_writer s.host) _
                  (λ r. Steady r.1) (write_bytes-returns p c.file_writer s.host steady open_now)
                  (λ r q. (_, refl, q)))))
    ]
  ]

  dispatch-returns :
      ends w c.address.s_addr c.current_sqn (d, a) ≡ false → Returns SteadyServer (dispatch w d a s)
  unfolding dispatch ends is_due is_part on_corrupt on_syn handle_syn on_abr on_other
  dispatch-returns ne =
      Returns-if SteadyServer (not (check_integrity w.crc d)) (on_corrupt w a s) _
        (λ _. rw (e, on_corrupt) (_, refl, steady))
        (λ i.
          Returns-if SteadyServer (is_syn w.crc d) (on_syn w d a s) _
            (λ _. rw (e, on_syn, handle_syn) (_, refl, steady))
            (λ y.
              Returns-if SteadyServer (is_abr w.crc d) (on_abr w d a s) (on_other w d a s)
                (λ b.
                  let other : (a.s_addr == c.address.s_addr) ≡ false = ground arith in
                  rw (e, on_abr) (rw other (_, refl, steady)))
                (λ b.
                  rw (e, on_other)
                    (Returns-if SteadyServer (a.s_addr == c.address.s_addr) (on_regular w d c s) _
                      (λ h. on_regular-returns (ground arith) (λ m. ground arith))
                      (λ _. (_, refl, steady))))))

-- What `receive` takes: no packet with a size field past the array, and no failing call.
abbrev pub Taken : RecvFrom → Type 0
Taken event = (r : Received) × (receive default_datagram event ≡ ok r)

abbrev pub AllTaken : List RecvFrom → Type 0
AllTaken [] = Unit {0}
AllTaken (event ∷ events) = Taken event × AllTaken events

module _ (w : World) where
  on_received-dispatch :
      (r : Received) (s : Server)
      → on_received w r s ≡ dispatch w (arrival (ok r)).0 (arrival (ok r)).1 s
  unfolding on_received arrival
  on_received-dispatch (message n a d) s = refl
  on_received-dispatch would_block s = refl

  pub step-returns :
      (owner : Address) (path content : Bytes) (due : Bool) (s : Server) (event : RecvFrom)
      → Progress owner path due content s
      → Steady s.host
      → Taken event
      → ends w owner.s_addr due (arrived event) ≡ false
      → Returns SteadyServer (step w s event)
  unfolding step arrived
  step-returns owner path content due s event p steady (r, got) =
      rw (← p.same_address, ← p.sqn_due, got, on_received-dispatch r s)
        (dispatch-returns w (arrival (ok r)).0 (arrival (ok r)).1 p.client s p.is_current
          p.on_file.opened steady)

  run-goes :
      (owner : Address) (path content : Bytes) (due : Bool) (s : Server) (events : List RecvFrom)
      → Progress owner path due content s
      → Steady s.host
      → AllTaken events
      → NoneEnds w owner.s_addr due (map arrived events)
      → (s' : Server) × (run w s events ≡ ok s')
  unfolding run
  run-goes owner path content due s [] p steady taken going = (s, refl)
  run-goes owner path content due s (event ∷ events) p steady taken going =
      let (s1, once, steady1) =
        step-returns owner path content due s event p steady taken.0 going.0 in
      let grown =
        content
        ++ (if is_due w owner.s_addr due (arrived event) then block (arrived event).0 else []) in
      rw once (
        run-goes owner path grown (next_due w owner.s_addr due (arrived event)) s1 events
          (step-Progress w owner path content due s event p going.0 once) steady1 taken.1 going.1)

  -- Let the server have a client, its clock not run back, and each packet be one that `receive`
  -- takes. While no FIN that is due and no ABR of the client's host arrives, the server takes
  -- every packet, and the client's file grows by exactly the bytes of the datagrams that are due,
  -- in order, whatever else arrives: damaged packets, duplicates, SYN, and packets of other
  -- hosts.
  pub run-uploaded :
      (owner : Address) (path content : Bytes) (due : Bool) (s : Server) (events : List RecvFrom)
      → Progress owner path due content s
      → Steady s.host
      → AllTaken events
      → NoneEnds w owner.s_addr due (map arrived events)
      → (s' : Server) × (run w s events ≡ ok s')
        × Progress owner path
            (dues w owner.s_addr due (map arrived events))
            (content ++ uploaded w owner.s_addr due (map arrived events))
            s'
  run-uploaded owner path content due s events p steady taken going =
      let (s', ran) = run-goes owner path content due s events p steady taken going in
      (s', ran, run-Progress w owner path content due s events p going ran)
