-- ===== src/Bft/Server/Growth.antt =====
-- Which bytes reach the file of a client over a run of the server's loop.
use rechnernetze.Base.{
  ◌≡◌, subst, Bool, false, List, [], ◌∷◌, ◌++◌, map, append-nil, append_assoc, if◌then◌else◌,
}
use rechnernetze.Process.{
  Bytes, Result, ok, stop, ◌>>=◌, >>=-eq-ok, ok-injective, Ensures-ok, Address, RecvFrom,
}
use rechnernetze.Bft.Datagram.{default_datagram, Received, message, would_block, receive}
use rechnernetze.Bft.Server.{World, Server, dispatch, on_received, step, run}
use rechnernetze.Bft.Server.Arrivals.{
  arrival, arrived, block, is_due, next_due, uploaded, dues, ends, NoneEnds, Progress,
}
use rechnernetze.Bft.Server.Upload.{dispatch-Progress}

module _ (w : World) where
  on_received-arrival :
      (r : Result Received) (s : Server) {s' : Server}
      → (r >>= (λ x. on_received w x s)) ≡ ok s'
      → dispatch w (arrival r).0 (arrival r).1 s ≡ ok s'
  unfolding arrival on_received
  on_received-arrival (ok (message n a d)) s h = h
  on_received-arrival (ok would_block) s h = h
  on_received-arrival (stop why) s h = absurd (cc h)

  pub step-arrived :
      (s : Server) (event : RecvFrom) {s' : Server}
      → step w s event ≡ ok s'
      → dispatch w (arrived event).0 (arrived event).1 s ≡ ok s'
  unfolding step arrived
  step-arrived s event h = on_received-arrival (receive default_datagram event) s h

  pub step-Progress :
      (owner : Address) (path content : Bytes) (due : Bool) (s : Server) (event : RecvFrom)
      {s' : Server}
      → Progress owner path due content s
      → ends w owner.s_addr due (arrived event) ≡ false
      → step w s event ≡ ok s'
      → Progress owner path
          (next_due w owner.s_addr due (arrived event))
          (content
            ++ (if is_due w owner.s_addr due (arrived event) then block (arrived event).0 else []))
          s'
  step-Progress owner path content due s event p =
      rw (← p.same_address, ← p.same_path, ← p.sqn_due)
        (λ ne once.
          Ensures-ok _ _
            (dispatch-Progress w (arrived event).0 (arrived event).1 p.client content s p.is_current
              p.on_file ne)
            (step-arrived s event once))

  -- While nothing ends the upload, the file of the current client grows by exactly the bytes of the
  -- datagrams that are due, in order, whatever else arrives: damaged packets, duplicates, SYN, and
  -- packets of other hosts.
  pub run-Progress :
      (owner : Address) (path content : Bytes) (due : Bool) (s : Server) (events : List RecvFrom)
      {s' : Server}
      → Progress owner path due content s
      → NoneEnds w owner.s_addr due (map arrived events)
      → run w s events ≡ ok s'
      → Progress owner path
          (dues w owner.s_addr due (map arrived events))
          (content ++ uploaded w owner.s_addr due (map arrived events))
          s'
  unfolding run uploaded dues
  run-Progress owner path content due s [] {s'} p open_still h =
      subst (Progress owner path due (content ++ [])) (ok-injective h) (rw append-nil p)
  run-Progress owner path content due s (event ∷ events) {s'} p open_still h =
      let (s1, once, more) = >>=-eq-ok (step w s event) (λ s1. run w s1 events) h in
      let grown =
        content
        ++ (if is_due w owner.s_addr due (arrived event) then block (arrived event).0 else []) in
      rw (← append_assoc content _ _) (
        run-Progress owner path grown (next_due w owner.s_addr due (arrived event)) s1 events
          (step-Progress owner path content due s event p open_still.0 once) open_still.1 more)
