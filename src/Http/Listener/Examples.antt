-- ===== src/Http/Listener/Examples.antt =====
-- Two connections with a refusal between them; the first one ends first.
use rechnernetze.Base.{◌≡◌, refl, false, List, [], ◌∷◌, ◌++◌}
use rechnernetze.Process.{ok}
use rechnernetze.Http.Address.{
  Sockaddr, af_inet, new_block, info_block, World, release, without, destroy_origin,
}
use rechnernetze.Http.Listener.{accept_next_connection, disconnect, without_file}
use rechnernetze.Http.Listener.Resources.{Held, endpoint, Run, begun, accepted, not_accepted}
use rechnernetze.Http.Listener.Ownership.{Run-disconnect}

abbrev somewhere : Sockaddr
somewhere = record { sa_family = af_inet; sin_port = 1; sin_addr = 127 ∷ 0 ∷ 0 ∷ 1 ∷ [] }

abbrev first_held : Held
first_held = record { block = 7; file = 4; sockaddr = somewhere; socklen = 16 }

abbrev second_held : Held
second_held = record { block = 9; file = 5; sockaddr = somewhere; socklen = 16 }

abbrev before : World
before = record { live = info_block 2 ∷ []; next = 7; open_files = 3 ∷ [] }

abbrev both_held : World
both_held = record {
  live = new_block 9 ∷ new_block 7 ∷ info_block 2 ∷ [];
  next = 10;
  open_files = 5 ∷ 4 ∷ 3 ∷ [];
}

both_held-Run : Run before (second_held ∷ first_held ∷ []) both_held
unfolding accept_next_connection release without
both_held-Run =
    accepted second_held
      (not_accepted
        {v' = record { live = new_block 7 ∷ info_block 2 ∷ []; next = 9; open_files = 4 ∷ 3 ∷ [] }}
        false (accepted first_held begun refl refl) refl)
      refl refl

Run-disconnect_example :
    ((front : List Held) (h : Held) (back : List Held)
      → second_held ∷ first_held ∷ [] ≡ front ++ (h ∷ back)
      → (v : World) × (disconnect (endpoint h) both_held ≡ ok v))
    × (second_held ∷ first_held ∷ [] ≡ []
        → (both_held.live ≡ before.live) × (both_held.open_files ≡ before.open_files))
Run-disconnect_example = Run-disconnect both_held-Run

-- The connection that began first ends.
first_ended :
    disconnect (endpoint first_held) both_held
    ≡ ok (record { live = new_block 9 ∷ info_block 2 ∷ []; next = 10; open_files = 5 ∷ 3 ∷ [] })
unfolding disconnect destroy_origin release without without_file
first_ended = refl
