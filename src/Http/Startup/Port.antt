-- ===== src/Http/Startup/Port.antt =====
-- What the server has checked and opened when it starts.
use rechnernetze.Base.{
  ℕ, suc, ◌^◌, ◌≤◌, ◌<◌, ◌≡◌, refl, true, false, not, List, [], ◌∷◌, arith, Option, none, some, ℤ,
  pos, negsuc, ltb, inl, inr, Option-cases, subst, codes, ap, ◌∙◌,
}
use rechnernetze.Process.{
  htons, htons-htons, Bytes, ok, ◌>>◌, Ensures, Ensures-bind, Ensures-require, exited, exit_failure,
  Ensures-intro, Ensures-mono, Ensures-next,
}
use rechnernetze.Cli.{Parser, ParseResult, stored}
use rechnernetze.Http.ServerOptions.{
  Options, Paths, rows, of_args, of_result, store, validate_and_exit_if_needed, exceeds_ports,
  is_empty, handle_info_params_and_exit_if_needed,
}
use rechnernetze.Http.Address.{Sockaddr, World, to_uint16, destroy_origin, get_any_address}
use rechnernetze.Http.Listener.Ownership.{release_newest}
use rechnernetze.Http.Listener.{ConnectionListener, Setup, listen, or_exit}
use rechnernetze.Http.Startup.{Started, start, port_or_default}

pub to_uint16_bound : (port : ℤ) → to_uint16 port < 2 ^ 16
to_uint16_bound (pos n) = omega arith
to_uint16_bound (negsuc n) = omega arith

-- The port in the address is the one of the listener, and no memory is kept.
pub record IsListening (w : World) (port : ℤ) (listener : ConnectionListener) (bound : Sockaddr)
    (w' : World) : Type 0 where
  pub same_port : listener.port ≡ port
  pub bound_port : htons bound.sin_port ≡ to_uint16 port
  pub kept : w'.live ≡ w.live
  pub opened : w'.open_files ≡ listener.file_descriptor ∷ w.open_files

listen-IsListening :
    (setup : Setup) (port : ℤ) (w : World)
    → Ensures (λ r. IsListening w port r.0.0 r.0.1 r.1) (listen setup port w)
unfolding listen get_any_address destroy_origin
listen-IsListening setup port w =
    Ensures-bind (λ r. IsListening w port r.0.0 r.0.1 r.1) (or_exit setup.socket) _ (λ _. Unit {0})
      (Ensures-intro (λ _. Unit {0}) (or_exit setup.socket) (λ _ _. tt))
      (λ fd _.
        Ensures-require (λ r. IsListening w port r.0.0 r.0.1 r.1) setup.binds (exited exit_failure)
          _
          (λ _.
            Ensures-require (λ r. IsListening w port r.0.0 r.0.1 r.1) setup.listens
              (exited exit_failure) _
              (λ _. rw (release_newest w.next (suc w.next) w.live (fd ∷ w.open_files)) (record {
                same_port = refl;
                bound_port = htons-htons (to_uint16 port) (to_uint16_bound port);
                kept = refl;
                opened = refl;
              }))))

-- What the options let through.
pub record IsValid (paths : Paths) (opt : Options) : Type 0 where
  pub port_small : (p : ℕ) → opt.port ≡ some (pos p) → p ≤ 65535
  pub has_root : paths.exists opt.document_root_folder ≡ true
  pub root_given : is_empty opt.document_root_folder ≡ false

small_port :
    (port : Option ℤ) (p : ℕ) → not (exceeds_ports port) ≡ true → port ≡ some (pos p) → p ≤ 65535
small_port port p h e =
    let below : not (ltb 65535 p) ≡ true = subst (λ x. not (exceeds_ports x) ≡ true) e h in
    ground arith

validate-IsValid :
    (paths : Paths) (opt : Options)
    → Ensures (λ o. (o ≡ opt) × IsValid paths o) (validate_and_exit_if_needed paths opt >> ok opt)
unfolding validate_and_exit_if_needed
validate-IsValid paths opt =
    Ensures-bind (λ o. (o ≡ opt) × IsValid paths o) (validate_and_exit_if_needed paths opt)
      (λ _. ok opt) (λ _. IsValid paths opt)
      (Ensures-require (λ _. IsValid paths opt) (not (exceeds_ports opt.port)) (exited exit_failure)
        _
        (λ small.
          Ensures-require (λ _. IsValid paths opt) (not (is_empty opt.document_root_folder))
            (exited exit_failure) _
            (λ given.
              Ensures-require (λ _. IsValid paths opt) (paths.exists opt.document_root_folder)
                (exited exit_failure) _
                (λ there.
                  Ensures-intro (λ _. IsValid paths opt) _
                    (λ _ _. record {
                      port_small = λ p e. small_port opt.port p small e;
                      has_root = there;
                      root_given = ground arith;
                    })))))
      (λ _ valid. (refl, valid))

-- The options that the parser makes of the command line.
pub record IsChosen (paths : Paths) (parser : Parser) (args : List Bytes) (opt : Options)
    : Type 0 where
  pub result : ParseResult
  pub accepted : parser.parse rows (codes "document_root_folder" ∷ []) args ≡ some result
  pub port_given : opt.port ≡ result.int_of (codes "port")
  pub root_given :
      opt.document_root_folder ≡ stored (result.string_of (codes "document_root_folder")) []
  pub valid : IsValid paths opt

of_args-IsChosen :
    (paths : Paths) (parser : Parser) (args : List Bytes)
    → Ensures (IsChosen paths parser args) (of_args paths parser args)
unfolding of_args of_result store
of_args-IsChosen paths parser args =
    elim (Option-cases (parser.parse rows (codes "document_root_folder" ∷ []) args)) [
      | inl refused ↦ rw (of_args, refused) tt
      | inr (result, e) ↦
          rw (of_args, e)
            (Ensures-next (IsChosen paths parser args)
              (handle_info_params_and_exit_if_needed result) _
              (λ _.
                Ensures-mono (λ o. (o ≡ store result) × IsValid paths o)
                  (IsChosen paths parser args) _
                  (λ o (same, valid). record {
                    result = result;
                    accepted = e;
                    port_given = ap (λ (opt : Options). opt.port) same;
                    root_given = ap (λ (opt : Options). opt.document_root_folder) same;
                    valid = valid;
                  })
                  (validate-IsValid paths (store result))))
    ]

-- The port that a command line asks for: 8080 if it names none.
abbrev pub IsPort : Option ℤ → ℤ → Type 0
IsPort none port = port ≡ pos 8080
IsPort (some p) port = port ≡ p

port_or_default-IsPort : (given : Option ℤ) → IsPort given (port_or_default given)
port_or_default-IsPort none = refl
port_or_default-IsPort (some p) = refl

pub record IsStarted (paths : Paths) (parser : Parser) (args : List Bytes) (w : World)
    (st : Started) : Type 0 where
  pub result : ParseResult
  pub accepted : parser.parse rows (codes "document_root_folder" ∷ []) args ≡ some result
  pub root :
      st.opt.document_root_folder ≡ stored (result.string_of (codes "document_root_folder")) []
  pub root_there : paths.exists st.opt.document_root_folder ≡ true
  pub root_given : is_empty st.opt.document_root_folder ≡ false
  pub port_small : (p : ℕ) → result.int_of (codes "port") ≡ some (pos p) → p ≤ 65535
  pub port : ℤ
  pub port_chosen : IsPort (result.int_of (codes "port")) port
  pub port_kept : st.opt.port ≡ some port
  pub listening : IsListening w port st.listener st.bound st.world

-- A server that starts has a command line that the parser accepts. The folder of its documents is the
-- one that the command line names, which exists; and a port that it names and that is not negative is
-- at most 65535. The server listens on the port of the command line, or on 8080 if none is given, with
-- the two bytes of the port in network order, and keeps it in its options; and of what it allocated only
-- the socket is left.
pub start-IsStarted :
    (paths : Paths) (parser : Parser) (args : List Bytes) (setup : Setup) (w : World)
    → Ensures (IsStarted paths parser args w) (start paths parser args setup w)
unfolding start
start-IsStarted paths parser args setup w =
    let P = IsStarted paths parser args w in
    Ensures-bind P (of_args paths parser args) _ (IsChosen paths parser args)
      (of_args-IsChosen paths parser args)
      (λ opt chosen.
        Ensures-bind P (listen setup (port_or_default opt.port) w) _
          (λ r. IsListening w (port_or_default opt.port) r.0.0 r.0.1 r.1)
          (listen-IsListening setup (port_or_default opt.port) w)
          (λ r listening. record {
            result = chosen.result;
            accepted = chosen.accepted;
            root = chosen.root_given;
            root_there = chosen.valid.has_root;
            root_given = chosen.valid.root_given;
            port_small = λ p e. chosen.valid.port_small p (chosen.port_given ∙ e);
            port = port_or_default opt.port;
            port_chosen =
                subst (λ given. IsPort given (port_or_default opt.port)) chosen.port_given
                  (port_or_default-IsPort opt.port);
            port_kept = refl;
            listening = listening;
          }))
