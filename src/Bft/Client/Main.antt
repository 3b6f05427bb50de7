-- ===== src/Bft/Client/Main.antt =====
-- What a client has done that comes to the end of `main`.
use rechnernetze.Base.{
  ◌≤◌, ◌≡◌, refl, subst, true, false, not, List, [], length, arith, inl, inr, Option-cases, some,
  codes, ap, ℤ,
}
use rechnernetze.Process.{
  Bytes, ok, ◌>>◌, exited, exit_failure, Crc, Ensures, Ensures-bind, Ensures-next, Ensures-intro,
  Ensures-mono, Ensures-require, require-true,
}
use rechnernetze.Cli.{Parser, ParseResult, stored}
use rechnernetze.Bft.Datagram.{max_payload_size}
use rechnernetze.Bft.ClientOptions.{
  Options, Paths, of_args, of_result, store, positional, rows, validate_and_exit_if_needed,
  handle_info_params_and_exit_if_needed,
}
use rechnernetze.Bft.Client.{Client, Round, upload}
use rechnernetze.Bft.Client.Blocks.{SentRuns, plan, upload-SentRuns}
use rechnernetze.Bft.Client.Start.{System, Prepared, prepare, main, determined}

-- What the options let through: a file, which exists and is no directory.
pub record IsFile (paths : Paths) (o : Options) : Type 0 where
  pub no_directory : paths.is_directory o.file_path ≡ false
  pub there : paths.exists o.file_path ≡ true

validate-IsFile :
    (paths : Paths) (o : Options)
    → Ensures (λ o'. (o' ≡ o) × IsFile paths o') (validate_and_exit_if_needed paths o >> ok o)
unfolding validate_and_exit_if_needed
validate-IsFile paths o =
    Ensures-bind (λ o'. (o' ≡ o) × IsFile paths o') (validate_and_exit_if_needed paths o)
      (λ _. ok o) (λ _. IsFile paths o)
      (Ensures-require (λ _. IsFile paths o) (not (paths.is_directory o.file_path))
        (exited exit_failure) _
        (λ plain.
          Ensures-intro (λ _. IsFile paths o) _
            (λ _ e. record {
              no_directory = ground arith;
              there = require-true (paths.exists o.file_path) (exited exit_failure) e;
            })))
      (λ _ valid. (refl, valid))

-- The file that the command line names, as the parser reads it; none is the empty path.
abbrev pub file_of : ParseResult → Bytes
file_of result = stored (result.string_of (codes "file")) []

pub record IsChosen (paths : Paths) (parser : Parser) (args : List Bytes) (o : Options)
    : Type 0 where
  pub result : ParseResult
  pub accepted : parser.parse rows positional args ≡ some result
  pub file_given : o.file_path ≡ file_of result
  pub is_file : IsFile paths o

of_args-IsChosen :
    (paths : Paths) (parser : Parser) (args : List Bytes)
    → Ensures (IsChosen paths parser args) (of_args paths parser args)
unfolding of_args of_result store
of_args-IsChosen paths parser args = elim (Option-cases (parser.parse rows positional args)) [
  | inl refused ↦ rw (of_args, refused) tt
  | inr (result, e) ↦
      rw (of_args, e)
        (Ensures-next (IsChosen paths parser args) (handle_info_params_and_exit_if_needed result) _
          (λ _.
            Ensures-mono (λ o. (o ≡ store result) × IsFile paths o) (IsChosen paths parser args) _
              (λ o (same, is_file). record {
                result = result;
                accepted = e;
                file_given = ap (λ (o : Options). o.file_path) same;
                is_file = is_file;
              })
              (validate-IsFile paths (store result))))
]

-- The client has sent nothing yet.
abbrev IsFresh : Prepared → Type 0
IsFresh p = (p.client.curr_sqn ≡ false) × (p.client.sent ≡ [])

prepare-IsFresh : (system : System) (o : Options) → Ensures IsFresh (prepare system o)
unfolding prepare
prepare-IsFresh system o =
    Ensures-require IsFresh system.creates_socket (exited exit_failure) _ (λ _.
      Ensures-next IsFresh (determined o.server_port) _ (λ port.
        Ensures-next IsFresh (determined o.retransmission_timeout_ms) _ (λ ms.
          Ensures-next IsFresh (determined o.max_consec_timeouts) _ (λ limit. (refl, refl)))))

-- The file that the command line names exists and is no directory, and what was sent are the SYN with
-- its name, the blocks of its content and FIN, in this order, each at least once.
pub record HasUploaded (crc : Crc) (paths : Paths) (system : System) (parser : Parser)
    (args : List Bytes) (r : List Round × Client) : Type 0 where
  pub result : ParseResult
  pub accepted : parser.parse rows positional args ≡ some result
  pub no_directory : paths.is_directory (file_of result) ≡ false
  pub there : paths.exists (file_of result) ≡ true
  pub runs :
      length (system.filename (file_of result)) ≤ max_payload_size
      → SentRuns
          (plan crc false (system.filename (file_of result)) (system.content (file_of result)))
          []
          r.1.sent

sent_all :
    (crc : Crc) (paths : Paths) (system : System) (parser : Parser) (args : List Bytes)
    (o : Options) (limit : ℤ) (client : Client) (rounds : List Round) (r : List Round × Client)
    → IsChosen paths parser args o
    → (client.curr_sqn ≡ false) × (client.sent ≡ [])
    → upload crc limit (system.filename o.file_path) (system.content o.file_path) rounds client
      ≡ ok r
    → HasUploaded crc paths system parser args r
sent_all crc paths system parser args o limit client rounds r chosen fresh ran =
    let name = system.filename (file_of chosen.result) in
    let content = system.content (file_of chosen.result) in
    record {
      result = chosen.result;
      accepted = chosen.accepted;
      no_directory =
          subst (λ file. paths.is_directory file ≡ false) chosen.file_given
            chosen.is_file.no_directory;
      there = subst (λ file. paths.exists file ≡ true) chosen.file_given chosen.is_file.there;
      runs = λ small.
          subst (λ sent. SentRuns (plan crc false name content) sent r.1.sent) fresh.1
            (subst (λ b. SentRuns (plan crc b name content) client.sent r.1.sent) fresh.0
              (upload-SentRuns crc limit name content rounds client small (
                subst
                  (λ file.
                    upload crc limit (system.filename file) (system.content file) rounds client
                    ≡ ok r)
                  chosen.file_given ran)));
    }

-- A client that comes to the end of `main` had a command line that the parser accepts and that names a
-- file which exists and is no directory; and if the name of that file has at most 504 bytes, it has sent
-- the SYN with the name, the blocks of the content and FIN, in this order, each at least once and nothing
-- else.
pub main-HasUploaded :
    (crc : Crc) (paths : Paths) (system : System) (parser : Parser) (args : List Bytes)
    (rounds : List Round)
    → Ensures (HasUploaded crc paths system parser args) (main crc paths system parser args rounds)
unfolding main
main-HasUploaded crc paths system parser args rounds =
    let P = HasUploaded crc paths system parser args in
    Ensures-bind P (of_args paths parser args) _ (IsChosen paths parser args)
      (of_args-IsChosen paths parser args)
      (λ o chosen.
        Ensures-bind P (prepare system o) _ IsFresh (prepare-IsFresh system o) (λ p fresh.
          Ensures-intro P
            (upload crc p.limit (system.filename o.file_path) (system.content o.file_path) rounds
              p.client)
            (λ r ran.
              sent_all crc paths system parser args o p.limit p.client rounds r chosen fresh ran)))
