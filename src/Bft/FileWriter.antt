-- ===== src/Bft/FileWriter.antt =====
-- aufg4/bft_server/file_writer.hpp and file_writer.cpp, over the files of the server and the readings
-- of the system clock in nanoseconds. Writing to an open file does not fail.
pub mod Laws
mod Examples
use rechnernetze.Base.{
  ℕ, ◌+◌, ◌-◌, ◌*◌, ◌/◌, ◌%◌, ◌^◌, Bool, true, false, not, List, Option, none, some, length, ltb,
  leb, ◌==◌, if◌then◌else◌,
}
use rechnernetze.Process.{Bytes, Result, ok, stop, ◌>>=◌, ◌>>◌, require, exited, division_by_zero}
use rechnernetze.Bft.Files.{Files, exists, remove, open_append, append}

pub record FileWriter : Type 0 where
  pub file_path : Bytes
  pub is_open : Bool
  pub bytes_written : ℕ
  pub last_bytes_written : ℕ
  pub last_log : ℕ

-- The files, and the readings of the clock to come.
pub record Host : Type 0 where
  pub files : Files
  pub clock : ℕ → ℕ

abbrev pub second : ℕ
second = 10 ^ 9

-- system_clock::now(), and the host after it.
abbrev pub now : Host → ℕ
now h = h.clock 0

abbrev pub tick : Host → Host
tick h = record h { clock = λ n. h.clock (n + 1) }

-- duration_cast<milliseconds>(later - earlier).count() as an unsigned long; the clock may be set back.
abbrev pub elapsed_ms : ℕ → ℕ → ℕ
elapsed_ms earlier later =
    if leb earlier later
    then (later - earlier) / 10 ^ 6
    else (2 ^ 64 - (earlier - later) / 10 ^ 6) % 2 ^ 64

-- The members as the initializer list leaves them, and the file opened.
abbrev pub opened_writer : Bytes → Host → FileWriter × Host
opened_writer path h = (
  record {
    file_path = path;
    is_open = true;
    bytes_written = 0;
    last_bytes_written = 0;
    last_log = now h;
  },
  record (tick h) { files = open_append path h.files },
)

-- FileWriter(std::string), where `openable` says which paths the system opens for writing.
unfoldable pub create : (Bytes → Bool) → Bytes → Host → Result (FileWriter × Host)
create openable path h = if openable path then ok (opened_writer path h) else stop (exited 1)

-- Two readings of the clock; the rate divides by the milliseconds between the first and the last log.
unfoldable pub log_bytes_written : FileWriter → Host → Result (FileWriter × Host)
log_bytes_written w h = do
  require (not (elapsed_ms w.last_log (now h) == 0)) division_by_zero
  ok (record w { last_bytes_written = w.bytes_written; last_log = now (tick h) }, tick (tick h))

unfoldable pub log_if_due : FileWriter → Host → Result (FileWriter × Host)
log_if_due w h =
    if ltb (w.last_log + second) (now h) then log_bytes_written w (tick h) else ok (w, tick h)

unfoldable pub append_bytes : Bytes → FileWriter × Host → Result (FileWriter × Host)
append_bytes bytes (w, h) = do
  require w.is_open (exited 1)
  ok (
    record w { bytes_written = (w.bytes_written + length bytes) % 2 ^ 64 },
    record h { files = append w.file_path bytes h.files },
  )

unfoldable pub write_bytes : Bytes → FileWriter → Host → Result (FileWriter × Host)
write_bytes bytes w h = log_if_due w h >>= append_bytes bytes

-- The file goes only if something was written to it.
unfoldable pub abort : FileWriter → Host → Host
abort w h = if ltb 0 w.bytes_written then record h { files = remove w.file_path h.files } else h
