-- ===== src/Bft/FileWriter/Examples.antt =====
-- Runs of FileWriter on a file of two bytes.
use rechnernetze.Base.{◌*◌, ◌+◌, ◌≡◌, ◌≢◌, refl, true, [], ◌∷◌, some, none, arith, codes}
use rechnernetze.Process.{Bytes, ok, stop, division_by_zero}
use rechnernetze.Bft.Files.{put, put_same, append}
use rechnernetze.Bft.FileWriter.{
  FileWriter, Host, write_bytes, log_if_due, append_bytes, log_bytes_written, abort,
}
use rechnernetze.Bft.FileWriter.Laws.{Writes, abort_lem}

abbrev path : Bytes
path = codes "out/f"

abbrev writer : FileWriter
writer = record {
  file_path = path;
  is_open = true;
  bytes_written = 2;
  last_bytes_written = 0;
  last_log = 0;
}

-- The clock moves by 0.3 seconds from one reading to the next.
abbrev host : Host
host = record { files = put path (some (1 ∷ 2 ∷ [])) (λ _. none); clock = λ n. n * 300000000 }

writer-Writes : Writes writer (1 ∷ 2 ∷ []) host.files
writer-Writes = record {
  on_disk = put_same path (some (1 ∷ 2 ∷ [])) (λ _. none);
  counted = omega arith;
  opened = refl;
}

abbrev after : FileWriter × Host
after = (
  record writer { bytes_written = 3 },
  record { files = append path (3 ∷ []) host.files; clock = λ n. (n + 1) * 300000000 },
)

written : write_bytes (3 ∷ []) writer host ≡ ok after
unfolding write_bytes log_if_due append_bytes
written = refl

abort_example :
    ((abort writer host).files path ≡ none)
    × ((p : Bytes) → p ≢ path → (abort writer host).files p ≡ host.files p)
abort_example = abort_lem writer (1 ∷ 2 ∷ []) host writer-Writes (omega arith)

-- A log line at the time of the last one.
divided : log_bytes_written writer host ≡ stop division_by_zero
unfolding log_bytes_written
divided = refl
