-- ===== src/Bft/FileWriter/Laws.antt =====
-- What the operations of FileWriter do to the file, on every branch of the clock.
use rechnernetze.Base.{
  ◌+◌, ◌%◌, ◌^◌, ◌<◌, ◌≡◌, ◌≢◌, inl, inr, refl, sym, ◌∙◌, ap, ap₂, subst, Bool, true, [], ◌∷◌, ◌++◌,
  none, some, arith, length, length-append, ltb, lt→ltb, Bool-cases,
}
use rechnernetze.Process.{Bytes, ok, >>=-eq-ok, ok-injective, of_ok}
use rechnernetze.Bft.Files.{
  Files, put, remove, open_append, append, put_same, put_other, append_same, append_other,
}
use rechnernetze.Bft.FileWriter.{
  FileWriter, Host, create, opened_writer, log_bytes_written, log_if_due, append_bytes, write_bytes,
  abort,
}

-- The file of an open writer, and that the writer's count is its length in an unsigned long.
pub record Writes (w : FileWriter) (content : Bytes) (files : Files) : Type 0 where
  pub on_disk : files w.file_path ≡ some content
  pub counted : w.bytes_written ≡ length content % 2 ^ 64
  pub opened : w.is_open ≡ true

log_if_due-files :
    (w : FileWriter) (h : Host) {r : FileWriter × Host}
    → log_if_due w h ≡ ok r
    → (r.0.file_path ≡ w.file_path)
      × (r.0.is_open ≡ w.is_open)
      × (r.0.bytes_written ≡ w.bytes_written)
      × (r.1.files ≡ h.files)
unfolding log_if_due log_bytes_written
log_if_due-files w h e = ground arith

-- `Written` of a result: the content, and that nothing else changed.
abbrev pub Written : FileWriter → Host → Bytes → FileWriter × Host → Type 0
Written w h content r =
    Writes r.0 content r.1.files
    × (r.0.file_path ≡ w.file_path)
    × ((p : Bytes) → p ≢ w.file_path → r.1.files p ≡ h.files p)

abbrev appended : Bytes → FileWriter → Host → FileWriter × Host
appended bytes w h = (
  record w { bytes_written = (w.bytes_written + length bytes) % 2 ^ 64 },
  record h { files = append w.file_path bytes h.files },
)

append_bytes-ok :
    (bytes : Bytes) (w : FileWriter) (h : Host)
    → w.is_open ≡ true
    → append_bytes bytes (w, h) ≡ ok (appended bytes w h)
unfolding append_bytes
append_bytes-ok bytes w h e = ground arith

append_bytes-Written :
    (bytes content : Bytes) (w : FileWriter) (h : Host) {r : FileWriter × Host}
    → Writes w content h.files
    → append_bytes bytes (w, h) ≡ ok r
    → Written w h (content ++ bytes) r
append_bytes-Written bytes content w h v e =
    of_ok (Written w h (content ++ bytes)) (append_bytes-ok bytes w h v.opened) e (
      record {
        on_disk = append_same w.file_path bytes content h.files v.on_disk;
        counted = omega (arith, length-append content bytes, v.counted);
        opened = v.opened;
      },
      refl,
      λ p ne. append_other w.file_path bytes p h.files ne,
    )

-- Logging moves the clock and the writer's log fields only.
module _ (w w' : FileWriter) (h h' : Host) (path : w'.file_path ≡ w.file_path)
    (files : h'.files ≡ h.files) where
  Writes-kept :
      (content : Bytes)
      → w'.is_open ≡ w.is_open
      → w'.bytes_written ≡ w.bytes_written
      → Writes w content h.files
      → Writes w' content h'.files
  Writes-kept content o c v = record {
    on_disk = ap₂ (λ (f : Files) (p : Bytes). f p) files path ∙ v.on_disk;
    counted = c ∙ v.counted;
    opened = o ∙ v.opened;
  }

  Written-kept :
      (content : Bytes) (r : FileWriter × Host) → Written w' h' content r → Written w h content r
  Written-kept content r (v, same, other) =
      (v, same ∙ path, λ p ne. other p (λ e. ne (e ∙ path)) ∙ ap (λ (f : Files). f p) files)

-- A write to an open writer's file, if it returns, has appended the bytes to the file, and
-- changed no other file.
pub write_bytes-Written :
    (bytes content : Bytes) (w : FileWriter) (h : Host) {r : FileWriter × Host}
    → Writes w content h.files
    → write_bytes bytes w h ≡ ok r
    → Written w h (content ++ bytes) r
unfolding write_bytes
write_bytes-Written bytes content w h {r} v e =
    let ((w', h'), logged, wrote) = >>=-eq-ok (log_if_due w h) (append_bytes bytes) e in
    let (path, is_open, count, files) = log_if_due-files w h logged in
    Written-kept w w' h h' path files (content ++ bytes) r (
      append_bytes-Written bytes content w' h'
        (Writes-kept w w' h h' path files content is_open count v) wrote)

create-ok :
    (openable : Bytes → Bool) (path : Bytes) (h : Host) {r : FileWriter × Host}
    → create openable path h ≡ ok r
    → (openable path ≡ true) × (r ≡ opened_writer path h)
unfolding create
create-ok openable path h c = elim (Bool-cases (openable path)) [
  | inl o ↦ (o, sym (ok-injective (rw (o, create) at c)))
  | inr o ↦ absurd (cc (rw (o, create) at c))
]

abbrev pub Fresh : Bytes → Host → FileWriter × Host → Type 0
Fresh path h r =
    Writes r.0 [] r.1.files
    × (r.0.file_path ≡ path)
    × ((p : Bytes) → p ≢ path → r.1.files p ≡ h.files p)

opened_writer-Fresh :
    (path : Bytes) (h : Host) → h.files path ≡ none → Fresh path h (opened_writer path h)
unfolding open_append
opened_writer-Fresh path h e =
    let made : open_append path h.files ≡ put path (some []) h.files = rw (e, open_append) in
    (
      record {
        on_disk = ap (λ (f : Files). f path) made ∙ put_same path (some []) h.files;
        counted = omega arith;
        opened = refl;
      },
      refl,
      λ p ne. ap (λ (f : Files). f p) made ∙ put_other path p (some []) h.files ne,
    )

-- A writer that was made over a path that names no file starts with an empty one.
pub create-Written :
    (openable : Bytes → Bool) (path : Bytes) (h : Host) {r : FileWriter × Host}
    → h.files path ≡ none
    → create openable path h ≡ ok r
    → Fresh path h r
create-Written openable path h {r} e c =
    subst (Fresh path h) (sym (create-ok openable path h c).1) (opened_writer-Fresh path h e)

-- Aborting takes the file of an open writer, shorter than 2^64 bytes, away if it has bytes in it,
-- and touches no other file; a file without a byte stays behind.
pub abort_lem :
    (w : FileWriter) (content : Bytes) (h : Host)
    → Writes w content h.files
    → length content < 2 ^ 64
    → ((abort w h).files w.file_path ≡ (elim content [ [] ↦ some [] | _ ↦ none ]))
      × ((p : Bytes) → p ≢ w.file_path → (abort w h).files p ≡ h.files p)
unfolding abort remove
abort_lem w [] h v small = rw (v.counted) (v.on_disk, λ p ne. refl)
abort_lem w (c ∷ content) h v small =
    let some_bytes : ltb 0 w.bytes_written ≡ true =
      lt→ltb 0 w.bytes_written (omega (arith, v.counted)) in
    rw (some_bytes, abort)
      (put_same w.file_path none h.files, λ p ne. put_other w.file_path p none h.files ne)
