-- ===== src/Http/Response/Parsing.antt =====
-- What the parser of responses makes of a header that build_header printed.
use rechnernetze.Base.{
  ℕ, zero, suc, ◌%◌, ◌/◌, ltb, digit, inl, inr, Bool-cases, ◌≡◌, refl, sym, ◌∙◌, ap, Bool, true,
  false, not, ◌&&◌, List, [], ◌∷◌, ◌++◌, append_assoc, arith, bytes_eq, ◌==◌, All, All-append,
  codes, decimal, spell, ◌+◌, ◌<◌, ◌^◌, length,
}
use rechnernetze.Process.{Bytes, ok}
use rechnernetze.Http.Response.{
  Status, no_status, success, accepted, partial_content, multiple_choices, moved_permanently,
  bad_request, unauthorized, forbidden, not_found, method_not_allowed, not_acceptable,
  request_timeout, unsupported_media_type, internal_server_error, not_implemented,
  service_unavailable, version_not_supported, status_code, get_status_text, HttpResponse, crlf,
  split_header, is_indexed, of_data, add_header, status_line, build_header,
}

-- No carriage return among the bytes.
unfoldable pub no_return : Bytes → Bool
no_return [] = true
no_return (c ∷ bytes) = not (c == 13) && no_return bytes

-- A line of a header has at least one byte.
unfoldable pub is_line : Bytes → Bool
is_line [] = false
is_line (c ∷ bytes) = not (c == 13) && no_return bytes

abbrev pub AreLines : List Bytes → Type 0
AreLines = All (λ line. is_line line ≡ true)

abbrev pub lines : List Bytes → Bytes
lines [] = []
lines (line ∷ rest) = line ++ (crlf ++ lines rest)

split_text :
    (text bytes : Bytes)
    → no_return text ≡ true
    → split_header (text ++ bytes) ≡ (text ++ (split_header bytes).0, (split_header bytes).1)
unfolding no_return split_header bytes_eq
split_text [] bytes h = refl
split_text (c ∷ text) bytes h =
    let other : (c == 13) ≡ false = ground arith in
    rw other (ap (λ p. (c ∷ p.0, p.1)) (split_text text bytes (ground arith)))

-- A line break that another line follows.
split_break :
    (c : ℕ) (bytes : Bytes)
    → (c == 13) ≡ false
    → split_header (crlf ++ (c ∷ bytes))
      ≡ (crlf ++ (split_header (c ∷ bytes)).0, (split_header (c ∷ bytes)).1)
unfolding split_header bytes_eq
split_break c bytes h = rw h refl

-- The last one.
split_end : (bytes : Bytes) → split_header (crlf ++ (crlf ++ bytes)) ≡ (crlf, bytes)
unfolding split_header bytes_eq
split_end bytes = refl

line-no_return : (line : Bytes) → is_line line ≡ true → no_return line ≡ true
unfolding is_line no_return
line-no_return [] h = refl
line-no_return (c ∷ line) h = h

lines-append :
    (rest : List Bytes) (line bytes : Bytes)
    → lines (line ∷ rest) ++ bytes ≡ line ++ (crlf ++ (lines rest ++ bytes))
lines-append rest line bytes = append_assoc line (crlf ++ lines rest) bytes

split_lines :
    (line : Bytes) (rest : List Bytes) (bytes : Bytes)
    → AreLines (line ∷ rest)
    → split_header (lines (line ∷ rest) ++ (crlf ++ bytes)) ≡ (lines (line ∷ rest), bytes)
unfolding is_line
split_lines line [] bytes (h, _) =
    ap split_header (lines-append [] line (crlf ++ bytes))
    ∙ split_text line (crlf ++ (crlf ++ bytes)) (line-no_return line h)
    ∙ ap (λ p. (line ++ p.0, p.1)) (split_end bytes)
split_lines line ([] ∷ rest) bytes (h, (h', hs)) = absurd (cc h')
split_lines line ((c ∷ next) ∷ rest) bytes (h, (h', hs)) =
    ap split_header (lines-append ((c ∷ next) ∷ rest) line (crlf ++ bytes))
    ∙ split_text line (crlf ++ (lines ((c ∷ next) ∷ rest) ++ (crlf ++ bytes)))
        (line-no_return line h)
    ∙ ap (λ p. (line ++ p.0, p.1)) (split_break c _ (ground arith))
    ∙ ap (λ p. (line ++ (crlf ++ p.0), p.1)) (split_lines (c ∷ next) rest bytes (h', hs))

status_line-is_line : (s : Status) → is_line (status_line s) ≡ true
unfolding is_line no_return status_line status_code get_status_text decimal spell
status_line-is_line no_status = refl
status_line-is_line success = refl
status_line-is_line accepted = refl
status_line-is_line partial_content = refl
status_line-is_line multiple_choices = refl
status_line-is_line moved_permanently = refl
status_line-is_line bad_request = refl
status_line-is_line unauthorized = refl
status_line-is_line forbidden = refl
status_line-is_line not_found = refl
status_line-is_line method_not_allowed = refl
status_line-is_line not_acceptable = refl
status_line-is_line request_timeout = refl
status_line-is_line unsupported_media_type = refl
status_line-is_line internal_server_error = refl
status_line-is_line not_implemented = refl
status_line-is_line service_unavailable = refl
status_line-is_line version_not_supported = refl

-- The header of a response consists of lines.
pub record HasLines (r : HttpResponse) : Type 0 where
  pub fields : List Bytes
  pub are_lines : AreLines fields
  pub printed : r.header ≡ lines fields

-- Data of less than 2^31 - 3 bytes is indexed by an `int`.
short-is_indexed : (bytes : Bytes) → length bytes + 3 < 2 ^ 31 → is_indexed bytes ≡ true
unfolding is_indexed
short-is_indexed bytes h = ground arith

pub short-of_data :
    (bytes : Bytes) → length bytes + 3 < 2 ^ 31 → (r : HttpResponse) × (of_data bytes ≡ ok r)
unfolding of_data
short-of_data bytes h = rw (short-is_indexed bytes h) (_, refl)

-- What build_header printed of a header that consists of lines, with any content behind it, is parsed
-- into the status line with the header, and the content; the status is not read.
pub build_header-of_data :
    (r : HttpResponse) (content : Bytes)
    → HasLines r
    → length (build_header r ++ content) + 3 < 2 ^ 31
    → of_data (build_header r ++ content)
      ≡ ok (record {
        status = no_status;
        header = status_line r.status ++ (crlf ++ r.header);
        payload = content;
      })
unfolding of_data build_header
build_header-of_data r content v short = rw (short-is_indexed (build_header r ++ content) short) (
    ap (λ (p : Bytes × Bytes). ok (record { status = no_status; header = p.0; payload = p.1 }))
      (rw (v.printed) (
        ap split_header (whole (status_line r.status) (lines v.fields) content)
        ∙ split_lines (status_line r.status) v.fields content
            (status_line-is_line r.status, v.are_lines))))
  where
    whole :
        (first rest bytes : Bytes)
        → (first ++ (crlf ++ (rest ++ crlf))) ++ bytes
          ≡ (first ++ (crlf ++ rest)) ++ (crlf ++ bytes)
    whole first rest bytes =
        append_assoc first (crlf ++ (rest ++ crlf)) bytes
        ∙ ap (λ t. first ++ (crlf ++ t)) (append_assoc rest crlf bytes)
        ∙ sym (append_assoc first (crlf ++ rest) (crlf ++ bytes))

no_return-append :
    (s t : Bytes) → no_return s ≡ true → no_return t ≡ true → no_return (s ++ t) ≡ true
unfolding no_return
no_return-append [] t h k = k
no_return-append (c ∷ s) t h k = ground (arith, no_return-append s t)

lines-snoc :
    (rest : List Bytes) (line : Bytes) → lines (rest ++ (line ∷ [])) ≡ lines rest ++ (line ++ crlf)
lines-snoc [] line = refl
lines-snoc (first ∷ rest) line =
    ap (λ t. first ++ (crlf ++ t)) (lines-snoc rest line)
    ∙ sym (append_assoc first (crlf ++ lines rest) (line ++ crlf))

-- Adding a field without a carriage return leaves a header that consists of lines.
pub add_header-HasLines :
    (key value : Bytes) (r : HttpResponse)
    → is_line key ≡ true
    → no_return value ≡ true
    → HasLines r
    → HasLines (add_header key value r)
unfolding add_header is_line no_return
add_header-HasLines [] value r h k v = absurd (cc h)
add_header-HasLines (c ∷ key) value r h k v =
    let line = (c ∷ key) ++ (codes ": " ++ value) in
    record {
      fields = v.fields ++ (line ∷ []);
      are_lines =
          All-append _ v.fields (line ∷ []) v.are_lines
            (no_return-append (c ∷ key) (codes ": " ++ value) h k, tt);
      printed = rw (v.printed) (
          ap (λ t. lines v.fields ++ t) (sym (append_assoc (c ∷ key) (codes ": " ++ value) crlf))
          ∙ sym (lines-snoc v.fields line));
    }

digits-no_return : (fuel n : ℕ) → no_return (spell fuel 10 n) ≡ true
unfolding no_return spell
digits-no_return zero n = refl
digits-no_return (suc fuel) n = elim (Bool-cases (ltb n 10)) [
  | inl small ↦ rw (small, spell) (ground arith)
  | inr big ↦
      rw (big, spell)
        (no_return-append (spell fuel 10 (n / 10)) (digit (n % 10) ∷ [])
          (digits-no_return fuel (n / 10)) (ground arith))
]

pub decimal-no_return : (n : ℕ) → no_return (decimal n) ≡ true
unfolding decimal
decimal-no_return n = digits-no_return (suc n) n
