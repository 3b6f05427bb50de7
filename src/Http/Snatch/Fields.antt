-- ===== src/Http/Snatch/Fields.antt =====
-- The header fields that the client writes behind the request line, as the server's parser
-- (connection_base/src/HttpRequest.cpp) finds them.
use rechnernetze.Base.{
  ℕ, ◌-◌, ◌≡◌, refl, sym, ◌∙◌, ap, Bool, true, false, not, ◌&&◌, List, [], ◌∷◌, ◌++◌, append_assoc,
  some, arith, bytes_eq, length, length-append, take, drop, take-append, drop-append, ◌==◌, All,
}
use rechnernetze.Process.{Bytes}
use rechnernetze.Http.Request.{
  is_dot, all_dots, match_value, match_field, match_header, get_headers, get_lines,
}
use rechnernetze.Http.Snatch.Line.{no_feed, get_lines-append}

dots-no_feed : (text : Bytes) → all_dots text ≡ true → no_feed (text ++ (13 ∷ [])) ≡ true
unfolding all_dots no_feed
dots-no_feed [] h = refl
dots-no_feed (c ∷ text) h = ground (arith, dots-no_feed text)

-- A value of dots, behind a space.
value_found :
    (c : ℕ) (value : Bytes)
    → all_dots (c ∷ value) ≡ true
    → match_value (32 ∷ c ∷ value) ≡ some (c ∷ value)
unfolding match_value all_dots
value_found c value h = rw (h) refl

-- The carriage return at the end of a line is cut off.
match_header-match_field :
    (text : Bytes) → match_header (text ++ (13 ∷ [])) ≡ match_field false text
unfolding match_header bytes_eq
match_header-match_field text =
    let line = text ++ (13 ∷ []) in
    let cut : length line - 1 ≡ length text = omega (arith, length-append text (13 ∷ [])) in
    let front : take (length line - 1) line ≡ text =
      ap (λ n. take n line) cut ∙ take-append (length text) text (13 ∷ []) refl in
    let back : drop (length line - 1) line ≡ 13 ∷ [] =
      ap (λ n. drop n line) cut ∙ drop-append (length text) text (13 ∷ []) refl in
    rw (back, front) refl

-- A key of dots without a colon.
unfoldable pub is_key : Bytes → Bool
is_key [] = true
is_key (c ∷ key) = not (c == 58) && (is_dot c && is_key key)

key-match_field :
    (key value v : Bytes)
    → is_key key ≡ true
    → match_value (32 ∷ value) ≡ some v
    → match_field true (key ++ (58 ∷ 32 ∷ value)) ≡ some (key, v)
unfolding match_field is_key
key-match_field [] value v h e = rw (e) refl
key-match_field (c ∷ key) value v h e =
    let rest = key-match_field key value v (ground arith) e in
    let other : (c == 58) ≡ false = ground arith in
    let dot : is_dot c ≡ true = ground arith in rw (other, rest, dot) refl

-- A field as a line, without its line feed.
abbrev pub field_line : Bytes × Bytes → Bytes
field_line (key, value) = key ++ (58 ∷ 32 ∷ (value ++ (13 ∷ [])))

-- Named by at least one character, with a value of at least one dot.
pub data IsField : Bytes × Bytes → Type 0 where
  field :
      {c d : ℕ} {key value : Bytes}
      → is_key (c ∷ key) ≡ true
      → all_dots (d ∷ value) ≡ true
      → IsField (c ∷ key, d ∷ value)

field-match_header : (f : Bytes × Bytes) → IsField f → match_header (field_line f) ≡ some f
unfolding match_field is_key
field-match_header _ (field {c} {d} {key} {value} good dots) =
    let dot : is_dot c ≡ true = ground arith in
    ap match_header (sym (append_assoc (c ∷ key) (58 ∷ 32 ∷ d ∷ value) (13 ∷ [])))
    ∙ match_header-match_field ((c ∷ key) ++ (58 ∷ 32 ∷ d ∷ value))
    ∙ rw
        (key-match_field key (d ∷ value) (d ∷ value) (ground arith) (value_found d value dots), dot)
        refl

-- Fields and the empty line behind them.
abbrev pub fields_text : List (Bytes × Bytes) → Bytes
fields_text [] = 13 ∷ 10 ∷ []
fields_text (f ∷ fields) = field_line f ++ (10 ∷ fields_text fields)

abbrev pub lines_of : List (Bytes × Bytes) → List Bytes
lines_of [] = (13 ∷ []) ∷ []
lines_of (f ∷ fields) = field_line f ∷ lines_of fields

key-no_feed :
    (key text : Bytes) → is_key key ≡ true → no_feed text ≡ true → no_feed (key ++ text) ≡ true
unfolding is_key no_feed
key-no_feed [] text h k = k
key-no_feed (c ∷ key) text h k = ground (arith, key-no_feed key text)

field-no_feed : (f : Bytes × Bytes) → IsField f → no_feed (field_line f) ≡ true
unfolding no_feed
field-no_feed _ (field {c} {d} {key} {value} good dots) =
    key-no_feed (c ∷ key) (58 ∷ 32 ∷ d ∷ (value ++ (13 ∷ []))) good (dots-no_feed (d ∷ value) dots)

abbrev pub reversed : List (Bytes × Bytes) → List (Bytes × Bytes) → List (Bytes × Bytes)
reversed [] headers = headers
reversed (f ∷ fields) headers = reversed fields (f ∷ headers)

pub fields_text-get_lines :
    (fields : List (Bytes × Bytes))
    → All IsField fields
    → get_lines (fields_text fields) ≡ lines_of fields
unfolding get_lines
fields_text-get_lines [] h = refl
fields_text-get_lines (f ∷ fields) (h, hs) =
    get_lines-append (field_line f) (fields_text fields) (field-no_feed f h)
    ∙ ap (λ t. field_line f ∷ t) (fields_text-get_lines fields hs)

-- The fields are found as they were written, the last one first.
pub fields-get_headers :
    (fields headers : List (Bytes × Bytes))
    → All IsField fields
    → get_headers headers (lines_of fields) ≡ reversed fields headers
unfolding get_headers match_header match_field bytes_eq
fields-get_headers [] headers h = refl
fields-get_headers (f ∷ fields) headers (h, hs) =
    rw (field-match_header f h, get_headers) (fields-get_headers fields (f ∷ headers) hs)
