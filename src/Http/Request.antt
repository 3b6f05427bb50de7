-- ===== src/Http/Request.antt =====
-- aufg2_3_http/connection_base/src/HttpRequest.h and HttpRequest.cpp. The regular expressions are
-- written out as functions that find what `std::regex_match` finds.
pub mod Sound
mod Examples
use rechnernetze.Base.{
  ℕ, zero, suc, ◌+◌, ◌-◌, ◌*◌, ◌^◌, ◌≤◌, ◌≡◌, Bool, true, false, not, ◌&&◌, ◌||◌, List, [], ◌∷◌,
  ◌++◌, Option, none, some, codes, bytes_eq, length, take, drop, ltb, leb, ◌==◌, if◌then◌else◌,
}
use rechnernetze.Process.{Bytes, fits_int}

pub record Range : Type 0 where
  pub start : ℕ
  pub end : Option ℕ

-- The end of a range is not before its start.
abbrev pub IsRange : Range → Type 0
IsRange range = (e : ℕ) → range.end ≡ some e → range.start ≤ e

pub data Method : Type 0 where
  no_method get post put : Method

pub record HttpRequest : Type 0 where
  pub method : Method
  pub uri : Bytes
  pub http_version : Bytes
  pub headers : List (Bytes × Bytes)
  pub range : Option Range

abbrev pub get_method : HttpRequest → Method
get_method request = request.method

abbrev pub get_uri : HttpRequest → Bytes
get_uri request = request.uri

abbrev pub get_range : HttpRequest → Option Range
get_range request = request.range

-- What the constructor throws: two cases of std::invalid_argument, and the std::out_of_range of stoi.
pub data Refusal : Type 0 where
  bad_status_line : Bytes → Refusal
  reversed_range out_of_range : Refusal

pub data Parsed {ℓ} (A : Type ℓ) : Type ℓ where
  parsed : A → Parsed A
  refused : Refusal → Parsed A

-- The lines that std::getline yields.
abbrev pub extend_line : ℕ → List Bytes → List Bytes
extend_line c [] = (c ∷ []) ∷ []
extend_line c (line ∷ rest) = (c ∷ line) ∷ rest

unfoldable pub get_lines : Bytes → List Bytes
get_lines [] = []
get_lines (c ∷ bytes) =
    let rest = get_lines bytes in if c == 10 then [] ∷ rest else extend_line c rest

-- `.` of a regular expression.
abbrev pub is_dot : ℕ → Bool
is_dot c = not (c == 10) && not (c == 13)

unfoldable pub all_dots : Bytes → Bool
all_dots [] = true
all_dots (c ∷ bytes) = is_dot c && all_dots bytes

-- The last space of the text that nothing or a slash follows, as `(.*) (/.*)*` finds it.
abbrev pub is_path : Bytes → Bool
is_path [] = true
is_path (c ∷ _) = c == 47

abbrev pub last_or_here : ℕ → Bytes → Option (Bytes × Bytes) → Option (Bytes × Bytes)
last_or_here c rest (some (before, path)) = some (c ∷ before, path)
last_or_here c rest none = if (c == 32) && is_path rest then some ([], rest) else none

unfoldable pub find_path : Bytes → Option (Bytes × Bytes)
find_path [] = none
find_path (c ∷ rest) = last_or_here c rest (find_path rest)

-- ` (HTTP/1.1)\r` at the end of the line, whose dot is any character but a line break.
unfoldable pub is_version_end : Bytes → Bool
is_version_end text =
    bytes_eq (take 7 text) (codes " HTTP/1")
    && bytes_eq (drop 8 text) (49 ∷ 13 ∷ [])
    && all_dots (take 1 (drop 7 text))

pub record StatusLine : Type 0 where
  pub method_text : Bytes
  pub path : Bytes
  pub version : Bytes

unfoldable pub match_status_line : Bytes → Option StatusLine
match_status_line line =
    let body = take (length line - 10) line in
    let tail = drop (length line - 10) line in
    if is_version_end tail && all_dots body
    then elim (find_path body) [
      | none ↦ none
      | some found ↦
          some (record { method_text = found.0; path = found.1; version = take 8 (drop 1 tail) })
    ]
    else none

-- `\s`
abbrev pub is_space : ℕ → Bool
is_space c = c == 32 || leb 9 c && leb c 13

-- `(.+)` up to the end.
abbrev pub some_dots : Bytes → Option Bytes
some_dots [] = none
some_dots (c ∷ bytes) = if all_dots (c ∷ bytes) then some (c ∷ bytes) else none

-- `\s?(.+)`: the space is skipped if something is left.
abbrev pub first_of : Option Bytes → Option Bytes → Option Bytes
first_of (some a) b = some a
first_of none b = b

unfoldable pub match_value : Bytes → Option Bytes
match_value [] = none
match_value (c ∷ bytes) =
    if is_space c then first_of (some_dots bytes) (some_dots (c ∷ bytes)) else some_dots (c ∷ bytes)

-- `(.+?):\s?(.+)`: the first colon, behind at least one character, that a value follows.
abbrev pub extend_key : ℕ → Option (Bytes × Bytes) → Option (Bytes × Bytes)
extend_key c none = none
extend_key c (some (key, value)) = some (c ∷ key, value)

abbrev pub here_or_later : ℕ → Option Bytes → Option (Bytes × Bytes) → Option (Bytes × Bytes)
here_or_later c (some value) later = some ([], value)
here_or_later c none later = if is_dot c then extend_key c later else none

unfoldable pub match_field : Bool → Bytes → Option (Bytes × Bytes)
match_field started [] = none
match_field started (c ∷ bytes) =
    here_or_later c (if started && (c == 58) then match_value bytes else none)
      (match_field true bytes)

-- A header line ends with a carriage return.
unfoldable pub match_header : Bytes → Option (Bytes × Bytes)
match_header line =
    if bytes_eq (drop (length line - 1) line) (13 ∷ [])
    then match_field false (take (length line - 1) line)
    else none

-- `headers[key] = value`, the last of equal keys being found.
unfoldable pub get_headers : List (Bytes × Bytes) → List Bytes → List (Bytes × Bytes)
get_headers headers [] = headers
get_headers headers (line ∷ rest) =
    get_headers (elim (match_header line) [ none ↦ headers | some field ↦ field ∷ headers ]) rest

unfoldable pub lookup : Bytes → List (Bytes × Bytes) → Option Bytes
lookup key [] = none
lookup key ((k, v) ∷ headers) = if bytes_eq k key then some v else lookup key headers

-- The digits at the front as a number, how many there are, and what follows.
abbrev pub is_digit : ℕ → Bool
is_digit c = leb 48 c && leb c 57

unfoldable pub read_digits : ℕ → ℕ → Bytes → (ℕ × ℕ) × Bytes
read_digits n count [] = ((n, count), [])
read_digits n count (c ∷ bytes) =
    let more = read_digits (n * 10 + (c - 48)) (count + 1) bytes in
    if is_digit c then more else ((n, count), c ∷ bytes)

unfoldable pub check_range : ℕ → (ℕ × ℕ) × Bytes → Parsed (Option Range)
check_range start ((e, zero), []) =
    if fits_int start
    then parsed (some (record { start = start; end = none }))
    else refused out_of_range
check_range start ((e, suc count), []) =
    if fits_int start && fits_int e
    then (if ltb e start
        then refused reversed_range
        else parsed (some (record { start = start; end = some e })))
    else refused out_of_range
check_range start ((e, count), c ∷ rest) = parsed none

-- `(\d+)-(\d*)` in the whole text.
unfoldable pub after_start : (ℕ × ℕ) × Bytes → Parsed (Option Range)
after_start ((start, zero), rest) = parsed none
after_start ((start, suc count), []) = parsed none
after_start ((start, suc count), c ∷ rest) =
    if c == 45 then check_range start (read_digits 0 0 rest) else parsed none

unfoldable pub get_range_of : Option Bytes → Parsed (Option Range)
get_range_of none = parsed none
get_range_of (some text) = after_start (read_digits 0 0 text)

unfoldable pub with_range :
    StatusLine → List (Bytes × Bytes) → Parsed (Option Range) → Parsed HttpRequest
with_range first headers (refused why) = refused why
with_range first headers (parsed range) = parsed (record {
  method = if bytes_eq (first.method_text) (codes "GET") then get else no_method;
  uri = first.path;
  http_version = first.version;
  headers = headers;
  range = range;
})

unfoldable pub of_lines : List Bytes → Parsed HttpRequest
of_lines [] = refused (bad_status_line [])
of_lines (line ∷ rest) = elim (match_status_line line) [
  | none ↦ refused (bad_status_line line)
  | some first ↦
      let headers = get_headers [] rest in
      with_range first headers (get_range_of (lookup (codes "Content-Range") headers))
]

-- HttpRequest(std::string const &)
unfoldable pub of_text : Bytes → Parsed HttpRequest
of_text text = of_lines (get_lines text)
