-- ===== src/Http/Snatch/Line.antt =====
-- The request line that the client builds, read by the server.
use rechnernetze.Base.{
  suc, ◌-◌, ◌≡◌, refl, sym, ◌∙◌, ap, Bool, true, false, not, ◌&&◌, [], ◌∷◌, ◌++◌, append_assoc,
  none, some, arith, codes, bytes_eq, length, length-append, take, drop, take-append, drop-append,
  ◌==◌,
}
use rechnernetze.Process.{Bytes}
use rechnernetze.Http.Request.{
  is_dot, all_dots, find_path, is_version_end, match_status_line, get_lines,
}
use rechnernetze.Http.Snatch.{UrlInfo, request_line}

-- A path without a space and a line break.
unfoldable pub is_plain : Bytes → Bool
is_plain [] = true
is_plain (c ∷ bytes) = not (c == 32) && (is_dot c && is_plain bytes)

plain-all_dots : (path : Bytes) → is_plain path ≡ true → all_dots path ≡ true
unfolding is_plain all_dots
plain-all_dots [] h = refl
plain-all_dots (c ∷ path) h = ground (arith, plain-all_dots path)

plain-find_path : (path : Bytes) → is_plain path ≡ true → find_path path ≡ none
unfolding is_plain find_path
plain-find_path [] h = refl
plain-find_path (c ∷ path) h =
    let rest = plain-find_path path (ground arith) in
    let other : (c == 32) ≡ false = ground arith in rw (rest, other)

abbrev line_end : Bytes
line_end = codes " HTTP/1.1" ++ (13 ∷ [])

-- A line whose last ten bytes are the end of a request line.
matched :
    (line body tail before path : Bytes)
    → take (length line - 10) line ≡ body
    → drop (length line - 10) line ≡ tail
    → is_version_end tail ≡ true
    → all_dots body ≡ true
    → find_path body ≡ some (before, path)
    → match_status_line line
      ≡ some (record { method_text = before; path = path; version = take 8 (drop 1 tail) })
unfolding match_status_line
matched line body tail before path front back ends dots found =
    rw (front, back, match_status_line)
      (rw (ends, dots, found)
        (ap (λ t. some (record { method_text = before; path = path; version = take 8 (drop 1 t) }))
          back))

found_path :
    (path : Bytes)
    → is_plain path ≡ true
    → find_path (codes "GET /" ++ path) ≡ some (codes "GET", 47 ∷ path)
unfolding find_path
found_path path h = rw (plain-find_path path h)

pub line_matched :
    (path : Bytes)
    → is_plain path ≡ true
    → match_status_line (codes "GET /" ++ (path ++ line_end))
      ≡ some (record { method_text = codes "GET"; path = 47 ∷ path; version = codes "HTTP/1.1" })
unfolding is_version_end bytes_eq all_dots
line_matched path h =
    let line = codes "GET /" ++ (path ++ line_end) in
    let cut : length line - 10 ≡ suc (suc (suc (suc (suc (length path))))) =
      omega (arith, length-append path line_end) in
    matched line (codes "GET /" ++ path) line_end (codes "GET") (47 ∷ path)
      (ap (λ n. take n line) cut
        ∙ ap (λ t. codes "GET /" ++ t) (take-append (length path) path line_end refl))
      (ap (λ n. drop n line) cut ∙ drop-append (length path) path line_end refl) refl
      (plain-all_dots path h) (found_path path h)

-- No line feed.
unfoldable pub no_feed : Bytes → Bool
no_feed [] = true
no_feed (c ∷ bytes) = not (c == 10) && no_feed bytes

pub get_lines-append :
    (text rest : Bytes)
    → no_feed text ≡ true
    → get_lines (text ++ (10 ∷ rest)) ≡ text ∷ get_lines rest
unfolding get_lines no_feed
get_lines-append [] rest h = refl
get_lines-append (c ∷ text) rest h =
    let other : (c == 10) ≡ false = ground arith in
    rw (other, get_lines-append text rest (ground arith))

plain-no_feed : (path : Bytes) → is_plain path ≡ true → no_feed (path ++ line_end) ≡ true
unfolding is_plain no_feed
plain-no_feed [] h = refl
plain-no_feed (c ∷ path) h = ground (arith, plain-no_feed path)

-- Let the path of the URL have no space and no line break. Whatever follows the request line that the
-- client builds, the server reads it as the first line, and its pattern finds the method GET, the path
-- behind a slash, and the version.
pub request_line-match_status_line :
    (url : UrlInfo) (rest : Bytes)
    → is_plain url.file_path_name ≡ true
    → (line : Bytes) × (get_lines (request_line url ++ rest) ≡ line ∷ get_lines rest)
      × (match_status_line line
          ≡ some (record {
            method_text = codes "GET";
            path = 47 ∷ url.file_path_name;
            version = codes "HTTP/1.1";
          }))
unfolding request_line no_feed
request_line-match_status_line url rest h =
    let path = url.file_path_name in
    let line = codes "GET /" ++ (path ++ line_end) in
    let same : request_line url ++ rest ≡ line ++ (10 ∷ rest) =
      ap (λ t. codes "GET /" ++ t)
        (append_assoc path (codes " HTTP/1.1" ++ (13 ∷ 10 ∷ [])) rest
          ∙ sym (append_assoc path line_end (10 ∷ rest))) in
    (
      line,
      ap get_lines same ∙ get_lines-append line rest (plain-no_feed path h),
      line_matched path h,
    )
