-- ===== src/Http/Snatch/Url.antt =====
-- aufg2_3_http/snatch/src/url_info.hpp and url_info.cpp. The regular expressions are written out as
-- functions that find what `std::regex_match` finds.
pub mod Parts
mod Examples
use rechnernetze.Base.{
  ℕ, zero, suc, ◌%◌, ◌^◌, Bool, true, false, ◌&&◌, List, [], ◌∷◌, ◌++◌, Option, none, some, ℤ, pos,
  negsuc, codes, bytes_eq, length, take, drop, ◌==◌, if◌then◌else◌,
}
use rechnernetze.Process.{Bytes, Result, ok, stop, ◌>>=◌, thrown}
use rechnernetze.Cli.{is_digit, stoi}
use rechnernetze.Http.Request.{is_dot, all_dots}
use rechnernetze.Http.Address.{to_uint16}
use rechnernetze.Http.Snatch.{UrlInfo}

-- What stands before the first of a character, and behind it.
abbrev pub longer : ℕ → Option (Bytes × Bytes) → Option (Bytes × Bytes)
longer c none = none
longer c (some (before, behind)) = some (c ∷ before, behind)

unfoldable pub split_at : ℕ → Bytes → Option (Bytes × Bytes)
split_at stop_at [] = none
split_at stop_at (c ∷ text) =
    let rest = split_at stop_at text in if c == stop_at then some ([], text) else longer c rest

-- `([^\.]*[.][^/]*)[/](.*)`: neither part can be shorter, so there is one way at most.
abbrev pub rest_of_url : Bytes → Option (Bytes × Bytes) → Option (Bytes × Bytes)
rest_of_url before none = none
rest_of_url before (some (domain, path)) =
    if all_dots path then some (before ++ (b'.' ∷ domain), path) else none

unfoldable pub match_host : Bytes → Option (Bytes × Bytes)
unfolding split_at
match_host text = elim (split_at b'.' text) [
  | none ↦ none
  | some (before, behind) ↦ rest_of_url before (split_at b'/' behind)
]

abbrev pub or_else : Option (Bytes × Bytes) → Option (Bytes × Bytes) → Option (Bytes × Bytes)
or_else none other = other
or_else (some m) other = some m

-- `(?:prefix)?` with what follows it: with the prefix, if that leads to a match.
abbrev pub optional : Bytes → (Bytes → Option (Bytes × Bytes)) → Bytes → Option (Bytes × Bytes)
optional prefix next text =
    or_else
      (if bytes_eq (take (length prefix) text) prefix
        then next (drop (length prefix) text)
        else none)
      (next text)

unfoldable pub match_here : Bytes → Option (Bytes × Bytes)
unfolding match_host
match_here text = optional (codes "http://") (optional (codes "www.") match_host) text

-- `.*?` in front: the first place where the rest matches.
unfoldable pub match_url : Bytes → Option (Bytes × Bytes)
unfolding match_here
match_url [] = none
match_url (c ∷ text) =
    let later = match_url text in or_else (match_here (c ∷ text)) (if is_dot c then later else none)

-- The digits at the front, and what follows.
unfoldable pub span_digits : Bytes → Bytes × Bytes
span_digits [] = ([], [])
span_digits (c ∷ text) =
    let more = span_digits text in if is_digit c then (c ∷ more.0, more.1) else ([], c ∷ text)

abbrev pub path_of : Bytes → Bytes → Option (Bytes × Bytes)
path_of port [] = none
path_of port (c ∷ text) = if (c == b'/') && all_dots text then some (port, text) else none

-- `(?::(\d+))?[/](.*)`, with an empty port where there is none.
abbrev pub port_and_path : Bytes × Bytes → Option (Bytes × Bytes)
port_and_path ([], rest) = none
port_and_path (d ∷ port, rest) = path_of (d ∷ port) rest

unfoldable pub match_port : Bytes → Option (Bytes × Bytes)
unfolding span_digits
match_port [] = none
match_port (c ∷ text) =
    if c == b':' then port_and_path (span_digits text) else path_of [] (c ∷ text)

-- `localhost(?::(\d+))?[/](.*)`
unfoldable pub match_localhost : Bytes → Option (Bytes × Bytes)
unfolding match_port
match_localhost text =
    if bytes_eq (take 9 text) (codes "localhost") then match_port (drop 9 text) else none

-- `url.substr(url.find_last_of('/') + 1)`, the whole text if there is no slash.
abbrev pub last_or : Bytes → Option Bytes → Bytes
last_or text none = text
last_or text (some name) = name

unfoldable pub behind_last_slash : Bytes → Option Bytes
behind_last_slash [] = none
behind_last_slash (c ∷ text) =
    let later = behind_last_slash text in
    elim later [ none ↦ if c == b'/' then some text else none | some name ↦ some name ]

abbrev pub file_name_of : Bytes → Bytes
file_name_of url = last_or url (behind_last_slash url)

-- The int of `std::stoi` becomes an unsigned short.
unfoldable pub port_of : Bytes → Result (Option ℕ)
port_of [] = ok none
port_of (c ∷ port) = stoi (c ∷ port) >>= λ n. ok (some (to_uint16 n))

unfoldable pub parse_localhost : Bytes → Option (Bytes × Bytes) → Result UrlInfo
unfolding behind_last_slash port_of
parse_localhost url none = stop thrown
parse_localhost url (some (port, full_file_name)) = port_of port >>= λ port. ok (record {
  host = codes "localhost";
  file_path_name = full_file_name;
  file_name = file_name_of url;
  port = port;
})

-- UrlParser::parse
unfoldable pub parse : Bytes → Result UrlInfo
unfolding match_url match_localhost behind_last_slash
parse url = elim (match_url url) [
  | none ↦ parse_localhost url (match_localhost url)
  | some (host, full_file_name) ↦ ok (record {
    host = host;
    file_path_name = full_file_name;
    file_name = file_name_of url;
    port = none;
  })
]
