-- ===== src/Http/Request/Sound.antt =====
-- What the parser of requests guarantees.
use rechnernetze.Base.{
  ℕ, zero, suc, ◌-◌, ◌^◌, ◌<◌, ◌≡◌, subst, inl, inr, true, ◌&&◌, List, [], ◌∷◌, Option, none, some,
  arith, length, take, ltb, ◌==◌, Bool-cases, Option-cases,
}
use rechnernetze.Process.{Bytes, fits_int}
use rechnernetze.Http.Request.{
  Range, IsRange, HttpRequest, Parsed, parsed, refused, is_path, find_path, last_or_here,
  StatusLine, match_status_line, check_range, after_start, get_range_of, with_range, of_lines,
  of_text, get_lines,
}

-- A property of a request that is accepted.
abbrev pub OnParsed {ℓ κ} : {A : Type ℓ} → (A → Type κ) → Parsed A → Type κ
OnParsed P (parsed a) = P a
OnParsed P (refused why) = Unit

-- A range with an end that is not before its start, both within an int.
abbrev pub SoundRange : Option Range → Type 0
SoundRange none = Unit
SoundRange (some range) = IsRange range × (range.start < 2 ^ 31)

check_range-SoundRange :
    (start : ℕ) (r : (ℕ × ℕ) × Bytes) → OnParsed SoundRange (check_range start r)
unfolding check_range
check_range-SoundRange start ((e, zero), []) = elim (Bool-cases (fits_int start)) [
  | inl fits ↦ rw fits (λ e h. absurd (cc h), ground arith)
  | inr big ↦ rw big tt
]
check_range-SoundRange start ((e, suc count), []) =
    elim (Bool-cases (fits_int start && fits_int e)) [
      | inl fits ↦ rw fits (elim (Bool-cases (ltb e start)) [
        | inl reversed ↦ rw reversed tt
        | inr right ↦ rw right (λ e h. ground arith, ground arith)
      ])
      | inr big ↦ rw big tt
    ]
check_range-SoundRange start ((e, count), c ∷ rest) = tt

after_start-SoundRange : (r : (ℕ × ℕ) × Bytes) → OnParsed SoundRange (after_start r)
unfolding after_start
after_start-SoundRange ((start, zero), rest) = tt
after_start-SoundRange ((start, suc count), []) = tt
after_start-SoundRange ((start, suc count), c ∷ rest) = elim (Bool-cases (c == 45)) [
  | inl dash ↦ rw dash (check_range-SoundRange start _)
  | inr other ↦ rw other tt
]

get_range_of-SoundRange : (o : Option Bytes) → OnParsed SoundRange (get_range_of o)
unfolding get_range_of
get_range_of-SoundRange none = tt
get_range_of-SoundRange (some text) = after_start-SoundRange _

OnFound : Option (Bytes × Bytes) → Type 0
OnFound none = Unit
OnFound (some found) = is_path found.1 ≡ true

last_or_here-OnFound :
    (c : ℕ) (rest : Bytes) (o : Option (Bytes × Bytes))
    → OnFound o
    → OnFound (last_or_here c rest o)
unfolding OnFound
last_or_here-OnFound c rest (some found) h = h
last_or_here-OnFound c rest none h = elim (Bool-cases ((c == 32) && is_path rest)) [
  | inl here ↦ rw here (ground (arith, here))
  | inr other ↦ rw other tt
]

find_path-OnFound : (text : Bytes) → OnFound (find_path text)
unfolding find_path OnFound
find_path-OnFound [] = tt
find_path-OnFound (c ∷ rest) = last_or_here-OnFound c rest (find_path rest) (find_path-OnFound rest)

match_status_line-is_path :
    (line : Bytes) (first : StatusLine)
    → match_status_line line ≡ some first
    → is_path first.path ≡ true
unfolding match_status_line OnFound
match_status_line-is_path line first e =
    ground (arith, find_path-OnFound (take (length line - 10) line))

SoundRequest : HttpRequest → Type 0
SoundRequest r = SoundRange r.range × (is_path r.uri ≡ true)

with_range-Sound :
    (first : StatusLine) (headers : List (Bytes × Bytes)) (o : Parsed (Option Range))
    → is_path first.path ≡ true
    → OnParsed SoundRange o
    → OnParsed SoundRequest (with_range first headers o)
unfolding with_range SoundRequest
with_range-Sound first headers (refused why) h k = tt
with_range-Sound first headers (parsed range) h k = (k, h)

of_lines-Sound : (all : List Bytes) → OnParsed SoundRequest (of_lines all)
unfolding of_lines
of_lines-Sound [] = tt
of_lines-Sound (line ∷ rest) = elim (Option-cases (match_status_line line)) [
  | inl e ↦ rw (e, of_lines) tt
  | inr (first, e) ↦
      rw (e, of_lines)
        (with_range-Sound first _ _ (match_status_line-is_path line first e)
          (get_range_of-SoundRange _))
]

-- An accepted request has a URI that is empty or begins with a slash, and its range, if it has one,
-- starts within an int and does not end before its start.
pub of_text-Sound :
    (text : Bytes) {r : HttpRequest}
    → of_text text ≡ parsed r
    → SoundRange r.range × (is_path r.uri ≡ true)
unfolding of_text SoundRequest
of_text-Sound text {r} e = subst (OnParsed SoundRequest) e (of_lines-Sound (get_lines text))
