-- ===== src/Http/SnatchOptions/Slow.antt =====
-- What the constructor of the client's options lets through.
use rechnernetze.Base.{
  ℕ, ◌<◌, ◌^◌, ◌≡◌, refl, true, false, [], ◌∷◌, ◌++◌, arith, All, decimal, pos, ◌∙◌, ap,
}
use rechnernetze.Process.{Bytes, ok}
use rechnernetze.Cli.{stoi}
use rechnernetze.Cli.Numbers.{stoi-decimal_only, IsDigit, decimal-IsDigit}
use rechnernetze.Http.SnatchOptions.{slow_info_of, split, find_comma, parse_slow_info}

find_comma-digits :
    (s rest : Bytes) → All IsDigit s → find_comma (s ++ (b',' ∷ rest)) ≡ ((true, s), rest)
unfolding find_comma
find_comma-digits [] rest h = refl
find_comma-digits (c ∷ s) rest (d, h) = rw (find_comma-digits s rest h) (ground arith)

find_comma-none : (s : Bytes) → All IsDigit s → find_comma s ≡ ((false, s), [])
unfolding find_comma
find_comma-none [] h = refl
find_comma-none (c ∷ s) (d, h) = rw (find_comma-none s h) (ground arith)

slow_info_of-decimal :
    (first second : Bytes) {bytes timeout : ℕ}
    → stoi first ≡ ok (pos bytes)
    → stoi second ≡ ok (pos timeout)
    → slow_info_of (first, second) ≡ ok (record { bytes = pos bytes; timeout = pos timeout })
slow_info_of-decimal first second a b = rw (a, b) refl

-- The option `slow` is read as the two numbers that it is written with, if they fit into an int.
pub parse_slow_info-decimal :
    (bytes timeout : ℕ)
    → bytes < 2 ^ 31
    → timeout < 2 ^ 31
    → parse_slow_info (decimal bytes ++ (b',' ∷ decimal timeout))
      ≡ ok (record { bytes = pos bytes; timeout = pos timeout })
unfolding parse_slow_info
parse_slow_info-decimal bytes timeout h k =
    ap (λ found. slow_info_of (split (decimal bytes ++ (b',' ∷ decimal timeout)) found))
      (find_comma-digits (decimal bytes) (decimal timeout) (decimal-IsDigit bytes))
    ∙ slow_info_of-decimal (decimal bytes) (decimal timeout) (stoi-decimal_only bytes h)
        (stoi-decimal_only timeout k)

-- Without a comma, both numbers are the one that is given.
pub parse_slow_info-same :
    (n : ℕ)
    → n < 2 ^ 31
    → parse_slow_info (decimal n) ≡ ok (record { bytes = pos n; timeout = pos n })
unfolding parse_slow_info
parse_slow_info-same n h =
    ap (λ found. slow_info_of (split (decimal n) found))
      (find_comma-none (decimal n) (decimal-IsDigit n))
    ∙ slow_info_of-decimal (decimal n) (decimal n) (stoi-decimal_only n h) (stoi-decimal_only n h)
