-- ===== src/Bft/Files.antt =====
-- What bft_server uses of std::filesystem: regular files by path, and the joining of paths.
use rechnernetze.Base.{
  ℕ, ◌≡◌, ◌≢◌, Bool, true, false, [], ◌∷◌, ◌++◌, Option, none, some, arith, ◌==◌, bytes_eq,
  bytes_eq_refl, bytes_eq-eq, if◌then◌else◌, Option-cases, inl, inr,
}
use rechnernetze.Process.{Bytes}

abbrev pub Files : Type 0
Files = Bytes → Option Bytes

unfoldable pub exists : Bytes → Files → Bool
exists path files = elim (files path) [ none ↦ false | some _ ↦ true ]

unfoldable pub put : Bytes → Option Bytes → Files → Files
put path content files = λ p. if bytes_eq p path then content else files p

unfoldable pub remove : Bytes → Files → Files
remove path files = put path none files

-- Opening with std::ios::app creates a file that is not there, and keeps one that is.
unfoldable pub open_append : Bytes → Files → Files
open_append path files = elim (files path) [ none ↦ put path (some []) files | some _ ↦ files ]

unfoldable pub append : Bytes → Bytes → Files → Files
append path more files = elim (files path) [
  | none ↦ files
  | some old ↦ put path (some (old ++ more)) files
]

-- The last byte, or zero.
last : Bytes → ℕ
last [] = 0
last (c ∷ []) = c
last (c ∷ d ∷ s) = last (d ∷ s)

with_separator : Bytes → Bytes
unfolding last
with_separator dir = if last dir == b'/' then dir else dir ++ b'/' ∷ []

-- `std::filesystem::path(dir) / name`: a name that begins at the root stands alone.
unfoldable pub join : Bytes → Bytes → Bytes
unfolding with_separator
join [] name = name
join (d ∷ dir) [] = with_separator (d ∷ dir)
join (d ∷ dir) (c ∷ name) = if c == b'/' then c ∷ name else with_separator (d ∷ dir) ++ c ∷ name

pub put_same :
    (path : Bytes) (content : Option Bytes) (files : Files) → put path content files path ≡ content
unfolding put
put_same path content files = rw (bytes_eq_refl path)

pub put_other :
    (path p : Bytes) (content : Option Bytes) (files : Files)
    → p ≢ path
    → put path content files p ≡ files p
unfolding put
put_other path p content files h = ground (arith, bytes_eq-eq p path)

pub append_same :
    (path more old : Bytes) (files : Files)
    → files path ≡ some old
    → append path more files path ≡ some (old ++ more)
unfolding append
append_same path more old files e = rw (e, append) (put_same path (some (old ++ more)) files)

pub append_other :
    (path more p : Bytes) (files : Files) → p ≢ path → append path more files p ≡ files p
unfolding append
append_other path more p files h = elim (Option-cases (files path)) [
  | inl e ↦ rw (e, append)
  | inr (old, e) ↦ rw (e, append) (put_other path p (some (old ++ more)) files h)
]
