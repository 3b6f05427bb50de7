-- ===== src/Base/Digits.antt =====
-- Numbers as texts, as std::to_string and std::hex write them, and their reading.
use Prim.Native.Nat.{ℕ, zero, suc, ◌+◌, ◌-◌, ◌*◌, ◌/◌, ◌%◌, ◌≤◌, ◌<◌}
use mathlib.Core.Path.{◌≡◌, refl}
use mathlib.Core.Logic.{inl, inr}
use mathlib.Core.Bool.{true, false}
use mathlib.Core.List.{List, [], ◌∷◌, ◌++◌}
use native.Mathlib.Nat.{div-lt_self, zero-mul, mod-lt, div-add-mod'}
use native.Mathlib.Omega.{arith}
use rechnernetze.Base.Tests.{ltb, if◌then◌else◌, Bool-cases}

-- A digit as the standard library writes it: `0` to `9`, and `a` to `f`.
abbrev pub digit : ℕ → ℕ
digit n = if ltb n 10 then 48 + n else 87 + n

-- A number in a base, with fuel for its digits.
unfoldable pub spell : ℕ → ℕ → ℕ → List ℕ
spell zero base n = []
spell (suc fuel) base n = elim (ltb n base) [
  | true ↦ digit n ∷ []
  | false ↦ spell fuel base (n / base) ++ (digit (n % base) ∷ [])
]

-- The number that a digit stands for, and the number that a text spells.
abbrev pub value : ℕ → ℕ
value c = if ltb c 58 then c - 48 else c - 87

unfoldable pub read_from : ℕ → ℕ → List ℕ → ℕ
read_from base n [] = n
read_from base n (c ∷ cs) = read_from base (n * base + value c) cs

value-digit : (n : ℕ) → n < 16 → value (digit n) ≡ n
value-digit n h = ground arith

read_from-append :
    (base n : ℕ) (s : List ℕ) (c : ℕ)
    → read_from base n (s ++ (c ∷ [])) ≡ read_from base n s * base + value c
unfolding read_from
read_from-append base n [] c = refl
read_from-append base n (d ∷ s) c = read_from-append base (n * base + value d) s c

-- What a number is spelt as reads as that number.
pub read_from-spell :
    (fuel base n : ℕ) → 2 ≤ base → base ≤ 16 → n < fuel → read_from base 0 (spell fuel base n) ≡ n
unfolding spell read_from
read_from-spell zero base n hb hc h = absurd (omega arith)
read_from-spell (suc fuel) base n hb hc h = elim (Bool-cases (ltb n base)) [
  | inl small ↦ rw (small, spell, value-digit n (ground arith), zero-mul) (omega arith)
  | inr big ↦
      rw
        (
          big,
          spell,
          read_from-append base 0 (spell fuel base (n / base)) (digit (n % base)),
          read_from-spell fuel base (n / base) hb hc
              (ground (arith, div-lt_self {n = n} {k = base})),
          value-digit (n % base) (ground (arith, mod-lt n {m = base})),
        )
        (div-add-mod' n base)
]

-- std::to_string of a number that is not negative.
unfoldable pub decimal : ℕ → List ℕ
unfolding spell
decimal n = spell (suc n) 10 n
