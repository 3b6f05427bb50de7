-- ===== src/Cli/Numbers.antt =====
-- std::stoi reads what std::to_string writes.
use Prim.Native.Nat.{ℕ, zero, suc}
use rechnernetze.Base.{
  ◌+◌, ◌*◌, ◌/◌, ◌%◌, ◌-◌, ◌^◌, ◌<◌, ◌≡◌, ◌∙◌, refl, sym, ap, true, false, [], ◌∷◌, ◌++◌, ltb,
  lt→ltb, arith, length, All, All-append, append-nil, decimal, spell, digit, value, read_from,
  read_from-spell, Bool-cases, inl, inr, pos,
}
use rechnernetze.Process.{Bytes, ok}
use rechnernetze.Cli.{is_digit, front_digits, skip_space, stoi, int_of_digits}

abbrev pub IsDigit : ℕ → Type 0
IsDigit c = is_digit c ≡ true

digit-IsDigit : (n : ℕ) → n < 10 → IsDigit (digit n)
digit-IsDigit n h = ground arith

spell-IsDigit : (fuel n : ℕ) → All IsDigit (spell fuel 10 n)
unfolding spell
spell-IsDigit zero n = tt
spell-IsDigit (suc fuel) n = elim (Bool-cases (ltb n 10)) [
  | inl small ↦ rw (All, spell, small) (digit-IsDigit n (ground arith), tt)
  | inr big ↦
      rw (spell, big)
        (All-append IsDigit (spell fuel 10 (n / 10)) (digit (n % 10) ∷ [])
          (spell-IsDigit fuel (n / 10)) (digit-IsDigit (n % 10) (omega arith), tt))
]

pub decimal-IsDigit : (n : ℕ) → All IsDigit (decimal n)
unfolding decimal
decimal-IsDigit n = spell-IsDigit (suc n) n

-- Where the digits end.
abbrev pub Ends : Bytes → Type 0
Ends [] = Unit
Ends (c ∷ rest) = is_digit c ≡ false

value-IsDigit : (c : ℕ) → IsDigit c → value c ≡ c - 48
value-IsDigit c d = ground arith

front_digits-append :
    (n count : ℕ) (s rest : Bytes)
    → All IsDigit s
    → Ends rest
    → front_digits n count (s ++ rest) ≡ (read_from 10 n s, count + length s)
unfolding front_digits read_from
front_digits-append n count [] [] h e = ap (λ k. (n, k)) {x = count} (omega arith)
front_digits-append n count [] (c ∷ rest) h e = rw e (ap (λ k. (n, k)) {x = count} (omega arith))
front_digits-append n count (c ∷ s) rest (d, h) e =
    rw (d, value-IsDigit c d, front_digits-append (n * 10 + (c - 48)) (suc count) s rest h e)
      (ap (λ k. (read_from 10 (n * 10 + (c - 48)) s, k)) {x = suc count + length s} (omega arith))

-- A text that starts with a digit is read from there.
stoi-digits :
    (c : ℕ) (text : Bytes)
    → IsDigit c
    → stoi (c ∷ text) ≡ int_of_digits false (front_digits 0 0 (c ∷ text))
unfolding stoi skip_space
stoi-digits c text d = ground arith

-- A number has at least one digit.
abbrev IsText : Bytes → Type 0
IsText [] = ⊥
IsText (c ∷ text) = Unit

snoc-IsText : (s : Bytes) (c : ℕ) → IsText (s ++ (c ∷ []))
snoc-IsText [] c = tt
snoc-IsText (d ∷ s) c = tt

spell-IsText : (fuel n : ℕ) → IsText (spell (suc fuel) 10 n)
unfolding spell
spell-IsText fuel n = elim (Bool-cases (ltb n 10)) [
  | inl small ↦ rw (IsText, spell, small) tt
  | inr big ↦ rw (spell, big) (snoc-IsText (spell fuel 10 (n / 10)) (digit (n % 10)))
]

int_of_digits-fits :
    (n count : ℕ) → n < 2 ^ 31 → 0 < count → int_of_digits false (n, count) ≡ ok (pos n)
int_of_digits-fits n zero h k = absurd (omega arith)
int_of_digits-fits n (suc count) h k = rw (lt→ltb n (2 ^ 31) h) refl

stoi-text :
    (text rest : Bytes)
    → All IsDigit text
    → IsText text
    → Ends rest
    → read_from 10 0 text < 2 ^ 31
    → stoi (text ++ rest) ≡ ok (pos (read_from 10 0 text))
stoi-text [] rest h t e b = absurd t
stoi-text (c ∷ s) rest h t e b =
    stoi-digits c (s ++ rest) h.0
    ∙ ap (int_of_digits false) (front_digits-append 0 0 (c ∷ s) rest h e)
    ∙ int_of_digits-fits (read_from 10 0 (c ∷ s)) (0 + length (c ∷ s)) b (omega arith)

-- A number that fits into an int, written by std::to_string and followed by no digit, is read back.
pub stoi-decimal :
    (n : ℕ) (rest : Bytes) → n < 2 ^ 31 → Ends rest → stoi (decimal n ++ rest) ≡ ok (pos n)
unfolding decimal
stoi-decimal n rest h e =
    let same = read_from-spell (suc n) 10 n (omega arith) (omega arith) (omega arith) in
    stoi-text (spell (suc n) 10 n) rest (spell-IsDigit (suc n) n) (spell-IsText n n) e (rw same h)
    ∙ ap (λ k. ok (pos k)) same

pub stoi-decimal_only : (n : ℕ) → n < 2 ^ 31 → stoi (decimal n) ≡ ok (pos n)
stoi-decimal_only n h = ap stoi (sym (append-nil (decimal n))) ∙ stoi-decimal n [] h tt
