-- ===== src/Bft/Flags/Laws.antt =====
-- How the operators of flags.cpp act on the single bits of a flag word.
use native.Mathlib.Nat.{pow-succ', one-le-pow, div-div-eq-div-mul}
use rechnernetze.Base.{
  ℕ, zero, suc, ◌+◌, ◌-◌, ◌*◌, ◌/◌, ◌%◌, ◌^◌, ◌<◌, ◌≡◌, refl, Bool, true, not, ◌||◌, arith, ◌==◌,
  ap, ◌∙◌, ==_iff, all_below, all_below_sound, bytes_eq, bytes_eq_refl, bit_and, bit_or,
  bit_and_step, bit_or_step, bit_and-zero, bit_or-zero, bit_and_ones,
}
use rechnernetze.Bft.Flags.{Flags, or_flags, clear_flag, has_flag, flags_to_str}

div-two-pow : (f k : ℕ) → f / 2 / 2 ^ k ≡ f / 2 ^ suc k
div-two-pow f k = div-div-eq-div-mul f 2 (2 ^ k) ∙ ap (◌/◌ f) (omega (arith, pow-succ' 2 k))

-- The lowest digit of a power of two, and what is left.
half-pow : (k : ℕ) → (2 ^ suc k / 2 ≡ 2 ^ k) × (2 ^ suc k % 2 ≡ 0)
half-pow k = omega (arith, pow-succ' 2 k)

bit_and-pow : (k f : ℕ) → bit_and f (2 ^ k) ≡ f / 2 ^ k % 2 * 2 ^ k
bit_and-pow zero f = omega (arith, bit_and_step f 1, bit_and-zero (f / 2))
bit_and-pow (suc k) f =
    rw
      (
        bit_and_step f (2 ^ suc k),
        (half-pow k).0,
        (half-pow k).1,
        bit_and-pow k (f / 2),
        div-two-pow f k,
        pow-succ' 2 k,
      )
      (grind arith)

bit_or-pow : (k f : ℕ) → bit_or f (2 ^ k) ≡ f + (1 - f / 2 ^ k % 2) * 2 ^ k
bit_or-pow zero f = omega (arith, bit_or_step f 1, bit_or-zero (f / 2))
bit_or-pow (suc k) f =
    rw
      (
        bit_or_step f (2 ^ suc k),
        (half-pow k).0,
        (half-pow k).1,
        bit_or-pow k (f / 2),
        div-two-pow f k,
        pow-succ' 2 k,
      )
      (grind arith)

half_mask :
    (n k : ℕ)
    → 2 ^ k < 2 ^ n
    → ((2 ^ suc n - 1 - 2 ^ suc k) / 2 ≡ 2 ^ n - 1 - 2 ^ k) × ((2 ^ suc n - 1 - 2 ^ suc k) % 2 ≡ 1)
half_mask n k h = omega (arith, pow-succ' 2 k, pow-succ' 2 n)

-- All ones but one.
bit_and_mask :
    (k n f : ℕ)
    → 2 ^ k < 2 ^ n
    → f < 2 ^ n
    → bit_and f (2 ^ n - 1 - 2 ^ k) ≡ f - f / 2 ^ k % 2 * 2 ^ k
bit_and_mask k zero f h hf = absurd (omega (arith, one-le-pow k 2))
bit_and_mask zero (suc n) f h hf =
    let half : (2 ^ suc n - 1 - 1) / 2 ≡ 2 ^ n - 1 = omega (arith, pow-succ' 2 n) in
    let even : (2 ^ suc n - 1 - 1) % 2 ≡ 0 = omega (arith, pow-succ' 2 n) in
    rw
      (
        bit_and_step f (2 ^ suc n - 1 - 1),
        half,
        even,
        bit_and_ones n (f / 2) (omega (arith, pow-succ' 2 n)),
      )
      (omega arith)
bit_and_mask (suc k) (suc n) f h hf =
    let smaller : 2 ^ k < 2 ^ n = omega (arith, pow-succ' 2 n, pow-succ' 2 k) in
    let low : f / 2 < 2 ^ n = omega (arith, pow-succ' 2 n) in
    rw
      (
        bit_and_step f (2 ^ suc n - 1 - 2 ^ suc k),
        (half_mask n k smaller).0,
        (half_mask n k smaller).1,
        bit_and_mask k n (f / 2) smaller low,
        div-two-pow f k,
        pow-succ' 2 k,
      )
      (grind arith)

-- Of a 16-bit word, the test for one of the six flags reads that flag's bit; `|` with the flag adds
-- it if the bit is clear; and `clear_flag` takes it away if the bit is set.
pub flag_bits :
    (k : ℕ) (flags : Flags)
    → k < 6
    → flags < 2 ^ 16
    → (has_flag flags (2 ^ k) ≡ (flags / 2 ^ k % 2 == 1))
      × (or_flags flags (2 ^ k) ≡ flags + (1 - flags / 2 ^ k % 2) * 2 ^ k)
      × (clear_flag flags (2 ^ k) ≡ flags - flags / 2 ^ k % 2 * 2 ^ k)
unfolding has_flag or_flags clear_flag
flag_bits zero f hk hf = ground (arith, bit_and-pow 0 f, bit_or-pow 0 f, bit_and_mask 0 32 f)
flag_bits (suc zero) f hk hf = ground (arith, bit_and-pow 1 f, bit_or-pow 1 f, bit_and_mask 1 32 f)
flag_bits (suc (suc zero)) f hk hf =
    ground (arith, bit_and-pow 2 f, bit_or-pow 2 f, bit_and_mask 2 32 f)
flag_bits (suc (suc (suc zero))) f hk hf =
    ground (arith, bit_and-pow 3 f, bit_or-pow 3 f, bit_and_mask 3 32 f)
flag_bits (suc (suc (suc (suc zero)))) f hk hf =
    ground (arith, bit_and-pow 4 f, bit_or-pow 4 f, bit_and_mask 4 32 f)
flag_bits (suc (suc (suc (suc (suc zero))))) f hk hf =
    ground (arith, bit_and-pow 5 f, bit_or-pow 5 f, bit_and_mask 5 32 f)
flag_bits (suc (suc (suc (suc (suc (suc k)))))) f hk hf = absurd (omega arith)

same_words : ℕ → ℕ → Bool
same_words f g = not (bytes_eq (flags_to_str f) (flags_to_str g)) || f == g

word_tables : all_below (λ f. all_below (same_words f) 64) 64 ≡ true
unfolding same_words all_below flags_to_str bytes_eq
word_tables = refl

-- The text of a word made of the six flags tells which flags it has.
pub flags_to_str_injective :
    (f g : Flags) → f < 64 → g < 64 → flags_to_str f ≡ flags_to_str g → f ≡ g
unfolding same_words
flags_to_str_injective f g hf hg e =
    let found : same_words f g ≡ true =
      all_below_sound (same_words f) hg
        (all_below_sound (λ n. all_below (same_words n) 64) hf word_tables) in
    let same : bytes_eq (flags_to_str f) (flags_to_str g) ≡ true =
      rw e (bytes_eq_refl (flags_to_str g)) in
    (==_iff f g).0 (rw same at found)
