-- ===== src/Http/Threads/Listed.antt =====
-- Which threads the list of the server still has to join.
use rechnernetze.Base.{
  ℕ, suc, ◌≡◌, ◌≢◌, refl, ap, Bool, true, false, ◌||◌, List, [], ◌∷◌, ◌++◌, arith, length, take,
  All,
}
use rechnernetze.Http.Threads.{Thread, is_thread, remove_handler_thread, joined}

unfoldable pub listed : ℕ → List Thread → Bool
listed j [] = false
listed j (t ∷ threads) = is_thread j t || listed j threads

abbrev pub IsJoined : Thread → Type 0
IsJoined t = t.joinable ≡ false

pub listed-append :
    (j : ℕ) (xs ys : List Thread) → listed j (xs ++ ys) ≡ (listed j xs || listed j ys)
unfolding listed
listed-append j [] ys = refl
listed-append j (t ∷ xs) ys = ground (arith, listed-append j xs ys)

-- Removing one thread leaves the others.
pub listed-remove :
    (j i : ℕ) (threads : List Thread)
    → j ≢ i
    → listed j (remove_handler_thread i threads) ≡ listed j threads
unfolding listed remove_handler_thread
listed-remove j i [] h = refl
listed-remove j i (t ∷ threads) h = ground (arith, listed-remove j i threads h)

-- Joining one thread leaves the others.
pub listed-joined :
    (j : ℕ) (front : List Thread) (t : Thread) (back : List Thread)
    → (t.joinable ≡ true → j ≢ t.id)
    → listed j (front ++ (joined t ∷ back)) ≡ listed j (front ++ (t ∷ back))
unfolding listed
listed-joined j [] t back h = ground arith
listed-joined j (u ∷ front) t back h = ap (λ b. is_thread j u || b) (listed-joined j front t back h)

pub listed_none : (j : ℕ) (threads : List Thread) → All IsJoined threads → listed j threads ≡ false
unfolding listed
listed_none j [] h = refl
listed_none j (t ∷ threads) (h, rest) = ground (arith, listed_none j threads rest)

-- One more entry is joined.
pub take-joined :
    (front : List Thread) (t : Thread) (back : List Thread)
    → All IsJoined (take (length front) (front ++ (t ∷ back)))
    → All IsJoined (take (suc (length front)) (front ++ (joined t ∷ back)))
take-joined [] t back h = (refl, tt)
take-joined (u ∷ front) t back (d, h) = (d, take-joined front t back h)
