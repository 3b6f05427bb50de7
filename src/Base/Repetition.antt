-- ===== src/Base/Repetition.antt =====
-- Lists of numbers without repetitions.
use Prim.Native.Nat.{ℕ, ◌<◌}
use mathlib.Core.Path.{◌≡◌, refl}
use mathlib.Core.Bool.{Bool, false, ◌||◌}
use mathlib.Core.List.{List, [], ◌∷◌, ◌++◌}
use native.Mathlib.Omega.{arith}
use rechnernetze.Base.Tests.{◌==◌}
use rechnernetze.Base.Lists.{All}

abbrev pub contains : ℕ → List ℕ → Bool
contains n [] = false
contains n (m ∷ ms) = (m == n) || contains n ms

abbrev pub Distinct : List ℕ → Type 0
Distinct [] = Unit
Distinct (n ∷ ns) = (contains n ns ≡ false) × Distinct ns

pub contains-append :
    (n : ℕ) (ms ns : List ℕ) → contains n (ms ++ ns) ≡ (contains n ms || contains n ns)
contains-append n [] ns = refl
contains-append n (m ∷ ms) ns = ground (arith, contains-append n ms ns)

-- An entry is not among those before it.
pub Distinct-front : (n : ℕ) (ms ns : List ℕ) → Distinct (ms ++ (n ∷ ns)) → contains n ms ≡ false
Distinct-front n [] ns d = refl
Distinct-front n (m ∷ ms) ns (fresh, d) =
    ground (arith, Distinct-front n ms ns d, contains-append m ms (n ∷ ns))

pub Distinct-rest : (n : ℕ) (ms ns : List ℕ) → Distinct (ms ++ (n ∷ ns)) → Distinct (ms ++ ns)
Distinct-rest n [] ns (fresh, d) = d
Distinct-rest n (m ∷ ms) ns (fresh, d) = (
  ground (arith, contains-append m ms (n ∷ ns), contains-append m ms ns),
  Distinct-rest n ms ns d,
)

-- A number above all others is not among them.
pub contains_above : (n : ℕ) (ns : List ℕ) → All (λ m. m < n) ns → contains n ns ≡ false
contains_above n [] h = refl
contains_above n (m ∷ ms) (less, h) = ground (arith, contains_above n ms h)
