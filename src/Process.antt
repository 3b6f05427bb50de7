-- ===== src/Process.antt =====
-- What the programs share with the system around them: how a run can end, addresses,
-- the outcome of `recvfrom`, and the checksum library.
use rechnernetze.Base.{
  ℕ, ◌^◌, ◌+◌, ◌*◌, ◌/◌, ◌%◌, arith, ◌<◌, ◌≡◌, ◌⊎◌, inl, inr, refl, sym, ◌∙◌, subst, List, Bool,
  true, false, if◌then◌else◌, ltb,
}

abbrev pub Bytes : Type 0
Bytes = List ℕ

-- Why a run does not go on: `exit` with its code, an exception, the end of the events that were given
-- to the model, or one of the faults for which C++ defines no behaviour.
pub data Stop : Type 0 where
  exited : ℕ → Stop
  thrown : Stop
  pending : Stop
  buffer_overread buffer_overrun null_dereference division_by_zero invalid_free indeterminate_value
        signed_overflow :
      Stop

pub data Result {ℓ} (A : Type ℓ) : Type ℓ where
  ok : A → Result A
  stop : Stop → Result A

infixl 5 ◌>>=◌ ◌>>◌
abbrev pub ◌>>=◌ {ℓ κ} : {A : Type ℓ} {B : Type κ} → Result A → (A → Result B) → Result B
stop why >>= k = stop why
ok a >>= k = k a

abbrev pub require : Bool → Stop → Result (Unit {0})
require false why = stop why
require true why = ok tt

-- A number that is not negative is an `int`.
abbrev pub fits_int : ℕ → Bool
fits_int n = ltb n (2 ^ 31)

-- One after the other, the first for its effect.
abbrev pub ◌>>◌ {ℓ} : {B : Type ℓ} → Result (Unit {0}) → Result B → Result B
first >> second = first >>= (λ _. second)

abbrev pub exit_success : ℕ
exit_success = 0

abbrev pub exit_failure : ℕ
exit_failure = 1

-- The fields of a `sockaddr_in` that the programs set or compare.
pub record Address : Type 0 where
  pub s_addr : ℕ
  pub sin_port : ℕ

-- The bytes of a 16-bit number change places on a little-endian machine.
unfoldable pub htons : ℕ → ℕ
htons n = (n % 256) * 256 + n / 256

pub htons-htons : (n : ℕ) → n < 2 ^ 16 → htons (htons n) ≡ n
unfolding htons
htons-htons n h = omega arith

-- One call of `recvfrom`: a packet with its sender; -1 with EAGAIN or EWOULDBLOCK, as after the
-- receive timeout; -1 with any other error.
pub data RecvFrom : Type 0 where
  packet : Bytes → Address → RecvFrom
  again : RecvFrom
  broken : RecvFrom

-- CRC::Calculate with CRC::CRC_32, whose result is a 32-bit number.
pub record Crc : Type 0 where
  pub calculate : Bytes → ℕ
  pub calculate_bound : (bytes : Bytes) → calculate bytes < 2 ^ 32

-- A bind that returns has run both parts.
pub >>=-eq-ok {ℓ κ} :
    {X : Type ℓ} {Y : Type κ} (first : Result X) (next : X → Result Y) {y : Y}
    → (first >>= next) ≡ ok y
    → (x : X) × (first ≡ ok x) × (next x ≡ ok y)
>>=-eq-ok (stop why) next ran = cc
>>=-eq-ok (ok x) next ran = (x, refl, ran)

pub ok-injective {ℓ} : {A : Type ℓ} {a b : A} → ok a ≡ ok b → a ≡ b
ok-injective h = cc

-- A property of the only result that a call can have.
pub of_ok {ℓ κ} :
    {A : Type ℓ} (P : A → Type κ) {m : Result A} {a b : A} → m ≡ ok a → m ≡ ok b → P a → P b
of_ok P e h p = subst P (ok-injective (sym e ∙ h)) p

-- A postcondition of the results that are returned.
abbrev pub Ensures {ℓ κ} : {A : Type ℓ} → (A → Type κ) → Result A → Type κ
Ensures P (ok a) = P a
Ensures P (stop s) = Unit

pub Ensures-ok {ℓ κ} :
    {A : Type ℓ} (P : A → Type κ) (m : Result A) {a : A} → Ensures P m → m ≡ ok a → P a
Ensures-ok P m h e = subst (Ensures P) e h

pub Ensures-intro {ℓ κ} :
    {A : Type ℓ} (P : A → Type κ) (m : Result A) → ((a : A) → m ≡ ok a → P a) → Ensures P m
Ensures-intro P (ok a) h = h a refl
Ensures-intro P (stop s) h = tt

pub Ensures-bind {ℓ κ μ ν} :
    {A : Type ℓ} {B : Type κ} (P : B → Type ν) (m : Result A) (f : A → Result B) (Q : A → Type μ)
    → Ensures Q m
    → ((a : A) → Q a → Ensures P (f a))
    → Ensures P (m >>= f)
Ensures-bind P (ok a) f Q h k = k a h
Ensures-bind P (stop s) f Q h k = tt

-- Whatever the first part gives.
pub Ensures-next {ℓ κ ν} :
    {A : Type ℓ} {B : Type κ} (P : B → Type ν) (m : Result A) (f : A → Result B)
    → ((a : A) → Ensures P (f a))
    → Ensures P (m >>= f)
Ensures-next P (ok a) f k = k a
Ensures-next P (stop s) f k = tt

pub Ensures-if {ℓ κ} :
    {A : Type ℓ} (P : A → Type κ) (b : Bool) (x y : Result A)
    → (b ≡ true → Ensures P x)
    → (b ≡ false → Ensures P y)
    → Ensures P (if b then x else y)
Ensures-if P true x y h k = h refl
Ensures-if P false x y h k = k refl

pub Ensures-require {ℓ κ} :
    {A : Type ℓ} (P : A → Type κ) (b : Bool) (why : Stop) (m : Result A)
    → (b ≡ true → Ensures P m)
    → Ensures P (require b why >> m)
Ensures-require P true why m h = h refl
Ensures-require P false why m h = tt

pub require-true : (b : Bool) (why : Stop) {u : Unit {0}} → require b why ≡ ok u → b ≡ true
require-true true why h = refl
require-true false why h = absurd (cc h)

pub Ensures-mono {ℓ κ μ} :
    {A : Type ℓ} (P : A → Type κ) (Q : A → Type μ) (m : Result A)
    → ((a : A) → P a → Q a)
    → Ensures P m
    → Ensures Q m
Ensures-mono P Q (ok a) k h = k a h
Ensures-mono P Q (stop s) k h = tt

pub Result-cases {ℓ} :
    {A : Type ℓ} (m : Result A) → ((a : A) × (m ≡ ok a)) ⊎ ((s : Stop) × (m ≡ stop s))
Result-cases (ok a) = inl (a, refl)
Result-cases (stop s) = inr (s, refl)

-- A result that is returned, with its postcondition.
abbrev pub Returns {ℓ κ} : {A : Type ℓ} → (A → Type κ) → Result A → Type (ℓ ⊔ κ)
Returns {A} P m = (a : A) × (m ≡ ok a) × P a

pub Returns-if {ℓ κ} :
    {A : Type ℓ} (P : A → Type κ) (b : Bool) (x y : Result A)
    → (b ≡ true → Returns P x)
    → (b ≡ false → Returns P y)
    → Returns P (if b then x else y)
Returns-if P true x y h k = h refl
Returns-if P false x y h k = k refl

pub Returns-bind {ℓ κ μ ν} :
    {A : Type ℓ} {B : Type κ} (P : B → Type ν) (m : Result A) (f : A → Result B) (Q : A → Type μ)
    → Returns Q m
    → ((a : A) → Q a → Returns P (f a))
    → Returns P (m >>= f)
Returns-bind P m f Q (a, e, q) k = rw e (k a q)

pub >>=-cong {ℓ κ} :
    {A : Type ℓ} {B : Type κ} (m : Result A) (f g : A → Result B)
    → ((a : A) → m ≡ ok a → f a ≡ g a)
    → (m >>= f) ≡ (m >>= g)
>>=-cong (ok a) f g h = h a refl
>>=-cong (stop s) f g h = refl

pub >>=-assoc {ℓ κ μ} :
    {A : Type ℓ} {B : Type κ} {C : Type μ} (m : Result A) (f : A → Result B) (g : B → Result C)
    → ((m >>= f) >>= g) ≡ (m >>= λ a. f a >>= g)
>>=-assoc (ok a) f g = refl
>>=-assoc (stop s) f g = refl
