-- ===== src/Http/Sizes.antt =====
-- aufg2_3_http/http_server/src/helper.cpp: file_size_to_str. The division of a double by 1024 is exact,
-- so the double is a fraction: the rounded size over a power of 1024.
pub mod Orders
mod Examples
use rechnernetze.Base.{
  ℕ, zero, suc, ◌+◌, ◌*◌, ◌^◌, Bool, true, false, ◌&&◌, List, [], ◌∷◌, ◌++◌, codes, ltb, leb, ◌||◌,
  ◌==◌, ◌/◌, ◌%◌, if◌then◌else◌,
}
use rechnernetze.Process.{Bytes}

-- size / scale
pub record Double : Type 0 where
  pub size : ℕ
  pub scale : ℕ

-- `units[order]`
unfoldable pub unit : ℕ → Bytes
unit zero = codes "B"
unit (suc zero) = codes "kB"
unit (suc (suc zero)) = codes "MB"
unit (suc (suc (suc zero))) = codes "GB"
unit (suc (suc (suc (suc n)))) = codes "TB"

-- The loop from an order and a double on, with fuel for its passes.
unfoldable pub find_order : ℕ → ℕ → Double → ℕ × Double
find_order zero order d = (order, d)
find_order (suc fuel) order d = elim (leb (1024 * d.scale) d.size && ltb order 4) [
  | true ↦ find_order fuel (suc order) (record { size = d.size; scale = d.scale * 1024 })
  | false ↦ (order, d)
]

-- `n` to the nearest multiple of `step`, of two as near the even one.
unfoldable pub nearest : ℕ → ℕ → ℕ
nearest step n =
    let up = ltb step (2 * (n % step)) || ((2 * (n % step) == step) && (n / step % 2 == 1)) in
    (n / step + (if up then 1 else 0)) * step

-- `(double) size`: 53 bits of the number are kept. `fuel` is the count of bits that can be dropped.
unfoldable pub round_from : ℕ → ℕ → ℕ → ℕ
round_from zero step n = nearest step n
round_from (suc fuel) step n =
    let more = round_from fuel (2 * step) n in
    if ltb n (2 ^ 53 * step) then nearest step n else more

-- A uint64_t has 11 bits more than that.
unfoldable pub to_double : ℕ → ℕ
to_double size = round_from 11 1 size

-- `order` ends the loop after four passes.
unfoldable pub order_and_value : ℕ → ℕ × Double
order_and_value size = find_order 5 0 (record { size = to_double size; scale = 1 })

-- With the text of a double with one decimal place.
unfoldable pub file_size_to_str : (Double → Bytes) → ℕ → Bytes
file_size_to_str format size = let found = order_and_value size in format found.1 ++ unit found.0
