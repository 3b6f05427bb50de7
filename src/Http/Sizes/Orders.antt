-- ===== src/Http/Sizes/Orders.antt =====
-- The unit that file_size_to_str chooses.
use rechnernetze.Base.{ℕ, ◌*◌, ◌^◌, ◌≤◌, ◌<◌, ◌≡◌}
use rechnernetze.Http.Sizes.{Double}

-- The number in front of the unit: below 1024, but for the last unit; and at least 1, but for bytes.
pub record IsScaled (size : ℕ) (found : ℕ × Double) : Type 0 where
  pub order_bound : found.0 ≤ 4
  pub scale : found.1.scale ≡ 1024 ^ found.0
  pub same : found.1.size ≡ size
  pub small : found.0 < 4 → found.1.size < 1024 * found.1.scale
  pub large : 0 < found.0 → found.1.scale ≤ found.1.size
