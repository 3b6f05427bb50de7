-- ===== src/Http/Sizes/Examples.antt =====
-- The sizes of some files.
use rechnernetze.Base.{◌≡◌, refl}
use rechnernetze.Http.Sizes.{find_order, nearest, round_from, to_double, order_and_value}

one_and_a_half : order_and_value 1536 ≡ (1, record { size = 1536; scale = 1024 })
unfolding order_and_value find_order to_double round_from nearest
one_and_a_half = refl

-- 5000 TB have no larger unit.
many : (order_and_value 5497558138880000).0 ≡ 4
unfolding order_and_value find_order to_double round_from nearest
many = refl

-- Above 2^53 an odd number lies between two doubles, and the even of them is taken.
tie : to_double 9007199254740993 ≡ 9007199254740992
unfolding to_double round_from nearest
tie = refl

tie_up : to_double 9007199254740995 ≡ 9007199254740996
unfolding to_double round_from nearest
tie_up = refl
