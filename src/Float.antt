-- ===== src/Float.antt =====
-- `float64` as its 64-bit IEEE pattern, which is all that the code compares, tests and hashes.
use geo_crdt.Common.{ℕ, ◌/◌, ◌%◌, ◌^◌, Bool, ◌&&◌, ◌||◌, not, ◌==◌}

abbrev pub Float : Type 0
Float = ℕ

-- The biased exponent, and the pattern with the sign dropped.
abbrev exponent : Float → ℕ
exponent v = v / 2 ^ 52 % 2 ^ 11

abbrev magnitude : Float → ℕ
magnitude v = v % 2 ^ 63

unfoldable pub is_nan : Float → Bool
is_nan v = (exponent v == 2047) && not (v % 2 ^ 52 == 0)

-- `isFinite` of geometry.go: neither NaN nor an infinity.
unfoldable pub is_finite : Float → Bool
is_finite v = not (exponent v == 2047)

-- `a == b`: false on NaN, and the two zeros are equal.
unfoldable pub float_eq : Float → Float → Bool
unfolding is_nan
float_eq a b =
    not (is_nan a) && not (is_nan b) && ((a == b) || ((magnitude a == 0) && (magnitude b == 0)))
