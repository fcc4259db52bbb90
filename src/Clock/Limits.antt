-- ===== src/Clock/Limits.antt =====
-- clock.go: the bound on timestamps and sequence numbers, and 64-bit increments.
use geo_crdt.Common.{ℕ, ◌+◌, ◌%◌, ◌^◌, ◌<◌, ◌≡◌, arith}

abbrev pub max_timestamp : ℕ
max_timestamp = 2 ^ 62

-- `n + 1` on a `uint64`.
unfoldable pub inc : ℕ → ℕ
inc n = (n + 1) % 2 ^ 64

-- Below the bound an increment does not wrap.
pub inc_below : (n : ℕ) → n < max_timestamp → inc n ≡ n + 1
unfolding inc
inc_below n h = omega arith
