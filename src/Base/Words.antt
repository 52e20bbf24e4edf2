-- ===== src/Base/Words.antt =====
-- The ranges of the source's unsigned integers, and its wrapping increments.
use Prim.Native.Nat.{ℕ, ◌+◌, ◌%◌}

-- 2^32, for `u32`.
abbrev pub u32_mod : ℕ
u32_mod = 4294967296

-- 2^64, for `u64`.
abbrev pub u64_mod : ℕ
u64_mod = 18446744073709551616

-- `n.wrapping_add(1)` on `u32`.
abbrev pub wrapping_suc : ℕ → ℕ
wrapping_suc n = (n + 1) % u32_mod

abbrev pub u32_max : ℕ
u32_max = 4294967295
