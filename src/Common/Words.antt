-- ===== src/Common/Words.antt =====
-- 64-bit words: wrap-around of the atomic operations, and single bits in arithmetic form.
use Prim.Native.Nat.{ℕ, ◌+◌, ◌-◌, ◌*◌, ◌/◌, ◌%◌, ◌^◌}

abbrev pub u32 : ℕ → ℕ
u32 n = n % 2 ^ 32

abbrev pub u64 : ℕ → ℕ
u64 n = n % 2 ^ 64

-- pg_atomic_fetch_add_u64 and pg_atomic_fetch_sub_u64 on the word's value.
abbrev pub fetch_add : ℕ → ℕ → ℕ
fetch_add w v = (w + v) % 2 ^ 64

abbrev pub fetch_sub : ℕ → ℕ → ℕ
fetch_sub w v = (w + 2 ^ 64 - v) % 2 ^ 64

-- x & (2^k - 1).
abbrev pub low_bits : ℕ → ℕ → ℕ
low_bits x k = x % 2 ^ k

-- (x >> k) & 1.
abbrev pub bit : ℕ → ℕ → ℕ
bit x k = x / 2 ^ k % 2

-- x | (1 << k).
abbrev pub set_bit : ℕ → ℕ → ℕ
set_bit x k = x + (1 - bit x k) * 2 ^ k

-- x & ~(1 << k).
abbrev pub clear_bit : ℕ → ℕ → ℕ
clear_bit x k = x - bit x k * 2 ^ k
