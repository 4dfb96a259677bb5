-- ===== src/Base/Words.antt =====
-- The machine integers of the sources: uint64_t, uint32_t and uint16_t as numbers that wrap.
use Prim.Native.Nat.{ℕ, ◌+◌, ◌-◌, ◌%◌, ◌/◌, ◌^◌, ◌*◌}

-- A conversion to uint32_t.
abbrev pub u32 : ℕ → ℕ
u32 n = n % 2 ^ 32

-- A conversion to uint16_t.
abbrev pub u16 : ℕ → ℕ
u16 n = n % 2 ^ 16

-- `x >> k`.
abbrev pub shr : ℕ → ℕ → ℕ
shr x k = x / 2 ^ k

-- `x << k` on uint32_t.
abbrev pub shl32 : ℕ → ℕ → ℕ
shl32 x k = u32 (x * 2 ^ k)

-- A conversion to uint64_t.
abbrev pub u64 : ℕ → ℕ
u64 n = n % 2 ^ 64

-- `a - b` on uint32_t, where `b` is one.
abbrev pub sub32 : ℕ → ℕ → ℕ
sub32 a b = u32 (a + 2 ^ 32 - b)

-- `a - b` on uint64_t, where `b` is one.
abbrev pub sub64 : ℕ → ℕ → ℕ
sub64 a b = u64 (a + 2 ^ 64 - b)
