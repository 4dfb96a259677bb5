-- ===== src/Endian.antt =====
-- Byte orders, of libcoro/include/galois/Endian.h. `little` says that the host is little-endian,
-- and otherwise it is big-endian; memory holds a byte at each address.
pub mod Swap
pub mod Bytes
mod Tests
use corograph.Base.{ℕ, zero, suc, ◌+◌, ◌*◌, ◌/◌, ◌%◌, ◌^◌, Bool, true, false, if◌then◌else◌, update}

-- The byte at position `k`, as a shift and a mask select it.
abbrev pub byte : (k x : ℕ) → ℕ
byte k x = x / 2 ^ (8 * k) % 2 ^ 8

-- The parts of the result have no bit in common, so that their union is their sum.
unfoldable pub bswap32 : ℕ → ℕ
bswap32 x = byte 0 x * 2 ^ 24 + byte 1 x * 2 ^ 16 + byte 2 x * 2 ^ 8 + byte 3 x

unfoldable pub bswap64 : ℕ → ℕ
bswap64 x =
    byte 0 x * 2 ^ 56
    + byte 1 x * 2 ^ 48
    + byte 2 x * 2 ^ 40
    + byte 3 x * 2 ^ 32
    + byte 4 x * 2 ^ 24
    + byte 5 x * 2 ^ 16
    + byte 6 x * 2 ^ 8
    + byte 7 x

unfoldable pub convert_le64toh : (little : Bool) → ℕ → ℕ
convert_le64toh little x = if little then x else bswap64 x

unfoldable pub convert_le32toh : (little : Bool) → ℕ → ℕ
convert_le32toh little x = if little then x else bswap32 x

-- Big-endian is the order of a host that is not little-endian.
unfoldable pub convert_htobe64 : (little : Bool) → ℕ → ℕ
convert_htobe64 little x = if little then bswap64 x else x

unfoldable pub convert_htobe32 : (little : Bool) → ℕ → ℕ
convert_htobe32 little x = if little then bswap32 x else x

unfoldable pub convert_htole64 : (little : Bool) → ℕ → ℕ
convert_htole64 little x = if little then x else bswap64 x

unfoldable pub convert_htole32 : (little : Bool) → ℕ → ℕ
convert_htole32 little x = if little then x else bswap32 x

-- The host's writes and reads of a number of `w` bytes at address `p`.
unfoldable pub store_le : (w : ℕ) → (ℕ → ℕ) → (p x : ℕ) → ℕ → ℕ
store_le zero m p x = m
store_le (suc w) m p x = store_le w (update m p (x % 2 ^ 8)) (p + 1) (x / 2 ^ 8)

unfoldable pub store_be : (w : ℕ) → (ℕ → ℕ) → (p x : ℕ) → ℕ → ℕ
store_be zero m p x = m
store_be (suc w) m p x = store_be w (update m (p + w) (x % 2 ^ 8)) p (x / 2 ^ 8)

unfoldable pub load_le : (w : ℕ) → (ℕ → ℕ) → (p : ℕ) → ℕ
load_le zero m p = 0
load_le (suc w) m p = m p + 2 ^ 8 * load_le w m (p + 1)

unfoldable pub load_be : (w : ℕ) → (ℕ → ℕ) → (p : ℕ) → ℕ
load_be zero m p = 0
load_be (suc w) m p = m (p + w) + 2 ^ 8 * load_be w m p

unfoldable pub host_store : (little : Bool) (w : ℕ) → (ℕ → ℕ) → (p x : ℕ) → ℕ → ℕ
host_store little w m p x = if little then store_le w m p x else store_be w m p x

unfoldable pub host_load : (little : Bool) (w : ℕ) → (ℕ → ℕ) → (p : ℕ) → ℕ
host_load little w m p = if little then load_le w m p else load_be w m p
