-- ===== src/Endian/Swap.antt =====
-- The exchange of bytes of libcoro/include/galois/Endian.h undoes itself.
use corograph.Endian.{
  bswap32, bswap64, convert_le64toh, convert_le32toh, convert_htobe64, convert_htobe32,
  convert_htole64, convert_htole32,
}
use corograph.Base.{ℕ, ◌^◌, ◌<◌, ◌≡◌, ◌⊎◌, inl, inr, refl, Bool, true, false, arith}

pub bswap32_back : (x : ℕ) → x < 2 ^ 32 → bswap32 (bswap32 x) ≡ x
unfolding bswap32
bswap32_back x h = omega arith

pub bswap64_back : (x : ℕ) → x < 2 ^ 64 → bswap64 (bswap64 x) ≡ x
unfolding bswap64
bswap64_back x h = omega arith

-- On a host of either byte order, the conversions of words to and from little-endian undo each
-- other, and one of the conversions to little-endian and to big-endian leaves a word as it is.
pub conversions_undo :
    (little : Bool) (x y : ℕ)
    → x < 2 ^ 64
    → y < 2 ^ 32
    → (convert_le64toh little (convert_htole64 little x) ≡ x)
      × (convert_le32toh little (convert_htole32 little y) ≡ y)
      × ((convert_htole64 little x ≡ x) ⊎ (convert_htobe64 little x ≡ x))
      × ((convert_htole32 little y ≡ y) ⊎ (convert_htobe32 little y ≡ y))
unfolding convert_le64toh convert_le32toh convert_htole64 convert_htole32 convert_htobe64
    convert_htobe32
conversions_undo true x y h p = (refl, refl, inl refl, inl refl)
conversions_undo false x y h p = (bswap64_back x h, bswap32_back y p, inr refl, inr refl)
