-- ===== src/Endian/Tests.antt =====
-- Words of libcoro/include/galois/Endian.h on hosts of both byte orders.
use corograph.Endian.{
  bswap32, convert_le64toh, convert_le32toh, convert_htole64, convert_htole32, host_store,
  host_load,
}
use corograph.Endian.Bytes.{any_host_reads}
use corograph.Base.{ℕ, ◌^◌, ◌<◌, ◌≡◌, refl, true, false, arith}

swapped : bswap32 0x0102_0304 ≡ 0x0403_0201
unfolding bswap32
swapped = refl

-- A big-endian host writes at address 16 what a little-endian one reads.
any_host_reads_example :
    ((x : ℕ)
      → x < 2 ^ 64
      → convert_le64toh true
          (host_load true 8 (host_store false 8 (λ a. 0) 16 (convert_htole64 false x)) 16)
        ≡ x)
    × ((x : ℕ)
        → x < 2 ^ 32
        → convert_le32toh true
            (host_load true 4 (host_store false 4 (λ a. 0) 16 (convert_htole32 false x)) 16)
          ≡ x)
any_host_reads_example = any_host_reads false true (λ a. 0) 16 (λ k. omega arith)
