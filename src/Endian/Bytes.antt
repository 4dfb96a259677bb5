-- ===== src/Endian/Bytes.antt =====
-- A number that is converted to little-endian and written by the host lies in memory as its
-- little-endian bytes, whichever order the host has.
use native.Mathlib.Nat.{pow-succ'}
use mathlib.Core.Path.{fun_ext}
use corograph.Endian.{
  bswap32, bswap64, convert_le64toh, convert_le32toh, convert_htole64, convert_htole32, store_le,
  store_be, load_le, load_be, host_store, host_load,
}
use corograph.Base.{
  ℕ, zero, suc, ◌+◌, ◌*◌, ◌/◌, ◌%◌, ◌^◌, ◌<◌, ◌≤◌, ◌≡◌, ◌⊎◌, ◌∙◌, inl, refl, Bool, true, false,
  arith, update, update_same, update_other,
}

-- A write changes nothing elsewhere.
pub store_le_frame :
    (w : ℕ) (m : ℕ → ℕ) (p x a : ℕ) → (a < p) ⊎ (p + w ≤ a) → store_le w m p x a ≡ m a
unfolding store_le
store_le_frame zero m p x a h = refl
store_le_frame (suc w) m p x a h =
    store_le_frame w (update m p (x % 2 ^ 8)) (p + 1) (x / 2 ^ 8) a (ground arith)
    ∙ update_other m p (x % 2 ^ 8) a (λ e. ground arith)

-- What a write leaves can be read back.
pub load_le-store_le :
    (w : ℕ) (m : ℕ → ℕ) (p x : ℕ) → x < 256 ^ w → load_le w (store_le w m p x) p ≡ x
unfolding load_le store_le
load_le-store_le zero m p x h = omega arith
load_le-store_le (suc w) m p x h =
    let f = store_le_frame w (update m p (x % 2 ^ 8)) (p + 1) (x / 2 ^ 8) p (inl (omega arith)) in
    let g = update_same m p (x % 2 ^ 8) in
    let q : 256 ^ suc w ≡ 256 * 256 ^ w = pow-succ' 256 w in
    let r = load_le-store_le w (update m p (x % 2 ^ 8)) (p + 1) (x / 2 ^ 8) (omega arith) in
    omega arith

store_be4_swapped : (m : ℕ → ℕ) (p x a : ℕ) → store_be 4 m p (bswap32 x) a ≡ store_le 4 m p x a
unfolding store_be store_le bswap32
store_be4_swapped m p x a = ground arith

swapped8 :
    (a b c d e f g h : ℕ)
    → a < 256
    → b < 256
    → c < 256
    → d < 256
    → e < 256
    → f < 256
    → g < 256
    → h < 256
    → bswap64 (h + 256 * (g + 256 * (f + 256 * (e + 256 * (d + 256 * (c + 256 * (b + 256 * a)))))))
      ≡ a + 256 * (b + 256 * (c + 256 * (d + 256 * (e + 256 * (f + 256 * (g + 256 * h))))))
unfolding bswap64
swapped8 a b c d e f g h pa pb pc pd pe pf pg ph = omega arith

swapped4 :
    (a b c d : ℕ)
    → a < 256
    → b < 256
    → c < 256
    → d < 256
    → bswap32 (d + 256 * (c + 256 * (b + 256 * a))) ≡ a + 256 * (b + 256 * (c + 256 * d))
unfolding bswap32
swapped4 a b c d pa pb pc pd = omega arith

-- Four bytes and eight, read from either end.
le4 :
    (m : ℕ → ℕ) (p : ℕ)
    → load_le 4 m p ≡ m p + 256 * (m (p + 1) + 256 * (m (p + 2) + 256 * m (p + 3)))
unfolding load_le
le4 m p =
    let e : p + 1 + 1 ≡ p + 2 = omega arith in
    let f : p + 2 + 1 ≡ p + 3 = omega arith in rw (e, f) (omega arith)

be4 :
    (m : ℕ → ℕ) (p : ℕ)
    → load_be 4 m p ≡ m (p + 3) + 256 * (m (p + 2) + 256 * (m (p + 1) + 256 * m p))
unfolding load_be
be4 m p = let e : p + 0 ≡ p = omega arith in rw e (omega arith)

le8 :
    (m : ℕ → ℕ) (p : ℕ)
    → load_le 8 m p
      ≡ m p
        + 256
          * (m (p + 1)
              + 256
                * (m (p + 2)
                    + 256
                      * (m (p + 3)
                          + 256
                            * (m (p + 4)
                                + 256 * (m (p + 5) + 256 * (m (p + 6) + 256 * m (p + 7)))))))
unfolding load_le
le8 m p =
    let e2 : p + 1 + 1 ≡ p + 2 = omega arith in
    let e3 : p + 2 + 1 ≡ p + 3 = omega arith in
    let e4 : p + 3 + 1 ≡ p + 4 = omega arith in
    let e5 : p + 4 + 1 ≡ p + 5 = omega arith in
    let e6 : p + 5 + 1 ≡ p + 6 = omega arith in
    let e7 : p + 6 + 1 ≡ p + 7 = omega arith in rw (e2, e3, e4, e5, e6, e7) (omega arith)

be8 :
    (m : ℕ → ℕ) (p : ℕ)
    → load_be 8 m p
      ≡ m (p + 7)
        + 256
          * (m (p + 6)
              + 256
                * (m (p + 5)
                    + 256
                      * (m (p + 4)
                          + 256 * (m (p + 3) + 256 * (m (p + 2) + 256 * (m (p + 1) + 256 * m p))))))
unfolding load_be
be8 m p = let e : p + 0 ≡ p = omega arith in rw e (omega arith)

load_be_swapped :
    (m : ℕ → ℕ) (p : ℕ) → ((k : ℕ) → m k < 2 ^ 8) → bswap64 (load_be 8 m p) ≡ load_le 8 m p
load_be_swapped m p bytes =
    rw (be8 m p, le8 m p)
      (swapped8 (m p) (m (p + 1)) (m (p + 2)) (m (p + 3)) (m (p + 4)) (m (p + 5)) (m (p + 6))
        (m (p + 7)) (bytes p) (bytes (p + 1)) (bytes (p + 2)) (bytes (p + 3)) (bytes (p + 4))
        (bytes (p + 5)) (bytes (p + 6)) (bytes (p + 7)))

load_be4_swapped :
    (m : ℕ → ℕ) (p : ℕ) → ((k : ℕ) → m k < 2 ^ 8) → bswap32 (load_be 4 m p) ≡ load_le 4 m p
load_be4_swapped m p bytes =
    rw (be4 m p, le4 m p)
      (swapped4 (m p) (m (p + 1)) (m (p + 2)) (m (p + 3)) (bytes p) (bytes (p + 1)) (bytes (p + 2))
        (bytes (p + 3)))

store_be_swapped : (m : ℕ → ℕ) (p x a : ℕ) → store_be 8 m p (bswap64 x) a ≡ store_le 8 m p x a
unfolding store_be store_le bswap64
store_be_swapped m p x a = ground arith

-- Whatever the byte order of the host, a number of eight or of four bytes that is converted to
-- little-endian before it is written leaves its little-endian bytes in memory.
pub stored_bytes :
    (little : Bool) (m : ℕ → ℕ) (p x : ℕ)
    → (host_store little 8 m p (convert_htole64 little x) ≡ store_le 8 m p x)
      × (host_store little 4 m p (convert_htole32 little x) ≡ store_le 4 m p x)
unfolding host_store convert_htole64 convert_htole32
stored_bytes true m p x = (refl, refl)
stored_bytes false m p x = (fun_ext (store_be_swapped m p x), fun_ext (store_be4_swapped m p x))

-- Whatever the byte order of the host, the conversion of what it reads from a memory of bytes is
-- the number whose little-endian bytes lie there.
pub loaded_bytes :
    (little : Bool) (m : ℕ → ℕ) (p : ℕ)
    → ((k : ℕ) → m k < 2 ^ 8)
    → (convert_le64toh little (host_load little 8 m p) ≡ load_le 8 m p)
      × (convert_le32toh little (host_load little 4 m p) ≡ load_le 4 m p)
unfolding host_load convert_le64toh convert_le32toh
loaded_bytes true m p bytes = (refl, refl)
loaded_bytes false m p bytes = (load_be_swapped m p bytes, load_be4_swapped m p bytes)

pub store_le_small :
    (w : ℕ) (m : ℕ → ℕ) (p x : ℕ) → ((k : ℕ) → m k < 2 ^ 8) → (k : ℕ) → store_le w m p x k < 2 ^ 8
unfolding store_le
store_le_small zero m p x bytes = bytes
store_le_small (suc w) m p x bytes =
    store_le_small w (update m p (x % 2 ^ 8)) (p + 1) (x / 2 ^ 8)
      (λ k. let b = bytes k in ground arith)

-- A number of eight or of four bytes that one host converts and writes is what another host reads
-- there and converts back, whatever the byte order of either.
pub any_host_reads :
    (writer reader : Bool) (m : ℕ → ℕ) (p : ℕ)
    → ((k : ℕ) → m k < 2 ^ 8)
    → ((x : ℕ)
        → x < 2 ^ 64
        → convert_le64toh reader
            (host_load reader 8 (host_store writer 8 m p (convert_htole64 writer x)) p)
          ≡ x)
      × ((x : ℕ)
          → x < 2 ^ 32
          → convert_le32toh reader
              (host_load reader 4 (host_store writer 4 m p (convert_htole32 writer x)) p)
            ≡ x)
any_host_reads writer reader m p bytes = (
  λ x h.
      rw
        (
          (stored_bytes writer m p x).0,
          (loaded_bytes reader (store_le 8 m p x) p (store_le_small 8 m p x bytes)).0,
        )
        (load_le-store_le 8 m p x h),
  λ x h.
      rw
        (
          (stored_bytes writer m p x).1,
          (loaded_bytes reader (store_le 4 m p x) p (store_le_small 4 m p x bytes)).1,
        )
        (load_le-store_le 4 m p x h),
)
