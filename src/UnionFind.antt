-- ===== src/UnionFind.antt =====
-- The nodes of libcoro/include/galois/UnionFind.h: `m_component` as a map of addresses, 0 the null
-- pointer. An operation is run by one thread.
pub mod Root
pub mod Compress
pub mod Merge
mod Tests
use corograph.Base.{
  ℕ, zero, suc, Bool, true, false, not, ◌&&◌, Option, none, some, ltb, ◌==◌, if◌then◌else◌, update,
}

unfoldable pub is_rep : (m : ℕ → ℕ) → ℕ → Bool
is_rep m n = m n == n

-- The walk to the root. A link leads to a lower address, so that the address is fuel enough.
unfoldable pub to_root : (m : ℕ → ℕ) (fuel rep : ℕ) → ℕ
to_root m zero rep = rep
to_root m (suc fuel) rep = let rest = to_root m fuel (m rep) in if m rep == rep then rep else rest

unfoldable pub find : (m : ℕ → ℕ) → ℕ → ℕ
find m n = if is_rep m n then m n else to_root m (m n) (m n)

unfoldable pub compress : (m : ℕ → ℕ) → ℕ → ℕ → ℕ
compress m n = if is_rep m n then m else update m n (to_root m (m n) (m n))

-- The write to the node before, unless there is none or it has a new component.
unfoldable pub shortcut : (m : ℕ → ℕ) → (rep prev : ℕ) → ℕ → ℕ
shortcut m rep prev = if not (prev == 0) && (m prev == rep) then update m prev (m rep) else m

unfoldable pub compress_loop : (m : ℕ → ℕ) (fuel rep prev : ℕ) → ℕ × (ℕ → ℕ)
compress_loop m zero rep prev = (rep, m)
compress_loop m (suc fuel) rep prev =
    let rest = compress_loop (shortcut m rep prev) fuel (m rep) rep in
    if m rep == rep then (rep, m) else rest

unfoldable pub find_and_compress : (m : ℕ → ℕ) → ℕ → ℕ × (ℕ → ℕ)
find_and_compress m n = if is_rep m n then (m n, m) else compress_loop m (m n) (m n) 0

-- The exchange of the component of the higher root, with the result: whether it was exchanged, and
-- the component found before.
unfoldable pub exchange : (m : ℕ → ℕ) → (expected desired a : ℕ) → Bool × ℕ × (ℕ → ℕ)
exchange m expected desired a =
    if m a == expected then (true, m a, update m a desired) else (false, m a, m)

-- The loop of `merge`: nothing when the fuel ends.
unfoldable pub merge_loop : (m : ℕ → ℕ) (fuel a b : ℕ) → Option (ℕ × (ℕ → ℕ))
merge_loop m zero a b = none
merge_loop m (suc fuel) a b =
    let fa = find_and_compress m a in
    let fb = find_and_compress fa.1 b in
    let high = if ltb fa.0 fb.0 then fb.0 else fa.0 in
    let low = if ltb fa.0 fb.0 then fa.0 else fb.0 in
    let cas = exchange fb.1 high low high in
    let rest = merge_loop cas.2 fuel cas.1 low in
    if fa.0 == fb.0 then some (0, fb.1) else if cas.0 then some (low, cas.2) else rest

-- One round is enough for a thread that runs alone.
unfoldable pub merge : (m : ℕ → ℕ) → (this b : ℕ) → Option (ℕ × (ℕ → ℕ))
merge m this b = merge_loop m 1 (m this) b
