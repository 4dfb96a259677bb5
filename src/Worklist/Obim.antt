-- ===== src/Worklist/Obim.antt =====
-- The bags of libcoro/include/galois/worklists/Obim.h: one for each priority, in the order of their
-- creation in `masterLog`, and in a `flat_map` of each thread. A bag is its address; `ptr` is the
-- address that `new Container()` gives.
pub mod Log
pub mod Follow
pub mod Agree
pub mod Push
pub mod Pop
mod Tests
use corograph.Base.{
  ℕ, zero, suc, ◌+◌, ◌≡◌, Bool, true, false, List, [], ◌∷◌, ◌++◌, Option, none, some, ◌==◌,
  if◌then◌else◌, length, drop, update,
}
use corograph.FlatMap.{assign, find, value_at}

-- `masterLog`, and of each thread `local` and `lastMasterVersion`. `masterVersion` is the length of
-- the log whenever the lock is free.
pub record Bags : Type 0 where
  pub master_log : List (ℕ × ℕ)
  pub local : ℕ → List (ℕ × ℕ)
  pub last_master_version : ℕ → ℕ

unfoldable pub no_bags : Bags
no_bags = record { master_log = []; local = λ t. []; last_master_version = λ t. 0 }

-- `p.local.find(i)` and `it->second`, or `end()`.
abbrev pub found : List (ℕ × ℕ) → ℕ → Option ℕ
found local i = value_at local (find local i)

-- The loop of `updateLocal` over the entries of the log that the thread has not seen.
unfoldable pub replay : List (ℕ × ℕ) → List (ℕ × ℕ) → List (ℕ × ℕ)
replay local [] = local
replay local ((index, bag) ∷ entries) = replay (assign 0 local index bag) entries

-- `updateLocal` of the thread `t`.
unfoldable pub update_local : Bags → ℕ → Bags
update_local s t =
    let seen = s.last_master_version t in
    record s {
      local = update s.local t (replay (s.local t) (drop seen s.master_log));
      last_master_version = update s.last_master_version t (length s.master_log);
    }

-- A new bag for the priority `i`, under the lock.
abbrev pub create : Bags → ℕ → ℕ → ℕ → Bags
create s t i ptr = record {
  master_log = s.master_log ++ (i, ptr) ∷ [];
  local = update s.local t (assign 0 (s.local t) i ptr);
  last_master_version = update s.last_master_version t (length s.master_log + 1);
}

-- `if (it != p.local.end()) return it->second;`, and what else.
abbrev pub known : Option ℕ → Bags → Bags × ℕ → Bags × ℕ
known (some bag) s otherwise = (s, bag)
known none s otherwise = otherwise

-- `slowUpdateLocalOrCreate`: what it does once it has the lock, or has found the bag without.
unfoldable pub slow_update_local_or_create : Bags → ℕ → ℕ → ℕ → Bags × ℕ
slow_update_local_or_create s t i ptr =
    let updated = update_local s t in
    known (found (updated.local t) i) updated (create updated t i ptr, ptr)

-- `updateLocalOrCreate`.
unfoldable pub update_local_or_create : Bags → ℕ → ℕ → ℕ → Bags × ℕ
update_local_or_create s t i ptr =
    known (found (s.local t) i) s (slow_update_local_or_create s t i ptr)

-- What the threads do, one after the other: `updateLocal` at any time, also while another thread
-- holds the lock and this one tries, and `updateLocalOrCreate`.
pub data Run : Bags → Type 0 where
  start : Run no_bags
  updates : {s : Bags} (t : ℕ) → Run s → Run (update_local s t)
  asks : {s : Bags} (t i ptr : ℕ) → Run s → Run (update_local_or_create s t i ptr).0
