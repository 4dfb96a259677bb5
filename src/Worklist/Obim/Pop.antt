-- ===== src/Worklist/Obim/Pop.antt =====
-- `pop2`, `pop3` and `slowPop2` of libcoro/include/galois/worklists/Obim.h (`slowPop3` is the same
-- as `slowPop2`), over the bags' own `pop2`: the result of it is a chunk, or 0 when it finds none.
pub mod Start
pub mod Scan
pub mod Bag
mod Tests
use corograph.FlatMap.{lower_bound}
use corograph.Worklist.Obim.{Bags, update_local}
use corograph.Worklist.Obim.Push.{ThreadData}
use corograph.Base.{
  ℕ, zero, suc, Bool, not, List, [], ◌∷◌, Option, none, some, ltb, ◌==◌, if◌then◌else◌, drop,
  update,
}

-- The whole work list: the log and the maps, what is in the bag at each address, and the threads.
pub record Obim (C : Type 0) : Type 0 where
  pub bags : Bags
  pub containers : ℕ → C
  pub threads : ℕ → ThreadData

-- The threads that run, and which of them lead their sockets.
pub record Pool : Type 0 where
  pub active : ℕ
  pub is_leader : ℕ → Bool
  pub leader : ℕ → ℕ

-- The lower of two priorities, as the tests keep it.
abbrev pub lower : (o ms : ℕ) → ℕ
lower o ms = if ltb o ms then o else ms

-- The loop of a leader over the threads from `i` on.
unfoldable pub least_scan : (threads : ℕ → ThreadData) (left i ms : ℕ) → ℕ
least_scan threads zero i ms = ms
least_scan threads (suc left) i ms =
    least_scan threads left (suc i) (lower (threads i).scan_start ms)

-- Where the scan of the thread `t` starts.
unfoldable pub scan_from : Pool → (threads : ℕ → ThreadData) (t : ℕ) → ℕ
scan_from pool threads t =
    if pool.is_leader t
    then least_scan threads pool.active 0 (threads t).scan_start
    else lower (threads (pool.leader t)).scan_start (threads t).scan_start

module _ {C : Type 0} (bag_pop2 : C → (t : ℕ) → C × ℕ) where
  -- The loop over the entries of the map: what is left in the bags, and the entry with its chunk.
  unfoldable pub pop_entries : (ℕ → C) → (t : ℕ) → List (ℕ × ℕ) → (ℕ → C) × Option (ℕ × ℕ × ℕ)
  pop_entries containers t [] = (containers, none)
  pop_entries containers t ((index, bag) ∷ entries) =
      let (c, item) = bag_pop2 (containers bag) t in
      let rest = pop_entries (update containers bag c) t entries in
      if item == 0 then rest else (update containers bag c, some (index, bag, item))

  -- The thread that found a chunk.
  unfoldable pub settle :
      Bags → (ℕ → ThreadData) → (t : ℕ) → (ℕ → C) × Option (ℕ × ℕ × ℕ) → Obim C × ℕ
  settle s threads t (containers, none) =
      (record { bags = s; containers = containers; threads = threads }, 0)
  settle s threads t (containers, some (index, bag, item)) = (
    record {
      bags = s;
      containers = containers;
      threads = update threads t record { cur_index = index; scan_start = index; current = bag };
    },
    item,
  )

  unfoldable pub slow_pop2 : Pool → Obim C → (t : ℕ) → Obim C × ℕ
  slow_pop2 pool o t =
      let s = update_local o.bags t in
      let local = s.local t in
      settle s o.threads t
        (pop_entries o.containers t (drop (lower_bound local (scan_from pool o.threads t)) local))

  -- The chunk of the current bag, or 0.
  unfoldable pub pop3 : Obim C → (t : ℕ) → Obim C × ℕ
  pop3 o t =
      let current = (o.threads t).current in
      let (c, item) = bag_pop2 (o.containers current) t in
      if current == 0
      then (o, 0)
      else (record o { containers = update o.containers current c }, item)

  unfoldable pub pop2 : Pool → Obim C → (t : ℕ) → Obim C × ℕ
  pop2 pool o t =
      let (now, item) = pop3 o t in
      let slow = slow_pop2 pool now t in if item == 0 then slow else (now, item)
