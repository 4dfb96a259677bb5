-- ===== src/Sssp/Walk.antt =====
-- Walks and their lengths: what the distances of app/sssp/crg-sssp.cpp are measured by.
use mathlib.Core.List.{Memᴰ}
use mathlib.Core.List.Memᴰ
use corograph.Base.{ℕ, ◌+◌, ◌*◌, ◌<◌, ◌≤◌, ◌≡◌, refl, List, ◌∷◌, ◌++◌, suc, ◌⊎◌, inl, inr}
use corograph.Partition.Fill.Stored.{Pair}
use corograph.Sssp.{max_num}

-- A walk from `src` to a vertex, with the sum of its weights.
pub data Walk (edges : ℕ → List Pair) (src : ℕ) : ℕ → ℕ → Type 0 where
  here : Walk edges src src 0
  step :
      {u len : ℕ} (v w : ℕ)
      → Walk edges src u len
      → Memᴰ (v, w) (edges u)
      → Walk edges src v (len + w)

-- A graph on `num_v` vertices whose distances fit: no weight exceeds `max_weight`, and walks of
-- `num_v` edges stay below `MAX_NUM`.
pub record IsNetwork (edges : ℕ → List Pair) (num_v max_weight : ℕ) : Type 0 where
  pub targets : (u v w : ℕ) → Memᴰ (v, w) (edges u) → v < num_v
  pub weights : (u v w : ℕ) → Memᴰ (v, w) (edges u) → w ≤ max_weight
  pub fits : max_weight * suc num_v < max_num

-- Taking one element out of a list.
pub mem_removed {ℓ} :
    {A : Type ℓ} {a x : A} (before after : List A)
    → Memᴰ a (before ++ x ∷ after)
    → (a ≡ x) ⊎ Memᴰ a (before ++ after)
mem_removed before after m = elim (Memᴰ.append_cases before m) [
  | inl l ↦ inr (Memᴰ.append_left after l)
  | inr r ↦ elim (Memᴰ.cases_cons r) [ inl e ↦ inl e | inr t ↦ inr (Memᴰ.append_right before t) ]
]

pub mem_kept {ℓ} :
    {A : Type ℓ} {a : A} (x : A) (before after : List A)
    → Memᴰ a (before ++ after)
    → Memᴰ a (before ++ x ∷ after)
mem_kept x before after m = elim (Memᴰ.append_cases before m) [
  | inl l ↦ Memᴰ.append_left (x ∷ after) l
  | inr r ↦ Memᴰ.append_right before (Memᴰ.tail r)
]

pub mem_middle {ℓ} : {A : Type ℓ} (x : A) (before after : List A) → Memᴰ x (before ++ x ∷ after)
mem_middle x before after = Memᴰ.append_right before (Memᴰ.head refl)
