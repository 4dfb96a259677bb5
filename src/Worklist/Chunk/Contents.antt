-- ===== src/Worklist/Chunk/Contents.antt =====
-- What a partition queue of libcoro/include/galois/worklists/Chunk.h holds.
use corograph.Base.{
  ℕ, suc, ◌≡◌, ◌≢◌, refl, sym, ap, ◌∙◌, subst, true, false, List, [], ◌∷◌, ◌++◌, ◌==◌,
  if◌then◌else◌, ◌<◌, ◌≤◌, ◌^◌, length, arith, u32, append-nil, append_assoc,
}
use corograph.Worklist.LinkedQueue.Segment.{Fresh, Holds}
use corograph.Worklist.Chunk.{Ring, Master, store, emplace_back}

-- A chunk that is handed on is neither empty nor over its size.
pub record IsRing {ℓ} {A : Type ℓ} (chunk_size : ℕ) (r : Ring A) : Type 0 where
  pub counted : r.count ≡ length r.datac
  pub filled : 0 < r.count
  pub bounded : r.count ≤ chunk_size

module _ {ℓ} {A : Type ℓ} where
  abbrev pub AllRings : ℕ → (ℕ → Ring A) → List ℕ → Type 0
  AllRings chunk_size chunk [] = Unit {0}
  AllRings chunk_size chunk (x ∷ xs) = IsRing chunk_size (chunk x) × AllRings chunk_size chunk xs

  -- The items of the chunks `xs`, in order.
  abbrev pub contents : (ℕ → Ring A) → List ℕ → List A
  contents chunk [] = []
  contents chunk (x ∷ xs) = (chunk x).datac ++ contents chunk xs

  -- The items of the chunk at an address that may be null.
  abbrev pub opened : (ℕ → Ring A) → ℕ → List A
  opened chunk p = if p == 0 then [] else (chunk p).datac

  -- The items that a thread can still take: those in the queue, then those in its open chunk.
  abbrev pub items : Master A → List ℕ → List A
  items m xs = contents m.chunk xs ++ opened m.chunk m.next

  -- The queue holds the chunks `xs`, and the open chunk, that has room, and the chunk in hand are
  -- none of them.
  pub record Valid (chunk_size : ℕ) (m : Master A) (xs : List ℕ) : Type 0 where
    pub holds : Holds m.q xs
    pub rings : AllRings chunk_size m.chunk xs
    pub next_fresh : m.next ≢ 0 → Fresh m.next xs
    pub next_ring : m.next ≢ 0 → IsRing chunk_size (m.chunk m.next)
    pub next_room : m.next ≢ 0 → (m.chunk m.next).count < chunk_size
    pub cur_fresh : m.cur ≢ 0 → Fresh m.cur xs × (m.cur ≢ m.next)

  pub store_same : (chunk : ℕ → Ring A) (a : ℕ) (r : Ring A) → store chunk a r a ≡ r
  store_same chunk a r = let same : (a == a) ≡ true = ground arith in rw same refl

  pub store_other :
      (chunk : ℕ → Ring A) (a : ℕ) (r : Ring A) (x : ℕ) → x ≢ a → store chunk a r x ≡ chunk x
  store_other chunk a r x ne = let other : (x == a) ≡ false = ground arith in rw other refl

  pub contents-store :
      (chunk : ℕ → Ring A) (a : ℕ) (r : Ring A) (xs : List ℕ)
      → Fresh a xs
      → contents (store chunk a r) xs ≡ contents chunk xs
  contents-store chunk a r [] f = refl
  contents-store chunk a r (x ∷ xs) f =
      rw (store_other chunk a r x (λ e. f.0 (sym e)), contents-store chunk a r xs f.1) refl

  pub AllRings-store :
      (chunk_size : ℕ) (chunk : ℕ → Ring A) (a : ℕ) (r : Ring A) (xs : List ℕ)
      → Fresh a xs
      → AllRings chunk_size chunk xs
      → AllRings chunk_size (store chunk a r) xs
  AllRings-store chunk_size chunk a r [] f all = tt
  AllRings-store chunk_size chunk a r (x ∷ xs) f all = (
    subst (IsRing chunk_size) (sym (store_other chunk a r x (λ e. f.0 (sym e)))) all.0,
    AllRings-store chunk_size chunk a r xs f.1 all.1,
  )

  pub contents-append :
      (chunk : ℕ → Ring A) (xs : List ℕ) (c : ℕ)
      → contents chunk (xs ++ c ∷ []) ≡ contents chunk xs ++ (chunk c).datac
  contents-append chunk [] c = append-nil (chunk c).datac
  contents-append chunk (x ∷ xs) c =
      ap (λ t. (chunk x).datac ++ t) (contents-append chunk xs c)
      ∙ sym (append_assoc (chunk x).datac (contents chunk xs) (chunk c).datac)

  pub AllRings-append :
      (chunk_size : ℕ) (chunk : ℕ → Ring A) (xs : List ℕ) (c : ℕ)
      → AllRings chunk_size chunk xs
      → IsRing chunk_size (chunk c)
      → AllRings chunk_size chunk (xs ++ c ∷ [])
  AllRings-append chunk_size chunk [] c all r = (r, tt)
  AllRings-append chunk_size chunk (x ∷ xs) c all r =
      (all.0, AllRings-append chunk_size chunk xs c all.1 r)

  length-snoc : (xs : List A) (x : A) → length (xs ++ x ∷ []) ≡ suc (length xs)
  length-snoc [] x = refl
  length-snoc (y ∷ xs) x = ap suc (length-snoc xs x)

  -- A write of one slot.
  pub emplace_back-IsRing :
      (chunk_size : ℕ) (r : Ring A) (val : A)
      → chunk_size < 2 ^ 32
      → r.count ≡ length r.datac
      → r.count < chunk_size
      → IsRing chunk_size (emplace_back chunk_size r val).0
  unfolding emplace_back
  emplace_back-IsRing chunk_size r val small counted room =
      let grown : u32 (suc r.count) ≡ suc r.count = omega arith in
      record {
        counted = grown ∙ ap suc counted ∙ sym (length-snoc r.datac val);
        filled = rw grown (omega arith);
        bounded = rw grown (omega arith);
      }

  pub emplace_back-room :
      (chunk_size : ℕ) (r : Ring A) (val : A)
      → chunk_size < 2 ^ 32
      → r.count < chunk_size
      → (emplace_back chunk_size r val).1 ≡ false
      → (emplace_back chunk_size r val).0.count < chunk_size
  unfolding emplace_back
  emplace_back-room chunk_size r val small room not_full =
      let grown : u32 (suc r.count) ≡ suc r.count = omega arith in rw grown (ground arith)
