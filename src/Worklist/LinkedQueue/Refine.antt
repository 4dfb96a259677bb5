-- ===== src/Worklist/LinkedQueue/Refine.antt =====
-- The linked queues of libcoro/include/galois/worklists/WorkListHelpers.h behave as first-in,
-- first-out lists of nodes.
use corograph.Base.{
  ℕ, ◌≡◌, ◌≢◌, refl, sym, subst, Bool, true, false, List, [], ◌∷◌, ◌++◌, ◌==◌, arith, Bool-cases,
  inl, inr,
}
use corograph.Worklist.LinkedQueue.{Queue, link, init, push2, pop2, push, pop}
use corograph.Worklist.LinkedQueue.Segment.{
  Fresh, Chain, Holds, Chain-link, Chain-append, last-append, last-ne-zero, last-ne_head, link_same,
}

pub init-Holds : (next : ℕ → ℕ) → Holds (init next) []
unfolding init
init-Holds next = record { chain = refl; tail_at = refl }

-- `push2` puts a node that is not in the queue behind the others.
pub push2-Holds :
    (q : Queue) (xs : List ℕ) (c : ℕ)
    → Holds q xs
    → c ≢ 0
    → Fresh c xs
    → Holds (push2 q c).0 (xs ++ c ∷ [])
unfolding push2
push2-Holds q [] c h nz f =
    rw (h.tail_at) (record { chain = (refl, nz, tt, link_same q.next c 0); tail_at = refl })
push2-Holds q (x ∷ xs) c h nz f =
    let tail_ne : (q.tail == 0) ≡ false =
      ground (arith, h.tail_at, last-ne-zero q.next q.head x xs h.chain) in
    rw tail_ne (record {
      chain =
          subst (λ t. Chain (link (link q.next c 0) t c) q.head (x ∷ xs ++ c ∷ [])) (sym h.tail_at)
            (Chain-append (link q.next c 0) c q.head x xs nz (link_same q.next c 0) f
              (Chain-link q.next c 0 q.head (x ∷ xs) f h.chain));
      tail_at = sym (last-append (x ∷ xs) c);
    })

-- `pop2` returns null from an empty queue, and otherwise takes the oldest node away.
pub pop2-nil : (q : Queue) → Holds q [] → pop2 q ≡ (record q { state = false }, 0)
unfolding pop2
pop2-nil q h = rw h.chain

pub pop2-cons :
    (q : Queue) (x : ℕ) (xs : List ℕ)
    → Holds q (x ∷ xs)
    → ((pop2 q).1 ≡ x) × Holds (pop2 q).0 xs × ((pop2 q).0.state ≡ q.state)
unfolding pop2
pop2-cons q x [] h =
    let (at_x, nz, _, _) = h.chain in
    let full : (q.head == 0) ≡ false = ground arith in
    let only : (q.tail == q.head) ≡ true = ground (arith, h.tail_at) in
    rw (full, only) (at_x, record { chain = refl; tail_at = refl }, refl)
pop2-cons q x (y ∷ ys) h =
    let (at_x, nz, fresh, rest) = h.chain in
    let full : (q.head == 0) ≡ false = ground arith in
    let more : (q.tail == q.head) ≡ false = ground (arith, h.tail_at, last-ne_head x y ys fresh) in
    rw (full, more)
      (
        at_x,
        record {
          chain =
              subst (λ p. Chain (link q.next p 0) (q.next p) (y ∷ ys)) (sym at_x)
                (Chain-link q.next x 0 (q.next x) (y ∷ ys) fresh rest);
          tail_at = h.tail_at;
        },
        refl,
      )

-- The links, the head and the tail of `push` are those of `push2`, and so for `pop`.
pub push_lem : (q : Queue) (c : ℕ) → push q c ≡ record (push2 q c).0 { state = q.state }
unfolding push push2
push_lem q c = elim (Bool-cases (q.tail == 0)) [ inl empty ↦ rw empty | inr full ↦ rw full ]

pub pop_lem :
    (q : Queue) (xs : List ℕ)
    → Holds q xs
    → pop q ≡ (record (pop2 q).0 { state = q.state }, (pop2 q).1)
unfolding pop pop2
pop_lem q [] h = rw (h.chain, h.tail_at)
pop_lem q (x ∷ xs) h =
    let (at_x, nz, fresh, rest) = h.chain in
    let full : (q.head == 0) ≡ false = ground arith in
    let more : (q.tail == 0) ≡ false =
      ground (arith, h.tail_at, last-ne-zero q.next q.head x xs h.chain) in
    rw (full, more)
      (elim (Bool-cases (q.tail == q.head)) [ inl only ↦ rw only | inr longer ↦ rw longer ])

Holds-state : (q : Queue) (xs : List ℕ) (b : Bool) → Holds q xs → Holds (record q { state = b }) xs
Holds-state q xs b h = record { chain = h.chain; tail_at = h.tail_at }

pub pop-nil : (q : Queue) → Holds q [] → pop q ≡ (q, 0)
unfolding pop
pop-nil q h = rw (h.tail_at)

pub pop-cons :
    (q : Queue) (x : ℕ) (xs : List ℕ) → Holds q (x ∷ xs) → ((pop q).1 ≡ x) × Holds (pop q).0 xs
pop-cons q x xs h =
    let (at_x, holds, same) = pop2-cons q x xs h in
    rw (pop_lem q (x ∷ xs) h) (at_x, Holds-state (pop2 q).0 xs q.state holds)

-- What a queue of nodes gives back.
abbrev pub Front : List ℕ → ℕ → List ℕ → Type 0
Front [] c rest = (c ≡ 0) × (rest ≡ [])
Front (x ∷ xs) c rest = (c ≡ x) × (rest ≡ xs)

-- A queue that holds `xs` behaves as the list of its nodes: `push` of a node that is not in it adds
-- the node at the end, and `pop` gives the first node and leaves the others, or null if there is
-- none; so for both queue classes.
pub queue_refines :
    (q : Queue) (xs : List ℕ) (c : ℕ)
    → Holds q xs
    → c ≢ 0
    → Fresh c xs
    → Holds (push q c) (xs ++ c ∷ [])
      × Holds (push2 q c).0 (xs ++ c ∷ [])
      × ((rest : List ℕ) × Holds (pop q).0 rest × Front xs (pop q).1 rest)
      × ((rest : List ℕ) × Holds (pop2 q).0 rest × Front xs (pop2 q).1 rest)
queue_refines q xs c h nz f =
    let pushed = push2-Holds q xs c h nz f in
    let (rest, popped, front) = front_of q xs h in
    (
      rw (push_lem q c) (Holds-state (push2 q c).0 (xs ++ c ∷ []) q.state pushed),
      pushed,
      (
        rest,
        rw (pop_lem q xs h) (Holds-state (pop2 q).0 rest q.state popped),
        rw (pop_lem q xs h) front,
      ),
      (rest, popped, front),
    )
  where
    front_of :
        (q : Queue) (xs : List ℕ)
        → Holds q xs
        → (rest : List ℕ) × Holds (pop2 q).0 rest × Front xs (pop2 q).1 rest
    front_of q [] h = (
      [],
      rw (pop2-nil q h) (record { chain = h.chain; tail_at = h.tail_at }),
      rw (pop2-nil q h) (refl, refl),
    )
    front_of q (x ∷ xs) h = let (e, rest, _) = pop2-cons q x xs h in (xs, rest, (e, refl))
