-- ===== src/Termination/Invariant.antt =====
-- The invariant of the ring of libcoro/include/galois/substrate/Termination.h.
use corograph.Base.{
  ℕ, ◌≡◌, refl, ap, ◌∙◌, Bool, true, false, ◌%◌, ◌<◌, ◌≤◌, List, [], ◌++◌, ◌==◌, arith, Bool-cases,
  inl, inr, ◌⊎◌,
}
use native.Mathlib.Nat.{mod_self, mod-eq_of_lt}
use corograph.Termination.{Detection, initialize}
use corograph.Termination.History.{called, worked}

-- The calls fall into those before the last complete round of the token, those of that round, and
-- those since. In this round the token has passed the threads below `turn` but the master, and is
-- with `turn`, or with the master when `turn` is the number of threads. A thread has reported work
-- in the complete round `early` or `late`, before or after it had the token, and so in this round
-- (`before`, `after`).
pub record Ghost : Type 0 where
  pub past : List (ℕ × Bool)
  pub round : List (ℕ × Bool)
  pub since : List (ℕ × Bool)
  pub turn : ℕ
  pub early : ℕ → Bool
  pub late : ℕ → Bool
  pub before : ℕ → Bool
  pub after : ℕ → Bool

abbrev pub Passed : Ghost → ℕ → Type 0
Passed g i = (0 < i) × (i < g.turn)

-- What is known of the thread `i`, given whether the token, the master and this thread are black.
pub record Tracked (g : Ghost) (black : Bool) (master : Bool) (i : ℕ) (process : Bool)
    : Type 0 where
  pub round_split : g.early i ≡ false → g.late i ≡ false → worked i g.round ≡ false
  pub since_split : Passed g i → g.before i ≡ false → g.after i ≡ false → worked i g.since ≡ false
  pub waiting : ¬ Passed g i → process ≡ false → (g.late i ≡ false) × (worked i g.since ≡ false)
  pub passed_white : Passed g i → black ≡ false → (g.late i ≡ false) × (g.before i ≡ false)
  pub passed_since : Passed g i → process ≡ false → g.after i ≡ false
  pub passed_called : Passed g i → master ≡ false → called i g.since ≡ true

abbrev pub place : ℕ → ℕ → ℕ
place n turn = turn % n

pub place_cases :
    (n turn : ℕ)
    → turn ≤ n
    → ((turn ≡ n) × (place n turn ≡ 0)) ⊎ ((turn < n) × (place n turn ≡ turn))
place_cases n turn high = elim (Bool-cases (turn == n)) [
  | inl last ↦ let same : turn ≡ n = ground arith in inl (same, ap (λ t. t % n) same ∙ mod_self n)
  | inr below ↦ let less : turn < n = ground arith in inr (less, mod-eq_of_lt less)
]

pub record Inv (n : ℕ) (s : Detection) (h : List (ℕ × Bool)) (g : Ghost) : Type 0 where
  pub split : h ≡ g.past ++ g.round ++ g.since
  pub threads : s.active_threads ≡ n
  pub running : s.global_term ≡ false
  pub turn_low : 0 < g.turn
  pub turn_high : g.turn ≤ n
  pub token_at : (i : ℕ) → i < n → (s.holders i).has_token ≡ (i == place n g.turn)
  pub tracked :
      (i : ℕ)
      → i < n
      → Tracked g
          (s.holders (place n g.turn)).token_is_black
          (s.holders 0).process_is_black
          i
          (s.holders i).process_is_black
  pub white :
      (s.holders 0).last_was_white ≡ true
      → (s.holders 0).process_is_black ≡ false
      → (i : ℕ) → i < n
      → (g.early i ≡ false) × (called i g.round ≡ true)

abbrev pub no_work : ℕ → Bool
no_work i = false

-- Before the first call the token is with the master, which has not called yet.
pub initialize-Inv :
    (n : ℕ)
    → 0 < n
    → Inv n (initialize n) [] (record {
      past = [];
      round = [];
      since = [];
      turn = n;
      early = no_work;
      late = no_work;
      before = no_work;
      after = no_work;
    })
unfolding initialize
initialize-Inv n pos = record {
  split = refl;
  threads = refl;
  running = refl;
  turn_low = pos;
  turn_high = omega arith;
  token_at = λ i small. rw (mod_self n) refl;
  tracked = λ i small. record {
    round_split = λ _ _. refl;
    since_split = λ _ _ _. refl;
    waiting = λ _ _. (refl, refl);
    passed_white = λ _ _. (refl, refl);
    passed_since = λ _ _. refl;
    passed_called = λ _ e. absurd (ground arith);
  };
  white = λ _ e. absurd (ground arith);
}
