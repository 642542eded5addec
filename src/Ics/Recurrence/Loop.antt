-- ===== src/Ics/Recurrence/Loop.antt =====
-- The loop that the daily and monthly expanders of recurrence.cpp share: a counted `for` whose body
-- ends in `continue`, `break` or `push_back`.
use divoom_dev.Prelude.{
  ℕ, zero, suc, ◌+◌, ◌≤◌, ◌≡◌, refl, Bool, true, false, List, [], ◌∷◌, map, filter, arith, All,
}

pub data Verdict : Type 0 where
  skip stop emit : Verdict

abbrev pub emits : Verdict → Bool
emits emit = true
emits _ = false

-- i, i + 1, … for the given number of rounds.
unfoldable pub range : ℕ → ℕ → List ℕ
range i zero = []
range i (suc rounds) = i ∷ range (i + 1) rounds

module _ {ℓ} {A : Type ℓ} (round : ℕ → Verdict) (make : ℕ → A) where
  unfoldable pub for_loop : ℕ → ℕ → List A
  for_loop zero i = []
  for_loop (suc rounds) i = elim (round i) [
    | skip ↦ for_loop rounds (i + 1)
    | stop ↦ []
    | emit ↦ make i ∷ for_loop rounds (i + 1)
  ]

  -- Every element is made in a round that emits.
  pub for_loop-All {κ} :
      (P : A → Type κ)
      → ((i : ℕ) → round i ≡ emit → P (make i))
      → (rounds i : ℕ) → All P (for_loop rounds i)
  unfolding for_loop
  for_loop-All P sound zero i = tt
  for_loop-All P sound (suc rounds) i = ground (arith, for_loop-All P sound rounds (i + 1), sound i)

  -- Nothing is emitted from `i` on.
  for_loop_stopped :
      ((i j : ℕ) → round i ≡ stop → i ≤ j → emits (round j) ≡ false)
      → (rounds i j : ℕ) → round i ≡ stop
      → i ≤ j
      → filter (λ k. emits (round k)) (range j rounds) ≡ []
  unfolding range
  for_loop_stopped final zero i j s h = refl
  for_loop_stopped final (suc rounds) i j s h =
      ground (arith, final i j s h, for_loop_stopped final rounds i (j + 1) s)

  -- Where a `break` has nothing left to emit, the loop is a filter.
  pub for_loop-eq-filter :
      ((i j : ℕ) → round i ≡ stop → i ≤ j → emits (round j) ≡ false)
      → (rounds i : ℕ)
      → for_loop rounds i ≡ map make (filter (λ k. emits (round k)) (range i rounds))
  unfolding for_loop range
  for_loop-eq-filter final zero i = refl
  for_loop-eq-filter final (suc rounds) i =
      ground
        (arith, for_loop-eq-filter final rounds (i + 1), for_loop_stopped final rounds i (i + 1))
