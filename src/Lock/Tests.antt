-- ===== src/Lock/Tests.antt =====
-- The theorems on the ticket array lock at concrete inputs, and tests.
use kupl.Prelude.{
  ℕ, zero, suc, replicate, ◌≤◌, ◌<◌, ◌≡◌, refl, arith, Bool, true, some, List, [], ◌∷◌, ◌++◌,
}
use kupl.Lock.{
  TicketArrayLock, Call, lock, trylock, outside, waiting, inside, run_turns, fresh, turn,
  kupl_ticket_array_lock_init,
}
use kupl.Lock.Invariant.{firsts, Holds}
use kupl.Lock.Order.{created, pc_after, run_turns-exclusive, run_turns-in_order}
use kupl.Lock.Progress.{TurnOf, AreRounds, joined, waiting-enters}
use kupl.Lock.Trylock.{alone, trylock-answer}

abbrev enough_memory : ℕ → Bool
enough_memory bytes = true

-- Two processing units, so four slots.
abbrev small_lock : TicketArrayLock
small_lock = created 4

small_lock_made : kupl_ticket_array_lock_init enough_memory 2 ≡ some small_lock
unfolding kupl_ticket_array_lock_init
small_lock_made = refl

-- Threads 1 and 0 call `lock`, in this order, and thread 1 goes in.
abbrev two_callers : List (ℕ × Call)
two_callers = (1, lock) ∷ (0, lock) ∷ (0, lock) ∷ (1, lock) ∷ []

two_callers_inside : pc_after small_lock two_callers 1 ≡ inside 0
unfolding run_turns turn
two_callers_inside = refl

two_callers-waiting : pc_after small_lock two_callers 0 ≡ waiting 1
unfolding run_turns turn
two_callers-waiting = refl

two_callers_outside : pc_after small_lock two_callers 2 ≡ outside
unfolding run_turns turn
two_callers_outside = refl

run_turns-exclusive_example : ◌≡◌ {A = ℕ} 1 1
unfolding run_turns turn
run_turns-exclusive_example =
    run_turns-exclusive enough_memory 2 small_lock two_callers (omega arith) small_lock_made
      (omega arith) 1 1 tt tt

run_turns-in_order_example :
    (n : ℕ) × ((run_turns (fresh small_lock) two_callers).entered
      ≡ firsts (run_turns (fresh small_lock) two_callers).drew n)
    × (n ≤ (run_turns (fresh small_lock) two_callers).raw.head)
    × ((i t : ℕ)
        → pc_after small_lock two_callers i ≡ waiting t
        → (n ≤ t) × ((run_turns (fresh small_lock) two_callers).drew t ≡ i))
run_turns-in_order_example =
    run_turns-in_order enough_memory 2 small_lock two_callers (omega arith) small_lock_made
      (omega arith)

abbrev round_of_two : List (ℕ × Call)
round_of_two = (0, trylock) ∷ (1, trylock) ∷ []

every_turn : (j : ℕ) → j < 2 → TurnOf j round_of_two
every_turn j lt = ground arith

rounds-AreRounds : (n : ℕ) → AreRounds 2 (replicate n round_of_two)
rounds-AreRounds zero = tt
rounds-AreRounds (suc n) = (every_turn, (omega arith, (omega arith, tt)), rounds-AreRounds n)

abbrev six_rounds : List (List (ℕ × Call))
six_rounds = replicate 6 round_of_two

waiting-enters_example :
    (m : ℕ) × ((run_turns (fresh small_lock) (two_callers ++ joined six_rounds)).entered
      ≡ firsts (run_turns (fresh small_lock) (two_callers ++ joined six_rounds)).drew m)
    × (1 < m)
    × ((run_turns (fresh small_lock) (two_callers ++ joined six_rounds)).drew 1 ≡ 0)
waiting-enters_example =
    waiting-enters enough_memory 2 small_lock two_callers six_rounds 2 0 1 (omega arith)
      small_lock_made (omega arith) (omega arith) two_callers-waiting (rounds-AreRounds 6)
      (omega arith)

trylock-answer_example :
    let s = run_turns (fresh small_lock) two_callers in
    (((j t : ℕ) → Holds (s.pc j) t → ⊥)
      → (run_turns s (alone 2 ++ (2, trylock) ∷ [])).pc 2 ≡ inside s.raw.head)
    × ((j t : ℕ)
        → Holds (s.pc j) t
        → ((run_turns s (alone 2)).pc 2 ≡ outside) × ((run_turns s (alone 2)).raw ≡ s.raw))
trylock-answer_example =
    trylock-answer enough_memory 2 small_lock two_callers 2 (omega arith) small_lock_made
      (omega arith) two_callers_outside
