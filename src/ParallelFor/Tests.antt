-- ===== src/ParallelFor/Tests.antt =====
-- The loop policies on concrete ranges.
pub mod NdStatic
pub mod Launch
use kupl.Prelude.{
  ℕ, zero, suc, ◌==◌, if◌then◌else◌, ◌<◌, ◌≤◌, ◌≡◌, refl, ◌≢◌, ◌↔◌, List, [], ◌∷◌, length, arith,
  Option, some, none, true, false, Bool, ltb, ◌+◌, ◌*◌,
}
use kupl.Prelude.Int.{ℤ, pos, negsuc, ◌+ℤ◌, ◌-ℤ◌, ◌*ℤ◌, ◌/ℤ◌, ◌%ℤ◌}
use kupl.ParallelFor.Range.{
  Range, NdRange, Chunk, AlignedIndex, Pf, no_range, no_chunk, range_at, calc_chunk, calc_chunks,
  kupl_calc_chunk_info, kupl_divup,
}
use kupl.ParallelFor.Edge.{Visits, edge}
use kupl.ParallelFor.Count.{IsLoop}
use kupl.ParallelFor.Digits.{bound}
use kupl.ParallelFor.Grid.{IsGrid, chunks_in}
use kupl.ParallelFor.OneDim.{IsOneDim}
use kupl.ParallelFor.Static.{static_piece, kupl_static_policy_impl}
use kupl.ParallelFor.Static.Cover.{thread_range, Visits-iff, Visits-once}
use kupl.ParallelFor.Dynamic.{
  aligned_index, kupl_compute_chunk_range, chunk_piece, finished, run,
  kupl_dynamic_policy_prepare_common, kupl_dynamic_policy_impl, enter,
}
use kupl.ParallelFor.Dynamic.Invariant.{count, Turns}
use kupl.ParallelFor.Dynamic.Cover.{
  IsReady, after, after-called_inside, after-called_all, after-called_once,
}
use kupl.ParallelFor.Dynamic.Ends.{busy_turns, after-busy_turns}
use kupl.ParallelFor.Dynamic.Fair.{turns_of, after-turns_of}
use kupl.ParallelFor.Dynamic.Points.{VisitsAll, chunk_range, some_chunk, one_chunk, chunk_within}
use kupl.ParallelFor.NdStatic.{kupl_nd_static_policy_impl, divide_range}
use kupl.ParallelFor.NdStatic.Cover.{some_thread}
use kupl.ParallelFor.Check.{Policy, dynamic, kupl_check_range, check_dims}
use kupl.ParallelFor.Check.Accepted.{kupl_check_range-accepted}
use kupl.ParallelFor.Check.Sound.{IsGood}

-- 7, 4, 1: three iterations downwards.
abbrev down : Range
down = record { lower = pos 7; upper = pos 0; step = negsuc 2; blocksize = pos 1 }

-- 0, 1, 2, 3, 4 in blocks of two.
abbrev up : Range
up = record { lower = pos 0; upper = pos 5; step = pos 1; blocksize = pos 2 }

abbrev one_dim : Pf
one_dim = record {
  range = record { dim = pos 1; nd_range = down ∷ no_range ∷ no_range ∷ [] };
  chunk_info = no_chunk ∷ no_chunk ∷ no_chunk ∷ [];
  total_chunks = pos 0;
  chunk_index =
      record { value = pos 0; target = pos 0 } ∷ record { value = pos 0; target = pos 0 } ∷ [];
  num_threads = 2;
}

abbrev two_dims : Pf
two_dims = record one_dim { range = record { dim = pos 2; nd_range = down ∷ up ∷ no_range ∷ [] } }

down-IsLoop : IsLoop down
down-IsLoop = record { ahead = omega arith; moves = λ e. cc; blocks = omega arith }

up-IsLoop : IsLoop up
up-IsLoop = record { ahead = omega arith; moves = λ e. cc; blocks = omega arith }

one_dim-IsOneDim : IsOneDim one_dim
one_dim-IsOneDim = record { one = refl; ranges = omega arith; chunk_slots = omega arith }

Visits-one : Visits down (pos 4)
unfolding edge ◌+ℤ◌ ◌*ℤ◌
Visits-one = (1, refl, omega arith)

Visits-iff_example :
    Visits down (pos 4)
    ↔ ((t : ℕ) × (t < 2) × Visits (thread_range one_dim one_dim.range 2 t) (pos 4))
Visits-iff_example =
    Visits-iff one_dim one_dim.range 2 one_dim-IsOneDim down-IsLoop refl (omega arith) (pos 4)
      (omega arith)

-- Thread 0 runs 7 and 4, thread 1 runs 1.
thread_0 : thread_range one_dim one_dim.range 2 0 ≡ record down { upper = pos 1 }
unfolding kupl_static_policy_impl kupl_calc_chunk_info calc_chunk kupl_divup ◌+ℤ◌ ◌*ℤ◌ ◌/ℤ◌ ◌-ℤ◌
    ◌%ℤ◌
thread_0 = refl

thread_1 : thread_range one_dim one_dim.range 2 1 ≡ record down { lower = pos 1 }
unfolding kupl_static_policy_impl kupl_calc_chunk_info calc_chunk kupl_divup ◌+ℤ◌ ◌*ℤ◌ ◌/ℤ◌ ◌-ℤ◌
    ◌%ℤ◌
thread_1 = refl

in_thread_0 : Visits (thread_range one_dim one_dim.range 2 0) (pos 4)
unfolding edge ◌+ℤ◌ ◌*ℤ◌
in_thread_0 = rw thread_0 (1, refl, omega arith)

abbrev zero_thread : ℕ
zero_thread = 0

two_loops : (d : ℕ) → d < 2 → IsLoop (range_at two_dims.range d)
two_loops zero lt = down-IsLoop
two_loops (suc zero) lt = up-IsLoop
two_loops (suc (suc d)) lt = absurd (omega arith)

two_dims-IsGrid : IsGrid two_dims 2
two_dims-IsGrid = record {
  dim = refl;
  ranges = omega arith;
  chunk_slots = omega arith;
  loops = two_loops;
}

-- The iteration with 4 in the first dimension and 3 in the second.
abbrev point : ℕ → ℤ
point zero = pos 4
point (suc d) = pos 3

visits_point : VisitsAll (range_at two_dims.range) 2 point
unfolding edge ◌+ℤ◌ ◌*ℤ◌
visits_point zero lt = (1, refl, omega arith)
visits_point (suc zero) lt = (3, refl, omega arith)
visits_point (suc (suc d)) lt = absurd (omega arith)

some_chunk_example :
    (m : ℕ) × (m < bound (chunks_in two_dims.range) 2) × VisitsAll (chunk_range two_dims m) 2 point
some_chunk_example = some_chunk two_dims 2 two_dims-IsGrid point visits_point

-- Nine chunks; the point lies in chunk 4.
chunk_4 :
    (d : ℕ)
    → d < 2
    → chunk_range two_dims 4 d ≡ (
        if d == 0
        then record down { lower = pos 4; upper = pos 1 }
        else record up { lower = pos 2; upper = pos 4 })
unfolding kupl_compute_chunk_range chunk_piece kupl_calc_chunk_info calc_chunk kupl_divup ◌+ℤ◌ ◌*ℤ◌
    ◌/ℤ◌ ◌-ℤ◌ ◌%ℤ◌
chunk_4 zero lt = refl
chunk_4 (suc zero) lt = refl
chunk_4 (suc (suc d)) lt = absurd (omega arith)

in_chunk_4 : VisitsAll (chunk_range two_dims 4) 2 point
unfolding edge ◌+ℤ◌ ◌*ℤ◌
in_chunk_4 zero lt = rw (chunk_4 0 lt) (0, refl, omega arith)
in_chunk_4 (suc zero) lt = rw (chunk_4 1 lt) (1, refl, omega arith)
in_chunk_4 (suc (suc d)) lt = absurd (omega arith)

nine_chunks : bound (chunks_in two_dims.range) 2 ≡ 9
unfolding calc_chunk kupl_divup ◌+ℤ◌ ◌*ℤ◌ ◌/ℤ◌ ◌-ℤ◌
nine_chunks = refl

abbrev fourth : ℕ
fourth = 4

one_chunk_example : fourth ≡ fourth
one_chunk_example =
    one_chunk two_dims 2 two_dims-IsGrid fourth fourth point (omega (arith, nine_chunks))
      (omega (arith, nine_chunks)) in_chunk_4 in_chunk_4

-- Thread 0 has all the turns: it empties its own counter, and then that of thread 1.
abbrev alone : List ℕ
alone = 0 ∷ 0 ∷ 0 ∷ 0 ∷ 0 ∷ 0 ∷ 0 ∷ 0 ∷ 0 ∷ 0 ∷ 0 ∷ 0 ∷ 0 ∷ 0 ∷ []

one_dim-IsReady : IsReady one_dim 3
unfolding kupl_calc_chunk_info calc_chunk kupl_divup ◌+ℤ◌ ◌*ℤ◌ ◌/ℤ◌ ◌-ℤ◌
one_dim-IsReady = record {
  chunks = refl;
  threads = omega arith;
  few = omega arith;
  room = omega arith;
}

alone-Turns : Turns 2 alone
alone-Turns = omega arith

alone_called : (after one_dim alone).called ≡ pos 2 ∷ pos 1 ∷ pos 0 ∷ []
unfolding run kupl_dynamic_policy_impl kupl_dynamic_policy_prepare_common aligned_index
    kupl_calc_chunk_info calc_chunk kupl_divup ◌+ℤ◌ ◌*ℤ◌ ◌/ℤ◌ ◌-ℤ◌ ◌%ℤ◌
alone_called = refl

alone_finished : (after one_dim alone).pc 0 ≡ finished
unfolding run kupl_dynamic_policy_impl kupl_dynamic_policy_prepare_common aligned_index
    kupl_calc_chunk_info calc_chunk kupl_divup ◌+ℤ◌ ◌*ℤ◌ ◌/ℤ◌ ◌-ℤ◌ ◌%ℤ◌
alone_finished = refl

after-called_all_example : count (pos 2) (after one_dim alone).called ≡ 1
after-called_all_example =
    after-called_all one_dim 3 one_dim-IsReady alone alone-Turns 2 0 (omega arith) (omega arith)
      alone_finished

after-called_once_example : count (pos 2) (after one_dim alone).called ≤ 1
after-called_once_example = after-called_once one_dim 3 one_dim-IsReady alone alone-Turns (pos 2)

after-busy_turns_example :
    busy_turns 2 (enter (kupl_dynamic_policy_prepare_common one_dim)) alone ≤ 3 + 2 * (2 * 2 + 1)
after-busy_turns_example = after-busy_turns one_dim 3 alone one_dim-IsReady alone-Turns

after-turns_of_example : (after one_dim alone).pc 0 ≡ finished
after-turns_of_example = after-turns_of one_dim 3 alone 0 one_dim-IsReady alone-Turns (omega arith)
