-- ===== src/ParallelFor/Tests/NdStatic.antt =====
-- The static policy over several dimensions and the check of a range, on concrete ranges.
use kupl.Prelude.{ℕ, zero, suc, ◌<◌, ◌≤◌, ◌≡◌, refl, true, [], ◌∷◌, length, arith, some}
use kupl.Prelude.Int.{ℤ, pos, ◌+ℤ◌, ◌-ℤ◌, ◌*ℤ◌, ◌/ℤ◌, ◌%ℤ◌}
use kupl.ParallelFor.Range.{
  Range, NdRange, Pf, no_range, no_chunk, range_at, calc_chunk, kupl_calc_chunk_info, kupl_divup,
}
use kupl.ParallelFor.Edge.{edge}
use kupl.ParallelFor.Count.{IsLoop}
use kupl.ParallelFor.Grid.{IsGrid}
use kupl.ParallelFor.Dynamic.Points.{VisitsAll}
use kupl.ParallelFor.NdStatic.{kupl_nd_static_policy_impl, get_max_range_dim, cut_point}
use kupl.ParallelFor.NdStatic.Cover.{some_thread}
use kupl.ParallelFor.Check.{dynamic, kupl_check_range, kupl_max_dim_size}
use kupl.ParallelFor.Check.Sound.{IsGood}
use kupl.ParallelFor.Check.Accepted.{kupl_check_range-accepted}

abbrev upto : ℕ → Range
upto n = record { lower = pos 0; upper = pos n; step = pos 1; blocksize = pos 1 }

-- Ten rows of one column.
abbrev rows : NdRange
rows = record { dim = pos 2; nd_range = upto 10 ∷ upto 1 ∷ no_range ∷ [] }

abbrev rows_pf : Pf
rows_pf = record {
  range = rows;
  chunk_info = no_chunk ∷ no_chunk ∷ no_chunk ∷ [];
  total_chunks = pos 0;
  chunk_index = [];
  num_threads = 5;
}

upto-IsLoop : (n : ℕ) → IsLoop (upto (suc n))
upto-IsLoop n = record { ahead = omega arith; moves = λ e. cc; blocks = omega arith }

rows_loops : (d : ℕ) → d < 2 → IsLoop (range_at rows d)
rows_loops zero lt = upto-IsLoop 9
rows_loops (suc zero) lt = upto-IsLoop 0
rows_loops (suc (suc d)) lt = absurd (omega arith)

rows-IsGrid : IsGrid rows_pf 2
rows-IsGrid = record {
  dim = refl;
  ranges = omega arith;
  chunk_slots = omega arith;
  loops = rows_loops;
}

rows_blocks : (d : ℕ) → d < 2 → (range_at rows d).blocksize ≡ pos 1
rows_blocks zero lt = refl
rows_blocks (suc zero) lt = refl
rows_blocks (suc (suc d)) lt = absurd (omega arith)

-- Row 3, column 0.
abbrev row_3 : ℕ → ℤ
row_3 zero = pos 3
row_3 (suc d) = pos 0

visits_row_3 : VisitsAll (range_at rows) 2 row_3
unfolding edge ◌+ℤ◌ ◌*ℤ◌
visits_row_3 zero lt = (3, refl, omega arith)
visits_row_3 (suc zero) lt = (0, refl, omega arith)
visits_row_3 (suc (suc d)) lt = absurd (omega arith)

some_thread_example :
    (t : ℕ) × (out : NdRange) × (t < 5)
    × (kupl_nd_static_policy_impl (kupl_calc_chunk_info rows_pf) t 5 ≡ some out)
    × VisitsAll (range_at out) 2 row_3
some_thread_example =
    some_thread rows_pf 2 5 rows-IsGrid rows_blocks (omega arith) row_3 visits_row_3

-- Rows 3 and 4 go to two threads, 0 and 3.
rows_thread_0 :
    kupl_nd_static_policy_impl (kupl_calc_chunk_info rows_pf) 0 5
    ≡ some (record rows {
      nd_range =
          record { lower = pos 0; upper = pos 5; step = pos 1; blocksize = pos 1 }
          ∷ upto 1
          ∷ no_range
          ∷ [];
    })
unfolding kupl_nd_static_policy_impl get_max_range_dim cut_point kupl_calc_chunk_info calc_chunk
    kupl_divup ◌+ℤ◌ ◌*ℤ◌ ◌/ℤ◌ ◌-ℤ◌ ◌%ℤ◌
rows_thread_0 = refl

rows_thread_3 :
    kupl_nd_static_policy_impl (kupl_calc_chunk_info rows_pf) 3 5
    ≡ some (record rows {
      nd_range =
          record { lower = pos 3; upper = pos 5; step = pos 1; blocksize = pos 1 }
          ∷ upto 1
          ∷ no_range
          ∷ [];
    })
unfolding kupl_nd_static_policy_impl get_max_range_dim cut_point kupl_calc_chunk_info calc_chunk
    kupl_divup ◌+ℤ◌ ◌*ℤ◌ ◌/ℤ◌ ◌-ℤ◌ ◌%ℤ◌
rows_thread_3 = refl

rows_accepted : (kupl_check_range rows dynamic).1 ≡ true
unfolding kupl_check_range kupl_divup ◌+ℤ◌ ◌*ℤ◌ ◌/ℤ◌ ◌-ℤ◌ ◌%ℤ◌
rows_accepted = refl

kupl_check_range-accepted_example :
    (n : ℕ) × (pos 2 ≡ pos n)
    × (0 < n)
    × (n ≤ kupl_max_dim_size)
    × (n ≤ length (kupl_check_range rows dynamic).0.nd_range)
    × ((d : ℕ) → d < n → IsGood dynamic (range_at (kupl_check_range rows dynamic).0 d))
kupl_check_range-accepted_example =
    kupl_check_range-accepted rows dynamic (omega arith) rows_accepted
