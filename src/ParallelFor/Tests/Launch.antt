-- ===== src/ParallelFor/Tests/Launch.antt =====
-- A loop from its descriptor on, on a concrete range.
use kupl.Prelude.{ℕ, zero, suc, ◌≡◌, refl, true, List, replicate, arith, Option, some, none, ◌≢◌}
use kupl.Prelude.Int.{pos, negsuc, pos_part, ◌≤ℤ◌, ◌<ℤ◌, ◌+ℤ◌, ◌-ℤ◌, ◌*ℤ◌, ◌/ℤ◌, ◌%ℤ◌}
use kupl.ParallelFor.Range.{Pf, calc_chunk, kupl_calc_chunk_info, kupl_divup}
use kupl.ParallelFor.Dynamic.{
  finished, run, aligned_index, kupl_dynamic_policy_impl, kupl_dynamic_policy_prepare_common,
}
use kupl.ParallelFor.Dynamic.Invariant.{count}
use kupl.ParallelFor.Dynamic.Cover.{after}
use kupl.ParallelFor.Dynamic.Points.{VisitsAll, chunk_range}
use kupl.ParallelFor.Check.{dynamic, kupl_check_range}
use kupl.ParallelFor.Launch.{
  Egroup, Desc, Env, kupl_parallel_for_check, kupl_parallel_for_num_threads,
  kupl_parallel_for_resolve, set_pf,
}
use kupl.ParallelFor.Launch.Threads.{IsEnv, FitsEgroup, kupl_parallel_for_num_threads-bounds}
use kupl.ParallelFor.Launch.EndToEnd.{dynamic_loop}
use kupl.ParallelFor.Tests.{two_dims, two_dims-IsGrid, point, visits_point}

abbrev pair : Egroup
pair = record { cur_size = 2 }

abbrev groups : ℕ → Option Egroup
groups zero = none
groups (suc n) = some (record { cur_size = suc n })

abbrev small_env : Env
small_env = record {
  g_concurrency_default = pos 2;
  num_executors = pos 2;
  kernel_concurrency = pos 2;
  pf_num_thread = pos 2;
  current_egroup = none;
  g_egroups = groups;
}

abbrev desc : Desc
desc = record {
  field_mask = 15;
  range = some two_dims.range;
  egroup = none;
  concurrency = negsuc 0;
  policy = dynamic;
}

small_env-IsEnv : IsEnv small_env
small_env-IsEnv = record { default = omega arith; kernel = omega arith; current = λ e q. cc }

desc_passes : (kupl_parallel_for_check small_env true desc).1 ≡ true
unfolding kupl_parallel_for_check kupl_check_range kupl_divup ◌+ℤ◌ ◌*ℤ◌ ◌/ℤ◌ ◌-ℤ◌ ◌%ℤ◌
desc_passes = refl

two_threads :
    kupl_parallel_for_resolve small_env (kupl_parallel_for_check small_env true desc).0
    ≡ some (pair, pos 2)
unfolding kupl_parallel_for_resolve kupl_parallel_for_num_threads kupl_parallel_for_check
    kupl_check_range kupl_divup ◌+ℤ◌ ◌*ℤ◌ ◌/ℤ◌ ◌-ℤ◌ ◌%ℤ◌
two_threads = refl

same_range : (kupl_check_range two_dims.range dynamic).0 ≡ two_dims.range
unfolding kupl_check_range kupl_divup ◌+ℤ◌ ◌*ℤ◌ ◌/ℤ◌ ◌-ℤ◌ ◌%ℤ◌
same_range = refl

abbrev turns : List ℕ
turns = replicate 24 0

abbrev loop : Pf
loop = set_pf two_dims (kupl_check_range two_dims.range dynamic).0 (pos 2)

loop_finished : (after loop turns).pc 0 ≡ finished
unfolding kupl_check_range run kupl_dynamic_policy_impl kupl_dynamic_policy_prepare_common
    aligned_index kupl_calc_chunk_info calc_chunk kupl_divup ◌+ℤ◌ ◌*ℤ◌ ◌/ℤ◌ ◌-ℤ◌ ◌%ℤ◌
loop_finished = refl

dynamic_loop_example :
    (m : ℕ) × (count (pos m) (after loop turns).called ≡ 1)
    × VisitsAll
        (chunk_range loop m)
        (pos_part (kupl_check_range two_dims.range dynamic).0.dim)
        point
    × ((m' : ℕ)
        → count (pos m') (after loop turns).called ≢ 0
        → VisitsAll
            (chunk_range loop m')
            (pos_part (kupl_check_range two_dims.range dynamic).0.dim)
            point
        → m' ≡ m)
dynamic_loop_example =
    dynamic_loop small_env desc two_dims.range two_dims pair (pos 2) turns 0 point small_env-IsEnv
      refl (omega arith) (omega arith) desc_passes two_threads (omega arith) (omega arith)
      (omega arith) loop_finished (rw same_range visits_point)

kupl_parallel_for_num_threads-bounds_example :
    let num_threads =
      kupl_parallel_for_num_threads small_env (record desc { concurrency = pos 7 }) (some pair) in
    (pos 0 <ℤ num_threads)
    × (num_threads ≤ℤ (kupl_calc_chunk_info two_dims).total_chunks)
    × (num_threads ≤ℤ pos 7)
    × (num_threads ≤ℤ pos 2)
    × FitsEgroup (some pair) num_threads
kupl_parallel_for_num_threads-bounds_example =
    kupl_parallel_for_num_threads-bounds small_env (record desc { concurrency = pos 7 }) (some pair)
      two_dims 2 two_dims-IsGrid refl (omega arith) (omega arith) (omega arith)
