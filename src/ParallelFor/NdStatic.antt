-- ===== src/ParallelFor/NdStatic.antt =====
-- The static policy over several dimensions: `get_max_range_dim`, `divide_range` and
-- `kupl_nd_static_policy_impl` of src/mt/kupl_parallel_for.cpp.
pub mod Cover
use kupl.Prelude.{
  ℕ, zero, suc, ◌+◌, ◌-◌, ◌/◌, Bool, ◌&&◌, ltb, ◌==◌, if◌then◌else◌, Option, none, some, List, [],
  ◌∷◌, set,
}
use kupl.Prelude.Int.{ℤ, pos, pos_part, ltb_ℤ, ◌+ℤ◌, ◌-ℤ◌, ◌*ℤ◌, ◌/ℤ◌}
use kupl.ParallelFor.Range.{Range, NdRange, Pf, range_at, chunk_at, dims, kupl_divup}

-- The loop of `get_max_range_dim`, over the dimensions that are left, from dimension `i` on.
max_range_dim_from : List Range → ℕ → ℤ → ℕ → ℕ
max_range_dim_from [] i max_chunks dim_of_max = dim_of_max
max_range_dim_from (r ∷ rs) i max_chunks dim_of_max =
    let current_chunks = kupl_divup (r.upper -ℤ r.lower) r.step in
    let larger = ltb_ℤ max_chunks current_chunks in
    max_range_dim_from rs (i + 1) (if larger then current_chunks else max_chunks)
      (if larger then i else dim_of_max)

unfoldable pub get_max_range_dim : NdRange → ℕ
unfolding max_range_dim_from
get_max_range_dim range = max_range_dim_from (dims range) 0 (pos 0) 0

-- Where `divide_range` cuts dimension `d`. The bounds are those of the whole range.
unfoldable pub cut_point : Pf → ℕ → ℕ → ℤ
cut_point pf d num_threads =
    let whole = range_at pf.range d in
    let chunksize = (chunk_at pf d).chunksize in
    let total_chunks = kupl_divup (whole.upper -ℤ whole.lower) chunksize in
    let left_chunks = total_chunks /ℤ pos num_threads *ℤ pos (num_threads / 2) in
    whole.lower +ℤ left_chunks *ℤ chunksize

abbrev pub set_range : NdRange → ℕ → Range → NdRange
set_range range d r = record range { nd_range = set range.nd_range d r }

-- The recursion, with fuel; `none` means that the fuel ran out.
unfoldable pub divide_range : ℕ → NdRange → Pf → ℕ → ℕ → ℕ → Option NdRange
divide_range zero range pf target_tid head_tid num_threads = none
divide_range (suc fuel) range pf target_tid head_tid num_threads =
    let d = get_max_range_dim range in
    let left_threads = num_threads / 2 in
    let mid = cut_point pf d num_threads in
    let r = range_at range d in
    let left =
      divide_range fuel (set_range range d (record r { upper = mid })) pf target_tid head_tid
        left_threads in
    let right =
      divide_range fuel (set_range range d (record r { lower = mid })) pf target_tid
        (head_tid + left_threads) (num_threads - left_threads) in
    if num_threads == 1 && target_tid == head_tid
    then some range
    else if ltb target_tid (head_tid + left_threads)
    then left
    else right

-- Each round halves the threads, so as many rounds as threads are enough.
unfoldable pub kupl_nd_static_policy_impl : Pf → ℕ → ℕ → Option NdRange
unfolding divide_range
kupl_nd_static_policy_impl pf tid tnum = divide_range tnum pf.range pf tid 0 tnum
