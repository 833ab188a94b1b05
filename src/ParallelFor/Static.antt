-- ===== src/ParallelFor/Static.antt =====
-- The static policy over one dimension: `kupl_static_policy_impl` of src/mt/kupl_parallel_for.cpp.
-- Thread ids and counts are `int`s that are not negative.
pub mod Piece
pub mod Cover
use kupl.Prelude.{ℕ, List, if◌then◌else◌, set}
use kupl.Prelude.Int.{ℤ, pos, ltb_ℤ, ◌+ℤ◌, ◌*ℤ◌, ◌/ℤ◌, ◌%ℤ◌}
use kupl.ParallelFor.Range.{Range, NdRange, Chunk, Pf, range_at, chunk_at, kupl_min, kupl_max}

-- The piece of the range `r` that thread `tid` of `tnum` runs.
unfoldable pub static_piece : Range → Chunk → ℤ → ℕ → ℕ → Range
static_piece r c total_chunks tid tnum =
    let num_threads = pos tnum in
    let base_chunks = total_chunks /ℤ num_threads in
    let remain_chunks = c.chunks %ℤ num_threads in
    let lower_tmp = r.lower +ℤ pos tid *ℤ c.chunksize *ℤ base_chunks in
    let end =
      lower_tmp
      +ℤ c.chunksize *ℤ base_chunks
      +ℤ kupl_min remain_chunks (pos tid +ℤ pos 1) *ℤ c.chunksize in
    record {
      lower = lower_tmp +ℤ kupl_min remain_chunks (pos tid) *ℤ c.chunksize;
      upper = if ltb_ℤ (pos 0) c.chunksize then kupl_min end r.upper else kupl_max end r.upper;
      step = r.step;
      blocksize = r.blocksize;
    }

-- The range that the thread hands to the loop body, written over its old contents.
unfoldable pub kupl_static_policy_impl : NdRange → Pf → ℕ → ℕ → NdRange
unfolding static_piece
kupl_static_policy_impl range pf tid tnum = record {
  dim = pf.range.dim;
  nd_range =
      set range.nd_range 0
        (static_piece (range_at pf.range 0) (chunk_at pf 0) pf.total_chunks tid tnum);
}
