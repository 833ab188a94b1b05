-- ===== src/ParallelFor/OneDim.antt =====
-- What `kupl_calc_chunk_info` leaves for a range of one dimension.

use kupl.Prelude.{take, length, get_or, ◌<◌, ◌≡◌, refl, arith, List, [], ◌∷◌}
use kupl.Prelude.Int.{*-pos-parts, pos, pos-*-parts, eq_of_parts}
use kupl.ParallelFor.Range.{
  calc_chunks, no_range, no_chunk, Range, Chunk, Pf, calc_chunk, range_at, chunk_at,
  kupl_calc_chunk_info,
}

calc_one :
    (rs : List Range) (info : List Chunk)
    → 0 < length rs
    → 0 < length info
    → let out = calc_chunks (take 1 rs) info (pos 1) in
      (get_or out.0 0 no_chunk ≡ calc_chunk (get_or rs 0 no_range))
      × (out.1 ≡ (calc_chunk (get_or rs 0 no_range)).chunks)
unfolding calc_chunks
calc_one [] info p q = absurd (omega arith)
calc_one (r ∷ rs) [] p q = absurd (omega arith)
calc_one (r ∷ rs) (c ∷ info) p q =
    (refl, eq_of_parts _ _ (omega (arith, pos-*-parts 1 (calc_chunk r).chunks)))

-- A range of one dimension, with room for its chunk information.
pub record IsOneDim (pf : Pf) : Type 0 where
  pub one : pf.range.dim ≡ pos 1
  pub ranges : 0 < length pf.range.nd_range
  pub chunk_slots : 0 < length pf.chunk_info

pub calc_one_dim :
    (pf : Pf)
    → IsOneDim pf
    → let done = kupl_calc_chunk_info pf in
      (done.range ≡ pf.range)
      × (chunk_at done 0 ≡ calc_chunk (range_at pf.range 0))
      × (done.total_chunks ≡ (calc_chunk (range_at pf.range 0)).chunks)
unfolding kupl_calc_chunk_info
calc_one_dim pf o =
    rw (o.one)
      (let (c, t) = calc_one pf.range.nd_range pf.chunk_info o.ranges o.chunk_slots in (refl, c, t))

-- With a block size of 1 a chunk is one step.
pub chunk_of_step : (r : Range) → r.blocksize ≡ pos 1 → (calc_chunk r).chunksize ≡ r.step
unfolding calc_chunk
chunk_of_step r b = eq_of_parts _ _ (rw b (omega (arith, *-pos-parts r.step 1)))
