-- ===== src/ParallelFor/Range.antt =====
-- Loop ranges and the chunks that they are cut into: `kupl_range_t` and `kupl_nd_range_t` of
-- src/kupl.h, `kupl_pf_t` of src/mt/kupl_parallel_for.h, `kupl_calc_chunk_info` of
-- src/mt/kupl_parallel_for.cpp, and the macros of src/utils/sys/kupl_math.h.
-- An `int64_t` is an integer: signed overflow is undefined, and `Check` is about ruling it out.
use kupl.Prelude.{ℕ, List, [], ◌∷◌, if◌then◌else◌, get_or, take}
use kupl.Prelude.Int.{ℤ, pos, pos_part, ltb_ℤ, neg_ℤ, ◌+ℤ◌, ◌-ℤ◌, ◌*ℤ◌, ◌/ℤ◌}

pub record Range : Type 0 where
  pub lower : ℤ
  pub upper : ℤ
  pub step : ℤ
  pub blocksize : ℤ

pub record NdRange : Type 0 where
  pub dim : ℤ
  pub nd_range : List Range

-- `range_chunk_t`
pub record Chunk : Type 0 where
  pub chunksize : ℤ
  pub chunks : ℤ

-- The counter of one thread's chunks, and the chunk where they end.
pub record AlignedIndex : Type 0 where
  pub value : ℤ
  pub target : ℤ

-- The fields of `kupl_pf` that the loop policies read and write.
pub record Pf : Type 0 where
  pub range : NdRange
  pub chunk_info : List Chunk
  pub total_chunks : ℤ
  pub chunk_index : List AlignedIndex
  pub num_threads : ℕ

abbrev pub no_range : Range
no_range = record { lower = pos 0; upper = pos 0; step = pos 0; blocksize = pos 0 }

abbrev pub no_chunk : Chunk
no_chunk = record { chunksize = pos 0; chunks = pos 0 }

-- `nd_range[d]`
abbrev pub range_at : NdRange → ℕ → Range
range_at r d = get_or r.nd_range d no_range

abbrev pub chunk_at : Pf → ℕ → Chunk
chunk_at pf d = get_or pf.chunk_info d no_chunk

-- What `for (i = 0; i < dim; i++)` goes through.
abbrev pub dims : NdRange → List Range
dims r = take (pos_part r.dim) r.nd_range

abbrev pub kupl_min : ℤ → ℤ → ℤ
kupl_min a b = if ltb_ℤ a b then a else b

abbrev pub kupl_max : ℤ → ℤ → ℤ
kupl_max a b = if ltb_ℤ b a then a else b

unfoldable pub kupl_divup : ℤ → ℤ → ℤ
kupl_divup a b = (a +ℤ b -ℤ pos 1) /ℤ b

-- The body of the loop of `kupl_calc_chunk_info`.
unfoldable pub calc_chunk : Range → Chunk
calc_chunk r =
    let cs = r.step *ℤ r.blocksize in
    record {
      chunksize = cs;
      chunks =
          if ltb_ℤ (pos 0) cs
          then kupl_divup (r.upper -ℤ r.lower) cs
          else kupl_divup (r.lower -ℤ r.upper) (neg_ℤ cs);
    }

-- The loop, over the dimensions that are left, the rest of `chunk_info` and the product so far.
unfoldable pub calc_chunks : List Range → List Chunk → ℤ → List Chunk × ℤ
calc_chunks [] info total = (info, total)
calc_chunks (r ∷ rs) [] total = ([], total)
calc_chunks (r ∷ rs) (old ∷ info) total =
    let c = calc_chunk r in
    let (info', total') = calc_chunks rs info (total *ℤ c.chunks) in (c ∷ info', total')

unfoldable pub kupl_calc_chunk_info : Pf → Pf
unfolding calc_chunks
kupl_calc_chunk_info pf =
    let (info, total) = calc_chunks (dims pf.range) pf.chunk_info (pos 1) in
    record pf { chunk_info = info; total_chunks = total }
