-- ===== src/ParallelFor/Dynamic.antt =====
-- The dynamic policy of src/mt/kupl_parallel_for.cpp: `kupl_dynamic_policy_prepare_common`,
-- `kupl_compute_chunk_range` and `kupl_dynamic_policy_impl`.
pub mod Invariant
pub mod Cuts
pub mod Cover
pub mod Ends
pub mod Fair
pub mod Pieces
pub mod Points
use kupl.Prelude.{
  update, ℕ, zero, suc, ◌==◌, ◌+◌, List, [], ◌∷◌, Bool, true, false, if◌then◌else◌, ltb, set,
  get_or,
}
use kupl.Prelude.Int.{ℤ, pos, pos_part, ltb_ℤ, leb_ℤ, ◌+ℤ◌, ◌*ℤ◌, ◌/ℤ◌, ◌%ℤ◌}
use kupl.ParallelFor.Range.{
  Range, NdRange, Chunk, AlignedIndex, Pf, range_at, chunk_at, kupl_min, kupl_max,
  kupl_calc_chunk_info, no_range,
}

-- The counter that thread `i` starts with, and the chunk where it stops.
unfoldable pub aligned_index : ℤ → ℕ → ℕ → AlignedIndex
aligned_index total_chunks num_threads i =
    let chunks_per_thread = total_chunks /ℤ pos num_threads in
    let chunks_remain = total_chunks %ℤ pos num_threads in
    let tmp_chunk = pos i *ℤ chunks_per_thread in
    let next_chunk = (pos i +ℤ pos 1) *ℤ chunks_per_thread in
    record {
      value = tmp_chunk +ℤ kupl_min tmp_chunk chunks_remain;
      target = next_chunk +ℤ kupl_min next_chunk chunks_remain;
    }

-- `for (i = 0; i < num_threads; i++)`, from `i` on with `n` rounds left.
unfoldable pub fill_index : ℕ → ℕ → (ℕ → AlignedIndex) → List AlignedIndex → List AlignedIndex
fill_index zero i entry old = old
fill_index (suc n) i entry old = fill_index n (suc i) entry (set old i (entry i))

unfoldable pub kupl_dynamic_policy_prepare_common : Pf → Pf
unfolding fill_index
kupl_dynamic_policy_prepare_common pf0 =
    let pf = kupl_calc_chunk_info pf0 in
    record pf {
      chunk_index =
          fill_index pf.num_threads 0 (aligned_index pf.total_chunks pf.num_threads) pf.chunk_index;
    }

-- One round of the loop of `kupl_compute_chunk_range`, in dimension `d`: `lower` and `upper` of the
-- piece are set, its step and block size are left as they are.
unfoldable pub chunk_piece : Range → Chunk → ℤ → Range → Range
chunk_piece whole c nd_index piece =
    let lower = whole.lower +ℤ nd_index *ℤ c.chunksize in
    record piece {
      lower = lower;
      upper =
          if ltb_ℤ (pos 0) c.chunksize
          then kupl_min (lower +ℤ c.chunksize) whole.upper
          else kupl_max (lower +ℤ c.chunksize) whole.upper;
    }

-- The loop itself, for `d` from `n - 1` down to 0.
unfoldable pub chunk_pieces : Pf → ℕ → ℤ → List Range → List Range
unfolding chunk_piece
chunk_pieces pf zero ci ranges = ranges
chunk_pieces pf (suc d) ci ranges =
    let c = chunk_at pf d in
    let piece = chunk_piece (range_at pf.range d) c (ci %ℤ c.chunks) (get_or ranges d no_range) in
    chunk_pieces pf d (ci /ℤ c.chunks) (set ranges d piece)

unfoldable pub kupl_compute_chunk_range : NdRange → Pf → ℤ → NdRange
unfolding chunk_pieces
kupl_compute_chunk_range range pf chunk_idx = record range {
  nd_range = chunk_pieces pf (pos_part range.dim) chunk_idx range.nd_range;
}

-- Where a thread stands in `kupl_dynamic_policy_impl`, with the locals that are live there.
pub data Pc : Type 0 where
  -- the head of the `for`
  scan : (loop_count target_tid : ℕ) → Pc
  -- the test of the `while`, with `chunk_index` and `target_index`
  test : (loop_count target_tid : ℕ) (chunk_index target_index : ℤ) → Pc
  finished : Pc

-- The counters of all threads, where each thread stands, and the chunks handed to the loop body,
-- latest first.
pub record Shared : Type 0 where
  pub index : ℕ → AlignedIndex
  pub pc : ℕ → Pc
  pub called : List ℤ

-- `if (target_tid >= tnum) target_tid = 0;`
abbrev pub wrap_tid : ℕ → ℕ → ℕ
wrap_tid tnum t = if ltb t tnum then t else 0

abbrev pub bump : AlignedIndex → AlignedIndex
bump a = record a { value = a.value +ℤ pos 1 }

-- The thread goes on to the next counter.
abbrev next : ℕ → ℕ → Pc
next loop_count target_tid = scan (loop_count + 1) (target_tid + 1)

-- `KUPL_ARCH_ATOMIC_ADD_RLX` and what follows it in the body of the `while`; `call` is logged.
grab : Shared → ℕ → ℕ → ℕ → ℤ → Shared
grab s i loop_count target_tid target_index =
    let chunk_index = (s.index target_tid).value in
    let added = update s.index target_tid (bump (s.index target_tid)) in
    if leb_ℤ target_index chunk_index
    then record s { index = added; pc = update s.pc i (next loop_count target_tid) }
    else (record s {
      index = added;
      pc = update s.pc i (test loop_count target_tid chunk_index target_index);
      called = chunk_index ∷ s.called;
    })

move_from : ℕ → Shared → ℕ → Pc → Shared
unfolding grab
move_from tnum s i (scan loop_count target_tid) =
    let t = wrap_tid tnum target_tid in
    let a = s.index t in
    record s {
      pc =
          update s.pc i
            (if ltb loop_count tnum then test loop_count t a.value a.target else finished);
    }
move_from tnum s i (test loop_count target_tid chunk_index target_index) =
    if ltb_ℤ chunk_index target_index
    then grab s i loop_count target_tid target_index
    else (record s { pc = update s.pc i (next loop_count target_tid) })
move_from tnum s i finished = s

-- Thread `i` of `tnum` makes its next access to the shared counters.
unfoldable pub kupl_dynamic_policy_impl : ℕ → Shared → ℕ → Shared
unfolding move_from
kupl_dynamic_policy_impl tnum s i = move_from tnum s i (s.pc i)

-- All threads enter the policy function, each with its own counter first.
abbrev pub enter : Pf → Shared
enter pf = record {
  index = λ j. get_or pf.chunk_index j (record { value = pos 0; target = pos 0 });
  pc = scan 0;
  called = [];
}

-- Any interleaving: the list says whose turn it is.
unfoldable pub run : ℕ → Shared → List ℕ → Shared
run tnum s [] = s
run tnum s (i ∷ turns) = run tnum (kupl_dynamic_policy_impl tnum s i) turns
