-- ===== src/ParallelFor/Launch/EndToEnd.antt =====
-- A dynamic loop from its descriptor to the end of its threads: what
-- `kupl_parallel_for_check`, `kupl_parallel_for_resolve` and the dynamic policy of
-- src/mt/kupl_parallel_for.cpp do together.
use kupl.Prelude.{
  ℕ, ◌≤◌, ◌<◌, ◌≡◌, refl, sym, ap, subst, ◌∙◌, ◌≢◌, List, length, arith, true, inl, inr, ◌⊎◌,
  Option, none, some,
}
use kupl.Prelude.Int.{ℤ, pos, negsuc, pos_part, neg_part}
use kupl.ParallelFor.Range.{NdRange, Pf, range_at}
use kupl.ParallelFor.Digits.{bound}
use kupl.ParallelFor.Grid.{IsGrid, chunks_in, kupl_calc_chunk_info-grid}
use kupl.ParallelFor.Dynamic.{finished}
use kupl.ParallelFor.Dynamic.Invariant.{count, Turns}
use kupl.ParallelFor.Dynamic.Cover.{IsReady, after, after-called_all, after-called_inside}
use kupl.ParallelFor.Dynamic.Points.{VisitsAll, chunk_range, some_chunk, one_chunk}
use kupl.ParallelFor.Check.{Policy, kupl_check_range, kupl_max_dim_size}
use kupl.ParallelFor.Check.Accepted.{kupl_check_range-accepted, kupl_check_range-dim}
use kupl.ParallelFor.Launch.{
  Desc, Env, Egroup, egroup_ok, with_threads, given_or, resolve_with, kupl_parallel_for_check,
  kupl_parallel_for_num_threads, kupl_parallel_for_resolve, set_pf,
}
use kupl.ParallelFor.Launch.Checked.{kupl_parallel_for_check-IsChecked}
use kupl.ParallelFor.Launch.Threads.{IsEnv, IsInhabited, kupl_parallel_for_num_threads-bounds}

with_threads-same :
    (k : ℤ) (o : Option Egroup) (e : Egroup) (j : ℤ) → with_threads k o ≡ some (e, j) → j ≡ k
with_threads-same k none e j h = cc
with_threads-same k (some e') e j h = cc

given_or-IsInhabited :
    (given current : Option Egroup)
    → egroup_ok given ≡ true
    → ((e : Egroup) → current ≡ some e → 0 < e.cur_size)
    → IsInhabited (given_or given current)
given_or-IsInhabited none none ok h = tt
given_or-IsInhabited none (some e) ok h = h e refl
given_or-IsInhabited (some e) current ok h = ground (arith, ok)

-- The number of threads is computed for some group that is not empty, or for none.
resolve_with-threads :
    (env : Env) (desc : Desc) (o : Option Egroup) (egroup : Egroup) (k : ℤ)
    → IsInhabited o
    → resolve_with env desc o ≡ some (egroup, k)
    → (o' : Option Egroup) × IsInhabited o' × (k ≡ kupl_parallel_for_num_threads env desc o')
unfolding resolve_with
resolve_with-threads env desc none egroup k v h = (none, tt, with_threads-same _ _ egroup k h)
resolve_with-threads env desc (some e) egroup k v h = (some e, v, cc)

not_below : (a : ℤ) → (pos_part a ≡ 0) ⊎ (neg_part a ≡ 0)
not_below (pos n) = inr refl
not_below (negsuc n) = inl refl

checked-IsGrid :
    (pf : Pf) (range : NdRange) (policy : Policy) (k : ℤ)
    → kupl_max_dim_size ≤ length range.nd_range
    → kupl_max_dim_size ≤ length pf.chunk_info
    → (kupl_check_range range policy).1 ≡ true
    → let out = (kupl_check_range range policy).0 in IsGrid (set_pf pf out k) (pos_part out.dim)
checked-IsGrid pf range policy k room slots ok =
    let (n, e, lo, hi, long, good) = kupl_check_range-accepted range policy room ok in
    let dim = kupl_check_range-dim range policy ∙ e in
    rw dim (record {
      dim = dim;
      ranges = long;
      chunk_slots = omega (arith, slots);
      loops = λ d lt. (good d lt).loop;
    })

-- For a descriptor that passes the check, whose group and number of threads are resolved, with
-- sizes of at least 1, no empty group and room in the arrays: after any interleaving of the
-- dynamic policy in which some thread has finished, each point of the range lies in the piece
-- of a chunk that was handed to the loop body exactly once, and of no other chunk that was
-- handed to it.
pub dynamic_loop :
    (env : Env) (desc : Desc) (range : NdRange) (pf : Pf) (egroup : Egroup) (k : ℤ) (turns : List ℕ)
    (i : ℕ) (xs : ℕ → ℤ)
    → IsEnv env
    → desc.range ≡ some range
    → kupl_max_dim_size ≤ length range.nd_range
    → kupl_max_dim_size ≤ length pf.chunk_info
    → (kupl_parallel_for_check env true desc).1 ≡ true
    → kupl_parallel_for_resolve env (kupl_parallel_for_check env true desc).0 ≡ some (egroup, k)
    → pos_part k ≤ length pf.chunk_index
    → Turns (pos_part k) turns
    → i < pos_part k
    → (after (set_pf pf (kupl_check_range range desc.policy).0 k) turns).pc i ≡ finished
    → VisitsAll
        (range_at (kupl_check_range range desc.policy).0)
        (pos_part (kupl_check_range range desc.policy).0.dim)
        xs
    → let out = (kupl_check_range range desc.policy).0 in
      let loop = set_pf pf out k in
      (m : ℕ) × (count (pos m) (after loop turns).called ≡ 1)
      × VisitsAll (chunk_range loop m) (pos_part out.dim) xs
      × ((m' : ℕ)
          → count (pos m') (after loop turns).called ≢ 0
          → VisitsAll (chunk_range loop m') (pos_part out.dim) xs
          → m' ≡ m)
unfolding kupl_parallel_for_resolve
dynamic_loop env desc range pf egroup k turns i xs v e room slots ok res counters ts lt fin vis =
    let c = kupl_parallel_for_check-IsChecked env desc range v.default e ok in
    let out = (kupl_check_range range desc.policy).0 in
    let desc' = (kupl_parallel_for_check env true desc).0 in
    let loop = set_pf pf out k in
    let n = pos_part out.dim in
    let g = checked-IsGrid pf range desc.policy k room slots c.accepted in
    let (o, inhabited, same) =
      resolve_with-threads env desc' _ egroup k
        (given_or-IsInhabited desc'.egroup env.current_egroup (rw (c.egroup_kept) c.inhabited)
          v.current)
        res in
    let (some_threads, few, _, _, _) =
      kupl_parallel_for_num_threads-bounds env desc' o loop n g c.range_set inhabited c.some_threads
        v.kernel in
    let total = (kupl_calc_chunk_info-grid loop n g).1 in
    let chunks = bound (chunks_in out) n in
    let ready : IsReady loop chunks = record {
      chunks = total;
      threads = omega (arith, ap pos_part same, some_threads);
      few = omega (
        arith,
        not_below k,
        ap pos_part same,
        ap neg_part same,
        some_threads,
        few,
        ap pos_part total,
        ap neg_part total,
      );
      room = counters;
    } in
    let (m, below, here) = some_chunk loop n g xs vis in
    (
      m,
      after-called_all loop chunks ready turns ts m i below lt fin,
      here,
      λ m' called there.
          let (q, e', below') = after-called_inside loop chunks ready turns ts (pos m') called in
          one_chunk loop n g m' m xs (subst (λ a. a < chunks) (sym (ap pos_part e')) below') below
            there here,
    )
