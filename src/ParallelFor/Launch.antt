-- ===== src/ParallelFor/Launch.antt =====
-- How a parallel loop starts: `kupl_parallel_for_check`, `kupl_parallel_for_num_threads` and
-- `kupl_parallel_for_resolve` of src/mt/kupl_parallel_for.cpp. A null pointer is `none`.
pub mod Threads
pub mod Checked
pub mod EndToEnd
use kupl.Prelude.{
  ℕ, ◌%◌, Bool, true, false, ◌&&◌, ◌||◌, not, ltb, ◌==◌, if◌then◌else◌, Option, none, some, List,
  [], ◌∷◌,
}
use kupl.Prelude.Int.{ℤ, pos, negsuc, pos_part, ltb_ℤ, leb_ℤ, eqb_ℤ, neg_ℤ, ◌-ℤ◌, ◌*ℤ◌}
use kupl.ParallelFor.Range.{Range, NdRange, Pf, dims, kupl_min, kupl_divup}
use kupl.ParallelFor.Check.{Policy, static, dynamic, task, other, kupl_check_range}

-- An executor group, as far as a loop's start reads it.
pub record Egroup : Type 0 where
  pub cur_size : ℕ

-- `kupl_parallel_for_desc_t`
pub record Desc : Type 0 where
  pub field_mask : ℕ
  pub range : Option NdRange
  pub egroup : Option Egroup
  pub concurrency : ℤ
  pub policy : Policy

-- What the functions read of the rest of the library: the sizes fixed at start-up, the group of the
-- enclosing region, and the default group of each size, which is made at its first use.
pub record Env : Type 0 where
  pub g_concurrency_default : ℤ
  pub num_executors : ℤ
  pub kernel_concurrency : ℤ
  pub pf_num_thread : ℤ
  pub current_egroup : Option Egroup
  pub g_egroups : ℕ → Option Egroup

abbrev pub kupl_concurrency_default : ℤ
kupl_concurrency_default = negsuc 0

-- The four lowest bits of `field_mask`, the range, the group, the concurrency and the policy, are set.
abbrev has_default_fields : ℕ → Bool
has_default_fields field_mask = field_mask % 16 == 15

abbrev bad_policy : Policy → ℤ → Bool
bad_policy static dim = false
bad_policy dynamic dim = false
bad_policy task dim = not (eqb_ℤ dim (pos 1))
bad_policy other dim = true

-- `if (range != nullptr)`: the range as the check leaves it, and whether the loop may go on.
check_range : Policy → Option NdRange → Option NdRange × Bool
check_range policy none = (none, true)
check_range policy (some range) =
    if bad_policy policy range.dim
    then (some range, false)
    else (let (range', ok) = kupl_check_range range policy in (some range', ok))

abbrev egroup_ok : Option Egroup → Bool
egroup_ok none = true
egroup_ok (some egroup) = not (egroup.cur_size == 0)

-- The last part: the default is filled in, and a number that is given must be one of executors.
check_concurrency : Env → Desc → Desc × Bool
check_concurrency env desc =
    if eqb_ℤ desc.concurrency kupl_concurrency_default
    then (record desc { concurrency = env.g_concurrency_default }, true)
    else (desc, not (leb_ℤ desc.concurrency (pos 0) || ltb_ℤ env.num_executors desc.concurrency))

-- The descriptor with what the check writes to it, and whether the result is KUPL_OK. `func` says
-- that the loop body is not null.
unfoldable pub kupl_parallel_for_check : Env → Bool → Desc → Desc × Bool
unfolding check_range check_concurrency
kupl_parallel_for_check env func desc =
    if not func || not (has_default_fields desc.field_mask)
    then (desc, false)
    else (let (range, ok) = check_range desc.policy desc.range in
        let checked = record desc { range = range } in
        if not ok || not (egroup_ok desc.egroup)
        then (checked, false)
        else check_concurrency env checked)

-- The body of the loop of `kupl_parallel_for_num_threads`: the chunks of one dimension.
abbrev chunks_of : Range → ℤ
chunks_of r =
    if ltb_ℤ r.lower r.upper
    then kupl_divup (r.upper -ℤ r.lower) (r.blocksize *ℤ r.step)
    else kupl_divup (r.lower -ℤ r.upper) (neg_ℤ r.blocksize *ℤ r.step)

-- The loop.
abbrev product_of : List Range → ℤ → ℤ
product_of [] total_chunks = total_chunks
product_of (r ∷ rs) total_chunks = product_of rs (total_chunks *ℤ chunks_of r)

abbrev by_range : Option NdRange → ℤ → ℤ
by_range none num_threads = num_threads
by_range (some range) num_threads = kupl_min num_threads (product_of (dims range) (pos 1))

abbrev by_egroup : Option Egroup → ℤ → ℤ
by_egroup none num_threads = num_threads
by_egroup (some egroup) num_threads = kupl_min num_threads (pos egroup.cur_size)

unfoldable pub kupl_parallel_for_num_threads : Env → Desc → Option Egroup → ℤ
kupl_parallel_for_num_threads env desc egroup =
    kupl_min (by_egroup egroup (by_range desc.range desc.concurrency)) env.kernel_concurrency

abbrev kupl_get_global_egroup : Env → ℤ → Option Egroup
kupl_get_global_egroup env num_threads =
    if ltb_ℤ num_threads (pos 1) || ltb_ℤ env.pf_num_thread num_threads
    then none
    else env.g_egroups (pos_part num_threads)

-- The group that is given, or else that of the enclosing region.
abbrev given_or : Option Egroup → Option Egroup → Option Egroup
given_or none current = current
given_or (some egroup) current = some egroup

abbrev with_threads : ℤ → Option Egroup → Option (Egroup × ℤ)
with_threads num_threads none = none
with_threads num_threads (some egroup) = some (egroup, num_threads)

resolve_with : Env → Desc → Option Egroup → Option (Egroup × ℤ)
resolve_with env desc (some egroup) =
    some (egroup, kupl_parallel_for_num_threads env desc (some egroup))
resolve_with env desc none =
    let num_threads = kupl_parallel_for_num_threads env desc none in
    with_threads num_threads (kupl_get_global_egroup env num_threads)

-- The group and the number of threads; `none` is KUPL_ERROR.
unfoldable pub kupl_parallel_for_resolve : Env → Desc → Option (Egroup × ℤ)
unfolding resolve_with
kupl_parallel_for_resolve env desc = resolve_with env desc (given_or desc.egroup env.current_egroup)

-- The fields of the `kupl_pf` that `kupl_parallel_for` sets before it prepares the policy.
abbrev pub set_pf : Pf → NdRange → ℤ → Pf
set_pf pf range num_threads = record pf { range = range; num_threads = pos_part num_threads }
