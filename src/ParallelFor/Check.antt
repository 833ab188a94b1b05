-- ===== src/ParallelFor/Check.antt =====
-- `kupl_check_range` of src/mt/kupl_check.cpp.
pub mod Block
pub mod Sound
pub mod Accepted
use kupl.Prelude.{
  and_then, ℕ, ◌-◌, ◌^◌, Bool, true, false, ◌&&◌, ◌||◌, ltb, if◌then◌else◌, List, [], ◌∷◌, ◌++◌,
  drop, not, Option, none, some,
}
use kupl.Prelude.Int.{ℤ, pos, negsuc, pos_part, eqb_ℤ, ltb_ℤ, leb_ℤ, neg_ℤ, ◌+ℤ◌, ◌-ℤ◌, ◌*ℤ◌, ◌/ℤ◌}
use kupl.ParallelFor.Range.{Range, NdRange, dims, kupl_divup}

-- `kupl_loop_policy_type_t`; `other` is a value outside the enumeration.
pub data Policy : Type 0 where
  static dynamic task other : Policy

abbrev pub int64_max : ℤ
int64_max = pos (2 ^ 63 - 1)

abbrev pub int64_min : ℤ
int64_min = negsuc (2 ^ 63 - 1)

abbrev pub kupl_max_chunk : ℤ
kupl_max_chunk = pos (2 ^ 63 - 2)

abbrev pub kupl_max_dim_size : ℕ
kupl_max_dim_size = 3

-- The range cannot run, or does not end.
abbrev bad_direction : Range → Bool
bad_direction r =
    (leb_ℤ r.upper r.lower && ltb_ℤ (pos 0) r.step)
    || ((leb_ℤ r.lower r.upper && ltb_ℤ r.step (pos 0)) || eqb_ℤ r.step (pos 0))

-- The two guards under the dynamic and the task policy, on the block size and on the chunk size.
abbrev bad_block : Range → Bool
bad_block r =
    (ltb_ℤ (pos 0) r.step && ltb_ℤ (kupl_max_chunk /ℤ r.blocksize) r.step)
    || (ltb_ℤ r.step (pos 0) && ltb_ℤ (kupl_max_chunk /ℤ r.blocksize) (neg_ℤ r.step))

abbrev bad_chunk : ℤ → ℤ → Bool
bad_chunk chunksize upper =
    (ltb_ℤ (pos 0) chunksize && ltb_ℤ (int64_max -ℤ chunksize) upper)
    || (ltb_ℤ chunksize (pos 0) && ltb_ℤ upper (int64_min -ℤ chunksize))

-- The two guards on the length of the range.
abbrev too_long_up : Range → Bool
too_long_up r =
    ltb_ℤ (pos 0) r.step
    && ((leb_ℤ (pos 0) r.upper && (ltb_ℤ r.lower (pos 0) && ltb_ℤ (int64_max +ℤ r.lower) r.upper))
        || ltb_ℤ (int64_max -ℤ r.step *ℤ r.blocksize) (r.upper -ℤ r.lower -ℤ pos 1))

abbrev too_long_down : Range → Bool
too_long_down r =
    ltb_ℤ r.step (pos 0)
    && ((leb_ℤ (pos 0) r.lower && (ltb_ℤ r.upper (pos 0) && ltb_ℤ (int64_max +ℤ r.upper) r.lower))
        || ltb_ℤ (int64_max -ℤ (neg_ℤ r.step *ℤ r.blocksize -ℤ pos 1)) (r.lower -ℤ r.upper))

-- `switch (policy)`: the range with its block size set, and the chunk size, if the guards pass.
pub check_block : Policy → Range → Range × Option ℤ
check_block static r = (record r { blocksize = pos 1 }, some r.step)
check_block _ r0 =
    let r = if eqb_ℤ r0.blocksize (pos 0) then record r0 { blocksize = pos 1 } else r0 in
    let chunksize = r.blocksize *ℤ r.step in
    (r, if bad_block r || bad_chunk chunksize r.upper then none else some chunksize)

-- The rest of the loop's body: the chunks that are left after this dimension.
check_length : Range → ℤ → ℤ → Option ℤ
check_length r chunksize remain_chunks =
    if too_long_up r || too_long_down r
    then none
    else some (remain_chunks /ℤ kupl_divup (r.upper -ℤ r.lower) chunksize)

-- From the `switch` to the end of the loop's body.
check_chunks : Policy → Range → ℤ → Range × Option ℤ
unfolding check_block check_length
check_chunks policy r0 remain_chunks =
    let (r, chunksize) = check_block policy r0 in
    (r, and_then chunksize (λ c. check_length r c remain_chunks))

check_dim : Policy → Range → ℤ → Range × Option ℤ
unfolding check_chunks
check_dim policy r0 remain_chunks =
    if bad_direction r0 then (r0, none) else check_chunks policy r0 remain_chunks

-- The loop over the dimensions. A dimension that fails stops it, and the rest stays as it is.
abbrev go_on : Option ℤ → Range → List Range → (ℤ → List Range × Option ℤ) → List Range × Option ℤ
go_on none r rs rest = (r ∷ rs, none)
go_on (some remain_chunks) r rs rest = let (rs', out) = rest remain_chunks in (r ∷ rs', out)

pub check_dims : Policy → List Range → ℤ → List Range × Option ℤ
unfolding check_dim
check_dims policy [] remain_chunks = ([], some remain_chunks)
check_dims policy (r ∷ rs) remain_chunks =
    let (r', left) = check_dim policy r remain_chunks in go_on left r' rs (check_dims policy rs)

-- The range with its block sizes set, and whether the result is KUPL_OK.
unfoldable pub kupl_check_range : NdRange → Policy → NdRange × Bool
unfolding check_dims
kupl_check_range range policy =
    if ltb_ℤ range.dim (pos 1) || ltb_ℤ (pos kupl_max_dim_size) range.dim
    then (range, false)
    else (let (rs, left) = check_dims policy (dims range) kupl_max_chunk in
        (
          record range { nd_range = rs ++ drop (pos_part range.dim) range.nd_range },
          elim left [ none ↦ false | some remain_chunks ↦ not (eqb_ℤ remain_chunks (pos 0)) ],
        ))
