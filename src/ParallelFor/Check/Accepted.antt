-- ===== src/ParallelFor/Check/Accepted.antt =====
-- What `kupl_check_range` of src/mt/kupl_check.cpp accepts: the whole function.
use kupl.Prelude.{
  Bool-cases, inl, inr, if_passed, ℕ, zero, suc, ◌≤◌, ◌<◌, ◌≡◌, refl, sym, subst, true, false, List,
  [], ◌∷◌, ◌++◌, length, get_or, drop, arith, Option, some, none, not, ◌||◌, length-append,
}
use kupl.Prelude.Int.{ℤ, pos, negsuc, pos_part, ltb_ℤ, eqb_ℤ}
use kupl.ParallelFor.Range.{Range, NdRange, no_range, range_at, dims}
use kupl.ParallelFor.Grid.{length-take_all}
use kupl.ParallelFor.Check.{Policy, kupl_check_range, check_dims, kupl_max_chunk, kupl_max_dim_size}
use kupl.ParallelFor.Check.Sound.{IsGood, check_dims-IsGood}

get_or-append :
    (xs ys : List Range) (i : ℕ)
    → i < length xs
    → get_or (xs ++ ys) i no_range ≡ get_or xs i no_range
get_or-append [] ys i h = absurd (omega arith)
get_or-append (x ∷ xs) ys zero h = refl
get_or-append (x ∷ xs) ys (suc i) h = get_or-append xs ys i (omega arith)

between :
    (d : ℤ)
    → ltb_ℤ d (pos 1) || ltb_ℤ (pos kupl_max_dim_size) d ≡ false
    → (n : ℕ) × (d ≡ pos n) × (0 < n) × (n ≤ kupl_max_dim_size)
between (pos n) h = (n, refl, ground arith, ground arith)
between (negsuc n) h = ground arith

left_some :
    (o : Option ℤ)
    → elim o [ none ↦ false | some remain_chunks ↦ not (eqb_ℤ remain_chunks (pos 0)) ] ≡ true
    → (m : ℤ) × (o ≡ some m)
left_some none h = absurd (ground arith)
left_some (some m) h = (m, refl)

-- A range with room for three dimensions that is accepted has one to three dimensions, and
-- what the check leaves in each of them is a loop that runs and ends, whose chunk arithmetic
-- fits in `int64_t`, and whose block size is 1 under the static policy.
pub kupl_check_range-accepted :
    (range : NdRange) (policy : Policy)
    → kupl_max_dim_size ≤ length range.nd_range
    → (kupl_check_range range policy).1 ≡ true
    → (n : ℕ) × (range.dim ≡ pos n)
      × (0 < n)
      × (n ≤ kupl_max_dim_size)
      × (n ≤ length (kupl_check_range range policy).0.nd_range)
      × ((d : ℕ) → d < n → IsGood policy (range_at (kupl_check_range range policy).0 d))
unfolding kupl_check_range
kupl_check_range-accepted range policy room h =
    let (inside, ok) =
      if_passed (ltb_ℤ range.dim (pos 1) || ltb_ℤ (pos kupl_max_dim_size) range.dim) range _ h in
    let (n, e, lo, hi) = between range.dim inside in
    let out = check_dims policy (dims range) kupl_max_chunk in
    let (m, done) = left_some out.1 ok in
    let (len, good) = check_dims-IsGood policy (dims range) kupl_max_chunk m done in
    let all : length (dims range) ≡ n = rw e (length-take_all n range.nd_range (omega arith)) in
    rw inside (
      n,
      e,
      lo,
      hi,
      omega (arith, length-append out.0 (drop (pos_part range.dim) range.nd_range), len, all),
      λ d lt.
          subst (IsGood policy)
            (sym (
              get_or-append out.0 (drop (pos_part range.dim) range.nd_range) d
                (omega (arith, len, all))))
            (good d (omega (arith, all))),
    )

-- The check writes block sizes only.
pub kupl_check_range-dim :
    (range : NdRange) (policy : Policy) → (kupl_check_range range policy).0.dim ≡ range.dim
unfolding kupl_check_range
kupl_check_range-dim range policy =
    elim (Bool-cases (ltb_ℤ range.dim (pos 1) || ltb_ℤ (pos kupl_max_dim_size) range.dim)) [
      | inl out ↦ rw out refl
      | inr inside ↦ rw inside refl
    ]
