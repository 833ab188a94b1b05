-- ===== src/ParallelFor/Check/Sound.antt =====
-- What `kupl_check_range` accepts is a range that runs and ends, and whose chunk arithmetic stays
-- within `int64_t`.
use kupl.Prelude.{
  get_or, and_then-some, guarded, or_false, ℕ, zero, suc, ◌<◌, ◌≡◌, refl, sym, ap, ◌∙◌, ◌≢◌, Bool,
  true, false, List, [], ◌∷◌, Option, some, none, arith, length, if◌then◌else◌, ◌||◌,
}
use kupl.Prelude.Int.{ℤ, pos, ◌-ℤ◌, ◌*ℤ◌, ◌/ℤ◌}
use kupl.ParallelFor.Range.{Range, no_range, kupl_divup}
use kupl.ParallelFor.Edge.{Before}
use kupl.ParallelFor.Count.{IsLoop}
use kupl.ParallelFor.Check.{
  go_on, Policy, static, bad_direction, too_long_up, too_long_down, check_block, check_length,
  check_chunks, check_dim, check_dims,
}
use kupl.ParallelFor.Check.Block.{FitsInt64, direction_ok, length_ok, check_block-Block}

-- A dimension that passes.
record Passes (policy : Policy) (r0 r : Range) (remain left : ℤ) : Type 0 where
  loop : IsLoop r
  fits : FitsInt64 r
  same : (r.lower ≡ r0.lower) × (r.upper ≡ r0.upper) × (r.step ≡ r0.step)
  once : policy ≡ static → r.blocksize ≡ pos 1
  count : left ≡ remain /ℤ kupl_divup (r.upper -ℤ r.lower) (r.step *ℤ r.blocksize)

check_length-some :
    (r : Range) (c remain left : ℤ)
    → check_length r c remain ≡ some left
    → (too_long_up r ≡ false)
      × (too_long_down r ≡ false)
      × (left ≡ remain /ℤ kupl_divup (r.upper -ℤ r.lower) c)
unfolding check_length
check_length-some r c remain left e =
    let (passed, value) = guarded (too_long_up r || too_long_down r) e in
    let (up, down) = or_false (too_long_up r) (too_long_down r) passed in (up, down, value)

chosen :
    (b : Bool) (r0 : Range) (out : Range × Option ℤ) {left : ℤ}
    → (if b then (r0, none) else out).1 ≡ some left
    → (b ≡ false) × (out.1 ≡ some left)
chosen true r0 out e = cc
chosen false r0 out e = (refl, e)

check_chunks-Passes :
    (policy : Policy) (r0 : Range) (remain left : ℤ)
    → Before r0.step r0.upper r0.lower
    → r0.step ≢ pos 0
    → (check_chunks policy r0 remain).1 ≡ some left
    → Passes policy r0 (check_chunks policy r0 remain).0 remain left
unfolding check_chunks
check_chunks-Passes policy r0 remain left ahead m e =
    let r = (check_block policy r0).0 in
    let (c, found, rest) =
      and_then-some (check_block policy r0).1 (λ c. check_length r c remain) e in
    let b = check_block-Block policy r0 c m found in
    let (up, down, value) = check_length-some r c remain left rest in
    record {
      loop = record {
        ahead = rw (b.step, b.upper, b.lower) ahead;
        moves = λ q. m (sym b.step ∙ q);
        blocks = b.blocks;
      };
      fits = length_ok r up down;
      same = (b.lower, b.upper, b.step);
      once = b.once;
      count = value ∙ ap (λ s. remain /ℤ kupl_divup (r.upper -ℤ r.lower) s) b.size;
    }

check_dim-Passes :
    (policy : Policy) (r0 : Range) (remain left : ℤ)
    → (check_dim policy r0 remain).1 ≡ some left
    → Passes policy r0 (check_dim policy r0 remain).0 remain left
unfolding check_dim
check_dim-Passes policy r0 remain left e =
    let (good, rest) = chosen (bad_direction r0) r0 (check_chunks policy r0 remain) e in
    let (ahead, m) = direction_ok r0 r0.step refl good in
    rw good (check_chunks-Passes policy r0 remain left ahead m rest)

-- What each dimension of an accepted range satisfies.
pub record IsGood (policy : Policy) (r : Range) : Type 0 where
  pub loop : IsLoop r
  pub fits : FitsInt64 r
  pub once : policy ≡ static → r.blocksize ≡ pos 1

IsGood-cons :
    (policy : Policy) (r : Range) (rs : List Range) (d n : ℕ)
    → IsGood policy r
    → ((e : ℕ) → e < n → IsGood policy (get_or rs e no_range))
    → d < suc n
    → IsGood policy (get_or (r ∷ rs) d no_range)
IsGood-cons policy r rs zero n g gs lt = g
IsGood-cons policy r rs (suc d) n g gs lt = gs d (omega arith)

go_on-some :
    (o : Option ℤ) (r : Range) (rs : List Range) (rest : ℤ → List Range × Option ℤ) {left : ℤ}
    → (go_on o r rs rest).1 ≡ some left
    → (m : ℤ) × (o ≡ some m) × ((rest m).1 ≡ some left) × ((go_on o r rs rest).0 ≡ r ∷ (rest m).0)
go_on-some none r rs rest e = cc
go_on-some (some m) r rs rest e = (m, refl, e, refl)

pub check_dims-IsGood :
    (policy : Policy) (rs : List Range) (remain left : ℤ)
    → (check_dims policy rs remain).1 ≡ some left
    → (length (check_dims policy rs remain).0 ≡ length rs)
      × ((d : ℕ)
          → d < length rs
          → IsGood policy (get_or (check_dims policy rs remain).0 d no_range))
unfolding check_dims
check_dims-IsGood policy [] remain left e = (refl, λ d lt. absurd (omega arith))
check_dims-IsGood policy (r ∷ rs) remain left e =
    let (m, found, rest, shape) =
      go_on-some (check_dim policy r remain).1 (check_dim policy r remain).0 rs
        (check_dims policy rs) e in
    let passes = check_dim-Passes policy r remain m found in
    let (len, good) = check_dims-IsGood policy rs m left rest in
    rw shape (
      ap suc len,
      λ d lt.
          IsGood-cons policy (check_dim policy r remain).0 (check_dims policy rs m).0 d (length rs)
            (record { loop = passes.loop; fits = passes.fits; once = passes.once }) good lt,
    )
