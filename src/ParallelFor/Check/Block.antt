-- ===== src/ParallelFor/Check/Block.antt =====
-- The guards of `kupl_check_range` of src/mt/kupl_check.cpp on one dimension, and its `switch`.
use kupl.Prelude.{
  guarded, or_false, ℕ, zero, suc, ◌^◌, ◌-◌, ◌≡◌, refl, sym, ap, ◌∙◌, ◌≢◌, false, inl, inr,
  Bool-cases, some, none, arith, if◌then◌else◌, ◌||◌,
}
use kupl.Prelude.Int.{
  ltb_ℤ, eqb_ℤ, eq_of_parts, ℤ, pos, negsuc, pos_part, ◌<ℤ◌, ◌≤ℤ◌, ◌+ℤ◌, ◌-ℤ◌, ◌*ℤ◌, ◌/ℤ◌, neg_ℤ,
  int_laws, +ℤ_parts, -ℤ_parts, *-pos-parts,
}
use kupl.ParallelFor.Range.{Range}
use kupl.ParallelFor.Edge.{Before}
use kupl.ParallelFor.Check.{
  Policy, static, dynamic, task, other, int64_max, bad_direction, bad_block, bad_chunk, too_long_up,
  too_long_down, check_block,
}

pub direction_ok :
    (r : Range) (s : ℤ)
    → r.step ≡ s
    → bad_direction r ≡ false
    → Before s r.upper r.lower × (s ≢ pos 0)
direction_ok r (pos zero) e h = ground arith
direction_ok r (pos (suc s)) e h = (ground arith, λ q. cc)
direction_ok r (negsuc s) e h = (ground arith, λ q. cc)

quotient_nonpos : (n b : ℕ) → pos_part (pos n /ℤ negsuc b) ≡ 0
unfolding ◌/ℤ◌
quotient_nonpos n b = ground arith

block_ok :
    (r : Range) (s b : ℤ)
    → r.step ≡ s
    → r.blocksize ≡ b
    → s ≢ pos 0
    → b ≢ pos 0
    → bad_block r ≡ false
    → pos 0 <ℤ b
block_ok r s (pos zero) e f m n h = absurd (n refl)
block_ok r s (pos (suc b)) e f m n h = omega arith
block_ok r (pos zero) (negsuc b) e f m n h = absurd (m refl)
block_ok r (pos (suc s)) (negsuc b) e f m n h = ground (arith, quotient_nonpos (2 ^ 63 - 2) b)
block_ok r (negsuc s) (negsuc b) e f m n h = ground (arith, quotient_nonpos (2 ^ 63 - 2) b)

-- The chunk size that `kupl_calc_chunk_info` computes, and the numerator of its division, fit.
pub record FitsInt64 (r : Range) : Type 0 where
  pub up : pos 0 <ℤ r.step → r.upper -ℤ r.lower +ℤ r.step *ℤ r.blocksize -ℤ pos 1 ≤ℤ int64_max
  pub down :
      r.step <ℤ pos 0 → r.lower -ℤ r.upper +ℤ neg_ℤ r.step *ℤ r.blocksize -ℤ pos 1 ≤ℤ int64_max

ltb_ℤ-false : (a b : ℤ) → ltb_ℤ a b ≡ false → b ≤ℤ a
ltb_ℤ-false a b h = ground arith

pub length_ok : (r : Range) → too_long_up r ≡ false → too_long_down r ≡ false → FitsInt64 r
length_ok r h k = record {
  up = λ p.
      let short : ltb_ℤ (int64_max -ℤ r.step *ℤ r.blocksize) (r.upper -ℤ r.lower -ℤ pos 1) ≡ false =
        ground arith in
      omega (
        arith,
        +ℤ_parts,
        -ℤ_parts,
        ltb_ℤ-false (int64_max -ℤ r.step *ℤ r.blocksize) (r.upper -ℤ r.lower -ℤ pos 1) short,
      );
  down = λ p.
      let short : ltb_ℤ (int64_max -ℤ (neg_ℤ r.step *ℤ r.blocksize -ℤ pos 1)) (r.lower -ℤ r.upper)
          ≡ false =
        ground arith in
      omega (
        arith,
        +ℤ_parts,
        -ℤ_parts,
        ltb_ℤ-false (int64_max -ℤ (neg_ℤ r.step *ℤ r.blocksize -ℤ pos 1)) (r.lower -ℤ r.upper)
            short,
      );
}

-- The switch.
pub record Block (policy : Policy) (r0 r : Range) (c : ℤ) : Type 0 where
  pub lower : r.lower ≡ r0.lower
  pub upper : r.upper ≡ r0.upper
  pub step : r.step ≡ r0.step
  pub size : c ≡ r.step *ℤ r.blocksize
  pub blocks : pos 0 <ℤ r.blocksize
  pub once : policy ≡ static → r.blocksize ≡ pos 1

times_one : (a : ℤ) → a ≡ a *ℤ pos 1
times_one a = eq_of_parts _ _ (omega (arith, *-pos-parts a 1))

*ℤ_comm : (a b : ℤ) → a *ℤ b ≡ b *ℤ a
*ℤ_comm a b = omega int_laws

-- The range with a block size that is not 0.
abbrev filled : Range → Range
filled r0 = if eqb_ℤ r0.blocksize (pos 0) then record r0 { blocksize = pos 1 } else r0

eqb_ℤ-false : (a : ℤ) → eqb_ℤ a (pos 0) ≡ false → a ≢ pos 0
eqb_ℤ-false a h q = ground arith

filled_lem :
    (r0 : Range)
    → let r = filled r0 in
      (r.lower ≡ r0.lower) × (r.upper ≡ r0.upper) × (r.step ≡ r0.step) × (r.blocksize ≢ pos 0)
filled_lem r0 = elim (Bool-cases (eqb_ℤ r0.blocksize (pos 0))) [
  | inl e ↦ rw e (refl, refl, refl, λ q. absurd (omega (arith, ap pos_part q)))
  | inr ne ↦ rw ne (refl, refl, refl, eqb_ℤ-false r0.blocksize ne)
]

check_filled-Block :
    (policy : Policy) (r0 : Range) (c : ℤ)
    → policy ≢ static
    → r0.step ≢ pos 0
    → (if bad_block (filled r0)
          || bad_chunk ((filled r0).blocksize *ℤ (filled r0).step) (filled r0).upper
        then none
        else some ((filled r0).blocksize *ℤ (filled r0).step))
      ≡ some c
    → Block policy r0 (filled r0) c
check_filled-Block policy r0 c unlike m e =
    let r = filled r0 in
    let (lo, up, st, ne) = filled_lem r0 in
    let (passed, value) = guarded (bad_block r || bad_chunk (r.blocksize *ℤ r.step) r.upper) e in
    record {
      lower = lo;
      upper = up;
      step = st;
      size = value ∙ *ℤ_comm r.blocksize r.step;
      blocks =
          block_ok r r.step r.blocksize refl refl (λ q. m (sym st ∙ q)) ne
            (or_false (bad_block r) (bad_chunk (r.blocksize *ℤ r.step) r.upper) passed).0;
      once = λ q. absurd (unlike q);
    }

pub check_block-Block :
    (policy : Policy) (r0 : Range) (c : ℤ)
    → r0.step ≢ pos 0
    → (check_block policy r0).1 ≡ some c
    → Block policy r0 (check_block policy r0).0 c
unfolding check_block
check_block-Block static r0 c m e = record {
  lower = refl;
  upper = refl;
  step = refl;
  size = cc (times_one r0.step);
  blocks = omega arith;
  once = λ q. refl;
}
check_block-Block dynamic r0 c m e = check_filled-Block dynamic r0 c (λ q. cc) m e
check_block-Block task r0 c m e = check_filled-Block task r0 c (λ q. cc) m e
check_block-Block other r0 c m e = check_filled-Block other r0 c (λ q. cc) m e
