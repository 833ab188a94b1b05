-- ===== src/ParallelFor/Partition.antt =====
-- How `c` chunks are shared by `n` threads, as the static and the task policy of
-- src/mt/kupl_parallel_for.cpp do it: each thread gets `c / n`, and the first `c % n` one more.
use native.Mathlib.Nat.{div-add-mod, mod-lt}
use kupl.Prelude.{ℕ, zero, suc, ◌+◌, ◌-◌, ◌*◌, ◌/◌, ◌%◌, ◌≤◌, ◌<◌, min, ◌≡◌, arith, dec_lt}

-- A cut of the numbers below `f n` into the pieces between `f t` and `f (t + 1)`.
module _ (f : ℕ → ℕ) (start : f 0 ≡ 0) where
  -- Every number below the last cut lies in a piece.
  pub locate : (n k : ℕ) → k < f n → (t : ℕ) × (t < n) × (f t ≤ k) × (k < f (suc t))
  locate zero k h = absurd (omega arith)
  locate (suc n) k h = elim (dec_lt k (f n)) [
    | yes below ↦ let (t, lt, lo, hi) = locate n k below in (t, omega arith, lo, hi)
    | no above ↦ (n, omega arith, omega arith, h)
  ]

module _ (f : ℕ → ℕ) (grows : (t : ℕ) → f t ≤ f (suc t)) where
  pub cuts_mono : (t d : ℕ) → f t ≤ f (d + t)
  cuts_mono t zero = rw zero-add' (omega arith)
    where
      zero-add' : 0 + t ≡ t
      zero-add' = omega arith
  cuts_mono t (suc d) = rw suc-add' (omega (arith, cuts_mono t d, grows (d + t)))
    where
      suc-add' : suc d + t ≡ suc (d + t)
      suc-add' = omega arith

  pub cuts_mono_le : (t u : ℕ) → t ≤ u → f t ≤ f u
  cuts_mono_le t u h = rw back at (cuts_mono t (u - t))
    where
      back : u - t + t ≡ u
      back = omega arith

  -- The pieces do not overlap.
  pub pieces_unique : (t u k : ℕ) → f t ≤ k → k < f (suc t) → f u ≤ k → k < f (suc u) → t ≡ u
  pieces_unique t u k lo hi lo' hi' = elim (dec_lt t u) [
    | yes lt ↦ absurd (omega (arith, cuts_mono_le (suc t) u lt))
    | no ge ↦ elim (dec_lt u t) [
      | yes lt ↦ absurd (omega (arith, cuts_mono_le (suc u) t lt))
      | no le ↦ omega arith
    ]
  ]

-- The first chunk of thread `t`.
abbrev pub share : ℕ → ℕ → ℕ → ℕ
share c n t = t * (c / n) + min (c % n) t

pub share-grows : (c n t : ℕ) → share c n t ≤ share c n (suc t)
share-grows c n t = grind arith

pub share_all : (c n : ℕ) → 0 < n → share c n n ≡ c
share_all c n h = omega (arith, div-add-mod c n, mod-lt c h)
