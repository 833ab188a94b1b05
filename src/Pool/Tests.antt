-- ===== src/Pool/Tests.antt =====
-- A pool of four slots.
use native.Mathlib.Nat.{dvd-mul_right}
use kupl.Prelude.{ℕ, ◌^◌, ◌≡◌, refl, arith, false, if◌then◌else◌, ◌==◌}
use kupl.Vector.Refine.{IsVector}
use kupl.Pool.{Pool, kupl_pool_empty, kupl_pool_full}

-- Slots 3 and 0 hold 30 and 40.
abbrev pool : Pool ℕ
pool = record {
  head = 7;
  tail = 9;
  capacity = 4;
  elem_size = 8;
  buffer = λ i. if i == 3 then 30 else if i == 0 then 40 else 0;
}

pool-IsVector : IsVector pool
pool-IsVector = record {
  divides = dvd-mul_right 4 (2 ^ 62);
  fits = omega arith;
  heads = omega arith;
  tails = omega arith;
  room = omega arith;
}

pool_not_full : kupl_pool_full pool ≡ false
unfolding kupl_pool_full
pool_not_full = refl

pool_not_empty : kupl_pool_empty pool ≡ false
unfolding kupl_pool_empty
pool_not_empty = refl
