-- ===== src/Scheduler/Tally.antt =====
-- How many task blocks of a name a list holds.
use kupl.Prelude.{ℕ, zero, suc, ◌+◌, ◌≡◌, ◌<◌, arith, List, [], ◌∷◌, ◌++◌, length, get_or, set}
use kupl.Scheduler.{Tb, one}

abbrev pub tally : ℕ → List Tb → ℕ
tally k [] = 0
tally k (tb ∷ tbs) = one k tb + tally k tbs

pub tally-append : (k : ℕ) (xs ys : List Tb) → tally k (xs ++ ys) ≡ tally k xs + tally k ys
tally-append k [] ys = omega arith
tally-append k (x ∷ xs) ys = omega (arith, tally-append k xs ys)

-- A sum over the members of a list.
module _ {A : Type 0} (f : A → ℕ) where
  abbrev pub sum : List A → ℕ
  sum [] = 0
  sum (x ∷ xs) = f x + sum xs

  pub sum-set :
      (xs : List A) (i : ℕ) (x d : A)
      → i < length xs
      → sum (set xs i x) + f (get_or xs i d) ≡ sum xs + f x
  sum-set [] i x d h = absurd (omega arith)
  sum-set (y ∷ xs) zero x d h = omega arith
  sum-set (y ∷ xs) (suc i) x d h = omega (arith, sum-set xs i x d (omega arith))
