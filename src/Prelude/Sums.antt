-- ===== src/Prelude/Sums.antt =====
-- Sums over the indices below a bound, and families of values updated at one index.
use kupl.Prelude.Tests.{◌==◌, if◌then◌else◌}
use Prim.Native.Nat.{ℕ, zero, suc, ◌+◌, ◌-◌, ◌*◌, ◌≤◌, ◌<◌}
use mathlib.Core.Path.{◌≡◌, refl, ap, ◌∙◌}
use mathlib.Core.Bool.{true}
use mathlib.Core.Logic.{◌≢◌}
use native.Mathlib.Decide.{dec_lt}
use native.Mathlib.Omega.{arith}

abbrev pub update {ℓ} : {A : Type ℓ} → (ℕ → A) → ℕ → A → ℕ → A
update f i a j = if i == j then a else f j

pub update_same {ℓ} : {A : Type ℓ} → (f : ℕ → A) (i : ℕ) (a : A) → update f i a i ≡ a
update_same f i a = let same : (i == i) ≡ true = ground arith in rw same refl

pub total : ℕ → (ℕ → ℕ) → ℕ
total zero f = 0
total (suc n) f = total n f + f n

pub total_same : (n : ℕ) (f g : ℕ → ℕ) → ((j : ℕ) → j < n → f j ≡ g j) → total n f ≡ total n g
unfolding total
total_same zero f g h = refl
total_same (suc n) f g h =
    omega (arith, total_same n f g (λ j lt. h j (omega arith)), h n (omega arith))

-- Two families that differ at most at `i`.
pub total_change :
    (n : ℕ) (f g : ℕ → ℕ) (i : ℕ)
    → i < n
    → ((j : ℕ) → j < n → i ≢ j → f j ≡ g j)
    → total n f + g i ≡ total n g + f i
unfolding total
total_change zero f g i lt h = absurd (omega arith)
total_change (suc n) f g i lt h = elim (dec_lt i n) [
  | yes below ↦ omega (
    arith,
    total_change n f g i below (λ j lj. h j (omega arith)),
    h n (omega arith) (omega arith),
  )
  | no last ↦
      let e : i ≡ n = omega arith in
      omega (arith, total_same n f g (λ j lj. h j (omega arith) (omega arith)), ap f e, ap g e)
]

pub total_zero : (n : ℕ) → total n (λ _. 0) ≡ 0
unfolding total
total_zero zero = refl
total_zero (suc n) = omega (arith, total_zero n)

-- A sum of which one term only is not zero.
pub total_one :
    (n : ℕ) (f : ℕ → ℕ) (i : ℕ) → i < n → ((j : ℕ) → j < n → i ≢ j → f j ≡ 0) → total n f ≡ f i
unfolding total
total_one n f i lt h = omega (arith, total_change n f (λ _. 0) i lt h, total_zero n)

pub total_const : (n a : ℕ) → total n (λ _. a) ≡ n * a
unfolding total
total_const zero a = omega arith
total_const (suc n) a = omega (arith, total_const n a)

-- The steps of a family that grows add up to its growth.
pub total_steps :
    (n : ℕ) (f : ℕ → ℕ) → ((j : ℕ) → f j ≤ f (suc j)) → total n (λ j. f (suc j) - f j) + f 0 ≡ f n
unfolding total
total_steps zero f h = omega arith
total_steps (suc n) f h = omega (arith, total_steps n f h, h n)

pub total_extend :
    (more bound : ℕ) (f : ℕ → ℕ)
    → ((u : ℕ) → bound ≤ u → f u ≡ 0)
    → total (bound + more) f ≡ total bound f
unfolding total
total_extend zero bound f h = ap (λ n. total n f) (omega arith)
total_extend (suc more) bound f h =
    let next : bound + suc more ≡ suc (bound + more) = omega arith in
    ap (λ n. total n f) next
    ∙ omega (arith, total_extend more bound f h, h (bound + more) (omega arith))

pub total_none : (n : ℕ) (f : ℕ → ℕ) (i : ℕ) → total n f ≡ 0 → i < n → f i ≡ 0
unfolding total
total_none zero f i h lt = absurd (omega arith)
total_none (suc n) f i h lt = elim (dec_lt i n) [
  | yes below ↦ total_none n f i (omega (arith, h)) below
  | no last ↦ let e : i ≡ n = omega arith in ap f e ∙ omega (arith, h)
]

pub total_of_none : (f : ℕ → ℕ) → total 0 f ≡ 0
unfolding total
total_of_none f = refl

pub total_pred : (n : ℕ) (f : ℕ → ℕ) → total n f ≤ 1 → total n (λ i. f i - 1) ≡ 0
unfolding total
total_pred zero f h = refl
total_pred (suc n) f h = omega (arith, total_pred n f (omega arith))
