-- ===== src/Prelude/Bits.antt =====
-- `x & ~y` on words of `w` bits: what rounding an address or a size to an alignment does.
use Prim.Native.Nat.{
  ℕ, zero, suc, ◌+◌, ◌-◌, ◌/◌, ◌^◌, ◌≤◌, ◌<◌, min, bit_and, digits, bit_and-bitwise,
}
use mathlib.Core.Path.{◌≡◌, ap}
use native.Mathlib.Omega.{arith}

-- `x & y`, digit by digit, with `n` digits left to take from `x`.
abbrev both : ℕ → ℕ → ℕ → ℕ
both n x y = digits (λ y. zero) min n x y

halves_room : (w m : ℕ) → m < 2 ^ suc w → (2 ^ suc w - 1 - m) / 2 ≡ 2 ^ w - 1 - m / 2
halves_room w m h = omega arith

pow_pos : (k : ℕ) → 0 < 2 ^ k
pow_pos zero = omega arith
pow_pos (suc k) = omega (arith, pow_pos k)

halves_gap : (w k : ℕ) → suc k ≤ suc w → (2 ^ suc w - 2 ^ suc k) / 2 ≡ 2 ^ w - 2 ^ k
halves_gap w k le = omega arith

-- Clearing the bits of `m` takes off at most `m`.
both-cleared : (n w x m : ℕ) → x ≤ n → x < 2 ^ w → m < 2 ^ w → x ≤ both n x (2 ^ w - 1 - m) + m
both-cleared n w zero m fuel fits word = omega arith
both-cleared zero w (suc x) m fuel fits word = absurd (omega arith)
both-cleared (suc n) zero (suc x) m fuel fits word = absurd (omega arith)
both-cleared (suc n) (suc w) (suc x) m fuel fits word =
    let half = both-cleared n w (suc x / 2) (m / 2) (omega arith) (omega arith) (omega arith) in
    omega (arith, half, ap (both n (suc x / 2)) (halves_room w m word))

pub bit_and-cleared : (w x m : ℕ) → x < 2 ^ w → m < 2 ^ w → x ≤ bit_and x (2 ^ w - 1 - m) + m
bit_and-cleared w x m fits word =
    omega (arith, bit_and-bitwise x (2 ^ w - 1 - m), both-cleared x w x m (omega arith) fits word)

-- A word of at least `2 ^ k` is still that large without its lowest `k` bits.
both-large :
    (n w k x : ℕ) → x ≤ n → x < 2 ^ w → k ≤ w → 2 ^ k ≤ x → 2 ^ k ≤ both n x (2 ^ w - 2 ^ k)
both-large n w k zero fuel fits le large = absurd (omega (arith, pow_pos k))
both-large zero w k (suc x) fuel fits le large = absurd (omega arith)
both-large (suc n) w zero (suc x) fuel fits le large =
    let same : 2 ^ w - 2 ^ 0 ≡ 2 ^ w - 1 - 0 = omega arith in
    omega (
      arith,
      both-cleared (suc n) w (suc x) 0 fuel fits (pow_pos w),
      ap (both (suc n) (suc x)) same,
    )
both-large (suc n) zero (suc k) (suc x) fuel fits le large = absurd (omega arith)
both-large (suc n) (suc w) (suc k) (suc x) fuel fits le large =
    let half =
      both-large n w k (suc x / 2) (omega arith) (omega arith) (omega arith) (omega arith) in
    omega (arith, half, ap (both n (suc x / 2)) (halves_gap w k le))

pub bit_and-large : (w k x : ℕ) → x < 2 ^ w → k ≤ w → 2 ^ k ≤ x → 2 ^ k ≤ bit_and x (2 ^ w - 2 ^ k)
bit_and-large w k x fits le large =
    omega (arith, bit_and-bitwise x (2 ^ w - 2 ^ k), both-large x w k x (omega arith) fits le large)
