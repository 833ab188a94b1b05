-- ===== src/ParallelFor/Digits.antt =====
-- Numbers with a digit for each dimension, the last dimension lowest: how a chunk's index stands
-- for its place in a range of several dimensions.
use native.Mathlib.Nat.{
  div-add-mod', div-lt_iff_lt-mul, mul-add-div_right, mul-add-mod_self_right, mod-eq_of_lt,
  div-eq_of_lt,
}
use kupl.Prelude.{
  ℕ, zero, suc, ◌+◌, ◌*◌, ◌/◌, ◌%◌, ◌<◌, ◌≡◌, sym, ap, subst, update, ap₂, ◌∙◌, ◌==◌, if◌then◌else◌,
  arith, ℕ_discrete,
}

quotient-lt : (b c m : ℕ) → m < b * c → m / c < b
quotient-lt b zero m h = absurd (omega arith)
quotient-lt b (suc c) m h = (div-lt_iff_lt-mul (omega arith)).1 h

module _ (base : ℕ → ℕ) where
  -- The digit at `d` of a number with `n` digits.
  abbrev pub digit : ℕ → ℕ → ℕ → ℕ
  digit zero m d = 0
  digit (suc n) m d = if d == n then m % base n else digit n (m / base n) d

  abbrev pub bound : ℕ → ℕ
  bound zero = 1
  bound (suc n) = bound n * base n

  abbrev pub number : ℕ → (ℕ → ℕ) → ℕ
  number zero k = 0
  number (suc n) k = number n k * base n + k n

  pub number-lt : (n : ℕ) (k : ℕ → ℕ) → ((d : ℕ) → d < n → k d < base d) → number n k < bound n
  number-lt zero k h = omega arith
  number-lt (suc n) k h =
      let below = number-lt n k (λ d lt. h d (omega arith)) in
      let last = h n (omega arith) in grind arith

  last_of : (a c r : ℕ) → r < c → ((a * c + r) % c ≡ r) × ((a * c + r) / c ≡ a)
  last_of a c r h = (
    mul-add-mod_self_right a c r ∙ mod-eq_of_lt h,
    mul-add-div_right (omega arith) a r ∙ omega (arith, div-eq_of_lt h),
  )

  pub digit-number :
      (n : ℕ) (k : ℕ → ℕ)
      → ((d : ℕ) → d < n → k d < base d)
      → (d : ℕ) → d < n
      → digit n (number n k) d ≡ k d
  digit-number zero k h d lt = absurd (omega arith)
  digit-number (suc n) k h d lt =
      let (low, high) = last_of (number n k) (base n) (k n) (h n (omega arith)) in
      rw (low, high)
        (elim (ℕ_discrete d n) [
          | yes e ↦ ground (arith, ap k e)
          | no ne ↦ ground (arith, digit-number n k (λ d' lt'. h d' (omega arith)) d)
        ])

  -- Numbers below the bound are told apart by their digits.
  pub digit_eq :
      (n m m' : ℕ)
      → m < bound n
      → m' < bound n
      → ((d : ℕ) → d < n → digit n m d ≡ digit n m' d)
      → m ≡ m'
  digit_eq zero m m' lt lt' h = omega arith
  digit_eq (suc n) m m' lt lt' h =
      let top : m % base n ≡ m' % base n = ground (arith, h n (omega arith)) in
      let rest : m / base n ≡ m' / base n =
        digit_eq n (m / base n) (m' / base n) (quotient-lt (bound n) (base n) m lt)
          (quotient-lt (bound n) (base n) m' lt') (λ d ld. ground (arith, h d (omega arith))) in
      sym (div-add-mod' m (base n))
      ∙ ap₂ (λ q r. q * base n + r) rest top
      ∙ div-add-mod' m' (base n)

-- A witness for each index below a bound makes a family.
pub gather {ℓ} :
    (n : ℕ) (P : ℕ → ℕ → Type ℓ)
    → ((d : ℕ) → d < n → (k : ℕ) × P d k)
    → (f : ℕ → ℕ) × ((d : ℕ) → d < n → P d (f d))
gather zero P h = (λ _. 0, λ d lt. absurd (omega arith))
gather (suc n) P h =
    let (f, below) = gather n P (λ d lt. h d (omega arith)) in
    let (k, last) = h n (omega arith) in
    (
      update f n k,
      λ d lt. elim (ℕ_discrete d n) [
        | yes e ↦
            let at : update f n k n ≡ k = ground arith in
            subst (λ d'. P d' (update f n k d')) (sym e) (subst (P n) (sym at) last)
        | no ne ↦
            let off : update f n k d ≡ f d = ground arith in
            subst (P d) (sym off) (below d (omega arith))
      ],
    )
