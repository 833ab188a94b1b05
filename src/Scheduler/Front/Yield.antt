-- ===== src/Scheduler/Front/Yield.antt =====
-- `kupl_sched_yield`: a thread that finds no block gives up its core every so many times.
use kupl.Prelude.{
  ℕ, zero, suc, ◌+◌, ◌-◌, ◌<◌, ◌≡◌, refl, ap, ◌∙◌, arith, Bool, true, false, ◌==◌, leb,
  if◌then◌else◌, inl, inr, Bool-cases,
}
use kupl.Prelude.Int.{ℤ, pos, ◌-ℤ◌, leb_ℤ, eqb_ℤ}

-- `g_sched_use_yield` and `g_sched_init_yield_count`, from the configuration.
module _ (use_yield init_yield_count : ℤ) where
  -- The next `g_sched_yield_count`, and whether the system's `sched_yield` is called.
  unfoldable pub kupl_sched_yield : ℤ → ℤ × Bool
  kupl_sched_yield yield_count =
      let count = yield_count -ℤ pos 1 in
      if eqb_ℤ use_yield (pos 1)
      then (if leb_ℤ count (pos 0) then (init_yield_count, true) else (count, false))
      else (yield_count, false)

  -- The count after so many calls.
  unfoldable pub yield_count_after : ℕ → ℤ → ℤ
  yield_count_after zero count = count
  yield_count_after (suc n) count = (kupl_sched_yield (yield_count_after n count)).0

module _ (init : ℕ) where
  abbrev on : ℤ
  on = pos 1

  minus_one : (n : ℕ) → pos (suc n) -ℤ pos 1 ≡ pos n
  unfolding ◌-ℤ◌
  minus_one n = ground arith

  one_call :
      (n : ℕ)
      → kupl_sched_yield on (pos init) (pos (suc n))
        ≡ (if n == 0 then (pos init, true) else (pos n, false))
  unfolding kupl_sched_yield
  one_call zero = rw (minus_one zero) refl
  one_call (suc n) =
      let more : leb (suc n + 0) 0 ≡ false = ground arith in
      let not_zero : (suc n == 0) ≡ false = ground arith in
      rw (minus_one (suc n), more, not_zero) refl

  steps :
      (k : ℕ) → k < init → yield_count_after on (pos init) k (pos init) ≡ pos (suc (init - k - 1))
  unfolding yield_count_after
  steps zero lt = ap pos (omega arith)
  steps (suc k) lt =
      let before : yield_count_after on (pos init) k (pos init)
          ≡ pos (suc (suc (init - suc k - 1))) =
        steps k (omega arith) ∙ ap pos (omega arith) in
      ap (λ c. (kupl_sched_yield on (pos init) c).0) before
      ∙ ap (λ out. out.0) (one_call (suc (init - suc k - 1)))
      ∙ (let not_zero : (suc (init - suc k - 1) == 0) ≡ false = ground arith in rw not_zero refl)

  -- With yielding on and the count at its first value: of so many calls exactly the last yields,
  -- and it sets the count back.
  pub kupl_sched_yield-period :
      (k : ℕ)
      → k < init
      → let (count, yields) =
          kupl_sched_yield on (pos init) (yield_count_after on (pos init) k (pos init)) in
        (yields ≡ (k + 1 == init)) × (k + 1 ≡ init → count ≡ pos init)
  kupl_sched_yield-period k lt =
      let now = ap (kupl_sched_yield on (pos init)) (steps k lt) ∙ one_call (init - k - 1) in
      elim (Bool-cases (init - k - 1 == 0)) [
        | inl last ↦
            let at_end : (k + 1 == init) ≡ true = ground (arith, last, lt) in
            rw (now, last, at_end) (refl, λ _. refl)
        | inr before ↦
            let not_yet : (k + 1 == init) ≡ false = ground (arith, before, lt) in
            rw (now, before, not_yet) (refl, λ e. absurd (ground (arith, not_yet, e)))
      ]
