-- ===== src/Scheduler/Hybrid/Asked.antt =====
-- A call of `kupl_sched_hybrid_get_tb` that gives no block has asked the plugin of the inner level.
use kupl.Prelude.{◌≡◌, refl, ap, ◌∙◌, true, false, Option, none, some, inl, inr, Bool-cases}
use kupl.Prelude.Int.{ℤ}
use kupl.Scheduler.{Tb, Plugin}
use kupl.Scheduler.Sspe.{SchedData, sched_get_tb, sspe}
use kupl.Scheduler.Hybrid.{Hybrid, get_outer, get_inner, then_inner, kupl_sched_hybrid_get_tb}

module _ {T : Type 0} (inner_plugin : Plugin T) (e : ℤ) (s : Hybrid SchedData T) where
  -- What a call comes to; `P` is what is known if the plugin of the inner level is not in use.
  pub data Answer (P : Type 0) : Type 0 where
    gave :
        (s' : Hybrid SchedData T) (tb : Tb)
        → kupl_sched_hybrid_get_tb sspe inner_plugin e s ≡ some (s', some tb)
        → Answer P
    not_in_use : P → Answer P
    inner_gave_none : (t : T) → inner_plugin.get_tb e s.inner ≡ some (t, none) → Answer P

  outer_result :
      (sd : SchedData) × (r : Option Tb) × (get_outer sspe inner_plugin e s
        ≡ some (record s { outer = sd }, r))
  unfolding get_outer
  outer_result = elim (Bool-cases s.outer_using) [
    | inl using ↦ let (sd, r) = sched_get_tb e s.outer in (sd, r, rw using refl)
    | inr idle ↦ (s.outer, none, rw idle refl)
  ]

  inner_result :
      (sd : SchedData) (t : T) (r : Option Tb)
      → s.inner_using ≡ true
      → inner_plugin.get_tb e s.inner ≡ some (t, r)
      → get_inner sspe inner_plugin e (record s { outer = sd })
        ≡ some (record s { outer = sd; inner = t }, r)
  unfolding get_inner
  inner_result sd t r using out = rw (using, out) refl

  after_outer :
      (P : Type 0) (sd : SchedData) (r1 : Option Tb) (t : T) (r : Option Tb)
      → s.inner_using ≡ true
      → get_outer sspe inner_plugin e s ≡ some (record s { outer = sd }, r1)
      → inner_plugin.get_tb e s.inner ≡ some (t, r)
      → Answer P
  unfolding kupl_sched_hybrid_get_tb
  after_outer P sd (some tb) t r using first out =
      gave (record s { outer = sd }) tb (ap (then_inner sspe inner_plugin e) first)
  after_outer P sd none t (some tb) using first out =
      gave (record s { outer = sd; inner = t }) tb
        (ap (then_inner sspe inner_plugin e) first ∙ inner_result sd t (some tb) using out)
  after_outer P sd none t none using first out = inner_gave_none t out

  pub answered :
      (P : Type 0)
      → (s.inner_using ≡ false → P)
      → (t : T) × (r : Option Tb) × (inner_plugin.get_tb e s.inner ≡ some (t, r))
      → Answer P
  answered P unused (t, r, out) = elim (Bool-cases s.inner_using) [
    | inl using ↦ let (sd, r1, first) = outer_result in after_outer P sd r1 t r using first out
    | inr idle ↦ not_in_use (unused idle)
  ]
