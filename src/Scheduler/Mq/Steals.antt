-- ===== src/Scheduler/Mq/Steals.antt =====
-- The loop of `kupl_sched_mq_get_tb` that draws an executor to steal from ends.
use kupl.Prelude.{
  ℕ, zero, suc, ◌%◌, ◌≡◌, ◌≢◌, refl, sym, subst, ap, ◌⊎◌, arith, List, [], ◌∷◌, get_or, update,
  update_same, Bool, ◌==◌, leb, Option, none, some, inl, inr, Bool-cases,
}
use kupl.Prelude.Int.{ℤ, pos_part, eqb_ℤ}
use kupl.Scheduler.{Tb, kupl_executor_default}
use kupl.Scheduler.Priority.{Heap, IsHeap}
use kupl.Scheduler.QueueSet.{get_at}
use kupl.Scheduler.QueueSet.Laws.{get_at-held, pop_by_priority-held}
use kupl.Scheduler.Mq.Generator.{Random, kupl_get_random, kupl_init_random}
use kupl.Scheduler.Mq.{
  Mq, kupl_mq_default, places_of, pop_one_tb, or_try, get_from_places, note_steal, steal,
  steal_first, steal_last, kupl_sched_mq_get_tb,
}
use kupl.Scheduler.Mq.Faithful.{IsMq}

-- Among the first `fuel` numbers that the generator gives there is one that is not the caller's.
abbrev pub Draws : ℕ → (eid num_executors : ℕ) → Random → Type 0
Draws zero eid num_executors r = ⊥
Draws (suc fuel) eid num_executors r =
    let (x, r') = kupl_get_random r in (x % num_executors ≢ eid) ⊎ Draws fuel eid num_executors r'

module _ {H : Type 0} (heap : Heap H) (laws : IsHeap heap) (enable_priority : Bool) where
  -- An attempt that ends.
  abbrev Ends : Option (Mq H × Option Tb) → Type 0
  Ends x = (out : Mq H × Option Tb) × (x ≡ some out)

  pop_one_tb-Ends :
      (s : Mq H) (eid : ℕ) → IsMq heap s → Ends (pop_one_tb heap enable_priority s eid)
  unfolding pop_one_tb
  pop_one_tb-Ends s eid w =
      let (parts, tb, out, _, _) =
        pop_by_priority-held heap laws enable_priority s.parts eid w.parts in
      ((record s { parts = parts }, tb), rw out refl)

  note_steal-Ends :
      (eid steal_eid : ℕ) (x : Option (Mq H × Option Tb))
      → Ends x
      → Ends (note_steal heap eid steal_eid x)
  note_steal-Ends eid steal_eid x ((s, none), e) = (_, ap (note_steal heap eid steal_eid) e)
  note_steal-Ends eid steal_eid x ((s, some tb), e) = (_, ap (note_steal heap eid steal_eid) e)

  steal-Ends :
      (fuel : ℕ) (s : Mq H) (eid : ℕ)
      → IsMq heap s
      → Draws fuel eid s.num_executors (s.random eid)
      → Ends (steal heap fuel enable_priority eid s)
  unfolding steal
  steal-Ends zero s eid w d = absurd d
  steal-Ends (suc fuel) s eid w d =
      let (x, r) = kupl_get_random (s.random eid) in
      let s1 : Mq H = record s { random = update s.random eid r } in
      let w1 : IsMq heap s1 = record { parts = w.parts; places = w.places } in
      elim (Bool-cases (eid == x % s.num_executors)) [
        | inl own ↦ elim d [
          | inl other ↦ absurd (ground (arith, own, other))
          | inr later ↦ rw own (
              steal-Ends fuel s1 eid w1
                (subst (Draws fuel eid s.num_executors) (sym (update_same s.random eid r)) later))
        ]
        | inr other ↦ rw other (note_steal-Ends eid _ _ (pop_one_tb-Ends s1 _ w1))
      ]

  -- An attempt before the loop ends, and does not change who may be drawn.
  abbrev Tries : Mq H → Option (Mq H × Option Tb) → Type 0
  Tries s x =
      (s' : Mq H) × (tb : Option Tb) × (x ≡ some (s', tb))
      × IsMq heap s'
      × (s'.random ≡ s.random)
      × (s'.num_executors ≡ s.num_executors)

  pop_one_tb-Tries :
      (s : Mq H) (eid : ℕ) → IsMq heap s → Tries s (pop_one_tb heap enable_priority s eid)
  unfolding pop_one_tb
  pop_one_tb-Tries s eid w =
      let (parts, tb, out, v, _) =
        pop_by_priority-held heap laws enable_priority s.parts eid w.parts in
      (
        record s { parts = parts },
        tb,
        rw out refl,
        record { parts = v; places = w.places },
        refl,
        refl,
      )

  or_try-Tries :
      (s : Mq H) (tb : Option Tb) (next : Mq H → Option (Mq H × Option Tb))
      → IsMq heap s
      → Tries s (next s)
      → Tries s (or_try heap (some (s, tb)) next)
  or_try-Tries s none next w h = h
  or_try-Tries s (some tb) next w h = (s, some tb, refl, w, refl, refl)

  get_from_places-Tries :
      (is : List ℕ) (s : Mq H) → IsMq heap s → Tries s (get_from_places heap is s)
  unfolding get_from_places
  get_from_places-Tries [] s w = (s, none, refl, w, refl, refl)
  get_from_places-Tries (i ∷ is) s w =
      let (v, _) = get_at-held s.real_place_queues i w.places in
      let (qs, tb) = get_at s.real_place_queues i in
      let s1 : Mq H = record s { real_place_queues = qs } in
      let w1 : IsMq heap s1 = record { parts = w.parts; places = v } in
      or_try-Tries s1 tb (get_from_places heap is) w1 (get_from_places-Tries is s1 w1)

  module _ (fuel eid : ℕ) where
    -- The loop ends from this state.
    abbrev pub CanSteal : Mq H → Type 0
    CanSteal s = Draws fuel eid s.num_executors (kupl_init_random eid (s.random eid))

    or_try-Ends :
        (s : Mq H) (x : Option (Mq H × Option Tb)) (next : Mq H → Option (Mq H × Option Tb))
        → CanSteal s
        → Tries s x
        → ((s1 : Mq H) → IsMq heap s1 → CanSteal s1 → Ends (next s1))
        → Ends (or_try heap x next)
    or_try-Ends s x next c (s1, some tb, out, _, _, _) h = ((s1, some tb), rw out refl)
    or_try-Ends s x next c (s1, none, out, w, same, count) h =
        let c1 : CanSteal s1 = rw (same, count) c in let (last, e) = h s1 w c1 in (last, rw out e)

    steal_first-Ends :
        (s : Mq H) → IsMq heap s → CanSteal s → Ends (steal_first heap fuel enable_priority eid s)
    unfolding steal_first
    steal_first-Ends s w c =
        let r = kupl_init_random eid (s.random eid) in
        let s1 : Mq H = record s { random = update s.random eid r } in
        let w1 : IsMq heap s1 = record { parts = w.parts; places = w.places } in
        steal-Ends fuel s1 eid w1
          (subst (Draws fuel eid s.num_executors) (sym (update_same s.random eid r)) c)

    steal_last-Ends :
        (s : Mq H) → IsMq heap s → CanSteal s → Ends (steal_last heap fuel enable_priority eid s)
    unfolding steal_last
    steal_last-Ends s w c = elim (Bool-cases (leb s.num_executors 1)) [
      | inl alone ↦ rw alone (_, refl)
      | inr several ↦
          elim (Bool-cases (eqb_ℤ (get_or s.last_steal eid kupl_mq_default) kupl_mq_default)) [
            | inl never ↦ rw (several, never) (steal_first-Ends s w c)
            | inr before ↦
                rw (several, before)
                  (or_try-Ends s _ (steal_first heap fuel enable_priority eid) c
                    (pop_one_tb-Tries s _ w) steal_first-Ends)
          ]
    ]

  -- For well-formed queues: getting a block from the mq plugin ends if one of the first `fuel`
  -- random numbers of the caller, after the generator is initialised, does not name the caller.
  pub kupl_sched_mq_get_tb-returns :
      (fuel : ℕ) (executor_id : ℤ) (s : Mq H)
      → IsMq heap s
      → CanSteal fuel (pos_part executor_id) s
      → (out : Mq H × Option Tb) × (kupl_sched_mq_get_tb heap fuel enable_priority executor_id s
          ≡ some out)
  unfolding kupl_sched_mq_get_tb
  kupl_sched_mq_get_tb-returns fuel executor_id s w c =
      let eid = pos_part executor_id in
      elim (Bool-cases (eqb_ℤ executor_id kupl_executor_default)) [
        | inl alien ↦ rw alien (_, refl)
        | inr own ↦ rw own (
            or_try-Ends fuel eid s _ _ c (pop_one_tb-Tries s eid w) (λ s1 w1 c1.
              let places = places_of heap s1 eid in
              or_try-Ends fuel eid s1 (get_from_places heap places s1)
                (steal_last heap fuel enable_priority eid) c1 (get_from_places-Tries places s1 w1)
                (steal_last-Ends fuel eid)))
      ]
