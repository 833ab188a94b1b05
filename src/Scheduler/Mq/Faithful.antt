-- ===== src/Scheduler/Mq/Faithful.antt =====
-- The mq plugin loses no block and hands none out twice, whichever queue a block goes to and comes
-- from.
use kupl.Prelude.{
  ℕ, zero, suc, ◌+◌, ◌%◌, ◌≡◌, ◌≢◌, refl, subst, ◌∙◌, arith, List, [], ◌∷◌, length, get_or, update,
  Bool, true, false, ◌&&◌, ◌==◌, leb, if◌then◌else◌, Option, none, some, inl, inr, Bool-cases,
}
use kupl.Prelude.Int.{ℤ, pos, pos_part, eqb_ℤ, leb_ℤ}
use kupl.Scheduler.Answers.{Adds, Gets, faithful}
use kupl.Scheduler.{
  Tb, Plugin, IsFaithful, one, has_bit, kupl_tb_flag_priority, kupl_executor_default,
  kupl_tb_executor_id_default, kupl_tb_executor_id_place,
}
use kupl.Scheduler.Priority.{Heap, IsHeap}
use kupl.Scheduler.Priority.Laws.{priority_queue_add_tb-held}
use kupl.Scheduler.QueueSet.{QueueSet, add_at, get_at}
use kupl.Scheduler.QueueSet.Laws.{
  IsQueueSet, AllQueues, in_queues, all_held, add_at-held, get_at-held, pop_by_priority-held,
}
use kupl.Scheduler.Mq.Generator.{kupl_get_random}
use kupl.Scheduler.Mq.{
  Mq, Route, to_place, to_executor, mq, kupl_mq_default, places_of, route, add_to_places,
  add_to_local, add_by_route, pop_one_tb, or_try, get_from_places, note_steal, steal, steal_first,
  steal_last, kupl_sched_mq_add_tb, kupl_sched_mq_get_tb,
}

module _ {H : Type 0} (heap : Heap H) where
  pub record IsMq (s : Mq H) : Type 0 where
    pub parts : IsQueueSet heap s.parts
    pub places : AllQueues s.real_place_queues

  abbrev pub mq_held : ℕ → Mq H → ℕ
  mq_held k s = all_held heap k s.parts + in_queues k s.real_place_queues

module _ {H : Type 0} (heap : Heap H) (laws : IsHeap heap) (fuel : ℕ) (enable_priority : Bool) where
  abbrev plugin : Plugin (Mq H)
  plugin = mq heap fuel enable_priority

  -- What adding comes to.
  abbrev Added : Mq H → Tb → Mq H × Bool → Type 0
  Added s tb out =
      IsMq heap out.0
      × ((k : ℕ) → mq_held heap k out.0 ≡ (if out.1 then one k tb else 0) + mq_held heap k s)

  add_to_places-Added :
      (is : List ℕ) (err : Bool) (s : Mq H) (tb : Tb)
      → IsMq heap s
      → (length is ≡ 0 → err ≡ false)
      → Added s tb (add_to_places heap is err s tb)
  unfolding add_to_places
  add_to_places-Added [] err s tb w h = rw (h refl) (w, λ k. omega arith)
  add_to_places-Added (i ∷ is) err s tb w h =
      let (v, same) = add_at-held s.real_place_queues i tb w.places in
      let s1 : Mq H = record s { real_place_queues = (add_at s.real_place_queues i tb).0 } in
      let w1 : IsMq heap s1 = record { parts = w.parts; places = v } in
      elim (Bool-cases (add_at s.real_place_queues i tb).1) [
        | inl yes_room ↦ rw yes_room (
          w1,
          λ k.
              let given = same k in
              let given' : in_queues k s1.real_place_queues
                  ≡ one k tb + in_queues k s.real_place_queues =
                given ∙ rw yes_room (omega arith) in
              omega (arith, given'),
        )
        | inr no_room ↦
            let (w2, same') = add_to_places-Added is false s1 tb w1 (λ _. refl) in
            rw no_room (
              w2,
              λ k.
                  let given' : in_queues k s1.real_place_queues ≡ in_queues k s.real_place_queues =
                    same k ∙ rw no_room (omega arith) in
                  omega (arith, same' k, given'),
            )
      ]

  add_to_local-Added :
      (s : Mq H) (own_eid eid : ℕ) (tb : Tb)
      → IsMq heap s
      → Added s tb (add_to_local heap s own_eid eid tb)
  unfolding add_to_local
  add_to_local-Added s own_eid eid tb w =
      let (v, same) = add_at-held s.parts.queues eid tb w.parts.each in
      let parts1 : QueueSet H = record {
        priority_queues = s.parts.priority_queues;
        queues = (add_at s.parts.queues eid tb).0;
      } in
      let s1 : Mq H = record s { parts = parts1 } in
      let w1 : IsMq heap s1 = record {
        parts = record { priority = w.parts.priority; each = v };
        places = w.places;
      } in
      elim (Bool-cases (add_at s.parts.queues eid tb).1) [
        | inl yes_room ↦ rw yes_room (
          w1,
          λ k.
              let given' : in_queues k parts1.queues ≡ one k tb + in_queues k s.parts.queues =
                same k ∙ rw yes_room (omega arith) in
              omega (arith, given'),
        )
        | inr no_room ↦
            let (w2, same') =
              add_to_places-Added (places_of heap s1 own_eid) false s1 tb w1 (λ _. refl) in
            rw no_room (
              w2,
              λ k.
                  let given' : in_queues k parts1.queues ≡ in_queues k s.parts.queues =
                    same k ∙ rw no_room (omega arith) in
                  omega (arith, same' k, given'),
            )
      ]

  -- A block goes to the shared queues only if there are some.
  abbrev Usable : Mq H → ℕ → Route → Type 0
  Usable s own_eid to_place = length (places_of heap s own_eid) ≢ 0
  Usable s own_eid (to_executor eid) = Unit

  route-Usable :
      (s : Mq H) (own_eid : ℕ) (executor_id : ℤ)
      → Usable s own_eid (route heap s own_eid executor_id)
  route-Usable s own_eid executor_id =
      elim (Bool-cases (eqb_ℤ executor_id kupl_tb_executor_id_default)) [
        | inl default ↦ rw default tt
        | inr given ↦ elim (Bool-cases (eqb_ℤ executor_id kupl_tb_executor_id_place)) [
          | inl place ↦ elim (Bool-cases (length (places_of heap s own_eid) == 0)) [
            | inl nowhere ↦ rw (given, place, nowhere) tt
            | inr somewhere ↦ rw (given, place, somewhere) (λ e. ground arith)
          ]
          | inr number ↦ elim (Bool-cases (leb_ℤ (pos 0) executor_id)) [
            | inl fits ↦ rw (given, number, fits) tt
            | inr less ↦ rw (given, number, less) tt
          ]
        ]
      ]

  add_by_route-Added :
      (s : Mq H) (own_eid : ℕ) (tb : Tb) (r : Route)
      → Usable s own_eid r
      → IsMq heap s
      → Added s tb (add_by_route heap enable_priority s own_eid tb r)
  unfolding add_by_route
  add_by_route-Added s own_eid tb to_place h w =
      add_to_places-Added (places_of heap s own_eid) true s tb w (λ e. absurd (h e))
  add_by_route-Added s own_eid tb (to_executor eid) h w =
      elim (Bool-cases (enable_priority && has_bit kupl_tb_flag_priority tb.flag)) [
        | inl first ↦
            let (v, same) =
              priority_queue_add_tb-held heap s.parts.priority_queues tb w.parts.priority in
            rw first (
              record { parts = record { priority = v; each = w.parts.each }; places = w.places },
              λ k. omega (arith, same k),
            )
        | inr plain ↦ rw plain (add_to_local-Added s own_eid eid tb w)
      ]

  adds : (e : ℤ) (s : Mq H) (tb : Tb) → IsMq heap s → Adds plugin (IsMq heap) (mq_held heap) e s tb
  unfolding kupl_sched_mq_add_tb
  adds e s tb w = elim (Bool-cases (eqb_ℤ e kupl_executor_default)) [
    | inl alien ↦ rw alien (w, λ k. omega arith)
    | inr own ↦ rw own (
        add_by_route-Added s (pos_part e) tb (route heap s (pos_part e) tb.executor_id)
          (route-Usable s (pos_part e) tb.executor_id) w)
  ]

  -- What an attempt to get a block comes to, when it ends.
  abbrev Kept : Mq H → Option (Mq H × Option Tb) → Type 0
  Kept s none = Unit
  Kept s (some (s', tb)) = Gets plugin (IsMq heap) (mq_held heap) s s' tb

  or_try-Kept :
      (s : Mq H) (x : Option (Mq H × Option Tb)) (next : Mq H → Option (Mq H × Option Tb))
      → Kept s x
      → ((s1 : Mq H) → IsMq heap s1 → Kept s1 (next s1))
      → Kept s (or_try heap x next)
  or_try-Kept s none next x h = tt
  or_try-Kept s (some (s1, some tb)) next x h = x
  or_try-Kept s (some (s1, none)) next (w, same) h = from_there (next s1) (h s1 w)
    where
      from_there : (y : Option (Mq H × Option Tb)) → Kept s1 y → Kept s y
      from_there none k = tt
      from_there (some (s2, tb)) (w2, same2) = (w2, λ k. omega (arith, same k, same2 k))

  pop_one_tb-Kept :
      (s : Mq H) (eid : ℕ) → IsMq heap s → Kept s (pop_one_tb heap enable_priority s eid)
  unfolding pop_one_tb
  pop_one_tb-Kept s eid w =
      let (parts, tb, out, v, same) =
        pop_by_priority-held heap laws enable_priority s.parts eid w.parts in
      rw out (record { parts = v; places = w.places }, λ k. omega (arith, same k))

  get_from_places-Kept : (is : List ℕ) (s : Mq H) → IsMq heap s → Kept s (get_from_places heap is s)
  unfolding get_from_places
  get_from_places-Kept [] s w = (w, λ k. omega arith)
  get_from_places-Kept (i ∷ is) s w =
      let (v, same) = get_at-held s.real_place_queues i w.places in
      let (qs, tb) = get_at s.real_place_queues i in
      or_try-Kept s (some (record s { real_place_queues = qs }, tb)) (get_from_places heap is)
        (record { parts = w.parts; places = v }, λ k. omega (arith, same k))
        (get_from_places-Kept is)

  note_steal-Kept :
      (s : Mq H) (eid steal_eid : ℕ) (x : Option (Mq H × Option Tb))
      → Kept s x
      → Kept s (note_steal heap eid steal_eid x)
  note_steal-Kept s eid steal_eid none x = tt
  note_steal-Kept s eid steal_eid (some (s1, none)) (w, same) =
      (record { parts = w.parts; places = w.places }, same)
  note_steal-Kept s eid steal_eid (some (s1, some tb)) (w, same) =
      (record { parts = w.parts; places = w.places }, same)

  steal-Kept :
      (f : ℕ) (s : Mq H) (eid : ℕ) → IsMq heap s → Kept s (steal heap f enable_priority eid s)
  unfolding steal
  steal-Kept zero s eid w = tt
  steal-Kept (suc f) s eid w =
      let s1 : Mq H = record s {
        random = update s.random eid (kupl_get_random (s.random eid)).1;
      } in
      let steal_eid = (kupl_get_random (s.random eid)).0 % s.num_executors in
      let w1 : IsMq heap s1 = record { parts = w.parts; places = w.places } in
      elim (Bool-cases (eid == steal_eid)) [
        | inl own ↦ rw own (steal-Kept f s1 eid w1)
        | inr other ↦
            rw other (note_steal-Kept s1 eid steal_eid _ (pop_one_tb-Kept s1 steal_eid w1))
      ]

  steal_first-Kept :
      (s : Mq H) (eid : ℕ) → IsMq heap s → Kept s (steal_first heap fuel enable_priority eid s)
  unfolding steal_first
  steal_first-Kept s eid w = steal-Kept fuel _ eid (record { parts = w.parts; places = w.places })

  steal_last-Kept :
      (s : Mq H) (eid : ℕ) → IsMq heap s → Kept s (steal_last heap fuel enable_priority eid s)
  unfolding steal_last
  steal_last-Kept s eid w = elim (Bool-cases (leb s.num_executors 1)) [
    | inl alone ↦ rw alone (w, λ k. omega arith)
    | inr several ↦
        elim (Bool-cases (eqb_ℤ (get_or s.last_steal eid kupl_mq_default) kupl_mq_default)) [
          | inl never ↦ rw (several, never) (steal_first-Kept s eid w)
          | inr before ↦
              rw (several, before)
                (or_try-Kept s _ (steal_first heap fuel enable_priority eid) (pop_one_tb-Kept s _ w)
                  (λ s1. steal_first-Kept s1 eid))
        ]
  ]

  get-Kept :
      (e : ℤ) (s : Mq H) → IsMq heap s → Kept s (kupl_sched_mq_get_tb heap fuel enable_priority e s)
  unfolding kupl_sched_mq_get_tb
  get-Kept e s w = elim (Bool-cases (eqb_ℤ e kupl_executor_default)) [
    | inl alien ↦ rw alien (w, λ k. omega arith)
    | inr own ↦ rw own (
        or_try-Kept s _ _ (pop_one_tb-Kept s (pos_part e) w) (λ s1 w1.
          let places = places_of heap s1 (pos_part e) in
          or_try-Kept s1 (get_from_places heap places s1)
            (steal_last heap fuel enable_priority (pos_part e)) (get_from_places-Kept places s1 w1)
            (λ s2. steal_last-Kept s2 (pos_part e))))
  ]

  -- The mq plugin keeps the promises of the interface: on well-formed queues, a block that is
  -- added is held once more, a block that is refused is not, and a block that a call which ends
  -- gives back was held and is held once less.
  pub mq-IsFaithful : IsFaithful (mq heap fuel enable_priority) (IsMq heap) (mq_held heap)
  mq-IsFaithful =
      faithful plugin (IsMq heap) (mq_held heap) adds
        (λ e s s' r w given. subst (Kept s) given (get-Kept e s w))
