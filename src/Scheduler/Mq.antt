-- ===== src/Scheduler/Mq.antt =====
-- src/mt/scheduler/plugin/mq/kupl_sched_mq.cpp: a queue for each executor, queues that several
-- executors share, and stealing.
pub mod Generator
pub mod Faithful
pub mod Steals
use kupl.Prelude.{
  ℕ, zero, suc, ◌%◌, Bool, true, false, not, ◌&&◌, ◌==◌, leb, if◌then◌else◌, Option, none, some,
  List, [], ◌∷◌, length, get_or, set, update,
}
use kupl.Prelude.Int.{ℤ, pos, pos_part, eqb_ℤ, leb_ℤ, ltb_ℤ}
use kupl.Scheduler.{
  Tb, Plugin, has_bit, kupl_tb_flag_priority, kupl_executor_default, kupl_tb_executor_id_default,
  kupl_tb_executor_id_place,
}
use kupl.Scheduler.Queue.{Queue}
use kupl.Scheduler.Priority.{Heap, priority_queue_add_tb}
use kupl.Scheduler.QueueSet.{QueueSet, add_at, get_at, pop_by_priority}
use kupl.Scheduler.Mq.Generator.{Random, kupl_get_random, kupl_init_random}

-- `KUPL_MQ_DEFAULT`
abbrev pub kupl_mq_default : ℤ
kupl_mq_default = kupl_executor_default

-- The priority queue and the local queues are `parts`; `real_place_queues` are the queues that executors
-- share, and `place_queues` lists, for each executor, which of them it uses. `random` is the state of
-- each executor's generator.
pub record Mq (H : Type 0) : Type 0 where
  pub num_executors : ℕ
  pub parts : QueueSet H
  pub real_place_queues : List (Option Queue)
  pub place_queues : List (List ℕ)
  pub last_steal : List ℤ
  pub random : ℕ → Random

-- Which queue a block goes to first.
pub data Route : Type 0 where
  to_place : Route
  to_executor : ℕ → Route

module _ {H : Type 0} (heap : Heap H) where
  abbrev places_of : Mq H → ℕ → List ℕ
  places_of s eid = get_or s.place_queues eid []

  abbrev route : Mq H → ℕ → ℤ → Route
  route s own_eid executor_id =
      if eqb_ℤ executor_id kupl_tb_executor_id_default
      then to_executor own_eid
      else if eqb_ℤ executor_id kupl_tb_executor_id_place
      then (if length (places_of s own_eid) == 0 then to_executor own_eid else to_place)
      else if leb_ℤ (pos 0) executor_id
      then to_executor (pos_part executor_id)
      else to_executor own_eid

  -- The loop under `place_queue:`; `err` is the result so far.
  add_to_places : List ℕ → Bool → Mq H → Tb → Mq H × Bool
  add_to_places [] err s tb = (s, err)
  add_to_places (i ∷ is) err s tb =
      let (qs, ok) = add_at s.real_place_queues i tb in
      let s' = record s { real_place_queues = qs } in
      let rest = add_to_places is false s' tb in if ok then (s', true) else rest

  add_to_local : Mq H → (own_eid eid : ℕ) → Tb → Mq H × Bool
  unfolding add_to_places
  add_to_local s own_eid eid tb =
      let (qs, ok) = add_at s.parts.queues eid tb in
      let s' = record s {
        parts = record { priority_queues = s.parts.priority_queues; queues = qs };
      } in
      if ok then (s', true) else add_to_places (places_of s' own_eid) false s' tb

  add_by_route : Bool → Mq H → ℕ → Tb → Route → Mq H × Bool
  unfolding add_to_local
  add_by_route enable_priority s own_eid tb to_place = add_to_places (places_of s own_eid) true s tb
  add_by_route enable_priority s own_eid tb (to_executor eid) =
      if enable_priority && has_bit kupl_tb_flag_priority tb.flag
      then (let (p, ok) = priority_queue_add_tb heap s.parts.priority_queues tb in
          (record s { parts = record { priority_queues = p; queues = s.parts.queues } }, ok))
      else add_to_local s own_eid eid tb

  unfoldable pub kupl_sched_mq_add_tb : Bool → ℤ → Mq H → Tb → Mq H × Bool
  unfolding add_by_route
  kupl_sched_mq_add_tb enable_priority own_eid s tb =
      if eqb_ℤ own_eid kupl_executor_default
      then (s, false)
      else add_by_route enable_priority s (pos_part own_eid) tb
          (route s (pos_part own_eid) tb.executor_id)

  abbrev with_parts : Mq H → Option (QueueSet H × Option Tb) → Option (Mq H × Option Tb)
  with_parts s none = none
  with_parts s (some out) = some (record s { parts = out.0 }, out.1)

  pop_one_tb : Bool → Mq H → ℕ → Option (Mq H × Option Tb)
  pop_one_tb enable_priority s executor_id =
      with_parts s (pop_by_priority heap enable_priority s.parts executor_id)

  -- `if (tb != nullptr) return tb;`
  abbrev or_try :
      Option (Mq H × Option Tb) → (Mq H → Option (Mq H × Option Tb)) → Option (Mq H × Option Tb)
  or_try none next = none
  or_try (some (s, some tb)) next = some (s, some tb)
  or_try (some (s, none)) next = next s

  get_from_places : List ℕ → Mq H → Option (Mq H × Option Tb)
  get_from_places [] s = some (s, none)
  get_from_places (i ∷ is) s =
      let (qs, tb) = get_at s.real_place_queues i in
      or_try (some (record s { real_place_queues = qs }, tb)) (get_from_places is)

  -- What is noted after a try to steal.
  abbrev note_steal : ℕ → ℕ → Option (Mq H × Option Tb) → Option (Mq H × Option Tb)
  note_steal eid steal_eid none = none
  note_steal eid steal_eid (some (s, some tb)) =
      some (record s { last_steal = set s.last_steal eid (pos steal_eid) }, some tb)
  note_steal eid steal_eid (some (s, none)) =
      some (record s { last_steal = set s.last_steal eid kupl_mq_default }, none)

  -- The loop: numbers are drawn until one is not the caller's, and that executor is tried, once. On fuel,
  -- since the loop has no bound; `none`: the fuel ran out.
  steal : ℕ → Bool → ℕ → Mq H → Option (Mq H × Option Tb)
  unfolding pop_one_tb
  steal zero enable_priority eid s = none
  steal (suc fuel) enable_priority eid s =
      let (r, random) = kupl_get_random (s.random eid) in
      let s' = record s { random = update s.random eid random } in
      let steal_eid = r % s.num_executors in
      let again = steal fuel enable_priority eid s' in
      if eid == steal_eid
      then again
      else note_steal eid steal_eid (pop_one_tb enable_priority s' steal_eid)

  steal_first : ℕ → Bool → ℕ → Mq H → Option (Mq H × Option Tb)
  unfolding steal
  steal_first fuel enable_priority eid s =
      steal fuel enable_priority eid
        (record s { random = update s.random eid (kupl_init_random eid (s.random eid)) })

  steal_last : ℕ → Bool → ℕ → Mq H → Option (Mq H × Option Tb)
  unfolding pop_one_tb steal_first
  steal_last fuel enable_priority eid s =
      let last_steal = get_or s.last_steal eid kupl_mq_default in
      if leb s.num_executors 1
      then some (s, none)
      else if eqb_ℤ last_steal kupl_mq_default
      then steal_first fuel enable_priority eid s
      else or_try (pop_one_tb enable_priority s (pos_part last_steal))
          (steal_first fuel enable_priority eid)

  unfoldable pub kupl_sched_mq_get_tb : ℕ → Bool → ℤ → Mq H → Option (Mq H × Option Tb)
  unfolding pop_one_tb get_from_places steal_last
  kupl_sched_mq_get_tb fuel enable_priority executor_id s =
      if eqb_ℤ executor_id kupl_executor_default
      then some (s, none)
      else (let eid = pos_part executor_id in
          or_try (pop_one_tb enable_priority s eid) (λ s1.
            or_try (get_from_places (places_of s1 eid) s1) (steal_last fuel enable_priority eid)))

  -- `KUPL_SCHED_PLUGIN_GLOBAL_VAR(mq)`
  abbrev pub mq : ℕ → Bool → Plugin (Mq H)
  mq fuel enable_priority = record {
    add_tb = kupl_sched_mq_add_tb enable_priority;
    get_tb = kupl_sched_mq_get_tb fuel enable_priority;
  }
