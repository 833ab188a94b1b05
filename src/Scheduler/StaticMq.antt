-- ===== src/Scheduler/StaticMq.antt =====
-- src/mt/scheduler/plugin/static_mq/kupl_sched_static_mq.cpp: a queue for each executor, and no
-- stealing.
pub mod Faithful
use kupl.Prelude.{ℕ, ◌*◌, Bool, true, false, not, ◌||◌, if◌then◌else◌, Option, none, some, List, []}
use kupl.Prelude.Int.{ℤ, pos, pos_part, eqb_ℤ, leb_ℤ}
use kupl.Scheduler.{Tb, Plugin, kupl_executor_default, kupl_tb_executor_id_default}
use kupl.Scheduler.Queue.{Memory, sizeof_pointer}
use kupl.Scheduler.Priority.{Heap, PriorityQueue, priority_queue_create}
use kupl.Scheduler.QueueSet.{
  QueueSet, Created, made, failed, stuck, create_queues, add_by_flag, pop_by_priority,
}

-- `sizeof(kupl_sched_static_mq_t)`
abbrev sizeof_sched : ℕ
sizeof_sched = 24

module _ {H : Type 0} (heap : Heap H) where
  -- Both arrays are there: the queues are made. `some none` is a null pointer.
  abbrev with_queues : Option (PriorityQueue H) → Created → Option (Option (QueueSet H))
  with_queues none qs = some none
  with_queues (some p) stuck = none
  with_queues (some p) failed = some none
  with_queues (some p) (made qs) = some (some (record { priority_queues = some p; queues = qs }))

  unfoldable pub kupl_sched_static_mq_create :
      Memory → (num_executors queue_size : ℕ) → Option (Option (QueueSet H))
  kupl_sched_static_mq_create memory num_executors queue_size =
      if not (memory.kupl_calloc sizeof_sched)
      then some none
      else elim (priority_queue_create heap memory queue_size) [
        | none ↦ none
        | some p ↦
            if not (memory.kupl_calloc (num_executors * sizeof_pointer))
            then some none
            else with_queues p (create_queues memory queue_size num_executors)
      ]

  -- `geid` is the calling executor.
  unfoldable pub kupl_sched_static_mq_add_tb : Bool → ℤ → QueueSet H → Tb → QueueSet H × Bool
  kupl_sched_static_mq_add_tb enable_priority geid sched tb =
      if eqb_ℤ geid kupl_executor_default
      then (sched, false)
      else (let eid =
            if leb_ℤ tb.executor_id kupl_tb_executor_id_default then geid else tb.executor_id in
          add_by_flag heap enable_priority sched (pos_part eid) tb)

  unfoldable pub kupl_sched_static_mq_get_tb :
      Bool → ℤ → QueueSet H → Option (QueueSet H × Option Tb)
  kupl_sched_static_mq_get_tb enable_priority eid sched =
      if eqb_ℤ eid kupl_executor_default
      then some (sched, none)
      else pop_by_priority heap enable_priority sched (pos_part eid)

  -- `KUPL_SCHED_PLUGIN_GLOBAL_VAR(static_mq)`
  abbrev pub static_mq : Bool → Plugin (QueueSet H)
  static_mq enable_priority = record {
    add_tb = kupl_sched_static_mq_add_tb enable_priority;
    get_tb = kupl_sched_static_mq_get_tb enable_priority;
  }
