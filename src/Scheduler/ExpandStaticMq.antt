-- ===== src/Scheduler/ExpandStaticMq.antt =====
-- src/mt/scheduler/plugin/static_mq/kupl_sched_expand_static_mq.cpp: the queues of executors that join
-- one at a time.
pub mod Faithful
use kupl.Prelude.{
  ℕ, suc, ◌+◌, ◌*◌, Bool, true, false, not, ltb, if◌then◌else◌, Option, none, some, List, [],
}
use kupl.Prelude.Int.{ℤ, pos, pos_part, eqb_ℤ, leb_ℤ}
use kupl.Prelude.{replicate, set, length}
use kupl.Scheduler.{Tb, Plugin, kupl_executor_default, kupl_tb_executor_id_default}
use kupl.Scheduler.Queue.{Queue, Memory, queue_create, sizeof_pointer}
use kupl.Scheduler.Priority.{Heap, PriorityQueue, priority_queue_create}
use kupl.Scheduler.QueueSet.{QueueSet, add_by_flag, pop_by_priority}

-- `queues` of `set` has `max_num_executors` places, of which `num_executors` are filled.
pub record Expanding (H : Type 0) : Type 0 where
  pub max_num_executors : ℕ
  pub num_executors : ℕ
  pub queue_size : ℕ
  pub parts : QueueSet H

-- `sizeof(kupl_sched_expand_static_mq_t)`
abbrev sizeof_sched : ℕ
sizeof_sched = 32

module _ {H : Type 0} (heap : Heap H) where
  abbrev with_first :
      ℕ → ℕ → Option (PriorityQueue H) → Option (Option Queue) → Option (Option (Expanding H))
  with_first pu_cnt queue_size none q = some none
  with_first pu_cnt queue_size (some p) none = none
  with_first pu_cnt queue_size (some p) (some none) = some none
  with_first pu_cnt queue_size (some p) (some (some q)) = some (
      some (record {
        max_num_executors = pu_cnt;
        num_executors = 1;
        queue_size = queue_size;
        parts = record {
          priority_queues = some p;
          queues = set (replicate pu_cnt none) 0 (some q);
        };
      }))

  -- One executor to begin with. `some none` is a null pointer.
  unfoldable pub kupl_sched_expand_static_mq_create :
      Memory → (pu_cnt queue_size : ℕ) → Option (Option (Expanding H))
  kupl_sched_expand_static_mq_create memory pu_cnt queue_size =
      if not (memory.kupl_calloc sizeof_sched)
      then some none
      else elim (priority_queue_create heap memory queue_size) [
        | none ↦ none
        | some p ↦
            if not (memory.kupl_calloc (pu_cnt * sizeof_pointer))
            then some none
            else with_first pu_cnt queue_size p (queue_create memory queue_size)
      ]

  abbrev with_next : Expanding H → Option (Option Queue) → Option (Option (Expanding H))
  with_next s none = none
  with_next s (some none) = some none
  with_next s (some (some q)) = some (
      some (record s {
        num_executors = s.num_executors + 1;
        parts = record {
          priority_queues = s.parts.priority_queues;
          queues = set s.parts.queues s.num_executors (some q);
        };
      }))

  -- One executor more. On failure the scheduler is freed, and the result is a null pointer.
  unfoldable pub kupl_sched_expand_static_mq_expand :
      Memory → Expanding H → Option (Option (Expanding H))
  kupl_sched_expand_static_mq_expand memory s =
      if ltb s.max_num_executors (s.num_executors + 1)
      then some none
      else with_next s (queue_create memory s.queue_size)

  -- `kupl_get_local_executor_num` is a parameter.
  unfoldable pub kupl_sched_expand_static_mq_add_tb :
      (ℤ → ℕ) → Bool → ℤ → Expanding H → Tb → Expanding H × Bool
  kupl_sched_expand_static_mq_add_tb kupl_get_local_executor_num enable_priority geid sched tb =
      let eid = if leb_ℤ tb.executor_id kupl_tb_executor_id_default then geid else tb.executor_id in
      if eqb_ℤ geid kupl_executor_default
      then (sched, false)
      else if not (eqb_ℤ eid geid)
      then (sched, false)
      else (let (parts, ok) =
            add_by_flag heap enable_priority sched.parts (kupl_get_local_executor_num eid) tb in
          (record sched { parts = parts }, ok))

  abbrev with_parts :
      Expanding H → Option (QueueSet H × Option Tb) → Option (Expanding H × Option Tb)
  with_parts sched none = none
  with_parts sched (some out) = some (record sched { parts = out.0 }, out.1)

  unfoldable pub kupl_sched_expand_static_mq_get_tb :
      (ℤ → ℕ) → Bool → ℤ → Expanding H → Option (Expanding H × Option Tb)
  kupl_sched_expand_static_mq_get_tb kupl_get_local_executor_num enable_priority eid sched =
      if eqb_ℤ eid kupl_executor_default
      then some (sched, none)
      else with_parts sched
          (pop_by_priority heap enable_priority sched.parts (kupl_get_local_executor_num eid))

  -- `KUPL_SCHED_PLUGIN_GLOBAL_VAR(expand_static_mq)`
  abbrev pub expand_static_mq : (ℤ → ℕ) → Bool → Plugin (Expanding H)
  expand_static_mq kupl_get_local_executor_num enable_priority = record {
    add_tb = kupl_sched_expand_static_mq_add_tb kupl_get_local_executor_num enable_priority;
    get_tb = kupl_sched_expand_static_mq_get_tb kupl_get_local_executor_num enable_priority;
  }
