-- ===== src/Scheduler/StaticMq/Faithful.antt =====
-- The static_mq plugin loses no block, hands none out twice, and always answers.
use kupl.Prelude.{refl, arith, Bool, if◌then◌else◌, none, inl, inr, Bool-cases}
use kupl.Prelude.Int.{ℤ, pos_part, eqb_ℤ, leb_ℤ}
use kupl.Scheduler.Answers.{Adds, Answers, answer, faithful}
use kupl.Scheduler.{Tb, Plugin, IsFaithful, kupl_executor_default, kupl_tb_executor_id_default}
use kupl.Scheduler.Priority.{Heap, IsHeap}
use kupl.Scheduler.QueueSet.{QueueSet}
use kupl.Scheduler.QueueSet.Laws.{IsQueueSet, all_held, add_by_flag-held, pop_by_priority-held}
use kupl.Scheduler.StaticMq.{static_mq, kupl_sched_static_mq_add_tb, kupl_sched_static_mq_get_tb}

module _ {H : Type 0} (heap : Heap H) (laws : IsHeap heap) (enable_priority : Bool) where
  abbrev plugin : Plugin (QueueSet H)
  plugin = static_mq heap enable_priority

  adds :
      (e : ℤ) (s : QueueSet H) (tb : Tb)
      → IsQueueSet heap s
      → Adds plugin (IsQueueSet heap) (all_held heap) e s tb
  unfolding kupl_sched_static_mq_add_tb
  adds e s tb w = elim (Bool-cases (eqb_ℤ e kupl_executor_default)) [
    | inl alien ↦ rw alien (w, λ k. omega arith)
    | inr own ↦ rw own (
        add_by_flag-held heap enable_priority s
          (pos_part
            (if leb_ℤ tb.executor_id kupl_tb_executor_id_default then e else tb.executor_id))
          tb w)
  ]

  -- For well-formed queues: taking a block from the plugin ends, and gives a block that was
  -- held, which is held once less afterwards, or none; the queues stay well-formed.
  pub kupl_sched_static_mq_get_tb-Answers :
      (e : ℤ) (s : QueueSet H)
      → IsQueueSet heap s
      → Answers (static_mq heap enable_priority) (IsQueueSet heap) (all_held heap) e s
  unfolding kupl_sched_static_mq_get_tb
  kupl_sched_static_mq_get_tb-Answers e s w = elim (Bool-cases (eqb_ℤ e kupl_executor_default)) [
    | inl alien ↦ (s, none, rw alien refl, (w, λ k. omega arith))
    | inr own ↦
        let (s', tb, out, v, same) =
          pop_by_priority-held heap laws enable_priority s (pos_part e) w in
        (s', tb, rw own out, (v, same))
  ]

  -- The static_mq plugin keeps the promises of the interface.
  pub static_mq-IsFaithful :
      IsFaithful (static_mq heap enable_priority) (IsQueueSet heap) (all_held heap)
  static_mq-IsFaithful = faithful plugin (IsQueueSet heap) (all_held heap) adds (λ e s s' r w.
      answer plugin (IsQueueSet heap) (all_held heap) e s s' r
        (kupl_sched_static_mq_get_tb-Answers e s w))
