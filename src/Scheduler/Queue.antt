-- ===== src/Scheduler/Queue.antt =====
-- `queue_t`, a vector of task blocks with a lock at each end: the same code stands in
-- src/mt/scheduler/plugin/mq/kupl_sched_mq.cpp and twice in src/mt/scheduler/plugin/static_mq. Each
-- function holds its lock throughout, and is one step here.
pub mod Laws
use kupl.Prelude.{ℕ, Bool, true, false, not, ◌||◌, if◌then◌else◌, Option, none, some}
use kupl.Vector.{Vector, kupl_vector_create}
use kupl.Vector.Macros.{
  kupl_vector_push_back_macro, kupl_vector_front_macro, kupl_vector_empty_macro,
  kupl_vector_pop_front_macro,
}
use kupl.Scheduler.{Tb, no_tb}

abbrev pub Queue : Type 0
Queue = Vector Tb

-- Whether an allocation of so many bytes succeeds, and the creation of a lock.
pub record Memory : Type 0 where
  pub kupl_calloc : ℕ → Bool
  pub kupl_lock_create : Bool

-- `sizeof(queue_t)`, and of a pointer.
abbrev pub sizeof_queue : ℕ
sizeof_queue = 24

abbrev pub sizeof_pointer : ℕ
sizeof_pointer = 8

-- `none`: the creation of the vector has not ended; `some none`: a null pointer.
unfoldable pub queue_create : Memory → ℕ → Option (Option Queue)
queue_create memory size =
    if not (memory.kupl_calloc sizeof_queue)
    then some none
    else elim (kupl_vector_create memory.kupl_calloc no_tb size sizeof_pointer) [
      | none ↦ none
      | some q ↦ some (if memory.kupl_lock_create then q else none)
    ]

unfoldable pub queue_add_tb : Option Queue → Tb → Option Queue × Bool
queue_add_tb none tb = (none, false)
queue_add_tb (some q) tb = let (q', err) = kupl_vector_push_back_macro q tb in (some q', err)

unfoldable pub queue_get_tb : Option Queue → Option Queue × Option Tb
queue_get_tb none = (none, none)
queue_get_tb (some q) =
    if kupl_vector_empty_macro q
    then (some q, none)
    else (some (kupl_vector_pop_front_macro q), some (kupl_vector_front_macro q))
