-- ===== src/Scheduler/QueueSet.antt =====
-- What the plugins with a queue for each executor and a priority queue share:
-- src/mt/scheduler/plugin/static_mq and src/mt/scheduler/plugin/mq.
pub mod Laws
use kupl.Prelude.{
  ℕ, zero, suc, Bool, true, false, ◌&&◌, if◌then◌else◌, Option, none, some, List, [], ◌∷◌, length,
  get_or, set,
}
use kupl.Prelude.Int.{ℤ, pos_part}
use kupl.Scheduler.{Tb, has_bit, kupl_tb_flag_priority}
use kupl.Scheduler.Queue.{Queue, Memory, queue_create, queue_add_tb, queue_get_tb}
use kupl.Scheduler.Priority.{
  Heap, PriorityQueue, priority_queue_create, priority_queue_add_tb, priority_queue_get_tb,
}

-- The priority queue and the executors' queues; beyond the array there is a null pointer.
pub record QueueSet (H : Type 0) : Type 0 where
  pub priority_queues : Option (PriorityQueue H)
  pub queues : List (Option Queue)

-- What a loop that creates queues comes to.
pub data Created : Type 0 where
  made : List (Option Queue) → Created
  -- a null pointer, and the loop jumps to `err`
  failed : Created
  -- the creation of a vector has not ended
  stuck : Created

abbrev with_queue : Option (Option Queue) → Created → Created
with_queue none rest = stuck
with_queue (some none) rest = failed
with_queue (some (some q)) failed = failed
with_queue (some (some q)) stuck = stuck
with_queue (some (some q)) (made qs) = made (some q ∷ qs)

-- `for (i = 0; i < num_executors; ++i) queues[i] = queue_create(queue_size);`
unfoldable pub create_queues : Memory → ℕ → ℕ → Created
create_queues memory queue_size zero = made []
create_queues memory queue_size (suc n) =
    with_queue (queue_create memory queue_size) (create_queues memory queue_size n)

-- `queue_add_tb(queues[i], tb)`
unfoldable pub add_at : List (Option Queue) → ℕ → Tb → List (Option Queue) × Bool
add_at queues i tb = let (q, ok) = queue_add_tb (get_or queues i none) tb in (set queues i q, ok)

-- `queue_get_tb(queues[i])`
unfoldable pub get_at : List (Option Queue) → ℕ → List (Option Queue) × Option Tb
get_at queues i = let (q, tb) = queue_get_tb (get_or queues i none) in (set queues i q, tb)

module _ {H : Type 0} (heap : Heap H) where
  add_to_queue : QueueSet H → ℕ → Tb → QueueSet H × Bool
  unfolding add_at
  add_to_queue s i tb = let (qs, ok) = add_at s.queues i tb in (record s { queues = qs }, ok)

  get_from_queue : QueueSet H → ℕ → QueueSet H × Option Tb
  unfolding get_at
  get_from_queue s i = let (qs, tb) = get_at s.queues i in (record s { queues = qs }, tb)

  -- A block with the priority flag goes to the priority queue, if that is enabled, and any other to the
  -- queue of executor `eid`.
  unfoldable pub add_by_flag : Bool → QueueSet H → ℕ → Tb → QueueSet H × Bool
  unfolding add_to_queue
  add_by_flag enable_priority s eid tb =
      if enable_priority && has_bit kupl_tb_flag_priority tb.flag
      then (let (p, ok) = priority_queue_add_tb heap s.priority_queues tb in
          (record s { priority_queues = p }, ok))
      else add_to_queue s eid tb

  abbrev or_own : QueueSet H → ℕ → Option Tb → QueueSet H × Option Tb
  or_own s eid (some tb) = (s, some tb)
  or_own s eid none = get_from_queue s eid

  -- The priority queue first, if that is enabled, and then the queue of executor `eid`.
  unfoldable pub pop_by_priority : Bool → QueueSet H → ℕ → Option (QueueSet H × Option Tb)
  unfolding get_from_queue
  pop_by_priority enable_priority s eid =
      if enable_priority
      then elim (priority_queue_get_tb heap s.priority_queues) [
        | none ↦ none
        | some out ↦ some (or_own (record s { priority_queues = out.0 }) eid out.1)
      ]
      else some (get_from_queue s eid)
