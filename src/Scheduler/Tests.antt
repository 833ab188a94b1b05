-- ===== src/Scheduler/Tests.antt =====
-- Two executors with a block each, one block with a priority, and one in a shared queue.
use native.Mathlib.Nat.{dvd-mul_right}
use kupl.Prelude.{
  ℕ, zero, suc, ◌+◌, ◌^◌, ◌≤◌, ◌≡◌, refl, arith, ◌⊎◌, Bool, true, false, List, [], ◌∷◌, get_or,
  update, Option, none, some, inl,
}
use kupl.Prelude.Int.{ℤ, pos, negsuc}
use kupl.Vector.Refine.{IsVector}
use kupl.Scheduler.{Tb, Plugin, IsFaithful, no_tb, taken}
use kupl.Scheduler.Tally.{tally}
use kupl.Scheduler.Answers.{Adds, Gets, Answers, answer, faithful}
use kupl.Scheduler.Queue.{Queue, Memory}
use kupl.Scheduler.Priority.{PriorityQueue, priority_queue_get_tb}
use kupl.Scheduler.Priority.Laws.{
  IsPriority, IsPriority?, IsFirst?, held, priority_queue_get_tb-order,
}
use kupl.Scheduler.Priority.Sorted.{list_heap, list_heap-IsHeap}
use kupl.Scheduler.QueueSet.{QueueSet}
use kupl.Scheduler.QueueSet.Laws.{IsQueueSet, all_held}
use kupl.Scheduler.StaticMq.{static_mq}
use kupl.Scheduler.StaticMq.Faithful.{static_mq-IsFaithful, kupl_sched_static_mq_get_tb-Answers}
use kupl.Scheduler.ExpandStaticMq.{Expanding, kupl_sched_expand_static_mq_expand}
use kupl.Scheduler.ExpandStaticMq.Faithful.{Joined, kupl_sched_expand_static_mq_expand-held}
use kupl.Scheduler.Mq.{Mq, mq, kupl_sched_mq_get_tb}
use kupl.Scheduler.Mq.Generator.{kupl_get_random, kupl_init_random}
use kupl.Scheduler.Mq.Faithful.{IsMq, mq_held, mq-IsFaithful}
use kupl.Scheduler.Mq.Steals.{Draws, kupl_sched_mq_get_tb-returns}
use kupl.Scheduler.Hybrid.{Hybrid}
use kupl.Scheduler.Hybrid.Asked.{Answer}
use kupl.Scheduler.Hybrid.Calls.{
  HybridCall, add_tb, get_tb, notify_all, leave_now, run_hybrid, tally_inner,
}
use kupl.Scheduler.Hybrid.Levels.{run_hybrid-levels}
use kupl.Scheduler.Sspe.{SchedData, flag_leave}
use kupl.Scheduler.Front.{Sched, with_ready, kupl_sched_add_tb, kupl_sched_execute_tb}
use kupl.Scheduler.Front.Once.{Call, submit, execute, submitted, run_calls, run_calls-once}

abbrev block : ℕ → Tb
block k = record no_tb { ident = k }

abbrev urgent : Tb
urgent = record no_tb { ident = 9; priority = pos 7; flag = 2 }

-- A vector of four slots with one block.
abbrev queue_of : Tb → Queue
queue_of tb = record { head = 7; tail = 8; capacity = 4; elem_size = 8; buffer = λ i. tb }

queue_of-IsVector : (tb : Tb) → IsVector (queue_of tb)
queue_of-IsVector tb = record {
  divides = dvd-mul_right 4 (2 ^ 62);
  fits = omega arith;
  heads = omega arith;
  tails = omega arith;
  room = omega arith;
}

abbrev priority : PriorityQueue (List Tb)
priority = record { spsc = queue_of (block 5); q = urgent ∷ []; tb_cnt = 1; size = 4 }

priority-IsPriority : IsPriority list_heap priority
priority-IsPriority = record { vector = queue_of-IsVector (block 5); counted = refl }

abbrev parts : QueueSet (List Tb)
parts = record {
  priority_queues = some priority;
  queues = some (queue_of (block 1)) ∷ some (queue_of (block 2)) ∷ [];
}

parts-IsQueueSet : IsQueueSet list_heap parts
parts-IsQueueSet = record {
  priority = priority-IsPriority;
  each = (queue_of-IsVector (block 1), (queue_of-IsVector (block 2), tt));
}

priority_queue_get_tb-order_example :
    (p' : Option (PriorityQueue (List Tb))) × (tb : Option Tb) × (priority_queue_get_tb list_heap
        (some priority)
      ≡ some (p', tb))
    × IsPriority? list_heap p'
    × ((k : ℕ) → held list_heap k (some priority) ≡ taken k tb + held list_heap k p')
    × IsFirst? list_heap list_heap-IsHeap p' tb
priority_queue_get_tb-order_example =
    priority_queue_get_tb-order list_heap list_heap-IsHeap (some priority) priority-IsPriority

static_mq-IsFaithful_example :
    IsFaithful (static_mq list_heap true) (IsQueueSet list_heap) (all_held list_heap)
static_mq-IsFaithful_example = static_mq-IsFaithful list_heap list_heap-IsHeap true

kupl_sched_static_mq_get_tb-Answers_example :
    Answers (static_mq list_heap true) (IsQueueSet list_heap) (all_held list_heap) (pos 1) parts
kupl_sched_static_mq_get_tb-Answers_example =
    kupl_sched_static_mq_get_tb-Answers list_heap list_heap-IsHeap true (pos 1) parts
      parts-IsQueueSet

abbrev memory : Memory
memory = record { kupl_calloc = λ bytes. true; kupl_lock_create = true }

-- A second executor may join.
abbrev expanding : Expanding (List Tb)
expanding = record {
  max_num_executors = 2;
  num_executors = 1;
  queue_size = 4;
  parts = record {
    priority_queues = some priority;
    queues = some (queue_of (block 1)) ∷ none ∷ [];
  };
}

unused : (i : ℕ) → 1 ≤ i → get_or expanding.parts.queues i none ≡ none
unused zero h = absurd (omega (arith, h))
unused (suc zero) h = refl
unused (suc (suc i)) h = refl

kupl_sched_expand_static_mq_expand-held_example :
    (kupl_sched_expand_static_mq_expand list_heap memory expanding ≡ some none)
    ⊎ Joined list_heap memory expanding
kupl_sched_expand_static_mq_expand-held_example =
    kupl_sched_expand_static_mq_expand-held list_heap memory expanding
      (record { priority = priority-IsPriority; each = (queue_of-IsVector (block 1), (tt, tt)) })
      (record { sized = omega arith; joined = omega arith; places = refl; unused = unused })

mq-IsFaithful_example : IsFaithful (mq list_heap 3 true) (IsMq list_heap) (mq_held list_heap)
mq-IsFaithful_example = mq-IsFaithful list_heap list_heap-IsHeap 3 true

abbrev mq_state : Mq (List Tb)
mq_state = record {
  num_executors = 2;
  parts = parts;
  real_place_queues = some (queue_of (block 3)) ∷ [];
  place_queues = (0 ∷ []) ∷ [] ∷ [];
  last_steal = negsuc 0 ∷ negsuc 0 ∷ [];
  random = λ i. record { th_x = 0; th_a = 0; random_inited = false };
}

draws : Draws 1 0 2 (kupl_init_random 0 (mq_state.random 0))
unfolding kupl_init_random kupl_get_random
draws = inl (λ e. omega (arith, e))

kupl_sched_mq_get_tb-returns_example :
    (out : Mq (List Tb) × Option Tb) × (kupl_sched_mq_get_tb list_heap 1 false (pos 0) mq_state
      ≡ some out)
kupl_sched_mq_get_tb-returns_example =
    kupl_sched_mq_get_tb-returns list_heap list_heap-IsHeap false 1 (pos 0) mq_state
      (record { parts = parts-IsQueueSet; places = (queue_of-IsVector (block 3), tt) }) draws

-- A block of the outer level for executor 1, and one of the inner level for executor 0. The plugins are
-- those that are chosen by default.
abbrev wide : Tb
wide = record no_tb { ident = 77; executor_id = pos 1; flag = 32 }

abbrev hybrid_state : Hybrid SchedData (QueueSet (List Tb))
hybrid_state = record {
  outer = record { slot = none ∷ none ∷ []; flags = λ e. flag_leave };
  inner = parts;
  outer_using = false;
  inner_using = false;
}

abbrev hybrid_calls : List HybridCall
hybrid_calls =
    add_tb (pos 0) wide
    ∷ add_tb (pos 0) (record no_tb { ident = 3; executor_id = pos 0 })
    ∷ notify_all (0 ∷ 1 ∷ [])
    ∷ get_tb (pos 1)
    ∷ get_tb (pos 0)
    ∷ leave_now 1
    ∷ get_tb (pos 0)
    ∷ []

static_mq_ends :
    (e : ℤ) (t : QueueSet (List Tb))
    → IsQueueSet list_heap t
    → (t' : QueueSet (List Tb)) × (r : Option Tb) × ((static_mq list_heap true).get_tb e t
        ≡ some (t', r))
static_mq_ends e t w =
    let (t', r, out, gets) =
      kupl_sched_static_mq_get_tb-Answers list_heap list_heap-IsHeap true e t w in
    (t', r, out)

run_hybrid-levels_example :
    (s' : Hybrid SchedData (QueueSet (List Tb))) × (accepted : List Tb) × (given : List Tb)
    × (run_hybrid (static_mq list_heap true) hybrid_calls hybrid_state [] []
        ≡ some (s', accepted, given))
    × (all_held list_heap 3 s'.inner + tally 3 given
        ≡ all_held list_heap 3 parts + tally 3 accepted)
    × ((j : ℕ)
        → all_held list_heap j s'.inner ≤ all_held list_heap j parts + tally_inner j accepted)
    × ((e : ℤ)
        → Answer
            (static_mq list_heap true)
            e
            s'
            ((hybrid_state.inner_using ≡ false) × ((j : ℕ) → tally_inner j accepted ≡ 0)))
run_hybrid-levels_example =
    run_hybrid-levels (static_mq-IsFaithful list_heap list_heap-IsHeap true) static_mq_ends 3
      hybrid_calls hybrid_state parts-IsQueueSet (refl, (refl, tt))
      ((λ outer. refl), ((λ outer. cc), tt))

-- A plugin that keeps its blocks in a list, with room for one.
abbrev list_add : ℤ → List Tb → Tb → List Tb × Bool
list_add e [] tb = (tb ∷ [], true)
list_add e (x ∷ xs) tb = (x ∷ xs, false)

abbrev list_get : ℤ → List Tb → Option (List Tb × Option Tb)
list_get e [] = some ([], none)
list_get e (x ∷ xs) = some (xs, some x)

abbrev list_plugin : Plugin (List Tb)
list_plugin = record { add_tb = list_add; get_tb = list_get }

list_plugin-IsFaithful : IsFaithful list_plugin (λ s. Unit) tally
list_plugin-IsFaithful = faithful list_plugin (λ s. Unit) tally adds gets
  where
    adds : (e : ℤ) (s : List Tb) (tb : Tb) → Unit {0} → Adds list_plugin (λ s. Unit) tally e s tb
    adds e [] tb v = (tt, λ k. refl)
    adds e (x ∷ xs) tb v = (tt, λ k. omega arith)

    answers : (e : ℤ) (s : List Tb) → Answers list_plugin (λ s. Unit) tally e s
    answers e [] = ([], none, refl, (tt, λ k. refl))
    answers e (x ∷ xs) = (xs, some x, refl, (tt, λ k. refl))

    gets :
        (e : ℤ) (s s' : List Tb) (r : Option Tb)
        → Unit {0}
        → list_get e s ≡ some (s', r)
        → Gets list_plugin (λ s. Unit) tally s s' r
    gets e s s' r v = answer list_plugin (λ s. Unit) tally e s s' r (answers e s)

abbrev sched : Sched (List Tb)
sched = record { plugin_sched = []; sched_full = λ t. false; counts = λ c. 0 }

abbrev calls : List Call
calls = submit 0 (block 1) ∷ submit 0 (block 2) ∷ submit 1 (block 3) ∷ execute 0 ∷ []

abbrev ready : ℕ → Tb
ready k = record no_tb { ident = k; state = 4 }

abbrev sched_after : Sched (List Tb)
sched_after = record {
  plugin_sched = [];
  sched_full = update (update (update (λ t. false) 0 true) 1 true) 0 false;
  counts = λ c. 0;
}

calls_end :
    run_calls list_plugin pos calls sched ≡ some (sched_after, ready 2 ∷ ready 3 ∷ ready 1 ∷ [])
unfolding run_calls kupl_sched_add_tb kupl_sched_execute_tb with_ready
calls_end = refl

run_calls-once_example :
    tally 3 (ready 2 ∷ ready 3 ∷ ready 1 ∷ []) + tally 3 sched_after.plugin_sched
    ≡ tally 3 (submitted calls) + tally 3 sched.plugin_sched
run_calls-once_example =
    run_calls-once list_plugin-IsFaithful pos calls sched sched_after
      (ready 2 ∷ ready 3 ∷ ready 1 ∷ []) 3 tt calls_end
