-- ===== src/Scheduler/Priority.antt =====
-- `priority_queue_t` of src/mt/scheduler/plugin/kupl_sched_plugin_api.h: a vector that takes new
-- blocks, and a `std::priority_queue` that orders them. Each function is one step.
pub mod Laws
pub mod Sorted
use kupl.Prelude.{
  ℕ, zero, suc, ◌+◌, ◌≡◌, ◌≢◌, Bool, true, false, not, ◌&&◌, ◌||◌, leb, ◌==◌, if◌then◌else◌, Option,
  none, some, List, [], ◌∷◌, length,
}
use kupl.Prelude.Int.{ℤ, ◌≤ℤ◌}
use kupl.Vector.{Vector, sub_size, kupl_vector_create}
use kupl.Vector.Macros.{
  kupl_vector_push_back_macro, kupl_vector_front_macro, kupl_vector_empty_macro,
  kupl_vector_pop_front_macro,
}
use kupl.Scheduler.{Tb, no_tb, one}
use kupl.Scheduler.Tally.{tally}
use kupl.Scheduler.Queue.{Memory, sizeof_pointer}

-- `kupl_mq_priority_queue_t`, a `std::priority_queue` of blocks ordered by their priority. `items` is
-- what it holds.
pub record Heap (H : Type 0) : Type 0 where
  pub fresh : H
  pub push : H → Tb → H
  pub top : H → Tb
  pub pop : H → H
  pub size : H → ℕ
  pub items : H → List Tb

abbrev pub AllBelow : Tb → List Tb → Type 0
AllBelow tb [] = Unit
AllBelow tb (u ∷ us) = (u.priority ≤ℤ tb.priority) × AllBelow tb us

-- What the C++ standard says of it.
pub record IsHeap {H : Type 0} (heap : Heap H) : Type 0 where
  pub fresh_items : heap.items heap.fresh ≡ []
  pub size_items : (h : H) → heap.size h ≡ length (heap.items h)
  pub push_size : (h : H) (tb : Tb) → heap.size (heap.push h tb) ≡ suc (heap.size h)
  pub push_items :
      (h : H) (tb : Tb) (k : ℕ)
      → tally k (heap.items (heap.push h tb)) ≡ one k tb + tally k (heap.items h)
  pub top_items :
      (h : H) (k : ℕ)
      → heap.size h ≢ 0
      → tally k (heap.items h) ≡ one k (heap.top h) + tally k (heap.items (heap.pop h))
  pub pop_size : (h : H) → heap.size h ≢ 0 → suc (heap.size (heap.pop h)) ≡ heap.size h
  pub top_greatest : (h : H) → heap.size h ≢ 0 → AllBelow (heap.top h) (heap.items (heap.pop h))

pub record PriorityQueue (H : Type 0) : Type 0 where
  pub q : H
  pub spsc : Vector Tb
  pub tb_cnt : ℕ
  pub size : ℕ

-- `sizeof(priority_queue_t)`
abbrev pub sizeof_priority_queue : ℕ
sizeof_priority_queue = 40

module _ {H : Type 0} (heap : Heap H) where
  abbrev new_priority_queue : ℕ → Vector Tb → PriorityQueue H
  new_priority_queue size spsc = record { q = heap.fresh; spsc = spsc; tb_cnt = 0; size = size }

  abbrev with_vector : Bool → ℕ → Option (Vector Tb) → Option (PriorityQueue H)
  with_vector locks size none = none
  with_vector locks size (some spsc) = if locks then some (new_priority_queue size spsc) else none

  -- `none`: the creation of the vector has not ended; `some none`: a null pointer.
  unfoldable pub priority_queue_create : Memory → ℕ → Option (Option (PriorityQueue H))
  priority_queue_create memory size =
      if not (memory.kupl_calloc sizeof_priority_queue)
      then some none
      else elim (kupl_vector_create memory.kupl_calloc no_tb size sizeof_pointer) [
        | none ↦ none
        | some spsc ↦ some (with_vector memory.kupl_lock_create size spsc)
      ]

  unfoldable pub priority_queue_add_tb :
      Option (PriorityQueue H) → Tb → Option (PriorityQueue H) × Bool
  priority_queue_add_tb none tb = (none, false)
  priority_queue_add_tb (some p) tb =
      let (spsc, err) = kupl_vector_push_back_macro p.spsc tb in
      (some (record p { spsc = spsc }), err)

  -- The body of the `while`.
  abbrev move_one : PriorityQueue H → PriorityQueue H
  move_one p = record p {
    q = heap.push p.q (kupl_vector_front_macro p.spsc);
    spsc = kupl_vector_pop_front_macro p.spsc;
  }

  -- The `while`, on fuel; `none`: the fuel ran out.
  move_all : ℕ → PriorityQueue H → Option (PriorityQueue H)
  move_all zero p = none
  move_all (suc fuel) p =
      let rest = move_all fuel (move_one p) in
      if kupl_vector_empty_macro p.spsc || leb p.size (heap.size p.q) then some p else rest

  -- What follows the `while`.
  take_top : PriorityQueue H → Option (PriorityQueue H) × Option Tb
  take_top p =
      if heap.size p.q == 0
      then (some (record p { tb_cnt = 0 }), none)
      else (let h = heap.pop p.q in
          (some (record p { q = h; tb_cnt = heap.size h }), some (heap.top p.q)))

  -- Fuel for every block in the vector. `none`: the loop has not ended.
  unfoldable pub priority_queue_get_tb :
      Option (PriorityQueue H) → Option (Option (PriorityQueue H) × Option Tb)
  unfolding move_all take_top
  priority_queue_get_tb none = some (none, none)
  priority_queue_get_tb (some p) =
      if leb p.tb_cnt 0 && kupl_vector_empty_macro p.spsc
      then some (some p, none)
      else elim (move_all (suc (sub_size p.spsc.tail p.spsc.head)) p) [
        | none ↦ none
        | some p' ↦ some (take_top p')
      ]
