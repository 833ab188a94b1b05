-- ===== src/Memory/Fast.antt =====
-- `kupl_fast_alloc` and `kupl_fast_free` of src/memory/mpool/kupl_mpool.cpp: lists of small buffers by size
-- class. A list that is chained through the buffers is the list of their addresses, and a compare-and-swap
-- loop on a list is one step.
pub mod Owners
pub mod Laws
pub mod Carve
use kupl.Prelude.{
  ℕ, zero, suc, ◌+◌, ◌-◌, ◌*◌, ◌/◌, ◌%◌, ◌^◌, ◌==◌, Bool, true, false, ◌&&◌, not, ltb,
  if◌then◌else◌, List, [], ◌∷◌, ◌++◌, update, Option, none, some,
}
use kupl.Prelude.Int.{ℤ, pos, negsuc, pos_part, ltb_ℤ}
use kupl.Memory.{
  kupl_cache_line, fast_bin_size, fast_bins_count, sizeof_buffer_desc, sizeof_fast_desc,
  fast_grow_size, kupl_fast_memory_other_queue_limit,
}
use kupl.Memory.Normal.{NormalHeap, with_desc, kupl_normal_alloc, kupl_normal_free}

-- `other_tail` is the last of `other`.
pub record FastCache : Type 0 where
  pub self : List ℕ
  pub sync : List ℕ
  pub other : List ℕ
  pub other_count : ℕ

pub record FastDesc : Type 0 where
  pub eid : ℕ
  pub fast_bin_index : ℤ
  pub alloc_ptr : ℕ

-- The lists of each executor and class, and the descriptors in front of the buffers.
pub record FastPool : Type 0 where
  pub heap : NormalHeap
  pub fast_descs : ℕ → FastDesc
  pub fast_bins : ℕ → ℕ → FastCache

abbrev pub bins_of : FastPool → ℕ → FastCache
bins_of p index = p.fast_bins p.heap.mem.eid index

abbrev pub with_bin : FastPool → ℕ → ℕ → FastCache → FastPool
with_bin p eid index cache = record p {
  fast_bins = update p.fast_bins eid (update (p.fast_bins eid) index cache);
}

-- One round of the loop of `kupl_get_memory_from_normal_memory`, and the loop from `i` on, with `n` rounds
-- left. The first buffer is not put into the list.
pub carve : ℕ → ℕ → FastDesc → ℕ → ℕ → (ℕ → FastDesc) × List ℕ → (ℕ → FastDesc) × List ℕ
carve zero i desc ptr step out = out
carve (suc n) i desc ptr step (descs, self) =
    let buf = ptr + step * i in
    carve n (suc i) desc ptr step (update descs buf desc, if i == 0 then self else buf ∷ self)

abbrev pub align_up : ℕ → ℕ
align_up ptr = (ptr + kupl_cache_line - 1) / kupl_cache_line * kupl_cache_line

-- The distance of two buffers: `delta` rounds `sizeof(kupl_fast_desc_t)` up to a cache line.
abbrev pub step_of : ℕ → ℕ
step_of actual = actual + align_up sizeof_fast_desc

abbrev pub count_of : ℕ → ℕ
count_of actual = fast_grow_size / step_of actual % 2 ^ 16

pub carve_all : FastPool → ℕ → ℕ → ℕ → FastPool × Option ℕ
carve_all p actual index alloc_ptr =
    let eid = p.heap.mem.eid in
    let count = count_of actual in
    let at = alloc_ptr - sizeof_buffer_desc in
    let heap = with_desc p.heap at (record (p.heap.descs at) { ref = count }) in
    let ptr = align_up alloc_ptr in
    let desc : FastDesc = record { eid = eid; fast_bin_index = pos index; alloc_ptr = alloc_ptr } in
    let (descs, self) =
      carve count 0 desc ptr (step_of actual) (p.fast_descs, (bins_of p index).self) in
    (
      record (with_bin p eid index (record (bins_of p index) { self = self })) {
        heap = heap;
        fast_descs = descs;
      },
      some ptr,
    )

-- The pool and the pointer, and the static alignment of `kupl_normal_alloc`.
abbrev pub Allocated : Type 0
Allocated = Option (FastPool × Option ℕ) × ℕ

abbrev from_normal :
    FastPool → Option (NormalHeap × Option ℕ) × ℕ → (FastPool → ℕ → FastPool × Option ℕ) → Allocated
from_normal p (none, align) use_ptr = (none, align)
from_normal p (some (heap, none), align) use_ptr = (some (record p { heap = heap }, none), align)
from_normal p (some (heap, some ptr), align) use_ptr =
    (some (use_ptr (record p { heap = heap }) ptr), align)

pub kupl_get_memory_from_normal_memory :
    FastPool → ℕ → ℕ → ℕ → Bool → Option ℕ → Option ℕ → Allocated
unfolding carve_all
kupl_get_memory_from_normal_memory p actual index align win direct map =
    from_normal p (kupl_normal_alloc p.heap align fast_grow_size win direct map)
      (λ q alloc_ptr. carve_all q actual index alloc_ptr)

-- The descriptor of a large buffer.
abbrev pub large_desc : FastPool → ℕ → FastPool × Option ℕ
large_desc q ptr = (
  record q {
    fast_descs =
        update q.fast_descs ptr
          (record { eid = q.heap.mem.eid; fast_bin_index = negsuc 0; alloc_ptr = ptr });
  },
  some ptr,
)

abbrev pub class_of : ℕ → ℕ
class_of size = (size + kupl_cache_line - 1) / kupl_cache_line

-- The lists are tried: `self`, then `sync`, which is taken whole.
pub take_fast : FastCache → Option (FastCache × ℕ)
take_fast c = elim (c.self) [
  | ptr ∷ rest ↦ some (record c { self = rest }, ptr)
  | [] ↦ elim (c.sync) [ ptr ∷ rest ↦ some (record c { self = rest; sync = [] }, ptr) | [] ↦ none ]
]

unfoldable pub kupl_fast_alloc : FastPool → ℕ → ℕ → Bool → Option ℕ → Option ℕ → Allocated
unfolding take_fast kupl_get_memory_from_normal_memory
kupl_fast_alloc p align size win direct map =
    let index = class_of size in
    if ltb (fast_bin_size (fast_bins_count - 1)) size
    then from_normal p (kupl_normal_alloc p.heap align size win direct map) large_desc
    else elim (take_fast (bins_of p index)) [
      | some (c, ptr) ↦ (some (with_bin p p.heap.mem.eid index c, some ptr), align)
      | none ↦ kupl_get_memory_from_normal_memory p (fast_bin_size index) index align win direct map
    ]

-- A buffer of another executor, with the first of the list of such buffers.
pub free_other : FastPool → ℕ → ℕ → ℕ → List ℕ → FastPool
free_other p ptr eid index [] =
    with_bin p p.heap.mem.eid index (record (bins_of p index) { other = ptr ∷ [] })
free_other p ptr eid index (head ∷ rest) =
    let c = bins_of p index in
    let owner = (p.fast_descs head).eid in
    if eid == owner && ltb c.other_count kupl_fast_memory_other_queue_limit
    then with_bin p p.heap.mem.eid index
        (record c { other = ptr ∷ head ∷ rest; other_count = c.other_count + 1 })
    else (let q =
          with_bin p p.heap.mem.eid index (record c { other = ptr ∷ []; other_count = 1 }) in
        let to = q.fast_bins owner index in
        with_bin q owner index (record to { sync = (head ∷ rest) ++ to.sync }))

unfoldable pub kupl_fast_free : FastPool → ℕ → FastPool
unfolding free_other
kupl_fast_free p ptr =
    let desc = p.fast_descs ptr in
    let index = pos_part desc.fast_bin_index in
    let c = bins_of p index in
    if ltb_ℤ desc.fast_bin_index (pos 0)
    then record p { heap = kupl_normal_free p.heap desc.alloc_ptr }
    else if desc.eid == p.heap.mem.eid
    then with_bin p p.heap.mem.eid index (record c { self = ptr ∷ c.self })
    else free_other p ptr desc.eid index c.other
