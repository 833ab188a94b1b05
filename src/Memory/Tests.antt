-- ===== src/Memory/Tests.antt =====
-- The theorems on the memory pool at concrete inputs, and tests.
use kupl.Prelude.{
  ℕ, ◌+◌, ◌-◌, ◌^◌, ◌≤◌, ◌<◌, ◌≡◌, ◌≢◌, refl, sym, ap, ◌==◌, if◌then◌else◌, subst, ◌∙◌, arith, inl,
  true, false, List, [], ◌∷◌, get_or, Option, none, some, total_zero,
}
use kupl.Prelude.Int.{pos, negsuc, ◌-ℤ◌}
use kupl.Memory.{
  sizeof_buffer_desc, fast_bin_size, fast_grow_size, huge_page_size, g_memory_bin_size,
  mem_bins_total, whole_chunk, kupl_get_bin_index,
}
use kupl.Memory.Bins.{memory_bins-IsAscending, kupl_get_bin_index-last}
use kupl.Memory.Normal.{
  BufferDesc, NormalMemory, NormalHeap, add_chunk, split_buffer, kupl_normal_insert_into_freelist,
  unlink, remove, to_size, kupl_normal_alloc, kupl_normal_free, kupl_normal_sync_list_dequeue,
  direct_alloc, actual_size, next_align, free_all, search_loop, search_bins, travel,
  kupl_normal_travel_list,
}
use kupl.Memory.Normal.Invariant.{Map, IsBuffer}
use kupl.Memory.Normal.Invariant.Chunk.{HasRoom, a-IsBuffer}
use kupl.Memory.Normal.Sound.{IsSound, Keeps}
use kupl.Memory.Normal.Take.{Given, split-Given}
use kupl.Memory.Normal.Alloc.{
  Outcome, new_map, checked, add_chunk-IsSound, kupl_normal_alloc-Outcome,
  kupl_normal_alloc-stays_huge,
}
use kupl.Memory.Normal.Free.{kupl_normal_free-IsSound}
use kupl.Memory.Normal.Foreign.{kupl_normal_free-lost}
use kupl.Memory.Normal.Direct.{kupl_normal_free-direct}
use kupl.Memory.Fast.{
  FastCache, FastPool, kupl_get_memory_from_normal_memory, kupl_fast_alloc, kupl_fast_free,
}
use kupl.Memory.Fast.Laws.{kupl_fast_alloc-free}
use kupl.Memory.Fast.Carve.{Carved, kupl_get_memory_from_normal_memory-Carved}
use kupl.Memory.Fast.Owners.{AreOwned, kupl_fast_free-AreOwned}

-- Executor 1 before its first allocation.
abbrev no_desc : BufferDesc
no_desc = record { eid = 0; ref = 0; mem_bin_index = pos 0; total_size = pos 0; prev_free = 0 }

abbrev memory_of : ℕ → NormalMemory
memory_of eid = record { eid = eid; alloc_chunks = 0; mem_bins = λ i. []; mem_bins_count = λ i. 0 }

abbrev empty_heap : NormalHeap
empty_heap = record { descs = λ a. no_desc; mem = memory_of 1; sync = λ eid. []; unmapped = [] }

abbrev nothing : Map
nothing = record { starts = λ a. false; ends = λ a. false; base = λ a. 0 }

empty_heap-IsSound : IsSound nothing empty_heap
empty_heap-IsSound = record {
  layout = record {
    end_starts = λ c e. cc;
    end_used = λ c e. cc;
    end_iff = λ c s e. cc;
    some_width = λ a p. cc;
    next_starts = λ a p. cc;
    next_base = λ a p. cc;
    apart = λ a c p lt lt'. refl;
    above = λ c s. cc;
    within = λ c s. cc;
  };
  marks = λ c s. inl refl;
  lists = λ a. total_zero mem_bins_total;
}

kupl_get_bin_index-last_example :
    (kupl_get_bin_index 3000 g_memory_bin_size mem_bins_total < mem_bins_total)
    × (get_or g_memory_bin_size (kupl_get_bin_index 3000 g_memory_bin_size mem_bins_total) 0 ≤ 3000)
    × ((j : ℕ)
        → kupl_get_bin_index 3000 g_memory_bin_size mem_bins_total < j
        → j < mem_bins_total
        → 3000 < get_or g_memory_bin_size j 0)
kupl_get_bin_index-last_example =
    kupl_get_bin_index-last 3000 mem_bins_total g_memory_bin_size (omega arith)
      memory_bins-IsAscending (omega arith)

class_of_3000 : kupl_get_bin_index 3000 g_memory_bin_size mem_bins_total ≡ 3
unfolding kupl_get_bin_index
class_of_3000 = refl

abbrev chunk_at : ℕ
chunk_at = 8388608

kupl_normal_alloc-Outcome_example :
    (h' : NormalHeap) × (r : Option ℕ) × ((kupl_normal_alloc empty_heap 8 1000 false none
        (some chunk_at)).0
      ≡ some (h', r))
    × Outcome nothing
        (checked nothing empty_heap empty_heap-IsSound refl)
        (1000 + sizeof_buffer_desc)
        (some chunk_at)
        h'
        r
unfolding actual_size next_align
kupl_normal_alloc-Outcome_example =
    kupl_normal_alloc-Outcome nothing empty_heap empty_heap-IsSound refl 8 1000 false none
      (some chunk_at) (omega arith) (omega arith) (omega arith) (λ a e c s. cc)

kupl_normal_alloc-stays_huge_example :
    (h' : NormalHeap) × (r : Option ℕ) × ((kupl_normal_alloc empty_heap
        (kupl_normal_alloc empty_heap 8 64 true none none).1
        1000
        false
        none
        (some chunk_at)).0
      ≡ some (h', r))
    × Outcome nothing
        (checked nothing empty_heap empty_heap-IsSound refl)
        huge_page_size
        (some chunk_at)
        h'
        r
unfolding actual_size next_align kupl_normal_alloc
kupl_normal_alloc-stays_huge_example =
    kupl_normal_alloc-stays_huge nothing empty_heap empty_heap-IsSound refl empty_heap 8 64 1000
      none none none (some chunk_at) (omega arith) (omega arith) (λ a e c s. cc)

-- A chunk from which 1024 bytes were given: the buffer starts at `given_at`.
abbrev one_chunk : NormalHeap
one_chunk = add_chunk empty_heap chunk_at

abbrev one_buffer : NormalHeap
one_buffer = (split_buffer one_chunk chunk_at 1024 13).0

abbrev given_at : ℕ
given_at = chunk_at + whole_chunk - 1024

room : HasRoom nothing chunk_at
room c s = cc

abbrev one_map : Map
one_map = new_map nothing empty_heap empty_heap-IsSound chunk_at room

chunk_desc : (one_chunk.descs chunk_at).total_size ≡ pos whole_chunk
unfolding add_chunk kupl_normal_insert_into_freelist
chunk_desc = refl

given_buffer :
    (m : Map) × Given one_map one_chunk m one_buffer 1024
      (split_buffer one_chunk chunk_at 1024 13).1
given_buffer =
    split-Given one_map one_chunk
      (add_chunk-IsSound nothing empty_heap empty_heap-IsSound chunk_at room) chunk_at whole_chunk
      13 (a-IsBuffer nothing (λ a. pos 0) empty_heap-IsSound.layout chunk_at room) chunk_desc 1024
      (omega arith) (omega arith)

given_address : (split_buffer one_chunk chunk_at 1024 13).1 ≡ given_at + sizeof_buffer_desc
unfolding split_buffer add_chunk kupl_normal_insert_into_freelist
given_address = refl

one_buffer-descs : one_buffer.descs given_at ≡ record {
  eid = 1;
  ref = 1;
  mem_bin_index = pos 13;
  total_size = negsuc 1023;
  prev_free = whole_chunk - 1024;
}
unfolding split_buffer add_chunk kupl_normal_insert_into_freelist kupl_get_bin_index to_size unlink
    remove ◌-ℤ◌
one_buffer-descs = refl

given_place : IsBuffer given_buffer.0 given_at
given_place =
    let at : given_buffer.1.at ≡ given_at =
      omega (arith, given_buffer.1.starts_at, given_address) in
    subst (IsBuffer given_buffer.0) at given_buffer.1.buffer

one_buffer-eid : one_buffer.mem.eid ≡ 1
unfolding split_buffer add_chunk kupl_normal_insert_into_freelist unlink
one_buffer-eid = refl

one_buffer-sync : one_buffer.sync 1 ≡ []
unfolding split_buffer add_chunk kupl_normal_insert_into_freelist
one_buffer-sync = refl

given_owner : (one_buffer.descs given_at).eid ≡ one_buffer.mem.eid
given_owner = ap (λ (d : BufferDesc). d.eid) one_buffer-descs ∙ sym one_buffer-eid

kupl_normal_free-IsSound_example :
    (m : Map) × IsSound m (kupl_normal_free one_buffer (given_at + sizeof_buffer_desc))
    × Keeps given_buffer.0 one_buffer m
        (kupl_normal_free one_buffer (given_at + sizeof_buffer_desc))
        given_at
kupl_normal_free-IsSound_example =
    kupl_normal_free-IsSound given_buffer.0 one_buffer given_at 1023 13 given_buffer.1.sound
      given_place (ap (λ (d : BufferDesc). d.total_size) one_buffer-descs)
      (ap (λ (d : BufferDesc). d.ref) one_buffer-descs)
      (ap (λ (d : BufferDesc). d.mem_bin_index) one_buffer-descs) given_owner

-- The same buffer, freed by executor 2.
abbrev other_view : NormalHeap
other_view = record one_buffer { mem = memory_of 2 }

kupl_normal_free-lost_example :
    let out =
      kupl_normal_sync_list_dequeue
        (record (kupl_normal_free other_view (given_at + sizeof_buffer_desc)) {
          mem = one_buffer.mem;
        }) in
    (out.mem ≡ one_buffer.mem)
    × ((out.descs given_at).total_size ≡ (one_buffer.descs given_at).total_size)
    × ((out.descs given_at).ref ≡ 2 ^ 16 - 1)
    × (out.sync 1 ≡ [])
kupl_normal_free-lost_example =
    kupl_normal_free-lost other_view given_at 13 1 (ap (λ (d : BufferDesc). d.ref) one_buffer-descs)
      (ap (λ (d : BufferDesc). d.mem_bin_index) one_buffer-descs)
      (ap (λ (d : BufferDesc). d.eid) one_buffer-descs) (λ e. absurd (omega arith)) one_buffer.mem
      one_buffer-eid one_buffer-sync

kupl_normal_free-direct_example :
    let calls =
      (kupl_normal_free
        (direct_alloc empty_heap 3000000000 (some chunk_at)).0
        (chunk_at + sizeof_buffer_desc)).unmapped in
    (3000000000 < 2 ^ 31 → calls ≡ (chunk_at, 3000000000) ∷ [])
    × (2 ^ 31 ≤ 3000000000 → (n : ℕ) × (calls ≡ (chunk_at, n) ∷ []) × (n ≢ 3000000000))
kupl_normal_free-direct_example =
    kupl_normal_free-direct empty_heap chunk_at 3000000000 (omega arith)

-- A buffer of two cache lines of executor 1, and one of executor 2.
abbrev empty_cache : FastCache
empty_cache = record { self = []; sync = []; other = []; other_count = 0 }

abbrev small_pool : FastPool
small_pool = record {
  heap = empty_heap;
  fast_descs =
      λ a. record { eid = if a == 4096 then 1 else 2; fast_bin_index = pos 2; alloc_ptr = 4000 };
  fast_bins = λ e i. empty_cache;
}

kupl_fast_alloc-free_example :
    (q : FastPool) × (kupl_fast_alloc (kupl_fast_free small_pool 4096) 8 100 false none none
      ≡ (some (q, some 4096), 8))
    × (q.heap ≡ empty_heap)
    × (q.fast_descs ≡ small_pool.fast_descs)
    × ((e i : ℕ) → q.fast_bins e i ≡ empty_cache)
kupl_fast_alloc-free_example =
    kupl_fast_alloc-free small_pool 4096 100 (omega arith) refl refl 8 false none none

kupl_fast_free-AreOwned_example : AreOwned (kupl_fast_free small_pool 5000)
kupl_fast_free-AreOwned_example = kupl_fast_free-AreOwned small_pool 5000 (λ e i. (tt, tt, tt))

-- The first block for small buffers, cut from a new chunk.
abbrev block_heap : NormalHeap
block_heap =
    (split_buffer (add_chunk (checked nothing empty_heap empty_heap-IsSound refl) chunk_at) chunk_at
      65584 13).0

abbrev block_at : ℕ
block_at = chunk_at + whole_chunk - 65584 + sizeof_buffer_desc

block_given :
    kupl_normal_alloc empty_heap 8 fast_grow_size false none (some chunk_at)
    ≡ (some (block_heap, some block_at), 8)
unfolding kupl_normal_alloc kupl_normal_sync_list_dequeue free_all actual_size next_align
    search_loop search_bins kupl_normal_travel_list travel split_buffer add_chunk
    kupl_normal_insert_into_freelist kupl_get_bin_index to_size unlink remove ◌-ℤ◌
block_given = refl

kupl_get_memory_from_normal_memory-Carved_example :
    (q : FastPool) × (ptr : ℕ) × (cut : List ℕ) × (kupl_get_memory_from_normal_memory small_pool
        (fast_bin_size 2)
        2
        8
        false
        none
        (some chunk_at)
      ≡ (some (q, some ptr), 8))
    × Carved small_pool block_heap 2 block_at q ptr cut
kupl_get_memory_from_normal_memory-Carved_example =
    kupl_get_memory_from_normal_memory-Carved small_pool block_heap 2 block_at (omega arith) 8 8
      false none (some chunk_at) block_given
