-- ===== src/Memory/Normal.antt =====
-- `kupl_normal_alloc` and `kupl_normal_free`, with the functions that they call. The memory of one executor
-- is seen with the descriptors at their addresses and the list that other executors return buffers to.
-- A circular list of descriptors is the list of their addresses.
pub mod Invariant
pub mod Sound
pub mod Take
pub mod Search
pub mod Alloc
pub mod Merge
pub mod Coalesce
pub mod Free
pub mod Foreign
pub mod Direct
use kupl.Prelude.{
  ℕ, zero, suc, ◌+◌, ◌-◌, ◌*◌, ◌/◌, ◌%◌, ◌^◌, bit_and, ◌==◌, Bool, true, false, ◌&&◌, not, ltb, leb,
  if◌then◌else◌, List, [], ◌∷◌, update, Option, none, some,
}
use kupl.Prelude.Int.{ℤ, pos, negsuc, pos_part, neg_ℤ, ◌+ℤ◌, ◌-ℤ◌, ltb_ℤ, leb_ℤ, eqb_ℤ}
use kupl.Memory.{
  sizeof_buffer_desc, huge_page_size, kupl_mem_bins_threshold, g_memory_bin_size, mem_bins_total,
  mem_chunk_grow_size, mem_max_size, whole_chunk, kupl_get_bin_index,
}

pub record BufferDesc : Type 0 where
  pub eid : ℕ
  pub ref : ℕ
  pub mem_bin_index : ℤ
  pub total_size : ℤ
  pub prev_free : ℕ

pub record NormalMemory : Type 0 where
  pub eid : ℕ
  pub alloc_chunks : ℕ
  pub mem_bins : ℕ → List ℕ
  pub mem_bins_count : ℕ → ℕ

-- `sync eid` is the `mem_sync_list` of that executor; `unmapped` are the calls of `munmap`, latest first.
pub record NormalHeap : Type 0 where
  pub descs : ℕ → BufferDesc
  pub mem : NormalMemory
  pub sync : ℕ → List ℕ
  pub unmapped : List (ℕ × ℕ)

-- `(int)` of a `size_t`, and `(size_t)` of an `int`.
unfoldable pub to_int : ℕ → ℤ
to_int n = let low = n % 2 ^ 32 in if ltb low (2 ^ 31) then pos low else negsuc (2 ^ 32 - 1 - low)

unfoldable pub to_size : ℤ → ℕ
to_size (pos n) = n
to_size (negsuc n) = 2 ^ 64 - 1 - n

-- `kupl_list_del`: a descriptor is taken out of the list that it is in.
unfoldable pub remove : ℕ → List ℕ → List ℕ
remove a [] = []
remove a (b ∷ bs) = if a == b then bs else b ∷ remove a bs

abbrev pub with_desc : NormalHeap → ℕ → BufferDesc → NormalHeap
with_desc h a desc = record h { descs = update h.descs a desc }

-- `kupl_list_del` and `mem_bins_count[index] -= 1`.
unfoldable pub unlink : NormalMemory → ℕ → ℕ → NormalMemory
unfolding remove
unlink mem a index = record mem {
  mem_bins = λ i. remove a (mem.mem_bins i);
  mem_bins_count =
      update mem.mem_bins_count index ((mem.mem_bins_count index + 2 ^ 32 - 1) % 2 ^ 32);
}

unfoldable pub kupl_normal_insert_into_freelist : NormalHeap → ℕ → NormalHeap
kupl_normal_insert_into_freelist h a =
    let desc = h.descs a in
    let index = kupl_get_bin_index (to_size desc.total_size) g_memory_bin_size mem_bins_total in
    record h {
      descs = update h.descs a (record desc { mem_bin_index = pos index });
      mem = record h.mem {
        mem_bins = update h.mem.mem_bins index (a ∷ h.mem.mem_bins index);
        mem_bins_count =
            update h.mem.mem_bins_count index ((h.mem.mem_bins_count index + 1) % 2 ^ 32);
      };
    }

abbrev pub min_buffer_size : ℕ
min_buffer_size = sizeof_buffer_desc + 16

-- The two branches of `kupl_normal_travel_list` on the buffer that it found: the end of the buffer is
-- split off, or the whole is given.
unfoldable pub split_buffer : NormalHeap → ℕ → ℕ → ℕ → NormalHeap × ℕ
split_buffer h a actual index =
    let desc = h.descs a in
    let rest = desc.total_size -ℤ pos actual in
    let user = a + pos_part desc.total_size - actual in
    let next = user + actual in
    let shrunk = update h.descs a (record desc { total_size = rest }) in
    let used = update shrunk user (record (shrunk user) {
      eid = desc.eid;
      ref = 1;
      mem_bin_index = desc.mem_bin_index;
      total_size = neg_ℤ (pos actual);
      prev_free = pos_part rest;
    }) in
    let told = update used next (record (used next) { prev_free = 0 }) in
    let linked =
      kupl_normal_insert_into_freelist (record h { descs = told; mem = unlink h.mem a index }) a in
    (linked, user + sizeof_buffer_desc)

pub take_buffer : NormalHeap → ℕ → ℕ → NormalHeap × ℕ
take_buffer h a index =
    let size = (h.descs a).total_size in
    let next = a + pos_part size in
    let told = update h.descs next (record (h.descs next) { prev_free = 0 }) in
    (
      record h {
        descs = update told a (record (told a) { total_size = neg_ℤ size; prev_free = 0; ref = 1 });
        mem = unlink h.mem a index;
      },
      a + sizeof_buffer_desc,
    )

unfoldable pub travel : NormalHeap → ℕ → ℕ → List ℕ → Option (NormalHeap × ℕ)
travel h actual index [] = none
travel h actual index (a ∷ rest) =
    let size = (h.descs a).total_size in
    if leb_ℤ (pos actual) size
    then some (
        if leb_ℤ (pos min_buffer_size) (size -ℤ pos actual)
        then split_buffer h a actual index
        else take_buffer h a index)
    else travel h actual index rest

unfoldable pub kupl_normal_travel_list : NormalHeap → ℕ → ℕ → Option (NormalHeap × ℕ)
kupl_normal_travel_list h actual index = travel h actual index (h.mem.mem_bins index)

-- The `for` over the classes, from `index` on with `n` rounds left.
unfoldable pub search_bins : ℕ → NormalHeap → ℕ → ℕ → Option (NormalHeap × ℕ)
search_bins zero h actual index = none
search_bins (suc n) h actual index = elim (kupl_normal_travel_list h actual index) [
  | none ↦ search_bins n h actual (suc index)
  | some found ↦ some found
]

abbrev pub search_all : NormalHeap → ℕ → Option (NormalHeap × ℕ)
search_all h actual =
    let first = kupl_get_bin_index actual g_memory_bin_size mem_bins_total in
    search_bins (mem_bins_total - first) h actual first

-- A chunk that `kupl_memory_mmap` gave at `a`, with the descriptor that ends it.
unfoldable pub add_chunk : NormalHeap → ℕ → NormalHeap
add_chunk h a =
    let desc = record (h.descs a) {
      eid = h.mem.eid;
      ref = 1;
      total_size = pos whole_chunk;
      prev_free = 0;
    } in
    let started = update h.descs a desc in
    let next = a + whole_chunk in
    let ended =
      update started next (record (started next) {
        prev_free = whole_chunk;
        eid = h.mem.eid;
        total_size = negsuc 0;
      }) in
    kupl_normal_insert_into_freelist
      (record h {
        descs = ended;
        mem = record h.mem { alloc_chunks = (h.mem.alloc_chunks + 1) % 2 ^ 32 };
      })
      a

-- `mem->mem_bins_count[index] < KUPL_MEM_BINS_THRESHOLD` fails: the buffer is joined with its
-- neighbours.
pub merge_prev : NormalHeap → ℕ → ℕ → NormalHeap × ℕ
merge_prev h a index =
    let desc = h.descs a in
    let prev = a - desc.prev_free in
    if desc.prev_free == 0 then (h, a) else (
      record h {
        descs =
            update h.descs prev
              (record (h.descs prev) { total_size = (h.descs prev).total_size +ℤ desc.total_size });
        mem = unlink h.mem prev index;
      },
      prev,
    )

pub merge_next : NormalHeap → ℕ → ℕ → NormalHeap
merge_next h a index =
    let size = (h.descs a).total_size in
    let next = a + pos_part size in
    let next_size = (h.descs next).total_size in
    let joined = size +ℤ next_size in
    let after = a + pos_part joined in
    if ltb_ℤ (pos 0) next_size
    then (let grown = update h.descs a (record (h.descs a) { total_size = joined }) in
        record h {
          descs = update grown after (record (grown after) { prev_free = pos_part joined });
          mem = unlink h.mem next index;
        })
    else with_desc h next (record (h.descs next) { prev_free = pos_part size })

-- `MEM_IS_WHOLE_CHUNK(desc) && mem->alloc_chunks >= 2`
pub give_back : NormalHeap → ℕ → NormalHeap
give_back h a =
    let size = (h.descs a).total_size in
    if eqb_ℤ size (pos whole_chunk) && leb 2 h.mem.alloc_chunks
    then record h { unmapped = (a, to_size size) ∷ h.unmapped }
    else kupl_normal_insert_into_freelist h a

pub coalesce : NormalHeap → ℕ → ℕ → NormalHeap
unfolding merge_prev merge_next give_back
coalesce h a index = let (h1, b) = merge_prev h a index in give_back (merge_next h1 b index) b

-- The end of `kupl_normal_free`, on a buffer of this executor.
pub release : NormalHeap → ℕ → NormalHeap
unfolding coalesce
release h a =
    let desc = h.descs a in
    let index = pos_part desc.mem_bin_index in
    let h1 = with_desc h a (record desc { total_size = neg_ℤ desc.total_size }) in
    if ltb (h.mem.mem_bins_count index) kupl_mem_bins_threshold
    then kupl_normal_insert_into_freelist h1 a
    else coalesce h1 a index

pub kupl_normal_sync_list_enqueue : NormalHeap → ℕ → ℕ → NormalHeap
kupl_normal_sync_list_enqueue h eid ptr = record h { sync = update h.sync eid (ptr ∷ h.sync eid) }

pub kupl_normal_free : NormalHeap → ℕ → NormalHeap
unfolding release kupl_normal_sync_list_enqueue
kupl_normal_free h ptr =
    let a = ptr - sizeof_buffer_desc in
    let desc = h.descs a in
    let ref = (desc.ref + 2 ^ 16 - 1) % 2 ^ 16 in
    let h1 = with_desc h a (record desc { ref = ref }) in
    if ltb 0 ref
    then h1
    else if ltb_ℤ desc.mem_bin_index (pos 0)
    then record h1 { unmapped = (a, to_size desc.total_size) ∷ h.unmapped }
    else if not (desc.eid == h.mem.eid)
    then kupl_normal_sync_list_enqueue h1 desc.eid ptr
    else release h1 a

unfoldable pub free_all : NormalHeap → List ℕ → NormalHeap
free_all h [] = h
free_all h (ptr ∷ rest) = free_all (kupl_normal_free h ptr) rest

unfoldable pub kupl_normal_sync_list_dequeue : NormalHeap → NormalHeap
unfolding free_all
kupl_normal_sync_list_dequeue h =
    free_all (record h { sync = update h.sync h.mem.eid [] }) (h.sync h.mem.eid)

-- `(actual + align_length - 1) & (~(align_length - 1))`, on `size_t`.
unfoldable pub actual_size : ℕ → ℕ → ℕ
actual_size align_length size =
    bit_and ((size + sizeof_buffer_desc + align_length - 1) % 2 ^ 64)
      (2 ^ 64 - 1 - (align_length + 2 ^ 64 - 1) % 2 ^ 64)

-- `align_length` is `static`: the call leaves it to the next one. It starts as `g_kupl_user_align_config`.
unfoldable pub next_align : ℕ → Bool → ℕ
next_align align_length is_win_alloc_hugepage =
    if is_win_alloc_hugepage then huge_page_size else align_length

-- A buffer larger than a chunk, at the address `kupl_memory_mmap` gave.
unfoldable pub direct_alloc : NormalHeap → ℕ → Option ℕ → NormalHeap × Option ℕ
direct_alloc h actual none = (h, none)
direct_alloc h actual (some a) = (
  with_desc h a (record (h.descs a) {
    eid = h.mem.eid;
    mem_bin_index = negsuc 0;
    total_size = to_int actual;
    ref = 1;
  }),
  some (a + sizeof_buffer_desc),
)

-- `goto search_bins`, with the passes that may be made and the answers of `kupl_memory_mmap`; the
-- result is missing if the passes run out.
unfoldable pub search_loop : ℕ → NormalHeap → ℕ → List (Option ℕ) → Option (NormalHeap × Option ℕ)
search_loop zero h actual maps = none
search_loop (suc passes) h actual maps = elim (search_all h actual) [
  | some (h', ptr) ↦ some (h', some ptr)
  | none ↦ elim maps [
    | [] ↦ some (h, none)
    | none ∷ more ↦ some (h, none)
    | some a ∷ more ↦ search_loop passes (add_chunk h a) actual more
  ]
]

-- The buffer for `size` bytes, and the alignment for the next call. `map_direct` is what
-- `kupl_memory_mmap` answers for a large buffer, `map_chunk` for a chunk.
unfoldable pub kupl_normal_alloc :
    NormalHeap → ℕ → ℕ → Bool → Option ℕ → Option ℕ → Option (NormalHeap × Option ℕ) × ℕ
unfolding kupl_normal_sync_list_dequeue
kupl_normal_alloc h0 align_length size is_win_alloc_hugepage map_direct map_chunk =
    let h = kupl_normal_sync_list_dequeue h0 in
    let align = next_align align_length is_win_alloc_hugepage in
    let actual = actual_size align size in
    (
      if ltb mem_max_size actual
          then some (direct_alloc h actual map_direct)
          else search_loop 2 h actual (map_chunk ∷ []),
      align,
    )
