-- ===== src/Memory/Normal/Alloc.antt =====
-- `kupl_normal_alloc` as a whole: it ends, and gives a buffer or a null pointer.
use kupl.Prelude.{
  ℕ, ◌+◌, ◌-◌, ◌%◌, ◌^◌, ◌≤◌, ◌<◌, ◌≡◌, ◌≢◌, refl, sym, ap, ◌∙◌, arith, inl, inr, Bool, true, false,
  Option-cases, if_cases, update, ltb, bit_and, ltb→lt, List, [], ◌∷◌, Option, none, some, dec_lt,
}
use kupl.Prelude.Bits.{bit_and-cleared, bit_and-large}
use kupl.Prelude.Int.{ℤ, pos, negsuc}
use kupl.Memory.{
  huge_page_size, sizeof_buffer_desc, mem_bins_total, mem_max_size, whole_chunk, g_memory_bin_size,
  kupl_get_bin_index,
}
use kupl.Memory.Bins.{memory_bins-IsAscending, kupl_get_bin_index-last}
use kupl.Memory.Normal.{
  NormalHeap, to_size, search_all, search_loop, add_chunk, actual_size, next_align,
  kupl_normal_alloc, kupl_normal_insert_into_freelist, free_all, kupl_normal_sync_list_dequeue,
  direct_alloc,
}
use kupl.Memory.Normal.Invariant.{Map, IsBuffer, Layout-same, IsMarked-same}
use kupl.Memory.Normal.Invariant.Shape.{update_ne}
use kupl.Memory.Normal.Invariant.Chunk.{
  HasRoom, grown_map, grown, more, old_ne, old_size, free_here, grow-Layout, grow-IsMarked, a_size,
  a-IsBuffer,
}
use kupl.Memory.Normal.Invariant.Listed.{count}
use kupl.Memory.Normal.Sound.{
  sizes, prevs, free_of, IsSound, IsOpen, index_below, inserted-size, insert-IsSound, insert-Keeps,
}
use kupl.Memory.Normal.Take.{Given}
use kupl.Memory.Normal.Search.{search_bins-Given, search_bins-finds}

-- A chunk is added.
module _ (m : Map) (h : NormalHeap) (w : IsSound m h) (a : ℕ) (room : HasRoom m a) where
  abbrev size : ℕ → ℤ
  size = sizes h.descs

  abbrev pub new_map : Map
  new_map = grown_map m size w.layout a room

  abbrev new_sizes : ℕ → ℤ
  new_sizes = grown m size w.layout a room

  -- The heap before the chunk goes into a list.
  abbrev mapped : NormalHeap
  mapped =
      let desc = record (h.descs a) {
        eid = h.mem.eid;
        ref = 1;
        total_size = pos whole_chunk;
        prev_free = 0;
      } in
      let started = update h.descs a desc in
      let next = a + whole_chunk in
      let ended = update started next (record (started next) {
        prev_free = whole_chunk;
        eid = h.mem.eid;
        total_size = negsuc 0;
      }) in
      record h {
        descs = ended;
        mem = record h.mem { alloc_chunks = (h.mem.alloc_chunks + 1) % 2 ^ 32 };
      }

  mapped-size : (c : ℕ) → new_sizes c ≡ (mapped.descs c).total_size
  mapped-size c = ground arith

  mapped-prev :
      (c : ℕ)
      → update (update (prevs h.descs) a 0) (a + whole_chunk) whole_chunk c
        ≡ (mapped.descs c).prev_free
  mapped-prev c = ground arith

  mapped_free : (c : ℕ) → free_of m size c ≡ update (free_of new_map (sizes mapped.descs)) a 0 c
  mapped_free c =
      let out_a = free_here m size w.layout a room a (omega arith) (omega arith) in
      let out_last =
        free_here m size w.layout a room (a + whole_chunk) (omega arith) (omega arith) in
      ground (arith, mapped-size c)

  chunk-size : (mapped.descs a).total_size ≡ pos whole_chunk
  chunk-size = sym (mapped-size a) ∙ a_size m size w.layout a room

  mapped-IsOpen : IsOpen new_map mapped a
  mapped-IsOpen = record {
    layout =
        Layout-same new_map new_sizes (sizes mapped.descs) (λ c s. mapped-size c)
          (grow-Layout m size w.layout a room);
    marks =
        IsMarked-same new_map new_sizes (sizes mapped.descs) (λ c s. mapped-size c)
          (update (update (prevs h.descs) a 0) (a + whole_chunk) whole_chunk) (prevs mapped.descs)
          (λ c s. mapped-prev c) (grow-IsMarked m size w.layout a room (prevs h.descs) w.marks);
    buffer = a-IsBuffer m size w.layout a room;
    bytes = whole_chunk;
    free = chunk-size;
    lists = λ c. w.lists c ∙ mapped_free c;
  }

  pub add_chunk-IsSound : IsSound new_map (add_chunk h a)
  unfolding add_chunk
  add_chunk-IsSound = insert-IsSound new_map mapped a mapped-IsOpen

  pub add_chunk-kept :
      (c n : ℕ)
      → IsBuffer m c
      → (h.descs c).total_size ≡ negsuc n
      → IsBuffer new_map c × (((add_chunk h a).descs c).total_size ≡ negsuc n)
  unfolding add_chunk
  add_chunk-kept c n q e =
      let (n1, n2) = old_ne m size w.layout a room c q.0 in
      insert-Keeps new_map mapped a mapped-IsOpen a c n n1
        (more m size w.layout a room c q.0, update_ne m.ends (a + whole_chunk) c true n2 ∙ q.1)
        (sym (mapped-size c) ∙ old_size m size w.layout a room c q.0 ∙ e)

  add_chunk-size : ((add_chunk h a).descs a).total_size ≡ pos whole_chunk
  unfolding add_chunk
  add_chunk-size = sym (inserted-size new_map mapped a mapped-IsOpen a) ∙ chunk-size

  add_chunk-listed :
      count a (
        (add_chunk h a).mem.mem_bins
          (kupl_get_bin_index whole_chunk g_memory_bin_size mem_bins_total))
      ≢ 0
  unfolding add_chunk kupl_normal_insert_into_freelist to_size
  add_chunk-listed =
      at_class (kupl_get_bin_index whole_chunk g_memory_bin_size mem_bins_total)
        (kupl_get_bin_index (to_size (mapped.descs a).total_size) g_memory_bin_size mem_bins_total)
        (ap (λ (z : ℤ). kupl_get_bin_index (to_size z) g_memory_bin_size mem_bins_total) chunk-size)
    where
      at_class : (j i : ℕ) → i ≡ j → count a (update h.mem.mem_bins i (a ∷ h.mem.mem_bins i) j) ≢ 0
      at_class j i e = ground arith

  -- What the second pass gives, seen from before the chunk.
  later-Given :
      (m' : Map) (h' : NormalHeap) (actual ptr : ℕ)
      → Given new_map (add_chunk h a) m' h' actual ptr
      → Given m h m' h' actual ptr
  later-Given m' h' actual ptr g = record {
    sound = g.sound;
    at = g.at;
    starts_at = g.starts_at;
    buffer = g.buffer;
    more = g.more;
    in_use = g.in_use;
    enough = g.enough;
    was_free = λ n q e. let (q', e') = add_chunk-kept g.at n q e in g.was_free n q' e';
    kept = λ c n q e. let (q', e') = add_chunk-kept c n q e in g.kept c n q' e';
  }

-- The class where the search starts is not above that of a whole chunk.
start-le :
    (actual : ℕ)
    → actual ≤ mem_max_size
    → kupl_get_bin_index actual g_memory_bin_size mem_bins_total
      ≤ kupl_get_bin_index whole_chunk g_memory_bin_size mem_bins_total
start-le actual le =
    let start =
      kupl_get_bin_index-last actual mem_bins_total g_memory_bin_size (omega arith)
        memory_bins-IsAscending (omega arith) in
    let last =
      kupl_get_bin_index-last whole_chunk mem_bins_total g_memory_bin_size (omega arith)
        memory_bins-IsAscending (omega arith) in
    let i = kupl_get_bin_index actual g_memory_bin_size mem_bins_total in
    elim (dec_lt (kupl_get_bin_index whole_chunk g_memory_bin_size mem_bins_total) i) [
      | no le' ↦ omega arith
      | yes lt ↦ absurd (omega (arith, last.2 i lt start.0, start.1))
    ]

-- The outcome: a null pointer if there is no memory for a chunk, and then nothing has changed; or a
-- buffer.
pub data Outcome (m : Map) (h : NormalHeap) (actual : ℕ) (map : Option ℕ)
    : NormalHeap → Option ℕ → Type 0 where
  failed : map ≡ none → Outcome m h actual map h none
  given :
      (m' : Map) (h' : NormalHeap) (ptr : ℕ)
      → Given m h m' h' actual ptr
      → Outcome m h actual map h' (some ptr)

module _ (m : Map) (h : NormalHeap) (w : IsSound m h) (actual : ℕ) (some_actual : 0 < actual)
    (small : actual ≤ mem_max_size) where
  search_all-Given :
      (h' : NormalHeap) (ptr : ℕ)
      → search_all h actual ≡ some (h', ptr)
      → (m' : Map) × Given m h m' h' actual ptr
  search_all-Given h' ptr e =
      search_bins-Given m h w actual some_actual
        (mem_bins_total - kupl_get_bin_index actual g_memory_bin_size mem_bins_total)
        (kupl_get_bin_index actual g_memory_bin_size mem_bins_total)
        (omega (arith, index_below actual)) h' ptr e

  -- What a pass makes of its search.
  abbrev after_search :
      ℕ → NormalHeap → List (Option ℕ) → Option (NormalHeap × ℕ) → Option (NormalHeap × Option ℕ)
  after_search passes g maps o = elim o [
    | some (h', ptr) ↦ some (h', some ptr)
    | none ↦ elim maps [
      | [] ↦ some (g, none)
      | none ∷ more ↦ some (g, none)
      | some a ∷ more ↦ search_loop passes (add_chunk g a) actual more
    ]
  ]

  search_added :
      (a : ℕ)
      → HasRoom m a
      → (out : NormalHeap × ℕ) × (search_all (add_chunk h a) actual ≡ some out)
  search_added a roomy =
      let sound = add_chunk-IsSound m h w a roomy in
      search_bins-finds (new_map m h w a roomy) (add_chunk h a) sound actual some_actual
        (mem_bins_total - kupl_get_bin_index actual g_memory_bin_size mem_bins_total)
        (kupl_get_bin_index actual g_memory_bin_size mem_bins_total)
        (kupl_get_bin_index whole_chunk g_memory_bin_size mem_bins_total) a whole_chunk
        (start-le actual small) (omega (arith, index_below whole_chunk, index_below actual))
        (add_chunk-listed m h w a roomy) (add_chunk-size m h w a roomy) (omega arith)

  -- The first pass finds a buffer, or the one after a new chunk does.
  pub search_loop-Outcome :
      (map : Option ℕ)
      → ((a : ℕ) → map ≡ some a → HasRoom m a)
      → (h' : NormalHeap) × (r : Option ℕ) × (search_loop 2 h actual (map ∷ []) ≡ some (h', r))
        × Outcome m h actual map h' r
  unfolding search_loop
  search_loop-Outcome map room = elim (Option-cases (search_all h actual)) [
    | inr ((h1, ptr), got) ↦
        let (m', g) = search_all-Given h1 ptr got in
        (h1, some ptr, ap (after_search 1 h (map ∷ [])) got, given m' h1 ptr g)
    | inl nothing ↦ elim (Option-cases map) [
      | inl gone ↦ (
        h,
        none,
        ap (after_search 1 h (map ∷ [])) nothing
            ∙ ap (λ (o : Option ℕ). after_search 1 h (o ∷ []) none) gone,
        failed gone,
      )
      | inr (a, mapped_at) ↦
          let roomy = room a mapped_at in
          let h1 = add_chunk h a in
          let sound = add_chunk-IsSound m h w a roomy in
          let ((h2, ptr), got) = search_added a roomy in
          let (m', g) =
            search_bins-Given (new_map m h w a roomy) h1 sound actual some_actual
              (mem_bins_total - kupl_get_bin_index actual g_memory_bin_size mem_bins_total)
              (kupl_get_bin_index actual g_memory_bin_size mem_bins_total)
              (omega (arith, index_below actual)) h2 ptr got in
          (
            h2,
            some ptr,
            ap (after_search 1 h (map ∷ [])) nothing
                ∙ ap (λ (o : Option ℕ). after_search 1 h (o ∷ []) none) mapped_at
                ∙ ap (after_search 0 h1 []) got,
            given m' h2 ptr (later-Given m h w a roomy m' h2 actual ptr g),
          )
    ]
  ]

fewer_bytes :
    (m : Map) (h : NormalHeap) (actual bytes : ℕ) (map : Option ℕ)
    → bytes ≤ actual
    → (h' : NormalHeap) (r : Option ℕ) → Outcome m h actual map h' r
    → Outcome m h bytes map h' r
fewer_bytes m h actual bytes map le h' r (failed gone) = failed gone
fewer_bytes m h actual bytes map le h' r (given m' h1 ptr g) = given m' h1 ptr (record {
  sound = g.sound;
  at = g.at;
  starts_at = g.starts_at;
  buffer = g.buffer;
  more = g.more;
  in_use = g.in_use;
  enough = omega (arith, g.enough);
  was_free = g.was_free;
  kept = g.kept;
})

-- No buffer waits in the list of this executor, so the call starts with the heap as it is.
module _ (m : Map) (h : NormalHeap) (w : IsSound m h) (empty : h.sync h.mem.eid ≡ []) where
  abbrev pub checked : NormalHeap
  checked = record h { sync = update h.sync h.mem.eid [] }

  dequeue-empty : kupl_normal_sync_list_dequeue h ≡ checked
  unfolding kupl_normal_sync_list_dequeue free_all
  dequeue-empty = ap (free_all checked) empty

  checked-IsSound : IsSound m checked
  checked-IsSound = record { layout = w.layout; marks = w.marks; lists = w.lists }

  enough_size :
      (align bytes : ℕ)
      → 0 < align
      → bytes + sizeof_buffer_desc + align < 2 ^ 64
      → bytes + sizeof_buffer_desc ≤ actual_size align bytes
  unfolding actual_size
  enough_size align bytes some_align fits =
      let x = (bytes + sizeof_buffer_desc + align - 1) % 2 ^ 64 in
      let mask : 2 ^ 64 - 1 - (align + 2 ^ 64 - 1) % 2 ^ 64 ≡ 2 ^ 64 - 1 - (align - 1) =
        omega arith in
      omega
        (arith, bit_and-cleared 64 x (align - 1) (omega arith) (omega arith), ap (bit_and x) mask)

  module _ (align bytes : ℕ) (win : Bool) (direct map : Option ℕ) (some_align : 0 < align)
      (fits : bytes + sizeof_buffer_desc + next_align align win < 2 ^ 64)
      (small : actual_size (next_align align win) bytes ≤ mem_max_size)
      (room : (a : ℕ) → map ≡ some a → HasRoom m a) where
    abbrev actual : ℕ
    actual = actual_size (next_align align win) bytes

    next_pos : 0 < next_align align win
    unfolding next_align
    next_pos = ground arith

    enough : bytes + sizeof_buffer_desc ≤ actual
    enough = enough_size (next_align align win) bytes next_pos fits

    alloc-Outcome :
        (h' : NormalHeap) × (r : Option ℕ) × ((kupl_normal_alloc h align bytes win direct map).0
          ≡ some (h', r))
        × Outcome m checked actual map h' r
    unfolding kupl_normal_alloc
    alloc-Outcome =
        let (h', r, e, o) =
          search_loop-Outcome m checked checked-IsSound actual (omega (arith, enough)) small map
            room in
        (
          h',
          r,
          rw dequeue-empty (
              if_cases (λ (x : Option (NormalHeap × Option ℕ)). x ≡ some (h', r))
                (ltb mem_max_size actual) (some (direct_alloc checked actual direct))
                (search_loop 2 checked actual (map ∷ []))
                (λ large. absurd (omega (arith, ltb→lt mem_max_size actual large))) (λ fit. e)),
          o,
        )

    -- For a sound memory (buffers fill their chunks and lie apart, the marks of free buffers are
    -- true, and the free lists hold each of them once) with no returned buffers waiting, and a
    -- size for which a chunk is large enough and which does not wrap, when a mapped chunk lies
    -- apart from the others: two passes are enough for the result. It is a null pointer, with the
    -- memory as it was, if no chunk could be mapped; or a buffer with room for the size and its
    -- descriptor that was not in use, and then the memory is sound and all buffers in use are as
    -- before.
    pub kupl_normal_alloc-Outcome :
        (h' : NormalHeap) × (r : Option ℕ) × ((kupl_normal_alloc h align bytes win direct map).0
          ≡ some (h', r))
        × Outcome m checked (bytes + sizeof_buffer_desc) map h' r
    kupl_normal_alloc-Outcome =
        let (h', r, e, o) = alloc-Outcome in
        (h', r, e, fewer_bytes m checked actual (bytes + sizeof_buffer_desc) map enough h' r o)

  huge_size :
      (align bytes : ℕ)
      → align ≡ huge_page_size
      → bytes + sizeof_buffer_desc + align < 2 ^ 64
      → huge_page_size ≤ actual_size align bytes
  unfolding actual_size
  huge_size align bytes e fits =
      let x = (bytes + sizeof_buffer_desc + align - 1) % 2 ^ 64 in
      let mask : 2 ^ 64 - 1 - (align + 2 ^ 64 - 1) % 2 ^ 64 ≡ 2 ^ 64 - 2 ^ 21 = omega arith in
      omega (
        arith,
        bit_and-large 64 21 x (omega arith) (omega arith) (omega arith),
        ap (bit_and x) mask,
      )

  -- After a call for huge pages, whatever its outcome: for a sound memory with no returned
  -- buffers waiting, a size that does not wrap and for which a chunk is large enough at the
  -- alignment that is left, and a mapped chunk apart from the others, a call without huge pages
  -- ends, and a buffer that it gives takes at least the size of a huge page.
  pub kupl_normal_alloc-stays_huge :
      (h0 : NormalHeap) (align bytes0 bytes : ℕ) (direct0 map0 direct map : Option ℕ)
      → let left = (kupl_normal_alloc h0 align bytes0 true direct0 map0).1 in
        bytes + sizeof_buffer_desc + left < 2 ^ 64
        → actual_size left bytes ≤ mem_max_size
        → ((a : ℕ) → map ≡ some a → HasRoom m a)
        → (h' : NormalHeap) × (r : Option ℕ) × ((kupl_normal_alloc h left bytes false direct map).0
            ≡ some (h', r))
          × Outcome m checked huge_page_size map h' r
  unfolding kupl_normal_alloc next_align
  kupl_normal_alloc-stays_huge h0 align bytes0 bytes direct0 map0 direct map fits small room =
      let (h', r, e, o) =
        alloc-Outcome huge_page_size bytes false direct map (omega arith) fits small room in
      (
        h',
        r,
        e,
        fewer_bytes m checked (actual_size huge_page_size bytes) huge_page_size map
            (huge_size huge_page_size bytes refl fits) h' r o,
      )
