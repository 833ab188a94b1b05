-- ===== src/Memory.antt =====
-- The memory pool of src/memory/mpool/kupl_mpool.cpp: its constants and size classes, and the search for
-- the class of a size.
pub mod Bins
pub mod Normal
pub mod Fast
pub mod Tests
use kupl.Prelude.{
  ℕ, zero, suc, ◌+◌, ◌-◌, ◌*◌, ◌/◌, Bool, true, false, ◌&&◌, ltb, leb, if◌then◌else◌, List, [], ◌∷◌,
  get_or, length,
}

abbrev pub sizeof_buffer_desc : ℕ
sizeof_buffer_desc = 48

abbrev pub sizeof_fast_desc : ℕ
sizeof_fast_desc = 16

abbrev pub kupl_cache_line : ℕ
kupl_cache_line = 64

abbrev pub huge_page_size : ℕ
huge_page_size = 2 * 1024 * 1024

abbrev pub kupl_mem_bins_threshold : ℕ
kupl_mem_bins_threshold = 4

abbrev pub kupl_fast_memory_other_queue_limit : ℕ
kupl_fast_memory_other_queue_limit = 16

abbrev pub fast_grow_size : ℕ
fast_grow_size = 65536

-- `g_fast_bin_size`: class `i` holds buffers of `i` cache lines, class 0 of one.
abbrev pub fast_bin_size : ℕ → ℕ
fast_bin_size zero = kupl_cache_line
fast_bin_size (suc i) = suc i * kupl_cache_line

abbrev pub fast_bins_count : ℕ
fast_bins_count = 19

abbrev pub g_memory_bin_size : List ℕ
g_memory_bin_size =
    0
    ∷ 512
    ∷ 1024
    ∷ (2 * 1024)
    ∷ (4 * 1024)
    ∷ (8 * 1024)
    ∷ (16 * 1024)
    ∷ (32 * 1024)
    ∷ (64 * 1024)
    ∷ (128 * 1024)
    ∷ (256 * 1024)
    ∷ (512 * 1024)
    ∷ (1024 * 1024)
    ∷ (2 * 1024 * 1024)
    ∷ (4 * 1024 * 1024)
    ∷ []

abbrev pub mem_bins_total : ℕ
mem_bins_total = 15

abbrev pub mem_chunk_grow_size : ℕ
mem_chunk_grow_size = 4 * 1024 * 1024

abbrev pub mem_max_size : ℕ
mem_max_size = mem_chunk_grow_size - 2 * sizeof_buffer_desc

-- The size of a chunk without the descriptor that ends it: `MEM_IS_WHOLE_CHUNK` compares with it.
abbrev pub whole_chunk : ℕ
whole_chunk = mem_chunk_grow_size - sizeof_buffer_desc

-- The `while` of `kupl_get_bin_index`, with the final `low` and `high`.
pub bin_loop : ℕ → ℕ → List ℕ → ℕ → ℕ → ℕ × ℕ
bin_loop zero size bins low high = (low, high)
bin_loop (suc fuel) size bins low high =
    let mid = (high + low) / 2 in
    let rest =
      if ltb size (get_or bins mid 0)
      then bin_loop fuel size bins low (mid - 1)
      else bin_loop fuel size bins mid high in
    if ltb 1 (high - low) then rest else (low, high)

pub bin_answer : ℕ → List ℕ → ℕ × ℕ → ℕ
bin_answer size bins (low, high) =
    if ltb low high && leb (get_or bins high 0) size then high else low

-- As many rounds as there are classes are enough.
unfoldable pub kupl_get_bin_index : ℕ → List ℕ → ℕ → ℕ
unfolding bin_loop bin_answer
kupl_get_bin_index size bins bin_count =
    bin_answer size bins (bin_loop bin_count size bins 0 (bin_count - 1))
