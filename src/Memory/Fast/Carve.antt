-- ===== src/Memory/Fast/Carve.antt =====
-- A block of the normal memory is cut into small buffers: `kupl_get_memory_from_normal_memory`.
use kupl.Prelude.{
  ℕ, zero, suc, ◌+◌, ◌-◌, ◌*◌, ◌/◌, ◌%◌, ◌^◌, ◌≤◌, ◌<◌, ◌==◌, ◌≡◌, refl, sym, subst, ap, ◌∙◌, arith,
  Bool, false, if_cases, List, [], ◌∷◌, ◌++◌, length, Option, some, update, update_same,
}
use kupl.Prelude.Int.{pos}
use kupl.Memory.{
  kupl_cache_line, fast_bin_size, fast_bins_count, fast_grow_size, sizeof_fast_desc,
  sizeof_buffer_desc,
}
use kupl.Memory.Normal.{BufferDesc, NormalHeap, kupl_normal_alloc}
use kupl.Memory.Fast.{
  FastCache, FastDesc, FastPool, carve, carve_all, step_of, count_of, align_up, from_normal,
  kupl_get_memory_from_normal_memory,
}

-- Buffers of `size` bytes between `low` and `high`, from the last to the first, with room for a
-- descriptor between two of them.
abbrev pub IsCut : ℕ → ℕ → ℕ → List ℕ → Type 0
IsCut size low high [] = Unit
IsCut size low high (b ∷ bs) =
    (low ≤ b) × (b + size ≤ high) × IsCut size low (b - sizeof_fast_desc) bs

abbrev pub AllAre : (ℕ → FastDesc) → FastDesc → List ℕ → Type 0
AllAre descs desc [] = Unit
AllAre descs desc (b ∷ bs) = (descs b ≡ desc) × AllAre descs desc bs

IsCut-higher :
    (size low high high' : ℕ) (bs : List ℕ)
    → high ≤ high'
    → IsCut size low high bs
    → IsCut size low high' bs
IsCut-higher size low high high' [] le cut = tt
IsCut-higher size low high high' (b ∷ bs) le (starts, ends, rest) = (starts, omega arith, rest)

AllAre-update :
    (descs : ℕ → FastDesc) (desc : FastDesc) (at : ℕ) (bs : List ℕ)
    → AllAre descs desc bs
    → AllAre (update descs at desc) desc bs
AllAre-update descs desc at [] all = tt
AllAre-update descs desc at (b ∷ bs) (now, all) = (
  if_cases (λ (d : FastDesc). d ≡ desc) (at == b) desc (descs b) (λ here. refl) (λ off. now),
  AllAre-update descs desc at bs all,
)

module _ (desc : FastDesc) (size low ptr : ℕ) (old : List ℕ) (above : low ≤ ptr) where
  abbrev step : ℕ
  step = step_of size

  -- What holds before round `i`: `cut` are the buffers that were put into the list so far.
  record Rounds (i : ℕ) (descs : ℕ → FastDesc) (self cut : List ℕ) : Type 0 where
    listed : self ≡ cut ++ old
    within : IsCut size low (ptr + step * i - kupl_cache_line) (cut ++ (ptr ∷ []))
    told : AllAre descs desc (cut ++ (ptr ∷ []))
    many : length (cut ++ (ptr ∷ [])) ≡ i

  first : (descs : ℕ → FastDesc) (at : ℕ) → at ≡ ptr → Rounds 1 (update descs at desc) old []
  first descs at e = record {
    listed = refl;
    within = (above, omega arith, tt);
    told = (subst (λ (x : ℕ). update descs at desc x ≡ desc) e (update_same descs at desc), tt);
    many = refl;
  }

  next :
      (i : ℕ) (descs : ℕ → FastDesc) (self cut : List ℕ)
      → Rounds (suc i) descs self cut
      → let buf = ptr + step * suc i in
        Rounds (suc (suc i)) (update descs buf desc) (buf ∷ self) (buf ∷ cut)
  next i descs self cut r =
      let buf = ptr + step * suc i in
      record {
        listed = ap (λ (xs : List ℕ). buf ∷ xs) r.listed;
        within = (
          omega arith,
          grind arith,
          IsCut-higher size low (buf - kupl_cache_line) (buf - sizeof_fast_desc) (cut ++ (ptr ∷ []))
              (omega arith) r.within,
        );
        told =
            (update_same descs buf desc, AllAre-update descs desc buf (cut ++ (ptr ∷ [])) r.told);
        many = omega (arith, r.many);
      }

  carve_next :
      (n i : ℕ) (descs : ℕ → FastDesc) (self : List ℕ)
      → let buf = ptr + step * suc i in
        carve n (suc (suc i)) desc ptr step (update descs buf desc, buf ∷ self)
        ≡ carve (suc n) (suc i) desc ptr step (descs, self)
  unfolding carve
  carve_next n i descs self = let later : (suc i == 0) ≡ false = ground arith in rw later refl

  all_rounds :
      (n i : ℕ) (descs : ℕ → FastDesc) (self cut : List ℕ)
      → Rounds (suc i) descs self cut
      → let out = carve n (suc i) desc ptr step (descs, self) in
        (cut' : List ℕ) × Rounds (suc i + n) out.0 out.1 cut'
  unfolding carve
  all_rounds zero i descs self cut r =
      let here : suc i ≡ suc i + 0 = omega arith in
      (cut, subst (λ (k : ℕ). Rounds k descs self cut) here r)
  all_rounds (suc n) i descs self cut r =
      let buf = ptr + step * suc i in
      let (cut', r') =
        all_rounds n (suc i) (update descs buf desc) (buf ∷ self) (buf ∷ cut)
          (next i descs self cut r) in
      let later : suc (suc i) + n ≡ suc i + suc n = omega arith in
      (
        cut',
        subst
            (λ (k : ℕ).
              Rounds k (carve (suc n) (suc i) desc ptr step (descs, self)).0
                (carve (suc n) (suc i) desc ptr step (descs, self)).1 cut')
            later
            (subst (λ (out : (ℕ → FastDesc) × List ℕ). Rounds (suc (suc i) + n) out.0 out.1 cut')
              (carve_next n i descs self) r'),
      )

  all_cut :
      (n : ℕ) (descs : ℕ → FastDesc)
      → 0 < n
      → let out = carve n 0 desc ptr step (descs, old) in (cut : List ℕ) × Rounds n out.0 out.1 cut
  unfolding carve
  all_cut zero descs some_n = absurd (omega arith)
  all_cut (suc n) descs some_n =
      let at = ptr + step * 0 in
      let here : at ≡ ptr = omega arith in
      let total : 1 + n ≡ suc n = omega arith in
      let out = carve n 1 desc ptr step (update descs at desc, old) in
      let (cut, r) = all_rounds n 0 (update descs at desc) old [] (first descs at here) in
      (cut, subst (λ (k : ℕ). Rounds k out.0 out.1 cut) total r)

-- The size of a class, and how many of its buffers a block gives.
fast_bin_size-bounds :
    (i : ℕ) → i < fast_bins_count → (fast_bin_size i ≤ 18 * kupl_cache_line) × (0 < fast_bin_size i)
fast_bin_size-bounds zero lt = (omega arith, omega arith)
fast_bin_size-bounds (suc i) lt = (omega arith, omega arith)

count_of-bounds :
    (size : ℕ)
    → size ≤ 18 * kupl_cache_line
    → 0 < size
    → (0 < count_of size) × (step_of size * count_of size ≤ fast_grow_size)
count_of-bounds size le some_size =
    let step = step_of size in
    let fits : step * (fast_grow_size / step) ≤ fast_grow_size = grind arith in
    let few : fast_grow_size / step < 2 ^ 16 = grind (arith, fits) in
    let some_fit : 0 < fast_grow_size / step = grind arith in
    let whole : count_of size ≡ fast_grow_size / step = omega (arith, few) in
    (omega (arith, few, some_fit), omega (arith, fits, ap (λ (n : ℕ). step * n) whole))

-- What is known of the pool after a block at `alloc_ptr` was cut, and of the buffer at `ptr` that
-- the caller gets.
pub record Carved (p : FastPool) (heap : NormalHeap) (index alloc_ptr : ℕ) (q : FastPool) (ptr : ℕ)
    (cut : List ℕ) : Type 0 where
  pub aligned : ptr % kupl_cache_line ≡ 0
  pub listed : (q.fast_bins heap.mem.eid index).self ≡ cut ++ (p.fast_bins heap.mem.eid index).self
  pub within :
      IsCut (fast_bin_size index) alloc_ptr (alloc_ptr + fast_grow_size) (cut ++ (ptr ∷ []))
  pub told :
      AllAre q.fast_descs
        (record { eid = heap.mem.eid; fast_bin_index = pos index; alloc_ptr = alloc_ptr })
        (cut ++ (ptr ∷ []))
  pub counted : (q.heap.descs (alloc_ptr - sizeof_buffer_desc)).ref ≡ length (cut ++ (ptr ∷ []))

-- A block at `alloc_ptr` of `heap` is cut.
module _ (p : FastPool) (heap : NormalHeap) (index alloc_ptr : ℕ)
    (lt : index < fast_bins_count) where
  abbrev from : FastPool
  from = record p { heap = heap }

  abbrev desc : FastDesc
  desc = record { eid = heap.mem.eid; fast_bin_index = pos index; alloc_ptr = alloc_ptr }

  abbrev size : ℕ
  size = fast_bin_size index

  carve_all-Carved :
      (cut : List ℕ) × Carved p heap index alloc_ptr
        (carve_all from size index alloc_ptr).0
        (align_up alloc_ptr)
        cut
  unfolding carve_all
  carve_all-Carved =
      let ptr = align_up alloc_ptr in
      let (le, some_size) = fast_bin_size-bounds index lt in
      let (some_count, fits) = count_of-bounds size le some_size in
      let old = (p.fast_bins heap.mem.eid index).self in
      let (cut, r) =
        all_cut desc size alloc_ptr ptr old (omega arith) (count_of size) p.fast_descs some_count in
      let e = heap.mem.eid in
      let at = alloc_ptr - sizeof_buffer_desc in
      (
        cut,
        record {
          aligned = omega arith;
          listed =
              ap (λ (f : ℕ → FastCache). (f index).self) (update_same p.fast_bins e _)
              ∙ ap (λ (c : FastCache). c.self) (update_same (p.fast_bins e) index _)
              ∙ r.listed;
          within =
              IsCut-higher size alloc_ptr (ptr + step_of size * count_of size - kupl_cache_line)
                (alloc_ptr + fast_grow_size) (cut ++ (ptr ∷ [])) (omega (arith, fits)) r.within;
          told = r.told;
          counted = ap (λ (d : BufferDesc). d.ref) (update_same heap.descs at _) ∙ sym r.many;
        },
      )

  -- For a class of small buffers, when `kupl_normal_alloc` gives the block that is asked for:
  -- the caller gets a buffer at the start of a cache line, and the other buffers that were cut
  -- stand in front of the list of the executor and the class. Each of all these buffers has the
  -- size of the class and lies within the block, with room for a descriptor between two of them;
  -- each has a descriptor with the executor, the class and the block; and the block counts as
  -- many references as there are buffers.
  pub kupl_get_memory_from_normal_memory-Carved :
      (align align' : ℕ) (win : Bool) (direct map : Option ℕ)
      → kupl_normal_alloc p.heap align fast_grow_size win direct map
        ≡ (some (heap, some alloc_ptr), align')
      → (q : FastPool) × (ptr : ℕ) × (cut : List ℕ) × (kupl_get_memory_from_normal_memory p
            (fast_bin_size index)
            index
            align
            win
            direct
            map
          ≡ (some (q, some ptr), align'))
        × Carved p heap index alloc_ptr q ptr cut
  unfolding kupl_get_memory_from_normal_memory carve_all
  kupl_get_memory_from_normal_memory-Carved align align' win direct map given =
      let (cut, done) = carve_all-Carved in
      (
        (carve_all from size index alloc_ptr).0,
        align_up alloc_ptr,
        cut,
        ap
            (λ (out : Option (NormalHeap × Option ℕ) × ℕ).
              from_normal p out (λ q at. carve_all q size index at))
            given,
        done,
      )
