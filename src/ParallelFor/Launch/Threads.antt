-- ===== src/ParallelFor/Launch/Threads.antt =====
-- How many threads a loop runs on: src/mt/kupl_parallel_for.cpp, `kupl_parallel_for_num_threads`.
use kupl.Prelude.{
  ℕ, zero, suc, ◌*◌, ◌≤◌, ◌<◌, ◌≡◌, refl, sym, ap, subst, ◌≢◌, List, [], ◌∷◌, length, get_or, take,
  arith, true, false, Option, none, some,
}
use kupl.Prelude.Int.{
  ℤ, pos, negsuc, pos_part, neg_part, ltb_ℤ, ◌≤ℤ◌, ◌<ℤ◌, neg_ℤ, ◌*ℤ◌, int_laws, eq_of_parts,
  *ℤ_parts,
}
use kupl.ParallelFor.Range.{
  Range, Chunk, Pf, no_range, range_at, dims, kupl_min, calc_chunk, calc_chunks,
  kupl_calc_chunk_info,
}
use kupl.ParallelFor.Edge.{Before, edge, edge_parts}
use kupl.ParallelFor.Count.{IsLoop, calc_chunk-Counts, Before-product}
use kupl.ParallelFor.Digits.{bound}
use kupl.ParallelFor.Grid.{
  IsGrid, chunks_in, kupl_calc_chunk_info-grid, length-take_all, get_or-take,
}
use kupl.ParallelFor.Launch.{
  Desc, Env, Egroup, chunks_of, product_of, by_egroup, kupl_parallel_for_num_threads,
}

*ℤ_comm : (a b : ℤ) → a *ℤ b ≡ b *ℤ a
*ℤ_comm a b = omega int_laws

positive : (a : ℤ) → pos 0 <ℤ a → a ≡ pos (pos_part a)
positive (pos n) h = refl
positive (negsuc n) h = absurd (omega arith)

*ℤ_positive : (s b : ℕ) → 0 < s → 0 < b → ltb_ℤ (pos 0) (pos s *ℤ pos b) ≡ true
unfolding ◌*ℤ◌
*ℤ_positive s b p q = let h : 0 < s * b = grind arith in ground arith

*ℤ_negative : (s b : ℕ) → 0 < b → ltb_ℤ (pos 0) (negsuc s *ℤ pos b) ≡ false
unfolding ◌*ℤ◌
*ℤ_negative s b q = let h : 0 < suc s * b = grind arith in ground arith

neg_ℤ_parts : (a : ℤ) → (pos_part (neg_ℤ a) ≡ neg_part a) × (neg_part (neg_ℤ a) ≡ pos_part a)
neg_ℤ_parts (pos n) = ground arith
neg_ℤ_parts (negsuc n) = ground arith

neg_*ℤ : (a b : ℤ) → neg_ℤ b *ℤ a ≡ neg_ℤ (a *ℤ b)
neg_*ℤ a b =
    eq_of_parts _ _
      (grind (arith, *ℤ_parts (neg_ℤ b) a, *ℤ_parts a b, neg_ℤ_parts b, neg_ℤ_parts (a *ℤ b)))

chunks_of_step :
    (r : Range) (s : ℤ)
    → r.step ≡ s
    → Before s r.upper r.lower
    → s ≢ pos 0
    → pos 0 <ℤ r.blocksize
    → chunks_of r ≡ (calc_chunk r).chunks
unfolding calc_chunk
chunks_of_step r (pos zero) e a m b = absurd (m refl)
chunks_of_step r (pos (suc s)) e a m b =
    let forward : ltb_ℤ r.lower r.upper ≡ true = ground arith in
    let grows : ltb_ℤ (pos 0) (r.step *ℤ r.blocksize) ≡ true =
      rw (e, positive r.blocksize b)
        (*ℤ_positive (suc s) (pos_part r.blocksize) (omega arith) (omega arith)) in
    rw (forward, grows, *ℤ_comm r.blocksize r.step) refl
chunks_of_step r (negsuc s) e a m b =
    let backward : ltb_ℤ r.lower r.upper ≡ false = ground arith in
    let falls : ltb_ℤ (pos 0) (r.step *ℤ r.blocksize) ≡ false =
      rw (e, positive r.blocksize b) (*ℤ_negative s (pos_part r.blocksize) (omega arith)) in
    rw (backward, falls, neg_*ℤ r.step r.blocksize) refl

chunks_of_loop : (r : Range) → IsLoop r → chunks_of r ≡ (calc_chunk r).chunks
chunks_of_loop r v = chunks_of_step r r.step refl v.ahead v.moves v.blocks

product_of-calc :
    (rs : List Range) (info : List Chunk) (total : ℤ)
    → length rs ≤ length info
    → ((d : ℕ) → d < length rs → IsLoop (get_or rs d no_range))
    → product_of rs total ≡ (calc_chunks rs info total).1
unfolding calc_chunks
product_of-calc [] info total room loops = refl
product_of-calc (r ∷ rs) [] total room loops = absurd (omega arith)
product_of-calc (r ∷ rs) (c ∷ info) total room loops =
    rw (chunks_of_loop r (loops 0 (omega arith))) (
      product_of-calc rs info (total *ℤ (calc_chunk r).chunks) (omega arith)
        (λ d lt. loops (suc d) (omega arith)))

-- The product is the total that `kupl_calc_chunk_info` computes.
total_of_grid :
    (pf : Pf) (n : ℕ)
    → IsGrid pf n
    → product_of (dims pf.range) (pos 1) ≡ (kupl_calc_chunk_info pf).total_chunks
unfolding kupl_calc_chunk_info
total_of_grid pf n g =
    let all : length (take n pf.range.nd_range) ≡ n =
      length-take_all n pf.range.nd_range g.ranges in
    rw (g.dim) (
      product_of-calc (take n pf.range.nd_range) pf.chunk_info (pos 1)
        (omega (arith, all, g.chunk_slots))
        (λ d lt.
          subst IsLoop (sym (get_or-take n pf.range.nd_range d (omega (arith, all))))
            (g.loops d (omega (arith, all)))))

edge_0 : (l s : ℤ) → edge l s 0 ≡ l
edge_0 l s = eq_of_parts _ _ (omega (arith, edge_parts l s 0))

some_chunks : (r : Range) → IsLoop r → 0 < pos_part (calc_chunk r).chunks
unfolding calc_chunk
some_chunks r v =
    let (n, e, counts) = calc_chunk-Counts r v in
    let cs = r.step *ℤ r.blocksize in
    let (ahead, moves) =
      Before-product r.step r.blocksize r.upper r.lower v.blocks v.moves v.ahead in
    let first : 0 < n = (counts 0).1 (subst (Before cs r.upper) (sym (edge_0 r.lower cs)) ahead) in
    omega (arith, ap pos_part e)

bound-pos : (base : ℕ → ℕ) (n : ℕ) → ((d : ℕ) → d < n → 0 < base d) → 0 < bound base n
bound-pos base zero h = omega arith
bound-pos base (suc n) h =
    grind (arith, bound-pos base n (λ d lt. h d (omega arith)), h n (omega arith))

-- What a loop's start relies on: the sizes are at least 1, and no group is empty.
pub record IsEnv (env : Env) : Type 0 where
  pub default : pos 0 <ℤ env.g_concurrency_default
  pub kernel : pos 0 <ℤ env.kernel_concurrency
  pub current : (e : Egroup) → env.current_egroup ≡ some e → 0 < e.cur_size

abbrev pub IsInhabited : Option Egroup → Type 0
IsInhabited none = Unit
IsInhabited (some egroup) = 0 < egroup.cur_size

abbrev pub FitsEgroup : Option Egroup → ℤ → Type 0
FitsEgroup none num_threads = Unit
FitsEgroup (some egroup) num_threads = num_threads ≤ℤ pos egroup.cur_size

kupl_min_parts :
    (a b : ℤ)
    → pos 0 <ℤ a
    → pos 0 <ℤ b
    → (pos 0 <ℤ kupl_min a b) × (kupl_min a b ≤ℤ a) × (kupl_min a b ≤ℤ b)
kupl_min_parts a b p q = (ground arith, ground arith, ground arith)

by_egroup-fits :
    (e : Option Egroup) (k : ℤ)
    → IsInhabited e
    → pos 0 <ℤ k
    → (pos 0 <ℤ by_egroup e k) × (by_egroup e k ≤ℤ k) × FitsEgroup e (by_egroup e k)
by_egroup-fits none k h p = (p, omega arith, tt)
by_egroup-fits (some e) k h p = kupl_min_parts k (pos e.cur_size) p (omega arith)

FitsEgroup-le : (e : Option Egroup) (k k' : ℤ) → k' ≤ℤ k → FitsEgroup e k → FitsEgroup e k'
FitsEgroup-le none k k' h f = tt
FitsEgroup-le (some e) k k' h f = omega arith

-- For a range whose dimensions passed the check, a concurrency and a kernel concurrency of at
-- least 1 and a group that is absent or not empty: the number of threads is at least 1 and at
-- most the number of chunks that `kupl_calc_chunk_info` counts, the concurrency, the kernel
-- concurrency and the size of the group.
pub kupl_parallel_for_num_threads-bounds :
    (env : Env) (desc : Desc) (egroup : Option Egroup) (pf : Pf) (n : ℕ)
    → IsGrid pf n
    → desc.range ≡ some pf.range
    → IsInhabited egroup
    → pos 0 <ℤ desc.concurrency
    → pos 0 <ℤ env.kernel_concurrency
    → let num_threads = kupl_parallel_for_num_threads env desc egroup in
      (pos 0 <ℤ num_threads)
      × (num_threads ≤ℤ (kupl_calc_chunk_info pf).total_chunks)
      × (num_threads ≤ℤ desc.concurrency)
      × (num_threads ≤ℤ env.kernel_concurrency)
      × FitsEgroup egroup num_threads
unfolding kupl_parallel_for_num_threads
kupl_parallel_for_num_threads-bounds env desc egroup pf n g e h p q =
    let total = (kupl_calc_chunk_info pf).total_chunks in
    let some_total : pos 0 <ℤ total = rw ((kupl_calc_chunk_info-grid pf n g).1) (
      omega (
        arith,
        bound-pos (chunks_in pf.range) n (λ d lt. some_chunks (range_at pf.range d) (g.loops d lt)),
      )) in
    let (pos_min, le_c, le_t) = kupl_min_parts desc.concurrency total p some_total in
    let (pos_e, le_m, fits) = by_egroup-fits egroup (kupl_min desc.concurrency total) h pos_min in
    let (pos_k, le_e, le_k) =
      kupl_min_parts (by_egroup egroup (kupl_min desc.concurrency total)) env.kernel_concurrency
        pos_e q in
    rw (e, total_of_grid pf n g)
      (pos_k, omega arith, omega arith, le_k, FitsEgroup-le egroup _ _ le_e fits)
