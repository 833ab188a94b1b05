-- ===== src/ParallelFor/Grid.antt =====
-- What `kupl_calc_chunk_info` leaves for a range of any number of dimensions.
use kupl.Prelude.{
  ℕ, zero, suc, ◌+◌, ◌*◌, ◌≤◌, ◌<◌, ◌≡◌, refl, sym, ap, ◌∙◌, List, [], ◌∷◌, length, take, get_or,
  arith,
}
use kupl.Prelude.Int.{ℤ, pos, pos_part, ◌*ℤ◌, *-pos-parts, eq_of_parts}
use kupl.ParallelFor.Range.{
  Range, NdRange, Chunk, Pf, range_at, chunk_at, no_range, no_chunk, calc_chunk, calc_chunks,
  kupl_calc_chunk_info,
}
use kupl.ParallelFor.Digits.{bound}
use kupl.ParallelFor.Count.{IsLoop, calc_chunk-Counts}

-- `n` dimensions, all within the arrays, each with a loop that runs.
pub record IsGrid (pf : Pf) (n : ℕ) : Type 0 where
  pub dim : pf.range.dim ≡ pos n
  pub ranges : n ≤ length pf.range.nd_range
  pub chunk_slots : n ≤ length pf.chunk_info
  pub loops : (d : ℕ) → d < n → IsLoop (range_at pf.range d)

-- The chunks of dimension `d`.
abbrev pub chunks_in : NdRange → ℕ → ℕ
chunks_in r d = pos_part (calc_chunk (range_at r d)).chunks

pub chunks_in_lem :
    (r : NdRange) (d : ℕ)
    → IsLoop (range_at r d)
    → (calc_chunk (range_at r d)).chunks ≡ pos (chunks_in r d)
chunks_in_lem r d v =
    let c = calc_chunk-Counts (range_at r d) v in c.1 ∙ ap pos (sym (ap pos_part c.1))

pub get_or-take :
    (n : ℕ) (rs : List Range) (d : ℕ) → d < n → get_or (take n rs) d no_range ≡ get_or rs d no_range
get_or-take zero rs d h = absurd (omega arith)
get_or-take (suc n) [] d h = refl
get_or-take (suc n) (r ∷ rs) zero h = refl
get_or-take (suc n) (r ∷ rs) (suc d) h = get_or-take n rs d (omega arith)

pub length-take_all : (n : ℕ) (rs : List Range) → n ≤ length rs → length (take n rs) ≡ n
length-take_all zero rs h = refl
length-take_all (suc n) [] h = absurd (omega arith)
length-take_all (suc n) (r ∷ rs) h = ap suc (length-take_all n rs (omega arith))

calc_chunks-at :
    (rs : List Range) (info : List Chunk) (t : ℤ) (d : ℕ)
    → d < length rs
    → length rs ≤ length info
    → get_or (calc_chunks rs info t).0 d no_chunk ≡ calc_chunk (get_or rs d no_range)
unfolding calc_chunks
calc_chunks-at [] info t d h room = absurd (omega arith)
calc_chunks-at (r ∷ rs) [] t d h room = absurd (omega arith)
calc_chunks-at (r ∷ rs) (c ∷ info) t zero h room = refl
calc_chunks-at (r ∷ rs) (c ∷ info) t (suc d) h room =
    calc_chunks-at rs info (t *ℤ (calc_chunk r).chunks) d (omega arith) (omega arith)

product_pos : (a b : ℕ) → pos a *ℤ pos b ≡ pos (a * b)
product_pos a b = eq_of_parts _ _ (omega (arith, *-pos-parts (pos a) b))

calc_chunks-total :
    (base : ℕ → ℕ) (i : ℕ) (rs : List Range) (info : List Chunk) (t : ℤ)
    → length rs ≤ length info
    → ((j : ℕ) → j < length rs → (calc_chunk (get_or rs j no_range)).chunks ≡ pos (base (i + j)))
    → t ≡ pos (bound base i)
    → (calc_chunks rs info t).1 ≡ pos (bound base (i + length rs))
unfolding calc_chunks
calc_chunks-total base i [] info t room h e = e ∙ ap (λ n. pos (bound base n)) (omega arith)
calc_chunks-total base i (r ∷ rs) [] t room h e = absurd (omega arith)
calc_chunks-total base i (r ∷ rs) (c ∷ info) t room h e =
    calc_chunks-total base (suc i) rs info (t *ℤ (calc_chunk r).chunks) (omega arith)
      (λ j lt. h (suc j) (omega arith) ∙ ap (λ n. pos (base n)) (omega arith))
      (rw (e, h 0 (omega arith), product_pos (bound base i) (base (i + 0)))
        (ap (λ n. pos (bound base i * base n)) (omega arith)))
    ∙ ap (λ n. pos (bound base n)) (omega arith)

-- Each dimension's chunks are counted, and the total is their product.
pub kupl_calc_chunk_info-grid :
    (pf : Pf) (n : ℕ)
    → IsGrid pf n
    → let done = kupl_calc_chunk_info pf in
      ((d : ℕ) → d < n → chunk_at done d ≡ calc_chunk (range_at pf.range d))
      × (done.total_chunks ≡ pos (bound (chunks_in pf.range) n))
unfolding kupl_calc_chunk_info
kupl_calc_chunk_info-grid pf n g =
    let all : length (take n pf.range.nd_range) ≡ n =
      length-take_all n pf.range.nd_range g.ranges in
    rw (g.dim) (
      λ d lt.
          calc_chunks-at (take n pf.range.nd_range) pf.chunk_info (pos 1) d (omega arith)
            (omega (arith, g.chunk_slots))
          ∙ ap calc_chunk (get_or-take n pf.range.nd_range d lt),
      calc_chunks-total (chunks_in pf.range) 0 (take n pf.range.nd_range) pf.chunk_info (pos 1)
            (omega (arith, g.chunk_slots))
            (λ j lt.
              ap (λ (r : Range). (calc_chunk r).chunks)
                (get_or-take n pf.range.nd_range j (omega arith))
              ∙ chunks_in_lem pf.range j (g.loops j (omega arith))
              ∙ ap (λ k. pos (chunks_in pf.range k)) (omega arith))
            refl
          ∙ ap (λ k. pos (bound (chunks_in pf.range) k)) (omega (arith, all)),
    )
