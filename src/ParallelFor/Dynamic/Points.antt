-- ===== src/ParallelFor/Dynamic/Points.antt =====
-- The chunks' pieces cut the whole range: each point of it lies in exactly one.
use native.Mathlib.Nat.{div-add-mod', mod-lt}
use kupl.Prelude.{ℕ, suc, ◌*◌, ◌/◌, ◌≤◌, ◌<◌, ◌≡◌, sym, ap, subst, ◌∙◌, ◌≢◌, get_or, arith}
use kupl.Prelude.Int.{ℤ, pos, negsuc, pos_part, ◌*ℤ◌, *-pos-parts, eq_of_parts}
use kupl.ParallelFor.Range.{Range, Chunk, Pf, range_at, no_range, calc_chunk, kupl_calc_chunk_info}
use kupl.ParallelFor.Digits.{digit, bound, number, number-lt, gather, digit-number, digit_eq}
use kupl.ParallelFor.Partition.{pieces_unique}
use kupl.ParallelFor.Edge.{Before, Visits, edge, edge_parts, edge-injective}
use kupl.ParallelFor.Count.{IsLoop, calc_chunk-Counts, Before-product}
use kupl.ParallelFor.Grid.{IsGrid, chunks_in, chunks_in_lem, kupl_calc_chunk_info-grid}
use kupl.ParallelFor.Dynamic.{chunk_piece, chunk_pieces, kupl_compute_chunk_range}
use kupl.ParallelFor.Dynamic.Pieces.{chunk_pieces-at, Visits-chunk_piece, size}

mul_le_right : (a b c : ℕ) → a ≤ b → a * c ≤ b * c
mul_le_right a b c h = grind arith

Before-mono :
    (l s u : ℤ) (i j : ℕ) → i ≤ j → s ≢ pos 0 → Before s u (edge l s j) → Before s u (edge l s i)
Before-mono l (pos s) u i j h m be = omega (arith, edge_parts l (pos s), mul_le_right i j s h, be)
Before-mono l (negsuc s) u i j h m be =
    omega (arith, edge_parts l (negsuc s), mul_le_right i j (suc s) h, be)

edge_product : (l s : ℤ) (b k : ℕ) → edge l (s *ℤ pos b) k ≡ edge l s (k * b)
edge_product l s b k = eq_of_parts _ _ (
    omega (
      arith,
      edge_parts l (s *ℤ pos b) k,
      edge_parts l s (k * b),
      ap (λ p. k * p) (*-pos-parts s b).0,
      ap (λ p. k * p) (*-pos-parts s b).1,
    ))

-- One dimension.
module _ (r : Range) (v : IsLoop r) where
  abbrev block : ℕ
  block = pos_part r.blocksize

  edge_of_size : (k : ℕ) → edge r.lower (calc_chunk r).chunksize k ≡ edge r.lower r.step (k * block)
  edge_of_size k = rw (size r v) (edge_product r.lower r.step block k)

  chunk-Before :
      (k j : ℕ)
      → k * block ≤ j
      → Before r.step r.upper (edge r.lower r.step j)
      → k < pos_part (calc_chunk r).chunks
  chunk-Before k j h be =
      let (n, e, counts) = calc_chunk-Counts r v in
      let near = Before-mono r.lower r.step r.upper (k * block) j h v.moves be in
      let scaled =
        (Before-product r.step (pos block) r.upper (edge r.lower r.step (k * block))
          (omega (arith, v.blocks)) v.moves near).0 in
      let inside : Before (calc_chunk r).chunksize r.upper
          (edge r.lower (calc_chunk r).chunksize k) =
        rw (edge_of_size k) (rw (size r v) scaled) in
      omega (arith, (counts k).1 inside, ap pos_part e)

  block_of :
      (x : ℤ)
      → Visits r x
      → (k : ℕ) × (k < pos_part (calc_chunk r).chunks)
        × Visits (chunk_piece r (calc_chunk r) (pos k) r) x
  block_of x (j, e, be) =
      let at = subst (Before r.step r.upper) e be in
      let k = j / block in
      let lo : k * block ≤ j = omega (arith, div-add-mod' j block) in
      let hi : j < suc k * block =
        omega (arith, div-add-mod' j block, mod-lt j {m = block} (omega (arith, v.blocks))) in
      (k, chunk-Before k j lo at, (Visits-chunk_piece r v k x).1 (j, e, be, lo, hi))

  blocks_unique :
      (k k' : ℕ) (x : ℤ)
      → Visits (chunk_piece r (calc_chunk r) (pos k) r) x
      → Visits (chunk_piece r (calc_chunk r) (pos k') r) x
      → k ≡ k'
  blocks_unique k k' x h h' =
      let (j, e, be, lo, hi) = (Visits-chunk_piece r v k x).0 h in
      let (j', e', be', lo', hi') = (Visits-chunk_piece r v k' x).0 h' in
      let same = edge-injective r.lower r.step j j' v.moves (sym e ∙ e') in
      pieces_unique (λ t. t * block) (λ t. omega arith) k k' j lo hi (omega arith) (omega arith)

-- All dimensions at once. `xs` gives the point's coordinates.
abbrev pub VisitsAll : (ℕ → Range) → ℕ → (ℕ → ℤ) → Type 0
VisitsAll ranges n xs = (d : ℕ) → d < n → Visits (ranges d) (xs d)

-- What `kupl_dynamic_policy_impl` hands to the loop body for a chunk: its range starts as a copy of
-- the whole.
abbrev pub chunk_range : Pf → ℕ → ℕ → Range
chunk_range pf m d =
    range_at (kupl_compute_chunk_range pf.range (kupl_calc_chunk_info pf) (pos m)) d

module _ (pf : Pf) (n : ℕ) (g : IsGrid pf n) where
  abbrev base : ℕ → ℕ
  base = chunks_in pf.range

  chunk_range-piece :
      (m d : ℕ)
      → d < n
      → chunk_range pf m d
        ≡ chunk_piece
            (range_at pf.range d)
            (calc_chunk (range_at pf.range d))
            (pos (digit base n m d))
            (range_at pf.range d)
  unfolding kupl_compute_chunk_range kupl_calc_chunk_info
  chunk_range-piece m d lt =
      let (at, total) = kupl_calc_chunk_info-grid pf n g in
      ap
        (λ e.
          get_or (chunk_pieces (kupl_calc_chunk_info pf) e (pos m) pf.range.nd_range) d no_range)
        (ap pos_part g.dim)
      ∙ chunk_pieces-at (kupl_calc_chunk_info pf) base n m pf.range.nd_range d
          (λ e le. ap (λ (c : Chunk). c.chunks) (at e le) ∙ chunks_in_lem pf.range e (g.loops e le))
          g.ranges lt
      ∙ ap (λ c. chunk_piece (range_at pf.range d) c (pos (digit base n m d)) (range_at pf.range d))
          (at d lt)

  abbrev Whole : (ℕ → ℤ) → Type 0
  Whole = VisitsAll (range_at pf.range) n

  -- For a range whose dimensions passed the check: every point of the range lies in the piece
  -- that `kupl_compute_chunk_range` computes for some chunk.
  pub some_chunk :
      (xs : ℕ → ℤ) → Whole xs → (m : ℕ) × (m < bound base n) × VisitsAll (chunk_range pf m) n xs
  some_chunk xs h =
      let (k, here) =
        gather n
          (λ d k.
            (k < base d)
            × Visits
                (chunk_piece (range_at pf.range d) (calc_chunk (range_at pf.range d)) (pos k)
                  (range_at pf.range d))
                (xs d))
          (λ d lt.
            let (k, small, vis) = block_of (range_at pf.range d) (g.loops d lt) (xs d) (h d lt) in
            (k, (small, vis))) in
      (
        number base n k,
        number-lt base n k (λ d lt. (here d lt).0),
        λ d lt.
            rw
              (
                chunk_range-piece (number base n k) d lt,
                digit-number base n k (λ d' lt'. (here d' lt').0) d lt,
              )
              (here d lt).1,
      )

  -- For a range whose dimensions passed the check: no point lies in the pieces of two chunks.
  pub one_chunk :
      (m m' : ℕ) (xs : ℕ → ℤ)
      → m < bound base n
      → m' < bound base n
      → VisitsAll (chunk_range pf m) n xs
      → VisitsAll (chunk_range pf m') n xs
      → m ≡ m'
  one_chunk m m' xs lt lt' h h' = digit_eq base n m m' lt lt' (λ d ld.
      blocks_unique (range_at pf.range d) (g.loops d ld) (digit base n m d) (digit base n m' d)
        (xs d) (subst (λ p. Visits p (xs d)) (chunk_range-piece m d ld) (h d ld))
        (subst (λ p. Visits p (xs d)) (chunk_range-piece m' d ld) (h' d ld)))

  -- For a range whose dimensions passed the check: every point in the piece of a chunk is a
  -- point of the range.
  pub chunk_within : (m : ℕ) (xs : ℕ → ℤ) → VisitsAll (chunk_range pf m) n xs → Whole xs
  chunk_within m xs h d lt =
      let (k, e, be, _, _) =
        (Visits-chunk_piece (range_at pf.range d) (g.loops d lt) (digit base n m d) (xs d)).0
          (subst (λ p. Visits p (xs d)) (chunk_range-piece m d lt) (h d lt)) in
      (k, e, be)
