-- ===== src/ParallelFor/Static/Cover.antt =====
-- The static policy gives every iteration of the range to exactly one thread.

use kupl.Prelude.{
  length, get_or, set, get_or-set_self, ℕ, suc, ◌<◌, ◌≡◌, refl, sym, ◌∙◌, ◌≢◌, ◌↔◌, arith, subst,
  List,
}
use kupl.Prelude.Int.{ℤ, pos}
use kupl.ParallelFor.Range.{
  no_range, Range, NdRange, Pf, calc_chunk, range_at, kupl_calc_chunk_info,
}
use kupl.ParallelFor.Partition.{share, share-grows, share_all, locate, pieces_unique}
use kupl.ParallelFor.Edge.{Before, Visits, edge, edge-injective}
use kupl.ParallelFor.Count.{IsLoop, Counts, calc_chunk-Counts}
use kupl.ParallelFor.OneDim.{IsOneDim, calc_one_dim, chunk_of_step}
use kupl.ParallelFor.Static.Piece.{Between, Visits-piece}
use kupl.ParallelFor.Static.{static_piece, kupl_static_policy_impl}

-- Cutting a range at the shares of its chunks gives each iteration to one thread.
module _ (r : Range) (n tnum : ℕ) (m : r.step ≢ pos 0) (p : 0 < tnum)
    (counts : (k : ℕ) → (k < n) ↔ Before r.step r.upper (edge r.lower r.step k)) where
  abbrev Part : ℕ → ℤ → Type 0
  Part t = Between r (share n tnum t) (share n tnum (suc t))

  Part-of : (x : ℤ) → Visits r x → (t : ℕ) × (t < tnum) × Part t x
  Part-of x (k, e, be) =
      let below : k < share n tnum tnum =
        rw (share_all n tnum p) ((counts k).1 (subst (Before r.step r.upper) e be)) in
      let (t, lt, lo, hi) = locate (share n tnum) (omega arith) tnum k below in
      (t, lt, (k, e, be, lo, hi))

  parts_unique : (t u : ℕ) (x : ℤ) → Part t x → Part u x → u ≡ t
  parts_unique t u x (k, e, be, lo, hi) (k', e', be', lo', hi') =
      let same : k' ≡ k = edge-injective r.lower r.step k' k m (sym e' ∙ e) in
      pieces_unique (share n tnum) (share-grows n tnum) u t k' lo' hi' (omega arith) (omega arith)

-- What the policy runs in thread `t`, over the chunk information of `kupl_calc_chunk_info`.
abbrev pub thread_range : Pf → NdRange → ℕ → ℕ → Range
thread_range pf prev tnum t =
    range_at (kupl_static_policy_impl prev (kupl_calc_chunk_info pf) t tnum) 0

set_first : (rs : List Range) (p : Range) → 0 < length rs → get_or (set rs 0 p) 0 no_range ≡ p
set_first rs p h = get_or-set_self rs 0 p no_range h

module _ (pf : Pf) (prev : NdRange) (tnum : ℕ) (o : IsOneDim pf) (v : IsLoop (range_at pf.range 0))
    (b : (range_at pf.range 0).blocksize ≡ pos 1) (room : 0 < length prev.nd_range) where
  abbrev r : Range
  r = range_at pf.range 0

  counted : Counts r.step r.lower r.upper (calc_chunk r).chunks
  counted =
      subst (λ s. Counts s r.lower r.upper (calc_chunk r).chunks) (chunk_of_step r b)
        (calc_chunk-Counts r v)

  thread_range-piece :
      (t : ℕ)
      → thread_range pf prev tnum t ≡ static_piece r (calc_chunk r) (calc_chunk r).chunks t tnum
  unfolding kupl_static_policy_impl
  thread_range-piece t =
      let (same, first, total) = calc_one_dim pf o in
      set_first prev.nd_range _ room ∙ rw (same, first, total) refl

  Visits-thread :
      (t : ℕ) (x : ℤ)
      → Visits (thread_range pf prev tnum t) x
        ↔ Between r (share counted.0 tnum t) (share counted.0 tnum (suc t)) x
  Visits-thread t x = rw (thread_range-piece t) (
      Visits-piece r (calc_chunk r) (calc_chunk r).chunks counted.0 tnum t x v.moves
        (λ i. record { chunksize = chunk_of_step r b i; chunks = counted.1 i }) counted.1)

  -- For a range of one dimension that passed the check, with block size 1, and at least one
  -- thread: an iteration belongs to the range exactly if the static policy gives it to one of
  -- the threads.
  pub Visits-iff :
      (x : ℤ)
      → 0 < tnum
      → Visits r x ↔ ((t : ℕ) × (t < tnum) × Visits (thread_range pf prev tnum t) x)
  Visits-iff x p = (
    λ vis.
        let (t, lt, part) = Part-of r counted.0 tnum v.moves p counted.2 x vis in
        (t, lt, (Visits-thread t x).1 part),
    λ (t, lt, vis). let (k, e, be, _, _) = (Visits-thread t x).0 vis in (k, e, be),
  )

  -- For a range of one dimension that passed the check, with block size 1, and at least one
  -- thread: the static policy gives no iteration to two threads.
  pub Visits-once :
      (x : ℤ) (t u : ℕ)
      → 0 < tnum
      → Visits (thread_range pf prev tnum t) x
      → Visits (thread_range pf prev tnum u) x
      → t ≡ u
  Visits-once x t u p vt vu =
      parts_unique r counted.0 tnum v.moves p counted.2 u t x ((Visits-thread u x).0 vu)
        ((Visits-thread t x).0 vt)
