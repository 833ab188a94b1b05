-- ===== src/Memory/Normal/Merge.antt =====
-- The joins of `kupl_normal_free`, and the chunk that goes back to the system.
use kupl.Prelude.{ℕ, ◌+◌, ◌≡◌, ◌≢◌, sym, ap, ◌∙◌, arith, false, update, update_same}
use kupl.Prelude.Int.{ℤ, pos, negsuc, ◌+ℤ◌}
use kupl.Memory.Normal.{NormalHeap}
use kupl.Memory.Normal.Invariant.{
  Map, width, IsBuffer, IsMarked, Layout, Layout-same, IsMarked-same,
}
use kupl.Memory.Normal.Invariant.Shape.{update_ne}
use kupl.Memory.Normal.Invariant.Join.{joined_map, join-Layout, join-IsMarked, still}
use kupl.Memory.Normal.Invariant.Listed.{AreListed}
use kupl.Memory.Normal.Sound.{sizes, prevs, free_of, IsOpen}

-- Two free buffers in a row, in no list any more.
module _ (m : Map) (h : NormalHeap) (layout : Layout m (sizes h.descs)) (a b n k : ℕ)
    (p : IsBuffer m a) (q : IsBuffer m b) (free : (h.descs a).total_size ≡ pos n)
    (free' : (h.descs b).total_size ≡ pos k) (meet : a + n ≡ b) where
  abbrev size : ℕ → ℤ
  size = sizes h.descs

  abbrev sum : ℤ
  sum = (h.descs a).total_size +ℤ (h.descs b).total_size

  pub sum_is : sum ≡ pos (n + k)
  unfolding ◌+ℤ◌
  sum_is = rw (free, free') (ground arith)

  pub meet-width : a + width (size a) ≡ b
  meet-width = omega (arith, meet, ap width free)

  pub sum-width : width sum ≡ width (size a) + width (size b)
  sum-width = omega (arith, ap width sum_is, ap width free, ap width free')

  abbrev pub merged_map : Map
  merged_map = joined_map m size layout a b sum p q meet-width sum-width

  pub merged_free :
      (c : ℕ)
      → update (update (free_of m size) a 0) b 0 c
        ≡ update (free_of merged_map (update size a sum)) a 0 c
  merged_free c = ground arith

  merged_at : (x y : ℕ) → x ≡ y → merged_map.starts x ≡ false → merged_map.starts y ≡ false
  merged_at x y e s = ap merged_map.starts (sym e) ∙ s

  pub a_still : IsBuffer merged_map a
  a_still = (
    still m size layout a b sum p q meet-width sum-width a
        (λ e. absurd (omega (arith, layout.some_width a p, ap width free))) p.0,
    p.1,
  )

  -- The buffers in use stay.
  pub merged-kept :
      (c i : ℕ)
      → IsBuffer m c
      → size c ≡ negsuc i
      → IsBuffer merged_map c × (update size a sum c ≡ negsuc i)
  merged-kept c i r e =
      let n1 : a ≢ c = λ here. cc (ap size here) in
      let n2 : b ≢ c = λ here. cc (ap size here) in
      (
        (still m size layout a b sum p q meet-width sum-width c n2 r.0, r.1),
        update_ne size a c sum n1 ∙ e,
      )

  module _ (h' : NormalHeap) (same_size : (c : ℕ) → update size a sum c ≡ (h'.descs c).total_size)
      (lists : AreListed (update (update (free_of m size) a 0) b 0) h'.mem.mem_bins) where
    pub merged-IsOpen :
        (prev : ℕ → ℕ)
        → prev (a + (n + k)) ≡ 0
        → IsMarked m size prev
        → (prev' : ℕ → ℕ) → ((c : ℕ) → prev' c ≡ (h'.descs c).prev_free)
        → (IsMarked merged_map (update size a sum) prev
            → IsMarked merged_map (update size a sum) prev')
        → IsOpen merged_map h' a
    merged-IsOpen prev untold marks prev' same_prev further = record {
      layout =
          Layout-same merged_map (update size a sum) (sizes h'.descs) (λ c s. same_size c)
            (join-Layout m size layout a b sum p q meet-width sum-width);
      marks =
          IsMarked-same merged_map (update size a sum) (sizes h'.descs) (λ c s. same_size c) prev'
            (prevs h'.descs) (λ c s. same_prev c)
            (further (
              join-IsMarked m size layout a b sum p q meet-width sum-width prev
                (ap prev (omega (arith, meet, ap width free')) ∙ untold) marks));
      buffer = a_still;
      bytes = n + k;
      free = sym (same_size a) ∙ update_same size a sum ∙ sum_is;
      lists = λ c. lists c ∙ merged_free c ∙ free_again c;
    }
      where
        free_again :
            (c : ℕ)
            → update (free_of merged_map (update size a sum)) a 0 c
              ≡ update (free_of merged_map (sizes h'.descs)) a 0 c
        free_again c = ground (arith, same_size c)
