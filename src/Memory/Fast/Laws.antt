-- ===== src/Memory/Fast/Laws.antt =====
-- A buffer that its executor frees is the next one given.
use kupl.Prelude.{
  ℕ, ◌-◌, ◌≤◌, ◌==◌, ◌≡◌, refl, ap, ◌∙◌, arith, Bool, true, false, ltb, ltb→lt, if_cases, ◌∷◌,
  Option, none, some, update, update_same,
}
use kupl.Prelude.Int.{ℤ, pos, pos_part, ltb_ℤ}
use kupl.Memory.{fast_bin_size, fast_bins_count}
use kupl.Memory.Fast.{
  FastCache, FastPool, Allocated, bins_of, with_bin, class_of, take_fast, kupl_fast_alloc,
  kupl_fast_free, kupl_get_memory_from_normal_memory,
}

-- A buffer of this executor and of the class of `size`.
module _ (p : FastPool) (ptr size : ℕ) (small : size ≤ fast_bin_size (fast_bins_count - 1))
    (classed : (p.fast_descs ptr).fast_bin_index ≡ pos (class_of size))
    (own : (p.fast_descs ptr).eid ≡ p.heap.mem.eid) where
  abbrev eid : ℕ
  eid = p.heap.mem.eid

  abbrev index : ℕ
  index = class_of size

  abbrev put : FastPool
  put = with_bin p eid index (record (bins_of p index) { self = ptr ∷ (bins_of p index).self })

  put_at : ℕ → FastPool
  put_at i = with_bin p eid i (record (bins_of p i) { self = ptr ∷ (bins_of p i).self })

  freed : kupl_fast_free p ptr ≡ put
  unfolding kupl_fast_free put_at
  freed =
      if_cases (λ (q : FastPool). q ≡ put) (ltb_ℤ (p.fast_descs ptr).fast_bin_index (pos 0)) _ _
        (λ large.
          let z : ltb_ℤ (p.fast_descs ptr).fast_bin_index (pos 0) ≡ false =
            rw classed (ground arith) in
          cc)
        (λ pooled.
          if_cases (λ (q : FastPool). q ≡ put) ((p.fast_descs ptr).eid == eid) _ _
            (λ mine. ap (λ (z : ℤ). put_at (pos_part z)) classed)
            (λ foreign. let z : ((p.fast_descs ptr).eid == eid) ≡ true = ground (arith, own) in cc))

  put_bin : bins_of put index ≡ record (bins_of p index) { self = ptr ∷ (bins_of p index).self }
  put_bin =
      let cache = record (bins_of p index) { self = ptr ∷ (bins_of p index).self } in
      ap (λ (f : ℕ → FastCache). f index)
        (update_same p.fast_bins eid (update (p.fast_bins eid) index cache))
      ∙ update_same (p.fast_bins eid) index cache

  -- Where the lists of a class end up.
  abbrev back : FastPool
  back = with_bin put eid index (bins_of p index)

  found : take_fast (bins_of put index) ≡ some (bins_of p index, ptr)
  unfolding take_fast
  found = ap take_fast put_bin

  abbrev answer : ℕ → Bool → Option ℕ → Option ℕ → Option (FastCache × ℕ) → Allocated
  answer align win direct map o = elim o [
    | some (c, q) ↦ (some (with_bin put eid index c, some q), align)
    | none ↦ kupl_get_memory_from_normal_memory put (fast_bin_size index) index align win direct map
  ]

  back_as_before : (e i : ℕ) → back.fast_bins e i ≡ p.fast_bins e i
  back_as_before e i = ground arith

  alloc_again :
      (align : ℕ) (win : Bool) (direct map : Option ℕ)
      → kupl_fast_alloc put align size win direct map ≡ (some (back, some ptr), align)
  unfolding kupl_fast_alloc
  alloc_again align win direct map =
      if_cases (λ (o : Allocated). o ≡ (some (back, some ptr), align))
        (ltb (fast_bin_size (fast_bins_count - 1)) size) _ _
        (λ large. absurd (omega (arith, ltb→lt (fast_bin_size (fast_bins_count - 1)) size large)))
        (λ fits. ap (answer align win direct map) found)

  -- For a buffer of the calling executor and of the class of a size that has one: after it is
  -- freed, an allocation of that size gives the same buffer, and the pool is as it was before
  -- both.
  pub kupl_fast_alloc-free :
      (align : ℕ) (win : Bool) (direct map : Option ℕ)
      → (q : FastPool) × (kupl_fast_alloc (kupl_fast_free p ptr) align size win direct map
          ≡ (some (q, some ptr), align))
        × (q.heap ≡ p.heap)
        × (q.fast_descs ≡ p.fast_descs)
        × ((e i : ℕ) → q.fast_bins e i ≡ p.fast_bins e i)
  kupl_fast_alloc-free align win direct map = (
    back,
    ap (λ (x : FastPool). kupl_fast_alloc x align size win direct map) freed
        ∙ alloc_again align win direct map,
    refl,
    refl,
    back_as_before,
  )
