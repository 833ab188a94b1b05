-- ===== src/Memory/Normal/Free.antt =====
-- `kupl_normal_free` on a buffer of this executor keeps the memory sound.
use kupl.Prelude.{
  ℕ, suc, ◌+◌, ◌-◌, ◌≡◌, sym, ap, ◌∙◌, subst, arith, inl, inr, ◌&&◌, not, if_cases, update, ◌==◌,
  if◌then◌else◌, ltb, ltb→lt, ◌%◌, ◌^◌, update_same, ◌∷◌,
}
use kupl.Prelude.Int.{ℤ, pos, negsuc, pos_part, ltb_ℤ, neg_ℤ}
use kupl.Memory.{sizeof_buffer_desc, kupl_mem_bins_threshold}
use kupl.Memory.Normal.{
  NormalHeap, to_size, with_desc, kupl_normal_sync_list_enqueue, coalesce, release,
  kupl_normal_free, kupl_normal_insert_into_freelist,
}
use kupl.Memory.Normal.Invariant.{Map, width, IsBuffer, Layout-same, IsMarked-same}
use kupl.Memory.Normal.Invariant.Shape.{
  update_ne, true-ne-false, flip-Layout, flip-IsMarked, ends_once,
}
use kupl.Memory.Normal.Sound.{
  sizes, prevs, free_of, IsSound, IsOpen, Keeps, insert-IsSound, insert-Keeps,
}
use kupl.Memory.Normal.Coalesce.{coalesce-IsSound}

-- The memory is sound, and the buffers in use but `a` are as before.
abbrev Freed : Map → NormalHeap → ℕ → NormalHeap → Type 0
Freed m h a h' = (m' : Map) × IsSound m' h' × Keeps m h m' h' a

-- A buffer in use comes back.
module _ (m : Map) (h : NormalHeap) (w : IsSound m h) (a n : ℕ) (p : IsBuffer m a)
    (used : (h.descs a).total_size ≡ negsuc n) where
  abbrev returned : NormalHeap
  returned = with_desc h a (record (h.descs a) { total_size = neg_ℤ (h.descs a).total_size })

  neg_is : neg_ℤ (h.descs a).total_size ≡ pos (suc n)
  neg_is = rw used (ground arith)

  wide : width (neg_ℤ (h.descs a).total_size) ≡ width (h.descs a).total_size
  wide = omega (arith, ap width neg_is, ap width used)

  returned-size :
      (c : ℕ)
      → update (sizes h.descs) a (neg_ℤ (h.descs a).total_size) c ≡ (returned.descs c).total_size
  returned-size c = ground arith

  returned-prev : (c : ℕ) → (h.descs c).prev_free ≡ (returned.descs c).prev_free
  returned-prev c = ground arith

  -- The buffer was in use, so the one after it was told of nothing.
  untold : (h.descs (a + suc n)).prev_free ≡ 0
  untold =
      let end : a + width (h.descs a).total_size ≡ a + suc n = omega (arith, ap width used) in
      elim (w.marks (a + suc n) (ap m.starts (sym end) ∙ w.layout.next_starts a p)) [
        | inl z ↦ z
        | inr f ↦
            let same =
              ends_once m (sizes h.descs) w.layout a f.at p f.is_buffer
                (omega (arith, end, f.meets, ap width f.is_free)) in
            cc (ap (sizes h.descs) same, used, f.is_free)
      ]

  returned-IsOpen : IsOpen m returned a
  returned-IsOpen = record {
    layout =
        Layout-same m (update (sizes h.descs) a (neg_ℤ (h.descs a).total_size))
          (sizes returned.descs) (λ c s. returned-size c)
          (flip-Layout m (sizes h.descs) w.layout a (neg_ℤ (h.descs a).total_size) p wide);
    marks =
        IsMarked-same m (update (sizes h.descs) a (neg_ℤ (h.descs a).total_size))
          (sizes returned.descs) (λ c s. returned-size c) (prevs h.descs) (prevs returned.descs)
          (λ c s. returned-prev c)
          (flip-IsMarked m (sizes h.descs) w.layout a (neg_ℤ (h.descs a).total_size) p wide
            (prevs h.descs) (ap (prevs h.descs) (omega (arith, ap width used)) ∙ untold) w.marks);
    buffer = p;
    bytes = suc n;
    free =
        sym (returned-size a)
        ∙ update_same (sizes h.descs) a (neg_ℤ (h.descs a).total_size)
        ∙ neg_is;
    lists = λ c. w.lists c ∙ returned_free c;
  }
    where
      returned_free :
          (c : ℕ) → free_of m (sizes h.descs) c ≡ update (free_of m (sizes returned.descs)) a 0 c
      returned_free c = ground (arith, returned-size c, used)

  others : Keeps m h m returned a
  others c i n1 q e = (
    q,
    sym (returned-size c) ∙ update_ne (sizes h.descs) a c (neg_ℤ (h.descs a).total_size) n1 ∙ e,
  )

  release-IsSound : Freed m h a (release h a)
  unfolding release returned-IsOpen
  release-IsSound =
      let index = pos_part (h.descs a).mem_bin_index in
      if_cases (Freed m h a) (ltb (h.mem.mem_bins_count index) kupl_mem_bins_threshold)
        (kupl_normal_insert_into_freelist returned a) (coalesce returned a index)
        (λ few. (
          m,
          insert-IsSound m returned a returned-IsOpen,
          λ c i n1 q e.
              let (q', e') = others c i n1 q e in
              insert-Keeps m returned a returned-IsOpen a c i n1 q' e',
        ))
        (λ many.
          let (m', sound, keep) =
            coalesce-IsSound m returned a index returned-IsOpen
              (sym (returned-prev (a + suc n)) ∙ untold) in
          (m', sound, λ c i n1 q e. let (q', e') = others c i n1 q e in keep c i q' e'))

-- Only the count of references changes.
abbrev pub counted : NormalHeap → ℕ → ℕ → NormalHeap
counted h a r = with_desc h a (record (h.descs a) { ref = r })

module _ (m : Map) (h : NormalHeap) (a r : ℕ) where
  counted-size : (c : ℕ) → (h.descs c).total_size ≡ ((counted h a r).descs c).total_size
  counted-size c = ground arith

  counted-prev : (c : ℕ) → (h.descs c).prev_free ≡ ((counted h a r).descs c).prev_free
  counted-prev c = ground arith

  counted-IsSound : IsSound m h → IsSound m (counted h a r)
  counted-IsSound w = record {
    layout =
        Layout-same m (sizes h.descs) (sizes (counted h a r).descs) (λ c s. counted-size c)
          w.layout;
    marks =
        IsMarked-same m (sizes h.descs) (sizes (counted h a r).descs) (λ c s. counted-size c)
          (prevs h.descs) (prevs (counted h a r).descs) (λ c s. counted-prev c) w.marks;
    lists = λ c.
        w.lists c ∙ ap (λ (z : ℤ). if m.starts c && ltb_ℤ (pos 0) z then 1 else 0) (counted-size c);
  }

  counted-desc : (counted h a r).descs a ≡ record (h.descs a) { ref = r }
  counted-desc = update_same h.descs a (record (h.descs a) { ref = r })

-- The call, at the address of the descriptor.
abbrev pub free_at : NormalHeap → ℕ → ℕ → NormalHeap
free_at h ptr a =
    let desc = h.descs a in
    let ref = (desc.ref + 2 ^ 16 - 1) % 2 ^ 16 in
    let h1 = counted h a ref in
    if ltb 0 ref
    then h1
    else if ltb_ℤ desc.mem_bin_index (pos 0)
    then record h1 { unmapped = (a, to_size desc.total_size) ∷ h.unmapped }
    else if not (desc.eid == h.mem.eid)
    then kupl_normal_sync_list_enqueue h1 desc.eid ptr
    else release h1 a

pub free_at-eq :
    (h : NormalHeap) (a : ℕ)
    → kupl_normal_free h (a + sizeof_buffer_desc) ≡ free_at h (a + sizeof_buffer_desc) a
unfolding kupl_normal_free
free_at-eq h a = ap (free_at h (a + sizeof_buffer_desc)) (omega arith)

-- For a sound memory and a buffer in use from a chunk of the calling executor, with one
-- reference: freeing it leaves the memory sound, whether the buffer is only listed, joined
-- with its neighbours or unmapped with its chunk, and all other buffers in use stay as they
-- are.
pub kupl_normal_free-IsSound :
    (m : Map) (h : NormalHeap) (a n bin : ℕ)
    → IsSound m h
    → IsBuffer m a
    → (h.descs a).total_size ≡ negsuc n
    → (h.descs a).ref ≡ 1
    → (h.descs a).mem_bin_index ≡ pos bin
    → (h.descs a).eid ≡ h.mem.eid
    → (m' : Map) × IsSound m' (kupl_normal_free h (a + sizeof_buffer_desc))
      × Keeps m h m' (kupl_normal_free h (a + sizeof_buffer_desc)) a
kupl_normal_free-IsSound m h a n bin w p used once listed_in own =
    let ref = ((h.descs a).ref + 2 ^ 16 - 1) % 2 ^ 16 in
    let zero_ref : ref ≡ 0 = omega arith in
    let h1 = counted h a ref in
    let (m', sound, keep) =
      release-IsSound m h1 (counted-IsSound m h a ref w) a n p
        (sym (counted-size m h a ref a) ∙ used) in
    let released : Freed m h a (release h1 a) =
      (m', sound, λ c i n1 q e. keep c i n1 q (sym (counted-size m h a ref c) ∙ e)) in
    subst (Freed m h a) (sym (free_at-eq h a)) (
      if_cases (Freed m h a) (ltb 0 ref) h1 _ (λ more. absurd (omega (arith, ltb→lt 0 ref more)))
        (λ last.
          if_cases (Freed m h a) (ltb_ℤ (h.descs a).mem_bin_index (pos 0)) _ _
            (λ direct. absurd (true-ne-false direct (rw listed_in (ground arith))))
            (λ pooled.
              if_cases (Freed m h a) (not ((h.descs a).eid == h.mem.eid)) _ (release h1 a)
                (λ foreign. absurd (true-ne-false foreign (ground arith))) (λ mine. released))))
