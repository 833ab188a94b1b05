-- ===== src/Memory/Normal/Foreign.antt =====
-- A buffer that another executor frees.
use kupl.Prelude.{
  ℕ, ◌+◌, ◌-◌, ◌%◌, ◌^◌, ◌==◌, ◌≡◌, ◌≢◌, refl, ap, ◌∙◌, arith, true, false, not, ltb, ltb→lt,
  if_cases, [], ◌∷◌, update,
}
use kupl.Prelude.Int.{pos, ltb_ℤ}
use kupl.Memory.{sizeof_buffer_desc}
use kupl.Memory.Normal.{
  NormalMemory, NormalHeap, kupl_normal_free, kupl_normal_sync_list_enqueue,
  kupl_normal_sync_list_dequeue, free_all,
}
use kupl.Memory.Normal.Free.{free_at-eq, counted}

module _ (h : NormalHeap) (a bin owner : ℕ) (once : (h.descs a).ref ≡ 1)
    (listed_in : (h.descs a).mem_bin_index ≡ pos bin) (owned : (h.descs a).eid ≡ owner)
    (foreign : owner ≢ h.mem.eid) where
  abbrev ptr : ℕ
  ptr = a + sizeof_buffer_desc

  abbrev sent : NormalHeap
  sent =
      kupl_normal_sync_list_enqueue (counted h a (((h.descs a).ref + 2 ^ 16 - 1) % 2 ^ 16))
        (h.descs a).eid ptr

  free_foreign : kupl_normal_free h ptr ≡ sent
  free_foreign =
      let ref = ((h.descs a).ref + 2 ^ 16 - 1) % 2 ^ 16 in
      let zero_ref : ref ≡ 0 = omega arith in
      free_at-eq h a
      ∙ if_cases (λ (x : NormalHeap). x ≡ sent) (ltb 0 ref) (counted h a ref) _
          (λ more. absurd (omega (arith, ltb→lt 0 ref more)))
          (λ last.
            if_cases (λ (x : NormalHeap). x ≡ sent) (ltb_ℤ (h.descs a).mem_bin_index (pos 0)) _ _
              (λ direct.
                let z : ltb_ℤ (h.descs a).mem_bin_index (pos 0) ≡ false =
                  rw listed_in (ground arith) in
                cc)
              (λ pooled.
                if_cases (λ (x : NormalHeap). x ≡ sent) (not ((h.descs a).eid == h.mem.eid)) sent _
                  (λ f. refl)
                  (λ mine.
                    let z : not ((h.descs a).eid == h.mem.eid) ≡ true =
                      ground (arith, owned, foreign) in
                    cc)))

  -- The owner takes the buffer off its list: the count of references is 0, and wraps.
  module _ (mem : NormalMemory) (its : mem.eid ≡ owner) (alone : h.sync owner ≡ []) where
    abbrev seen : NormalHeap
    seen = record sent { mem = mem }

    waits : seen.sync mem.eid ≡ ptr ∷ []
    unfolding kupl_normal_sync_list_enqueue
    waits = ground (arith, its, owned, alone)

    abbrev taken : NormalHeap
    taken = record seen { sync = update seen.sync mem.eid [] }

    dequeued : kupl_normal_sync_list_dequeue seen ≡ kupl_normal_free taken ptr
    unfolding kupl_normal_sync_list_dequeue free_all
    dequeued = ap (free_all taken) waits

    zero_left : (taken.descs a).ref ≡ 0
    unfolding kupl_normal_sync_list_enqueue
    zero_left = ground arith

    wrapped : kupl_normal_free taken ptr ≡ counted taken a (2 ^ 16 - 1)
    wrapped =
        let ref = ((taken.descs a).ref + 2 ^ 16 - 1) % 2 ^ 16 in
        let most : ref ≡ 2 ^ 16 - 1 = omega (arith, zero_left) in
        free_at-eq taken a
        ∙ if_cases (λ (x : NormalHeap). x ≡ counted taken a (2 ^ 16 - 1)) (ltb 0 ref)
            (counted taken a ref) _ (λ more. ap (counted taken a) most)
            (λ last. let z : ltb 0 ref ≡ true = ground (arith, most) in cc)

    abbrev at_end : NormalHeap
    at_end = kupl_normal_sync_list_dequeue (record (kupl_normal_free h ptr) { mem = mem })

    -- For a buffer from a chunk, with one reference, whose owner has no returned buffers waiting:
    -- after another executor frees it and the owner takes it off its list, the list is empty, the
    -- memory of the owner is as before, the size of the buffer still says in use, and the count of
    -- its references is 2^16 - 1.
    pub kupl_normal_free-lost :
        (at_end.mem ≡ mem)
        × ((at_end.descs a).total_size ≡ (h.descs a).total_size)
        × ((at_end.descs a).ref ≡ 2 ^ 16 - 1)
        × (at_end.sync owner ≡ [])
    unfolding kupl_normal_sync_list_enqueue
    kupl_normal_free-lost =
        let e : at_end ≡ counted taken a (2 ^ 16 - 1) =
          ap (λ (x : NormalHeap). kupl_normal_sync_list_dequeue (record x { mem = mem }))
            free_foreign
          ∙ dequeued
          ∙ wrapped in
        (
          ap (λ (x : NormalHeap). x.mem) e,
          ap (λ (x : NormalHeap). (x.descs a).total_size) e ∙ ground arith,
          ap (λ (x : NormalHeap). (x.descs a).ref) e ∙ ground arith,
          ap (λ (x : NormalHeap). x.sync owner) e ∙ ground (arith, its),
        )
