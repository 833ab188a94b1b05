-- ===== src/Memory/Normal/Direct.antt =====
-- A buffer larger than a chunk, whose size the descriptor holds as an `int`.
use kupl.Prelude.{
  ℕ, ◌+◌, ◌-◌, ◌%◌, ◌^◌, ◌≤◌, ◌<◌, ◌≡◌, ◌≢◌, sym, ap, ◌∙◌, arith, ltb, ltb→lt, if_cases, List, ◌∷◌,
  some, update_same,
}
use kupl.Prelude.Int.{pos, negsuc, ltb_ℤ}
use kupl.Memory.{sizeof_buffer_desc}
use kupl.Memory.Normal.{BufferDesc, NormalHeap, to_int, to_size, direct_alloc, kupl_normal_free}
use kupl.Memory.Normal.Free.{free_at-eq, counted}

to_size-to_int : (n : ℕ) → n < 2 ^ 31 → to_size (to_int n) ≡ n
unfolding to_size to_int
to_size-to_int n lt = ground arith

to_size-to_int_ne : (n : ℕ) → 2 ^ 31 ≤ n → n < 2 ^ 63 → to_size (to_int n) ≢ n
unfolding to_size to_int
to_size-to_int_ne n ge lt = ground arith

module _ (h : NormalHeap) (a actual : ℕ) where
  abbrev mapped : NormalHeap
  mapped = (direct_alloc h actual (some a)).0

  desc_is : mapped.descs a ≡ record (h.descs a) {
    eid = h.mem.eid;
    mem_bin_index = negsuc 0;
    total_size = to_int actual;
    ref = 1;
  }
  unfolding direct_alloc
  desc_is = update_same h.descs a _

  unmaps :
      (kupl_normal_free mapped (a + sizeof_buffer_desc)).unmapped
      ≡ (a, to_size (to_int actual)) ∷ h.unmapped
  unfolding direct_alloc
  unmaps =
      let ref = ((mapped.descs a).ref + 2 ^ 16 - 1) % 2 ^ 16 in
      let once : ref ≡ 0 = omega (arith, ap (λ (d : BufferDesc). d.ref) desc_is) in
      let calls : List (ℕ × ℕ) = (a, to_size (to_int actual)) ∷ h.unmapped in
      ap (λ (x : NormalHeap). x.unmapped) (free_at-eq mapped a)
      ∙ if_cases (λ (x : NormalHeap). x.unmapped ≡ calls) (ltb 0 ref) (counted mapped a ref) _
          (λ more. absurd (omega (arith, once, ltb→lt 0 ref more)))
          (λ last.
            if_cases (λ (x : NormalHeap). x.unmapped ≡ calls)
              (ltb_ℤ (mapped.descs a).mem_bin_index (pos 0)) _ _
              (λ direct. ap (λ (d : BufferDesc). (a, to_size d.total_size) ∷ h.unmapped) desc_is)
              (λ pooled.
                let z = ap (λ (d : BufferDesc). ltb_ℤ d.mem_bin_index (pos 0)) desc_is in
                cc (sym pooled ∙ z)))

  -- For a buffer of fewer than 2^63 bytes that was mapped on its own: freeing it unmaps exactly
  -- the bytes that were mapped if they are fewer than 2^31, and another number of bytes
  -- otherwise.
  pub kupl_normal_free-direct :
      actual < 2 ^ 63
      → let calls =
          (kupl_normal_free (direct_alloc h actual (some a)).0 (a + sizeof_buffer_desc)).unmapped in
        (actual < 2 ^ 31 → calls ≡ (a, actual) ∷ h.unmapped)
        × (2 ^ 31 ≤ actual → (n : ℕ) × (calls ≡ (a, n) ∷ h.unmapped) × (n ≢ actual))
  kupl_normal_free-direct fits = (
    λ lt. unmaps ∙ ap (λ (n : ℕ). (a, n) ∷ h.unmapped) (to_size-to_int actual lt),
    λ ge. (to_size (to_int actual), unmaps, to_size-to_int_ne actual ge fits),
  )
