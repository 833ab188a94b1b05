-- ===== src/Memory/Normal/Coalesce.antt =====
-- `merge_prev`, `merge_next` and `give_back` on a free buffer in no list: the memory gets sound.
use kupl.Prelude.{
  ℕ, ◌+◌, ◌-◌, ◌≡◌, ◌≢◌, refl, sym, ap, ◌∙◌, subst, arith, inl, inr, true, false, ◌&&◌, Bool-cases,
  if_cases, update, ◌==◌, leb, update_same, ◌∷◌,
}
use kupl.Prelude.Int.{ℤ, pos, negsuc, pos_part, neg_part, ltb_ℤ, eqb_ℤ, ◌+ℤ◌}
use kupl.Memory.{whole_chunk}
use kupl.Memory.Normal.{
  NormalHeap, to_size, unlink, with_desc, coalesce, merge_prev, merge_next, give_back,
  kupl_normal_insert_into_freelist,
}
use kupl.Memory.Normal.Invariant.{Map, width, IsBuffer, FreeBefore, Layout-same, IsMarked-same}
use kupl.Memory.Normal.Invariant.Shape.{
  update_ne, true-ne-false, zero_prev-IsMarked, tell_prev-IsMarked,
}
use kupl.Memory.Normal.Invariant.Drop.{
  dropped_map, drop-Layout, drop-IsMarked, last_ends, still_there,
}
use kupl.Memory.Normal.Invariant.Listed.{AreListed, unlink-AreListed}
use kupl.Memory.Normal.Sound.{sizes, prevs, free_of, IsSound, IsOpen, insert-IsSound, insert-Keeps}
use kupl.Memory.Normal.Merge.{sum_is, merged_map, a_still, merged-kept, merged-IsOpen}

-- Every buffer in use stays as it is.
abbrev pub KeepsAll : Map → NormalHeap → Map → NormalHeap → Type 0
KeepsAll m h m' h' =
    (c n : ℕ)
    → IsBuffer m c
    → (h.descs c).total_size ≡ negsuc n
    → IsBuffer m' c × ((h'.descs c).total_size ≡ negsuc n)

module _ (m : Map) (h : NormalHeap) (a : ℕ) (w : IsOpen m h a) (index : ℕ) where
  abbrev size : ℕ → ℤ
  size = sizes h.descs

  -- A free neighbour leaves its list.
  unlink_too :
      (b k : ℕ)
      → IsBuffer m b
      → (h.descs b).total_size ≡ pos k
      → AreListed (update (update (free_of m size) a 0) b 0) (unlink h.mem b index).mem_bins
  unfolding unlink
  unlink_too b k q free =
      unlink-AreListed (update (free_of m size) a 0) h.mem.mem_bins w.lists b (ground arith)

  abbrev AfterPrev : NormalHeap × ℕ → Type 0
  AfterPrev (h', b) =
      (m' : Map) × (w' : IsOpen m' h' b) × ((h'.descs (b + w'.bytes)).prev_free ≡ 0)
      × KeepsAll m h m' h'

  -- `prev_desc` and the heap after the join with it.
  abbrev joined_prev : ℕ → NormalHeap × ℕ
  joined_prev p = (
    record h {
      descs =
          update h.descs p
            (record (h.descs p) { total_size = (h.descs p).total_size +ℤ (h.descs a).total_size });
      mem = unlink h.mem p index;
    },
    p,
  )

  with_prev :
      FreeBefore m size a (h.descs a).prev_free
      → (h.descs (a + w.bytes)).prev_free ≡ 0
      → AfterPrev (joined_prev (a - (h.descs a).prev_free))
  with_prev f untold =
      let p = f.at in
      let n = (h.descs a).prev_free in
      let sum = (h.descs p).total_size +ℤ (h.descs a).total_size in
      let h' = (joined_prev p).0 in
      let size_now : (c : ℕ) → update size p sum c ≡ (h'.descs c).total_size = λ c. ground arith in
      let prev_now : (c : ℕ) → (h.descs c).prev_free ≡ (h'.descs c).prev_free = λ c. ground arith in
      let swapped : (c : ℕ)
          → update (update (free_of m size) p 0) a 0 c
            ≡ update (update (free_of m size) a 0) p 0 c =
        λ c. ground arith in
      let end : p + (n + w.bytes) ≡ a + w.bytes = omega (arith, f.meets) in
      let still_untold : (h.descs (p + (n + w.bytes))).prev_free ≡ 0 =
        ap (prevs h.descs) end ∙ untold in
      let open_now =
        merged-IsOpen m h w.layout p a n w.bytes f.is_buffer w.buffer f.is_free w.free f.meets h'
          size_now (λ c. unlink_too p n f.is_buffer f.is_free c ∙ sym (swapped c)) (prevs h.descs)
          still_untold w.marks (prevs h.descs) prev_now (λ x. x) in
      let bytes_now : open_now.bytes ≡ n + w.bytes = ap pos_part (
        sym open_now.free
        ∙ sym (size_now p)
        ∙ update_same size p sum
        ∙ sum_is m h w.layout p a n w.bytes f.is_buffer w.buffer f.is_free w.free f.meets) in
      subst (λ (x : ℕ). AfterPrev (joined_prev x)) (omega (arith, f.meets))
        (
          merged_map m h w.layout p a n w.bytes f.is_buffer w.buffer f.is_free w.free f.meets,
          open_now,
          sym (prev_now (p + open_now.bytes))
              ∙ ap (λ (x : ℕ). (h.descs (p + x)).prev_free) bytes_now
              ∙ still_untold,
          λ c i q e.
              let (q', e') =
                merged-kept m h w.layout p a n w.bytes f.is_buffer w.buffer f.is_free w.free f.meets
                  c i q e in
              (q', sym (size_now c) ∙ e'),
        )

  merge_prev-IsOpen : (h.descs (a + w.bytes)).prev_free ≡ 0 → AfterPrev (merge_prev h a index)
  unfolding merge_prev
  merge_prev-IsOpen untold =
      if_cases AfterPrev ((h.descs a).prev_free == 0) (h, a)
        (joined_prev (a - (h.descs a).prev_free)) (λ alone. (m, w, untold, λ c n q e. (q, e)))
        (λ more. elim (w.marks a w.buffer.0) [
          | inl z ↦
              let e : ((h.descs a).prev_free == 0) ≡ true = ground arith in
              absurd (true-ne-false e more)
          | inr f ↦ with_prev f untold
        ])

  abbrev AfterNext : NormalHeap → Type 0
  AfterNext h' = (m' : Map) × IsOpen m' h' a × KeepsAll m h m' h'

  abbrev next_at : ℕ
  next_at = a + pos_part (h.descs a).total_size

  next_is : next_at ≡ a + w.bytes
  next_is = omega (arith, ap pos_part w.free)

  next_starts : m.starts next_at ≡ true
  next_starts =
      ap m.starts (omega (arith, next_is, ap width w.free)) ∙ w.layout.next_starts a w.buffer

  -- The heap after the join with `next_desc`.
  abbrev joined_next : ℕ → NormalHeap
  joined_next next =
      let joined = (h.descs a).total_size +ℤ (h.descs next).total_size in
      let after = a + pos_part joined in
      let grown = update h.descs a (record (h.descs a) { total_size = joined }) in
      record h {
        descs = update grown after (record (grown after) { prev_free = pos_part joined });
        mem = unlink h.mem next index;
      }

  with_next :
      (next k : ℕ)
      → IsBuffer m next
      → a + w.bytes ≡ next
      → (h.descs next).total_size ≡ pos k
      → AfterNext (joined_next next)
  with_next next k q meet free =
      let n = w.bytes in
      let sum = (h.descs a).total_size +ℤ (h.descs next).total_size in
      let h' = joined_next next in
      let total = sum_is m h w.layout a next n k w.buffer q w.free free meet in
      let end = a + (n + k) in
      let m' = merged_map m h w.layout a next n k w.buffer q w.free free meet in
      let size_now : (c : ℕ) → update size a sum c ≡ (h'.descs c).total_size = λ c. ground arith in
      let prev_now : (c : ℕ)
          → update (update (prevs h.descs) end 0) end (n + k) c ≡ (h'.descs c).prev_free =
        λ c. ground (arith, total) in
      (
        m',
        merged-IsOpen m h w.layout a next n k w.buffer q w.free free meet h' size_now
            (unlink_too next k q free) (update (prevs h.descs) end 0)
            (update_same (prevs h.descs) end 0)
            (zero_prev-IsMarked m size (prevs h.descs) end w.marks)
            (update (update (prevs h.descs) end 0) end (n + k)) prev_now
            (tell_prev-IsMarked m' (update size a sum) (update (prevs h.descs) end 0) a (n + k)
              (a_still m h w.layout a next n k w.buffer q w.free free meet)
              (update_same size a sum ∙ total)),
        λ c i r e.
            let (q', e') =
              merged-kept m h w.layout a next n k w.buffer q w.free free meet c i r e in
            (q', sym (size_now c) ∙ e'),
      )

  -- `next_desc` is in use, and is told of the free buffer before it.
  abbrev told_next : NormalHeap
  told_next =
      with_desc h next_at (record (h.descs next_at) { prev_free = pos_part (h.descs a).total_size })

  with_told : AfterNext told_next
  with_told =
      let size_now : (c : ℕ) → size c ≡ (told_next.descs c).total_size = λ c. ground arith in
      let prev_now : (c : ℕ)
          → update (prevs h.descs) (a + w.bytes) w.bytes c ≡ (told_next.descs c).prev_free =
        λ c. ground (arith, next_is, ap pos_part w.free) in
      (
        m,
        record {
          layout = Layout-same m size (sizes told_next.descs) (λ c s. size_now c) w.layout;
          marks =
              IsMarked-same m size (sizes told_next.descs) (λ c s. size_now c)
                (update (prevs h.descs) (a + w.bytes) w.bytes) (prevs told_next.descs)
                (λ c s. prev_now c)
                (tell_prev-IsMarked m size (prevs h.descs) a w.bytes w.buffer w.free w.marks);
          buffer = w.buffer;
          bytes = w.bytes;
          free = sym (size_now a) ∙ w.free;
          lists = λ c.
              w.lists c
              ∙ (let e : update (free_of m size) a 0 c
                      ≡ update (free_of m (sizes told_next.descs)) a 0 c =
                    ground (arith, size_now c) in
                  e);
        },
        λ c i q e. (q, sym (size_now c) ∙ e),
      )

  next-IsBuffer : ltb_ℤ (pos 0) (h.descs next_at).total_size ≡ true → IsBuffer m next_at
  next-IsBuffer free = (
    next_starts,
    elim (Bool-cases (m.ends next_at)) [
      | inr e ↦ e
      | inl e ↦
          let z : ltb_ℤ (pos 0) (h.descs next_at).total_size ≡ false =
            rw (w.layout.end_used next_at e) refl in
          absurd (true-ne-false free z)
    ],
  )

  positive : (z : ℤ) → ltb_ℤ (pos 0) z ≡ true → z ≡ pos (pos_part z)
  positive (pos n) e = refl
  positive (negsuc n) e = absurd (ground arith)

  merge_next-IsOpen : AfterNext (merge_next h a index)
  unfolding merge_next
  merge_next-IsOpen =
      if_cases AfterNext (ltb_ℤ (pos 0) (h.descs next_at).total_size) (joined_next next_at)
        told_next
        (λ free.
          with_next next_at (pos_part (h.descs next_at).total_size) (next-IsBuffer free)
            (sym next_is) (positive (h.descs next_at).total_size free))
        (λ used. with_told)

  abbrev AfterBack : NormalHeap → Type 0
  AfterBack h' = (m' : Map) × IsSound m' h' × KeepsAll m h m' h'

  abbrev unmapped_chunk : NormalHeap
  unmapped_chunk = record h { unmapped = (a, to_size (h.descs a).total_size) ∷ h.unmapped }

  with_unmapped : (h.descs a).total_size ≡ pos whole_chunk → AfterBack unmapped_chunk
  with_unmapped whole = (
    dropped_map m size w.layout a w.buffer whole,
    record {
      layout = drop-Layout m size w.layout a w.buffer whole;
      marks = drop-IsMarked m size w.layout a w.buffer whole (prevs h.descs) w.marks;
      lists = λ c. w.lists c ∙ dropped_free c;
    },
    λ c i q e.
        let n1 : a ≢ c = λ here. cc (w.free) in
        let n2 : a + whole_chunk ≢ c = λ here.
          true-ne-false (last_ends m size w.layout a w.buffer whole) (ap m.ends here ∙ q.1) in
        (
          (
            still_there m size w.layout a w.buffer whole c n1 n2 q.0,
            update_ne m.ends (a + whole_chunk) c false n2 ∙ q.1,
          ),
          e,
        ),
  )
    where
      dropped_free :
          (c : ℕ)
          → update (free_of m size) a 0 c
            ≡ free_of (dropped_map m size w.layout a w.buffer whole) size c
      dropped_free c =
          ground (
            arith,
            w.layout.end_used (a + whole_chunk) (last_ends m size w.layout a w.buffer whole),
          )

  give_back-IsSound : AfterBack (give_back h a)
  unfolding give_back
  give_back-IsSound =
      if_cases AfterBack
        (eqb_ℤ (h.descs a).total_size (pos whole_chunk) && leb 2 h.mem.alloc_chunks) unmapped_chunk
        (kupl_normal_insert_into_freelist h a)
        (λ e. with_unmapped (is_whole (h.descs a).total_size w.bytes w.free e))
        (λ e. (
          m,
          insert-IsSound m h a w,
          λ c i q used. insert-Keeps m h a w a c i (λ here. cc (w.free)) q used,
        ))
    where
      is_whole :
          (z : ℤ) (n : ℕ)
          → z ≡ pos n
          → (eqb_ℤ z (pos whole_chunk) && leb 2 h.mem.alloc_chunks) ≡ true
          → z ≡ pos whole_chunk
      is_whole z n e t = ground (arith, ap pos_part e, ap neg_part e)

pub coalesce-IsSound :
    (m : Map) (h : NormalHeap) (a index : ℕ) (w : IsOpen m h a)
    → (h.descs (a + w.bytes)).prev_free ≡ 0
    → (m' : Map) × IsSound m' (coalesce h a index) × KeepsAll m h m' (coalesce h a index)
unfolding coalesce
coalesce-IsSound m h a index w untold =
    let (m1, w1, untold1, keep1) = merge_prev-IsOpen m h a w index untold in
    let (h1, b) = merge_prev h a index in
    let (m2, w2, keep2) = merge_next-IsOpen m1 h1 b w1 index in
    let h2 = merge_next h1 b index in
    let (m3, sound, keep3) = give_back-IsSound m2 h2 b w2 index in
    (
      m3,
      sound,
      λ c n q e. let (q1, e1) = keep1 c n q e in let (q2, e2) = keep2 c n q1 e1 in keep3 c n q2 e2,
    )
