-- ===== src/Memory/Normal/Take.antt =====
-- `kupl_normal_travel_list`: a free buffer is given whole, or its end is.
use kupl.Prelude.{
  ℕ, suc, ◌+◌, ◌-◌, ◌≤◌, ◌<◌, ◌≡◌, ◌≢◌, refl, sym, ap, ◌∙◌, arith, true, ◌&&◌, update,
  if◌then◌else◌, update_same,
}
use kupl.Prelude.Int.{ℤ, pos, negsuc, pos_part, neg_ℤ, ltb_ℤ, ◌-ℤ◌}
use kupl.Memory.{sizeof_buffer_desc}
use kupl.Memory.Normal.{NormalHeap, unlink, min_buffer_size, split_buffer, take_buffer}
use kupl.Memory.Normal.Invariant.{Map, width, IsBuffer, IsMarked, Layout-same, IsMarked-same}
use kupl.Memory.Normal.Invariant.Shape.{
  update_ne, true-ne-false, zero_prev-IsMarked, flip-Layout, flip-IsMarked,
}
use kupl.Memory.Normal.Invariant.Cut.{
  cut_map, cut, cut-Layout, cut-IsMarked, not_yet, not_end, at_a, at_cut, elsewhere, still_starts,
  cut_starts,
}
use kupl.Memory.Normal.Invariant.Listed.{AreListed, unlink-AreListed}
use kupl.Memory.Normal.Sound.{sizes, prevs, free_of, IsSound, IsOpen, insert-IsSound, insert-Keeps}

-- A buffer of at least `actual` bytes was given at `ptr`: it was not in use, and the buffers in use
-- stay as they are.
pub record Given (m : Map) (h : NormalHeap) (m' : Map) (h' : NormalHeap) (actual ptr : ℕ)
    : Type 0 where
  pub sound : IsSound m' h'
  pub at : ℕ
  pub starts_at : ptr ≡ at + sizeof_buffer_desc
  pub buffer : IsBuffer m' at
  pub more : ℕ
  pub in_use : (h'.descs at).total_size ≡ negsuc more
  pub enough : actual ≤ suc more
  pub was_free : (n : ℕ) → IsBuffer m at → (h.descs at).total_size ≡ negsuc n → ⊥
  pub kept :
      (c n : ℕ)
      → IsBuffer m c
      → (h.descs c).total_size ≡ negsuc n
      → IsBuffer m' c × ((h'.descs c).total_size ≡ negsuc n)

-- A free buffer `a` in the lists.
module _ (m : Map) (h : NormalHeap) (w : IsSound m h) (a bytes index : ℕ) (p : IsBuffer m a)
    (free : (h.descs a).total_size ≡ pos bytes) where
  abbrev size : ℕ → ℤ
  size = sizes h.descs

  at_end : a + width (size a) ≡ a + bytes
  at_end = omega (arith, ap width free)

  pub unlinked : AreListed (update (free_of m size) a 0) (unlink h.mem a index).mem_bins
  unfolding unlink
  unlinked = unlink-AreListed (free_of m size) h.mem.mem_bins w.lists a (ground arith)

  not_used : (c n : ℕ) → size c ≡ negsuc n → a ≢ c
  not_used c n e here = cc (ap size here)

  module _ (some_bytes : 0 < bytes) where
    taken-size :
        (c : ℕ)
        → update size a (neg_ℤ (pos bytes)) c ≡ ((take_buffer h a index).0.descs c).total_size
    unfolding take_buffer
    taken-size c = ground (arith, free)

    taken-prev :
        (c : ℕ)
        → update (update (prevs h.descs) (a + bytes) 0) a 0 c
          ≡ ((take_buffer h a index).0.descs c).prev_free
    unfolding take_buffer
    taken-prev c = ground (arith, free)

    abbrev negated : ℤ
    negated = neg_ℤ (pos bytes)

    negative : negated ≡ negsuc (bytes - 1)
    negative = ground arith

    marked : IsMarked m size (update (update (prevs h.descs) (a + bytes) 0) a 0)
    marked =
        zero_prev-IsMarked m size (update (prevs h.descs) (a + bytes) 0) a
          (zero_prev-IsMarked m size (prevs h.descs) (a + bytes) w.marks)

    untold : update (update (prevs h.descs) (a + bytes) 0) a 0 (a + width (size a)) ≡ 0
    untold = ground (arith, at_end)

    same_width : width negated ≡ width (size a)
    same_width = ground (arith, free)

    taken_free : (c : ℕ) → update (free_of m size) a 0 c ≡ free_of m (update size a negated) c
    taken_free c = ground arith

    take-IsSound : IsSound m (take_buffer h a index).0
    unfolding take_buffer
    take-IsSound = record {
      layout =
          Layout-same m (update size a negated) (sizes (take_buffer h a index).0.descs)
            (λ c s. taken-size c) (flip-Layout m size w.layout a negated p same_width);
      marks =
          IsMarked-same m (update size a negated) (sizes (take_buffer h a index).0.descs)
            (λ c s. taken-size c) (update (update (prevs h.descs) (a + bytes) 0) a 0)
            (prevs (take_buffer h a index).0.descs) (λ c s. taken-prev c)
            (flip-IsMarked m size w.layout a negated p same_width
              (update (update (prevs h.descs) (a + bytes) 0) a 0) untold marked);
      lists = λ c.
          unlinked c
          ∙ taken_free c
          ∙ ap (λ (z : ℤ). if m.starts c && ltb_ℤ (pos 0) z then 1 else 0) (taken-size c);
    }

    pub take-Given :
        (actual : ℕ)
        → actual ≤ bytes
        → Given m h m (take_buffer h a index).0 actual (take_buffer h a index).1
    unfolding take_buffer
    take-Given actual le = record {
      sound = take-IsSound;
      at = a;
      starts_at = refl;
      buffer = p;
      more = bytes - 1;
      in_use = sym (taken-size a) ∙ update_same size a negated ∙ negative;
      enough = omega arith;
      was_free = λ n q e. cc;
      kept = λ c n q e. (q, sym (taken-size c) ∙ update_ne size a c negated (not_used c n e) ∙ e);
    }

  -- The end of the buffer is given.
  module _ (actual : ℕ) (some_actual : 0 < actual) (left : actual + min_buffer_size ≤ bytes) where
    abbrev r : ℕ
    r = bytes - actual

    whole : width (size a) ≡ r + actual
    whole = omega (arith, ap width free)

    wide : width (neg_ℤ (pos actual)) ≡ actual
    wide = ground arith

    some_r : 0 < r
    some_r = omega arith

    abbrev cut_sizes : ℕ → ℤ
    cut_sizes = cut m size w.layout a r actual (neg_ℤ (pos actual)) p whole some_r some_actual wide

    abbrev new_map : Map
    new_map =
        cut_map m size w.layout a r actual (neg_ℤ (pos actual)) p whole some_r some_actual wide

    abbrev cut_prevs : ℕ → ℕ
    cut_prevs = update (update (prevs h.descs) (a + bytes) 0) (a + r) r

    -- The heap before the rest goes back into a list.
    abbrev split_heap : NormalHeap
    split_heap =
        let desc = h.descs a in
        let rest = desc.total_size -ℤ pos actual in
        let user = a + pos_part desc.total_size - actual in
        let next = user + actual in
        let shrunk = update h.descs a (record desc { total_size = rest }) in
        let used = update shrunk user (record (shrunk user) {
          eid = desc.eid;
          ref = 1;
          mem_bin_index = desc.mem_bin_index;
          total_size = neg_ℤ (pos actual);
          prev_free = pos_part rest;
        }) in
        let told = update used next (record (used next) { prev_free = 0 }) in
        record h { descs = told; mem = unlink h.mem a index }

    rest_size : (h.descs a).total_size -ℤ pos actual ≡ pos r
    unfolding ◌-ℤ◌
    rest_size = rw free (ground arith)

    user_at : a + pos_part (h.descs a).total_size - actual ≡ a + r
    user_at = omega (arith, ap pos_part free)

    split-size : (c : ℕ) → cut_sizes c ≡ (split_heap.descs c).total_size
    split-size c = ground (arith, rest_size, user_at)

    split-prev : (c : ℕ) → cut_prevs c ≡ (split_heap.descs c).prev_free
    split-prev c = ground (arith, rest_size, user_at)

    split-IsOpen : IsOpen new_map split_heap a
    split-IsOpen = record {
      layout =
          Layout-same new_map cut_sizes (sizes split_heap.descs) (λ c s. split-size c)
            (cut-Layout m size w.layout a r actual (neg_ℤ (pos actual)) p whole some_r some_actual
              wide);
      marks =
          IsMarked-same new_map cut_sizes (sizes split_heap.descs) (λ c s. split-size c) cut_prevs
            (prevs split_heap.descs) (λ c s. split-prev c)
            (cut-IsMarked m size w.layout a r actual (neg_ℤ (pos actual)) p whole some_r some_actual
              wide (update (prevs h.descs) (a + bytes) 0) (ground (arith, at_end))
              (zero_prev-IsMarked m size (prevs h.descs) (a + bytes) w.marks));
      buffer = (still a p.0, p.1);
      bytes = r;
      free =
          sym (split-size a)
          ∙ at_a m size w.layout a r actual (neg_ℤ (pos actual)) p whole some_r some_actual wide;
      lists = λ c. unlinked c ∙ split_free c;
    }
      where
        still : (c : ℕ) → m.starts c ≡ true → new_map.starts c ≡ true
        still =
            still_starts m size w.layout a r actual (neg_ℤ (pos actual)) p whole some_r some_actual
              wide

        split_free :
            (c : ℕ)
            → update (free_of m size) a 0 c
              ≡ update (free_of new_map (sizes split_heap.descs)) a 0 c
        split_free c =
            let out =
              not_yet m size w.layout a r actual (neg_ℤ (pos actual)) p whole some_r some_actual
                wide in
            ground (arith, split-size c, split-size (a + r), out)

    split-kept :
        (c n : ℕ)
        → IsBuffer m c
        → size c ≡ negsuc n
        → IsBuffer new_map c × ((split_heap.descs c).total_size ≡ negsuc n)
    split-kept c n q e =
        let out =
          not_yet m size w.layout a r actual (neg_ℤ (pos actual)) p whole some_r some_actual wide in
        let n1 = not_used c n e in
        let n2 : a + r ≢ c = λ here. true-ne-false q.0 (ap m.starts (sym here) ∙ out) in
        (
          (
            still_starts m size w.layout a r actual (neg_ℤ (pos actual)) p whole some_r some_actual
                wide c q.0,
            q.1,
          ),
          sym (split-size c)
              ∙ elsewhere m size w.layout a r actual (neg_ℤ (pos actual)) p whole some_r some_actual
                  wide c n1 n2
              ∙ e,
        )

    pub split-Given :
        (m' : Map) × Given m h m'
          (split_buffer h a actual index).0
          actual
          (split_buffer h a actual index).1
    unfolding split_buffer
    split-Given = (
      new_map,
      record {
        sound = insert-IsSound new_map split_heap a split-IsOpen;
        at = a + r;
        starts_at = ap (λ (x : ℕ). x + sizeof_buffer_desc) user_at;
        buffer = (
          cut_starts m size w.layout a r actual (neg_ℤ (pos actual)) p whole some_r some_actual
              wide,
          not_end m size w.layout a r actual (neg_ℤ (pos actual)) p whole some_r some_actual wide,
        );
        more = actual - 1;
        in_use =
            (insert-Keeps new_map split_heap a split-IsOpen a (a + r) (actual - 1)
              (λ e. absurd (omega arith))
              (
                cut_starts m size w.layout a r actual (neg_ℤ (pos actual)) p whole some_r
                    some_actual wide,
                not_end m size w.layout a r actual (neg_ℤ (pos actual)) p whole some_r some_actual
                    wide,
              )
              (sym (split-size (a + r))
                ∙ at_cut m size w.layout a r actual (neg_ℤ (pos actual)) p whole some_r some_actual
                    wide
                ∙ ground arith)).1;
        enough = omega arith;
        was_free = λ n q e. true-ne-false q.0 (
            not_yet m size w.layout a r actual (neg_ℤ (pos actual)) p whole some_r some_actual
              wide);
        kept = λ c n q e.
            let (q', e') = split-kept c n q e in
            insert-Keeps new_map split_heap a split-IsOpen a c n (not_used c n e) q' e';
      },
    )
