-- ===== src/Memory/Normal/Sound.antt =====
-- The invariant of an executor's memory, and `kupl_normal_insert_into_freelist`.
use kupl.Prelude.{
  ℕ, ◌<◌, ◌≡◌, ◌≢◌, refl, sym, ap, ◌∙◌, arith, inl, inr, ◌&&◌, Bool-cases, update, ◌==◌,
  if◌then◌else◌, ℕ_discrete, update_same,
}
use kupl.Prelude.Int.{ℤ, pos, negsuc, ltb_ℤ}
use kupl.Memory.{g_memory_bin_size, mem_bins_total, kupl_get_bin_index}
use kupl.Memory.Bins.{memory_bins-IsAscending, kupl_get_bin_index-last}
use kupl.Memory.Normal.{BufferDesc, NormalHeap, to_size, kupl_normal_insert_into_freelist}
use kupl.Memory.Normal.Invariant.{Map, IsBuffer, IsMarked, Layout, Layout-same, IsMarked-same}
use kupl.Memory.Normal.Invariant.Shape.{update_ne}
use kupl.Memory.Normal.Invariant.Listed.{AreListed, insert-AreListed}

abbrev pub sizes : (ℕ → BufferDesc) → ℕ → ℤ
sizes descs a = (descs a).total_size

abbrev pub prevs : (ℕ → BufferDesc) → ℕ → ℕ
prevs descs a = (descs a).prev_free

-- 1 for a free buffer.
abbrev pub free_of : Map → (ℕ → ℤ) → ℕ → ℕ
free_of m size a = if m.starts a && ltb_ℤ (pos 0) (size a) then 1 else 0

-- The buffers lie apart, the marks are true, and the lists hold each free buffer once.
pub record IsSound (m : Map) (h : NormalHeap) : Type 0 where
  pub layout : Layout m (sizes h.descs)
  pub marks : IsMarked m (sizes h.descs) (prevs h.descs)
  pub lists : AreListed (free_of m (sizes h.descs)) h.mem.mem_bins

-- The same while the free buffer `a` is in no list.
pub record IsOpen (m : Map) (h : NormalHeap) (a : ℕ) : Type 0 where
  pub layout : Layout m (sizes h.descs)
  pub marks : IsMarked m (sizes h.descs) (prevs h.descs)
  pub buffer : IsBuffer m a
  pub bytes : ℕ
  pub free : (h.descs a).total_size ≡ pos bytes
  pub lists : AreListed (update (free_of m (sizes h.descs)) a 0) h.mem.mem_bins

-- The buffers in use, but the one at `a`, stay as they are.
abbrev pub Keeps : Map → NormalHeap → Map → NormalHeap → ℕ → Type 0
Keeps m h m' h' a =
    (c n : ℕ)
    → a ≢ c
    → IsBuffer m c
    → (h.descs c).total_size ≡ negsuc n
    → IsBuffer m' c × ((h'.descs c).total_size ≡ negsuc n)

-- A function after an update.
pub update-map {ℓ κ} :
    {A : Type ℓ} {B : Type κ} (f : A → B) (g : ℕ → A) (i : ℕ) (x : A) (c : ℕ)
    → f (update g i x c) ≡ update (λ j. f (g j)) i (f x) c
update-map f g i x c = elim (Bool-cases (i == c)) [ inl e ↦ rw e refl | inr e ↦ rw e refl ]

pub update_old {ℓ} : {A : Type ℓ} (g : ℕ → A) (i c : ℕ) → update g i (g i) c ≡ g c
update_old g i c = elim (ℕ_discrete i c) [
  | yes e ↦ ap (update g i (g i)) (sym e) ∙ update_same g i (g i) ∙ ap g e
  | no n ↦ update_ne g i c (g i) n
]

pub index_below :
    (size : ℕ) → kupl_get_bin_index size g_memory_bin_size mem_bins_total < mem_bins_total
index_below size =
    (kupl_get_bin_index-last size mem_bins_total g_memory_bin_size (omega arith)
      memory_bins-IsAscending (omega arith)).0

module _ (m : Map) (h : NormalHeap) (a : ℕ) (w : IsOpen m h a) where
  pub inserted-size :
      (c : ℕ) → (h.descs c).total_size ≡ ((kupl_normal_insert_into_freelist h a).descs c).total_size
  unfolding kupl_normal_insert_into_freelist
  inserted-size c =
      sym (
        update-map (λ (d : BufferDesc). d.total_size) h.descs a _ c
        ∙ update_old (sizes h.descs) a c)

  inserted-prev :
      (c : ℕ) → (h.descs c).prev_free ≡ ((kupl_normal_insert_into_freelist h a).descs c).prev_free
  unfolding kupl_normal_insert_into_freelist
  inserted-prev c =
      sym (
        update-map (λ (d : BufferDesc). d.prev_free) h.descs a _ c ∙ update_old (prevs h.descs) a c)

  free_now :
      (c : ℕ) → update (update (free_of m (sizes h.descs)) a 0) a 1 c ≡ free_of m (sizes h.descs) c
  free_now c = elim (ℕ_discrete a c) [
    | no other ↦
        update_ne (update (free_of m (sizes h.descs)) a 0) a c 1 other
        ∙ update_ne (free_of m (sizes h.descs)) a c 0 other
    | yes here ↦
        let wide = w.layout.some_width a w.buffer in
        let e : free_of m (sizes h.descs) a ≡ 1 = ground (arith, w.free, w.buffer.0) in
        rw (← here) (update_same (update (free_of m (sizes h.descs)) a 0) a 1 ∙ sym e)
  ]

  pub insert-IsSound : IsSound m (kupl_normal_insert_into_freelist h a)
  unfolding kupl_normal_insert_into_freelist
  insert-IsSound = record {
    layout =
        Layout-same m (sizes h.descs) (sizes (kupl_normal_insert_into_freelist h a).descs)
          (λ c s. inserted-size c) w.layout;
    marks =
        IsMarked-same m (sizes h.descs) (sizes (kupl_normal_insert_into_freelist h a).descs)
          (λ c s. inserted-size c) (prevs h.descs)
          (prevs (kupl_normal_insert_into_freelist h a).descs) (λ c s. inserted-prev c) w.marks;
    lists = λ c.
        insert-AreListed (update (free_of m (sizes h.descs)) a 0) h.mem.mem_bins w.lists a
          (kupl_get_bin_index (to_size (h.descs a).total_size) g_memory_bin_size mem_bins_total)
          (index_below (to_size (h.descs a).total_size))
          (update_same (free_of m (sizes h.descs)) a 0) c
        ∙ free_now c
        ∙ ap (λ (z : ℤ). if m.starts c && ltb_ℤ (pos 0) z then 1 else 0) (inserted-size c);
  }

  pub insert-Keeps : (b : ℕ) → Keeps m h m (kupl_normal_insert_into_freelist h a) b
  insert-Keeps b c n other q e = (q, sym (inserted-size c) ∙ e)
