-- ===== src/Memory/Normal/Search.antt =====
-- `kupl_normal_alloc`: the search of the free lists, and a new chunk if it finds nothing.
use kupl.Prelude.{
  ℕ, zero, suc, ◌+◌, ◌≤◌, ◌<◌, ◌≡◌, ◌≢◌, refl, sym, ap, ◌∙◌, subst, arith, inl, inr, Bool, true,
  false, Bool-cases, Option-cases, if_branch, if_cases, if◌then◌else◌, ℕ_discrete, List, [], ◌∷◌,
  Option, none, some,
}
use kupl.Prelude.Int.{ℤ, pos, negsuc, pos_part, neg_part, leb_ℤ, ◌-ℤ◌}
use kupl.Memory.{mem_bins_total}
use kupl.Memory.Normal.{
  NormalHeap, min_buffer_size, split_buffer, take_buffer, travel, kupl_normal_travel_list,
  search_bins,
}
use kupl.Memory.Normal.Invariant.{Map, width, IsBuffer}
use kupl.Memory.Normal.Invariant.Shape.{true-ne-false}
use kupl.Memory.Normal.Invariant.Listed.{count, listed_free}
use kupl.Memory.Normal.Sound.{sizes, free_of, IsSound}
use kupl.Memory.Normal.Take.{Given, take-Given, split-Given}

-- A buffer in the lists is free.
module _ (m : Map) (h : NormalHeap) (w : IsSound m h) where
  free-IsBuffer :
      (index a : ℕ)
      → index < mem_bins_total
      → count a (h.mem.mem_bins index) ≢ 0
      → IsBuffer m a × (n : ℕ) × ((h.descs a).total_size ≡ pos n) × (0 < n)
  free-IsBuffer index a lt some_a =
      let free = listed_free (free_of m (sizes h.descs)) h.mem.mem_bins w.lists a index lt some_a in
      let used : m.ends a ≡ true → (h.descs a).total_size ≡ negsuc 0 = w.layout.end_used a in
      by_size ((h.descs a).total_size) refl (m.starts a) refl free
    where
      by_size :
          (z : ℤ)
          → (h.descs a).total_size ≡ z
          → (s : Bool) → m.starts a ≡ s
          → free_of m (sizes h.descs) a ≢ 0
          → IsBuffer m a × (n : ℕ) × ((h.descs a).total_size ≡ pos n) × (0 < n)
      by_size z e false s free = absurd (free (rw s refl))
      by_size (negsuc n) e true s free = absurd (free (rw (s, e) (ground arith)))
      by_size (pos n) e true s free = elim (Bool-cases (m.ends a)) [
        | inl ends ↦ absurd (free (rw (s, w.layout.end_used a ends) refl))
        | inr inner ↦
            ((s, inner), n, e, omega (arith, w.layout.some_width a (s, inner), ap width e))
      ]

module _ (m : Map) (h : NormalHeap) (w : IsSound m h) (actual : ℕ) (some_actual : 0 < actual) where
  fits-split :
      (z : ℤ) (n : ℕ)
      → z ≡ pos n
      → leb_ℤ (pos actual) z ≡ true
      → leb_ℤ (pos min_buffer_size) (z -ℤ pos actual) ≡ true
      → actual + min_buffer_size ≤ n
  unfolding ◌-ℤ◌
  fits-split z n e big split =
      fits n (subst (λ (x : ℤ). leb_ℤ (pos actual) x ≡ true) e big)
        (subst (λ (x : ℤ). leb_ℤ (pos min_buffer_size) (x -ℤ pos actual) ≡ true) e split)
    where
      fits :
          (n : ℕ)
          → leb_ℤ (pos actual) (pos n) ≡ true
          → leb_ℤ (pos min_buffer_size) (pos n -ℤ pos actual) ≡ true
          → actual + min_buffer_size ≤ n
      fits n big split = ground arith

  fits : (z : ℤ) (n : ℕ) → z ≡ pos n → leb_ℤ (pos actual) z ≡ true → actual ≤ n
  fits z n e big = ground (arith, ap pos_part e, ap neg_part e)

  -- What is done with the buffer that is found.
  abbrev found : ℕ → ℕ → NormalHeap × ℕ
  found a index =
      if leb_ℤ (pos min_buffer_size) ((h.descs a).total_size -ℤ pos actual)
      then split_buffer h a actual index
      else take_buffer h a index

  found-Given :
      (a bytes index : ℕ)
      → IsBuffer m a
      → (h.descs a).total_size ≡ pos bytes
      → 0 < bytes
      → actual ≤ bytes
      → (m' : Map) × Given m h m' (found a index).0 actual (found a index).1
  found-Given a bytes index p size some_bytes le =
      if_cases (λ (o : NormalHeap × ℕ). (m' : Map) × Given m h m' o.0 actual o.1)
        (leb_ℤ (pos min_buffer_size) ((h.descs a).total_size -ℤ pos actual))
        (split_buffer h a actual index) (take_buffer h a index)
        (λ split.
          split-Given m h w a bytes index p size actual some_actual
            (fits-split (h.descs a).total_size bytes size (fits_back bytes le size) split))
        (λ whole. (m, take-Given m h w a bytes index p size some_bytes actual le))
    where
      fits_back :
          (n : ℕ)
          → actual ≤ n
          → (h.descs a).total_size ≡ pos n
          → leb_ℤ (pos actual) (h.descs a).total_size ≡ true
      fits_back n le e = rw e (ground arith)

  travel-Given :
      (index : ℕ)
      → index < mem_bins_total
      → (xs : List ℕ) → ((a : ℕ) → count a xs ≢ 0 → count a (h.mem.mem_bins index) ≢ 0)
      → (h' : NormalHeap) (ptr : ℕ) → travel h actual index xs ≡ some (h', ptr)
      → (m' : Map) × Given m h m' h' actual ptr
  unfolding travel
  travel-Given index lt [] sub h' ptr e = cc
  travel-Given index lt (a ∷ xs) sub h' ptr e =
      let (p, bytes, size, some_bytes) = free-IsBuffer m h w index a lt (sub a (ground arith)) in
      let sub' : (b : ℕ) → count b xs ≢ 0 → count b (h.mem.mem_bins index) ≢ 0 =
        λ b some_b. sub b (λ z. some_b (omega arith)) in
      let later = travel-Given index lt xs sub' h' ptr in
      elim (if_branch (leb_ℤ (pos actual) (h.descs a).total_size) (some (found a index))
        (travel h actual index xs) e) [
          | inr (small, rest) ↦ later rest
          | inl (big, here) ↦
              subst (λ (o : NormalHeap × ℕ). (m' : Map) × Given m h m' o.0 actual o.1) (same here)
                (found-Given a bytes index p size some_bytes
                  (fits (h.descs a).total_size bytes size big))
        ]
    where
      same : {x y : NormalHeap × ℕ} → some x ≡ some y → x ≡ y
      same q = cc

  travel-finds :
      (index a bytes : ℕ) (xs : List ℕ)
      → count a xs ≢ 0
      → (h.descs a).total_size ≡ pos bytes
      → actual ≤ bytes
      → (out : NormalHeap × ℕ) × (travel h actual index xs ≡ some out)
  unfolding travel
  travel-finds index a bytes [] some_a size le = absurd (some_a refl)
  travel-finds index a bytes (b ∷ xs) some_a size le =
      elim (Bool-cases (leb_ℤ (pos actual) (h.descs b).total_size)) [
        | inl big ↦ (found b index, rw big refl)
        | inr small ↦ elim (ℕ_discrete a b) [
          | yes here ↦
              let big : leb_ℤ (pos actual) (h.descs b).total_size ≡ true =
                rw (← here) (rw size (ground arith)) in
              absurd (true-ne-false big small)
          | no other ↦
              let rest = travel-finds index a bytes xs (λ z. some_a (ground arith)) size le in
              (rest.0, rw small rest.1)
        ]
      ]

  -- The rest of a round of the search.
  abbrev tried : ℕ → ℕ → Option (NormalHeap × ℕ) → Option (NormalHeap × ℕ)
  tried n index o = elim o [ none ↦ search_bins n h actual (suc index) | some out ↦ some out ]

  pub search_bins-Given :
      (n index : ℕ)
      → index + n ≤ mem_bins_total
      → (h' : NormalHeap) (ptr : ℕ) → search_bins n h actual index ≡ some (h', ptr)
      → (m' : Map) × Given m h m' h' actual ptr
  unfolding search_bins kupl_normal_travel_list
  search_bins-Given zero index le h' ptr e = cc
  search_bins-Given (suc n) index le h' ptr e =
      elim (Option-cases (travel h actual index (h.mem.mem_bins index))) [
        | inl nothing ↦
            search_bins-Given n (suc index) (omega arith) h' ptr
              (sym (ap (tried n index) nothing) ∙ e)
        | inr ((h1, ptr1), got) ↦
            travel-Given index (omega arith) (h.mem.mem_bins index) (λ a some_a. some_a) h' ptr
              (got ∙ (sym (ap (tried n index) got) ∙ e))
      ]

  pub search_bins-finds :
      (n index j a bytes : ℕ)
      → index ≤ j
      → j < index + n
      → count a (h.mem.mem_bins j) ≢ 0
      → (h.descs a).total_size ≡ pos bytes
      → actual ≤ bytes
      → (out : NormalHeap × ℕ) × (search_bins n h actual index ≡ some out)
  unfolding search_bins kupl_normal_travel_list
  search_bins-finds zero index j a bytes le lt some_a size enough = absurd (omega arith)
  search_bins-finds (suc n) index j a bytes le lt some_a size enough =
      elim (Option-cases (travel h actual index (h.mem.mem_bins index))) [
        | inr (out, got) ↦ (out, ap (tried n index) got)
        | inl nothing ↦ elim (ℕ_discrete index j) [
          | yes here ↦
              let found =
                travel-finds index a bytes (h.mem.mem_bins index)
                  (λ z. some_a (ap (λ (i : ℕ). count a (h.mem.mem_bins i)) (sym here) ∙ z)) size
                  enough in
              cc (found.1, nothing)
          | no other ↦
              let rest =
                search_bins-finds n (suc index) j a bytes (omega arith) (omega arith) some_a size
                  enough in
              (rest.0, ap (tried n index) nothing ∙ rest.1)
        ]
      ]
