-- ===== src/ParallelFor/NdStatic/Cover.antt =====
-- The static policy over several dimensions leaves no iteration out.
use kupl.Prelude.{
  ℕ, zero, suc, ◌+◌, ◌-◌, ◌*◌, ◌/◌, ◌≤◌, ◌<◌, ◌≡◌, refl, sym, ap, subst, ◌∙◌, ◌≢◌, ◌⊎◌, inl, inr,
  length, length-set, get_or-set_self, get_or-set_ne, some, arith, dec_lt, ℕ_discrete,
}
use kupl.Prelude.Int.{
  ℤ, pos, negsuc, pos_part, neg_part, ◌+ℤ◌, ◌-ℤ◌, ◌*ℤ◌, ◌/ℤ◌, int_laws, eq_of_parts, *-pos-parts,
}
use kupl.ParallelFor.Range.{
  Chunk, kupl_calc_chunk_info, Range, NdRange, Pf, range_at, chunk_at, no_range, kupl_divup,
}
use kupl.ParallelFor.Edge.{Before, Visits, edge, edge-edge, Before-edge}
use kupl.ParallelFor.Grid.{IsGrid, kupl_calc_chunk_info-grid}
use kupl.ParallelFor.Dynamic.Points.{VisitsAll}
use kupl.ParallelFor.OneDim.{chunk_of_step}
use kupl.ParallelFor.Count.{IsLoop, divup_pos}
use kupl.ParallelFor.NdStatic.{
  get_max_range_dim, cut_point, set_range, divide_range, kupl_nd_static_policy_impl,
}

Before-dec : (s u x : ℤ) → Before s u x ⊎ (¬ Before s u x)
Before-dec (pos s) u x = elim (dec_lt (pos_part x + neg_part u) (pos_part u + neg_part x)) [
  | yes h ↦ inl h
  | no h ↦ inr h
]
Before-dec (negsuc s) u x = elim (dec_lt (pos_part u + neg_part x) (pos_part x + neg_part u)) [
  | yes h ↦ inl h
  | no h ↦ inr h
]

-- A cut falls on an edge of the whole range.
abbrev CutsAtEdges : Pf → ℕ → Type 0
CutsAtEdges pf n =
    (d num : ℕ)
    → d < n
    → (w : ℕ) × (cut_point pf d num ≡ edge (range_at pf.range d).lower (range_at pf.range d).step w)

-- The chunks of the whole range, as `divide_range` counts them, are no negative number.
negative_sum : (d s : ℕ) → negsuc d +ℤ negsuc s -ℤ pos 1 ≡ negsuc (d + s + 2)
negative_sum d s = omega int_laws

divup_nonneg : (s d : ℤ) → s ≢ pos 0 → Before s d (pos 0) → (q : ℕ) × (kupl_divup d s ≡ pos q)
unfolding kupl_divup ◌/ℤ◌
divup_nonneg (pos zero) d nz h = absurd (nz refl)
divup_nonneg (pos (suc s)) (negsuc d) nz h = absurd (omega arith)
divup_nonneg (pos (suc s)) (pos d) nz h =
    ((d + suc s - 1) / suc s, divup_pos d (suc s) (omega arith))
divup_nonneg (negsuc s) (pos d) nz h = absurd (omega arith)
divup_nonneg (negsuc s) (negsuc d) nz h = (suc (d + s + 2) / suc s, rw (negative_sum d s))

Before-difference : (s u l : ℤ) → Before s u l → Before s (u -ℤ l) (pos 0)
Before-difference (pos s) u l h = omega int_laws
Before-difference (negsuc s) u l h = omega int_laws

product_pos : (a b : ℕ) → pos a *ℤ pos b ≡ pos (a * b)
product_pos a b = eq_of_parts _ _ (omega (arith, *-pos-parts (pos a) b))

cut_point-edge :
    (pf : Pf) (d num : ℕ)
    → IsLoop (range_at pf.range d)
    → (chunk_at pf d).chunksize ≡ (range_at pf.range d).step
    → (w : ℕ) × (cut_point pf d num ≡ edge (range_at pf.range d).lower (range_at pf.range d).step w)
unfolding cut_point edge ◌/ℤ◌
cut_point-edge pf d num v e =
    let r = range_at pf.range d in
    let (q, eq) =
      divup_nonneg r.step (r.upper -ℤ r.lower) v.moves
        (Before-difference r.step r.upper r.lower v.ahead) in
    (q / num * (num / 2), rw (e, eq, product_pos (q / num) (num / 2)))

-- A value that is not before a cut is reached from it.
beyond :
    (l s m x : ℤ) (w k : ℕ)
    → s ≢ pos 0
    → m ≡ edge l s w
    → x ≡ edge l s k
    → ¬ Before s m x
    → (j : ℕ) × (x ≡ edge m s j)
beyond l s m x w k nz em ex far = elim (dec_lt k w) [
  | yes lt ↦ absurd (far (rw (em, ex) ((Before-edge l s w k nz).1 lt)))
  | no ge ↦
      let back : k ≡ w + (k - w) = omega arith in
      (k - w, ex ∙ ap (edge l s) back ∙ sym (rw em (edge-edge l s w (k - w))))
]

module _ (pf : Pf) (n : ℕ) (steps : (d : ℕ) → d < n → (range_at pf.range d).step ≢ pos 0)
    (cuts : CutsAtEdges pf n) (xs : ℕ → ℤ)
    (whole : (d : ℕ) → d < n → Visits (range_at pf.range d) (xs d)) where
  -- The box still holds the point, and has the whole range's steps.
  record Holds (box : NdRange) : Type 0 where
    room : n ≤ length box.nd_range
    same : (d : ℕ) → d < n → (range_at box d).step ≡ (range_at pf.range d).step
    inside : (d : ℕ) → d < n → Visits (range_at box d) (xs d)

  set-Holds :
      (box : NdRange) (d : ℕ) (r : Range)
      → Holds box
      → (d < n → (r.step ≡ (range_at pf.range d).step) × Visits r (xs d))
      → Holds (set_range box d r)
  set-Holds box d r h new = record {
    room = omega (arith, h.room, length-set box.nd_range d r);
    same = λ e le. elim (ℕ_discrete d e) [
      | yes q ↦
          let lt : d < n = omega arith in
          rw (← q, get_or-set_self box.nd_range d r no_range (omega (arith, h.room))) (new lt).0
      | no ne ↦ rw (get_or-set_ne box.nd_range d e r no_range ne) (h.same e le)
    ];
    inside = λ e le. elim (ℕ_discrete d e) [
      | yes q ↦
          let lt : d < n = omega arith in
          rw (← q, get_or-set_self box.nd_range d r no_range (omega (arith, h.room))) (new lt).1
      | no ne ↦ rw (get_or-set_ne box.nd_range d e r no_range ne) (h.inside e le)
    ];
  }

  -- The half of the box on the point's side of the cut holds the point.
  pick_half :
      (box : NdRange) (d num : ℕ)
      → Holds box
      → let r = range_at box d in
        let mid = cut_point pf d num in
        Holds (set_range box d (record r { upper = mid }))
        ⊎ Holds (set_range box d (record r { lower = mid }))
  pick_half box d num h = elim (dec_lt d n) [
    | no out ↦ inl (set-Holds box d _ h (λ lt. absurd (out lt)))
    | yes lt ↦
        let s = (range_at pf.range d).step in
        let (w, at) = cuts d num lt in
        let (j, ej, _) = h.inside d lt in
        let (k, ek, bk) = whole d lt in
        elim (Before-dec s (cut_point pf d num) (xs d)) [
          | inl near ↦
              inl (set-Holds box d _ h (λ _. (h.same d lt, (j, ej, rw (h.same d lt) near))))
          | inr far ↦ inr (
              set-Holds box d _ h (λ _. (
                h.same d lt,
                let (j', e') =
                      beyond (range_at pf.range d).lower s (cut_point pf d num) (xs d) w k
                        (steps d lt) at ek far in
                    (
                      j',
                      subst (λ s'. xs d ≡ edge (cut_point pf d num) s' j') (sym (h.same d lt)) e',
                      (h.inside d lt).2,
                    ),
              )))
        ]
  ]

  cover :
      (fuel num head : ℕ) (box : NdRange)
      → Holds box
      → 0 < num
      → num ≤ fuel
      → (t : ℕ) × (out : NdRange) × (head ≤ t)
        × (t < head + num)
        × (divide_range fuel box pf t head num ≡ some out)
        × Holds out
  unfolding divide_range
  cover zero num head box h p f = absurd (omega arith)
  cover (suc fuel) num head box h p f = elim (dec_lt 1 num) [
    | no single ↦
        let one : num ≡ 1 = omega arith in (head, box, omega arith, omega arith, ground arith, h)
    | yes more ↦ elim (pick_half box (get_max_range_dim box) num h) [
      | inl left ↦
          let (t, out, lo, hi, e, h') =
            cover fuel (num / 2) head _ left (omega arith) (omega arith) in
          (t, out, lo, omega arith, ground (arith, e), h')
      | inr right ↦
          let (t, out, lo, hi, e, h') =
            cover fuel (num - num / 2) (head + num / 2) _ right (omega arith) (omega arith) in
          (t, out, omega arith, omega arith, ground (arith, e), h')
    ]
  ]

-- The static policy looks at no block size, and `kupl_check_range` sets it to 1.
module _ (pf : Pf) (n tnum : ℕ) (g : IsGrid pf n)
    (b : (d : ℕ) → d < n → (range_at pf.range d).blocksize ≡ pos 1) (p : 0 < tnum) where
  steps_only :
      (d : ℕ)
      → d < n
      → (chunk_at (kupl_calc_chunk_info pf) d).chunksize ≡ (range_at pf.range d).step
  steps_only d lt =
      ap (λ (c : Chunk). c.chunksize) ((kupl_calc_chunk_info-grid pf n g).0 d lt)
      ∙ chunk_of_step (range_at pf.range d) (b d lt)

  cuts_at_edges : CutsAtEdges (kupl_calc_chunk_info pf) n
  unfolding kupl_calc_chunk_info
  cuts_at_edges d num lt =
      cut_point-edge (kupl_calc_chunk_info pf) d num (g.loops d lt) (steps_only d lt)

  -- For a range whose dimensions passed the check, with block sizes 1, and at least one thread:
  -- as much fuel as there are threads is enough for some thread's division of the range to
  -- return, and to hold any given point of the range.
  pub some_thread :
      (xs : ℕ → ℤ)
      → VisitsAll (range_at pf.range) n xs
      → (t : ℕ) × (out : NdRange) × (t < tnum)
        × (kupl_nd_static_policy_impl (kupl_calc_chunk_info pf) t tnum ≡ some out)
        × VisitsAll (range_at out) n xs
  unfolding kupl_nd_static_policy_impl kupl_calc_chunk_info
  some_thread xs whole =
      let (t, out, lo, hi, e, h) =
        cover (kupl_calc_chunk_info pf) n (λ d lt. (g.loops d lt).moves) cuts_at_edges xs whole tnum
          tnum 0 pf.range (record { room = g.ranges; same = λ d lt. refl; inside = whole }) p
          (omega arith) in
      (t, out, omega arith, e, h.inside)
