-- ===== src/Memory/Normal/Invariant/Cut.antt =====
-- The end of a free buffer is cut off, and is a buffer.
use kupl.Prelude.{
  ℕ, ◌+◌, ◌≤◌, ◌<◌, ◌≡◌, ◌≢◌, refl, sym, ap, ◌∙◌, subst, arith, ◌⊎◌, inl, inr, true, false,
  Bool-cases, update, update_same, ℕ_discrete, dec_lt,
}
use kupl.Prelude.Int.{ℤ, pos}
use kupl.Memory.{whole_chunk}
use kupl.Memory.Normal.Invariant.{Map, width, IsBuffer, FreeBefore, IsMarked, Layout}
use kupl.Memory.Normal.Invariant.Shape.{update_ne, true-ne-false}

module _ (m : Map) (size : ℕ → ℤ) (w : Layout m size) (a r k : ℕ) (z : ℤ) (p : IsBuffer m a)
    (whole : width (size a) ≡ r + k) (left : 0 < r) (some_k : 0 < k) (wide : width z ≡ k) where
  abbrev pub cut_map : Map
  cut_map = record m {
    starts = update m.starts (a + r) true;
    base = update m.base (a + r) (m.base a);
  }

  abbrev pub cut : ℕ → ℤ
  cut = update (update size a (pos r)) (a + r) z

  pub not_yet : m.starts (a + r) ≡ false
  not_yet = w.apart a (a + r) p (omega arith) (omega arith)

  pub not_end : m.ends (a + r) ≡ false
  not_end = elim (Bool-cases (m.ends (a + r))) [
    | inl e ↦ absurd (true-ne-false (w.end_starts (a + r) e) not_yet)
    | inr e ↦ e
  ]

  pub at_a : cut a ≡ pos r
  at_a =
      update_ne (update size a (pos r)) (a + r) a z (λ e. absurd (omega arith))
      ∙ update_same size a (pos r)

  pub at_cut : cut (a + r) ≡ z
  at_cut = update_same (update size a (pos r)) (a + r) z

  pub elsewhere : (c : ℕ) → a ≢ c → a + r ≢ c → cut c ≡ size c
  elsewhere c n1 n2 =
      update_ne (update size a (pos r)) (a + r) c z n2 ∙ update_ne size a c (pos r) n1

  pub still_starts : (c : ℕ) → m.starts c ≡ true → cut_map.starts c ≡ true
  still_starts c s = elim (ℕ_discrete (a + r) c) [
    | yes here ↦ ap (update m.starts (a + r) true) (sym here) ∙ update_same m.starts (a + r) true
    | no other ↦ update_ne m.starts (a + r) c true other ∙ s
  ]

  pub cut_starts : cut_map.starts (a + r) ≡ true
  cut_starts = update_same m.starts (a + r) true

  old : (c : ℕ) → a + r ≢ c → cut_map.starts c ≡ true → m.starts c ≡ true
  old c other s = sym (update_ne m.starts (a + r) c true other) ∙ s

  old_base : (c : ℕ) → m.starts c ≡ true → cut_map.base c ≡ m.base c
  old_base c s =
      update_ne m.base (a + r) c (m.base a)
        (λ here. true-ne-false s (ap m.starts (sym here) ∙ not_yet))

  cut_base : cut_map.base (a + r) ≡ m.base a
  cut_base = update_same m.base (a + r) (m.base a)

  -- What holds at `a`, at the cut and at the old buffers.
  by_place :
      (P : ℕ → Type 0)
      → P a
      → P (a + r)
      → ((c : ℕ) → a ≢ c → a + r ≢ c → IsBuffer m c → P c)
      → (c : ℕ) → IsBuffer cut_map c
      → P c
  by_place P x y rest c (s, f) = elim (ℕ_discrete a c) [
    | yes here ↦ subst P here x
    | no n1 ↦ elim (ℕ_discrete (a + r) c) [
      | yes here ↦ subst P here y
      | no n2 ↦ rest c n1 n2 (old c n2 s, f)
    ]
  ]

  end_of_a : a + width (cut a) ≡ a + r
  end_of_a = omega (arith, ap width at_a)

  end_of_cut : a + r + width (cut (a + r)) ≡ a + width (size a)
  end_of_cut = omega (arith, ap width at_cut)

  cut_next_starts : (c : ℕ) → IsBuffer cut_map c → cut_map.starts (c + width (cut c)) ≡ true
  cut_next_starts =
      by_place (λ c. cut_map.starts (c + width (cut c)) ≡ true)
        (rw end_of_a (update_same m.starts (a + r) true))
        (rw end_of_cut (still_starts (a + width (size a)) (w.next_starts a p)))
        (λ c n1 n2 q.
          rw (elsewhere c n1 n2) (still_starts (c + width (size c)) (w.next_starts c q)))

  cut_next_base : (c : ℕ) → IsBuffer cut_map c → cut_map.base (c + width (cut c)) ≡ cut_map.base c
  cut_next_base =
      by_place (λ c. cut_map.base (c + width (cut c)) ≡ cut_map.base c)
        (ap cut_map.base end_of_a ∙ cut_base ∙ sym (old_base a p.0))
        (ap cut_map.base end_of_cut
          ∙ old_base (a + width (size a)) (w.next_starts a p)
          ∙ w.next_base a p
          ∙ sym cut_base)
        (λ c n1 n2 q.
          ap (λ (y : ℤ). cut_map.base (c + width y)) (elsewhere c n1 n2)
          ∙ old_base (c + width (size c)) (w.next_starts c q)
          ∙ w.next_base c q
          ∙ sym (old_base c q.0))

  not_over : (c : ℕ) → a ≢ c → IsBuffer m c → c < a + r → a + r < c + width (size c) → ⊥
  not_over c n1 q lt lt' = elim (dec_lt c a) [
    | yes below ↦ true-ne-false p.0 (w.apart c a q below (omega arith))
    | no above ↦ true-ne-false q.0 (w.apart a c p (omega arith) (omega arith))
  ]

  unchanged : (d : ℕ) → a + r ≢ d → m.starts d ≡ false → cut_map.starts d ≡ false
  unchanged d n s = update_ne m.starts (a + r) d true n ∙ s

  cut_apart :
      (c : ℕ)
      → IsBuffer cut_map c
      → (d : ℕ) → c < d
      → d < c + width (cut c)
      → cut_map.starts d ≡ false
  cut_apart =
      by_place (λ c. (d : ℕ) → c < d → d < c + width (cut c) → cut_map.starts d ≡ false)
        (λ d lt lt'.
          let below : d < a + r = omega (arith, ap width at_a) in
          unchanged d (λ e. absurd (omega arith)) (w.apart a d p lt (omega arith)))
        (λ d lt lt'.
          unchanged d (λ e. absurd (omega arith))
            (w.apart a d p (omega arith) (omega (arith, end_of_cut))))
        (λ c n1 n2 q d lt lt'.
          let inside : d < c + width (size c) = omega (arith, ap width (elsewhere c n1 n2)) in
          unchanged d (λ e. absurd (not_over c n1 q (omega arith) (omega arith)))
            (w.apart c d q lt inside))

  -- The same for all descriptors.
  by_start :
      (P : ℕ → Type 0)
      → P (a + r)
      → ((c : ℕ) → m.starts c ≡ true → P c)
      → (c : ℕ) → cut_map.starts c ≡ true
      → P c
  by_start P y rest c s = elim (ℕ_discrete (a + r) c) [
    | yes here ↦ subst P here y
    | no n2 ↦ rest c (old c n2 s)
  ]

  inside_chunk : a + r < m.base a + whole_chunk
  inside_chunk = omega (arith, w.within (a + width (size a)) (w.next_starts a p), w.next_base a p)

  pub cut-Layout : Layout cut_map cut
  cut-Layout = record {
    end_starts = λ c e. still_starts c (w.end_starts c e);
    end_used = λ c e.
        elsewhere c (λ here. true-ne-false e (ap m.ends (sym here) ∙ p.1))
          (λ here. true-ne-false e (ap m.ends (sym here) ∙ not_end))
        ∙ w.end_used c e;
    end_iff =
        by_start (λ c. c ≡ cut_map.base c + whole_chunk → m.ends c ≡ true)
          (λ e. absurd (omega (arith, inside_chunk, cut_base)))
          (λ c s e. w.end_iff c s (e ∙ ap (λ (x : ℕ). x + whole_chunk) (old_base c s)));
    some_width =
        by_place (λ c. 0 < width (cut c)) (omega (arith, ap width at_a))
          (omega (arith, ap width at_cut)) (λ c n1 n2 q. rw (elsewhere c n1 n2) (w.some_width c q));
    next_starts = cut_next_starts;
    next_base = cut_next_base;
    apart = λ c d q. cut_apart c q d;
    above =
        by_start (λ c. cut_map.base c ≤ c) (omega (arith, cut_base, w.above a p.0))
          (λ c s. omega (arith, old_base c s, w.above c s));
    within =
        by_start (λ c. c ≤ cut_map.base c + whole_chunk) (omega (arith, cut_base, inside_chunk))
          (λ c s. omega (arith, old_base c s, w.within c s));
  }

  pub cut-IsMarked :
      (prev : ℕ → ℕ)
      → prev (a + width (size a)) ≡ 0
      → IsMarked m size prev
      → IsMarked cut_map cut (update prev (a + r) r)
  cut-IsMarked prev untold marks =
      by_start
        (λ c. (update prev (a + r) r c ≡ 0) ⊎ FreeBefore cut_map cut c (update prev (a + r) r c))
        (rw (update_same prev (a + r) r) (
          inr (record {
            at = a;
            is_buffer = (still_starts a p.0, p.1);
            is_free = at_a;
            meets = refl;
          })))
        (λ c s.
          let e : update prev (a + r) r c ≡ prev c =
            update_ne prev (a + r) c r
              (λ here. true-ne-false s (ap m.starts (sym here) ∙ not_yet)) in
          rw e (told c (marks c s)))
    where
      told :
          (c : ℕ)
          → (prev c ≡ 0) ⊎ FreeBefore m size c (prev c)
          → (prev c ≡ 0) ⊎ FreeBefore cut_map cut c (prev c)
      told c (inl e) = inl e
      told c (inr f) =
          let ends : f.at + width (size f.at) ≡ c = omega (arith, f.meets, ap width f.is_free) in
          elim (ℕ_discrete a f.at) [
            | yes here ↦
                inl (ap prev (sym ends ∙ ap (λ (x : ℕ). x + width (size x)) (sym here)) ∙ untold)
            | no n1 ↦ inr (record {
              at = f.at;
              is_buffer = (still_starts f.at f.is_buffer.0, f.is_buffer.1);
              is_free =
                  elsewhere f.at n1
                    (λ here. true-ne-false f.is_buffer.0 (ap m.starts (sym here) ∙ not_yet))
                  ∙ f.is_free;
              meets = f.meets;
            })
          ]
