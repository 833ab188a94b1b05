-- ===== src/Memory/Normal/Invariant/Shape.antt =====
-- What the steps of `kupl_normal_alloc` and `kupl_normal_free` do to the layout: marks, signs, a buffer
-- cut in two, and two joined.
use kupl.Prelude.{
  ℕ, ◌+◌, ◌≡◌, ◌≢◌, refl, sym, ap, ◌∙◌, subst, arith, ◌⊎◌, inl, inr, Bool, true, false, update,
  ◌==◌, update_same, ℕ_discrete, dec_lt,
}
use kupl.Prelude.Int.{ℤ, pos}
use kupl.Memory.Normal.Invariant.{Map, width, IsBuffer, FreeBefore, IsMarked, Layout}

pub update_ne {ℓ} : {A : Type ℓ} (f : ℕ → A) (i j : ℕ) (a : A) → i ≢ j → update f i a j ≡ f j
update_ne f i j a ne = let e : (i == j) ≡ false = ground arith in rw e refl

pub true-ne-false : {b : Bool} → b ≡ true → b ≡ false → ⊥
true-ne-false e f = cc

module _ (m : Map) (size : ℕ → ℤ) where
  pub zero_prev-IsMarked :
      (prev : ℕ → ℕ) (x : ℕ) → IsMarked m size prev → IsMarked m size (update prev x 0)
  zero_prev-IsMarked prev x w c q = elim (ℕ_discrete x c) [
    | yes same ↦ inl (rw same (update_same prev c 0))
    | no other ↦ let e = update_ne prev x c 0 other in rw e (w c q)
  ]

  pub tell_prev-IsMarked :
      (prev : ℕ → ℕ) (a n : ℕ)
      → IsBuffer m a
      → size a ≡ pos n
      → IsMarked m size prev
      → IsMarked m size (update prev (a + n) n)
  tell_prev-IsMarked prev a n p free w c q = elim (ℕ_discrete (a + n) c) [
    | yes same ↦
        let e : update prev (a + n) n c ≡ n = ground arith in
        rw e (inr (record { at = a; is_buffer = p; is_free = free; meets = same }))
    | no other ↦ let e = update_ne prev (a + n) c n other in rw e (w c q)
  ]

module _ (m : Map) (size : ℕ → ℤ) (w : Layout m size) where
  -- Only one buffer ends at a place.
  pub ends_once :
      (a b : ℕ) → IsBuffer m a → IsBuffer m b → a + width (size a) ≡ b + width (size b) → a ≡ b
  ends_once a b p q e = elim (ℕ_discrete a b) [
    | yes same ↦ same
    | no other ↦ elim (dec_lt a b) [
      | yes lt ↦
          let z = w.apart a b p lt (omega (arith, w.some_width b q)) in
          absurd (true-ne-false (q.0) z)
      | no ge ↦
          let z = w.apart b a q (omega arith) (omega (arith, w.some_width a p)) in
          absurd (true-ne-false (p.0) z)
    ]
  ]

  -- A buffer is taken, or comes back: its size changes the sign.
  module _ (a : ℕ) (z : ℤ) (p : IsBuffer m a) (same : width z ≡ width (size a)) where
    abbrev flipped : ℕ → ℤ
    flipped = update size a z

    width-flipped : (c : ℕ) → width (flipped c) ≡ width (size c)
    width-flipped c = elim (ℕ_discrete a c) [
      | yes here ↦ ground (arith, here)
      | no other ↦ ap width (update_ne size a c z other)
    ]

    pub flip-Layout : Layout m flipped
    flip-Layout = record {
      end_starts = w.end_starts;
      end_used = λ c q.
          let other : a ≢ c = λ e. true-ne-false q (subst (λ (b : ℕ). m.ends b ≡ false) e p.1) in
          update_ne size a c z other ∙ w.end_used c q;
      end_iff = w.end_iff;
      some_width = λ c q. omega (arith, width-flipped c, w.some_width c q);
      next_starts = λ c q. rw (width-flipped c) (w.next_starts c q);
      next_base = λ c q. rw (width-flipped c) (w.next_base c q);
      apart = λ c d q lt lt'. w.apart c d q lt (omega (arith, width-flipped c));
      above = w.above;
      within = w.within;
    }

    pub flip-IsMarked :
        (prev : ℕ → ℕ)
        → prev (a + width (size a)) ≡ 0
        → IsMarked m size prev
        → IsMarked m flipped prev
    flip-IsMarked prev untold marks c q = told (marks c q)
      where
        told :
            (prev c ≡ 0) ⊎ FreeBefore m size c (prev c)
            → (prev c ≡ 0) ⊎ FreeBefore m flipped c (prev c)
        told (inl e) = inl e
        told (inr b) = elim (ℕ_discrete a b.at) [
          | yes here ↦
              let f : a + width (size a) ≡ c =
                ap (λ (x : ℕ). x + width (size x)) here
                ∙ omega (arith, b.meets, ap width b.is_free) in
              inl (ap prev (sym f) ∙ untold)
          | no other ↦ inr (record {
            at = b.at;
            is_buffer = b.is_buffer;
            is_free = update_ne size a b.at z other ∙ b.is_free;
            meets = b.meets;
          })
        ]
