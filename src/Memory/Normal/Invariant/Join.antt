-- ===== src/Memory/Normal/Invariant/Join.antt =====
-- A buffer takes in the one after it.
use kupl.Prelude.{
  ℕ, ◌+◌, ◌<◌, ◌≡◌, ◌≢◌, sym, ap, ◌∙◌, subst, arith, ◌⊎◌, inl, inr, true, false, update,
  update_same, ℕ_discrete, dec_lt,
}
use kupl.Prelude.Int.{ℤ}
use kupl.Memory.Normal.Invariant.{Map, width, IsBuffer, FreeBefore, IsMarked, Layout}
use kupl.Memory.Normal.Invariant.Shape.{update_ne, true-ne-false, ends_once}

module _ (m : Map) (size : ℕ → ℤ) (w : Layout m size) (a b : ℕ) (z : ℤ) (p : IsBuffer m a)
    (q : IsBuffer m b) (meet : a + width (size a) ≡ b)
    (sum : width z ≡ width (size a) + width (size b)) where
  abbrev pub joined_map : Map
  joined_map = record m { starts = update m.starts b false }

  abbrev pub joined : ℕ → ℤ
  joined = update size a z

  a_ne_b : a ≢ b
  a_ne_b e = absurd (omega (arith, w.some_width a p))

  pub kept : (c : ℕ) → joined_map.starts c ≡ true → (b ≢ c) × (m.starts c ≡ true)
  kept c s = elim (ℕ_discrete b c) [
    | yes here ↦
        absurd
          (true-ne-false s (ap (update m.starts b false) (sym here) ∙ update_same m.starts b false))
    | no other ↦ (other, sym (update_ne m.starts b c false other) ∙ s)
  ]

  pub still : (c : ℕ) → b ≢ c → m.starts c ≡ true → joined_map.starts c ≡ true
  still c other s = update_ne m.starts b c false other ∙ s

  fewer : (c : ℕ) → m.starts c ≡ false → joined_map.starts c ≡ false
  fewer c s = elim (ℕ_discrete b c) [
    | yes here ↦ ap (update m.starts b false) (sym here) ∙ update_same m.starts b false
    | no other ↦ update_ne m.starts b c false other ∙ s
  ]

  end_of : width (joined a) ≡ width (size a) + width (size b)
  end_of = ap width (update_same size a z) ∙ sum

  -- The end of `b` is the end of the new buffer.
  same_end : b + width (size b) ≡ a + width (joined a)
  same_end = omega (arith, end_of)

  other_width : (c : ℕ) → a ≢ c → joined c ≡ size c
  other_width c ne = update_ne size a c z ne

  not_into_b : (c : ℕ) → a ≢ c → IsBuffer m c → b ≢ c + width (size c)
  not_into_b c ne r e = ne (ends_once m size w a c p r (meet ∙ e))

  joined_next_starts :
      (c : ℕ) → IsBuffer joined_map c → joined_map.starts (c + width (joined c)) ≡ true
  joined_next_starts c (s, f) = elim (ℕ_discrete a c) [
    | yes here ↦
        subst (λ (x : ℕ). joined_map.starts (x + width (joined x)) ≡ true) here
          (subst (λ (x : ℕ). joined_map.starts x ≡ true) same_end
            (still (b + width (size b)) (λ e. absurd (omega (arith, w.some_width b q)))
              (w.next_starts b q)))
    | no other ↦
        let r : IsBuffer m c = ((kept c s).1, f) in
        rw (other_width c other)
          (still (c + width (size c)) (not_into_b c other r) (w.next_starts c r))
  ]

  joined_next_base : (c : ℕ) → IsBuffer joined_map c → m.base (c + width (joined c)) ≡ m.base c
  joined_next_base c (s, f) = elim (ℕ_discrete a c) [
    | yes here ↦
        subst (λ (x : ℕ). m.base (x + width (joined x)) ≡ m.base x) here
          (ap m.base (sym same_end) ∙ w.next_base b q ∙ ap m.base (sym meet) ∙ w.next_base a p)
    | no other ↦ rw (other_width c other) (w.next_base c ((kept c s).1, f))
  ]

  joined_apart :
      (c d : ℕ)
      → IsBuffer joined_map c
      → c < d
      → d < c + width (joined c)
      → joined_map.starts d ≡ false
  joined_apart c d (s, f) lt lt' = elim (ℕ_discrete b d) [
    | yes here ↦ ap (update m.starts b false) (sym here) ∙ update_same m.starts b false
    | no apart_b ↦ fewer d (elim (ℕ_discrete a c) [
      | yes here ↦ elim (dec_lt d b) [
        | yes below ↦ w.apart a d p (omega arith) (omega arith)
        | no above ↦
            w.apart b d q (omega arith)
              (omega (arith, same_end, ap (λ (x : ℕ). x + width (joined x)) here))
      ]
      | no other ↦ w.apart c d ((kept c s).1, f) lt (omega (arith, ap width (other_width c other)))
    ])
  ]

  pub join-Layout : Layout joined_map joined
  join-Layout = record {
    end_starts =
        λ c e. still c (λ here. true-ne-false e (ap m.ends (sym here) ∙ q.1)) (w.end_starts c e);
    end_used = λ c e.
        other_width c (λ here. true-ne-false e (ap m.ends (sym here) ∙ p.1)) ∙ w.end_used c e;
    end_iff = λ c s. w.end_iff c (kept c s).1;
    some_width = λ c r. elim (ℕ_discrete a c) [
      | yes here ↦
          subst (λ (x : ℕ). 0 < width (joined x)) here (omega (arith, end_of, w.some_width a p))
      | no other ↦ rw (other_width c other) (w.some_width c ((kept c r.0).1, r.1))
    ];
    next_starts = joined_next_starts;
    next_base = joined_next_base;
    apart = joined_apart;
    above = λ c s. w.above c (kept c s).1;
    within = λ c s. w.within c (kept c s).1;
  }

  pub join-IsMarked :
      (prev : ℕ → ℕ)
      → prev (b + width (size b)) ≡ 0
      → IsMarked m size prev
      → IsMarked joined_map joined prev
  join-IsMarked prev untold marks c s = told (marks c (kept c s).1)
    where
      told :
          (prev c ≡ 0) ⊎ FreeBefore m size c (prev c)
          → (prev c ≡ 0) ⊎ FreeBefore joined_map joined c (prev c)
      told (inl e) = inl e
      told (inr f) =
          let ends : f.at + width (size f.at) ≡ c = omega (arith, f.meets, ap width f.is_free) in
          elim (ℕ_discrete b f.at) [
            | yes here ↦
                inl (ap prev (sym ends ∙ ap (λ (x : ℕ). x + width (size x)) (sym here)) ∙ untold)
            | no apart_b ↦ elim (ℕ_discrete a f.at) [
              | yes here ↦
                  absurd ((kept c s).0 (sym meet ∙ ap (λ (x : ℕ). x + width (size x)) here ∙ ends))
              | no other ↦ inr (record {
                at = f.at;
                is_buffer = (still f.at apart_b f.is_buffer.0, f.is_buffer.1);
                is_free = other_width f.at other ∙ f.is_free;
                meets = f.meets;
              })
            ]
          ]
