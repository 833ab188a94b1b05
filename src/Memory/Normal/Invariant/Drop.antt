-- ===== src/Memory/Normal/Invariant/Drop.antt =====
-- A chunk that is one free buffer is unmapped.
use kupl.Prelude.{
  ℕ, ◌+◌, ◌≡◌, ◌≢◌, sym, ap, ◌∙◌, subst, arith, ◌⊎◌, inl, inr, true, false, Bool-cases, update,
  update_same, ℕ_discrete,
}
use kupl.Prelude.Int.{ℤ, pos}
use kupl.Memory.{whole_chunk}
use kupl.Memory.Normal.Invariant.{Map, width, IsBuffer, FreeBefore, IsMarked, Layout}
use kupl.Memory.Normal.Invariant.Shape.{update_ne, true-ne-false, ends_once}

module _ (m : Map) (size : ℕ → ℤ) (w : Layout m size) (a : ℕ) (p : IsBuffer m a)
    (whole : size a ≡ pos whole_chunk) where
  abbrev last : ℕ
  last = a + whole_chunk

  abbrev pub dropped_map : Map
  dropped_map = record m {
    starts = update (update m.starts a false) last false;
    ends = update m.ends last false;
  }

  end_of : a + width (size a) ≡ last
  end_of = omega (arith, ap width whole)

  last_starts : m.starts last ≡ true
  last_starts = subst (λ (c : ℕ). m.starts c ≡ true) end_of (w.next_starts a p)

  last_base : m.base last ≡ m.base a
  last_base = ap m.base (sym end_of) ∙ w.next_base a p

  at_base : m.base a ≡ a
  at_base = omega (arith, w.within last last_starts, last_base, w.above a p.0)

  pub last_ends : m.ends last ≡ true
  last_ends = w.end_iff last last_starts (omega (arith, last_base, at_base))

  kept : (c : ℕ) → dropped_map.starts c ≡ true → (a ≢ c) × (last ≢ c) × (m.starts c ≡ true)
  kept c s = elim (ℕ_discrete last c) [
    | yes here ↦ absurd (
        true-ne-false s
          (ap dropped_map.starts (sym here) ∙ update_same (update m.starts a false) last false))
    | no n2 ↦
        let s1 = sym (update_ne (update m.starts a false) last c false n2) ∙ s in
        elim (ℕ_discrete a c) [
          | yes here ↦ absurd (
              true-ne-false s1
                (ap (update m.starts a false) (sym here) ∙ update_same m.starts a false))
          | no n1 ↦ (n1, n2, sym (update_ne m.starts a c false n1) ∙ s1)
        ]
  ]

  kept-IsBuffer : (c : ℕ) → IsBuffer dropped_map c → (a ≢ c) × (last ≢ c) × IsBuffer m c
  kept-IsBuffer c (s, f) =
      let (n1, n2, s') = kept c s in (n1, n2, (s', sym (update_ne m.ends last c false n2) ∙ f))

  pub still_there : (c : ℕ) → a ≢ c → last ≢ c → m.starts c ≡ true → dropped_map.starts c ≡ true
  still_there c n1 n2 s =
      update_ne (update m.starts a false) last c false n2 ∙ update_ne m.starts a c false n1 ∙ s

  fewer : (c : ℕ) → m.starts c ≡ false → dropped_map.starts c ≡ false
  fewer c s = elim (Bool-cases (dropped_map.starts c)) [
    | inr e ↦ e
    | inl e ↦ absurd (true-ne-false ((kept c e).2) s)
  ]

  -- No other buffer ends where the chunk starts, or where it ends.
  not_first : (c : ℕ) → IsBuffer m c → a ≢ c + width (size c)
  not_first c q e =
      absurd (omega (arith, w.some_width c q, w.above c q.0, w.next_base c q, ap m.base e, at_base))

  not_last : (c : ℕ) → a ≢ c → IsBuffer m c → last ≢ c + width (size c)
  not_last c n1 q e = n1 (ends_once m size w a c p q (end_of ∙ e))

  pub drop-Layout : Layout dropped_map size
  drop-Layout = record {
    end_starts = λ c e. elim (ℕ_discrete last c) [
      | yes here ↦ absurd (
          true-ne-false e
            (ap (update m.ends last false) (sym here) ∙ update_same m.ends last false))
      | no n2 ↦
          let e' = sym (update_ne m.ends last c false n2) ∙ e in
          still_there c (λ here. true-ne-false e' (ap m.ends (sym here) ∙ p.1)) n2
            (w.end_starts c e')
    ];
    end_used = λ c e. elim (ℕ_discrete last c) [
      | yes here ↦ w.end_used c (ap m.ends (sym here) ∙ last_ends)
      | no n2 ↦ w.end_used c (sym (update_ne m.ends last c false n2) ∙ e)
    ];
    end_iff = λ c s e. update_ne m.ends last c false ((kept c s).1) ∙ w.end_iff c ((kept c s).2) e;
    some_width = λ c q. w.some_width c (kept-IsBuffer c q).2;
    next_starts = λ c q.
        let (n1, n2, r) = kept-IsBuffer c q in
        still_there (c + width (size c)) (not_first c r) (not_last c n1 r) (w.next_starts c r);
    next_base = λ c q. w.next_base c (kept-IsBuffer c q).2;
    apart = λ c d q lt lt'. fewer d (w.apart c d (kept-IsBuffer c q).2 lt lt');
    above = λ c s. w.above c (kept c s).2;
    within = λ c s. w.within c (kept c s).2;
  }

  pub drop-IsMarked : (prev : ℕ → ℕ) → IsMarked m size prev → IsMarked dropped_map size prev
  drop-IsMarked prev marks c s = told (marks c (kept c s).2)
    where
      told :
          (prev c ≡ 0) ⊎ FreeBefore m size c (prev c)
          → (prev c ≡ 0) ⊎ FreeBefore dropped_map size c (prev c)
      told (inl e) = inl e
      told (inr f) =
          let ends : f.at + width (size f.at) ≡ c = omega (arith, f.meets, ap width f.is_free) in
          let n1 : a ≢ f.at =
            λ here. (kept c s).1 (sym end_of ∙ ap (λ (x : ℕ). x + width (size x)) here ∙ ends) in
          let n2 : last ≢ f.at = λ here. true-ne-false last_ends (ap m.ends here ∙ f.is_buffer.1) in
          inr (record {
            at = f.at;
            is_buffer = (
              still_there f.at n1 n2 f.is_buffer.0,
              update_ne m.ends last f.at false n2 ∙ f.is_buffer.1,
            );
            is_free = f.is_free;
            meets = f.meets;
          })
