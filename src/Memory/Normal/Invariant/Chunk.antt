-- ===== src/Memory/Normal/Invariant/Chunk.antt =====
-- A chunk is mapped.
use kupl.Prelude.{
  ℕ, ◌+◌, ◌≤◌, ◌<◌, ◌≡◌, ◌≢◌, refl, sym, ap, ◌∙◌, subst, arith, ◌⊎◌, inl, inr, true, false,
  Bool-cases, update, update_same, ℕ_discrete,
}
use kupl.Prelude.Int.{ℤ, pos, negsuc}
use kupl.Memory.{whole_chunk, mem_chunk_grow_size}
use kupl.Memory.Normal.Invariant.{Map, width, IsBuffer, FreeBefore, IsMarked, Layout}
use kupl.Memory.Normal.Invariant.Shape.{update_ne, true-ne-false}

-- The chunk at `a` lies apart from the chunks that are there.
abbrev pub HasRoom : Map → ℕ → Type 0
HasRoom m a =
    (c : ℕ)
    → m.starts c ≡ true
    → (m.base c + mem_chunk_grow_size ≤ a) ⊎ (a + mem_chunk_grow_size ≤ m.base c)

module _ (m : Map) (size : ℕ → ℤ) (w : Layout m size) (a : ℕ) (room : HasRoom m a) where
  abbrev last : ℕ
  last = a + whole_chunk

  abbrev pub grown_map : Map
  grown_map = record {
    starts = update (update m.starts a true) last true;
    ends = update m.ends last true;
    base = update (update m.base a a) last a;
  }

  abbrev pub grown : ℕ → ℤ
  grown = update (update size a (pos whole_chunk)) last (negsuc 0)

  a_ne_last : last ≢ a
  a_ne_last e = absurd (omega arith)

  old_out : (c : ℕ) → m.starts c ≡ true → (c < a) ⊎ (last < c)
  old_out c s = elim (room c s) [
    | inl below ↦ inl (omega (arith, w.within c s))
    | inr above ↦ inr (omega (arith, w.above c s))
  ]

  pub free_here : (c : ℕ) → a ≤ c → c ≤ last → m.starts c ≡ false
  free_here c le le' = elim (Bool-cases (m.starts c)) [
    | inr e ↦ e
    | inl e ↦ elim (old_out c e) [ inl lt ↦ absurd (omega arith) | inr gt ↦ absurd (omega arith) ]
  ]

  pub old_ne : (c : ℕ) → m.starts c ≡ true → (a ≢ c) × (last ≢ c)
  old_ne c s = elim (old_out c s) [
    | inl lt ↦ (λ e. absurd (omega arith), λ e. absurd (omega arith))
    | inr gt ↦ (λ e. absurd (omega arith), λ e. absurd (omega arith))
  ]

  pub more : (c : ℕ) → m.starts c ≡ true → grown_map.starts c ≡ true
  more c s =
      let (n1, n2) = old_ne c s in
      update_ne (update m.starts a true) last c true n2 ∙ update_ne m.starts a c true n1 ∙ s

  pub old_size : (c : ℕ) → m.starts c ≡ true → grown c ≡ size c
  old_size c s =
      let (n1, n2) = old_ne c s in
      update_ne (update size a (pos whole_chunk)) last c (negsuc 0) n2
      ∙ update_ne size a c (pos whole_chunk) n1

  old_base : (c : ℕ) → m.starts c ≡ true → grown_map.base c ≡ m.base c
  old_base c s =
      let (n1, n2) = old_ne c s in
      update_ne (update m.base a a) last c a n2 ∙ update_ne m.base a c a n1

  a_starts : grown_map.starts a ≡ true
  a_starts = update_ne (update m.starts a true) last a true a_ne_last ∙ update_same m.starts a true

  pub a_size : grown a ≡ pos whole_chunk
  a_size =
      update_ne (update size a (pos whole_chunk)) last a (negsuc 0) a_ne_last
      ∙ update_same size a (pos whole_chunk)

  a_base : grown_map.base a ≡ a
  a_base = update_ne (update m.base a a) last a a a_ne_last ∙ update_same m.base a a

  last_starts : grown_map.starts last ≡ true
  last_starts = update_same (update m.starts a true) last true

  last_base : grown_map.base last ≡ a
  last_base = update_same (update m.base a a) last a

  pub a-IsBuffer : IsBuffer grown_map a
  a-IsBuffer = (
    a_starts,
    update_ne m.ends last a true a_ne_last ∙ (elim (Bool-cases (m.ends a)) [
      | inr e ↦ e
      | inl e ↦ absurd (true-ne-false (w.end_starts a e) (free_here a (omega arith) (omega arith)))
    ]),
  )

  by_start :
      (P : ℕ → Type 0)
      → P a
      → P last
      → ((c : ℕ) → m.starts c ≡ true → P c)
      → (c : ℕ) → grown_map.starts c ≡ true
      → P c
  by_start P x y rest c s = elim (ℕ_discrete last c) [
    | yes here ↦ subst P here y
    | no n2 ↦
        let s1 = sym (update_ne (update m.starts a true) last c true n2) ∙ s in
        elim (ℕ_discrete a c) [
          | yes here ↦ subst P here x
          | no n1 ↦ rest c (sym (update_ne m.starts a c true n1) ∙ s1)
        ]
  ]

  by_place :
      (P : ℕ → Type 0) → P a → ((c : ℕ) → IsBuffer m c → P c) → (c : ℕ) → IsBuffer grown_map c → P c
  by_place P x rest c (s, f) =
      by_start (λ d. grown_map.ends d ≡ false → P d) (λ e. x)
        (λ e. absurd (true-ne-false (update_same m.ends last true) e))
        (λ d q e. rest d (q, sym (update_ne m.ends last d true ((old_ne d q).1)) ∙ e)) c s f

  end_of : a + width (grown a) ≡ last
  end_of = omega (arith, ap width a_size)

  grown_apart :
      (c : ℕ)
      → IsBuffer grown_map c
      → (d : ℕ) → c < d
      → d < c + width (grown c)
      → grown_map.starts d ≡ false
  grown_apart =
      by_place (λ c. (d : ℕ) → c < d → d < c + width (grown c) → grown_map.starts d ≡ false)
        (λ d lt lt'.
          unchanged d (λ e. absurd (omega arith)) (λ e. absurd (omega (arith, end_of)))
            (free_here d (omega arith) (omega (arith, end_of))))
        (λ c q d lt lt'.
          let in_c : d < c + width (size c) = omega (arith, ap width (old_size c q.0)) in
          let top = w.within (c + width (size c)) (w.next_starts c q) in
          let out = elim_room c q in
          unchanged d
            (λ e.
              absurd
                (out d lt (omega (arith, in_c, top, w.next_base c q)) (omega arith) (omega arith)))
            (λ e.
              absurd
                (out d lt (omega (arith, in_c, top, w.next_base c q)) (omega arith) (omega arith)))
            (w.apart c d q lt in_c))
    where
      unchanged : (d : ℕ) → a ≢ d → last ≢ d → m.starts d ≡ false → grown_map.starts d ≡ false
      unchanged d n1 n2 s =
          update_ne (update m.starts a true) last d true n2 ∙ update_ne m.starts a d true n1 ∙ s

      elim_room :
          (c : ℕ)
          → IsBuffer m c
          → (d : ℕ) → c < d
          → d < m.base c + whole_chunk
          → a ≤ d
          → d ≤ last
          → ⊥
      elim_room c q d lt top le le' = elim (room c q.0) [
        | inl below ↦ absurd (omega arith)
        | inr above ↦ absurd (omega (arith, w.above c q.0))
      ]

  pub grow-Layout : Layout grown_map grown
  grow-Layout = record {
    end_starts = λ c e. elim (ℕ_discrete last c) [
      | yes here ↦ subst (λ (d : ℕ). grown_map.starts d ≡ true) here last_starts
      | no n2 ↦ more c (w.end_starts c (sym (update_ne m.ends last c true n2) ∙ e))
    ];
    end_used = λ c e. elim (ℕ_discrete last c) [
      | yes here ↦
          subst (λ (d : ℕ). grown d ≡ negsuc 0) here
            (update_same (update size a (pos whole_chunk)) last (negsuc 0))
      | no n2 ↦
          let e' = sym (update_ne m.ends last c true n2) ∙ e in
          old_size c (w.end_starts c e') ∙ w.end_used c e'
    ];
    end_iff =
        by_start (λ c. c ≡ grown_map.base c + whole_chunk → grown_map.ends c ≡ true)
          (λ e. absurd (omega (arith, a_base))) (λ e. update_same m.ends last true)
          (λ c s e.
            update_ne m.ends last c true ((old_ne c s).1)
            ∙ w.end_iff c s (e ∙ ap (λ (x : ℕ). x + whole_chunk) (old_base c s)));
    some_width =
        by_place (λ c. 0 < width (grown c)) (omega (arith, ap width a_size))
          (λ c q. rw (old_size c q.0) (w.some_width c q));
    next_starts =
        by_place (λ c. grown_map.starts (c + width (grown c)) ≡ true)
          (ap grown_map.starts end_of ∙ last_starts)
          (λ c q.
            ap (λ (y : ℤ). grown_map.starts (c + width y)) (old_size c q.0)
            ∙ more (c + width (size c)) (w.next_starts c q));
    next_base =
        by_place (λ c. grown_map.base (c + width (grown c)) ≡ grown_map.base c)
          (ap grown_map.base end_of ∙ last_base ∙ sym a_base)
          (λ c q.
            ap (λ (y : ℤ). grown_map.base (c + width y)) (old_size c q.0)
            ∙ old_base (c + width (size c)) (w.next_starts c q)
            ∙ w.next_base c q
            ∙ sym (old_base c q.0));
    apart = λ c d q. grown_apart c q d;
    above =
        by_start (λ c. grown_map.base c ≤ c) (omega (arith, a_base)) (omega (arith, last_base))
          (λ c s. omega (arith, old_base c s, w.above c s));
    within =
        by_start (λ c. c ≤ grown_map.base c + whole_chunk) (omega (arith, a_base))
          (omega (arith, last_base)) (λ c s. omega (arith, old_base c s, w.within c s));
  }

  pub grow-IsMarked :
      (prev : ℕ → ℕ)
      → IsMarked m size prev
      → IsMarked grown_map grown (update (update prev a 0) last whole_chunk)
  grow-IsMarked prev marks =
      by_start
        (λ c.
          (update (update prev a 0) last whole_chunk c ≡ 0)
          ⊎ FreeBefore grown_map grown c (update (update prev a 0) last whole_chunk c))
        (inl (update_ne (update prev a 0) last a whole_chunk a_ne_last ∙ update_same prev a 0))
        (rw (update_same (update prev a 0) last whole_chunk)
          (inr (record { at = a; is_buffer = a-IsBuffer; is_free = a_size; meets = refl })))
        (λ c s.
          let (n1, n2) = old_ne c s in
          let e = update_ne (update prev a 0) last c whole_chunk n2 ∙ update_ne prev a c 0 n1 in
          rw e (told c (marks c s)))
    where
      told :
          (c : ℕ)
          → (prev c ≡ 0) ⊎ FreeBefore m size c (prev c)
          → (prev c ≡ 0) ⊎ FreeBefore grown_map grown c (prev c)
      told c (inl e) = inl e
      told c (inr f) = inr (record {
        at = f.at;
        is_buffer = (
          more f.at f.is_buffer.0,
          update_ne m.ends last f.at true ((old_ne f.at f.is_buffer.0).1) ∙ f.is_buffer.1,
        );
        is_free = old_size f.at f.is_buffer.0 ∙ f.is_free;
        meets = f.meets;
      })
