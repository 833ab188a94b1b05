-- ===== src/Lock/Invariant/Hand.antt =====
-- The lock is handed on: a waiting thread goes in, and `kupl_tal_unlock`.
use kupl.Prelude.{
  ℕ, zero, suc, ◌+◌, ◌%◌, ◌≤◌, ◌<◌, ◌≡◌, refl, sym, ◌∙◌, subst, arith, ◌∷◌, update, ℕ_discrete,
}
use kupl.Lock.{word, Stand, outside, waiting, trying, matched, inside, leaving, LockState}
use kupl.Lock.Invariant.{Holds, IsInside, firsts, IsPlaced, IsBusy, Inv, Inside-Holds, Holds-range}

module _ (k : ℕ) (s : LockState) (inv : Inv k s) (i : ℕ) where
  free-IsBusy :
      (busy : ℕ)
      → IsBusy s inv.served busy
      → s.drew inv.served ≡ i
      → (IsInside (s.pc i) → ⊥)
      → IsBusy s inv.served 0
  free-IsBusy zero b e out = b
  free-IsBusy (suc n) b e out = absurd (out (subst (λ (j : ℕ). IsInside (s.pc j)) e b.2))

  -- The thread keeps its ticket.
  keep-owner :
      (p : Stand) (j t : ℕ)
      → ((u : ℕ) → Holds p u → Holds (s.pc i) u)
      → Holds (update s.pc i p j) t
      → s.drew t ≡ j
  keep-owner p j t same h = elim (ℕ_discrete i j) [
    | yes q ↦
        let e : update s.pc i p j ≡ p = ground arith in
        inv.owner i t (same t (subst (λ (r : Stand). Holds r t) e h)) ∙ q
    | no other ↦
        let e : update s.pc i p j ≡ s.pc j = ground arith in
        inv.owner j t (subst (λ (r : Stand). Holds r t) e h)
  ]

  keep-held :
      (p : Stand) (t : ℕ)
      → ((u : ℕ) → Holds (s.pc i) u → Holds p u)
      → inv.served ≤ t
      → t < s.raw.head
      → Holds (update s.pc i p (s.drew t)) t
  keep-held p t same le lt = elim (ℕ_discrete i (s.drew t)) [
    | yes q ↦
        let e : update s.pc i p (s.drew t) ≡ p = ground arith in
        subst (λ (r : Stand). Holds r t) (sym e)
          (same t (subst (λ (j : ℕ). Holds (s.pc j) t) (sym q) (inv.held t le lt)))
    | no other ↦
        let e : update s.pc i p (s.drew t) ≡ s.pc (s.drew t) = ground arith in
        subst (λ (r : Stand). Holds r t) (sym e) (inv.held t le lt)
  ]

  -- Only one thread has the served ticket, so all others stand where the next ticket does not matter.
  others-IsPlaced :
      (p : Stand) (next : ℕ) (j : ℕ)
      → s.drew inv.served ≡ i
      → IsPlaced inv.served s.raw.head next p
      → IsPlaced inv.served s.raw.head next (update s.pc i p j)
  others-IsPlaced p next j mine w = elim (ℕ_discrete i j) [
    | yes q ↦ let e : update s.pc i p j ≡ p = ground arith in rw e w
    | no other ↦
        let e : update s.pc i p j ≡ s.pc j = ground arith in
        rw e (
          outsider (s.pc j) (inv.placed j) (λ b. other (
            sym mine
            ∙ inv.owner j inv.served
                (Inside-Holds (s.pc j) inv.served s.raw.head s.raw.next (inv.placed j) b))))
  ]
    where
      outsider :
          (q : Stand)
          → IsPlaced inv.served s.raw.head s.raw.next q
          → (IsInside q → ⊥)
          → IsPlaced inv.served s.raw.head next q
      outsider outside w out = tt
      outsider (waiting h) w out = w
      outsider (trying h) w out = w
      outsider (matched h) w out = w
      outsider (inside h) w out = absurd (out tt)
      outsider (leaving h) w out = absurd (out tt)

  pub enter-Inv :
      (h : ℕ)
      → s.pc i ≡ waiting h
      → h ≡ inv.served
      → Inv (suc k) (record s { pc = update s.pc i (inside h); entered = i ∷ s.entered })
  unfolding firsts
  enter-Inv h e at =
      let has : Holds (s.pc i) inv.served = subst (λ (p : Stand). Holds p inv.served) (sym e) at in
      let mine = inv.owner i inv.served has in
      let out : IsInside (s.pc i) → ⊥ = λ b. subst IsInside e b in
      let was = free-IsBusy inv.busy inv.is_busy mine out in
      let range =
        Holds-range (s.pc i) inv.served inv.served s.raw.head s.raw.next (inv.placed i) has in
      record {
        served = inv.served;
        busy = 1;
        size_pos = inv.size_pos;
        length_values = inv.length_values;
        head_bound = omega (arith, inv.head_bound);
        served_le = inv.served_le;
        values_le = inv.values_le;
        slot_served = inv.slot_served;
        placed = λ j. others-IsPlaced (inside h) s.raw.next j mine (at, omega arith, was.1);
        owner = λ j t g.
            keep-owner (inside h) j t (λ u q. subst (λ (p : Stand). Holds p u) (sym e) q) g;
        held =
            λ t le lt. keep-held (inside h) t (λ u q. subst (λ (p : Stand). Holds p u) e q) le lt;
        is_busy = (
          refl,
          range.1,
          subst IsInside
              (let f : inside h ≡ update s.pc i (inside h) (s.drew inv.served) = ground arith in f)
              tt,
        );
        log = logged inv.busy inv.is_busy inv.log mine out;
      }
    where
      logged :
          (busy : ℕ)
          → IsBusy s inv.served busy
          → s.entered ≡ firsts s.drew (inv.served + busy)
          → s.drew inv.served ≡ i
          → (IsInside (s.pc i) → ⊥)
          → i ∷ s.entered ≡ firsts s.drew (inv.served + 1)
      logged (suc n) b l mine out = absurd (out (subst (λ (j : ℕ). IsInside (s.pc j)) mine b.2))
      logged zero b l mine out =
          let e : inv.served + 1 ≡ suc inv.served = omega arith in
          let z : inv.served + 0 ≡ inv.served = omega arith in rw e (rw (sym z) (ground (arith, l)))

  pub next-Inv :
      (h : ℕ)
      → suc k < word
      → s.pc i ≡ inside h
      → Inv (suc k) (record s {
        raw = record s.raw { next = (s.raw.next + 1) % word };
        pc = update s.pc i (leaving h);
      })
  next-Inv h small e =
      let here = subst (IsPlaced inv.served s.raw.head s.raw.next) e (inv.placed i) in
      let has : Holds (s.pc i) inv.served =
        subst (λ (p : Stand). Holds p inv.served) (sym e) here.0 in
      let mine = inv.owner i inv.served has in
      let same : (s.raw.next + 1) % word ≡ inv.served + 1 = omega (arith, inv.head_bound) in
      record {
        served = inv.served;
        busy = inv.busy;
        size_pos = inv.size_pos;
        length_values = inv.length_values;
        head_bound = omega (arith, inv.head_bound);
        served_le = inv.served_le;
        values_le = inv.values_le;
        slot_served = inv.slot_served;
        placed = λ j.
            others-IsPlaced (leaving h) ((s.raw.next + 1) % word) j mine (here.0, here.1, same);
        owner = λ j t g.
            keep-owner (leaving h) j t (λ u q. subst (λ (p : Stand). Holds p u) (sym e) q) g;
        held =
            λ t le lt. keep-held (leaving h) t (λ u q. subst (λ (p : Stand). Holds p u) e q) le lt;
        is_busy = still inv.busy inv.is_busy e mine;
        log = inv.log;
      }
    where
      still :
          (busy : ℕ)
          → IsBusy s inv.served busy
          → s.pc i ≡ inside h
          → s.drew inv.served ≡ i
          → IsBusy
              (record s {
                raw = record s.raw { next = (s.raw.next + 1) % word };
                pc = update s.pc i (leaving h);
              })
              inv.served
              busy
      still zero b e mine = absurd (b.0 i (subst IsInside (sym e) tt))
      still (suc n) b e mine = (
        b.0,
        b.1,
        subst IsInside
            (let f : leaving h ≡ update s.pc i (leaving h) (s.drew inv.served) = ground arith in f)
            tt,
      )
