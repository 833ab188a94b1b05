-- ===== src/Lock/Invariant/Draw.antt =====
-- A ticket is drawn: by `kupl_tal_lock`, or by the CAS of `kupl_tal_trylock`.
use kupl.Prelude.{
  ℕ, zero, suc, ◌+◌, ◌%◌, ◌≤◌, ◌<◌, ◌≡◌, refl, sym, ◌∙◌, ◌≢◌, subst, arith, List, ◌∷◌, update,
  ℕ_discrete,
}
use kupl.Lock.{word, Stand, outside, waiting, trying, matched, inside, leaving, LockState}
use kupl.Lock.Invariant.{
  Holds, IsInside, firsts, IsPlaced, IsBusy, Inv, IsQuiet, quiet-Holds, quiet-IsInside, Holds-range,
  firsts-update,
}

module _ (k : ℕ) (s : LockState) (inv : Inv k s) (i : ℕ) where
  -- A thread draws a ticket, to wait or to go in at once.
  draw-IsPlaced :
      (p : Stand) (j : ℕ)
      → suc k < word
      → IsPlaced inv.served (s.raw.head + 1) s.raw.next p
      → IsPlaced inv.served ((s.raw.head + 1) % word) s.raw.next (update s.pc i p j)
  draw-IsPlaced p j small w =
      let same : (s.raw.head + 1) % word ≡ s.raw.head + 1 = omega (arith, inv.head_bound) in
      rw same (elim (ℕ_discrete i j) [
        | yes q ↦ let e : update s.pc i p j ≡ p = ground arith in rw e w
        | no other ↦
            let e : update s.pc i p j ≡ s.pc j = ground arith in
            rw e (grown (s.pc j) (inv.placed j))
      ])
    where
      grown :
          (q : Stand)
          → IsPlaced inv.served s.raw.head s.raw.next q
          → IsPlaced inv.served (s.raw.head + 1) s.raw.next q
      grown outside w = tt
      grown (waiting h) w = omega arith
      grown (trying h) w = omega arith
      grown (matched h) w = omega arith
      grown (inside h) w = omega arith
      grown (leaving h) w = omega arith

  draw-owner :
      (p : Stand) (j t : ℕ)
      → ((u : ℕ) → Holds p u → s.raw.head ≡ u)
      → Holds (update s.pc i p j) t
      → update s.drew s.raw.head i t ≡ j
  draw-owner p j t only h = elim (ℕ_discrete i j) [
    | yes q ↦
        let e : update s.pc i p j ≡ p = ground arith in
        let at = only t (subst (λ (r : Stand). Holds r t) e h) in ground arith
    | no other ↦
        let e : update s.pc i p j ≡ s.pc j = ground arith in
        let h' = subst (λ (r : Stand). Holds r t) e h in
        let range = Holds-range (s.pc j) t inv.served s.raw.head s.raw.next (inv.placed j) h' in
        ground (arith, inv.owner j t h')
  ]

  draw-held :
      (p : Stand) (t : ℕ)
      → IsQuiet (s.pc i)
      → Holds p s.raw.head
      → inv.served ≤ t
      → t < s.raw.head + 1
      → Holds (update s.pc i p (update s.drew s.raw.head i t)) t
  draw-held p t q h le lt = elim (ℕ_discrete s.raw.head t) [
    | yes same ↦
        let e : update s.pc i p (update s.drew s.raw.head i t) ≡ p = ground arith in
        subst (λ (r : Stand). Holds r t) (sym e) (subst (Holds p) same h)
    | no other ↦
        let h' = inv.held t le (omega arith) in
        let ne : i ≢ s.drew t =
          λ e. quiet-Holds (s.pc i) t q (subst (λ (j : ℕ). Holds (s.pc j) t) (sym e) h') in
        let e : update s.pc i p (update s.drew s.raw.head i t) ≡ s.pc (s.drew t) = ground arith in
        subst (λ (r : Stand). Holds r t) (sym e) h'
  ]

  abbrev drawn : Stand → List ℕ → LockState
  drawn p entered = record {
    raw = record s.raw { head = (s.raw.head + 1) % word };
    pc = update s.pc i p;
    drew = update s.drew s.raw.head i;
    entered = entered;
  }

  draw-Inv :
      (p : Stand) (busy : ℕ) (entered : List ℕ)
      → suc k < word
      → IsQuiet (s.pc i)
      → Holds p s.raw.head
      → ((u : ℕ) → Holds p u → s.raw.head ≡ u)
      → IsPlaced inv.served (s.raw.head + 1) s.raw.next p
      → IsBusy (drawn p entered) inv.served busy
      → entered ≡ firsts (update s.drew s.raw.head i) (inv.served + busy)
      → Inv (suc k) (drawn p entered)
  draw-Inv p busy entered small q h only w b l =
      let same : (s.raw.head + 1) % word ≡ s.raw.head + 1 = omega (arith, inv.head_bound) in
      record {
        served = inv.served;
        busy = busy;
        size_pos = inv.size_pos;
        length_values = inv.length_values;
        head_bound = omega (arith, inv.head_bound);
        served_le = omega (arith, inv.served_le, inv.head_bound);
        values_le = inv.values_le;
        slot_served = inv.slot_served;
        placed = λ j. draw-IsPlaced p j small w;
        owner = λ j t g. draw-owner p j t only g;
        held = λ t le lt. draw-held p t q h le (omega arith);
        is_busy = b;
        log = l;
      }

  draw-IsBusy :
      (busy : ℕ)
      → suc k < word
      → IsQuiet (s.pc i)
      → IsBusy s inv.served busy
      → IsBusy (drawn (waiting s.raw.head) s.entered) inv.served busy
  draw-IsBusy zero small q (free, e) = (
    λ j h. elim (ℕ_discrete i j) [
      | yes same ↦
          let e : update s.pc i (waiting s.raw.head) j ≡ waiting s.raw.head = ground arith in
          subst IsInside e h
      | no other ↦
          let e : update s.pc i (waiting s.raw.head) j ≡ s.pc j = ground arith in
          free j (subst IsInside e h)
    ],
    e,
  )
  draw-IsBusy (suc n) small q (z, lt, h) =
      let ne : i ≢ s.drew inv.served =
        λ e. quiet-IsInside (s.pc i) q (subst (λ (j : ℕ). IsInside (s.pc j)) (sym e) h) in
      let e : update s.pc i (waiting s.raw.head) (update s.drew s.raw.head i inv.served)
          ≡ s.pc (s.drew inv.served) =
        ground arith in
      (z, omega (arith, inv.head_bound), subst IsInside (sym e) h)

  busy-le : (busy : ℕ) → IsBusy s inv.served busy → inv.served + busy ≤ s.raw.head
  busy-le zero b = omega (arith, inv.served_le)
  busy-le (suc n) b = omega arith

  pub draw_wait-Inv :
      suc k < word → IsQuiet (s.pc i) → Inv (suc k) (drawn (waiting s.raw.head) s.entered)
  draw_wait-Inv small q =
      draw-Inv (waiting s.raw.head) inv.busy s.entered small q refl (λ u e. e)
        (inv.served_le, omega arith) (draw-IsBusy inv.busy small q inv.is_busy)
        (inv.log
          ∙ sym (
              firsts-update s.drew s.raw.head i (inv.served + inv.busy)
                (busy-le inv.busy inv.is_busy)))

  -- Nobody has a ticket, and the thread goes in at once.
  pub draw_enter-Inv :
      suc k < word
      → IsQuiet (s.pc i)
      → inv.served ≡ s.raw.head
      → Inv (suc k) (drawn (inside s.raw.head) (i ∷ s.entered))
  unfolding firsts
  draw_enter-Inv small q open_slot =
      let (none_inside, next_served) = free inv.busy inv.is_busy in
      draw-Inv (inside s.raw.head) 1 (i ∷ s.entered) small q refl (λ u e. e)
        (sym open_slot, omega arith, next_served)
        (
          refl,
          omega (arith, inv.head_bound),
          subst IsInside
              (let e : inside s.raw.head
                    ≡ update s.pc i (inside s.raw.head) (update s.drew s.raw.head i inv.served) =
                  ground arith in
                e)
              tt,
        )
        (went_in inv.busy inv.is_busy inv.log)
    where
      free : (busy : ℕ) → IsBusy s inv.served busy → IsBusy s inv.served 0
      free zero b = b
      free (suc n) b = absurd (omega arith)

      went_in :
          (busy : ℕ)
          → IsBusy s inv.served busy
          → s.entered ≡ firsts s.drew (inv.served + busy)
          → i ∷ s.entered ≡ firsts (update s.drew s.raw.head i) (inv.served + 1)
      went_in (suc n) b l = absurd (omega arith)
      went_in zero b l =
          let e : inv.served + 1 ≡ suc inv.served = omega arith in
          let z : inv.served + 0 ≡ inv.served = omega arith in
          let old = firsts-update s.drew s.raw.head i inv.served inv.served_le in
          rw e (rw (old, sym z) (ground (arith, l)))
