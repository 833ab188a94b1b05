-- ===== src/Lock/Invariant/Store.antt =====
-- The store of `kupl_tal_unlock`, which opens the next slot.
use kupl.Prelude.{
  ℕ, zero, suc, ◌+◌, ◌%◌, ◌≤◌, ◌<◌, ◌≡◌, sym, ap, ◌∙◌, ◌≢◌, subst, arith, List, update, length,
  length-set, set, get_or, get_or-set_self, get_or-set_ne, ℕ_discrete,
}
use kupl.Lock.{Stand, outside, waiting, trying, matched, inside, leaving, LockState}
use kupl.Lock.Invariant.{Holds, IsInside, firsts, IsPlaced, IsBusy, Inv, Inside-Holds}

module _ (k : ℕ) (s : LockState) (inv : Inv k s) (i h : ℕ) (e : s.pc i ≡ leaving h) where
  here : IsPlaced inv.served s.raw.head s.raw.next (leaving h)
  here = subst (IsPlaced inv.served s.raw.head s.raw.next) e (inv.placed i)

  mine : s.drew inv.served ≡ i
  mine = inv.owner i inv.served (subst (λ (p : Stand). Holds p inv.served) (sym e) here.0)

  only_served : (t : ℕ) → Holds (s.pc i) t → t ≡ inv.served
  only_served t q = let at : h ≡ t = subst (λ (p : Stand). Holds p t) e q in omega (arith, here.0)

  abbrev pub stored : List ℕ
  stored = set s.raw.values (s.raw.next % s.raw.size) s.raw.next

  in_range : s.raw.next % s.raw.size < length s.raw.values
  in_range = omega (arith, inv.size_pos, inv.length_values)

  stored-le : (j : ℕ) → get_or stored j 0 ≤ inv.served + 1
  stored-le j = elim (ℕ_discrete (s.raw.next % s.raw.size) j) [
    | yes q ↦ rw (← q) (
        omega (
          arith,
          get_or-set_self s.raw.values (s.raw.next % s.raw.size) s.raw.next 0 in_range,
          here,
        ))
    | no other ↦ omega (
      arith,
      get_or-set_ne s.raw.values (s.raw.next % s.raw.size) j s.raw.next 0 other,
      inv.values_le j,
    )
  ]

  pub opened : get_or stored ((inv.served + 1) % s.raw.size) 0 ≡ inv.served + 1
  opened =
      rw (sym here.2) (get_or-set_self s.raw.values (s.raw.next % s.raw.size) s.raw.next 0 in_range)

  others : (j : ℕ) → i ≢ j → Holds (s.pc j) inv.served → ⊥
  others j ne q = ne (sym mine ∙ inv.owner j inv.served q)

  moved_up :
      (q : Stand)
      → IsPlaced inv.served s.raw.head s.raw.next q
      → (Holds q inv.served → ⊥)
      → IsPlaced (inv.served + 1) s.raw.head s.raw.next q
  moved_up outside w not_served = tt
  moved_up (waiting g) w not_served = let ne : g ≢ inv.served = not_served in omega arith
  moved_up (trying g) w not_served = w
  moved_up (matched g) w not_served = omega arith
  moved_up (inside g) w not_served = absurd (not_served w.0)
  moved_up (leaving g) w not_served = absurd (not_served w.0)

  stored-IsPlaced :
      (j : ℕ) → IsPlaced (inv.served + 1) s.raw.head s.raw.next (update s.pc i outside j)
  stored-IsPlaced j = elim (ℕ_discrete i j) [
    | yes q ↦ let f : update s.pc i outside j ≡ outside = ground arith in rw f tt
    | no other ↦
        let f : update s.pc i outside j ≡ s.pc j = ground arith in
        rw f (moved_up (s.pc j) (inv.placed j) (others j other))
  ]

  stored-owner : (j t : ℕ) → Holds (update s.pc i outside j) t → s.drew t ≡ j
  stored-owner j t q = elim (ℕ_discrete i j) [
    | yes p ↦
        let f : update s.pc i outside j ≡ outside = ground arith in
        absurd (subst (λ (r : Stand). Holds r t) f q)
    | no other ↦
        let f : update s.pc i outside j ≡ s.pc j = ground arith in
        inv.owner j t (subst (λ (r : Stand). Holds r t) f q)
  ]

  stored-held :
      (t : ℕ) → inv.served + 1 ≤ t → t < s.raw.head → Holds (update s.pc i outside (s.drew t)) t
  stored-held t le lt =
      let q = inv.held t (omega arith) lt in
      let ne : i ≢ s.drew t = λ p.
        let at = only_served t (subst (λ (j : ℕ). Holds (s.pc j) t) (sym p) q) in
        absurd (omega arith) in
      let f : update s.pc i outside (s.drew t) ≡ s.pc (s.drew t) = ground arith in
      subst (λ (r : Stand). Holds r t) (sym f) q

  nobody_inside : (j : ℕ) → IsInside (update s.pc i outside j) → ⊥
  nobody_inside j b = elim (ℕ_discrete i j) [
    | yes p ↦ let f : update s.pc i outside j ≡ outside = ground arith in subst IsInside f b
    | no other ↦
        let f : update s.pc i outside j ≡ s.pc j = ground arith in
        others j other (
          Inside-Holds (s.pc j) inv.served s.raw.head s.raw.next (inv.placed j)
            (subst IsInside f b))
  ]

  was_busy : (busy : ℕ) → IsBusy s inv.served busy → inv.served + busy ≡ inv.served + 1 + 0
  was_busy zero b = absurd (b.0 i (subst IsInside (sym e) tt))
  was_busy (suc n) b = omega arith

  pub store-Inv :
      Inv (suc k) (record s { raw = record s.raw { values = stored }; pc = update s.pc i outside })
  store-Inv = record {
    served = inv.served + 1;
    busy = 0;
    size_pos = inv.size_pos;
    length_values =
        length-set s.raw.values (s.raw.next % s.raw.size) s.raw.next ∙ inv.length_values;
    head_bound = omega (arith, inv.head_bound);
    served_le = omega (arith, here);
    values_le = stored-le;
    slot_served = opened;
    placed = stored-IsPlaced;
    owner = stored-owner;
    held = stored-held;
    is_busy = (nobody_inside, here.2);
    log = inv.log ∙ ap (firsts s.drew) (was_busy inv.busy inv.is_busy);
  }
