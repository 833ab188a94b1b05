-- ===== src/Lock/Invariant/Quiet.antt =====
-- A step of `kupl_tal_trylock` that takes no ticket.
use kupl.Prelude.{ℕ, zero, suc, ◌≡◌, sym, ◌≢◌, subst, arith, update, ℕ_discrete}
use kupl.Lock.{Stand, LockState}
use kupl.Lock.Invariant.{IsInside, IsPlaced, IsBusy, Inv, IsQuiet, quiet-Holds, quiet-IsInside}

-- A thread moves without a ticket before and after.
module _ (k : ℕ) (s : LockState) (inv : Inv k s) (i : ℕ) where
  quiet-IsBusy :
      (p : Stand) (busy : ℕ)
      → IsQuiet (s.pc i)
      → IsQuiet p
      → IsBusy s inv.served busy
      → IsBusy (record s { pc = update s.pc i p }) inv.served busy
  quiet-IsBusy p zero q q' (free, e) = (
    λ j h. elim (ℕ_discrete i j) [
      | yes same ↦
          quiet-IsInside p q' (subst IsInside (let e : update s.pc i p j ≡ p = ground arith in e) h)
      | no other ↦
          free j (subst IsInside (let e : update s.pc i p j ≡ s.pc j = ground arith in e) h)
    ],
    e,
  )
  quiet-IsBusy p (suc n) q q' (z, lt, h) =
      let ne : i ≢ s.drew inv.served =
        λ e. quiet-IsInside (s.pc i) q (subst (λ (j : ℕ). IsInside (s.pc j)) (sym e) h) in
      (
        z,
        lt,
        subst IsInside
            (let e : s.pc (s.drew inv.served) ≡ update s.pc i p (s.drew inv.served) =
                ground arith in
              e)
            h,
      )

  pub quiet-Inv :
      (p : Stand)
      → IsQuiet (s.pc i)
      → IsQuiet p
      → IsPlaced inv.served s.raw.head s.raw.next p
      → Inv (suc k) (record s { pc = update s.pc i p })
  quiet-Inv p q q' w = record {
    served = inv.served;
    busy = inv.busy;
    size_pos = inv.size_pos;
    length_values = inv.length_values;
    head_bound = omega (arith, inv.head_bound);
    served_le = inv.served_le;
    values_le = inv.values_le;
    slot_served = inv.slot_served;
    placed = λ j. ground (arith, inv.placed j);
    owner = λ j t h. ground (arith, inv.owner j t, quiet-Holds p t q');
    held = λ t le lt. ground (arith, inv.held t le lt, quiet-Holds (s.pc i) t q);
    is_busy = quiet-IsBusy p inv.busy q q' inv.is_busy;
    log = inv.log;
  }
