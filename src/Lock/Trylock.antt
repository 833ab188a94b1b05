-- ===== src/Lock/Trylock.antt =====
-- `kupl_tal_trylock` gives 1 if nobody has a ticket, and does not wait.
use kupl.Prelude.{
  ℕ, ◌%◌, ◌<◌, ◌==◌, ◌≡◌, refl, ap, ◌∙◌, arith, Bool, true, false, some, List, [], ◌∷◌, ◌++◌,
  length, dec_lt,
}
use kupl.Lock.{
  word, TicketArrayLock, slot, Call, trylock, Stand, outside, trying, matched, inside, LockState,
  turn_from, turn, run_turns, fresh, kupl_ticket_array_lock_init, kupl_tal_trylock_load,
  kupl_tal_trylock_test, kupl_tal_trylock_cas,
}
use kupl.Lock.Invariant.{Holds, Holds-range, Inv}
use kupl.Lock.Order.{reached-Inv, pc_after}

-- The turns of one call, with nobody else between them.
abbrev pub alone : ℕ → List (ℕ × Call)
alone i = (i, trylock) ∷ (i, trylock) ∷ []

module _ {k : ℕ} (s : LockState) (inv : Inv k s) (i : ℕ) (out : s.pc i ≡ outside) where
  abbrev loaded : LockState
  loaded = kupl_tal_trylock_load s i

  turn-load : turn s i trylock ≡ loaded
  unfolding turn turn_from
  turn-load = ap (turn_from s i trylock) out

  loaded-pc : loaded.pc i ≡ trying s.raw.head
  unfolding kupl_tal_trylock_load
  loaded-pc = ground arith

  abbrev tested : LockState
  tested = kupl_tal_trylock_test loaded i s.raw.head

  turn-test : turn loaded i trylock ≡ tested
  unfolding turn turn_from
  turn-test = ap (turn_from loaded i trylock) loaded-pc

  run_turns-two : run_turns s (alone i) ≡ tested
  unfolding run_turns
  run_turns-two = ap (λ (r : LockState). turn r i trylock) turn-load ∙ turn-test

  fails :
      slot s.raw s.raw.head == s.raw.head ≡ false → (tested.pc i ≡ outside) × (tested.raw ≡ s.raw)
  unfolding kupl_tal_trylock_test kupl_tal_trylock_load
  fails e = (ground arith, refl)

  matches : slot s.raw s.raw.head == s.raw.head ≡ true → tested.pc i ≡ matched s.raw.head
  unfolding kupl_tal_trylock_test kupl_tal_trylock_load
  matches e = ground arith

  swapped : (kupl_tal_trylock_cas tested i s.raw.head).pc i ≡ inside s.raw.head
  unfolding kupl_tal_trylock_cas kupl_tal_trylock_test kupl_tal_trylock_load
  swapped = ground arith

  swaps : tested.pc i ≡ matched s.raw.head → (turn tested i trylock).pc i ≡ inside s.raw.head
  unfolding turn turn_from
  swaps e = ap (λ (p : Stand). (turn_from tested i trylock p).pc i) e ∙ swapped

  free-served : ((j t : ℕ) → Holds (s.pc j) t → ⊥) → inv.served ≡ s.raw.head
  free-served nobody = elim (dec_lt inv.served s.raw.head) [
    | yes lt ↦ absurd (nobody (s.drew inv.served) inv.served (inv.held inv.served (omega arith) lt))
    | no ge ↦ omega (arith, inv.served_le)
  ]

  succeeds :
      ((j t : ℕ) → Holds (s.pc j) t → ⊥)
      → (run_turns s (alone i ++ (i, trylock) ∷ [])).pc i ≡ inside s.raw.head
  unfolding run_turns
  succeeds nobody =
      let e = free-served nobody in
      let open_slot : slot s.raw s.raw.head == s.raw.head ≡ true =
        ground (arith, ap (slot s.raw) e, inv.slot_served) in
      ap (λ (r : LockState). (turn r i trylock).pc i) run_turns-two ∙ swaps (matches open_slot)

  gives_up :
      (j t : ℕ)
      → Holds (s.pc j) t
      → ((run_turns s (alone i)).pc i ≡ outside) × ((run_turns s (alone i)).raw ≡ s.raw)
  gives_up j t h =
      let range = Holds-range (s.pc j) t inv.served s.raw.head s.raw.next (inv.placed j) h in
      let shut : slot s.raw s.raw.head == s.raw.head ≡ false =
        ground (arith, inv.values_le (s.raw.head % s.raw.size)) in
      let (at, same) = fails shut in
      (
        ap (λ (r : LockState). r.pc i) run_turns-two ∙ at,
        ap (λ (r : LockState). r.raw) run_turns-two ∙ same,
      )

-- For such a lock after fewer than 2^64 turns, and a call of `trylock` by a thread outside
-- without turns of others: if no thread has a ticket the caller has the lock after three
-- turns; if some thread has one, the caller is outside again after two, and the lock is as
-- before.
pub trylock-answer :
    (calloc : ℕ → Bool) (pu_cnt : ℕ) (raw : TicketArrayLock) (turns : List (ℕ × Call)) (i : ℕ)
    → 0 < pu_cnt
    → kupl_ticket_array_lock_init calloc pu_cnt ≡ some raw
    → length turns < word
    → pc_after raw turns i ≡ outside
    → let s = run_turns (fresh raw) turns in
      (((j t : ℕ) → Holds (s.pc j) t → ⊥)
        → (run_turns s (alone i ++ (i, trylock) ∷ [])).pc i ≡ inside s.raw.head)
      × ((j t : ℕ)
          → Holds (s.pc j) t
          → ((run_turns s (alone i)).pc i ≡ outside) × ((run_turns s (alone i)).raw ≡ s.raw))
trylock-answer calloc pu_cnt raw turns i some_pu e small out =
    let s = run_turns (fresh raw) turns in
    let inv = reached-Inv calloc pu_cnt raw turns some_pu e small in
    (succeeds s inv i out, gives_up s inv i out)
