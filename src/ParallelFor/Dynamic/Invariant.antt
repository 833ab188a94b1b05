-- ===== src/ParallelFor/Dynamic/Invariant.antt =====
-- What every interleaving of the dynamic policy keeps: the chunks handed out are those that the
-- counters have passed, and a thread has emptied the counters that it has gone through.
use kupl.Prelude.{
  ℕ, ◌+◌, ◌≤◌, ◌<◌, ◌≡◌, refl, sym, ◌∙◌, ap, subst, ◌⊎◌, inl, inr, true, ◌&&◌, if◌then◌else◌, ltb,
  List, [], ◌∷◌, arith, update, total, total_change, Bool-cases, ℕ_discrete,
}
use kupl.Prelude.Int.{eqb_ℤ, ℤ, pos, pos_part, neg_part, ltb_ℤ, leb_ℤ, ◌≤ℤ◌, +ℤ_parts}
use kupl.ParallelFor.Range.{AlignedIndex}
use kupl.ParallelFor.Dynamic.{
  Pc, scan, test, finished, Shared, wrap_tid, bump, grab, move_from, kupl_dynamic_policy_impl, run,
}

-- How often chunk `k` was handed to the loop body.
abbrev pub count : ℤ → List ℤ → ℕ
count k [] = 0
count k (c ∷ cs) = (if eqb_ℤ k c then 1 else 0) + count k cs

-- 1 if the counter has passed `k` since `start`.
abbrev pub taken : ℤ → ℤ → AlignedIndex → ℕ
taken start k a = if leb_ℤ start k && (ltb_ℤ k a.value && ltb_ℤ k a.target) then 1 else 0

abbrev pub IsEmptied : AlignedIndex → Type 0
IsEmptied a = a.target ≤ℤ a.value

-- Counter `j` is one of the first `loop_count` that thread `i` goes through.
abbrev pub Passed : ℕ → ℕ → ℕ → ℕ → Type 0
Passed tnum i loop_count j = ((i ≤ j) × (j < i + loop_count)) ⊎ (j + tnum < i + loop_count)

abbrev pub HasPassed : ℕ → ℕ → Pc → ℕ → Type 0
HasPassed tnum i (scan loop_count _) j = Passed tnum i loop_count j
HasPassed tnum i (test loop_count _ _ _) j = Passed tnum i loop_count j
HasPassed tnum i finished j = Unit

-- The counter in hand is the next one round.
abbrev pub IsPlaced : ℕ → (ℕ → AlignedIndex) → ℕ → Pc → Type 0
IsPlaced tnum index i (scan lc t) =
    (lc ≤ tnum) × (((t ≡ i + lc) × (t ≤ tnum)) ⊎ (t + tnum ≡ i + lc))
IsPlaced tnum index i (test lc t ci target) =
    (lc < tnum)
    × (t < tnum)
    × ((t ≡ i + lc) ⊎ (t + tnum ≡ i + lc))
    × (target ≡ (index t).target)
    × (ci ≤ℤ (index t).value)
IsPlaced tnum index i finished = Unit

pub record Inv (tnum : ℕ) (start : ℕ → AlignedIndex) (s : Shared) : Type 0 where
  pub targets : (j : ℕ) → (s.index j).target ≡ (start j).target
  pub grown : (j : ℕ) → (start j).value ≤ℤ (s.index j).value
  pub counted : (k : ℤ) → count k s.called ≡ total tnum (λ j. taken (start j).value k (s.index j))
  pub placed : (i : ℕ) → i < tnum → IsPlaced tnum s.index i (s.pc i)
  pub emptied :
      (i j : ℕ) → i < tnum → j < tnum → HasPassed tnum i (s.pc i) j → IsEmptied (s.index j)

-- A thread moves only itself and the counter in hand.
module _ (tnum : ℕ) (start : ℕ → AlignedIndex) (s : Shared) (inv : Inv tnum start s) (i : ℕ)
    (lt : i < tnum) where
  abbrev EmptiedBy : Pc → Type 0
  EmptiedBy p = (k : ℕ) → k < tnum → HasPassed tnum i p k → IsEmptied (s.index k)

  -- A step that leaves the counters alone needs a look at the thread only.
  pc-Inv :
      (p : Pc)
      → IsPlaced tnum s.index i p
      → EmptiedBy p
      → Inv tnum start (record s { pc = update s.pc i p })
  pc-Inv p here by = record {
    targets = inv.targets;
    grown = inv.grown;
    counted = inv.counted;
    placed = λ j lj. ground (arith, inv.placed j lj);
    emptied = λ j k lj lk h. ground (arith, inv.emptied j k lj lk, by k lk);
  }

  scan-Inv :
      (lc t : ℕ)
      → IsPlaced tnum s.index i (scan lc t)
      → EmptiedBy (scan lc t)
      → Inv tnum start (move_from tnum s i (scan lc t))
  unfolding move_from
  scan-Inv lc t here by = elim (Bool-cases (ltb lc tnum)) [
    | inl e ↦ rw e (
        let t' = wrap_tid tnum t in
        pc-Inv (test lc t' (s.index t').value (s.index t').target)
          (ground arith, ground arith, ground arith, refl, omega arith) by)
    | inr e ↦ rw e (pc-Inv finished tt (λ k lk _. by k lk (ground arith)))
  ]

  -- A thread that finds its counter empty has gone through one more.
  test_done :
      (lc t : ℕ) (ci target : ℤ) (index : ℕ → AlignedIndex)
      → IsPlaced tnum s.index i (test lc t ci target)
      → ((k : ℕ) → k < tnum → Passed tnum i lc k → IsEmptied (index k))
      → IsEmptied (index t)
      → (k : ℕ) → k < tnum
      → Passed tnum i (lc + 1) k
      → IsEmptied (index k)
  test_done lc t ci target index here by e k lk h = elim (ℕ_discrete k t) [
    | yes same ↦ rw same e
    | no other ↦ by k lk (ground arith)
  ]

  test_next :
      (lc t : ℕ) (ci target : ℤ)
      → IsPlaced tnum s.index i (test lc t ci target)
      → IsPlaced tnum s.index i (scan (lc + 1) (t + 1))
  test_next lc t ci target here = ground arith

  skip-Inv :
      (lc t : ℕ) (ci target : ℤ)
      → IsPlaced tnum s.index i (test lc t ci target)
      → EmptiedBy (test lc t ci target)
      → target ≤ℤ ci
      → Inv tnum start (record s { pc = update s.pc i (scan (lc + 1) (t + 1)) })
  skip-Inv lc t ci target here by stop =
      pc-Inv (scan (lc + 1) (t + 1)) (test_next lc t ci target here) (
        test_done lc t ci target s.index here by
          (omega (arith, ap pos_part here.3, ap neg_part here.3)))

  abbrev added : ℕ → ℕ → AlignedIndex
  added t = update s.index t (bump (s.index t))

  bump_grows : (a : AlignedIndex) → a.value ≤ℤ (bump a).value
  bump_grows a = omega (arith, +ℤ_parts)

  added_target : (t j : ℕ) → (added t j).target ≡ (s.index j).target
  added_target t j = ground arith

  added_grows : (t j : ℕ) → (s.index j).value ≤ℤ (added t j).value
  added_grows t j = ground (arith, bump_grows (s.index j))

  abbrev passed : (ℕ → AlignedIndex) → ℤ → ℕ
  passed index k = total tnum (λ j. taken (start j).value k (index j))

  passed_change :
      (t : ℕ) (k : ℤ)
      → t < tnum
      → passed (added t) k + taken (start t).value k (s.index t)
        ≡ passed s.index k + taken (start t).value k (bump (s.index t))
  passed_change t k lt' =
      let e : added t t ≡ bump (s.index t) = ground arith in
      subst
        (λ a.
          passed (added t) k + taken (start t).value k (s.index t)
          ≡ passed s.index k + taken (start t).value k a)
        e
        (total_change tnum (λ j. taken (start j).value k (added t j))
          (λ j. taken (start j).value k (s.index j)) t lt' (λ j lj ne. ground arith))

  taken-bump_emptied : (l k : ℤ) (a : AlignedIndex) → IsEmptied a → taken l k (bump a) ≡ taken l k a
  taken-bump_emptied l k a e = ground (arith, +ℤ_parts a.value (pos 1))

  taken-bump :
      (l k : ℤ) (a : AlignedIndex)
      → l ≤ℤ a.value
      → ltb_ℤ a.value a.target ≡ true
      → taken l k (bump a) ≡ (if eqb_ℤ k a.value then 1 else 0) + taken l k a
  taken-bump l k a g e = ground (arith, +ℤ_parts a.value (pos 1))

  IsPlaced-added : (t j : ℕ) (p : Pc) → IsPlaced tnum s.index j p → IsPlaced tnum (added t) j p
  IsPlaced-added t j (scan lc u) h = h
  IsPlaced-added t j (test lc u ci target) (a, b, c, d, e) =
      (a, b, c, d ∙ sym (added_target t u), omega (arith, e, added_grows t u))
  IsPlaced-added t j finished h = tt

  IsEmptied-added : (t k : ℕ) → IsEmptied (s.index k) → IsEmptied (added t k)
  IsEmptied-added t k h =
      omega
        (arith, h, ap pos_part (added_target t k), ap neg_part (added_target t k), added_grows t k)

  -- A step that adds to the counter `t`.
  added-Inv :
      (t : ℕ) (p : Pc) (called : List ℤ)
      → IsPlaced tnum s.index i p
      → ((k : ℕ) → k < tnum → HasPassed tnum i p k → IsEmptied (added t k))
      → ((k : ℤ) → count k called ≡ passed (added t) k)
      → Inv tnum start (record { index = added t; pc = update s.pc i p; called = called })
  added-Inv t p called here by c = record {
    targets = λ j. added_target t j ∙ inv.targets j;
    grown = λ j. omega (arith, inv.grown j, added_grows t j);
    counted = c;
    placed = λ j lj.
        ground (arith, IsPlaced-added t j (s.pc j) (inv.placed j lj), IsPlaced-added t i p here);
    emptied = λ j k lj lk h. ground (arith, IsEmptied-added t k, inv.emptied j k lj lk, by k lk);
  }

  grab-Inv :
      (lc t : ℕ) (ci target : ℤ)
      → IsPlaced tnum s.index i (test lc t ci target)
      → EmptiedBy (test lc t ci target)
      → Inv tnum start (grab s i lc t target)
  unfolding grab
  grab-Inv lc t ci target here by = elim (Bool-cases (leb_ℤ target (s.index t).value)) [
    | inl stop ↦
        let empty : IsEmptied (s.index t) = ground arith in
        rw stop (
          added-Inv t (scan (lc + 1) (t + 1)) s.called (test_next lc t ci target here)
            (test_done lc t ci target (added t) here (λ k lk h. IsEmptied-added t k (by k lk h))
              (IsEmptied-added t t empty))
            (λ k. omega (
              arith,
              inv.counted k,
              passed_change t k here.1,
              taken-bump_emptied (start t).value k (s.index t) empty,
            )))
    | inr go ↦
        let more : ltb_ℤ (s.index t).value (s.index t).target ≡ true = ground arith in
        rw go (
          added-Inv t (test lc t (s.index t).value target) ((s.index t).value ∷ s.called)
            (here.0, here.1, here.2, here.3, omega arith)
            (λ k lk h. IsEmptied-added t k (by k lk h))
            (λ k. omega (
              arith,
              inv.counted k,
              passed_change t k here.1,
              taken-bump (start t).value k (s.index t) (inv.grown t) more,
            )))
  ]

  move-Inv :
      (p : Pc)
      → IsPlaced tnum s.index i p
      → EmptiedBy p
      → s.pc i ≡ p
      → Inv tnum start (move_from tnum s i p)
  unfolding move_from
  move-Inv (scan lc t) here by e = scan-Inv lc t here by
  move-Inv (test lc t ci target) here by e = elim (Bool-cases (ltb_ℤ ci target)) [
    | inl go ↦ rw go (grab-Inv lc t ci target here by)
    | inr stop ↦ rw stop (skip-Inv lc t ci target here by (ground arith))
  ]
  move-Inv finished here by e = inv

pub kupl_dynamic_policy_impl-Inv :
    (tnum : ℕ) (start : ℕ → AlignedIndex) (s : Shared) (i : ℕ)
    → i < tnum
    → Inv tnum start s
    → Inv tnum start (kupl_dynamic_policy_impl tnum s i)
unfolding kupl_dynamic_policy_impl
kupl_dynamic_policy_impl-Inv tnum start s i lt inv =
    move-Inv tnum start s inv i lt (s.pc i) (inv.placed i lt) (λ k lk. inv.emptied i k lt lk) refl

-- Turns of the threads below `tnum` only.
abbrev pub Turns : ℕ → List ℕ → Type 0
Turns tnum [] = Unit
Turns tnum (i ∷ turns) = (i < tnum) × Turns tnum turns

pub run-Inv :
    (tnum : ℕ) (start : ℕ → AlignedIndex) (s : Shared) (turns : List ℕ)
    → Turns tnum turns
    → Inv tnum start s
    → Inv tnum start (run tnum s turns)
unfolding run
run-Inv tnum start s [] ts inv = inv
run-Inv tnum start s (i ∷ turns) (lt, ts) inv =
    run-Inv tnum start (kupl_dynamic_policy_impl tnum s i) turns ts
      (kupl_dynamic_policy_impl-Inv tnum start s i lt inv)
