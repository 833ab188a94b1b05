-- ===== src/ParallelFor/Dynamic/Ends.antt =====
-- The dynamic policy ends: threads that are not finished can take a bounded number of turns.
use kupl.Prelude.{
  ℕ, suc, ◌+◌, ◌*◌, ◌-◌, ◌≤◌, ◌<◌, ◌≡◌, refl, ap, inl, inr, Bool, true, false, if◌then◌else◌, List,
  [], ◌∷◌, arith, ltb, ltb→lt, total, total_const, total_steps, total_same, total_change, update,
  Bool-cases, subst,
}
use kupl.Prelude.Int.{ℤ, pos, pos_part, neg_part, ltb_ℤ, leb_ℤ, +ℤ_parts}
use kupl.ParallelFor.Range.{AlignedIndex, Pf}
use kupl.ParallelFor.Dynamic.Cuts.{cut, cut-grows, cut_all, prepared}
use kupl.ParallelFor.Dynamic.Cover.{IsReady, enter-Inv}
use kupl.ParallelFor.Dynamic.{
  enter, kupl_dynamic_policy_prepare_common, Pc, scan, test, finished, Shared, wrap_tid, bump, grab,
  move_from, kupl_dynamic_policy_impl,
}
use kupl.ParallelFor.Dynamic.Invariant.{Inv, IsPlaced, Turns, kupl_dynamic_policy_impl-Inv}

-- Turns that a thread can take without being handed a chunk.
abbrev pub turns_left : ℕ → Pc → ℕ
turns_left tnum (scan loop_count _) = 2 * (tnum - loop_count) + 1
turns_left tnum (test loop_count _ _ _) = 2 * (tnum - loop_count)
turns_left tnum finished = 0

-- Chunks that a counter has left.
abbrev pub chunks_left : AlignedIndex → ℕ
chunks_left a = pos_part a.target + neg_part a.value - (pos_part a.value + neg_part a.target)

abbrev pub measure : ℕ → Shared → ℕ
measure tnum s =
    total tnum (λ i. turns_left tnum (s.pc i)) + total tnum (λ j. chunks_left (s.index j))

abbrev pub is_finished : Pc → Bool
is_finished finished = true
is_finished _ = false

module _ (tnum : ℕ) (s : Shared) (i : ℕ) (lt : i < tnum) where
  pc_change :
      (p : Pc)
      → total tnum (λ j. turns_left tnum (update s.pc i p j)) + turns_left tnum (s.pc i)
        ≡ total tnum (λ j. turns_left tnum (s.pc j)) + turns_left tnum p
  pc_change p =
      let e : update s.pc i p i ≡ p = ground arith in
      subst
        (λ q.
          total tnum (λ j. turns_left tnum (update s.pc i p j)) + turns_left tnum (s.pc i)
          ≡ total tnum (λ j. turns_left tnum (s.pc j)) + turns_left tnum q)
        e
        (total_change tnum (λ j. turns_left tnum (update s.pc i p j))
          (λ j. turns_left tnum (s.pc j)) i lt (λ j lj ne. ground arith))

  abbrev added : ℕ → ℕ → AlignedIndex
  added t = update s.index t (bump (s.index t))

  index_change :
      (t : ℕ)
      → t < tnum
      → total tnum (λ j. chunks_left (added t j)) + chunks_left (s.index t)
        ≡ total tnum (λ j. chunks_left (s.index j)) + chunks_left (bump (s.index t))
  index_change t lt' =
      let e : added t t ≡ bump (s.index t) = ground arith in
      subst
        (λ a.
          total tnum (λ j. chunks_left (added t j)) + chunks_left (s.index t)
          ≡ total tnum (λ j. chunks_left (s.index j)) + chunks_left a)
        e
        (total_change tnum (λ j. chunks_left (added t j)) (λ j. chunks_left (s.index j)) t lt'
          (λ j lj ne. ground arith))

  chunks_left-bump : (a : AlignedIndex) → chunks_left (bump a) ≤ chunks_left a
  chunks_left-bump a = omega (arith, +ℤ_parts a.value (pos 1))

  chunks_left-bump_more :
      (a : AlignedIndex) → leb_ℤ a.target a.value ≡ false → chunks_left (bump a) < chunks_left a
  chunks_left-bump_more a h = ground (arith, +ℤ_parts a.value (pos 1))

  local_down :
      (p q : Pc)
      → s.pc i ≡ p
      → turns_left tnum q < turns_left tnum p
      → measure tnum (record s { pc = update s.pc i q }) < measure tnum s
  local_down p q e h = omega (arith, pc_change q, ap (turns_left tnum) e)

  grab_down :
      (lc t : ℕ) (ci target : ℤ)
      → s.pc i ≡ test lc t ci target
      → IsPlaced tnum s.index i (test lc t ci target)
      → measure tnum (grab s i lc t target) < measure tnum s
  unfolding grab
  grab_down lc t ci target e here = elim (Bool-cases (leb_ℤ target (s.index t).value)) [
    | inl stop ↦ rw stop (
        omega (
          arith,
          pc_change (scan (lc + 1) (t + 1)),
          ap (turns_left tnum) e,
          index_change t here.1,
          chunks_left-bump (s.index t),
        ))
    | inr go ↦ rw go (
        omega (
          arith,
          pc_change (test lc t (s.index t).value target),
          ap (turns_left tnum) e,
          index_change t here.1,
          chunks_left-bump_more (s.index t) (rw (← here.3) go),
        ))
  ]

  -- A turn of a thread that is not finished brings the measure down.
  move_down :
      (p : Pc)
      → s.pc i ≡ p
      → is_finished p ≡ false
      → IsPlaced tnum s.index i p
      → measure tnum (move_from tnum s i p) < measure tnum s
  unfolding move_from
  move_down (scan lc t) e f here = elim (Bool-cases (ltb lc tnum)) [
    | inl more ↦
        let t' = wrap_tid tnum t in
        rw more (
          local_down (scan lc t) (test lc t' (s.index t').value (s.index t').target) e
            (omega (arith, ltb→lt lc tnum more)))
    | inr last ↦ rw last (local_down (scan lc t) finished e (omega arith))
  ]
  move_down (test lc t ci target) e f here = elim (Bool-cases (ltb_ℤ ci target)) [
    | inl go ↦ rw go (grab_down lc t ci target e here)
    | inr stop ↦
        rw stop (local_down (test lc t ci target) (scan (lc + 1) (t + 1)) e (omega (arith, here.0)))
  ]
  move_down finished e f here = cc

-- How many of the turns go to a thread that is not finished.
unfoldable pub busy_turns : ℕ → Shared → List ℕ → ℕ
busy_turns tnum s [] = 0
busy_turns tnum s (i ∷ turns) =
    (if is_finished (s.pc i) then 0 else 1)
    + busy_turns tnum (kupl_dynamic_policy_impl tnum s i) turns

idle_turn :
    (tnum : ℕ) (s : Shared) (i : ℕ) (p : Pc) → is_finished p ≡ true → move_from tnum s i p ≡ s
unfolding move_from
idle_turn tnum s i (scan lc t) f = cc
idle_turn tnum s i (test lc t ci target) f = cc
idle_turn tnum s i finished f = refl

turn_down :
    (tnum : ℕ) (s : Shared) (i : ℕ)
    → i < tnum
    → IsPlaced tnum s.index i (s.pc i)
    → (if is_finished (s.pc i) then 0 else 1) + measure tnum (kupl_dynamic_policy_impl tnum s i)
      ≤ measure tnum s
unfolding kupl_dynamic_policy_impl
turn_down tnum s i lt here = elim (Bool-cases (is_finished (s.pc i))) [
  | inl f ↦ rw (f, idle_turn tnum s i (s.pc i) f) (omega arith)
  | inr f ↦ rw f (omega (arith, move_down tnum s i lt (s.pc i) refl f here))
]

pub busy_turns-le :
    (tnum : ℕ) (start : ℕ → AlignedIndex) (s : Shared) (turns : List ℕ)
    → Turns tnum turns
    → Inv tnum start s
    → busy_turns tnum s turns ≤ measure tnum s
unfolding busy_turns
busy_turns-le tnum start s [] ts inv = omega arith
busy_turns-le tnum start s (i ∷ turns) (lt, ts) inv = omega (
  arith,
  turn_down tnum s i lt (inv.placed i lt),
  busy_turns-le tnum start (kupl_dynamic_policy_impl tnum s i) turns ts
      (kupl_dynamic_policy_impl-Inv tnum start s i lt inv),
)

chunks_left-cut :
    (c n j : ℕ) (a : AlignedIndex)
    → a ≡ record { value = pos (cut c n j); target = pos (cut c n (suc j)) }
    → chunks_left a ≡ cut c n (suc j) - cut c n j
chunks_left-cut c n j a e = rw e (omega arith)

measure_start :
    (pf : Pf) (c : ℕ)
    → IsReady pf c
    → measure pf.num_threads (enter (kupl_dynamic_policy_prepare_common pf))
      ≡ pf.num_threads * (2 * pf.num_threads + 1) + c
measure_start pf c ready =
    let n = pf.num_threads in
    let s = enter (kupl_dynamic_policy_prepare_common pf) in
    omega (
      arith,
      total_const n (2 * n + 1),
      total_same n (λ i. turns_left n (scan 0 i)) (λ i. 2 * n + 1) (λ i li. omega arith),
      total_same n (λ j. chunks_left (s.index j)) (λ j. cut c n (suc j) - cut c n j)
          (λ j lj.
            chunks_left-cut c n j (s.index j) (prepared pf c j _ ready.chunks ready.room lj)),
      total_steps n (cut c n) (cut-grows c n),
      cut_all c n ready.threads ready.few,
    )

-- When there is a chunk for every thread: in any interleaving, at most `c + n * (2 * n + 1)`
-- turns go to threads that have not finished, for `c` chunks and `n` threads.
pub after-busy_turns :
    (pf : Pf) (c : ℕ) (turns : List ℕ)
    → IsReady pf c
    → Turns pf.num_threads turns
    → busy_turns pf.num_threads (enter (kupl_dynamic_policy_prepare_common pf)) turns
      ≤ c + pf.num_threads * (2 * pf.num_threads + 1)
after-busy_turns pf c turns ready ts =
    let s = enter (kupl_dynamic_policy_prepare_common pf) in
    omega (
      arith,
      busy_turns-le pf.num_threads s.index s turns ts
          (enter-Inv pf.num_threads (kupl_dynamic_policy_prepare_common pf)),
      measure_start pf c ready,
    )
