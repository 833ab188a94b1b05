-- ===== src/ParallelFor/Dynamic/Cover.antt =====
-- The dynamic policy hands out every chunk exactly once, whatever the interleaving.
use kupl.Prelude.{
  ℕ, suc, ◌≤◌, ◌<◌, ◌≡◌, refl, ap, ◌≢◌, ◌∙◌, sym, subst, List, arith, length, dec_lt, total,
  total_one, total_same, total_zero, ℕ_discrete,
}
use kupl.Prelude.Int.{ℤ, pos, negsuc}
use kupl.ParallelFor.Range.{AlignedIndex, Pf, kupl_calc_chunk_info}
use kupl.ParallelFor.Partition.{cuts_mono_le, locate, pieces_unique}
use kupl.ParallelFor.Dynamic.{Shared, finished, enter, run, kupl_dynamic_policy_prepare_common}
use kupl.ParallelFor.Dynamic.Cuts.{cut, cut-grows, cut_all, prepared}
use kupl.ParallelFor.Dynamic.Invariant.{count, taken, IsEmptied, Inv, Turns, run-Inv}

taken_none : (a : AlignedIndex) (k : ℤ) → taken a.value k a ≡ 0
taken_none a k = ground arith

pub enter-Inv : (tnum : ℕ) (pf : Pf) → Inv tnum (enter pf).index (enter pf)
enter-Inv tnum pf = record {
  targets = λ j. refl;
  grown = λ j. omega arith;
  counted =
      λ k. sym (total_same tnum _ _ (λ j lt. taken_none ((enter pf).index j) k) ∙ total_zero tnum);
  placed = λ i lt. omega arith;
  emptied = λ i j li lj h. absurd (omega arith);
}

module _ (lo hi : ℕ) (start : ℤ) (a : AlignedIndex) (at : start ≡ pos lo)
    (end : a.target ≡ pos hi) where
  taken_only : (m : ℕ) → taken start (pos m) a ≢ 0 → (lo ≤ m) × (m < hi)
  taken_only m h = ground arith

  taken_small : (k : ℤ) → taken start k a ≤ 1
  taken_small k = ground arith

  taken_negative : (m : ℕ) → taken start (negsuc m) a ≡ 0
  taken_negative m = ground arith

  taken_emptied : (m : ℕ) → IsEmptied a → lo ≤ m → m < hi → taken start (pos m) a ≡ 1
  taken_emptied m e l h = ground arith

-- The state after any turns, from counters at the cuts.
module _ (c n : ℕ) (p : 0 < n) (few : n ≤ c) (start : ℕ → AlignedIndex)
    (cuts : (j : ℕ)
      → j < n
      → start j ≡ record { value = pos (cut c n j); target = pos (cut c n (suc j)) })
    (s : Shared) (inv : Inv n start s) where
  abbrev f : ℤ → ℕ → ℕ
  f k j = taken (start j).value k (s.index j)

  from : (j : ℕ) → j < n → (start j).value ≡ pos (cut c n j)
  from j lt = ap (λ (a : AlignedIndex). a.value) (cuts j lt)

  until : (j : ℕ) → j < n → (s.index j).target ≡ pos (cut c n (suc j))
  until j lt = inv.targets j ∙ ap (λ (a : AlignedIndex). a.target) (cuts j lt)

  others :
      (m i : ℕ)
      → i < n
      → cut c n i ≤ m
      → m < cut c n (suc i)
      → (j : ℕ) → j < n
      → i ≢ j
      → f (pos m) j ≡ 0
  others m i li lo hi j lj ne = elim (ℕ_discrete (f (pos m) j) 0) [
    | yes z ↦ z
    | no nz ↦
        let (lo', hi') =
          taken_only (cut c n j) (cut c n (suc j)) (start j).value (s.index j) (from j lj)
            (until j lj) m nz in
        absurd (ne (pieces_unique (cut c n) (cut-grows c n) i j m lo hi lo' hi'))
  ]

  one_of :
      (m i : ℕ) → i < n → cut c n i ≤ m → m < cut c n (suc i) → total n (f (pos m)) ≡ f (pos m) i
  one_of m i li lo hi = total_one n (f (pos m)) i li (others m i li lo hi)

  find : (m : ℕ) → m < c → (i : ℕ) × (i < n) × (cut c n i ≤ m) × (m < cut c n (suc i))
  find m lt = locate (cut c n) (omega arith) n m (rw (cut_all c n p few) lt)

  cut-le : (j : ℕ) → j < n → cut c n (suc j) ≤ c
  cut-le j lt =
      subst (λ e. cut c n (suc j) ≤ e) (cut_all c n p few)
        (cuts_mono_le (cut c n) (cut-grows c n) (suc j) n lt)

  none_above : (m : ℕ) → c ≤ m → total n (f (pos m)) ≡ 0
  none_above m h =
      total_same n (f (pos m)) (λ _. 0)
        (λ j lj. elim (ℕ_discrete (f (pos m) j) 0) [
          | yes z ↦ z
          | no nz ↦
              let (lo, hi) =
                taken_only (cut c n j) (cut c n (suc j)) (start j).value (s.index j) (from j lj)
                  (until j lj) m nz in
              absurd (omega (arith, cut-le j lj))
        ])
      ∙ total_zero n

  called_inside : (k : ℤ) → count k s.called ≢ 0 → (m : ℕ) × (k ≡ pos m) × (m < c)
  called_inside (pos m) h = elim (dec_lt m c) [
    | yes lt ↦ (m, refl, lt)
    | no ge ↦ absurd (h (inv.counted (pos m) ∙ none_above m (omega arith)))
  ]
  called_inside (negsuc m) h = absurd (
      h (
        inv.counted (negsuc m)
        ∙ total_same n (f (negsuc m)) (λ _. 0)
            (λ j lj.
              taken_negative (cut c n j) (cut c n (suc j)) (start j).value (s.index j) (from j lj)
                (until j lj) m)
        ∙ total_zero n))

  called_once : (m : ℕ) → m < c → count (pos m) s.called ≤ 1
  called_once m lt =
      let (i, li, lo, hi) = find m lt in
      omega (
        arith,
        inv.counted (pos m),
        one_of m i li lo hi,
        taken_small (cut c n i) (cut c n (suc i)) (start i).value (s.index i) (from i li)
            (until i li) (pos m),
      )

  called_all : (m i : ℕ) → m < c → i < n → s.pc i ≡ finished → count (pos m) s.called ≡ 1
  called_all m i lt li e =
      let (j, lj, lo, hi) = find m lt in
      let empty : IsEmptied (s.index j) = inv.emptied i j li lj (rw e tt) in
      inv.counted (pos m)
      ∙ one_of m j lj lo hi
      ∙ taken_emptied (cut c n j) (cut c n (suc j)) (start j).value (s.index j) (from j lj)
          (until j lj) m empty lo hi

-- The policy in a state that any turns reach, from `kupl_dynamic_policy_prepare_common`.
abbrev pub after : Pf → List ℕ → Shared
after pf turns = run pf.num_threads (enter (kupl_dynamic_policy_prepare_common pf)) turns

-- The counters have room, and each thread has a chunk: `kupl_parallel_for_num_threads` takes no
-- more threads than chunks.
pub record IsReady (pf : Pf) (c : ℕ) : Type 0 where
  pub chunks : (kupl_calc_chunk_info pf).total_chunks ≡ pos c
  pub threads : 0 < pf.num_threads
  pub few : pf.num_threads ≤ c
  pub room : pf.num_threads ≤ length pf.chunk_index

module _ (pf : Pf) (c : ℕ) (ready : IsReady pf c) (turns : List ℕ)
    (ts : Turns pf.num_threads turns) where
  open ready use {chunks, threads, few, room}

  abbrev at_start : Shared
  at_start = enter (kupl_dynamic_policy_prepare_common pf)

  at_cuts :
      (j : ℕ)
      → j < pf.num_threads
      → at_start.index j ≡ record {
        value = pos (cut c pf.num_threads j);
        target = pos (cut c pf.num_threads (suc j));
      }
  at_cuts j lt = prepared pf c j _ chunks room lt

  kept : Inv pf.num_threads at_start.index (after pf turns)
  kept =
      run-Inv pf.num_threads at_start.index at_start turns ts
        (enter-Inv pf.num_threads (kupl_dynamic_policy_prepare_common pf))

  -- When there is a chunk for every thread: after any interleaving of the threads' turns, each
  -- chunk that was handed to the loop body is one of the chunks of the range.
  pub after-called_inside :
      (k : ℤ) → count k (after pf turns).called ≢ 0 → (m : ℕ) × (k ≡ pos m) × (m < c)
  after-called_inside k h =
      called_inside c pf.num_threads threads few at_start.index at_cuts (after pf turns) kept k h

  -- When there is a chunk for every thread: after any interleaving in which some thread has
  -- finished, every chunk of the range was handed to the loop body exactly once.
  pub after-called_all :
      (m i : ℕ)
      → m < c
      → i < pf.num_threads
      → (after pf turns).pc i ≡ finished
      → count (pos m) (after pf turns).called ≡ 1
  after-called_all m i lt li e =
      called_all c pf.num_threads threads few at_start.index at_cuts (after pf turns) kept m i lt li
        e

  -- When there is a chunk for every thread: after any interleaving, no chunk was handed to the
  -- loop body twice.
  pub after-called_once : (k : ℤ) → count k (after pf turns).called ≤ 1
  after-called_once k = elim (ℕ_discrete (count k (after pf turns).called) 0) [
    | yes never ↦ omega arith
    | no once ↦
        let (m, e, lt) = after-called_inside k once in
        rw e (
          called_once c pf.num_threads threads few at_start.index at_cuts (after pf turns) kept m
            lt)
  ]
