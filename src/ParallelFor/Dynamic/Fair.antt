-- ===== src/ParallelFor/Dynamic/Fair.antt =====
-- The dynamic policy ends for a thread that gets enough turns.
use kupl.Prelude.{
  ℕ, ◌+◌, ◌*◌, ◌<◌, ◌==◌, ◌≡◌, refl, ◌∙◌, ◌≢◌, true, if◌then◌else◌, List, [], ◌∷◌, arith, inl, inr,
  Bool-cases, ℕ_discrete,
}
use kupl.ParallelFor.Range.{Pf}
use kupl.ParallelFor.Dynamic.{
  Pc, scan, test, finished, Shared, enter, run, move_from, grab, kupl_dynamic_policy_impl,
  kupl_dynamic_policy_prepare_common,
}
use kupl.ParallelFor.Dynamic.Invariant.{Turns}
use kupl.ParallelFor.Dynamic.Cover.{IsReady, after}
use kupl.ParallelFor.Dynamic.Ends.{is_finished, busy_turns, after-busy_turns}

-- How often it is thread `i`'s turn.
abbrev pub turns_of : ℕ → List ℕ → ℕ
turns_of i [] = 0
turns_of i (j ∷ turns) = (if i == j then 1 else 0) + turns_of i turns

move_from-pc_ne :
    (tnum : ℕ) (s : Shared) (i j : ℕ) (p : Pc) → j ≢ i → (move_from tnum s i p).pc j ≡ s.pc j
unfolding move_from grab
move_from-pc_ne tnum s i j (scan lc t) ne = ground arith
move_from-pc_ne tnum s i j (test lc t ci target) ne = ground arith
move_from-pc_ne tnum s i j finished ne = refl

move_from-finished :
    (tnum : ℕ) (s : Shared) (i : ℕ)
    → s.pc i ≡ finished
    → (move_from tnum s i (s.pc i)).pc i ≡ finished
unfolding move_from
move_from-finished tnum s i e = rw e e

stays_finished :
    (tnum : ℕ) (s : Shared) (i j : ℕ)
    → s.pc j ≡ finished
    → (kupl_dynamic_policy_impl tnum s i).pc j ≡ finished
unfolding kupl_dynamic_policy_impl
stays_finished tnum s i j e = elim (ℕ_discrete j i) [
  | yes q ↦ rw q (move_from-finished tnum s i (rw (← q) e))
  | no ne ↦ move_from-pc_ne tnum s i j (s.pc i) ne ∙ e
]

run-finished :
    (tnum : ℕ) (s : Shared) (turns : List ℕ) (j : ℕ)
    → s.pc j ≡ finished
    → (run tnum s turns).pc j ≡ finished
unfolding run
run-finished tnum s [] j e = e
run-finished tnum s (i ∷ turns) j e =
    run-finished tnum (kupl_dynamic_policy_impl tnum s i) turns j (stays_finished tnum s i j e)

is_finished-pc : (p : Pc) → is_finished p ≡ true → p ≡ finished
is_finished-pc (scan lc t) h = absurd (ground arith)
is_finished-pc (test lc t ci target) h = absurd (ground arith)
is_finished-pc finished h = refl

run-turns_of :
    (tnum : ℕ) (s : Shared) (turns : List ℕ) (j : ℕ)
    → busy_turns tnum s turns < turns_of j turns
    → (run tnum s turns).pc j ≡ finished
unfolding run busy_turns
run-turns_of tnum s [] j h = absurd (omega arith)
run-turns_of tnum s (i ∷ turns) j h = elim (Bool-cases (is_finished (s.pc j))) [
  | inl f ↦ run-finished tnum s (i ∷ turns) j (is_finished-pc (s.pc j) f)
  | inr f ↦
      run-turns_of tnum (kupl_dynamic_policy_impl tnum s i) turns j
        (elim (ℕ_discrete j i) [ yes q ↦ ground (arith, q, f) | no ne ↦ ground (arith, ne) ])
]

-- When there is a chunk for every thread: a thread that has had more than `c + n * (2 * n +
-- 1)` turns has finished, for `c` chunks and `n` threads, whatever the interleaving.
pub after-turns_of :
    (pf : Pf) (c : ℕ) (turns : List ℕ) (i : ℕ)
    → IsReady pf c
    → Turns pf.num_threads turns
    → c + pf.num_threads * (2 * pf.num_threads + 1) < turns_of i turns
    → (after pf turns).pc i ≡ finished
after-turns_of pf c turns i ready ts h =
    run-turns_of pf.num_threads (enter (kupl_dynamic_policy_prepare_common pf)) turns i
      (omega (arith, after-busy_turns pf c turns ready ts))
