-- ===== src/Scheduler/Hybrid/Levels.antt =====
-- The hybrid plugin over any sequence of calls: the blocks of the inner level are accounted for.
use kupl.Prelude.{
  ◌∙◌, ℕ, ◌+◌, ◌≤◌, ◌≡◌, refl, sym, subst, arith, Bool, true, false, if◌then◌else◌, Option, none,
  some, List, [], ◌∷◌,
}
use kupl.Prelude.Int.{ℤ}
use kupl.Scheduler.{Tb, Plugin, IsFaithful}
use kupl.Scheduler.Tally.{tally}
use kupl.Scheduler.Sspe.{Flag, SchedData, notify, leave, sspe}
use kupl.Scheduler.Hybrid.{Hybrid, kupl_sched_hybrid_add_tb}
use kupl.Scheduler.Hybrid.Asked.{Answer, answered}
use kupl.Scheduler.Hybrid.Calls.{
  HybridCall, add_tb, get_tb, notify_all, leave_now, NoneNamed, InnerOnly, run_hybrid, tally_inner,
  Added, Got, hybrid_add-Added, hybrid_get-Got,
}

module _ {T : Type 0} {inner_plugin : Plugin T} {W : T → Type 0} {held : ℕ → T → ℕ}
    (laws : IsFaithful inner_plugin W held)
    (ends : (e : ℤ) (t : T)
      → W t
      → (t' : T) × (r : Option Tb) × (inner_plugin.get_tb e t ≡ some (t', r)))
    (k : ℕ) where
  abbrev State : Type 0
  State = Hybrid SchedData T

  -- What the calls do, with the blocks that were accepted and given before.
  record Runs (s : State) (accepted given : List Tb) (s' : State) (accepted' given' : List Tb)
      : Type 0 where
    valid : (W s'.inner × NoneNamed k s'.outer.slot)
    counted :
        held k s'.inner + tally k given' + tally k accepted
        ≡ held k s.inner + tally k given + tally k accepted'
    inner_only :
        (j : ℕ)
        → held j s'.inner + tally_inner j accepted ≤ held j s.inner + tally_inner j accepted'
    unused :
        s'.inner_using ≡ false
        → (s.inner_using ≡ false) × ((j : ℕ) → tally_inner j accepted' ≡ tally_inner j accepted)

  later :
      (s s1 s2 : State) (a a1 a2 g g1 g2 : List Tb)
      → Runs s a g s1 a1 g1
      → Runs s1 a1 g1 s2 a2 g2
      → Runs s a g s2 a2 g2
  later s s1 s2 a a1 a2 g g1 g2 r r' = record {
    valid = r'.valid;
    counted = omega (arith, r.counted, r'.counted);
    inner_only = λ j. omega (arith, r.inner_only j, r'.inner_only j);
    unused = λ u.
        let (u1, same1) = r'.unused u in
        let (u0, same0) = r.unused u1 in (u0, λ j. omega (arith, same0 j, same1 j));
  }

  add-Runs :
      (s s1 : State) (tb : Tb) (ok : Bool) (accepted given : List Tb)
      → Added laws ends k s tb s1 ok
      → Runs s accepted given s1 (if ok then tb ∷ accepted else accepted) given
  add-Runs s s1 tb true accepted given a = record {
    valid = a.valid;
    counted = omega (arith, a.counted);
    inner_only = λ j. omega (arith, a.inner_only j);
    unused = λ u. let (u0, none_in) = a.unused u in (u0, λ j. omega (arith, none_in j));
  }
  add-Runs s s1 tb false accepted given a = record {
    valid = a.valid;
    counted = omega (arith, a.counted);
    inner_only = λ j. omega (arith, a.inner_only j);
    unused = λ u. let (u0, none_in) = a.unused u in (u0, λ j. omega (arith, none_in j));
  }

  abbrev Ends : Option (State × List Tb × List Tb) → State → List Tb → List Tb → Type 0
  Ends o s accepted given =
      (s' : State) × (accepted' : List Tb) × (given' : List Tb) × (o ≡ some (s', accepted', given'))
      × Runs s accepted given s' accepted' given'

  Ends-later :
      (o : Option (State × List Tb × List Tb)) (s s1 : State) (a a1 g g1 : List Tb)
      → Runs s a g s1 a1 g1
      → Ends o s1 a1 g1
      → Ends o s a g
  Ends-later o s s1 a a1 g g1 r (s2, a2, g2, out, r') =
      (s2, a2, g2, out, later s s1 s2 a a1 a2 g g1 g2 r r')

  -- What is run after `get_tb`.
  abbrev after_get :
      List HybridCall
      → List Tb
      → List Tb
      → Option (State × Option Tb)
      → Option (State × List Tb × List Tb)
  after_get cs accepted given o = elim o [
    | none ↦ none
    | some (s', none) ↦ run_hybrid inner_plugin cs s' accepted given
    | some (s', some tb) ↦ run_hybrid inner_plugin cs s' accepted (tb ∷ given)
  ]

  after_get-Ends :
      (cs : List HybridCall) (s s1 : State) (r : Option Tb) (accepted given : List Tb)
      → Got laws ends k s s1 r
      → ((given1 : List Tb)
          → Ends (run_hybrid inner_plugin cs s1 accepted given1) s1 accepted given1)
      → Ends (after_get cs accepted given (some (s1, r))) s accepted given
  after_get-Ends cs s s1 none accepted given g rest =
      Ends-later (run_hybrid inner_plugin cs s1 accepted given) s s1 accepted accepted given given
        (record {
          valid = g.valid;
          counted = omega (arith, g.counted);
          inner_only = λ j. omega (arith, g.inner_only j);
          unused = λ u. (sym g.same_use ∙ u, λ j. refl);
        })
        (rest given)
  after_get-Ends cs s s1 (some tb) accepted given g rest =
      Ends-later (run_hybrid inner_plugin cs s1 accepted (tb ∷ given)) s s1 accepted accepted given
        (tb ∷ given)
        (record {
          valid = g.valid;
          counted = omega (arith, g.counted);
          inner_only = λ j. omega (arith, g.inner_only j);
          unused = λ u. (sym g.same_use ∙ u, λ j. refl);
        })
        (rest (tb ∷ given))

  -- The barrier's flags change, and nothing that is counted.
  flags-Runs :
      (s : State) (flags : ℕ → Flag) (accepted given : List Tb)
      → (W s.inner × NoneNamed k s.outer.slot)
      → Runs s accepted given (record s { outer = record s.outer { flags = flags } }) accepted given
  flags-Runs s flags accepted given v = record {
    valid = v;
    counted = refl;
    inner_only = λ j. omega arith;
    unused = λ u. (u, λ j. refl);
  }

  runs :
      (cs : List HybridCall) (s : State) (accepted given : List Tb)
      → (W s.inner × NoneNamed k s.outer.slot)
      → InnerOnly k cs
      → Ends (run_hybrid inner_plugin cs s accepted given) s accepted given
  unfolding run_hybrid
  runs [] s accepted given v only = (
    s,
    accepted,
    given,
    refl,
    record {
      valid = v;
      counted = refl;
      inner_only = λ j. omega arith;
      unused = λ u. (u, λ j. refl);
    },
  )
  runs (add_tb e tb ∷ cs) s accepted given v (now, only) =
      let (s1, ok) = kupl_sched_hybrid_add_tb sspe inner_plugin e s tb in
      let a = hybrid_add-Added laws ends k e s tb v now in
      let accepted1 = if ok then tb ∷ accepted else accepted in
      Ends-later (run_hybrid inner_plugin cs s1 accepted1 given) s s1 accepted accepted1 given given
        (add-Runs s s1 tb ok accepted given a) (runs cs s1 accepted1 given a.valid only)
  runs (get_tb e ∷ cs) s accepted given v only =
      let (s1, r, out, g) = hybrid_get-Got laws ends k e s v in
      subst
        (λ (o : Option (State × Option Tb)). Ends (after_get cs accepted given o) s accepted given)
        (sym out)
        (after_get-Ends cs s s1 r accepted given g
          (λ given1. runs cs s1 accepted given1 g.valid only))
  runs (notify_all eids ∷ cs) s accepted given v only =
      let flags = notify eids s.outer.flags in
      let s1 = record s { outer = record s.outer { flags = flags } } in
      Ends-later (run_hybrid inner_plugin cs s1 accepted given) s s1 accepted accepted given given
        (flags-Runs s flags accepted given v) (runs cs s1 accepted given v only)
  runs (leave_now geid ∷ cs) s accepted given v only =
      let flags = leave geid s.outer.flags in
      let s1 = record s { outer = record s.outer { flags = flags } } in
      Ends-later (run_hybrid inner_plugin cs s1 accepted given) s s1 accepted accepted given given
        (flags-Runs s flags accepted given v) (runs cs s1 accepted given v only)

  -- For the hybrid plugin with sspe for the outer level, and for the inner level a plugin that
  -- keeps the promises of the interface and whose `get_tb` ends on valid states: in any sequence
  -- of calls that adds no block named `k` at the outer level, from a state with a valid inner
  -- part and no slot that holds a block named `k`, every call ends, and of the blocks named `k`,
  -- those that were given and those that the inner plugin holds after the calls are as many as
  -- those that it held before and those that were accepted. Of any name, the inner plugin holds
  -- at most the blocks that it held before and those that were accepted at the inner level. A
  -- further call of `get_tb` gives a block, or the inner plugin has none for it, or the inner
  -- plugin was not in use at first and no block was accepted at the inner level.
  pub run_hybrid-levels :
      (cs : List HybridCall) (s : Hybrid SchedData T)
      → W s.inner
      → NoneNamed k s.outer.slot
      → InnerOnly k cs
      → (s' : Hybrid SchedData T) × (accepted : List Tb) × (given : List Tb) × (run_hybrid
            inner_plugin cs s [] []
          ≡ some (s', accepted, given))
        × (held k s'.inner + tally k given ≡ held k s.inner + tally k accepted)
        × ((j : ℕ) → held j s'.inner ≤ held j s.inner + tally_inner j accepted)
        × ((e : ℤ)
            → Answer inner_plugin e s'
                ((s.inner_using ≡ false) × ((j : ℕ) → tally_inner j accepted ≡ 0)))
  run_hybrid-levels cs s w none_named only =
      let (s', accepted, given, out, r) = runs cs s [] [] (w, none_named) only in
      let (w', none_named') = r.valid in
      (
        s',
        accepted,
        given,
        out,
        omega (arith, r.counted),
        λ j. omega (arith, r.inner_only j),
        λ e.
            answered inner_plugin e s'
              ((s.inner_using ≡ false) × ((j : ℕ) → tally_inner j accepted ≡ 0)) r.unused
              (ends e s'.inner w'),
      )
