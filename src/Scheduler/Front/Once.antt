-- ===== src/Scheduler/Front/Once.antt =====
-- Each block that is handed to the scheduler is run once or still waits.
use kupl.Prelude.{
  ℕ, ◌+◌, ◌≡◌, refl, subst, arith, Bool, true, false, ◌||◌, ◌==◌, if◌then◌else◌, Option, none, some,
  List, [], ◌∷◌, inl, inr, Bool-cases,
}
use kupl.Prelude.Int.{ℤ}
use kupl.Scheduler.{
  Tb, Plugin, IsFaithful, one, taken, has_bit, kupl_tb_flag_imm, kupl_tb_state_ready,
}
use kupl.Scheduler.Tally.{tally}
use kupl.Scheduler.Front.{
  Sched, with_ready, count_add, after_add, after_get, kupl_sched_add_tb, kupl_sched_execute_tb,
}

-- What the threads do, one call at a time: `submit` is `kupl_sched_add_tb`, `execute` is
-- `kupl_sched_execute_tb`. A call that a running block makes is a call of its own.
pub data Call : Type 0 where
  submit : ℕ → Tb → Call
  execute : ℕ → Call

-- The blocks that were handed over.
abbrev pub submitted : List Call → List Tb
submitted [] = []
submitted (submit thread tb ∷ calls) = tb ∷ submitted calls
submitted (execute thread ∷ calls) = submitted calls

abbrev add_run : Option Tb → List Tb → List Tb
add_run none tbs = tbs
add_run (some tb) tbs = tb ∷ tbs

module _ {S : Type 0} (plugin : Plugin S) (executor : ℕ → ℤ) where
  abbrev with_run : Option Tb → Option (Sched S × List Tb) → Option (Sched S × List Tb)
  with_run r none = none
  with_run r (some (s, tbs)) = some (s, add_run r tbs)

  abbrev call : Call → Sched S → Option (Sched S × Option Tb)
  call (submit thread tb) s = some (kupl_sched_add_tb plugin executor thread s tb)
  call (execute thread) s = kupl_sched_execute_tb plugin executor thread s

  abbrev then_calls :
      Option (Sched S × Option Tb)
      → (Sched S → Option (Sched S × List Tb))
      → Option (Sched S × List Tb)
  then_calls none next = none
  then_calls (some (s, r)) next = with_run r (next s)

  -- The state after the calls, and the blocks that were run.
  unfoldable pub run_calls : List Call → Sched S → Option (Sched S × List Tb)
  run_calls [] s = some (s, [])
  run_calls (c ∷ cs) s = then_calls (call c s) (run_calls cs)

module _ {S : Type 0} {plugin : Plugin S} {V : S → Type 0} {held : ℕ → S → ℕ}
    (laws : IsFaithful plugin V held) (executor : ℕ → ℤ) where
  one_ready : (k : ℕ) (tb : Tb) → one k (with_ready tb) ≡ one k tb
  unfolding with_ready
  one_ready k tb = elim (Bool-cases (has_bit kupl_tb_state_ready tb.state)) [
    | inl set_before ↦ rw set_before refl
    | inr unset ↦ rw unset refl
  ]

  after_add-held :
      (thread : ℕ) (s : Sched S) (tb : Tb) (out : S × Bool)
      → V out.0
      → ((k : ℕ) → held k out.0 ≡ (if out.1 then one k tb else 0) + held k s.plugin_sched)
      → let (s', r) = after_add plugin executor thread s tb out in
        V s'.plugin_sched
        × ((k : ℕ) → taken k r + held k s'.plugin_sched ≡ one k tb + held k s.plugin_sched)
  after_add-held thread s tb (p, true) v h = (v, λ k. omega (arith, h k))
  after_add-held thread s tb (p, false) v h = (v, λ k. omega (arith, h k))

  -- Run or held.
  pub kupl_sched_add_tb-held :
      (thread : ℕ) (s : Sched S) (tb : Tb)
      → V s.plugin_sched
      → let (s', r) = kupl_sched_add_tb plugin executor thread s tb in
        V s'.plugin_sched
        × ((k : ℕ) → taken k r + held k s'.plugin_sched ≡ one k tb + held k s.plugin_sched)
  unfolding kupl_sched_add_tb
  kupl_sched_add_tb-held thread s given v =
      let tb = with_ready given in
      let counted : Sched S = record s { counts = count_add tb.count s.counts } in
      elim (Bool-cases (s.sched_full thread || tb.flag == kupl_tb_flag_imm)) [
        | inl now ↦ rw now (v, λ k. omega (arith, one_ready k given))
        | inr later ↦
            let (v', same) =
              after_add-held thread counted tb (plugin.add_tb (executor thread) s.plugin_sched tb)
                (laws.add_valid (executor thread) s.plugin_sched tb v)
                (λ k. laws.add_held (executor thread) s.plugin_sched tb k v) in
            rw later (v', λ k. omega (arith, same k, one_ready k given))
      ]

  abbrev Kept : Sched S → Option (Sched S × Option Tb) → Type 0
  Kept s none = Unit
  Kept s (some (s', r)) =
      V s'.plugin_sched × ((k : ℕ) → held k s.plugin_sched ≡ taken k r + held k s'.plugin_sched)

  after_get-Kept :
      (thread : ℕ) (s : Sched S) (out : Option (S × Option Tb))
      → ((s' : S) (r : Option Tb)
          → out ≡ some (s', r)
          → V s' × ((k : ℕ) → held k s.plugin_sched ≡ taken k r + held k s'))
      → Kept s (after_get plugin executor thread s out)
  after_get-Kept thread s none h = tt
  after_get-Kept thread s (some (p, none)) h = h p none refl
  after_get-Kept thread s (some (p, some tb)) h = h p (some tb) refl

  kupl_sched_execute_tb-Kept :
      (thread : ℕ) (s : Sched S)
      → V s.plugin_sched
      → Kept s (kupl_sched_execute_tb plugin executor thread s)
  unfolding kupl_sched_execute_tb
  kupl_sched_execute_tb-Kept thread s v =
      let e = executor thread in
      after_get-Kept thread s (plugin.get_tb e s.plugin_sched) (λ s' r out. (
        laws.get_valid e s.plugin_sched s' r v out,
        λ k. laws.get_held e s.plugin_sched s' r k v out,
      ))

  -- What calls come to, when they end: `more` blocks came in.
  abbrev Balanced : Sched S → List Tb → Option (Sched S × List Tb) → Type 0
  Balanced s more none = Unit
  Balanced s more (some (s', tbs)) =
      (k : ℕ) → tally k tbs + held k s'.plugin_sched ≡ tally k more + held k s.plugin_sched

  with_run_calls-Balanced :
      (s s1 : Sched S) (r : Option Tb) (more all : List Tb) (out : Option (Sched S × List Tb))
      → ((k : ℕ)
          → taken k r + (tally k more + held k s1.plugin_sched)
            ≡ tally k all + held k s.plugin_sched)
      → Balanced s1 more out
      → Balanced s all (with_run plugin executor r out)
  with_run_calls-Balanced s s1 r more all none h b = tt
  with_run_calls-Balanced s s1 none more all (some (s2, tbs)) h b = λ k. omega (arith, h k, b k)
  with_run_calls-Balanced s s1 (some tb) more all (some (s2, tbs)) h b =
      λ k. omega (arith, h k, b k)

  run_calls-Balanced :
      (cs : List Call) (s : Sched S)
      → V s.plugin_sched
      → Balanced s (submitted cs) (run_calls plugin executor cs s)
  unfolding run_calls
  run_calls-Balanced [] s v = λ k. refl
  run_calls-Balanced (submit thread tb ∷ cs) s v =
      let (v', same) = kupl_sched_add_tb-held thread s tb v in
      let (s', r) = kupl_sched_add_tb plugin executor thread s tb in
      with_run_calls-Balanced s s' r (submitted cs) (tb ∷ submitted cs) _
        (λ k. omega (arith, same k)) (run_calls-Balanced cs s' v')
  run_calls-Balanced (execute thread ∷ cs) s v =
      executed (kupl_sched_execute_tb plugin executor thread s)
        (kupl_sched_execute_tb-Kept thread s v) (run_calls-Balanced cs)
    where
      executed :
          (out : Option (Sched S × Option Tb))
          → Kept s out
          → ((s1 : Sched S)
              → V s1.plugin_sched
              → Balanced s1 (submitted cs) (run_calls plugin executor cs s1))
          → Balanced s
              (submitted cs)
              (then_calls plugin executor out (run_calls plugin executor cs))
      executed none h next = tt
      executed (some (s1, r)) (v1, same) next =
          with_run_calls-Balanced s s1 r (submitted cs) (submitted cs)
            (run_calls plugin executor cs s1) (λ k. omega (arith, same k)) (next s1 v1)

  -- For a plugin that keeps its promises, in a valid state, and calls that end: each block was
  -- run as often as it was handed over, less the times that the plugin holds it and more the
  -- times that it held it at first.
  pub run_calls-once :
      (cs : List Call) (s s' : Sched S) (tbs : List Tb) (k : ℕ)
      → V s.plugin_sched
      → run_calls plugin executor cs s ≡ some (s', tbs)
      → tally k tbs + held k s'.plugin_sched ≡ tally k (submitted cs) + held k s.plugin_sched
  run_calls-once cs s s' tbs k v out =
      subst (Balanced s (submitted cs)) out (run_calls-Balanced cs s v) k
