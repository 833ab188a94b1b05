-- ===== src/Scheduler/Hybrid/Calls.antt =====
-- The calls of the hybrid plugin as `kupl_sched_hybrid_create` sets it up: sspe for the outer level, and
-- any plugin that keeps the promises of the interface for the inner level.
use kupl.Prelude.{
  ℕ, zero, suc, ◌+◌, ◌≤◌, ◌≡◌, refl, sym, ap, subst, ◌∙◌, arith, Bool, true, false, if◌then◌else◌,
  Option, none, some, inl, inr, Bool-cases, List, [], ◌∷◌, get_or, set, if_cases,
}
use kupl.Prelude.Int.{ℤ, pos_part, eqb_ℤ}
use kupl.Scheduler.{
  Tb, Plugin, IsFaithful, one, taken, has_bit, kupl_tb_flag_hybrid_outer, kupl_executor_default,
}
use kupl.Scheduler.Sspe.{SchedData, notify, leave, sched_add_tb, sched_get_tb, sspe, arrive}
use kupl.Scheduler.Hybrid.{
  Hybrid, hybrid, get_outer, get_inner, then_inner, kupl_sched_hybrid_add_tb,
  kupl_sched_hybrid_get_tb,
}

-- What the threads do, one call at a time; the flag barrier of sspe is notified and left.
pub data HybridCall : Type 0 where
  add_tb : ℤ → Tb → HybridCall
  get_tb : ℤ → HybridCall
  notify_all : List ℕ → HybridCall
  leave_now : ℕ → HybridCall

-- No slot holds a block named `k`.
abbrev pub NoneNamed : ℕ → List (Option Tb) → Type 0
NoneNamed k [] = Unit
NoneNamed k (s ∷ ss) = (taken k s ≡ 0) × NoneNamed k ss

NoneNamed-get :
    (k : ℕ) (ss : List (Option Tb)) (i : ℕ) → NoneNamed k ss → taken k (get_or ss i none) ≡ 0
NoneNamed-get k [] i h = refl
NoneNamed-get k (s ∷ ss) zero (now, h) = now
NoneNamed-get k (s ∷ ss) (suc i) (now, h) = NoneNamed-get k ss i h

NoneNamed-set :
    (k : ℕ) (ss : List (Option Tb)) (i : ℕ) (tb : Tb)
    → one k tb ≡ 0
    → NoneNamed k ss
    → NoneNamed k (set ss i (some tb))
NoneNamed-set k [] i tb e h = tt
NoneNamed-set k (s ∷ ss) zero tb e (now, h) = (e, h)
NoneNamed-set k (s ∷ ss) (suc i) tb e (now, h) = (now, NoneNamed-set k ss i tb e h)

-- The calls add no block named `k` at the outer level.
abbrev pub InnerOnly : ℕ → List HybridCall → Type 0
InnerOnly k [] = Unit
InnerOnly k (add_tb e tb ∷ cs) =
    (has_bit kupl_tb_flag_hybrid_outer tb.flag ≡ true → one k tb ≡ 0) × InnerOnly k cs
InnerOnly k (get_tb e ∷ cs) = InnerOnly k cs
InnerOnly k (notify_all eids ∷ cs) = InnerOnly k cs
InnerOnly k (leave_now geid ∷ cs) = InnerOnly k cs

module _ {T : Type 0} (inner_plugin : Plugin T) where
  abbrev plugin : Plugin (Hybrid SchedData T)
  plugin = hybrid sspe inner_plugin

  -- The state after the calls, with the blocks that were accepted and those that were given. It is
  -- missing if a call does not end.
  unfoldable pub run_hybrid :
      List HybridCall
      → Hybrid SchedData T
      → List Tb
      → List Tb
      → Option (Hybrid SchedData T × List Tb × List Tb)
  run_hybrid [] s accepted given = some (s, accepted, given)
  run_hybrid (add_tb e tb ∷ cs) s accepted given =
      let (s', ok) = plugin.add_tb e s tb in
      run_hybrid cs s' (if ok then tb ∷ accepted else accepted) given
  run_hybrid (get_tb e ∷ cs) s accepted given = elim (plugin.get_tb e s) [
    | none ↦ none
    | some (s', none) ↦ run_hybrid cs s' accepted given
    | some (s', some tb) ↦ run_hybrid cs s' accepted (tb ∷ given)
  ]
  run_hybrid (notify_all eids ∷ cs) s accepted given =
      let outer = record s.outer { flags = notify eids s.outer.flags } in
      run_hybrid cs (record s { outer = outer }) accepted given
  run_hybrid (leave_now geid ∷ cs) s accepted given =
      let outer = record s.outer { flags = leave geid s.outer.flags } in
      run_hybrid cs (record s { outer = outer }) accepted given

-- Named `k` and not of the outer level.
abbrev pub one_inner : ℕ → Tb → ℕ
one_inner k tb = if has_bit kupl_tb_flag_hybrid_outer tb.flag then 0 else one k tb

abbrev pub tally_inner : ℕ → List Tb → ℕ
tally_inner k [] = 0
tally_inner k (tb ∷ tbs) = one_inner k tb + tally_inner k tbs

add_slots :
    (k : ℕ) (sd : SchedData) (tb : Tb)
    → one k tb ≡ 0
    → NoneNamed k sd.slot
    → NoneNamed k (sched_add_tb sd tb).0.slot
unfolding sched_add_tb
add_slots k sd tb e h =
    if_cases (λ (out : SchedData × Bool). NoneNamed k out.0.slot) _ _ _ (λ refused. h)
      (λ taken_in. NoneNamed-set k sd.slot (pos_part tb.executor_id) tb e h)

get_slots : (e : ℤ) (sd : SchedData) → (sched_get_tb e sd).0.slot ≡ sd.slot
unfolding sched_get_tb
get_slots e sd =
    if_cases (λ (out : SchedData × Option Tb). out.0.slot ≡ sd.slot) _ _ _ (λ alien. refl)
      (λ own. refl)

get_outer_name :
    (k : ℕ) (e : ℤ) (sd : SchedData) → NoneNamed k sd.slot → taken k (sched_get_tb e sd).1 ≡ 0
unfolding sched_get_tb
get_outer_name k e sd h = elim (Bool-cases (eqb_ℤ e kupl_executor_default)) [
  | inl alien ↦ rw alien refl
  | inr own ↦ rw own (
      if_cases (λ (r : Option Tb). taken k r ≡ 0) (arrive (pos_part e) sd.flags).1
        (get_or sd.slot (pos_part e) none) none (λ arrived. NoneNamed-get k sd.slot (pos_part e) h)
        (λ closed. refl))
]

module _ {T : Type 0} {inner_plugin : Plugin T} {W : T → Type 0} {held : ℕ → T → ℕ}
    (laws : IsFaithful inner_plugin W held)
    (ends : (e : ℤ) (t : T)
      → W t
      → (t' : T) × (r : Option Tb) × (inner_plugin.get_tb e t ≡ some (t', r)))
    (k : ℕ) where
  abbrev pub State : Type 0
  State = Hybrid SchedData T

  abbrev pub Valid : State → Type 0
  Valid s = W s.inner × NoneNamed k s.outer.slot

  -- What adding does.
  pub record Added (s : State) (tb : Tb) (s' : State) (ok : Bool) : Type 0 where
    pub valid : Valid s'
    pub counted : held k s'.inner ≡ (if ok then one k tb else 0) + held k s.inner
    pub inner_only : (j : ℕ) → held j s'.inner ≤ (if ok then one_inner j tb else 0) + held j s.inner
    pub unused :
        s'.inner_using ≡ false
        → (s.inner_using ≡ false) × ((j : ℕ) → (if ok then one_inner j tb else 0) ≡ 0)

  pub hybrid_add-Added :
      (e : ℤ) (s : State) (tb : Tb)
      → Valid s
      → (has_bit kupl_tb_flag_hybrid_outer tb.flag ≡ true → one k tb ≡ 0)
      → let (s', ok) = kupl_sched_hybrid_add_tb sspe inner_plugin e s tb in Added s tb s' ok
  unfolding kupl_sched_hybrid_add_tb
  hybrid_add-Added e s tb (w, none_named) only =
      elim (Bool-cases (has_bit kupl_tb_flag_hybrid_outer tb.flag)) [
        | inl outer ↦ rw outer (record {
          valid = (w, add_slots k s.outer tb (only outer) none_named);
          counted =
              if_cases (λ (n : ℕ). held k s.inner ≡ n + held k s.inner) _ (one k tb) 0
                (λ ok. omega (arith, only outer)) (λ refused. omega arith);
          inner_only = λ j. omega arith;
          unused = λ u. (
            u,
            λ j.
                let wide : one_inner j tb ≡ 0 = rw outer refl in
                if_cases (λ (n : ℕ). n ≡ 0) _ (one_inner j tb) 0 (λ ok. wide) (λ refused. refl),
          );
        })
        | inr inner ↦ rw inner (record {
          valid = (laws.add_valid e s.inner tb w, none_named);
          counted = laws.add_held e s.inner tb k w;
          inner_only = λ j.
              let plain : one_inner j tb ≡ one j tb = rw inner refl in
              ground (arith, plain, laws.add_held e s.inner tb j w);
          unused = λ u. cc;
        })
      ]

  -- What getting does.
  pub record Got (s s' : State) (r : Option Tb) : Type 0 where
    pub valid : Valid s'
    pub counted : held k s.inner ≡ taken k r + held k s'.inner
    pub inner_only : (j : ℕ) → held j s'.inner ≤ held j s.inner
    pub same_use : s'.inner_using ≡ s.inner_using

  unchanged : (s : State) → Valid s → Got s s none
  unchanged s v = record {
    valid = v;
    counted = omega arith;
    inner_only = λ j. omega arith;
    same_use = refl;
  }

  get_outer-Got :
      (e : ℤ) (s : State)
      → Valid s
      → (s' : State) × (r : Option Tb) × (get_outer sspe inner_plugin e s ≡ some (s', r))
        × Got s s' r
  unfolding get_outer
  get_outer-Got e s (w, none_named) = elim (Bool-cases s.outer_using) [
    | inl using ↦
        let (sd, r) = sched_get_tb e s.outer in
        (
          record s { outer = sd },
          r,
          rw using refl,
          record {
            valid = (w, subst (NoneNamed k) (sym (get_slots e s.outer)) none_named);
            counted = omega (arith, get_outer_name k e s.outer none_named);
            inner_only = λ j. omega arith;
            same_use = refl;
          },
        )
    | inr idle ↦ (s, none, rw idle refl, unchanged s (w, none_named))
  ]

  get_inner-Got :
      (e : ℤ) (s : State)
      → Valid s
      → (s' : State) × (r : Option Tb) × (get_inner sspe inner_plugin e s ≡ some (s', r))
        × Got s s' r
  unfolding get_inner
  get_inner-Got e s (w, none_named) = elim (Bool-cases s.inner_using) [
    | inl using ↦
        let (t, r, out) = ends e s.inner w in
        (
          record s { inner = t },
          r,
          rw (using, out) refl,
          record {
            valid = (laws.get_valid e s.inner t r w out, none_named);
            counted = laws.get_held e s.inner t r k w out;
            inner_only = λ j. omega (arith, laws.get_held e s.inner t r j w out);
            same_use = refl;
          },
        )
    | inr idle ↦ (s, none, rw idle refl, unchanged s (w, none_named))
  ]

  then_inner-Got :
      (e : ℤ) (s s1 : State) (r1 : Option Tb)
      → Got s s1 r1
      → (x : Option (State × Option Tb)) → x ≡ some (s1, r1)
      → (s' : State) × (r : Option Tb) × (then_inner sspe inner_plugin e x ≡ some (s', r))
        × Got s s' r
  then_inner-Got e s s1 (some tb) g x out =
      (s1, some tb, ap (then_inner sspe inner_plugin e) out, g)
  then_inner-Got e s s1 none g x out =
      let (s2, r, out2, g2) = get_inner-Got e s1 g.valid in
      (
        s2,
        r,
        ap (then_inner sspe inner_plugin e) out ∙ out2,
        record {
          valid = g2.valid;
          counted = omega (arith, g.counted, g2.counted);
          inner_only = λ j. omega (arith, g.inner_only j, g2.inner_only j);
          same_use = g2.same_use ∙ g.same_use;
        },
      )

  pub hybrid_get-Got :
      (e : ℤ) (s : State)
      → Valid s
      → (s' : State) × (r : Option Tb) × (kupl_sched_hybrid_get_tb sspe inner_plugin e s
          ≡ some (s', r))
        × Got s s' r
  unfolding kupl_sched_hybrid_get_tb
  hybrid_get-Got e s v =
      let (s1, r1, out, g) = get_outer-Got e s v in
      then_inner-Got e s s1 r1 g (get_outer sspe inner_plugin e s) out
