-- ===== src/Dag/Counts.antt =====
-- `n_predecessors` counts the edges from tasks that have not run.
use kupl.Prelude.{
  ℕ, suc, ◌+◌, ◌-◌, ◌%◌, ◌^◌, ◌≤◌, ◌<◌, ◌≡◌, ◌≢◌, refl, sym, ap, ◌∙◌, subst, arith, Bool, true,
  false, ◌==◌, if◌then◌else◌, List, [], ◌∷◌, Option, none, some, inl, inr, Bool-cases, if_cases,
  ==_iff, update, update_same, total, total_same, total_change, total_extend, total_none, dec_lt,
}
use kupl.Dag.{Nodes, Gnode, kupl_gnode_precede, kupl_gnode_release_ready, kupl_task_finish}
use kupl.Dag.Paths.{Among, linked, linked-successors, linked-finished, linked-n_predecessors}

abbrev pub occurrences : ℕ → List ℕ → ℕ
occurrences v [] = 0
occurrences v (x ∷ xs) = (if x == v then 1 else 0) + occurrences v xs

abbrev pub weight : Nodes → ℕ → ℕ → ℕ
weight nodes v u = if (nodes u).finished then 0 else occurrences v (nodes u).successors

-- The edges to `v` from tasks below the bound that have not run.
abbrev pub pending : ℕ → Nodes → ℕ → ℕ
pending bound nodes v = total bound (weight nodes v)

pub record Counted (nodes : Nodes) : Type 0 where
  pub bound : ℕ
  pub empty : (u : ℕ) → bound ≤ u → (nodes u).successors ≡ []
  pub count : (v : ℕ) → (nodes v).n_predecessors ≡ pending bound nodes v % 2 ^ 32

weight_empty : (nodes : Nodes) (v u : ℕ) → (nodes u).successors ≡ [] → weight nodes v u ≡ 0
weight_empty nodes v u e =
    if_cases (λ (w : ℕ). w ≡ 0) (nodes u).finished 0 (occurrences v (nodes u).successors)
      (λ _. refl) (λ _. ap (occurrences v) e)

add_mod : (a : ℕ) → (a % 2 ^ 32 + 1) % 2 ^ 32 ≡ (a + 1) % 2 ^ 32
add_mod a = omega arith

sub_mod : (a : ℕ) → ((a + 1) % 2 ^ 32 + (2 ^ 32 - 1)) % 2 ^ 32 ≡ a % 2 ^ 32
sub_mod a = omega arith

module _ (p n : ℕ) (nodes : Nodes) (waits : (nodes p).finished ≡ false) where
  weight_at : (v : ℕ) → weight (linked p n nodes) v p ≡ (if n == v then 1 else 0) + weight nodes v p
  weight_at v =
      let idle : (linked p n nodes p).finished ≡ false = linked-finished p n nodes p ∙ waits in
      let here : (p == p) ≡ true = ground arith in
      let added : (linked p n nodes p).successors ≡ n ∷ (nodes p).successors =
        linked-successors p n nodes p
        ∙ ap (λ (b : Bool). if b then n ∷ (nodes p).successors else (nodes p).successors) here in
      ap (λ (b : Bool). if b then 0 else occurrences v (linked p n nodes p).successors) idle
      ∙ ap (occurrences v) added
      ∙ ap
          (λ (b : Bool).
            (if n == v then 1 else 0) + (if b then 0 else occurrences v (nodes p).successors))
          (sym waits)

  weight_off : (v u : ℕ) → p ≢ u → weight nodes v u ≡ weight (linked p n nodes) v u
  weight_off v u off =
      let away : (p == u) ≡ false = ground (arith, off) in
      let same : (linked p n nodes u).successors ≡ (nodes u).successors =
        linked-successors p n nodes u
        ∙ ap (λ (b : Bool). if b then n ∷ (nodes u).successors else (nodes u).successors) away in
      ap (λ (b : Bool). if b then 0 else occurrences v (nodes u).successors)
        (sym (linked-finished p n nodes u))
      ∙ ap (λ ss. if (linked p n nodes u).finished then 0 else occurrences v ss) (sym same)

  linked-Counted : Counted nodes → Counted (linked p n nodes)
  linked-Counted c = record {
    bound = c.bound + suc p;
    empty = λ u h.
        let away : (p == u) ≡ false = ground (arith, h) in
        linked-successors p n nodes u
        ∙ ap (λ (b : Bool). if b then n ∷ (nodes u).successors else (nodes u).successors) away
        ∙ c.empty u (omega arith);
    count = λ v.
        let before =
          total_extend (suc p) c.bound (weight nodes v)
            (λ u h. weight_empty nodes v u (c.empty u h)) in
        let change =
          total_change (c.bound + suc p) (weight nodes v) (weight (linked p n nodes) v) p
            (omega arith) (λ j lt off. weight_off v j off) in
        let sum : pending (c.bound + suc p) (linked p n nodes) v
            ≡ (if n == v then 1 else 0) + pending c.bound nodes v =
          omega (arith, before, change, weight_at v) in
        linked-n_predecessors p n nodes v ∙ elim (Bool-cases (n == v)) [
          | inl at ↦
              let sum' : pending (c.bound + suc p) (linked p n nodes) v
                  ≡ pending c.bound nodes v + 1 =
                sum ∙ rw at (omega arith) in
              rw at (
                ap (λ m. (m + 1) % 2 ^ 32) (c.count v)
                ∙ add_mod (pending c.bound nodes v)
                ∙ ap (λ m. m % 2 ^ 32) (sym sum'))
          | inr off ↦
              let sum' : pending (c.bound + suc p) (linked p n nodes) v ≡ pending c.bound nodes v =
                sum ∙ rw off (omega arith) in
              rw off (c.count v ∙ ap (λ m. m % 2 ^ 32) (sym sum'))
        ];
  }

pub kupl_gnode_precede-Counted :
    (o : Option ℕ) (n : ℕ) (nodes : Nodes)
    → Counted nodes
    → Counted (kupl_gnode_precede o n nodes).0
unfolding kupl_gnode_precede
kupl_gnode_precede-Counted none n nodes c = c
kupl_gnode_precede-Counted (some p) n nodes c =
    if_cases (λ (out : Nodes × ℕ). Counted out.0) (nodes p).finished (nodes, 0)
      (linked p n nodes, 1) (λ run. c) (λ waits. linked-Counted p n nodes waits c)

among_occurs : (v : ℕ) (xs : List ℕ) → Among v xs → 1 ≤ occurrences v xs
among_occurs v [] m = absurd m
among_occurs v (x ∷ xs) (inl same) =
    let here : (x == v) ≡ true = ground (arith, same) in rw here (omega arith)
among_occurs v (x ∷ xs) (inr rest) = omega (arith, among_occurs v xs rest)

-- A task whose count is 0 waits for none that has not run.
pub no_pending :
    (nodes : Nodes) (c : Counted nodes) (n u : ℕ)
    → (nodes n).n_predecessors ≡ 0
    → pending c.bound nodes n < 2 ^ 32
    → Among n (nodes u).successors
    → (nodes u).finished ≡ true
no_pending nodes c n u ready small e =
    let none_left : pending c.bound nodes n ≡ 0 = omega (arith, c.count n, ready, small) in
    elim (dec_lt u c.bound) [
      | yes lt ↦ elim (Bool-cases (nodes u).finished) [
        | inl run ↦ run
        | inr waits ↦
            let no_weight = total_none c.bound (weight nodes n) u none_left lt in
            let one_edge = among_occurs n (nodes u).successors e in
            let weighs : occurrences n (nodes u).successors ≡ 0 =
              ap (λ (b : Bool). if b then 0 else occurrences n (nodes u).successors) (sym waits)
              ∙ no_weight in
            absurd (omega (arith, weighs, one_edge))
      ]
      | no ge ↦ absurd (subst (Among n) (c.empty u (omega arith)) e)
    ]

module _ (v : ℕ) where
  -- A change of a count moves no edge and runs no task.
  recount_same :
      {A : Type 0} (f : Gnode → A) (s c u : ℕ) (nodes : Nodes)
      → ((g : Gnode) → f (record g { n_predecessors = c }) ≡ f g)
      → f (update nodes s (record (nodes s) { n_predecessors = c }) u) ≡ f (nodes u)
  recount_same f s c u nodes same =
      if_cases (λ (g : Gnode). f g ≡ f (nodes u)) (s == u) (record (nodes s) { n_predecessors = c })
        (nodes u) (λ at. same (nodes s) ∙ ap (λ w. f (nodes w)) ((==_iff s u).0 at)) (λ off. refl)

  release-same :
      {A : Type 0} (f : Gnode → A) (ss : List ℕ) (nodes : Nodes) (u : ℕ)
      → ((g : Gnode) (c : ℕ) → f (record g { n_predecessors = c }) ≡ f g)
      → f ((kupl_gnode_release_ready ss nodes).0 u) ≡ f (nodes u)
  unfolding kupl_gnode_release_ready
  release-same f [] nodes u same = refl
  release-same f (s ∷ ss) nodes u same =
      let c = ((nodes s).n_predecessors + (2 ^ 32 - 1)) % 2 ^ 32 in
      release-same f ss (update nodes s (record (nodes s) { n_predecessors = c })) u same
      ∙ recount_same f s c u nodes (λ g. same g c)

  -- Each time the task stands in the list takes one off its count.
  release-n_predecessors :
      (ss : List ℕ) (nodes : Nodes) (r : ℕ)
      → (nodes v).n_predecessors ≡ (occurrences v ss + r) % 2 ^ 32
      → ((kupl_gnode_release_ready ss nodes).0 v).n_predecessors ≡ r % 2 ^ 32
  unfolding kupl_gnode_release_ready
  release-n_predecessors [] nodes r h = h ∙ ap (λ m. m % 2 ^ 32) (omega arith)
  release-n_predecessors (s ∷ ss) nodes r h =
      let c = ((nodes s).n_predecessors + (2 ^ 32 - 1)) % 2 ^ 32 in
      release-n_predecessors ss (update nodes s (record (nodes s) { n_predecessors = c })) r (
        if_cases (λ (g : Gnode). g.n_predecessors ≡ (occurrences v ss + r) % 2 ^ 32) (s == v)
          (record (nodes s) { n_predecessors = c }) (nodes v)
          (λ at.
            let same : (nodes s).n_predecessors ≡ (occurrences v ss + r + 1) % 2 ^ 32 =
              ap (λ w. (nodes w).n_predecessors) ((==_iff s v).0 at)
              ∙ h
              ∙ ap (λ m. m % 2 ^ 32) (rw at (omega arith)) in
            ap (λ m. (m + (2 ^ 32 - 1)) % 2 ^ 32) same ∙ sub_mod (occurrences v ss + r))
          (λ off. h ∙ ap (λ m. m % 2 ^ 32) (rw off (omega arith))))

-- The task's own state once it has run.
module _ (n : ℕ) (nodes : Nodes) where
  abbrev pub ran : Nodes
  ran = update nodes n (record (nodes n) { finished = true })

  -- What does not depend on `finished`.
  ran_same :
      {A : Type 0} (f : Gnode → A) (u : ℕ)
      → ((g : Gnode) → f (record g { finished = true }) ≡ f g)
      → f (ran u) ≡ f (nodes u)
  ran_same f u same =
      if_cases (λ (g : Gnode). f g ≡ f (nodes u)) (n == u) (record (nodes n) { finished = true })
        (nodes u) (λ at. same (nodes n) ∙ ap (λ w. f (nodes w)) ((==_iff n u).0 at)) (λ off. refl)

  ran_off : (u : ℕ) → n ≢ u → ran u ≡ nodes u
  ran_off u off = let away : (n == u) ≡ false = ground (arith, off) in rw away refl

  abbrev after : Nodes
  after = (kupl_gnode_release_ready (nodes n).successors ran).0

  pub finish-successors : (u : ℕ) → (after u).successors ≡ (nodes u).successors
  finish-successors u =
      release-same u (λ g. g.successors) (nodes n).successors ran u (λ g c. refl)
      ∙ ran_same (λ g. g.successors) u (λ g. refl)

  pub finish-finished : (u : ℕ) → (after u).finished ≡ (ran u).finished
  finish-finished u = release-same u (λ g. g.finished) (nodes n).successors ran u (λ g c. refl)

  module _ (c : Counted nodes) (waits : (nodes n).finished ≡ false) (v : ℕ) where
    same_weight : (u : ℕ) → weight after v u ≡ weight ran v u
    same_weight u =
        release-same v (λ g. if g.finished then 0 else occurrences v g.successors)
          (nodes n).successors ran u (λ g k. refl)

    -- The task that has run weighs nothing any more, the others as much as before.
    finish-pending :
        pending c.bound nodes v ≡ occurrences v (nodes n).successors + pending c.bound after v
    finish-pending = elim (dec_lt n c.bound) [
      | yes lt ↦
          let ended : weight ran v n ≡ 0 =
            ap (λ (g : Gnode). if g.finished then 0 else occurrences v g.successors)
              (update_same nodes n _) in
          let before : weight nodes v n ≡ occurrences v (nodes n).successors =
            ap (λ (b : Bool). if b then 0 else occurrences v (nodes n).successors) waits in
          let change = total_change c.bound (weight nodes v) (weight after v) n lt (λ j lj off.
            ap (λ (g : Gnode). if g.finished then 0 else occurrences v g.successors)
              (sym (ran_off j off))
            ∙ sym (same_weight j)) in
          omega (arith, change, same_weight n, ended, before)
      | no ge ↦
          let no_edges : occurrences v (nodes n).successors ≡ 0 =
            ap (occurrences v) (c.empty n (omega arith)) in
          let same = total_same c.bound (weight nodes v) (weight after v) (λ j lj.
            let off : n ≢ j = λ e. omega (arith, e) in
            ap (λ (g : Gnode). if g.finished then 0 else occurrences v g.successors)
              (sym (ran_off j off))
            ∙ sym (same_weight j)) in
          omega (arith, no_edges, same)
    ]

pub kupl_task_finish-Counted :
    (n : ℕ) (nodes : Nodes)
    → Counted nodes
    → (nodes n).finished ≡ false
    → Counted (kupl_task_finish false false n nodes).0
unfolding kupl_task_finish
kupl_task_finish-Counted n nodes c waits = record {
  bound = c.bound;
  empty = λ u h. finish-successors n nodes u ∙ c.empty u h;
  count = λ v. release-n_predecessors v (nodes n).successors (ran n nodes) _ (
      ran_same n nodes (λ g. g.n_predecessors) v (λ g. refl)
      ∙ c.count v
      ∙ ap (λ m. m % 2 ^ 32) (finish-pending n nodes c waits v));
}
