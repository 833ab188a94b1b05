-- ===== src/Dag/System.antt =====
-- Tasks are added, and run when they wait for none: those that conflict run in the order in which they
-- were added.
use kupl.Prelude.{
  ℕ, ◌+◌, ◌%◌, ◌^◌, ◌<◌, ◌≡◌, refl, sym, ap, ◌∙◌, subst, arith, Bool, true, false, ◌==◌, List, [],
  ◌∷◌, Option, none, some, inl, inr, ◌⊎◌, if_cases, total_of_none, if◌then◌else◌, ==_iff,
}
use kupl.Dag.{
  Dep, DepType, type_in, type_out, type_inout, type_all, unknown, Nodes, Gnode, Entry, Hash, Dag,
  kupl_gnode_init, kupl_gnode_precede, precede_readers, precede_entry, node_process_dep_out,
  node_process_dep_in, process_all, by_type, find, with_entry, next_dep, kupl_node_process_dep,
  process_deps, kupl_task_finish,
}
use kupl.Dag.Paths.{Among, Before, itself, through, Covered, Closed, Before-finished, Grows}
use kupl.Dag.Entries.{Access}
use kupl.Dag.Order.{Conflict, AllTracks-Grows, Ordered, Ordered-Grows, IsDag}
use kupl.Dag.Keeps.{accesses, AllDeps, AllProcessed, process_deps-IsDag}
use kupl.Dag.Counts.{
  Counted, pending, weight, kupl_gnode_precede-Counted, no_pending, ran, finish-successors,
  finish-finished, kupl_task_finish-Counted,
}

module _ (n : ℕ) where
  readers-Counted :
      (rs : List ℕ) (nodes : Nodes) → Counted nodes → Counted (precede_readers rs n nodes).0
  unfolding precede_readers
  readers-Counted [] nodes c = c
  readers-Counted (r ∷ rs) nodes c =
      readers-Counted rs (kupl_gnode_precede (some r) n nodes).0
        (kupl_gnode_precede-Counted (some r) n nodes c)

  entry-Counted :
      (rs : List ℕ) (e : Entry) (nodes : Nodes)
      → Counted nodes
      → Counted (precede_entry rs e n nodes).0
  entry-Counted [] e nodes c = kupl_gnode_precede-Counted e.out n nodes c
  entry-Counted (r ∷ rs) e nodes c = readers-Counted (r ∷ rs) nodes c

  out-Counted :
      (e : Entry) (nodes : Nodes) → Counted nodes → Counted (node_process_dep_out e n nodes).1
  unfolding node_process_dep_out
  out-Counted e nodes c = entry-Counted e.readers e nodes c

  in-Counted :
      (e : Entry) (nodes : Nodes) → Counted nodes → Counted (node_process_dep_in e n nodes).1
  unfolding node_process_dep_in
  in-Counted e nodes c = kupl_gnode_precede-Counted e.out n nodes c

  all-Counted : (hash : Hash) (nodes : Nodes) → Counted nodes → Counted (process_all hash n nodes).1
  unfolding process_all
  all-Counted [] nodes c = c
  all-Counted ((x, e) ∷ hash) nodes c =
      all-Counted hash (node_process_dep_out e n nodes).1 (out-Counted e nodes c)

  by_type-Counted :
      (t : DepType) (x : ℕ) (o : Option Entry) (nodes : Nodes) (hash : Hash)
      → Counted nodes
      → Counted (by_type t x o n nodes hash).0.nodes
  by_type-Counted type_in x none nodes hash c = c
  by_type-Counted type_out x none nodes hash c = c
  by_type-Counted type_inout x none nodes hash c = c
  by_type-Counted type_all x none nodes hash c = c
  by_type-Counted unknown x none nodes hash c = c
  by_type-Counted type_in x (some e) nodes hash c = in-Counted e nodes c
  by_type-Counted type_out x (some e) nodes hash c = out-Counted e nodes c
  by_type-Counted type_inout x (some e) nodes hash c = out-Counted e nodes c
  by_type-Counted type_all x (some e) nodes hash c = all-Counted hash nodes c
  by_type-Counted unknown x (some e) nodes hash c = c

  process_dep-Counted :
      (dag : Dag) (dep : Dep)
      → Counted dag.nodes
      → Counted (kupl_node_process_dep n dag dep).0.nodes
  unfolding kupl_node_process_dep
  process_dep-Counted dag dep c =
      let hash = with_entry dep.base_addr dag.nodes dag.hash in
      by_type-Counted dep.type dep.base_addr (find dep.base_addr hash) dag.nodes hash c

  process_deps-Counted :
      (deps : List Dep) (k : ℕ) (dag : Dag)
      → Counted dag.nodes
      → Counted (process_deps n deps k dag).0.nodes
  unfolding process_deps
  process_deps-Counted [] k dag c = c
  process_deps-Counted (dep ∷ deps) k dag c =
      after (kupl_node_process_dep n dag dep) (process_dep-Counted dag dep c)
        (process_deps-Counted deps)
    where
      after :
          (out : Dag × Option ℕ)
          → Counted out.0.nodes
          → ((m : ℕ) (dag1 : Dag)
              → Counted dag1.nodes
              → Counted (process_deps n deps m dag1).0.nodes)
          → Counted (next_dep k out (process_deps n deps)).0.nodes
      after (dag1, none) c rest = c
      after (dag1, some m) c rest = rest ((k + m) % 2 ^ 32) dag1 c

abbrev pub empty_dag : Dag
empty_dag = record { hash = []; nodes = λ n. kupl_gnode_init }

-- Fewer than 2 ^ 32 edges lead to the task from tasks that have not run.
abbrev pub HasFewPredecessors : Nodes → ℕ → Type 0
HasFewPredecessors nodes n = (bound : ℕ) → pending bound nodes n < 2 ^ 32

-- The graphs that arise, with the accesses so far. The dependencies of a task are processed while no task
-- finishes.
pub data Reached : List Access → Dag → Type 0 where
  start : Reached [] empty_dag
  add :
      (past : List Access) (dag dag' : Dag) (n : ℕ) (deps : List Dep) (k : ℕ)
      → Reached past dag
      → (dag.nodes n).finished ≡ false
      → AllDeps deps
      → process_deps n deps 0 dag ≡ (dag', some k)
      → Reached (accesses n deps past) dag'
  finish :
      (past : List Access) (dag : Dag) (n : ℕ)
      → Reached past dag
      → (dag.nodes n).finished ≡ false
      → (dag.nodes n).n_predecessors ≡ 0
      → HasFewPredecessors dag.nodes n
      → Reached past (record dag { nodes = (kupl_task_finish false false n dag.nodes).0 })

module _ (n : ℕ) (nodes : Nodes) where
  abbrev after_run : Nodes
  after_run = (kupl_task_finish false false n nodes).0

  ran_cases : (u : ℕ) → (ran n nodes u).finished ≡ true → (u ≡ n) ⊎ ((nodes u).finished ≡ true)
  ran_cases u h = split (n == u) refl h
    where
      split :
          (b : Bool)
          → (n == u) ≡ b
          → (if b then record (nodes n) { finished = true } else nodes u).finished ≡ true
          → (u ≡ n) ⊎ ((nodes u).finished ≡ true)
      split true at h = inl (sym ((==_iff n u).0 at))
      split false off h = inr h

  ran_itself : (u : ℕ) → u ≡ n → (ran n nodes u).finished ≡ true
  ran_itself u same =
      let here : (n == u) ≡ true = ground (arith, same) in
      ap (λ (b : Bool). (if b then record (nodes n) { finished = true } else nodes u).finished) here

  ran_stays : (u : ℕ) → (nodes u).finished ≡ true → (ran n nodes u).finished ≡ true
  ran_stays u h =
      if_cases (λ (g : Gnode). g.finished ≡ true) (n == u) (record (nodes n) { finished = true })
        (nodes u) (λ at. refl) (λ off. h)

  finish-Grows : Grows nodes after_run
  unfolding kupl_task_finish
  finish-Grows = record {
    edges = λ u v e. subst (Among v) (sym (finish-successors n nodes u)) e;
    runs = λ u h. finish-finished n nodes u ∙ ran_stays u h;
  }

  finish-Closed :
      Closed nodes
      → ((u : ℕ) → Among n (nodes u).successors → (nodes u).finished ≡ true)
      → Closed after_run
  unfolding kupl_task_finish
  finish-Closed closed done u v e h =
      let edge = subst (Among v) (finish-successors n nodes u) e in
      finish-finished n nodes u
      ∙ ran_stays u (elim (ran_cases v (sym (finish-finished n nodes v) ∙ h)) [
        | inl same ↦ done u (subst (λ (w : ℕ). Among w (nodes u).successors) same edge)
        | inr before ↦ closed u v edge before
      ])

abbrev IsCounted : List Access → Dag → Type 0
IsCounted past dag = IsDag past dag × Counted dag.nodes

-- In every graph that arises: no task has run before one that it waits for, the entry of each
-- address tracks the accesses to it, conflicting accesses are ordered, and the count of each
-- task is the number of edges from tasks that have not run, modulo 2 ^ 32.
pub Reached-IsDag :
    (past : List Access) (dag : Dag) → Reached past dag → IsDag past dag × Counted dag.nodes
Reached-IsDag past dag start = (
  record {
    closed = λ u v e h. absurd e;
    tracked = tt;
    known = λ a m. absurd m;
    deps = λ a m. absurd m;
    ordered = tt;
  },
  record {
    bound = 0;
    empty = λ u h. refl;
    count = λ v. sym (ap (λ m. m % 2 ^ 32) (total_of_none (weight empty_dag.nodes v)));
  },
)
Reached-IsDag past dag (add past1 dag1 dag' n deps k r waits ok out) =
    let (w, c) = Reached-IsDag past1 dag1 r in
    let processed =
      subst (AllProcessed past1 dag1 n deps) out
        (process_deps-IsDag past1 n deps 0 dag1 w ok waits) in
    (
      processed.1,
      subst (λ (o : Dag × Option ℕ). Counted o.0.nodes) out (process_deps-Counted n deps 0 dag1 c),
    )
Reached-IsDag past dag (finish past1 dag1 n r waits ready few) =
    let (w, c) = Reached-IsDag past1 dag1 r in
    let grows = finish-Grows n dag1.nodes in
    (
      record {
        closed =
            finish-Closed n dag1.nodes w.closed
              (λ u e. no_pending dag1.nodes c n u ready (few c.bound) e);
        tracked =
            AllTracks-Grows past1 dag1.nodes (after_run n dag1.nodes) dag1.hash grows w.tracked;
        known = w.known;
        deps = w.deps;
        ordered = Ordered-Grows dag1.nodes (after_run n dag1.nodes) past1 grows w.ordered;
      },
      kupl_task_finish-Counted n dag1.nodes c waits,
    )

-- The first access was made before the second.
abbrev pub Earlier : Access → Access → List Access → Type 0
Earlier a b [] = ⊥
Earlier a b (c ∷ past) = ((b ≡ c) × Among a past) ⊎ Earlier a b past

Ordered-at :
    (nodes : Nodes) (past : List Access) (a b : Access)
    → Ordered nodes past
    → Earlier a b past
    → Conflict a.dep b.dep
    → Covered nodes a.task b.task
Ordered-at nodes [] a b o e x = absurd e
Ordered-at nodes (c ∷ past) a b (o, os) (inl (same, m)) x =
    subst (λ (d : Access). Covered nodes a.task d.task) (sym same)
      (o a m (subst (λ (d : Access). Conflict a.dep d.dep) same x))
Ordered-at nodes (c ∷ past) a b (o, os) (inr rest) x = Ordered-at nodes past a b os rest x

-- In every graph that arises by adding tasks, while none finishes, and running tasks that wait
-- for none and have fewer than 2 ^ 32 predecessors that have not run: if two accesses conflict
-- and the task of the later one has run, then the task of the earlier one has run.
pub Reached-order :
    (past : List Access) (dag : Dag) (a b : Access)
    → Reached past dag
    → Earlier a b past
    → Conflict a.dep b.dep
    → (dag.nodes b.task).finished ≡ true
    → (dag.nodes a.task).finished ≡ true
Reached-order past dag a b r e x run =
    let (w, c) = Reached-IsDag past dag r in
    elim (Ordered-at dag.nodes past a b w.ordered e x) [
      | inl before ↦ before
      | inr path ↦ Before-finished dag.nodes a.task b.task w.closed path run
    ]

-- The last step of a path.
Before-ready :
    (nodes : Nodes) (a b : ℕ)
    → Closed nodes
    → ((u : ℕ) → Among b (nodes u).successors → (nodes u).finished ≡ true)
    → Before nodes a b
    → (a ≡ b) ⊎ ((nodes a).finished ≡ true)
Before-ready nodes a b closed done (itself _) = inl refl
Before-ready nodes a b closed done (through _ d _ e p) =
    elim (Before-ready nodes d b closed done p) [
      | inl same ↦ inr (done a (subst (λ (v : ℕ). Among v (nodes a).successors) same e))
      | inr run ↦ inr (closed a d e run)
    ]

-- In every graph that arises: if two accesses conflict, and the task of the later one has a
-- count of 0 and fewer than 2 ^ 32 predecessors that have not run, then the task of the
-- earlier one has run or is the same task.
pub Reached-ready :
    (past : List Access) (dag : Dag) (a b : Access)
    → Reached past dag
    → Earlier a b past
    → Conflict a.dep b.dep
    → (dag.nodes b.task).n_predecessors ≡ 0
    → HasFewPredecessors dag.nodes b.task
    → (a.task ≡ b.task) ⊎ ((dag.nodes a.task).finished ≡ true)
Reached-ready past dag a b r e x ready few =
    let (w, c) = Reached-IsDag past dag r in
    elim (Ordered-at dag.nodes past a b w.ordered e x) [
      | inl before ↦ inr before
      | inr path ↦
          Before-ready dag.nodes a.task b.task w.closed
            (λ u edge. no_pending dag.nodes c b.task u ready (few c.bound) edge) path
    ]
