-- ===== src/Dag/Tests.antt =====
-- Task 0 writes address 16, and task 1 reads it.
use kupl.Prelude.{
  ℕ, zero, suc, ◌+◌, ◌<◌, ◌≡◌, refl, ap, ◌∙◌, subst, arith, ◌==◌, ◌⊎◌, true, false, List, [], ◌∷◌,
  Bool-cases, inl, inr, total, total_change, total_extend, total_of_none,
}
use kupl.Dag.{
  Dep, type_in, Nodes, Dag, kupl_gnode_precede, node_process_dep_out, node_process_dep_in,
  with_entry, kupl_node_process_dep, process_deps, kupl_gnode_release_ready, kupl_task_finish,
}
use kupl.Dag.Paths.{Among}
use kupl.Dag.Entries.{Access}
use kupl.Dag.Order.{Conflict, IsDag}
use kupl.Dag.Keeps.{accesses}
use kupl.Dag.Counts.{Counted, weight, pending}
use kupl.Dag.System.{
  empty_dag, HasFewPredecessors, Reached, start, add, finish, Earlier, Reached-IsDag, Reached-order,
  Reached-ready,
}
use kupl.Dag.AddTask.{kupl_dag_add_task}
use kupl.Dag.AddTask.Ready.{Answered, kupl_dag_add_task-ready}
use kupl.Dag.AddTask.Twice.{write, kupl_dag_add_task-waits_for_itself}

abbrev read : ℕ → Dep
read x = record { base_addr = x; type = type_in }

-- The graph after each step.
abbrev dag1 : Dag
dag1 = (process_deps 0 (write 16 ∷ []) 0 empty_dag).0

abbrev dag2 : Dag
dag2 = (process_deps 1 (read 16 ∷ []) 0 dag1).0

abbrev dag3 : Dag
dag3 = record dag2 { nodes = (kupl_task_finish false false 0 dag2.nodes).0 }

abbrev dag4 : Dag
dag4 = record dag3 { nodes = (kupl_task_finish false false 1 dag3.nodes).0 }

abbrev past1 : List Access
past1 = accesses 0 (write 16 ∷ []) []

abbrev past2 : List Access
past2 = accesses 1 (read 16 ∷ []) past1

few : (nodes : Nodes) (v : ℕ) → ((u : ℕ) → weight nodes v u ≡ 0) → HasFewPredecessors nodes v
few nodes v h bound =
    let none_left : pending bound nodes v ≡ 0 =
      ap (λ n. total n (weight nodes v)) (let e : bound ≡ 0 + bound = omega arith in e)
      ∙ total_extend bound 0 (weight nodes v) (λ u _. h u)
      ∙ total_of_none (weight nodes v) in
    omega (arith, none_left)

-- A statement on each task: on those of the example, and on the others.
cases :
    (P : ℕ → Type 0)
    → P 0
    → P 1
    → ((u : ℕ) → (0 == u) ≡ false → (1 == u) ≡ false → P u)
    → (u : ℕ) → P u
cases P a b c u = elim (Bool-cases (0 == u)) [
  | inl at ↦ subst P (ground (arith, at)) a
  | inr off ↦ elim (Bool-cases (1 == u)) [
    | inl at' ↦ subst P (ground (arith, at')) b
    | inr off' ↦ c u off off'
  ]
]

reached1 : Reached past1 dag1
unfolding process_deps kupl_node_process_dep with_entry node_process_dep_in node_process_dep_out
    kupl_gnode_precede kupl_task_finish kupl_gnode_release_ready
reached1 = add [] empty_dag dag1 0 (write 16 ∷ []) 0 start refl ((λ h. cc), tt) refl

reached2 : Reached past2 dag2
unfolding process_deps kupl_node_process_dep with_entry node_process_dep_in node_process_dep_out
    kupl_gnode_precede kupl_task_finish kupl_gnode_release_ready
reached2 = add past1 dag1 dag2 1 (read 16 ∷ []) 1 reached1 refl ((λ h. cc), tt) refl

few0 : HasFewPredecessors dag2.nodes 0
unfolding process_deps kupl_node_process_dep with_entry node_process_dep_in node_process_dep_out
    kupl_gnode_precede kupl_task_finish kupl_gnode_release_ready
few0 =
    few dag2.nodes 0
      (cases (λ u. weight dag2.nodes 0 u ≡ 0) refl refl (λ u off off'. rw (off, off') refl))

reached3 : Reached past2 dag3
unfolding process_deps kupl_node_process_dep with_entry node_process_dep_in node_process_dep_out
    kupl_gnode_precede kupl_task_finish kupl_gnode_release_ready
reached3 = finish past2 dag2 0 reached2 refl refl few0

few1 : HasFewPredecessors dag3.nodes 1
unfolding process_deps kupl_node_process_dep with_entry node_process_dep_in node_process_dep_out
    kupl_gnode_precede kupl_task_finish kupl_gnode_release_ready
few1 =
    few dag3.nodes 1
      (cases (λ u. weight dag3.nodes 1 u ≡ 0) refl refl (λ u off off'. rw (off, off') refl))

reached4 : Reached past2 dag4
unfolding process_deps kupl_node_process_dep with_entry node_process_dep_in node_process_dep_out
    kupl_gnode_precede kupl_task_finish kupl_gnode_release_ready
reached4 = finish past2 dag3 1 reached3 refl refl few1

abbrev first_access : Access
first_access = record { task = 0; dep = write 16 }

abbrev second_access : Access
second_access = record { task = 1; dep = read 16 }

conflict : Conflict first_access.dep second_access.dep
conflict = (16, refl, refl, inl refl)

earlier : Earlier first_access second_access past2
earlier = inl (refl, inl refl)

ran1 : (dag4.nodes 1).finished ≡ true
unfolding process_deps kupl_node_process_dep with_entry node_process_dep_in node_process_dep_out
    kupl_gnode_precede kupl_task_finish kupl_gnode_release_ready
ran1 = refl

ready1 : (dag3.nodes 1).n_predecessors ≡ 0
unfolding process_deps kupl_node_process_dep with_entry node_process_dep_in node_process_dep_out
    kupl_gnode_precede kupl_task_finish kupl_gnode_release_ready
ready1 = refl

Reached-order_example : (dag4.nodes 0).finished ≡ true
Reached-order_example =
    Reached-order past2 dag4 first_access second_access reached4 earlier conflict ran1

Reached-ready_example : (first_access.task ≡ second_access.task) ⊎ ((dag3.nodes 0).finished ≡ true)
Reached-ready_example =
    Reached-ready past2 dag3 first_access second_access reached3 earlier conflict ready1 few1

Reached-IsDag_example : IsDag past2 dag4 × Counted dag4.nodes
Reached-IsDag_example = Reached-IsDag past2 dag4 reached4

idle2 : (dag4.nodes 2).finished ≡ false
unfolding process_deps kupl_node_process_dep with_entry node_process_dep_in node_process_dep_out
    kupl_gnode_precede kupl_task_finish kupl_gnode_release_ready
idle2 = refl

kupl_dag_add_task-waits_for_itself_example :
    Among 2
      ((kupl_dag_add_task true 2 dag4 (write 16 ∷ write 16 ∷ []) (read 1 ∷ read 2 ∷ [])).0.nodes
        2).successors
kupl_dag_add_task-waits_for_itself_example =
    kupl_dag_add_task-waits_for_itself past2 dag4 2 16 (read 1) (read 2)
      (Reached-IsDag past2 dag4 reached4).0 idle2 refl

-- A task that writes address 16 twice.
abbrev stuck_dag : Dag
stuck_dag = (process_deps 0 (write 16 ∷ write 16 ∷ []) 0 empty_dag).0

reached_stuck : Reached (accesses 0 (write 16 ∷ write 16 ∷ []) []) stuck_dag
unfolding process_deps kupl_node_process_dep with_entry node_process_dep_in node_process_dep_out
    kupl_gnode_precede kupl_task_finish kupl_gnode_release_ready
reached_stuck =
    add [] empty_dag stuck_dag 0 (write 16 ∷ write 16 ∷ []) 1 start refl
      ((λ h. cc), ((λ h. cc), tt)) refl

one_edge : (bound : ℕ) → 0 < bound → pending bound stuck_dag.nodes 0 ≡ 1
unfolding process_deps kupl_node_process_dep with_entry node_process_dep_in node_process_dep_out
    kupl_gnode_precede kupl_task_finish kupl_gnode_release_ready
one_edge bound lt =
    let f = weight stuck_dag.nodes 0 in
    let change =
      total_change bound f (λ u. 0) 0 lt
        (λ j lj off. let away : (0 == j) ≡ false = ground (arith, off) in rw away refl) in
    let none_left = total_extend bound 0 (λ u. 0) (λ u _. refl) ∙ total_of_none (λ u. 0) in
    let same : total bound (λ u. 0) ≡ total (0 + bound) (λ u. 0) =
      ap (λ n. total n (λ u. 0)) (omega arith) in
    omega (arith, change, none_left, same)

few_stuck : HasFewPredecessors stuck_dag.nodes 0
few_stuck zero = omega (arith, total_of_none (weight stuck_dag.nodes 0))
few_stuck (suc bound) = omega (arith, one_edge (suc bound) (omega arith))

idle_stuck : (stuck_dag.nodes 0).finished ≡ false
unfolding process_deps kupl_node_process_dep with_entry node_process_dep_in node_process_dep_out
    kupl_gnode_precede kupl_task_finish kupl_gnode_release_ready
idle_stuck = refl

edge_stuck : Among 0 (stuck_dag.nodes 0).successors
unfolding process_deps kupl_node_process_dep with_entry node_process_dep_in node_process_dep_out
    kupl_gnode_precede kupl_task_finish kupl_gnode_release_ready
edge_stuck = inl refl

no_count1 : (dag1.nodes 1).n_predecessors ≡ 0
unfolding process_deps kupl_node_process_dep with_entry node_process_dep_in node_process_dep_out
    kupl_gnode_precede kupl_task_finish kupl_gnode_release_ready
no_count1 = refl

kupl_dag_add_task-ready_example :
    Answered 1 (kupl_dag_add_task true 1 dag1 (read 16 ∷ []) (write 24 ∷ []))
kupl_dag_add_task-ready_example =
    kupl_dag_add_task-ready 1 true dag1 (read 16 ∷ []) (write 24 ∷ []) no_count1
