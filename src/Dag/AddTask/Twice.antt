-- ===== src/Dag/AddTask/Twice.antt =====
-- A task that is given the same write twice waits for itself.
use kupl.Prelude.{
  ℕ, ◌+◌, ◌%◌, ◌^◌, ◌≡◌, ◌≢◌, refl, sym, ap, ◌∙◌, subst, arith, ◌==◌, if◌then◌else◌, Bool, true,
  false, List, [], ◌∷◌, Option, none, some, Bool-cases, if_cases, inl, inr, take,
}
use kupl.Dag.{
  Dep, type_out, Nodes, Entry, Hash, Dag, find, put, with_entry, after_find, node_process_dep_out,
  put_entry, by_type, kupl_node_process_dep, next_dep, process_deps, kupl_gnode_precede,
  kupl_task_dep_all_addr,
}
use kupl.Dag.Paths.{Among, linked, new_edge}
use kupl.Dag.Entries.{Access, node_process_dep_out-Tracks}
use kupl.Dag.Order.{keys, IsDag, find_known, find-Tracks}
use kupl.Dag.Process.{with_entry-HasEntry}
use kupl.Dag.Counts.{no_pending}
use kupl.Dag.System.{Reached, HasFewPredecessors, Reached-IsDag}
use kupl.Dag.AddTask.{readiness, kupl_dag_add_task}
use kupl.Dag.AddTask.Distinct.{dep_list_rm_dup-twice}

find-put : (x : ℕ) (e : Entry) (hash : Hash) → Among x (keys hash) → find x (put x e hash) ≡ some e
find-put x e [] m = absurd m
find-put x e ((y, d) ∷ hash) m = elim (Bool-cases (x == y)) [
  | inl at ↦ rw (at, at) refl
  | inr off ↦ elim m [
    | inl same ↦ absurd (ground (arith, off, same))
    | inr rest ↦ rw (off, off) (find-put x e hash rest)
  ]
]

abbrev pub write : ℕ → Dep
write x = record { base_addr = x; type = type_out }

module _ (n x : ℕ) where
  process_write :
      (nodes : Nodes) (hash hash1 : Hash) (e : Entry)
      → with_entry x nodes hash ≡ hash1
      → find x hash1 ≡ some e
      → kupl_node_process_dep n (record { hash = hash; nodes = nodes }) (write x)
        ≡ put_entry x hash1 (node_process_dep_out e n nodes)
  unfolding kupl_node_process_dep
  process_write nodes hash hash1 e entry found =
      ap (λ h. by_type type_out x (find x h) n nodes h) entry
      ∙ ap (λ o. by_type type_out x o n nodes hash1) found

  -- The entry's last writer is the task itself.
  written_twice :
      (nodes : Nodes)
      → (nodes n).finished ≡ false
      → (node_process_dep_out (record { out = some n; readers = [] }) n nodes).1 ≡ linked n n nodes
  unfolding node_process_dep_out kupl_gnode_precede
  written_twice nodes waits =
      ap (λ (b : Bool). (if◌then◌else◌ {A = Nodes × ℕ} b (nodes, 0) (linked n n nodes, 1)).0) waits

  entry_there :
      (nodes : Nodes) (hash : Hash) (e : Entry)
      → find x hash ≡ some e
      → with_entry x nodes hash ≡ hash
  unfolding with_entry
  entry_there nodes hash e found = ap (λ o. after_find x o nodes hash) found

  twice_edge :
      (past : List Access) (dag : Dag)
      → IsDag past dag
      → (dag.nodes n).finished ≡ false
      → Among n ((process_deps n (write x ∷ write x ∷ []) 0 dag).0.nodes n).successors
  unfolding process_deps node_process_dep_out
  twice_edge past dag w waits =
      let (tracked, here, _) =
        with_entry-HasEntry past dag.nodes dag.hash x w.tracked w.known w.deps w.closed in
      let hash1 = with_entry x dag.nodes dag.hash in
      let (e, found) = find_known x hash1 here in
      let nodes1 = (node_process_dep_out e n dag.nodes).1 in
      let own : Entry = record { out = some n; readers = [] } in
      let (links, _, _) =
        node_process_dep_out-Tracks n past dag.nodes x e (write x) w.closed waits
          (find-Tracks past dag.nodes x e hash1 tracked found) in
      let again = find-put x own hash1 here in
      let first = process_write dag.nodes dag.hash hash1 e refl found in
      let second =
        process_write nodes1 (put x own hash1) (put x own hash1) own
          (entry_there nodes1 (put x own hash1) own again) again in
      let edge : Among n ((node_process_dep_out own n nodes1).1 n).successors =
        subst (λ (m : Nodes). Among n (m n).successors)
          (sym (written_twice nodes1 (links.same n ∙ waits))) (new_edge n n nodes1) in
      let m : ℕ = (0 + (node_process_dep_out e n dag.nodes).2) % 2 ^ 32 in
      let last : ℕ → Dag → Dag × Option ℕ = λ k d. (d, some k) in
      subst
        (λ (out : Dag × Option ℕ).
          Among n
            ((next_dep 0 out (λ k d. next_dep k (kupl_node_process_dep n d (write x)) last)).0.nodes
              n).successors)
        (sym first)
        (subst (λ (out : Dag × Option ℕ). Among n ((next_dep m out last).0.nodes n).successors)
          (sym second) edge)

readiness-dag : (n : ℕ) (out : Dag × Option ℕ) → (readiness n out).0 ≡ out.0
readiness-dag n (dag, none) = refl
readiness-dag n (dag, some k) = if_cases (λ (r : Dag × _). r.0 ≡ dag) _ _ _ (λ _. refl) (λ _. refl)

-- In a graph whose entries agree with the accesses: a task that has not run and is added with
-- two equal writes of an address, which is not that for all, becomes its own successor.
pub kupl_dag_add_task-waits_for_itself :
    (past : List Access) (dag : Dag) (n x : ℕ) (m1 m2 : Dep)
    → IsDag past dag
    → (dag.nodes n).finished ≡ false
    → (x == kupl_task_dep_all_addr) ≡ false
    → Among n
        ((kupl_dag_add_task true n dag (write x ∷ write x ∷ []) (m1 ∷ m2 ∷ [])).0.nodes
          n).successors
unfolding kupl_dag_add_task
kupl_dag_add_task-waits_for_itself past dag n x m1 m2 w waits plain =
    let deps = write x ∷ write x ∷ [] in
    let kept = dep_list_rm_dup-twice (write x) m1 m2 plain in
    subst
      (λ (list : List Dep × ℕ).
        Among n ((readiness n (process_deps n (take list.1 list.0) 0 dag)).0.nodes n).successors)
      (sym kept)
      (subst (λ (d : Dag). Among n (d.nodes n).successors)
        (sym (readiness-dag n (process_deps n deps 0 dag))) (twice_edge n x past dag w waits))

-- In every graph that arises: a task that has not run and is its own successor has a count
-- other than 0, if it has fewer than 2 ^ 32 predecessors that have not run.
pub waits_for_itself-stuck :
    (past : List Access) (dag : Dag) (n : ℕ)
    → Reached past dag
    → (dag.nodes n).finished ≡ false
    → HasFewPredecessors dag.nodes n
    → Among n (dag.nodes n).successors
    → (dag.nodes n).n_predecessors ≢ 0
waits_for_itself-stuck past dag n r waits few edge ready =
    let (w, c) = Reached-IsDag past dag r in
    let run = no_pending dag.nodes c n n ready (few c.bound) edge in absurd (cc)
