-- ===== src/Dag/AddTask/Ready.antt =====
-- `kupl_dag_add_task` says that a task is ready exactly if it waits for none.
use kupl.Prelude.{
  ℕ, ◌+◌, ◌-◌, ◌%◌, ◌^◌, ◌≡◌, ◌↔◌, refl, ◌∙◌, arith, ◌==◌, ==_iff, Bool, true, not, ◌&&◌, leb,
  length, take, List, [], ◌∷◌, Option, none, some, if_cases, inl, inr, ◌⊎◌,
}
use kupl.Dag.{
  Dep, DepType, type_in, type_out, type_inout, type_all, unknown, Nodes, Entry, Hash, Dag,
  kupl_gnode_precede, precede_readers, precede_entry, node_process_dep_out, node_process_dep_in,
  process_all, by_type, find, with_entry, kupl_node_process_dep, next_dep, process_deps,
}
use kupl.Dag.Paths.{linked, linked-n_predecessors}
use kupl.Dag.AddTask.{
  Added, kupl_dag_task_ready, kupl_dag_task_not_ready, kupl_error, readiness, dep_list_rm_dup,
  kupl_dag_add_task,
}

module _ (n : ℕ) where
  -- The count has grown by `k`, modulo 2 ^ 32.
  abbrev Grown : Nodes → Nodes → ℕ → Type 0
  Grown nodes nodes' k =
      (nodes' n).n_predecessors % 2 ^ 32 ≡ ((nodes n).n_predecessors + k) % 2 ^ 32

  both : (a b c : Nodes) (k m : ℕ) → Grown a b k → Grown b c m → Grown a c ((k + m) % 2 ^ 32)
  both a b c k m g h = omega (arith, g, h)

  precede_Grown :
      (o : Option ℕ) (nodes : Nodes)
      → let (nodes', k) = kupl_gnode_precede o n nodes in Grown nodes nodes' k
  unfolding kupl_gnode_precede
  precede_Grown none nodes = omega arith
  precede_Grown (some p) nodes =
      if_cases (λ (out : Nodes × ℕ). Grown nodes out.0 out.1) (nodes p).finished (nodes, 0)
        (linked p n nodes, 1) (λ run. omega arith)
        (λ waits.
          let here : (n == n) ≡ true = ground arith in
          let added : (linked p n nodes n).n_predecessors
              ≡ ((nodes n).n_predecessors + 1) % 2 ^ 32 =
            linked-n_predecessors p n nodes n ∙ rw here refl in
          omega (arith, added))

  readers_Grown :
      (rs : List ℕ) (nodes : Nodes)
      → let (nodes', k) = precede_readers rs n nodes in Grown nodes nodes' k
  unfolding precede_readers
  readers_Grown [] nodes = omega arith
  readers_Grown (r ∷ rs) nodes =
      let (nodes1, k) = kupl_gnode_precede (some r) n nodes in
      let (nodes2, m) = precede_readers rs n nodes1 in
      both nodes nodes1 nodes2 k m (precede_Grown (some r) nodes) (readers_Grown rs nodes1)

  entry_Grown :
      (rs : List ℕ) (e : Entry) (nodes : Nodes)
      → let (nodes', k) = precede_entry rs e n nodes in Grown nodes nodes' k
  entry_Grown [] e nodes = precede_Grown e.out nodes
  entry_Grown (r ∷ rs) e nodes = readers_Grown (r ∷ rs) nodes

  out_Grown :
      (e : Entry) (nodes : Nodes)
      → let (e', nodes', k) = node_process_dep_out e n nodes in Grown nodes nodes' k
  unfolding node_process_dep_out
  out_Grown e nodes = entry_Grown e.readers e nodes

  all_Grown :
      (hash : Hash) (nodes : Nodes)
      → let (h, nodes', k) = process_all hash n nodes in Grown nodes nodes' k
  unfolding process_all
  all_Grown [] nodes = omega arith
  all_Grown ((x, e) ∷ hash) nodes =
      let (e', nodes1, k) = node_process_dep_out e n nodes in
      let (h, nodes2, m) = process_all hash n nodes1 in
      both nodes nodes1 nodes2 k m (out_Grown e nodes) (all_Grown hash nodes1)

  -- If the result is a number.
  abbrev GrownTo : Nodes → ℕ → Dag × Option ℕ → Type 0
  GrownTo nodes k (dag, none) = Unit
  GrownTo nodes k (dag, some m) =
      ((dag.nodes n).n_predecessors + k) % 2 ^ 32 ≡ ((nodes n).n_predecessors + m) % 2 ^ 32

  by_type_Grown :
      (t : DepType) (x : ℕ) (o : Option Entry) (nodes : Nodes) (hash : Hash)
      → GrownTo nodes 0 (by_type t x o n nodes hash)
  unfolding node_process_dep_in
  by_type_Grown type_in x none nodes hash = tt
  by_type_Grown type_out x none nodes hash = tt
  by_type_Grown type_inout x none nodes hash = tt
  by_type_Grown type_all x none nodes hash = tt
  by_type_Grown unknown x none nodes hash = tt
  by_type_Grown type_in x (some e) nodes hash = omega (arith, precede_Grown e.out nodes)
  by_type_Grown type_out x (some e) nodes hash = omega (arith, out_Grown e nodes)
  by_type_Grown type_inout x (some e) nodes hash = omega (arith, out_Grown e nodes)
  by_type_Grown type_all x (some e) nodes hash = omega (arith, all_Grown hash nodes)
  by_type_Grown unknown x (some e) nodes hash = tt

  deps_Grown :
      (deps : List Dep) (k : ℕ) (dag : Dag) → GrownTo dag.nodes k (process_deps n deps k dag)
  unfolding process_deps kupl_node_process_dep
  deps_Grown [] k dag = refl
  deps_Grown (dep ∷ deps) k dag =
      let hash = with_entry dep.base_addr dag.nodes dag.hash in
      first (kupl_node_process_dep n dag dep)
        (by_type_Grown dep.type dep.base_addr (find dep.base_addr hash) dag.nodes hash)
        (deps_Grown deps)
    where
      last :
          (dag1 : Dag) (m : ℕ) (out : Dag × Option ℕ)
          → GrownTo dag.nodes 0 (dag1, some m)
          → GrownTo dag1.nodes ((k + m) % 2 ^ 32) out
          → GrownTo dag.nodes k out
      last dag1 m (dag2, none) g h = tt
      last dag1 m (dag2, some j) g h = omega (arith, g, h)

      first :
          (out : Dag × Option ℕ)
          → GrownTo dag.nodes 0 out
          → ((j : ℕ) (d : Dag) → GrownTo d.nodes j (process_deps n deps j d))
          → GrownTo dag.nodes k (next_dep k out (process_deps n deps))
      first (dag1, none) g rest = tt
      first (dag1, some m) g rest =
          last dag1 m (process_deps n deps ((k + m) % 2 ^ 32) dag1) g (rest ((k + m) % 2 ^ 32) dag1)

  -- An error, or an answer that agrees with the count.
  abbrev pub Answered : Dag × Added → Type 0
  Answered (dag', r) =
      (r ≡ kupl_error) ⊎ ((r ≡ kupl_dag_task_ready) ↔ ((dag'.nodes n).n_predecessors % 2 ^ 32 ≡ 0))

  -- The number of new edges is that of all edges.
  readiness-Answered :
      (dag : Dag) (out : Dag × Option ℕ)
      → (dag.nodes n).n_predecessors ≡ 0
      → GrownTo dag.nodes 0 out
      → Answered (readiness n out)
  readiness-Answered dag (dag', none) idle same = inl refl
  readiness-Answered dag (dag', some k) idle same =
      if_cases Answered
        (((dag'.nodes n).n_predecessors + k) % 2 ^ 32 == (2 ^ 32 - k % 2 ^ 32) % 2 ^ 32)
        (dag', kupl_dag_task_ready) (dag', kupl_dag_task_not_ready)
        (λ equal.
          let test =
            (==_iff (((dag'.nodes n).n_predecessors + k) % 2 ^ 32)
                ((2 ^ 32 - k % 2 ^ 32) % 2 ^ 32)).0
              equal in
          inr ((λ _. omega (arith, test, same, idle)), (λ _. refl)))
        (λ differs. inr (
          (λ e. cc),
          (λ zero_count.
              let test : ((dag'.nodes n).n_predecessors + k) % 2 ^ 32
                  ≡ (2 ^ 32 - k % 2 ^ 32) % 2 ^ 32 =
                omega (arith, same, zero_count, idle) in
              absurd (ground (arith, differs, test))),
        ))

  -- For a task whose count is 0: adding it with its dependencies fails, or says that the task is
  -- ready exactly if its count is 0 afterwards, modulo 2 ^ 32.
  pub kupl_dag_add_task-ready :
      (memory : Bool) (dag : Dag) (task_dep_list dep_list : List Dep)
      → (dag.nodes n).n_predecessors ≡ 0
      → Answered (kupl_dag_add_task memory n dag task_dep_list dep_list)
  unfolding kupl_dag_add_task
  kupl_dag_add_task-ready memory dag task_dep_list dep_list idle =
      let (list, dep_cnt) = dep_list_rm_dup task_dep_list dep_list in
      let out = process_deps n (take dep_cnt list) 0 dag in
      if_cases Answered (not (leb (length task_dep_list) 128) && not memory) (dag, kupl_error)
        (readiness n out) (λ _. inl refl)
        (λ _. readiness-Answered dag out idle (deps_Grown (take dep_cnt list) 0 dag))
