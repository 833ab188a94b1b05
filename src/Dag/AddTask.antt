-- ===== src/Dag/AddTask.antt =====
-- `dep_list_rm_dup` and `kupl_dag_add_task` of src/mt/kupl_dag.cpp.
pub mod Distinct
pub mod Twice
pub mod Ready
use kupl.Prelude.{
  ℕ, zero, suc, ◌+◌, ◌-◌, ◌%◌, ◌^◌, ◌==◌, leb, if◌then◌else◌, Bool, true, false, not, ◌&&◌, ◌||◌,
  Option, none, some, List, [], ◌∷◌, length, set, take, bit_and, bit_or,
}
use kupl.Dag.{
  Dep, DepType, type_in, type_out, type_inout, type_all, unknown, Dag, kupl_task_dep_all_addr,
  process_deps,
}

-- The enumerators' values.
abbrev pub type_value : DepType → ℕ
type_value type_in = 1
type_value type_out = 2
type_value type_inout = 3
type_value type_all = 128
type_value unknown = 0

-- The loop over `j < count`: the entry of the same address becomes a write if its type is another, and
-- then `found_same` is true.
unfoldable pub find_same : List Dep → ℕ → Dep → List Dep × Bool
find_same [] count dep = ([], false)
find_same (d ∷ ds) zero dep = (d ∷ ds, false)
find_same (d ∷ ds) (suc count) dep =
    let (rest, found) = find_same ds count dep in
    if d.base_addr == dep.base_addr
    then (if type_value d.type == type_value dep.type
        then (d ∷ ds, false)
        else (record d { type = type_out } ∷ ds, true))
    else (d ∷ rest, found)

-- One round: the next `hash` and `count`, and the list.
unfoldable pub rm_dup_step : Dep → (hash count : ℕ) → List Dep → ℕ × ℕ × List Dep
unfolding find_same
rm_dup_step dep hash count dep_list =
    let (merged, found) = find_same dep_list count dep in
    if not (bit_and hash dep.base_addr == dep.base_addr)
    then (bit_or hash dep.base_addr, count + 1, set dep_list count dep)
    else if found
    then (hash, count, merged)
    else (hash, count + 1, set merged count dep)

-- `dep_list` is memory that holds what it held; the second component is `dep_cnt` afterwards.
unfoldable pub rm_dup_from : List Dep → (hash count : ℕ) → List Dep → ℕ → List Dep × ℕ
unfolding rm_dup_step
rm_dup_from [] hash count dep_list dep_cnt = (dep_list, dep_cnt)
rm_dup_from (dep ∷ deps) hash count dep_list dep_cnt =
    let (hash', count', dep_list') = rm_dup_step dep hash count dep_list in
    let rest = rm_dup_from deps hash' count' dep_list' dep_cnt in
    if type_value dep.type == type_value type_all || dep.base_addr == kupl_task_dep_all_addr
    then (set dep_list 0 (record { base_addr = kupl_task_dep_all_addr; type = type_all }), 1)
    else rest

unfoldable pub dep_list_rm_dup : (task_dep_list dep_list : List Dep) → List Dep × ℕ
unfolding rm_dup_from
dep_list_rm_dup task_dep_list dep_list =
    rm_dup_from task_dep_list 0 0 dep_list (length task_dep_list)

pub data Added : Type 0 where
  kupl_dag_task_ready : Added
  kupl_dag_task_not_ready : Added
  kupl_error : Added

-- The test after the loop, on 32 bits.
abbrev readiness : ℕ → Dag × Option ℕ → Dag × Added
readiness node (dag, none) = (dag, kupl_error)
readiness node (dag, some n) =
    let n_predecessors = (dag.nodes node).n_predecessors in
    if (n_predecessors + n) % 2 ^ 32 == (2 ^ 32 - n % 2 ^ 32) % 2 ^ 32
    then (dag, kupl_dag_task_ready)
    else (dag, kupl_dag_task_not_ready)

-- `KUPL_MAX_LOCAL_DEP_COUNT`; `memory` says whether there is memory for a longer list, and `dep_list` is what
-- the list's memory holds at first.
unfoldable pub kupl_dag_add_task :
    (memory : Bool) → ℕ → Dag → (task_dep_list dep_list : List Dep) → Dag × Added
unfolding dep_list_rm_dup process_deps
kupl_dag_add_task memory node dag task_dep_list dep_list =
    let (list, dep_cnt) = dep_list_rm_dup task_dep_list dep_list in
    if not (leb (length task_dep_list) 128) && not memory
    then (dag, kupl_error)
    else readiness node (process_deps node (take dep_cnt list) 0 dag)
