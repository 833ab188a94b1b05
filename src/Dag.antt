-- ===== src/Dag.antt =====
-- The order of tasks: src/mt/kupl_dag.cpp and src/mt/kupl_dag.h. A task says which addresses it reads
-- and writes, and waits for the earlier tasks that it conflicts with.
pub mod Paths
pub mod Entries
pub mod Order
pub mod Process
pub mod Keeps
pub mod Counts
pub mod System
pub mod AddTask
mod Tests
use kupl.Prelude.{
  ℕ, zero, suc, ◌+◌, ◌-◌, ◌%◌, ◌^◌, ◌==◌, leb, if◌then◌else◌, Bool, true, false, not, ◌&&◌, ◌||◌,
  Option, none, some, List, [], ◌∷◌, length, get_or, set, update,
}

-- `kupl_task_dep_type_t`; `unknown` stands for a value that is none of them.
pub data DepType : Type 0 where
  type_in : DepType
  type_out : DepType
  type_inout : DepType
  type_all : DepType
  unknown : DepType

-- `kupl_task_dep_t`
pub record Dep : Type 0 where
  pub base_addr : ℕ
  pub type : DepType

-- `KUPL_TASK_DEP_ALL_ADDR`
abbrev pub kupl_task_dep_all_addr : ℕ
kupl_task_dep_all_addr = 18446744073709551615

-- `kupl_gnode_t`: a task's successors, and its counts, of 32 bits. `finished` is the bit of the task's
-- state that `kupl_tb_is_finished` reads. A task is named by a number.
pub record Gnode : Type 0 where
  pub successors : List ℕ
  pub n_successors : ℕ
  pub n_hard_predecessors : ℕ
  pub n_predecessors : ℕ
  pub finished : Bool

abbrev pub Nodes : Type 0
Nodes = ℕ → Gnode

-- `kupl_gnode_init`
abbrev pub kupl_gnode_init : Gnode
kupl_gnode_init = record {
  successors = [];
  n_successors = 0;
  n_hard_predecessors = 0;
  n_predecessors = 0;
  finished = false;
}

-- `kupl_addr_entry_t`: the last task that writes an address, and those that read it since.
pub record Entry : Type 0 where
  pub out : Option ℕ
  pub readers : List ℕ

abbrev pub kupl_addr_entry_create : Entry
kupl_addr_entry_create = record { out = none; readers = [] }

abbrev pub Hash : Type 0
Hash = List (ℕ × Entry)

-- `hash->find`
abbrev pub find : ℕ → Hash → Option Entry
find x [] = none
find x ((y, e) ∷ hash) = if x == y then some e else find x hash

-- Writing to the entry of an address; there is at most one.
abbrev pub put : ℕ → Entry → Hash → Hash
put x e [] = []
put x e ((y, d) ∷ hash) = let rest = put x e hash in if x == y then (y, e) ∷ rest else (y, d) ∷ rest

abbrev new_successor : ℕ → Gnode → Gnode
new_successor succeed g = record g {
  successors = succeed ∷ g.successors;
  n_successors = (g.n_successors + 1) % 2 ^ 32;
}

abbrev new_predecessor : Gnode → Gnode
new_predecessor g = record g {
  n_hard_predecessors = (g.n_hard_predecessors + 1) % 2 ^ 32;
  n_predecessors = (g.n_predecessors + 1) % 2 ^ 32;
}

-- The second component is the function's result.
unfoldable pub kupl_gnode_precede : Option ℕ → ℕ → Nodes → Nodes × ℕ
kupl_gnode_precede none succeed nodes = (nodes, 0)
kupl_gnode_precede (some precede) succeed nodes =
    if (nodes precede).finished
    then (nodes, 0)
    else (let nodes1 = update nodes precede (new_successor succeed (nodes precede)) in
        (update nodes1 succeed (new_predecessor (nodes1 succeed)), 1))

-- The loop of `node_process_dep_out` over the readers.
unfoldable pub precede_readers : List ℕ → ℕ → Nodes → Nodes × ℕ
unfolding kupl_gnode_precede
precede_readers [] node nodes = (nodes, 0)
precede_readers (r ∷ rs) node nodes =
    let (nodes1, n) = kupl_gnode_precede (some r) node nodes in
    let (nodes2, m) = precede_readers rs node nodes1 in (nodes2, (n + m) % 2 ^ 32)

abbrev precede_entry : List ℕ → Entry → ℕ → Nodes → Nodes × ℕ
precede_entry [] entry node nodes = kupl_gnode_precede entry.out node nodes
precede_entry (r ∷ rs) entry node nodes = precede_readers (r ∷ rs) node nodes

unfoldable pub node_process_dep_out : Entry → ℕ → Nodes → Entry × Nodes × ℕ
unfolding precede_readers
node_process_dep_out entry node nodes =
    let (nodes', n) = precede_entry entry.readers entry node nodes in
    (record { out = some node; readers = [] }, nodes', n)

unfoldable pub node_process_dep_in : Entry → ℕ → Nodes → Entry × Nodes × ℕ
node_process_dep_in entry node nodes =
    let (nodes', n) = kupl_gnode_precede entry.out node nodes in
    (record entry { readers = node ∷ entry.readers }, nodes', n)

-- `for (auto &it : *hash)`, in the order of the list.
unfoldable pub process_all : Hash → ℕ → Nodes → Hash × Nodes × ℕ
unfolding node_process_dep_out
process_all [] node nodes = ([], nodes, 0)
process_all ((x, entry) ∷ hash) node nodes =
    let (entry', nodes1, n) = node_process_dep_out entry node nodes in
    let (hash', nodes2, m) = process_all hash node nodes1 in
    ((x, entry') ∷ hash', nodes2, (n + m) % 2 ^ 32)

-- A new entry, once there is one for all addresses: `out` is the last task that depends on all.
abbrev from_all : ℕ → Option ℕ → Entry → Nodes → Hash → Hash
from_all x none depall nodes hash = hash
from_all x (some last) depall nodes hash =
    if (nodes last).finished
    then put kupl_task_dep_all_addr (record depall { out = none }) hash
    else put x (record { out = some last; readers = [] }) hash

abbrev after_find_all : ℕ → Option Entry → Nodes → Hash → Hash
after_find_all x none nodes hash = hash
after_find_all x (some depall) nodes hash = from_all x depall.out depall nodes hash

-- The part of `kupl_node_process_dep` above `process_dep:`: the hash with an entry for the address.
abbrev after_find : ℕ → Option Entry → Nodes → Hash → Hash
after_find x (some entry) nodes hash = hash
after_find x none nodes hash =
    let hash1 = (x, kupl_addr_entry_create) ∷ hash in
    if x == kupl_task_dep_all_addr
    then hash1
    else after_find_all x (find kupl_task_dep_all_addr hash1) nodes hash1

unfoldable pub with_entry : ℕ → Nodes → Hash → Hash
with_entry x nodes hash = after_find x (find x hash) nodes hash

pub record Dag : Type 0 where
  pub hash : Hash
  pub nodes : Nodes

abbrev put_entry : ℕ → Hash → Entry × Nodes × ℕ → Dag × Option ℕ
put_entry x hash (e, nodes, n) = (record { hash = put x e hash; nodes = nodes }, some n)

abbrev all_entries : Hash × Nodes × ℕ → Dag × Option ℕ
all_entries (hash, nodes, n) = (record { hash = hash; nodes = nodes }, some n)

-- The `switch`; without a number the result is `KUPL_ERROR`.
abbrev by_type : DepType → ℕ → Option Entry → ℕ → Nodes → Hash → Dag × Option ℕ
by_type t x none node nodes hash = (record { hash = hash; nodes = nodes }, none)
by_type type_in x (some entry) node nodes hash =
    put_entry x hash (node_process_dep_in entry node nodes)
by_type type_out x (some entry) node nodes hash =
    put_entry x hash (node_process_dep_out entry node nodes)
by_type type_inout x (some entry) node nodes hash =
    put_entry x hash (node_process_dep_out entry node nodes)
by_type type_all x (some entry) node nodes hash = all_entries (process_all hash node nodes)
by_type unknown x (some entry) node nodes hash = (record { hash = hash; nodes = nodes }, none)

unfoldable pub kupl_node_process_dep : ℕ → Dag → Dep → Dag × Option ℕ
unfolding with_entry node_process_dep_in node_process_dep_out process_all
kupl_node_process_dep node dag dep =
    let x = dep.base_addr in
    let hash = with_entry x dag.nodes dag.hash in
    by_type dep.type x (find x hash) node dag.nodes hash

-- `kupl_gnode_release_ready`: the counts of the successors, and the tasks that are ready.
unfoldable pub kupl_gnode_release_ready : List ℕ → Nodes → Nodes × List ℕ
kupl_gnode_release_ready [] nodes = (nodes, [])
kupl_gnode_release_ready (s ∷ ss) nodes =
    let g = nodes s in
    let nodes1 =
      update nodes s (record g { n_predecessors = (g.n_predecessors + (2 ^ 32 - 1)) % 2 ^ 32 }) in
    let (nodes2, ready_tasks) = kupl_gnode_release_ready ss nodes1 in
    (nodes2, (if g.n_predecessors == 1 then s ∷ ready_tasks else ready_tasks))

-- `kupl_gnode_reset`, for a task of a static graph, whose state starts again.
abbrev reset_static : Bool → Gnode → Gnode
reset_static false g = g
reset_static true g = record g { finished = false; n_predecessors = g.n_hard_predecessors }

-- A task that runs: `kupl_task_execute` sets its state, and `kupl_task_finish` releases its successors.
-- `reuse` is the flag of that name, and `is_static` says whether the task's graph is static.
unfoldable pub kupl_task_finish : (reuse is_static : Bool) → ℕ → Nodes → Nodes × List ℕ
unfolding kupl_gnode_release_ready
kupl_task_finish true is_static task nodes =
    (update nodes task (record (nodes task) { finished = true }), [])
kupl_task_finish false is_static task nodes =
    let g = nodes task in
    kupl_gnode_release_ready g.successors
      (update nodes task (reset_static is_static (record g { finished = true })))

abbrev next_dep : ℕ → Dag × Option ℕ → (ℕ → Dag → Dag × Option ℕ) → Dag × Option ℕ
next_dep n (dag1, none) rest = (dag1, none)
next_dep n (dag1, some m) rest = rest ((n + m) % 2 ^ 32) dag1

-- The loop of `kupl_dag_add_task` over the dependencies; `none` is `KUPL_ERROR`.
unfoldable pub process_deps : ℕ → List Dep → ℕ → Dag → Dag × Option ℕ
unfolding kupl_node_process_dep
process_deps node [] n dag = (dag, some n)
process_deps node (dep ∷ deps) n dag =
    next_dep n (kupl_node_process_dep node dag dep) (process_deps node deps)
