-- ===== src/Lib.antt =====
-- KUPL, the Kunpeng unified parallel library: how a parallel loop is split among threads, how tasks are
-- ordered, and how the scheduler keeps them until they run.
--
-- src/mt/kupl_parallel_for.cpp runs `for` loops over ranges of one to three dimensions on a group of
-- threads. `kupl_check_range` (src/mt/kupl_check.cpp) refuses the ranges that the arithmetic cannot
-- hold. `kupl_calc_chunk_info` cuts each dimension into chunks of `blocksize` steps and counts them.
-- Then the policy says which thread runs what: the static policy gives every thread one piece, by a
-- formula in one dimension and by repeated division in several; the dynamic policy gives every thread
-- a counter of chunks, and a thread that has emptied its own counter goes on to those of the others.
--
-- A graph of tasks (src/mt/kupl_dag.cpp) makes each task wait for the earlier ones that it conflicts with;
-- a task that waits for none goes to the scheduler (src/mt/scheduler), which keeps it in the queues of a
-- plugin until an executor takes and runs it.
--
-- Memory comes from a pool (src/memory/mpool/kupl_mpool.cpp): each executor cuts chunks of 4 MB into buffers
-- with descriptors and keeps the free ones in lists by size class, and small buffers in lists of their own.
-- The ticket array lock (src/utils/lock) is one of the two locks that the library's queues use.
--
-- Files:
-- - Prelude.antt: library names and tests, with lists (Prelude/Lists), sums over an interval
--   (Prelude/Sums), C's integers (Prelude/Int), whose division rounds towards 0, and the bits that an
--   alignment mask clears (Prelude/Bits).
-- - Vector.antt and Vector/: the ring of fixed capacity of src/tools/struct/kupl_vector.h and
--   kupl_vector.cpp. Slots has the lemmas on slots, Refine the operations against a list, Create how
--   the capacity is rounded up, Macros the macros that the scheduler's queues use.
-- - Pool.antt and Pool/: the ring without checks of src/tools/struct/kupl_pool.h.
-- - Lock.antt and Lock/: src/utils/lock/ticket_array_lock/kupl_ticket_array_lock.cpp. Invariant and its
--   folder have what every turn keeps, Order that the lock is exclusive and fair, Moves, Rank and Progress
--   that no thread starves, Trylock the call that does not wait.
-- - Memory.antt and Memory/: src/memory/mpool/kupl_mpool.cpp. Bins has `kupl_get_bin_index`. Normal has
--   `kupl_normal_alloc` and `kupl_normal_free`; Normal/Invariant and its folder the layout of the buffers
--   and what cutting, joining, mapping and unmapping do to it, Sound the invariant, Take, Search and Alloc
--   the allocation, Merge, Coalesce and Free the release, Foreign a buffer that another executor frees,
--   Direct one that is larger than a chunk. Fast has `kupl_fast_alloc` and `kupl_fast_free`, with Laws,
--   Owners, and Carve for how a block is cut. Tests has an empty memory, a chunk and a buffer.
-- - Scheduler.antt and Scheduler/: task blocks, and the interface `kupl_sched_plugin_api_t` of a plugin of
--   src/mt/scheduler with its promises, `IsFaithful`. Queue and Priority have the two kinds of queue on
--   top of the vector, QueueSet what the plugins with such queues share. StaticMq, ExpandStaticMq and
--   Mq are plugins of src/mt/scheduler/plugin, each with a proof about it in its folder; Mq/Steals is about
--   the loop that steals. Hybrid is the plugin for two levels of blocks, with sspe for the outer one in
--   Hybrid/Calls, Hybrid/Asked and Hybrid/Levels. Front is
--   src/mt/scheduler/kupl_sched.cpp, on any plugin, with Front/Once for sequences of its calls and
--   Front/Yield for `kupl_sched_yield`. Sspe is the plugin with a slot for each executor and the flags of
--   src/mt/barrier/kupl_barrier.cpp that it asks for. Tests has states with two executors.
-- - Dag.antt and Dag/: the order of tasks of src/mt/kupl_dag.cpp. Paths has the tasks that come before a
--   task, Entries and Order what the entry of an address keeps track of, Process and Keeps the
--   processing of a dependency, Counts the number of predecessors, System the graphs that arise.
--   AddTask has `dep_list_rm_dup` and `kupl_dag_add_task`, with Distinct and Twice for lists
--   without and with duplicates, and Ready for the answer. Tests has a small graph.
-- - ParallelFor.antt and ParallelFor/: Range has the types of src/kupl.h and
--   src/mt/kupl_parallel_for.h and the chunk arithmetic; Edge, Count, Partition, Digits, Grid and
--   OneDim are the lemmas on it. Static, NdStatic and Dynamic have one policy each, and their
--   folders the proofs. Check has `kupl_check_range`, Launch the functions that check a descriptor
--   and choose the number of threads. Tests has the theorems at concrete ranges.
--
-- An `int64_t` is an unbounded integer there: signed overflow is undefined in the source, and
-- `kupl_check_range` is there to rule it out. Thread ids and counts are natural numbers. The arrays of
-- a `kupl_pf` are lists, and the hypotheses ask for their lengths. `divide_range` runs on fuel, one
-- unit for each level of recursion; each level at least halves the threads, so the number of threads
-- is enough.
--
-- The dynamic policy is a step function on the counters of all threads and a program counter for each
-- thread, with one access to a shared counter per step; a list of thread ids says whose turn it is, so
-- a statement for every list is one for every sequentially consistent interleaving. The atomic add is
-- one step. The loop body is a parameter of the source; the chunks that it is called with are logged.
--
-- The counters of a vector are `size_t`s with their wrap-around written out; a capacity is a power of
-- two, so wrapping keeps the slots. `kupl_vector_create` runs its loop on fuel of 64 rounds, one for
-- each bit of a `size_t`.
--
-- A task block stands for its address; `ident` tells blocks apart. Each operation on a queue is one
-- step: its lock keeps it from others of its kind, and the overlap of an addition with a removal, which
-- have a lock each, is not modelled. The `std::priority_queue` is a parameter with the laws of
-- the C++ standard, and so are the success of allocations and of locks, the number of the calling
-- executor and the configuration. A block for an executor that is not there meets a null pointer, where
-- the source reads beyond its array. The loop of `kupl_sched_mq_get_tb` that steals has no bound, and
-- runs on fuel; it ends with the first random number that is not the caller's. Running a block is a
-- parameter of the source: the blocks that are run are returned to the caller. The slots of sspe hold the
-- last block that was added for an executor: one that is added later replaces it.
--
-- In the graph of tasks a task is a number, and the graph is a function from numbers to nodes; the hash
-- of addresses is a list, with one entry for each address. Allocations are taken to succeed there. A
-- task's dependencies are processed in one step, in which no task finishes. In the graphs that arise a task
-- runs when it waits for none, once, and is neither static nor for reuse.
--
-- The ticket array lock is a step function on the lock and a program counter for each thread, with one
-- access to the lock per step; ticket numbers wrap at 2^64, and the statements are about runs with fewer
-- turns. What the threads have drawn and when they took the lock is logged.
--
-- In the memory pool an address is a number, and the descriptors are a function from addresses. A list that
-- is chained through the buffers is the list of their addresses, and `kupl_list_del` takes an address out
-- of the lists. The answers of `kupl_memory_mmap` are parameters; a chunk that it maps lies apart from
-- those that are mapped. A buffer's size is an integer: within a chunk it does not reach the bounds of an
-- `int`. `kupl_assert` is compiled out by default, and is left out. The alignment of an allocation is any
-- number, with the mask taken bit by bit. `goto search_bins` runs on fuel of two passes,
-- since the second finds the chunk that was mapped.
--
-- Not modelled: the references that keep tasks in memory; the loader of plugins; the waits of the barriers;
-- the tasks that carry the loop to the executors, reductions, the task policy and the
-- OpenMP back end; the rest of the memory part, the data movement and the matrix part, which are system calls and intrinsics.

pub mod Prelude
pub mod Vector
pub mod Pool
pub mod Lock
pub mod Memory
pub mod Scheduler
pub mod Dag
pub mod ParallelFor
