-- ===== src/Scheduler.antt =====
-- The scheduler of src/mt/scheduler: task blocks (`kupl_taskbase_t` of src/mt/kupl_taskbase.h), and
-- what the scheduler asks of a plugin (src/mt/scheduler/plugin/kupl_sched_plugin_api.h).
pub mod Tally
pub mod Answers
pub mod Queue
pub mod Priority
pub mod QueueSet
pub mod StaticMq
pub mod ExpandStaticMq
pub mod Mq
pub mod Hybrid
pub mod Front
pub mod Sspe
mod Tests
use kupl.Prelude.{
  ℕ, ◌+◌, ◌*◌, ◌/◌, ◌%◌, Bool, true, false, ◌==◌, if◌then◌else◌, Option, none, some, ◌≡◌,
}
use kupl.Prelude.Int.{ℤ, pos, negsuc}

-- The fields that the scheduler reads and writes; `ident` stands for the block's address.
pub record Tb : Type 0 where
  pub ident : ℕ
  pub priority : ℤ
  pub executor_id : ℤ
  pub flag : ℕ
  pub state : ℕ
  -- the counter of the block's graph, if it has one
  pub count : Option ℕ

-- `kupl_bit(n)` of a flag word.
abbrev pub has_bit : ℕ → ℕ → Bool
has_bit place word = word / place % 2 == 1

abbrev pub kupl_tb_flag_imm : ℕ
kupl_tb_flag_imm = 1

abbrev pub kupl_tb_flag_priority : ℕ
kupl_tb_flag_priority = 2

abbrev pub kupl_tb_flag_hybrid_outer : ℕ
kupl_tb_flag_hybrid_outer = 32

abbrev pub kupl_tb_state_ready : ℕ
kupl_tb_state_ready = 4

abbrev pub kupl_tb_executor_id_default : ℤ
kupl_tb_executor_id_default = negsuc 0

abbrev pub kupl_tb_executor_id_place : ℤ
kupl_tb_executor_id_place = negsuc 1

-- `KUPL_EXECUTOR_DEFAULT` and `KUPL_EIDCID_INIT`: a thread that the library does not manage.
abbrev pub kupl_executor_default : ℤ
kupl_executor_default = negsuc 0

-- What a slot of a new queue holds.
abbrev pub no_tb : Tb
no_tb = record {
  ident = 0;
  priority = pos 0;
  executor_id = negsuc 0;
  flag = 0;
  state = 0;
  count = none;
}

-- The functions of `kupl_sched_plugin_api_t` that move task blocks, for the plugin's state `S`. The
-- number is that of the calling executor. `get_tb` returns `none` when it has not come to an end, and
-- a task block, or a null pointer, otherwise.
pub record Plugin (S : Type 0) : Type 0 where
  pub add_tb : ℤ → S → Tb → S × Bool
  pub get_tb : ℤ → S → Option (S × Option Tb)

-- 1 if the block is the one named `k`.
abbrev pub one : ℕ → Tb → ℕ
one k tb = if k == tb.ident then 1 else 0

abbrev pub taken : ℕ → Option Tb → ℕ
taken k none = 0
taken k (some tb) = one k tb

-- What a plugin promises: on valid states, a block that is added is held, once more than before, and
-- a block that is refused is not; a block that is got was held, and is held once less. `held k` counts
-- the blocks named `k`.
pub record IsFaithful {S : Type 0} (plugin : Plugin S) (V : S → Type 0) (held : ℕ → S → ℕ)
    : Type 0 where
  pub add_valid : (e : ℤ) (s : S) (tb : Tb) → V s → V (plugin.add_tb e s tb).0
  pub add_held :
      (e : ℤ) (s : S) (tb : Tb) (k : ℕ)
      → V s
      → held k (plugin.add_tb e s tb).0
        ≡ (if (plugin.add_tb e s tb).1 then one k tb else 0) + held k s
  pub get_valid : (e : ℤ) (s s' : S) (r : Option Tb) → V s → plugin.get_tb e s ≡ some (s', r) → V s'
  pub get_held :
      (e : ℤ) (s s' : S) (r : Option Tb) (k : ℕ)
      → V s
      → plugin.get_tb e s ≡ some (s', r)
      → held k s ≡ taken k r + held k s'
