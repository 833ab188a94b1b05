-- ===== src/Scheduler/Front.antt =====
-- src/mt/scheduler/kupl_sched.cpp: handing task blocks to a plugin and running those it gives back.
pub mod Once
pub mod Yield
use kupl.Prelude.{
  ℕ, ◌+◌, ◌%◌, ◌^◌, Bool, true, false, ◌||◌, ◌==◌, if◌then◌else◌, Option, none, some, List, [], ◌∷◌,
  ◌++◌, update,
}
use kupl.Prelude.Int.{ℤ}
use kupl.Scheduler.{Tb, Plugin, has_bit, kupl_tb_flag_imm, kupl_tb_state_ready}

-- The state of the plugin, the thread-local `sched_full` of each thread, and the counters of the graphs.
pub record Sched (S : Type 0) : Type 0 where
  pub plugin_sched : S
  pub sched_full : ℕ → Bool
  pub counts : ℕ → ℕ

-- `KUPL_ATOMIC_OR_RLS(&tb->state, KUPL_TB_STATE_READY);`
unfoldable pub with_ready : Tb → Tb
with_ready tb =
    if has_bit kupl_tb_state_ready tb.state
    then tb
    else record tb { state = tb.state + kupl_tb_state_ready }

-- `kupl_tb_count_add(tb);`
abbrev count_add : Option ℕ → (ℕ → ℕ) → ℕ → ℕ
count_add none counts = counts
count_add (some c) counts = update counts c ((counts c + 1) % 2 ^ 32)

-- `executor` gives the number of each thread's executor.
module _ {S : Type 0} (plugin : Plugin S) (executor : ℕ → ℤ) where
  -- Under the label `invoke` the block is run by the caller, at once: it is the second component.
  abbrev after_add : ℕ → Sched S → Tb → S × Bool → Sched S × Option Tb
  after_add thread sched tb (p, true) = (record sched { plugin_sched = p }, none)
  after_add thread sched tb (p, false) =
      (record sched { plugin_sched = p; sched_full = update sched.sched_full thread true }, some tb)

  unfoldable pub kupl_sched_add_tb : ℕ → Sched S → Tb → Sched S × Option Tb
  unfolding with_ready
  kupl_sched_add_tb thread sched given =
      let tb = with_ready given in
      let counted = record sched { counts = count_add tb.count sched.counts } in
      if sched.sched_full thread || tb.flag == kupl_tb_flag_imm
      then (counted, some tb)
      else after_add thread counted tb (plugin.add_tb (executor thread) sched.plugin_sched tb)

  -- With no block the thread yields; a block is run by the caller.
  abbrev after_get : ℕ → Sched S → Option (S × Option Tb) → Option (Sched S × Option Tb)
  after_get thread sched none = none
  after_get thread sched (some (p, none)) = some (record sched { plugin_sched = p }, none)
  after_get thread sched (some (p, some tb)) = some (
    record sched { plugin_sched = p; sched_full = update sched.sched_full thread false },
    some tb,
  )

  unfoldable pub kupl_sched_execute_tb : ℕ → Sched S → Option (Sched S × Option Tb)
  kupl_sched_execute_tb thread sched =
      after_get thread sched (plugin.get_tb (executor thread) sched.plugin_sched)
