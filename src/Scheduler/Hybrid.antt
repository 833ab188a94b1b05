-- ===== src/Scheduler/Hybrid.antt =====
-- src/mt/scheduler/plugin/hybrid/kupl_sched_hybrid.cpp: one plugin for the blocks of the outer level and
-- one for those of the inner level.
pub mod Asked
pub mod Calls
pub mod Levels
use kupl.Prelude.{ℕ, Bool, true, false, if◌then◌else◌, Option, none, some}
use kupl.Prelude.Int.{ℤ}
use kupl.Scheduler.{Tb, Plugin, has_bit, kupl_tb_flag_hybrid_outer}

-- `hybrid_plugin[0]` and `hybrid_plugin[1]`: the states of the two plugins, and whether they are in use.
pub record Hybrid (S T : Type 0) : Type 0 where
  pub outer : S
  pub inner : T
  pub outer_using : Bool
  pub inner_using : Bool

module _ {S T : Type 0} (outer_plugin : Plugin S) (inner_plugin : Plugin T) where
  unfoldable pub kupl_sched_hybrid_add_tb : ℤ → Hybrid S T → Tb → Hybrid S T × Bool
  kupl_sched_hybrid_add_tb e s tb =
      if has_bit kupl_tb_flag_hybrid_outer tb.flag
      then (let (outer, ok) = outer_plugin.add_tb e s.outer tb in
          (record s { outer = outer; outer_using = true }, ok))
      else (let (inner, ok) = inner_plugin.add_tb e s.inner tb in
          (record s { inner = inner; inner_using = true }, ok))

  -- `hybrid_plugin[i].plugin.get_tb`, with the other plugin as it is.
  abbrev from_outer : Hybrid S T → Option (S × Option Tb) → Option (Hybrid S T × Option Tb)
  from_outer s none = none
  from_outer s (some out) = some (record s { outer = out.0 }, out.1)

  abbrev from_inner : Hybrid S T → Option (T × Option Tb) → Option (Hybrid S T × Option Tb)
  from_inner s none = none
  from_inner s (some out) = some (record s { inner = out.0 }, out.1)

  -- The two rounds of the loop.
  unfoldable pub get_outer : ℤ → Hybrid S T → Option (Hybrid S T × Option Tb)
  get_outer e s =
      if s.outer_using then from_outer s (outer_plugin.get_tb e s.outer) else some (s, none)

  unfoldable pub get_inner : ℤ → Hybrid S T → Option (Hybrid S T × Option Tb)
  get_inner e s =
      if s.inner_using then from_inner s (inner_plugin.get_tb e s.inner) else some (s, none)

  -- The loop leaves off at the first block.
  abbrev then_inner : ℤ → Option (Hybrid S T × Option Tb) → Option (Hybrid S T × Option Tb)
  then_inner e none = none
  then_inner e (some (s, some tb)) = some (s, some tb)
  then_inner e (some (s, none)) = get_inner e s

  unfoldable pub kupl_sched_hybrid_get_tb : ℤ → Hybrid S T → Option (Hybrid S T × Option Tb)
  unfolding get_outer get_inner
  kupl_sched_hybrid_get_tb e s = then_inner e (get_outer e s)

  -- `KUPL_SCHED_PLUGIN_GLOBAL_VAR(hybrid)`
  abbrev pub hybrid : Plugin (Hybrid S T)
  hybrid = record { add_tb = kupl_sched_hybrid_add_tb; get_tb = kupl_sched_hybrid_get_tb }
