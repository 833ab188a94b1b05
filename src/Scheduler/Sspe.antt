-- ===== src/Scheduler/Sspe.antt =====
-- src/mt/scheduler/plugin/sspe/kupl_sched_sspe.cpp: a slot for each executor, whose block is given out when
-- the flag barrier (`FlagBarrier` of src/mt/barrier/kupl_barrier.cpp) says so.
pub mod Given
use kupl.Prelude.{
  ℕ, zero, suc, ◌+◌, ◌≤◌, ◌≡◌, refl, sym, ap, ◌∙◌, arith, Bool, true, false, ◌||◌, ◌==◌, ==_iff,
  if◌then◌else◌, if_cases, Option, none, some, List, [], ◌∷◌, length, get_or, set, update,
  Bool-cases, inl, inr,
}
use kupl.Prelude.Int.{ℤ, pos, pos_part, eqb_ℤ, leb_ℤ}
use kupl.Scheduler.{Tb, Plugin, kupl_executor_default, kupl_tb_executor_id_default}

-- `FLAG_LEAVE`, `FLAG_READY` and `FLAG_ARRIVED`.
pub data Flag : Type 0 where
  flag_leave : Flag
  flag_ready : Flag
  flag_arrived : Flag

abbrev pub is_ready : Flag → Bool
is_ready flag_leave = false
is_ready flag_ready = true
is_ready flag_arrived = false

-- `sched_data_t`, and the flags of the barrier that it asks.
pub record SchedData : Type 0 where
  pub slot : List (Option Tb)
  pub flags : ℕ → Flag

-- `FlagBarrier::notify`, for the executors of the group in their order.
unfoldable pub notify : List ℕ → (ℕ → Flag) → ℕ → Flag
notify [] flags = flags
notify (eid ∷ eids) flags = notify eids (update flags eid flag_ready)

-- `FlagBarrier::arrive`
unfoldable pub arrive : ℕ → (ℕ → Flag) → (ℕ → Flag) × Bool
arrive geid flags =
    let ret = is_ready (flags geid) in (if ret then update flags geid flag_arrived else flags, ret)

-- What `FlagBarrier::leave` does in the end.
unfoldable pub leave : ℕ → (ℕ → Flag) → ℕ → Flag
leave geid flags = update flags geid flag_leave

unfoldable pub sched_add_tb : SchedData → Tb → SchedData × Bool
sched_add_tb sched tb =
    let eid = tb.executor_id in
    if leb_ℤ eid kupl_tb_executor_id_default || leb_ℤ (pos (length sched.slot)) eid
    then (sched, false)
    else (record sched { slot = set sched.slot (pos_part eid) (some tb) }, true)

unfoldable pub sched_get_tb : ℤ → SchedData → SchedData × Option Tb
unfolding arrive
sched_get_tb own_eid sched =
    if eqb_ℤ own_eid kupl_executor_default
    then (sched, none)
    else (let (flags, arrived) = arrive (pos_part own_eid) sched.flags in
        (
          record sched { flags = flags },
          if arrived then get_or sched.slot (pos_part own_eid) none else none,
        ))

-- `KUPL_SCHED_PLUGIN_GLOBAL_VAR(sspe)`
abbrev pub sspe : Plugin SchedData
sspe = record {
  add_tb = λ e sched tb. sched_add_tb sched tb;
  get_tb = λ own_eid sched. some (sched_get_tb own_eid sched);
}
