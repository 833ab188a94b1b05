-- ===== src/Scheduler/ExpandStaticMq/Faithful.antt =====
-- The expand_static_mq plugin loses no block, also when an executor joins.
use kupl.Prelude.{
  ℕ, ◌+◌, ◌≤◌, ◌^◌, ◌≡◌, refl, ◌∙◌, ◌⊎◌, arith, length, get_or, length-set, get_or-set_ne, Bool,
  true, false, not, ltb, if◌then◌else◌, none, some, inl, inr, Bool-cases, dec_lt,
}
use kupl.Prelude.Int.{ℤ, eqb_ℤ, leb_ℤ}
use kupl.Scheduler.Answers.{Adds, Answers, answer, faithful}
use kupl.Scheduler.{Tb, Plugin, IsFaithful, kupl_executor_default, kupl_tb_executor_id_default}
use kupl.Scheduler.Queue.{Memory}
use kupl.Scheduler.Queue.Laws.{queue_create-blocks}
use kupl.Scheduler.Priority.{Heap, IsHeap}
use kupl.Scheduler.QueueSet.Laws.{
  IsQueueSet, AllQueues-set, all_held, swapped, add_by_flag-held, pop_by_priority-held,
}
use kupl.Scheduler.ExpandStaticMq.{
  Expanding, expand_static_mq, kupl_sched_expand_static_mq_add_tb,
  kupl_sched_expand_static_mq_get_tb, kupl_sched_expand_static_mq_expand,
}

module _ {H : Type 0} (heap : Heap H) (laws : IsHeap heap) (local : ℤ → ℕ)
    (enable_priority : Bool) where
  abbrev plugin : Plugin (Expanding H)
  plugin = expand_static_mq heap local enable_priority

  abbrev pub IsExpanding : Expanding H → Type 0
  IsExpanding s = IsQueueSet heap s.parts

  abbrev pub parts_held : ℕ → Expanding H → ℕ
  parts_held k s = all_held heap k s.parts

  adds :
      (e : ℤ) (s : Expanding H) (tb : Tb)
      → IsExpanding s
      → Adds plugin IsExpanding parts_held e s tb
  unfolding kupl_sched_expand_static_mq_add_tb
  adds e s tb w =
      let eid = if leb_ℤ tb.executor_id kupl_tb_executor_id_default then e else tb.executor_id in
      elim (Bool-cases (eqb_ℤ e kupl_executor_default)) [
        | inl alien ↦ rw alien (w, λ k. omega arith)
        | inr own ↦ elim (Bool-cases (not (eqb_ℤ eid e))) [
          | inl other ↦ rw (own, other) (w, λ k. omega arith)
          | inr self ↦
              rw (own, self) (add_by_flag-held heap enable_priority s.parts (local eid) tb w)
        ]
      ]

  answers : (e : ℤ) (s : Expanding H) → IsExpanding s → Answers plugin IsExpanding parts_held e s
  unfolding kupl_sched_expand_static_mq_get_tb
  answers e s w = elim (Bool-cases (eqb_ℤ e kupl_executor_default)) [
    | inl alien ↦ (s, none, rw alien refl, (w, λ k. omega arith))
    | inr own ↦
        let (parts, tb, out, v, same) =
          pop_by_priority-held heap laws enable_priority s.parts (local e) w in
        (record s { parts = parts }, tb, rw (own, out) refl, (v, same))
  ]

  -- The plugin keeps the promises of the interface.
  pub expand_static_mq-IsFaithful :
      IsFaithful (expand_static_mq heap local enable_priority) IsExpanding parts_held
  expand_static_mq-IsFaithful =
      faithful plugin IsExpanding parts_held adds
        (λ e s s' r w. answer plugin IsExpanding parts_held e s s' r (answers e s w))

module _ {H : Type 0} (heap : Heap H) where
  -- A place for each executor that may join, and nothing beyond those that have.
  pub record HasPlaces (s : Expanding H) : Type 0 where
    pub sized : s.queue_size ≤ 2 ^ 63
    pub joined : s.num_executors ≤ s.max_num_executors
    pub places : length s.parts.queues ≡ s.max_num_executors
    pub unused : (i : ℕ) → s.num_executors ≤ i → get_or s.parts.queues i none ≡ none

  abbrev pub Joined : Memory → Expanding H → Type 0
  Joined memory s =
      (s' : Expanding H) × (kupl_sched_expand_static_mq_expand heap memory s ≡ some (some s'))
      × (s'.num_executors ≡ s.num_executors + 1)
      × HasPlaces s'
      × IsQueueSet heap s'.parts
      × ((k : ℕ) → all_held heap k s'.parts ≡ all_held heap k s.parts)

  -- For well-formed queues with a place for each executor that may join: the expansion ends. It
  -- gives a null pointer, or one executor more, and then each block is held as often as before,
  -- and the queues stay well-formed.
  pub kupl_sched_expand_static_mq_expand-held :
      (memory : Memory) (s : Expanding H)
      → IsQueueSet heap s.parts
      → HasPlaces s
      → (kupl_sched_expand_static_mq_expand heap memory s ≡ some none) ⊎ Joined memory s
  unfolding kupl_sched_expand_static_mq_expand
  kupl_sched_expand_static_mq_expand-held memory s w h =
      elim (dec_lt s.num_executors s.max_num_executors) [
        | no full ↦
            let over : ltb s.max_num_executors (s.num_executors + 1) ≡ true =
              ground (arith, full) in
            inl (rw over refl)
        | yes lt ↦
            let under : ltb s.max_num_executors (s.num_executors + 1) ≡ false =
              ground (arith, lt) in
            elim (queue_create-blocks memory s.queue_size h.sized) [
              | inl null ↦ inl (rw (under, null) refl)
              | inr (q, made, v, empty) ↦ inr (
                _,
                rw (under, made) refl,
                refl,
                record {
                  sized = h.sized;
                  joined = omega arith;
                  places = length-set s.parts.queues s.num_executors (some q) ∙ h.places;
                  unused = λ i le.
                      get_or-set_ne s.parts.queues s.num_executors i (some q) none
                        (λ e. omega (arith, e))
                      ∙ h.unused i (omega arith);
                },
                record {
                  priority = w.priority;
                  each = AllQueues-set s.parts.queues s.num_executors (some q) w.each v;
                },
                λ k.
                    let same =
                      swapped k s.parts.queues s.num_executors (some q) 0 0 (λ _. refl)
                        (rw (h.unused s.num_executors (omega arith), empty) refl) in
                    omega (arith, same),
              )
            ]
      ]
