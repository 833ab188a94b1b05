-- ===== src/Scheduler/QueueSet/Laws.antt =====
-- The queues of a plugin lose no block and hold none twice.
use kupl.Prelude.{
  ℕ, zero, suc, ◌+◌, ◌≤◌, ◌≡◌, refl, sym, ap, ◌∙◌, arith, List, [], ◌∷◌, length, get_or, set, Bool,
  true, false, ◌&&◌, if◌then◌else◌, Option, none, some, inl, inr, Bool-cases, dec_lt,
}
use kupl.Scheduler.{Tb, one, taken, has_bit, kupl_tb_flag_priority}
use kupl.Scheduler.Tally.{tally, sum, sum-set}
use kupl.Scheduler.Queue.{Queue, queue_add_tb, queue_get_tb}
use kupl.Scheduler.Queue.Laws.{
  IsQueue, blocks, queue_add_tb-blocks, queue_get_tb-blocks, queue_add_tb-tally, queue_get_tb-tally,
}
use kupl.Scheduler.Priority.{Heap, IsHeap}
use kupl.Scheduler.Priority.Laws.{
  IsPriority?, held, priority_queue_add_tb-held, priority_queue_get_tb-order,
}
use kupl.Scheduler.QueueSet.{
  QueueSet, add_at, get_at, add_to_queue, get_from_queue, add_by_flag, or_own, pop_by_priority,
}

abbrev pub AllQueues : List (Option Queue) → Type 0
AllQueues [] = Unit
AllQueues (q ∷ qs) = IsQueue q × AllQueues qs

AllQueues-at : (qs : List (Option Queue)) (i : ℕ) → AllQueues qs → IsQueue (get_or qs i none)
AllQueues-at [] i w = tt
AllQueues-at (q ∷ qs) zero (w, ws) = w
AllQueues-at (q ∷ qs) (suc i) (w, ws) = AllQueues-at qs i ws

pub AllQueues-set :
    (qs : List (Option Queue)) (i : ℕ) (q : Option Queue)
    → AllQueues qs
    → IsQueue q
    → AllQueues (set qs i q)
AllQueues-set [] i q ws w = tt
AllQueues-set (p ∷ qs) zero q (_, ws) w = (w, ws)
AllQueues-set (p ∷ qs) (suc i) q (w', ws) w = (w', AllQueues-set qs i q ws w)

abbrev pub in_queues : ℕ → List (Option Queue) → ℕ
in_queues k qs = sum (λ q. tally k (blocks q)) qs

set_past : (qs : List (Option Queue)) (i : ℕ) (q : Option Queue) → length qs ≤ i → set qs i q ≡ qs
set_past [] i q h = refl
set_past (p ∷ qs) zero q h = absurd (omega arith)
set_past (p ∷ qs) (suc i) q h = ap (λ r. p ∷ r) (set_past qs i q (omega arith))

get_past : (qs : List (Option Queue)) (i : ℕ) → length qs ≤ i → get_or qs i none ≡ none
get_past [] i h = refl
get_past (p ∷ qs) zero h = absurd (omega arith)
get_past (p ∷ qs) (suc i) h = get_past qs i (omega arith)

-- Replacing queue `i` by one that differs by a change in the tally.
pub swapped :
    (k : ℕ) (qs : List (Option Queue)) (i : ℕ) (q : Option Queue) (more less : ℕ)
    → (length qs ≤ i → more ≡ less)
    → more + tally k (blocks (get_or qs i none)) ≡ less + tally k (blocks q)
    → more + in_queues k qs ≡ less + in_queues k (set qs i q)
swapped k qs i q more less out e = elim (dec_lt i (length qs)) [
  | yes lt ↦ omega (arith, sum-set (λ r. tally k (blocks r)) qs i q none lt)
  | no ge ↦ rw (set_past qs i q (omega arith)) (omega (arith, out (omega arith)))
]

pub add_at-held :
    (qs : List (Option Queue)) (i : ℕ) (tb : Tb)
    → AllQueues qs
    → let (qs', ok) = add_at qs i tb in
      AllQueues qs' × ((k : ℕ) → in_queues k qs' ≡ (if ok then one k tb else 0) + in_queues k qs)
unfolding add_at queue_add_tb
add_at-held qs i tb w =
    let q = get_or qs i none in
    let at = AllQueues-at qs i w in
    let (new, _, _) = queue_add_tb-blocks q tb at in
    (
      AllQueues-set qs i _ w new,
      λ k.
          let moved =
            swapped k qs i (queue_add_tb q tb).0 (if (queue_add_tb q tb).1 then one k tb else 0) 0
              (λ h. rw (get_past qs i h) refl) (sym (queue_add_tb-tally q tb k at) ∙ omega arith) in
          omega (arith, moved),
    )

pub get_at-held :
    (qs : List (Option Queue)) (i : ℕ)
    → AllQueues qs
    → let (qs', tb) = get_at qs i in
      AllQueues qs' × ((k : ℕ) → in_queues k qs ≡ taken k tb + in_queues k qs')
unfolding get_at queue_get_tb
get_at-held qs i w =
    let q = get_or qs i none in
    let at = AllQueues-at qs i w in
    let (new, _, _) = queue_get_tb-blocks q at in
    (
      AllQueues-set qs i _ w new,
      λ k.
          let moved =
            swapped k qs i (queue_get_tb q).0 0 (taken k (queue_get_tb q).1)
              (λ h. rw (get_past qs i h) refl) (omega (arith, queue_get_tb-tally q k at)) in
          omega (arith, moved),
    )

module _ {H : Type 0} (heap : Heap H) where
  pub record IsQueueSet (s : QueueSet H) : Type 0 where
    pub priority : IsPriority? heap s.priority_queues
    pub each : AllQueues s.queues

  abbrev pub all_held : ℕ → QueueSet H → ℕ
  all_held k s = held heap k s.priority_queues + in_queues k s.queues

  add_to_queue-held :
      (s : QueueSet H) (i : ℕ) (tb : Tb)
      → IsQueueSet s
      → let (s', ok) = add_to_queue heap s i tb in
        IsQueueSet s' × ((k : ℕ) → all_held k s' ≡ (if ok then one k tb else 0) + all_held k s)
  unfolding add_to_queue
  add_to_queue-held s i tb w =
      let (v, same) = add_at-held s.queues i tb w.each in
      (record { priority = w.priority; each = v }, λ k. omega (arith, same k))

  get_from_queue-held :
      (s : QueueSet H) (i : ℕ)
      → IsQueueSet s
      → let (s', tb) = get_from_queue heap s i in
        IsQueueSet s' × ((k : ℕ) → all_held k s ≡ taken k tb + all_held k s')
  unfolding get_from_queue
  get_from_queue-held s i w =
      let (v, same) = get_at-held s.queues i w.each in
      (record { priority = w.priority; each = v }, λ k. omega (arith, same k))

  -- For well-formed queues: a block that is added by its flag is held once more if it is accepted, and
  -- nothing changes hands otherwise; the queues stay well-formed.
  pub add_by_flag-held :
      (enable_priority : Bool) (s : QueueSet H) (eid : ℕ) (tb : Tb)
      → IsQueueSet s
      → let (s', ok) = add_by_flag heap enable_priority s eid tb in
        IsQueueSet s' × ((k : ℕ) → all_held k s' ≡ (if ok then one k tb else 0) + all_held k s)
  unfolding add_by_flag
  add_by_flag-held enable_priority s eid tb w =
      elim (Bool-cases (enable_priority && has_bit kupl_tb_flag_priority tb.flag)) [
        | inl first ↦
            let (v, same) = priority_queue_add_tb-held heap s.priority_queues tb w.priority in
            rw first (record { priority = v; each = w.each }, λ k. omega (arith, same k))
        | inr plain ↦ rw plain (add_to_queue-held s eid tb w)
      ]

  or_own-held :
      (s : QueueSet H) (eid : ℕ) (tb : Option Tb)
      → IsQueueSet s
      → let (s', tb') = or_own heap s eid tb in
        IsQueueSet s' × ((k : ℕ) → taken k tb + all_held k s ≡ taken k tb' + all_held k s')
  or_own-held s eid none w =
      let (v, same) = get_from_queue-held s eid w in (v, λ k. omega (arith, same k))
  or_own-held s eid (some tb) w = (w, λ k. refl)

module _ {H : Type 0} (heap : Heap H) (laws : IsHeap heap) where
  -- For well-formed queues: taking a block ends; it was held, and is held once less; the queues stay
  -- well-formed.
  pub pop_by_priority-held :
      (enable_priority : Bool) (s : QueueSet H) (eid : ℕ)
      → IsQueueSet heap s
      → (s' : QueueSet H) × (tb : Option Tb) × (pop_by_priority heap enable_priority s eid
          ≡ some (s', tb))
        × IsQueueSet heap s'
        × ((k : ℕ) → all_held heap k s ≡ taken k tb + all_held heap k s')
  unfolding pop_by_priority
  pop_by_priority-held false s eid w =
      let (v, same) = get_from_queue-held heap s eid w in (_, _, refl, v, same)
  pop_by_priority-held true s eid w =
      let (p, tb, out, v, same, _) =
        priority_queue_get_tb-order heap laws s.priority_queues w.priority in
      let (v', same') =
        or_own-held heap (record s { priority_queues = p }) eid tb
          (record { priority = v; each = w.each }) in
      let last = or_own heap (record s { priority_queues = p }) eid tb in
      (last.0, last.1, rw out refl, v', λ k. omega (arith, same k, same' k))
