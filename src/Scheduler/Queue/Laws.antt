-- ===== src/Scheduler/Queue/Laws.antt =====
-- A queue hands out its task blocks in the order in which they came.
use kupl.Prelude.{
  ℕ, ◌+◌, ◌≤◌, ◌^◌, ◌≡◌, ◌⊎◌, refl, arith, List, [], ◌∷◌, ◌++◌, length, Bool, true, false, not, ltb,
  if◌then◌else◌, Option, none, some, inl, inr, Bool-cases,
}
use kupl.Vector.{kupl_vector_empty}
use kupl.Vector.Refine.{
  IsVector, contents, kupl_vector_push_back-contents, kupl_vector_empty-contents,
}
use kupl.Vector.Create.{kupl_vector_create-IsNew}
use kupl.Vector.Macros.{
  kupl_vector_push_back_macro_lem, kupl_vector_empty_macro, kupl_vector_pop_front_macro-contents,
}
use kupl.Scheduler.{Tb, no_tb, one, taken}
use kupl.Scheduler.Tally.{tally, tally-append}
use kupl.Scheduler.Queue.{
  Queue, Memory, queue_create, queue_add_tb, queue_get_tb, sizeof_queue, sizeof_pointer,
}

abbrev pub IsQueue : Option Queue → Type 0
IsQueue none = Unit
IsQueue (some q) = IsVector q

abbrev pub blocks : Option Queue → List Tb
blocks none = []
blocks (some q) = contents q

-- The queue has room for one more.
abbrev pub has_room : Option Queue → Bool
has_room none = false
has_room (some q) = ltb (length (contents q) + 1) q.capacity

-- For a null pointer or a well-formed queue: adding succeeds exactly if there is room, and then the block
-- comes last; the queue stays well-formed.
pub queue_add_tb-blocks :
    (q : Option Queue) (tb : Tb)
    → IsQueue q
    → let (q', ok) = queue_add_tb q tb in
      IsQueue q'
      × (ok ≡ has_room q)
      × (blocks q' ≡ (if has_room q then blocks q ++ (tb ∷ []) else blocks q))
unfolding queue_add_tb
queue_add_tb-blocks none tb w = (tt, refl, refl)
queue_add_tb-blocks (some q) tb w =
    rw (kupl_vector_push_back_macro_lem q tb) (kupl_vector_push_back-contents q tb w)

abbrev pub first : List Tb → Option Tb
first [] = none
first (tb ∷ tbs) = some tb

abbrev pub rest : List Tb → List Tb
rest [] = []
rest (tb ∷ tbs) = tbs

pub nil_of : (tbs : List Tb) → length tbs ≡ 0 → tbs ≡ []
nil_of [] h = refl
nil_of (tb ∷ tbs) h = absurd (omega arith)

-- For a null pointer or a well-formed queue: getting takes the block that came first, if there is one, and
-- the queue stays well-formed.
pub queue_get_tb-blocks :
    (q : Option Queue)
    → IsQueue q
    → let (q', tb) = queue_get_tb q in
      IsQueue q' × (tb ≡ first (blocks q)) × (blocks q' ≡ rest (blocks q))
unfolding queue_get_tb kupl_vector_empty
queue_get_tb-blocks none w = (tt, refl, refl)
queue_get_tb-blocks (some q) w = elim (Bool-cases (kupl_vector_empty_macro q)) [
  | inl e ↦ rw (e, nil_of (contents q) ((kupl_vector_empty-contents q w).0 e)) (w, refl, refl)
  | inr e ↦
      let (w', split) = kupl_vector_pop_front_macro-contents q w e in rw (e, split) (w', refl, refl)
]

if_same : (b : Bool) → Path (Option (Option Queue)) (some (if b then none else none)) (some none)
if_same true = refl
if_same false = refl

-- In terms of tallies.
pub queue_add_tb-tally :
    (q : Option Queue) (tb : Tb) (k : ℕ)
    → IsQueue q
    → tally k (blocks (queue_add_tb q tb).0)
      ≡ (if (queue_add_tb q tb).1 then one k tb else 0) + tally k (blocks q)
queue_add_tb-tally q tb k w =
    let (_, ok, list) = queue_add_tb-blocks q tb w in
    elim (Bool-cases (has_room q)) [
      | inl yes_room ↦ rw (list, ok, yes_room) (omega (arith, tally-append k (blocks q) (tb ∷ [])))
      | inr no_room ↦ rw (list, ok, no_room) (omega arith)
    ]

first-rest : (k : ℕ) (tbs : List Tb) → tally k tbs ≡ taken k (first tbs) + tally k (rest tbs)
first-rest k [] = refl
first-rest k (tb ∷ tbs) = refl

pub queue_get_tb-tally :
    (q : Option Queue) (k : ℕ)
    → IsQueue q
    → tally k (blocks q) ≡ taken k (queue_get_tb q).1 + tally k (blocks (queue_get_tb q).0)
queue_get_tb-tally q k w =
    let (_, tb, list) = queue_get_tb-blocks q w in rw (tb, list) (first-rest k (blocks q))

-- For a size up to 2^63: the creation of a queue ends, with a null pointer or an empty well-formed queue.
pub queue_create-blocks :
    (memory : Memory) (size : ℕ)
    → size ≤ 2 ^ 63
    → (queue_create memory size ≡ some none)
      ⊎ ((q : Queue) × (queue_create memory size ≡ some (some q)) × IsVector q × (contents q ≡ []))
unfolding queue_create
queue_create-blocks memory size h = elim (Bool-cases (not (memory.kupl_calloc sizeof_queue))) [
  | inl none_left ↦ inl (rw none_left refl)
  | inr some_left ↦
      elim (kupl_vector_create-IsNew memory.kupl_calloc no_tb size sizeof_pointer (omega arith) h) [
        | inl null ↦ inl (rw (some_left, null) (if_same memory.kupl_lock_create))
        | inr (v, made, new) ↦ elim (Bool-cases memory.kupl_lock_create) [
          | inl locks ↦ inr (v, rw (some_left, made, locks) refl, new.valid, new.empty)
          | inr no_locks ↦ inl (rw (some_left, made, no_locks) refl)
        ]
      ]
]
