-- ===== src/Lock.antt =====
-- The ticket array lock of src/utils/lock/ticket_array_lock/kupl_ticket_array_lock.cpp: threads that call
-- its functions take turns, one access to the shared lock each.
pub mod Invariant
pub mod Order
pub mod Moves
pub mod Rank
pub mod Progress
pub mod Trylock
pub mod Tests
use kupl.Prelude.{
  ℕ, ◌+◌, ◌*◌, ◌%◌, ◌^◌, ◌==◌, if◌then◌else◌, Bool, not, Option, none, some, List, [], ◌∷◌, update,
  set, get_or, replicate,
}

-- The values of a `uint64_t`.
abbrev pub word : ℕ
word = 2 ^ 64

pub record TicketArrayLock : Type 0 where
  pub values : List ℕ
  pub head : ℕ
  pub next : ℕ
  pub size : ℕ

-- The slot of a ticket: `values[ticket % size]`.
abbrev pub slot : TicketArrayLock → ℕ → ℕ
slot raw ticket = get_or raw.values (ticket % raw.size) 0

-- What a thread outside the lock calls at its next turn.
pub data Call : Type 0 where
  lock : Call
  trylock : Call

-- Where a thread stands, with the locals that are live there.
pub data Stand : Type 0 where
  outside : Stand
  -- the `while` of `kupl_tal_lock`
  waiting : (head : ℕ) → Stand
  -- `kupl_tal_trylock`, before the test of the slot and before the CAS
  trying : (head : ℕ) → Stand
  matched : (head : ℕ) → Stand
  -- between `lock`, or a `trylock` that gave 1, and `unlock`
  inside : (head : ℕ) → Stand
  -- `kupl_tal_unlock`, before the store
  leaving : (head : ℕ) → Stand

-- The lock, where each thread stands, the thread that drew each ticket, and the threads that have
-- taken the lock, latest first.
pub record LockState : Type 0 where
  pub raw : TicketArrayLock
  pub pc : ℕ → Stand
  pub drew : ℕ → ℕ
  pub entered : List ℕ

pub kupl_tal_lock_draw : LockState → ℕ → LockState
kupl_tal_lock_draw s i =
    let head = s.raw.head in
    record s {
      raw = record s.raw { head = (head + 1) % word };
      pc = update s.pc i (waiting head);
      drew = update s.drew head i;
    }

pub kupl_tal_lock_spin : LockState → ℕ → ℕ → LockState
kupl_tal_lock_spin s i head =
    if slot s.raw head == head
    then record s { pc = update s.pc i (inside head); entered = i ∷ s.entered }
    else s

pub kupl_tal_trylock_load : LockState → ℕ → LockState
kupl_tal_trylock_load s i = record s { pc = update s.pc i (trying s.raw.head) }

pub kupl_tal_trylock_test : LockState → ℕ → ℕ → LockState
kupl_tal_trylock_test s i head = record s {
  pc = update s.pc i (if slot s.raw head == head then matched head else outside);
}

-- The compare-and-swap of `head`.
pub kupl_tal_trylock_cas : LockState → ℕ → ℕ → LockState
kupl_tal_trylock_cas s i head =
    if s.raw.head == head
    then (record s {
      raw = record s.raw { head = (head + 1) % word };
      pc = update s.pc i (inside head);
      drew = update s.drew head i;
      entered = i ∷ s.entered;
    })
    else (record s { pc = update s.pc i outside })

pub kupl_tal_unlock_next : LockState → ℕ → ℕ → LockState
kupl_tal_unlock_next s i head = record s {
  raw = record s.raw { next = (s.raw.next + 1) % word };
  pc = update s.pc i (leaving head);
}

pub kupl_tal_unlock_store : LockState → ℕ → LockState
kupl_tal_unlock_store s i =
    let raw = s.raw in
    record s {
      raw = record raw { values = set raw.values (raw.next % raw.size) raw.next };
      pc = update s.pc i outside;
    }

pub turn_from : LockState → ℕ → Call → Stand → LockState
unfolding kupl_tal_lock_draw kupl_tal_lock_spin kupl_tal_trylock_load kupl_tal_trylock_test
    kupl_tal_trylock_cas kupl_tal_unlock_next kupl_tal_unlock_store
turn_from s i lock outside = kupl_tal_lock_draw s i
turn_from s i trylock outside = kupl_tal_trylock_load s i
turn_from s i call (waiting head) = kupl_tal_lock_spin s i head
turn_from s i call (trying head) = kupl_tal_trylock_test s i head
turn_from s i call (matched head) = kupl_tal_trylock_cas s i head
turn_from s i call (inside head) = kupl_tal_unlock_next s i head
turn_from s i call (leaving head) = kupl_tal_unlock_store s i

-- Thread `i` makes its next access to the lock.
pub turn : LockState → ℕ → Call → LockState
unfolding turn_from
turn s i call = turn_from s i call (s.pc i)

-- Any interleaving: whose turn it is, and what that thread calls if it is outside.
pub run_turns : LockState → List (ℕ × Call) → LockState
run_turns s [] = s
run_turns s ((i, call) ∷ turns) = run_turns (turn s i call) turns

-- `sizeof` of `kupl_lock_t`, of `kupl_ticket_array_lock_t` and of `kupl_tal_ticket_t`, which is padded to
-- a cache line.
abbrev pub sizeof_lock : ℕ
sizeof_lock = 48

abbrev pub sizeof_ticket_array_lock : ℕ
sizeof_ticket_array_lock = 32

abbrev pub sizeof_ticket : ℕ
sizeof_ticket = 64

-- Whether an allocation of so many bytes succeeds is `kupl_calloc`.
pub kupl_ticket_array_lock_init : (ℕ → Bool) → ℕ → Option TicketArrayLock
kupl_ticket_array_lock_init kupl_calloc pu_cnt =
    let count = pu_cnt * 2 in
    if not (kupl_calloc sizeof_lock)
    then none
    else if not (kupl_calloc sizeof_ticket_array_lock)
    then none
    else if not (kupl_calloc (count * sizeof_ticket))
    then none
    else some (record { values = replicate count 0; head = 0; next = 0; size = count })

-- No thread has called a function of the lock yet.
abbrev pub fresh : TicketArrayLock → LockState
fresh raw = record { raw = raw; pc = λ i. outside; drew = λ t. 0; entered = [] }
