-- ===== src/Lock/Moves.antt =====
-- What one turn leaves alone.
use kupl.Prelude.{ℕ, ◌+◌, ◌≤◌, ◌<◌, ◌≡◌, ◌≢◌, refl, arith}
use kupl.Lock.{
  word, Call, lock, trylock, Stand, outside, waiting, trying, matched, inside, leaving, LockState,
  turn_from,
}
use kupl.Lock.Invariant.{IsInside}

-- How far a thread with the served ticket has come.
unfoldable pub stage : Stand → ℕ
stage (inside h) = 1
stage (leaving h) = 2
stage _ = 0

pub idle_stage : (p : Stand) → (IsInside p → ⊥) → stage p ≡ 0
unfolding stage
idle_stage outside out = refl
idle_stage (waiting h) out = refl
idle_stage (trying h) out = refl
idle_stage (matched h) out = refl
idle_stage (inside h) out = absurd (out tt)
idle_stage (leaving h) out = absurd (out tt)

pub turn_from-pc_ne :
    (s : LockState) (i j : ℕ) (call : Call) (p : Stand)
    → i ≢ j
    → (turn_from s i call p).pc j ≡ s.pc j
unfolding turn_from
turn_from-pc_ne s i j lock outside ne = ground arith
turn_from-pc_ne s i j trylock outside ne = ground arith
turn_from-pc_ne s i j call (waiting h) ne = ground arith
turn_from-pc_ne s i j call (trying h) ne = ground arith
turn_from-pc_ne s i j call (matched h) ne = ground arith
turn_from-pc_ne s i j call (inside h) ne = ground arith
turn_from-pc_ne s i j call (leaving h) ne = ground arith

-- The tickets that are drawn stay with their threads.
pub turn_from-drew :
    (s : LockState) (i t : ℕ) (call : Call) (p : Stand)
    → t < s.raw.head
    → (turn_from s i call p).drew t ≡ s.drew t
unfolding turn_from
turn_from-drew s i t lock outside lt = ground arith
turn_from-drew s i t trylock outside lt = refl
turn_from-drew s i t call (waiting h) lt = ground arith
turn_from-drew s i t call (trying h) lt = refl
turn_from-drew s i t call (matched h) lt = ground arith
turn_from-drew s i t call (inside h) lt = refl
turn_from-drew s i t call (leaving h) lt = refl

pub turn_from-size :
    (s : LockState) (i : ℕ) (call : Call) (p : Stand) → (turn_from s i call p).raw.size ≡ s.raw.size
unfolding turn_from
turn_from-size s i lock outside = refl
turn_from-size s i trylock outside = refl
turn_from-size s i call (waiting h) = ground arith
turn_from-size s i call (trying h) = refl
turn_from-size s i call (matched h) = ground arith
turn_from-size s i call (inside h) = refl
turn_from-size s i call (leaving h) = refl

-- Only the store of `kupl_tal_unlock` writes a slot.
pub turn_from-values :
    (s : LockState) (i : ℕ) (call : Call) (p : Stand)
    → stage p ≢ 2
    → (turn_from s i call p).raw.values ≡ s.raw.values
unfolding turn_from stage
turn_from-values s i lock outside ne = refl
turn_from-values s i trylock outside ne = refl
turn_from-values s i call (waiting h) ne = ground arith
turn_from-values s i call (trying h) ne = refl
turn_from-values s i call (matched h) ne = ground arith
turn_from-values s i call (inside h) ne = refl
turn_from-values s i call (leaving h) ne = absurd (ne refl)

pub turn_from-head :
    (s : LockState) (i : ℕ) (call : Call) (p : Stand)
    → s.raw.head + 1 < word
    → s.raw.head ≤ (turn_from s i call p).raw.head
unfolding turn_from
turn_from-head s i lock outside lt = omega arith
turn_from-head s i trylock outside lt = omega arith
turn_from-head s i call (waiting h) lt = ground arith
turn_from-head s i call (trying h) lt = omega arith
turn_from-head s i call (matched h) lt = ground arith
turn_from-head s i call (inside h) lt = omega arith
turn_from-head s i call (leaving h) lt = omega arith
