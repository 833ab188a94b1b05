-- ===== src/Lock/Invariant.antt =====
-- What every interleaving of the calls of the ticket array lock keeps.
pub mod Quiet
pub mod Draw
pub mod Hand
pub mod Store
use kupl.Prelude.{
  ℕ, zero, suc, ◌+◌, ◌%◌, ◌≤◌, ◌<◌, ◌==◌, ◌≡◌, refl, sym, ap, ◌∙◌, ◌≢◌, subst, ◌⊎◌, inl, inr, arith,
  List, [], ◌∷◌, update, update_same, length, length-set, set, get_or, get_or-set_self,
  get_or-set_ne, Bool-cases, ℕ_discrete,
}
use kupl.Lock.{
  word, TicketArrayLock, slot, Call, lock, trylock, Stand, outside, waiting, trying, matched,
  inside, leaving, LockState, turn_from, turn, run_turns,
}

-- The thread has drawn ticket `t` and not given the lock back.
abbrev pub Holds : Stand → ℕ → Type 0
Holds (waiting head) t = head ≡ t
Holds (inside head) t = head ≡ t
Holds (leaving head) t = head ≡ t
Holds _ t = ⊥

-- The thread has the lock.
abbrev pub IsInside : Stand → Type 0
IsInside (inside head) = Unit
IsInside (leaving head) = Unit
IsInside _ = ⊥

-- The threads of the tickets below `n`, latest first.
unfoldable pub firsts : (ℕ → ℕ) → ℕ → List ℕ
firsts drew zero = []
firsts drew (suc n) = drew n ∷ firsts drew n

abbrev pub IsPlaced : ℕ → ℕ → ℕ → Stand → Type 0
IsPlaced served head next outside = Unit
IsPlaced served head next (waiting h) = (served ≤ h) × (h < head)
IsPlaced served head next (trying h) = h ≤ head
IsPlaced served head next (matched h) = h ≤ served
IsPlaced served head next (inside h) = (h ≡ served) × (h < head) × (next ≡ served)
IsPlaced served head next (leaving h) = (h ≡ served) × (h < head) × (next ≡ served + 1)

-- How many threads have the lock: none, or the one whose ticket is served.
abbrev pub IsBusy : LockState → ℕ → ℕ → Type 0
IsBusy s served zero = ((i : ℕ) → IsInside (s.pc i) → ⊥) × (s.raw.next ≡ served)
IsBusy s served (suc n) = (n ≡ 0) × (served < s.raw.head) × IsInside (s.pc (s.drew served))

-- `served` is the ticket whose slot is open, and `k` a bound of the turns so far.
pub record Inv (k : ℕ) (s : LockState) : Type 0 where
  pub served : ℕ
  pub busy : ℕ
  pub size_pos : 0 < s.raw.size
  pub length_values : length s.raw.values ≡ s.raw.size
  pub head_bound : s.raw.head ≤ k
  pub served_le : served ≤ s.raw.head
  pub values_le : (j : ℕ) → get_or s.raw.values j 0 ≤ served
  pub slot_served : slot s.raw served ≡ served
  pub placed : (i : ℕ) → IsPlaced served s.raw.head s.raw.next (s.pc i)
  pub owner : (i t : ℕ) → Holds (s.pc i) t → s.drew t ≡ i
  pub held : (t : ℕ) → served ≤ t → t < s.raw.head → Holds (s.pc (s.drew t)) t
  pub is_busy : IsBusy s served busy
  pub log : s.entered ≡ firsts s.drew (served + busy)

-- The thread has no ticket.
abbrev pub IsQuiet : Stand → Type 0
IsQuiet outside = Unit
IsQuiet (trying head) = Unit
IsQuiet (matched head) = Unit
IsQuiet _ = ⊥

pub quiet-Holds : (p : Stand) (t : ℕ) → IsQuiet p → Holds p t → ⊥
quiet-Holds outside t q h = h
quiet-Holds (trying head) t q h = h
quiet-Holds (matched head) t q h = h
quiet-Holds (waiting head) t q h = q
quiet-Holds (inside head) t q h = q
quiet-Holds (leaving head) t q h = q

pub quiet-IsInside : (p : Stand) → IsQuiet p → IsInside p → ⊥
quiet-IsInside outside q h = h
quiet-IsInside (trying head) q h = h
quiet-IsInside (matched head) q h = h
quiet-IsInside (waiting head) q h = h
quiet-IsInside (inside head) q h = q
quiet-IsInside (leaving head) q h = q

pub Inside-Holds :
    (p : Stand) (served head next : ℕ) → IsPlaced served head next p → IsInside p → Holds p served
Inside-Holds (inside h) served head next w b = w.0
Inside-Holds (leaving h) served head next w b = w.0
Inside-Holds outside served head next w b = b
Inside-Holds (waiting h) served head next w b = absurd b
Inside-Holds (trying h) served head next w b = b
Inside-Holds (matched h) served head next w b = b

pub Holds-range :
    (p : Stand) (t served head next : ℕ)
    → IsPlaced served head next p
    → Holds p t
    → (served ≤ t) × (t < head)
Holds-range (waiting h) t served head next w e = omega arith
Holds-range (inside h) t served head next w e = omega arith
Holds-range (leaving h) t served head next w e = omega arith
Holds-range outside t served head next w e = absurd e
Holds-range (trying h) t served head next w e = absurd e
Holds-range (matched h) t served head next w e = absurd e

pub firsts-update :
    (drew : ℕ → ℕ) (head i n : ℕ) → n ≤ head → firsts (update drew head i) n ≡ firsts drew n
unfolding firsts
firsts-update drew head i zero le = refl
firsts-update drew head i (suc n) le = ground (arith, firsts-update drew head i n)
