-- ===== src/Lock/Order.antt =====
-- One thread at a time, and first come, first served: the ticket array lock under any interleaving.
use kupl.Prelude.{
  ℕ, zero, suc, ◌+◌, ◌%◌, ◌*◌, ◌≤◌, ◌<◌, ◌==◌, ◌≡◌, refl, sym, ap, ◌∙◌, subst, arith, inl, inr,
  Bool, true, false, not, Option, none, some, List, [], ◌∷◌, length, length-replicate, get_or,
  replicate, ℕ_discrete, Bool-cases, if◌then◌else◌,
}
use kupl.Lock.{
  word, TicketArrayLock, slot, Call, lock, trylock, Stand, outside, waiting, trying, matched,
  inside, leaving, LockState, turn_from, turn, run_turns, fresh, kupl_ticket_array_lock_init,
  sizeof_lock, sizeof_ticket, sizeof_ticket_array_lock, kupl_tal_lock_spin, kupl_tal_trylock_cas,
  kupl_tal_trylock_test,
}
use kupl.Lock.Invariant.{Holds, IsInside, IsPlaced, IsBusy, firsts, Inv, IsQuiet, Inside-Holds}
use kupl.Lock.Invariant.Quiet.{quiet-Inv}
use kupl.Lock.Invariant.Draw.{draw_wait-Inv, draw_enter-Inv}
use kupl.Lock.Invariant.Hand.{enter-Inv, next-Inv}
use kupl.Lock.Invariant.Store.{store-Inv}

module _ (k : ℕ) (s : LockState) (inv : Inv k s) (i : ℕ) (small : suc k < word) where
  Inv-later : Inv (suc k) s
  Inv-later = record {
    served = inv.served;
    busy = inv.busy;
    size_pos = inv.size_pos;
    length_values = inv.length_values;
    head_bound = omega (arith, inv.head_bound);
    served_le = inv.served_le;
    values_le = inv.values_le;
    slot_served = inv.slot_served;
    placed = inv.placed;
    owner = inv.owner;
    held = inv.held;
    is_busy = inv.is_busy;
    log = inv.log;
  }

  quiet : (p : Stand) → s.pc i ≡ p → IsQuiet p → IsQuiet (s.pc i)
  quiet p e q = subst IsQuiet (sym e) q

  -- An open slot shows the ticket that is served, or one before it.
  open_slot : (h : ℕ) → (slot s.raw h == h) ≡ true → h ≤ inv.served
  open_slot h e = ground (arith, inv.values_le (h % s.raw.size))

  spin-Inv : (h : ℕ) → s.pc i ≡ waiting h → Inv (suc k) (kupl_tal_lock_spin s i h)
  unfolding kupl_tal_lock_spin
  spin-Inv h e = elim (Bool-cases (slot s.raw h == h)) [
    | inr shut ↦ rw shut Inv-later
    | inl yet ↦ rw yet (
        enter-Inv k s inv i h e (
          let w = subst (IsPlaced inv.served s.raw.head s.raw.next) e (inv.placed i) in
          omega (arith, open_slot h yet)))
  ]

  test-Inv : (h : ℕ) → s.pc i ≡ trying h → Inv (suc k) (kupl_tal_trylock_test s i h)
  unfolding kupl_tal_trylock_test
  test-Inv h e = elim (Bool-cases (slot s.raw h == h)) [
    | inr shut ↦ rw shut (quiet-Inv k s inv i outside (quiet (trying h) e tt) tt tt)
    | inl yet ↦
        rw yet (quiet-Inv k s inv i (matched h) (quiet (trying h) e tt) tt (open_slot h yet))
  ]

  cas-Inv : (h : ℕ) → s.pc i ≡ matched h → Inv (suc k) (kupl_tal_trylock_cas s i h)
  unfolding kupl_tal_trylock_cas
  cas-Inv h e = elim (Bool-cases (s.raw.head == h)) [
    | inr lost ↦ rw lost (quiet-Inv k s inv i outside (quiet (matched h) e tt) tt tt)
    | inl won ↦ rw won (
        let same : s.raw.head ≡ h = ground arith in
        let w = subst (IsPlaced inv.served s.raw.head s.raw.next) e (inv.placed i) in
        rw (← same)
          (draw_enter-Inv k s inv i small (quiet (matched h) e tt) (omega (arith, inv.served_le))))
  ]

  from-Inv : (call : Call) (p : Stand) → s.pc i ≡ p → Inv (suc k) (turn_from s i call p)
  unfolding turn_from
  from-Inv lock outside e = draw_wait-Inv k s inv i small (quiet outside e tt)
  from-Inv trylock outside e =
      quiet-Inv k s inv i (trying s.raw.head) (quiet outside e tt) tt (omega arith)
  from-Inv call (waiting h) e = spin-Inv h e
  from-Inv call (trying h) e = test-Inv h e
  from-Inv call (matched h) e = cas-Inv h e
  from-Inv call (inside h) e = next-Inv k s inv i h small e
  from-Inv call (leaving h) e = store-Inv k s inv i h e

  pub turn-Inv : (call : Call) → Inv (suc k) (turn s i call)
  unfolding turn
  turn-Inv call = from-Inv call (s.pc i) refl

pub run_turns-Inv :
    (turns : List (ℕ × Call)) (k : ℕ) (s : LockState)
    → Inv k s
    → k + length turns < word
    → Inv (k + length turns) (run_turns s turns)
unfolding run_turns
run_turns-Inv [] k s inv small = subst (λ (m : ℕ). Inv m s) (omega arith) inv
run_turns-Inv ((i, call) ∷ turns) k s inv small =
    subst (λ (m : ℕ). Inv m (run_turns (turn s i call) turns)) (omega arith)
      (run_turns-Inv turns (suc k) (turn s i call) (turn-Inv k s inv i (omega arith) call)
        (omega arith))

abbrev zeros : ℕ → List ℕ
zeros n = replicate n 0

get_or-zeros : (n j : ℕ) → get_or (zeros n) j 0 ≡ 0
get_or-zeros zero j = refl
get_or-zeros (suc n) zero = refl
get_or-zeros (suc n) (suc j) = get_or-zeros n j

unguard {ℓ} :
    {A : Type ℓ} (b : Bool) (rest : Option A) {y : A}
    → (if b then none else rest) ≡ some y
    → rest ≡ some y
unguard true rest e = cc
unguard false rest e = e

abbrev pub created : ℕ → TicketArrayLock
created count = record { values = zeros count; head = 0; next = 0; size = count }

created-Inv : (count : ℕ) → 0 < count → Inv 0 (fresh (created count))
unfolding firsts
created-Inv count h = record {
  served = 0;
  busy = 0;
  size_pos = h;
  length_values = length-replicate count 0;
  head_bound = omega arith;
  served_le = omega arith;
  values_le = λ j. omega (arith, get_or-zeros count j);
  slot_served = get_or-zeros count (0 % count);
  placed = λ i. tt;
  owner = λ i t e. absurd e;
  held = λ t le lt. absurd (omega arith);
  is_busy = (λ i e. e, refl);
  log = refl;
}

fresh-Inv :
    (calloc : ℕ → Bool) (pu_cnt : ℕ) (raw : TicketArrayLock)
    → 0 < pu_cnt
    → kupl_ticket_array_lock_init calloc pu_cnt ≡ some raw
    → Inv 0 (fresh raw)
unfolding kupl_ticket_array_lock_init
fresh-Inv calloc pu_cnt raw some_pu e =
    let e1 = unguard (not (calloc sizeof_lock)) _ e in
    let e2 = unguard (not (calloc sizeof_ticket_array_lock)) _ e1 in
    let e3 = unguard (not (calloc (pu_cnt * 2 * sizeof_ticket))) _ e2 in
    let same : created (pu_cnt * 2) ≡ raw = cc in
    subst (λ (r : TicketArrayLock). Inv 0 (fresh r)) same (created-Inv (pu_cnt * 2) (omega arith))

-- A lock that was created, after any turns of its threads that are fewer than 2 ^ 64.
pub reached-Inv :
    (calloc : ℕ → Bool) (pu_cnt : ℕ) (raw : TicketArrayLock) (turns : List (ℕ × Call))
    → 0 < pu_cnt
    → kupl_ticket_array_lock_init calloc pu_cnt ≡ some raw
    → length turns < word
    → Inv (length turns) (run_turns (fresh raw) turns)
reached-Inv calloc pu_cnt raw turns some_pu e small =
    subst (λ (m : ℕ). Inv m (run_turns (fresh raw) turns)) (omega arith)
      (run_turns-Inv turns 0 (fresh raw) (fresh-Inv calloc pu_cnt raw some_pu e) (omega arith))

module _ {k : ℕ} (s : LockState) (inv : Inv k s) where
  counted : (busy : ℕ) → IsBusy s inv.served busy → inv.served + busy ≤ s.raw.head
  counted zero b = omega (arith, inv.served_le)
  counted (suc n) b = omega arith

  before :
      (i t : ℕ)
      → s.pc i ≡ waiting t
      → (busy : ℕ) → IsBusy s inv.served busy
      → (inv.served + busy ≤ t) × (s.drew t ≡ i)
  before i t e busy b =
      let w = subst (IsPlaced inv.served s.raw.head s.raw.next) e (inv.placed i) in
      let mine = inv.owner i t (subst (λ (p : Stand). Holds p t) (sym e) refl) in
      (after busy b w mine, mine)
    where
      after :
          (busy : ℕ)
          → IsBusy s inv.served busy
          → (inv.served ≤ t) × (t < s.raw.head)
          → s.drew t ≡ i
          → inv.served + busy ≤ t
      after zero b w mine = omega arith
      after (suc n) b w mine = elim (ℕ_discrete inv.served t) [
        | no other ↦ omega arith
        | yes same ↦ absurd (subst IsInside (ap s.pc (ap s.drew same ∙ mine) ∙ e) b.2)
      ]

abbrev pub pc_after : TicketArrayLock → List (ℕ × Call) → ℕ → Stand
pc_after raw turns = (run_turns (fresh raw) turns).pc

module _ (calloc : ℕ → Bool) (pu_cnt : ℕ) (raw : TicketArrayLock) (turns : List (ℕ × Call))
    (some_pu : 0 < pu_cnt) (created_lock : kupl_ticket_array_lock_init calloc pu_cnt ≡ some raw)
    (few : length turns < word) where
  -- For a ticket array lock that was created on a host with a processing unit: after fewer than
  -- 2^64 turns of its threads, in any order and with any calls, two threads between taking the
  -- lock and giving it back are one thread.
  pub run_turns-exclusive :
      (i j : ℕ) → IsInside (pc_after raw turns i) → IsInside (pc_after raw turns j) → i ≡ j
  run_turns-exclusive i j p q =
      let s = run_turns (fresh raw) turns in
      let inv = reached-Inv calloc pu_cnt raw turns some_pu created_lock few in
      let mine =
        inv.owner i inv.served
          (Inside-Holds (s.pc i) inv.served s.raw.head s.raw.next (inv.placed i) p) in
      let yours =
        inv.owner j inv.served
          (Inside-Holds (s.pc j) inv.served s.raw.head s.raw.next (inv.placed j) q) in
      sym mine ∙ yours

  -- For a ticket array lock that was created on a host with a processing unit, after fewer than
  -- 2^64 turns: the threads that took the lock are those of the first tickets, in the order of
  -- the tickets, and a thread that waits has drawn one of the later tickets.
  pub run_turns-in_order :
      (n : ℕ) × ((run_turns (fresh raw) turns).entered
        ≡ firsts (run_turns (fresh raw) turns).drew n)
      × (n ≤ (run_turns (fresh raw) turns).raw.head)
      × ((i t : ℕ)
          → pc_after raw turns i ≡ waiting t
          → (n ≤ t) × ((run_turns (fresh raw) turns).drew t ≡ i))
  run_turns-in_order =
      let s = run_turns (fresh raw) turns in
      let inv = reached-Inv calloc pu_cnt raw turns some_pu created_lock few in
      (
        inv.served + inv.busy,
        inv.log,
        counted s inv inv.busy inv.is_busy,
        λ i t e. before s inv i t e inv.busy inv.is_busy,
      )
