-- ===== src/Lock/Rank.antt =====
-- A turn of the thread whose ticket is served brings the line of tickets forward, and no turn takes it
-- back.
use kupl.Prelude.{
  ℕ, zero, suc, ◌+◌, ◌%◌, ◌*◌, ◌≤◌, ◌<◌, ◌==◌, ◌≡◌, ◌≢◌, refl, sym, ap, ◌∙◌, subst, arith, true,
  List, get_or, ℕ_discrete, dec_lt,
}
use kupl.Lock.{
  word, slot, Call, Stand, outside, waiting, trying, matched, inside, leaving, LockState, turn_from,
  turn,
}
use kupl.Lock.Invariant.{Holds, IsInside, IsPlaced, IsBusy, Inv}
use kupl.Lock.Invariant.Store.{opened}
use kupl.Lock.Moves.{
  stage, idle_stage, turn_from-pc_ne, turn_from-drew, turn_from-size, turn_from-values,
  turn_from-head,
}

module _ {k : ℕ} (s : LockState) (inv : Inv k s) where
  pub rank : ℕ
  rank = 3 * inv.served + stage (s.pc (s.drew inv.served))

-- The slots tell which ticket is served.
pub served_of :
    {k k' : ℕ} (s s' : LockState) (inv : Inv k s) (inv' : Inv k' s')
    → s.raw.values ≡ s'.raw.values
    → s.raw.size ≡ s'.raw.size
    → inv.served ≡ inv'.served
served_of s s' inv inv' e f = omega (arith, below s s' inv inv' e, below s' s inv' inv (sym e))
  where
    below :
        {k k' : ℕ} (s s' : LockState) (inv : Inv k s) (inv' : Inv k' s')
        → s.raw.values ≡ s'.raw.values
        → inv.served ≤ inv'.served
    below s s' inv inv' e =
        let at = ap (λ (vs : List ℕ). get_or vs (inv.served % s.raw.size) 0) e in
        omega (arith, at, inv.slot_served, inv'.values_le (inv.served % s.raw.size))

module _ {k k' : ℕ} (s : LockState) (i : ℕ) (call : Call) (inv : Inv k s)
    (inv' : Inv k' (turn s i call)) (small : s.raw.head + 1 < word) where
  same_served : stage (s.pc i) ≢ 2 → inv'.served ≡ inv.served
  unfolding turn
  same_served ne = sym (
      served_of s (turn s i call) inv inv' (sym (turn_from-values s i call (s.pc i) ne))
        (sym (turn_from-size s i call (s.pc i))))

  leaving_owner : stage (s.pc i) ≡ 2 → s.drew inv.served ≡ i
  unfolding stage
  leaving_owner e = owned (s.pc i) (inv.placed i) e (inv.owner i inv.served)
    where
      owned :
          (p : Stand)
          → IsPlaced inv.served s.raw.head s.raw.next p
          → stage p ≡ 2
          → (Holds p inv.served → s.drew inv.served ≡ i)
          → s.drew inv.served ≡ i
      owned (leaving h) w e o = o w.0
      owned outside w e o = absurd (omega arith)
      owned (waiting h) w e o = absurd (omega arith)
      owned (trying h) w e o = absurd (omega arith)
      owned (matched h) w e o = absurd (omega arith)
      owned (inside h) w e o = absurd (omega arith)

  -- The turn of another thread.
  pub other_turn :
      inv.served < s.raw.head
      → s.drew inv.served ≢ i
      → (rank (turn s i call) inv' ≡ rank s inv)
        × ((turn s i call).drew inv'.served ≡ s.drew inv.served)
        × (inv'.served < (turn s i call).raw.head)
  unfolding turn rank
  other_turn lt other =
      let e = same_served (λ leaves. other (leaving_owner leaves)) in
      let d = turn_from-drew s i inv.served call (s.pc i) lt in
      let d' : (turn s i call).drew inv'.served ≡ s.drew inv.served = rw e d in
      let p : (turn s i call).pc (s.drew inv.served) ≡ s.pc (s.drew inv.served) =
        turn_from-pc_ne s i (s.drew inv.served) call (s.pc i) (λ q. other (sym q)) in
      (
        rw d' (rw p (omega (arith, e))),
        d',
        rw e (omega (arith, turn_from-head s i call (s.pc i) small)),
      )

  abbrev HasAdvanced : Stand → Type 0
  HasAdvanced p =
      (inv'' : Inv k' (turn_from s i call p))
      → 3 * inv.served + stage p < rank (turn_from s i call p) inv''

  -- The thread keeps its ticket and goes on to `q`.
  goes_on :
      (p q : Stand)
      → inv.served < s.raw.head
      → s.drew inv.served ≡ i
      → stage p ≢ 2
      → (turn_from s i call p).pc i ≡ q
      → stage p < stage q
      → HasAdvanced p
  unfolding rank
  goes_on p q lt mine ne at more inv'' =
      let s' = turn_from s i call p in
      let e =
        served_of s s' inv inv'' (sym (turn_from-values s i call p ne))
          (sym (turn_from-size s i call p)) in
      let d : s'.drew inv''.served ≡ i =
        ap s'.drew (sym e) ∙ turn_from-drew s i inv.served call p lt ∙ mine in
      omega (arith, ap (λ (j : ℕ). stage (s'.pc j)) d, ap stage at)

  stored_rank : (h : ℕ) → s.pc i ≡ leaving h → HasAdvanced (leaving h)
  unfolding stage turn_from rank
  stored_rank h e inv'' =
      omega (arith, opened k s inv i h e, inv''.values_le ((inv.served + 1) % s.raw.size))

  own_from :
      (p : Stand)
      → s.pc i ≡ p
      → inv.served < s.raw.head
      → s.drew inv.served ≡ i
      → IsPlaced inv.served s.raw.head s.raw.next p
      → Holds p inv.served
      → HasAdvanced p
  unfolding stage turn_from
  own_from (waiting h) e lt mine w q =
      let opens : (slot s.raw h == h) ≡ true = ground (arith, ap (slot s.raw) q, inv.slot_served) in
      goes_on (waiting h) (inside h) lt mine (λ z. absurd (omega arith)) (ground arith)
        (omega arith)
  own_from (inside h) e lt mine w q =
      goes_on (inside h) (leaving h) lt mine (λ z. absurd (omega arith)) (ground arith)
        (omega arith)
  own_from (leaving h) e lt mine w q = stored_rank h e
  own_from outside e lt mine w q = absurd q
  own_from (trying h) e lt mine w q = absurd q
  own_from (matched h) e lt mine w q = absurd q

  -- The turn of the thread whose ticket is served.
  pub own_turn :
      inv.served < s.raw.head → s.drew inv.served ≡ i → rank s inv < rank (turn s i call) inv'
  unfolding turn rank
  own_turn lt mine =
      let has =
        subst (λ (j : ℕ). Holds (s.pc j) inv.served) mine (inv.held inv.served (omega arith) lt) in
      omega (
        arith,
        own_from (s.pc i) refl lt mine (inv.placed i) has inv',
        ap (λ (j : ℕ). stage (s.pc j)) mine,
      )

  pub idle :
      (busy : ℕ)
      → IsBusy s inv.served busy
      → ¬ inv.served < s.raw.head
      → (j : ℕ) → stage (s.pc j) ≡ 0
  idle zero b ge j = idle_stage (s.pc j) (b.0 j)
  idle (suc n) b ge j = absurd (ge b.1)

  pub rank-le : rank s inv ≤ rank (turn s i call) inv'
  unfolding rank
  rank-le = elim (dec_lt inv.served s.raw.head) [
    | yes lt ↦ elim (ℕ_discrete (s.drew inv.served) i) [
      | yes mine ↦ omega (arith, own_turn lt mine)
      | no other ↦ omega (arith, (other_turn lt other).0)
    ]
    | no ge ↦
        let still : stage (s.pc (s.drew inv.served)) ≡ 0 =
          idle inv.busy inv.is_busy ge (s.drew inv.served) in
        omega
          (arith, still, same_served (λ z. absurd (omega (arith, idle inv.busy inv.is_busy ge i))))
  ]

pub rank_same :
    {k k' : ℕ} (s : LockState) (inv : Inv k s) (inv' : Inv k' s) → rank s inv ≡ rank s inv'
unfolding rank
rank_same s inv inv' =
    let e = served_of s s inv inv' refl refl in
    omega (arith, e, ap (λ (t : ℕ). stage (s.pc (s.drew t))) e)

stage_bounds : (p : Stand) → (stage p ≤ 2) × (IsInside p → 1 ≤ stage p)
unfolding stage
stage_bounds outside = (omega arith, λ b. absurd b)
stage_bounds (waiting h) = (omega arith, λ b. absurd b)
stage_bounds (trying h) = (omega arith, λ b. absurd b)
stage_bounds (matched h) = (omega arith, λ b. absurd b)
stage_bounds (inside h) = (omega arith, λ b. omega arith)
stage_bounds (leaving h) = (omega arith, λ b. omega arith)

-- The line and the number of threads that have gone in.
pub rank-entered :
    {k : ℕ} (s : LockState) (inv : Inv k s)
    → (rank s inv ≤ 3 * (inv.served + inv.busy)) × (3 * (inv.served + inv.busy) ≤ rank s inv + 2)
unfolding rank
rank-entered s inv = by_busy inv.busy inv.is_busy
  where
    by_busy :
        (busy : ℕ)
        → IsBusy s inv.served busy
        → (3 * inv.served + stage (s.pc (s.drew inv.served)) ≤ 3 * (inv.served + busy))
          × (3 * (inv.served + busy) ≤ 3 * inv.served + stage (s.pc (s.drew inv.served)) + 2)
    by_busy zero b =
        let z = idle_stage (s.pc (s.drew inv.served)) (b.0 (s.drew inv.served)) in
        (omega (arith, z), omega arith)
    by_busy (suc n) b =
        let bounds = stage_bounds (s.pc (s.drew inv.served)) in
        (omega (arith, bounds.0, b.0), omega (arith, bounds.1 b.2, b.0))

pub rank-served : {k : ℕ} (s : LockState) (inv : Inv k s) → 3 * inv.served ≤ rank s inv
unfolding rank
rank-served s inv = omega arith
