-- ===== src/Lock/Progress.antt =====
-- No thread starves: every round of turns brings the line of tickets forward.
use kupl.Prelude.{
  ℕ, zero, suc, ◌+◌, ◌*◌, ◌≤◌, ◌<◌, ◌≡◌, ◌≢◌, refl, sym, ap, ◌∙◌, subst, arith, inl, inr, ◌⊎◌, Bool,
  some, List, [], ◌∷◌, ◌++◌, length, length-append, ℕ_discrete, dec_lt,
}
use kupl.Lock.{
  word, TicketArrayLock, Call, Stand, outside, waiting, LockState, turn, run_turns, fresh,
  kupl_ticket_array_lock_init,
}
use kupl.Lock.Invariant.{Holds, IsPlaced, firsts, Inv}
use kupl.Lock.Order.{turn-Inv, run_turns-Inv, reached-Inv, pc_after}
use kupl.Lock.Moves.{turn_from-pc_ne, turn_from-drew, turn_from-head}
use kupl.Lock.Rank.{rank, rank_same, rank-entered, rank-served, own_turn, other_turn, rank-le}

abbrev pub TurnOf : ℕ → List (ℕ × Call) → Type 0
TurnOf j [] = ⊥
TurnOf j ((i, call) ∷ turns) = (i ≡ j) ⊎ TurnOf j turns

-- Only the threads below `n` take part.
abbrev pub AllBelow : ℕ → List (ℕ × Call) → Type 0
AllBelow n [] = Unit
AllBelow n ((i, call) ∷ turns) = (i < n) × AllBelow n turns

abbrev pub AreRounds : ℕ → List (List (ℕ × Call)) → Type 0
AreRounds n [] = Unit
AreRounds n (round ∷ rounds) =
    ((j : ℕ) → j < n → TurnOf j round) × AllBelow n round × AreRounds n rounds

abbrev pub joined : List (List (ℕ × Call)) → List (ℕ × Call)
joined [] = []
joined (round ∷ rounds) = round ++ joined rounds

run_turns-append :
    (xs ys : List (ℕ × Call)) (s : LockState)
    → run_turns s (xs ++ ys) ≡ run_turns (run_turns s xs) ys
unfolding run_turns
run_turns-append [] ys s = refl
run_turns-append ((i, call) ∷ xs) ys s = run_turns-append xs ys (turn s i call)

abbrev IsWithin : ℕ → LockState → Type 0
IsWithin n s = (j : ℕ) → n ≤ j → s.pc j ≡ outside

run_turns-IsWithin :
    (n : ℕ) (turns : List (ℕ × Call)) (s : LockState)
    → AllBelow n turns
    → IsWithin n s
    → IsWithin n (run_turns s turns)
unfolding run_turns turn
run_turns-IsWithin n [] s b w = w
run_turns-IsWithin n ((i, call) ∷ turns) s (lt, b) w =
    run_turns-IsWithin n turns (turn s i call) b
      (λ j le. turn_from-pc_ne s i j call (s.pc i) (λ e. absurd (omega arith)) ∙ w j le)

run_turns-rank :
    (turns : List (ℕ × Call)) {k k' : ℕ} (s : LockState) (inv : Inv k s)
    (inv' : Inv k' (run_turns s turns))
    → k + length turns < word
    → rank s inv ≤ rank (run_turns s turns) inv'
unfolding run_turns
run_turns-rank [] s inv inv' small = omega (arith, rank_same s inv inv')
run_turns-rank ((i, call) ∷ turns) {k} s inv inv' small =
    let inv1 = turn-Inv k s inv i (omega arith) call in
    omega (
      arith,
      rank-le s i call inv inv1 (omega (arith, inv.head_bound)),
      run_turns-rank turns (turn s i call) inv1 inv' (omega arith),
    )

served_turn :
    (turns : List (ℕ × Call)) {k k' : ℕ} (s : LockState) (inv : Inv k s)
    (inv' : Inv k' (run_turns s turns))
    → k + length turns < word
    → inv.served < s.raw.head
    → TurnOf (s.drew inv.served) turns
    → rank s inv < rank (run_turns s turns) inv'
unfolding run_turns
served_turn [] s inv inv' small lt h = absurd h
served_turn ((i, call) ∷ turns) {k} s inv inv' small lt h =
    let inv1 = turn-Inv k s inv i (omega arith) call in
    let fits : s.raw.head + 1 < word = omega (arith, inv.head_bound) in
    let rest = run_turns-rank turns (turn s i call) inv1 inv' (omega arith) in
    elim (ℕ_discrete (s.drew inv.served) i) [
      | yes mine ↦ omega (arith, own_turn s i call inv inv1 fits lt mine, rest)
      | no other ↦
          let (e, d, lt') = other_turn s i call inv inv1 fits lt other in
          omega (
            arith,
            e,
            served_turn turns (turn s i call) inv1 inv' (omega arith) lt'
                (subst (λ (j : ℕ). TurnOf j turns) (sym d) (later other h)),
          )
    ]
  where
    later :
        s.drew inv.served ≢ i
        → (i ≡ s.drew inv.served) ⊎ TurnOf (s.drew inv.served) turns
        → TurnOf (s.drew inv.served) turns
    later other (inl e) = absurd (other (sym e))
    later other (inr t) = t

run_turns-kept :
    (turns : List (ℕ × Call)) {k : ℕ} (s : LockState) (t : ℕ)
    → Inv k s
    → k + length turns < word
    → t < s.raw.head
    → (t < (run_turns s turns).raw.head) × ((run_turns s turns).drew t ≡ s.drew t)
unfolding run_turns turn
run_turns-kept [] s t inv small lt = (lt, refl)
run_turns-kept ((i, call) ∷ turns) {k} s t inv small lt =
    let fits : s.raw.head + 1 < word = omega (arith, inv.head_bound) in
    let inv1 = turn-Inv k s inv i (omega arith) call in
    let (lt', d) =
      run_turns-kept turns (turn s i call) t inv1 (omega arith)
        (omega (arith, turn_from-head s i call (s.pc i) fits)) in
    (lt', d ∙ turn_from-drew s i t call (s.pc i) lt)

rank_eq :
    {k k' : ℕ} (s s' : LockState) (inv : Inv k s)
    → s ≡ s'
    → (inv' : Inv k' s') → rank s inv ≡ rank s' inv'
rank_eq {k} {k'} s s' inv e =
    subst (λ (r : LockState). (inv' : Inv k' r) → rank s inv ≡ rank r inv') e
      (λ inv'. rank_same s inv inv')

-- The thread whose ticket is served is one of those that take part.
served_below :
    (n : ℕ) {k : ℕ} (s : LockState) (inv : Inv k s)
    → IsWithin n s
    → inv.served < s.raw.head
    → s.drew inv.served < n
served_below n s inv w lt = elim (dec_lt (s.drew inv.served) n) [
  | yes below ↦ below
  | no out ↦ absurd (
      subst (λ (p : Stand). Holds p inv.served) (w (s.drew inv.served) (omega arith))
        (inv.held inv.served (omega arith) lt))
]

-- Each round brings the line forward, until ticket `t` is in.
rounds-rank :
    (n t : ℕ) (rounds : List (List (ℕ × Call))) {k k' : ℕ} (s s' : LockState) (inv : Inv k s)
    (inv' : Inv k' s')
    → run_turns s (joined rounds) ≡ s'
    → k + length (joined rounds) < word
    → t < s.raw.head
    → IsWithin n s
    → AreRounds n rounds
    → (rank s inv + length rounds ≤ rank s' inv') ⊎ (3 * t + 1 ≤ rank s' inv')
unfolding run_turns
rounds-rank n t [] s s' inv inv' at small lt w fair = inl (omega (arith, rank_eq s s' inv at inv'))
rounds-rank n t (round ∷ rounds) {k} {k'} s s' inv inv' at small lt w (turns, below, fair) =
    let fits : k + length round + length (joined rounds) < word =
      omega (arith, length-append {0} round (joined rounds)) in
    let s1 = run_turns s round in
    let inv1 = run_turns-Inv round k s inv (omega arith) in
    let le = run_turns-rank round s inv inv1 (omega arith) in
    let rest =
      rounds-rank n t rounds s1 s' inv1 inv' (sym (run_turns-append round (joined rounds) s) ∙ at)
        fits (run_turns-kept round s t inv (omega arith) lt).0
        (run_turns-IsWithin n round s below w) fair in
    elim (dec_lt t inv.served) [
      | yes past ↦ elim rest [
        | inl more ↦ inr (omega (arith, le, rank-served s inv))
        | inr entered ↦ inr entered
      ]
      | no ahead ↦
          let lt' : inv.served < s.raw.head = omega arith in
          let step =
            served_turn round s inv inv1 (omega arith) lt'
              (turns (s.drew inv.served) (served_below n s inv w lt')) in
          elim rest [ inl more ↦ inl (omega (arith, step)) | inr entered ↦ inr entered ]
    ]

length-firsts : (drew : ℕ → ℕ) (n : ℕ) → length (firsts drew n) ≡ n
unfolding firsts
length-firsts drew zero = refl
length-firsts drew (suc n) = ap suc (length-firsts drew n)

module _ (calloc : ℕ → Bool) (pu_cnt : ℕ) (raw : TicketArrayLock) (turns : List (ℕ × Call))
    (rounds : List (List (ℕ × Call))) (n i t : ℕ) (some_pu : 0 < pu_cnt)
    (created_lock : kupl_ticket_array_lock_init calloc pu_cnt ≡ some raw)
    (few : length (turns ++ joined rounds) < word) where
  -- For such a lock, and turns of the threads below `n` after which thread `i` waits with ticket
  -- `t`: if enough rounds follow in which each of these threads has a turn (three for each
  -- ticket up to `t` that has not taken the lock yet), with fewer than 2^64 turns in all, ticket
  -- `t` is among those that have taken the lock, and is still that of thread `i`.
  pub waiting-enters :
      AllBelow n turns
      → pc_after raw turns i ≡ waiting t
      → AreRounds n rounds
      → 3 * (t + 1) ≤ length rounds + 3 * length (run_turns (fresh raw) turns).entered
      → (m : ℕ) × ((run_turns (fresh raw) (turns ++ joined rounds)).entered
          ≡ firsts (run_turns (fresh raw) (turns ++ joined rounds)).drew m)
        × (t < m)
        × ((run_turns (fresh raw) (turns ++ joined rounds)).drew t ≡ i)
  waiting-enters below e fair enough =
      let fits : length turns + length (joined rounds) < word =
        omega (arith, length-append {0} turns (joined rounds)) in
      let s = run_turns (fresh raw) turns in
      let inv = reached-Inv calloc pu_cnt raw turns some_pu created_lock (omega arith) in
      let s' = run_turns (fresh raw) (turns ++ joined rounds) in
      let at : s' ≡ run_turns s (joined rounds) =
        run_turns-append turns (joined rounds) (fresh raw) in
      let inv' = reached-Inv calloc pu_cnt raw (turns ++ joined rounds) some_pu created_lock few in
      let has : Holds (s.pc i) t = subst (λ (p : Stand). Holds p t) (sym e) refl in
      let mine = inv.owner i t has in
      let lt : t < s.raw.head =
        (subst (IsPlaced inv.served s.raw.head s.raw.next) e (inv.placed i)).1 in
      let kept = run_turns-kept (joined rounds) s t inv fits lt in
      let line =
        rounds-rank n t rounds s s' inv inv' (sym at) fits lt
          (run_turns-IsWithin n turns (fresh raw) below (λ j le. refl)) fair in
      let now = rank-entered s inv in
      let later = rank-entered s' inv' in
      let count : length s.entered ≡ inv.served + inv.busy =
        ap length inv.log ∙ length-firsts s.drew (inv.served + inv.busy) in
      let reached : 3 * t + 1 ≤ rank s' inv' = elim line [
        | inl r ↦ omega (arith, now.1, count)
        | inr r ↦ r
      ] in
      (
        inv'.served + inv'.busy,
        inv'.log,
        omega (arith, later.0),
        ap (λ (r : LockState). r.drew t) at ∙ kept.1 ∙ mine,
      )
