-- ===== src/Scheduler/Sspe/Given.antt =====
-- An executor is given a block only once for each time that it is notified.
use kupl.Prelude.{
  ℕ, ◌+◌, ◌≤◌, ◌≡◌, refl, sym, ap, ◌∙◌, arith, Bool, ◌==◌, ==_iff, if◌then◌else◌, if_cases, Option,
  none, some, List, [], ◌∷◌, get_or, set, update, Bool-cases, inl, inr,
}
use kupl.Prelude.Int.{ℤ, pos_part, eqb_ℤ}
use kupl.Scheduler.{Tb, kupl_executor_default}
use kupl.Scheduler.Sspe.{
  Flag, flag_leave, flag_ready, flag_arrived, is_ready, SchedData, notify, arrive, leave,
  sched_add_tb, sched_get_tb,
}

-- What the threads do, one call at a time.
pub data SspeCall : Type 0 where
  add_tb : Tb → SspeCall
  get_tb : ℤ → SspeCall
  notify_all : List ℕ → SspeCall
  leave_now : ℕ → SspeCall

abbrev counted : Option Tb → ℕ
counted none = 0
counted (some tb) = 1

-- How many blocks executor `e` is given in the course of the calls.
unfoldable pub given : ℕ → List SspeCall → SchedData → ℕ
unfolding sched_get_tb sched_add_tb notify leave
given e [] s = 0
given e (add_tb tb ∷ cs) s = given e cs (sched_add_tb s tb).0
given e (get_tb own_eid ∷ cs) s =
    let (s', r) = sched_get_tb own_eid s in
    (if pos_part own_eid == e then counted r else 0) + given e cs s'
given e (notify_all eids ∷ cs) s = given e cs (record s { flags = notify eids s.flags })
given e (leave_now geid ∷ cs) s = given e cs (record s { flags = leave geid s.flags })

abbrev among : ℕ → List ℕ → ℕ
among e [] = 0
among e (x ∷ xs) = if x == e then 1 else among e xs

-- How many notifications name executor `e`.
abbrev pub notified : ℕ → List SspeCall → ℕ
notified e [] = 0
notified e (add_tb tb ∷ cs) = notified e cs
notified e (get_tb own_eid ∷ cs) = notified e cs
notified e (notify_all eids ∷ cs) = among e eids + notified e cs
notified e (leave_now geid ∷ cs) = notified e cs

abbrev pub waiting : Flag → ℕ
waiting f = if is_ready f then 1 else 0

waiting_bound : (f : Flag) → waiting f ≤ 1
waiting_bound flag_leave = omega arith
waiting_bound flag_ready = omega arith
waiting_bound flag_arrived = omega arith

counted_bound : (r : Option Tb) → counted r ≤ 1
counted_bound none = omega arith
counted_bound (some tb) = omega arith

waiting-update :
    (flags : ℕ → Flag) (i e : ℕ) (f : Flag)
    → waiting (update flags i f e) ≤ (if i == e then waiting f else waiting (flags e))
waiting-update flags i e f = elim (Bool-cases (i == e)) [
  | inl at ↦ rw at (omega arith)
  | inr off ↦ rw off (omega arith)
]

waiting-notify :
    (e : ℕ) (eids : List ℕ) (flags : ℕ → Flag)
    → waiting (notify eids flags e) ≤ among e eids + waiting (flags e)
unfolding notify
waiting-notify e [] flags = omega arith
waiting-notify e (x ∷ eids) flags =
    let rest = waiting-notify e eids (update flags x flag_ready) in
    let now = waiting-update flags x e flag_ready in
    elim (Bool-cases (x == e)) [
      | inl at ↦ rw at (omega (arith, waiting_bound (notify eids (update flags x flag_ready) e)))
      | inr off ↦
          let now' : waiting (update flags x flag_ready e) ≤ waiting (flags e) =
            rw off (omega arith) in
          rw off (omega (arith, rest, now'))
    ]

sched_get_tb-waiting :
    (own_eid : ℤ) (e : ℕ) (s : SchedData)
    → let (s', r) = sched_get_tb own_eid s in
      (if pos_part own_eid == e then counted r else 0) + waiting (s'.flags e) ≤ waiting (s.flags e)
unfolding sched_get_tb arrive
sched_get_tb-waiting own_eid e s =
    let g = pos_part own_eid in
    elim (Bool-cases (eqb_ℤ own_eid kupl_executor_default)) [
      | inl alien ↦ rw alien (elim (Bool-cases (g == e)) [
        | inl at ↦ rw at (omega arith)
        | inr off ↦ rw off (omega arith)
      ])
      | inr own ↦ elim (Bool-cases (is_ready (s.flags g))) [
        | inl ready ↦ elim (Bool-cases (g == e)) [
          | inl at ↦
              let here : waiting (s.flags e) ≡ 1 =
                ap (λ v. waiting (s.flags v)) (sym ((==_iff g e).0 at)) ∙ (rw ready refl) in
              rw (own, ready, at) (omega (arith, here, counted_bound (get_or s.slot g none)))
          | inr off ↦ rw (own, ready, off) (omega arith)
        ]
        | inr closed ↦ elim (Bool-cases (g == e)) [
          | inl at ↦ rw (own, closed, at) (omega arith)
          | inr off ↦ rw (own, closed, off) (omega arith)
        ]
      ]
    ]

waiting-leave : (flags : ℕ → Flag) (g e : ℕ) → waiting (leave g flags e) ≤ waiting (flags e)
unfolding leave
waiting-leave flags g e = elim (Bool-cases (g == e)) [
  | inl at ↦ rw at (omega arith)
  | inr off ↦ rw off (omega arith)
]

-- In any sequence of calls of the threads: the sspe plugin gives an executor at most as many
-- blocks as there are notifications that name it, and one more if it was notified before.
pub given-notified :
    (e : ℕ) (cs : List SspeCall) (s : SchedData)
    → given e cs s ≤ notified e cs + waiting (s.flags e)
unfolding given sched_add_tb
given-notified e [] s = omega arith
given-notified e (add_tb tb ∷ cs) s =
    let rest = given-notified e cs (sched_add_tb s tb).0 in
    if_cases (λ (out : SchedData × Bool). given e cs out.0 ≤ notified e cs + waiting (s.flags e)) _
      _ _ (λ _. given-notified e cs s)
      (λ _.
        given-notified e cs (record s { slot = set s.slot (pos_part tb.executor_id) (some tb) }))
given-notified e (get_tb own_eid ∷ cs) s =
    omega (arith, sched_get_tb-waiting own_eid e s, given-notified e cs (sched_get_tb own_eid s).0)
given-notified e (notify_all eids ∷ cs) s = omega (
  arith,
  waiting-notify e eids s.flags,
  given-notified e cs (record s { flags = notify eids s.flags }),
)
given-notified e (leave_now geid ∷ cs) s =
    let left : waiting (leave geid s.flags e) ≤ waiting (s.flags e) =
      waiting-leave s.flags geid e in
    omega (arith, left, given-notified e cs (record s { flags = leave geid s.flags }))
