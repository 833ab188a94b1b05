-- ===== src/Scheduler/Priority/Sorted.antt =====
-- A `std::priority_queue` as a list from which the greatest block is taken.
use kupl.Prelude.{
  ℕ, suc, ◌+◌, ◌≡◌, ◌≢◌, refl, arith, List, [], ◌∷◌, length, if◌then◌else◌, Bool-cases, inl, inr,
  ap,
}
use kupl.Prelude.Int.{ltb_ℤ, ◌≤ℤ◌}
use kupl.Scheduler.{Tb, no_tb, one}
use kupl.Scheduler.Tally.{tally}
use kupl.Scheduler.Priority.{Heap, IsHeap, AllBelow}

abbrev greater : Tb → Tb → Tb
greater tb u = if ltb_ℤ tb.priority u.priority then u else tb

abbrev lesser : Tb → Tb → Tb
lesser tb u = if ltb_ℤ tb.priority u.priority then tb else u

-- The greatest of a block and a list, and the others.
abbrev select : Tb → List Tb → Tb × List Tb
select tb [] = (tb, [])
select tb (u ∷ us) = let (best, others) = select (greater tb u) us in (best, lesser tb u ∷ others)

abbrev best : List Tb → Tb
best [] = no_tb
best (tb ∷ tbs) = (select tb tbs).0

abbrev others : List Tb → List Tb
others [] = []
others (tb ∷ tbs) = (select tb tbs).1

abbrev pub list_heap : Heap (List Tb)
list_heap = record {
  fresh = [];
  push = λ h tb. tb ∷ h;
  top = best;
  pop = others;
  size = length;
  items = λ h. h;
}

pair_same : (k : ℕ) (tb u : Tb) → one k tb + one k u ≡ one k (greater tb u) + one k (lesser tb u)
pair_same k tb u = elim (Bool-cases (ltb_ℤ tb.priority u.priority)) [
  | inl e ↦ rw e (omega arith)
  | inr e ↦ rw e refl
]

pair_order : (tb u : Tb) → (lesser tb u).priority ≤ℤ (greater tb u).priority
pair_order tb u = elim (Bool-cases (ltb_ℤ tb.priority u.priority)) [
  | inl e ↦ rw e (ground (arith, e))
  | inr e ↦ rw e (ground (arith, e))
]

select-tally :
    (k : ℕ) (tb : Tb) (us : List Tb)
    → one k tb + tally k us ≡ one k (select tb us).0 + tally k (select tb us).1
select-tally k tb [] = refl
select-tally k tb (u ∷ us) = omega (arith, pair_same k tb u, select-tally k (greater tb u) us)

select-length : (tb : Tb) (us : List Tb) → length (select tb us).1 ≡ length us
select-length tb [] = refl
select-length tb (u ∷ us) = ap suc (select-length (greater tb u) us)

select_above : (tb : Tb) (us : List Tb) → tb.priority ≤ℤ (select tb us).0.priority
select_above tb [] = omega arith
select_above tb (u ∷ us) =
    let up : tb.priority ≤ℤ (greater tb u).priority =
      elim (Bool-cases (ltb_ℤ tb.priority u.priority)) [
        | inl e ↦ rw e (ground (arith, e))
        | inr e ↦ rw e (omega arith)
      ] in
    omega (arith, up, select_above (greater tb u) us)

select-AllBelow : (tb : Tb) (us : List Tb) → AllBelow (select tb us).0 (select tb us).1
select-AllBelow tb [] = tt
select-AllBelow tb (u ∷ us) = (
  omega (arith, pair_order tb u, select_above (greater tb u) us),
  select-AllBelow (greater tb u) us,
)

pub list_heap-IsHeap : IsHeap list_heap
list_heap-IsHeap = record {
  fresh_items = refl;
  size_items = λ h. refl;
  push_size = λ h tb. refl;
  push_items = λ h tb k. refl;
  top_items = tallies;
  pop_size = lengths;
  top_greatest = below;
}
  where
    tallies : (h : List Tb) (k : ℕ) → length h ≢ 0 → tally k h ≡ one k (best h) + tally k (others h)
    tallies [] k ne = absurd (ne refl)
    tallies (tb ∷ tbs) k ne = select-tally k tb tbs

    lengths : (h : List Tb) → length h ≢ 0 → suc (length (others h)) ≡ length h
    lengths [] ne = absurd (ne refl)
    lengths (tb ∷ tbs) ne = ap suc (select-length tb tbs)

    below : (h : List Tb) → length h ≢ 0 → AllBelow (best h) (others h)
    below [] ne = absurd (ne refl)
    below (tb ∷ tbs) ne = select-AllBelow tb tbs
