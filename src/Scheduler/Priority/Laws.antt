-- ===== src/Scheduler/Priority/Laws.antt =====
-- The priority queue hands out the greatest of the blocks that it has ordered, and loses none.
use kupl.Prelude.{
  ℕ, zero, suc, ◌+◌, ◌≤◌, ◌<◌, ◌≡◌, ◌⊎◌, refl, sym, ap, ◌∙◌, arith, [], ◌∷◌, length, Bool, true,
  false, ◌&&◌, ltb, leb, ◌==◌, if◌then◌else◌, Option, none, some, inl, inr, Bool-cases, ℕ_discrete,
}
use kupl.Vector.{Vector, kupl_vector_empty}
use kupl.Vector.Slots.{length-collect}
use kupl.Vector.Refine.{
  IsVector, contents, size_of, kupl_vector_push_back-contents, kupl_vector_empty-contents,
}
use kupl.Vector.Macros.{
  kupl_vector_push_back_macro_lem, kupl_vector_empty_macro, kupl_vector_front_macro,
  kupl_vector_pop_front_macro-contents,
}
use kupl.Scheduler.{Tb, one, taken}
use kupl.Scheduler.Tally.{tally, tally-append}
use kupl.Scheduler.Queue.Laws.{nil_of}
use kupl.Scheduler.Priority.{
  Heap, IsHeap, AllBelow, PriorityQueue, priority_queue_add_tb, priority_queue_get_tb, move_one,
  move_all, take_top,
}

empty_list : (v : Vector Tb) → IsVector v → kupl_vector_empty_macro v ≡ true → contents v ≡ []
unfolding kupl_vector_empty
empty_list v w e = nil_of (contents v) ((kupl_vector_empty-contents v w).0 e)

module _ {H : Type 0} (heap : Heap H) where
  pub record IsPriority (p : PriorityQueue H) : Type 0 where
    pub vector : IsVector p.spsc
    pub counted : p.tb_cnt ≡ heap.size p.q

  abbrev pub IsPriority? : Option (PriorityQueue H) → Type 0
  IsPriority? none = Unit
  IsPriority? (some p) = IsPriority p

  abbrev in_queue : ℕ → PriorityQueue H → ℕ
  in_queue k p = tally k (heap.items p.q) + tally k (contents p.spsc)

  abbrev pub held : ℕ → Option (PriorityQueue H) → ℕ
  held k none = 0
  held k (some p) = in_queue k p

  pub priority_queue_add_tb-held :
      (p : Option (PriorityQueue H)) (tb : Tb)
      → IsPriority? p
      → let (p', ok) = priority_queue_add_tb heap p tb in
        IsPriority? p' × ((k : ℕ) → held k p' ≡ (if ok then one k tb else 0) + held k p)
  unfolding priority_queue_add_tb
  priority_queue_add_tb-held none tb w = (tt, λ k. refl)
  priority_queue_add_tb-held (some p) tb w =
      let (v, ok, list) = kupl_vector_push_back-contents p.spsc tb w.vector in
      rw (kupl_vector_push_back_macro_lem p.spsc tb) (
        record { vector = v; counted = w.counted },
        λ k. elim (Bool-cases (ltb (length (contents p.spsc) + 1) p.spsc.capacity)) [
          | inl room ↦
              rw (list, ok, room) (omega (arith, tally-append k (contents p.spsc) (tb ∷ [])))
          | inr full ↦ rw (list, ok, full) (omega arith)
        ],
      )

or_else : {X Y Z : Type 0} → (Y → Z) → X ⊎ Y → X ⊎ Z
or_else f (inl x) = inl x
or_else f (inr y) = inr (f y)

and_true : (a b : Bool) → (a && b) ≡ true → b ≡ true
and_true true b h = h
and_true false b h = absurd (ground arith)

module _ {H : Type 0} (heap : Heap H) (laws : IsHeap heap) where
  -- What the loop has done when it ends.
  record Moved (p p' : PriorityQueue H) : Type 0 where
    vector : IsVector p'.spsc
    same : (k : ℕ) → in_queue heap k p' ≡ in_queue heap k p
    size_kept : p'.size ≡ p.size
    done : (contents p'.spsc ≡ []) ⊎ (p.size ≤ heap.size p'.q)

  move_all-Moved :
      (fuel : ℕ) (p : PriorityQueue H)
      → IsVector p.spsc
      → length (contents p.spsc) < fuel
      → (p' : PriorityQueue H) × (move_all heap fuel p ≡ some p') × Moved p p'
  unfolding move_all
  move_all-Moved zero p w h = absurd (omega arith)
  move_all-Moved (suc fuel) p w h = elim (Bool-cases (kupl_vector_empty_macro p.spsc)) [
    | inl e ↦ (
      p,
      rw e refl,
      record { vector = w; same = λ k. refl; size_kept = refl; done = inl (empty_list p.spsc w e) },
    )
    | inr e ↦ elim (Bool-cases (leb p.size (heap.size p.q))) [
      | inl full ↦ (
        p,
        rw (e, full) refl,
        record {
          vector = w;
          same = λ k. refl;
          size_kept = refl;
          done = inr (ground (arith, full));
        },
      )
      | inr room ↦
          let (w', split) = kupl_vector_pop_front_macro-contents p.spsc w e in
          let (p', out, m) =
            move_all-Moved fuel (move_one heap p) w' (omega (arith, ap length split)) in
          (
            p',
            rw (e, room) out,
            record {
              vector = m.vector;
              same = λ k.
                  m.same k
                  ∙ omega (
                    arith,
                    laws.push_items p.q (kupl_vector_front_macro p.spsc) k,
                    ap (tally k) split,
                  );
              size_kept = m.size_kept;
              done = m.done;
            },
          )
    ]
  ]

  -- No other block that is ordered comes before the one that is taken, and blocks wait in the vector
  -- only if the heap was full.
  abbrev pub IsFirst : PriorityQueue H → Option Tb → Type 0
  IsFirst p' none = (contents p'.spsc ≡ []) ⊎ (p'.size ≤ heap.size p'.q)
  IsFirst p' (some tb) =
      AllBelow tb (heap.items p'.q) × ((contents p'.spsc ≡ []) ⊎ (p'.size ≤ suc (heap.size p'.q)))

  abbrev pub IsFirst? : Option (PriorityQueue H) → Option Tb → Type 0
  IsFirst? none tb = tb ≡ none
  IsFirst? (some p') tb = IsFirst p' tb

  record Taken (p : PriorityQueue H) (out : Option (PriorityQueue H) × Option Tb) : Type 0 where
    valid : IsPriority? heap out.0
    same : (k : ℕ) → in_queue heap k p ≡ taken k out.1 + held heap k out.0
    order : IsFirst? out.0 out.1

  take_top-Taken : (p p' : PriorityQueue H) → Moved p p' → Taken p (take_top heap p')
  unfolding take_top
  take_top-Taken p p' m = elim (ℕ_discrete (heap.size p'.q) 0) [
    | yes z ↦
        let e : (heap.size p'.q == 0) ≡ true = ground (arith, z) in
        rw e (record {
          valid = record { vector = m.vector; counted = sym z };
          same = λ k. omega (arith, m.same k);
          order = or_else (λ le. omega (arith, m.size_kept)) m.done;
        })
    | no nz ↦
        let e : (heap.size p'.q == 0) ≡ false = ground (arith, nz) in
        rw e (record {
          valid = record { vector = m.vector; counted = refl };
          same = λ k. omega (arith, m.same k, laws.top_items p'.q k nz);
          order = (
            laws.top_greatest p'.q nz,
            or_else (λ le. omega (arith, m.size_kept, laws.pop_size p'.q nz)) m.done,
          );
        })
  ]

  -- For a null pointer or a well-formed priority queue: getting a block ends. The block was held
  -- and is held once less; none of the others that are ordered has a greater priority, and there
  -- are others that are not ordered only if the heap was full.
  pub priority_queue_get_tb-order :
      (p : Option (PriorityQueue H))
      → IsPriority? heap p
      → (p' : Option (PriorityQueue H)) × (tb : Option Tb) × (priority_queue_get_tb heap p
          ≡ some (p', tb))
        × IsPriority? heap p'
        × ((k : ℕ) → held heap k p ≡ taken k tb + held heap k p')
        × IsFirst? p' tb
  unfolding priority_queue_get_tb
  priority_queue_get_tb-order none w = (none, none, refl, tt, λ k. refl, refl)
  priority_queue_get_tb-order (some p) w =
      elim (Bool-cases (leb p.tb_cnt 0 && kupl_vector_empty_macro p.spsc)) [
        | inl nothing ↦ (
          some p,
          none,
          rw nothing refl,
          w,
          λ k. omega arith,
          inl (empty_list p.spsc w.vector (and_true (leb p.tb_cnt 0) _ nothing)),
        )
        | inr something ↦
            let (p', moved, m) = move_all-Moved (suc (size_of p.spsc)) p w.vector (
              omega (
                arith,
                length-collect p.spsc.buffer p.spsc.capacity p.spsc.head (size_of p.spsc),
              )) in
            let t = take_top-Taken p p' m in
            let out = take_top heap p' in
            (out.0, out.1, rw (something, moved) refl, t.valid, t.same, t.order)
      ]
