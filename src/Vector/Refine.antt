-- ===== src/Vector/Refine.antt =====
-- The ring of src/tools/struct/kupl_vector.h is a list of bounded length.
use native.Mathlib.Nat.{mod-mod_of_dvd}
use Prim.Native.Nat.{◌∣◌}
use kupl.Prelude.{
  ltb, ℕ, zero, suc, ◌+◌, ◌-◌, ◌%◌, ◌≤◌, ◌<◌, ◌≡◌, refl, sym, ap, ◌∙◌, ◌≢◌, ◌↔◌, arith, List, [],
  ◌∷◌, ◌++◌, length, drop, get_elem?, set, none, some, true, false, update, leb, ◌==◌,
  if◌then◌else◌, dec_lt, ℕ_discrete,
}
use kupl.Vector.Slots.{
  collect, collect-same, collect-push, length-collect, get_elem?-collect, get_elem?-past, slot_wrap,
  collect-update,
}
use kupl.Vector.{
  size_range, sub_size, Vector, kupl_vector_empty, kupl_vector_size, kupl_vector_push_back,
  kupl_vector_pop_front, kupl_vector_get, kupl_vector_set, kupl_vector_front, kupl_vector_back,
}

module _ {A : Type 0} where
  -- A capacity that divides the range of `size_t`, with one slot kept free.
  pub record IsVector (v : Vector A) : Type 0 where
    pub divides : v.capacity ∣ size_range
    pub fits : v.capacity < size_range
    pub heads : v.head < size_range
    pub tails : v.tail < size_range
    pub room : sub_size v.tail v.head < v.capacity

  abbrev pub size_of : Vector A → ℕ
  size_of v = sub_size v.tail v.head

  -- What the vector stands for.
  abbrev pub contents : Vector A → List A
  contents v = collect v.buffer v.capacity v.head (size_of v)

  tail_slot : (v : Vector A) → IsVector v → v.tail % v.capacity ≡ (v.head + size_of v) % v.capacity
  tail_slot v w =
      let e : v.tail ≡ (v.head + size_of v) % size_range = omega (arith, w.heads, w.tails) in
      ap (λ k. k % v.capacity) e ∙ mod-mod_of_dvd v.capacity (v.head + size_of v) w.divides

  size_pushed :
      (v : Vector A)
      → IsVector v
      → size_of v + 1 < v.capacity
      → sub_size ((v.tail + 1) % size_range) v.head ≡ suc (size_of v)
  size_pushed v w h = omega (arith, w.heads, w.tails, w.fits)

  pub size_popped :
      (v : Vector A)
      → IsVector v
      → v.head ≢ v.tail
      → suc (sub_size v.tail ((v.head + 1) % size_range)) ≡ size_of v
  size_popped v w h = omega (arith, w.heads, w.tails, w.fits)

  pub pushed :
      (v : Vector A) (x : A)
      → IsVector v
      → size_of v + 1 < v.capacity
      → let v' : Vector A = record v {
        buffer = update v.buffer (v.tail % v.capacity) x;
        tail = (v.tail + 1) % size_range;
      } in
        IsVector v' × (contents v' ≡ contents v ++ (x ∷ []))
  pushed v x w h = (
    record {
      divides = w.divides;
      fits = w.fits;
      heads = w.heads;
      tails = omega arith;
      room = omega (arith, size_pushed v w h);
    },
    ap (collect (update v.buffer (v.tail % v.capacity) x) v.capacity v.head) (size_pushed v w h)
        ∙ collect-push v.buffer v.capacity v.head (size_of v) v.tail x w.room (tail_slot v w),
  )

  small : (v : Vector A) → IsVector v → (size_of v + 1) % size_range ≡ size_of v + 1
  small v w = omega (arith, w.room, w.fits)

  -- For a well-formed vector: pushing an element on a vector with more than one free slot
  -- succeeds and appends it, and on any other it fails and keeps the elements; either way the
  -- vector stays well-formed.
  pub kupl_vector_push_back-contents :
      (v : Vector A) (x : A)
      → IsVector v
      → let (v', ok) = kupl_vector_push_back v x in
        let free = ltb (length (contents v) + 1) v.capacity in
        IsVector v'
        × (ok ≡ free)
        × (contents v' ≡ (if free then contents v ++ (x ∷ []) else contents v))
  unfolding kupl_vector_push_back
  kupl_vector_push_back-contents v x w =
      let len = length-collect v.buffer v.capacity v.head (size_of v) in
      elim (dec_lt (size_of v + 1) v.capacity) [
        | yes lt ↦
            let free : leb v.capacity ((size_of v + 1) % size_range) ≡ false =
              ground (arith, small v w) in
            let free' : ltb (length (contents v) + 1) v.capacity ≡ true = ground (arith, len) in
            rw (free, free') ((pushed v x w lt).0, refl, (pushed v x w lt).1)
        | no ge ↦
            let full : leb v.capacity ((size_of v + 1) % size_range) ≡ true =
              ground (arith, small v w) in
            let full' : ltb (length (contents v) + 1) v.capacity ≡ false = ground (arith, len) in
            rw (full, full') (w, refl, refl)
      ]

  drop_none : (d : ℕ → A) (c h n : ℕ) → n ≡ 0 → collect d c h n ≡ drop 1 (collect d c h n)
  drop_none d c h zero e = refl
  drop_none d c h (suc n) e = absurd (omega arith)

  drop_first :
      (d : ℕ → A) (c h n m : ℕ)
      → c ∣ size_range
      → suc m ≡ n
      → collect d c ((h + 1) % size_range) m ≡ drop 1 (collect d c h n)
  drop_first d c h n m divides e = rw (← e) (
      collect-same d d c ((h + 1) % size_range) (suc h) m
        (λ i lt. ap d (slot_wrap c size_range (h + 1) i divides ∙ ap (λ k. k % c) (omega arith))))

  pub first_of :
      (d : ℕ → A) (c h n m : ℕ)
      → c ∣ size_range
      → suc m ≡ n
      → collect d c h n ≡ d (h % c) ∷ collect d c ((h + 1) % size_range) m
  first_of d c h n m divides e = rw (drop_first d c h n m divides e) (rw (← e) refl)

  -- For a well-formed vector: popping drops the first element, if there is one, and the vector
  -- stays well-formed.
  pub kupl_vector_pop_front-contents :
      (v : Vector A)
      → IsVector v
      → IsVector (kupl_vector_pop_front v)
        × (contents (kupl_vector_pop_front v) ≡ drop 1 (contents v))
  unfolding kupl_vector_pop_front
  kupl_vector_pop_front-contents v w = elim (ℕ_discrete v.head v.tail) [
    | yes e ↦
        let none_left : (v.head == v.tail) ≡ true = ground (arith, e) in
        rw none_left
          (w, drop_none v.buffer v.capacity v.head (size_of v) (omega (arith, e, w.heads)))
    | no ne ↦
        let some_left : (v.head == v.tail) ≡ false = ground (arith, ne) in
        rw some_left (
          record {
            divides = w.divides;
            fits = w.fits;
            heads = omega arith;
            tails = w.tails;
            room = omega (arith, size_popped v w ne, w.room);
          },
          drop_first v.buffer v.capacity v.head (size_of v) _ w.divides (size_popped v w ne),
        )
  ]

  -- For a well-formed vector: reading by index is reading the list of its elements, and fails
  -- beyond it.
  pub kupl_vector_get-contents :
      (v : Vector A) (idx : ℕ) → IsVector v → kupl_vector_get v idx ≡ get_elem? (contents v) idx
  unfolding kupl_vector_get kupl_vector_size
  kupl_vector_get-contents v idx w =
      let len = length-collect v.buffer v.capacity v.head (size_of v) in
      elim (dec_lt idx (size_of v)) [
        | yes lt ↦
            let inside : leb (size_of v) idx ≡ false = ground arith in
            rw inside (
              ap (λ k. some (v.buffer k)) (mod-mod_of_dvd v.capacity (v.head + idx) w.divides)
              ∙ sym (get_elem?-collect v.buffer v.capacity v.head (size_of v) idx lt))
        | no ge ↦
            let out : leb (size_of v) idx ≡ true = ground arith in
            rw out (sym (get_elem?-past (contents v) idx (omega (arith, len))))
      ]

  -- For a well-formed vector: writing at an index of an element writes the list of elements
  -- there, and any other index fails and keeps the elements; either way the vector stays well-
  -- formed.
  pub kupl_vector_set-contents :
      (v : Vector A) (idx : ℕ) (x : A)
      → IsVector v
      → let (v', ok) = kupl_vector_set v idx x in
        let inside = ltb idx (length (contents v)) in
        IsVector v'
        × (ok ≡ inside)
        × (contents v' ≡ (if inside then set (contents v) idx x else contents v))
  unfolding kupl_vector_set kupl_vector_size
  kupl_vector_set-contents v idx x w =
      let len = length-collect v.buffer v.capacity v.head (size_of v) in
      elim (dec_lt idx (size_of v)) [
        | yes lt ↦
            let inside : leb (size_of v) idx ≡ false = ground arith in
            let inside' : ltb idx (length (contents v)) ≡ true = ground (arith, len) in
            rw (inside, inside')
              (
                record {
                  divides = w.divides;
                  fits = w.fits;
                  heads = w.heads;
                  tails = w.tails;
                  room = w.room;
                },
                refl,
                ap (λ k. collect (update v.buffer k x) v.capacity v.head (size_of v))
                      (mod-mod_of_dvd v.capacity (v.head + idx) w.divides)
                    ∙ collect-update v.buffer v.capacity v.head (size_of v) idx x
                        (omega (arith, w.room)) lt,
              )
        | no ge ↦
            let out : leb (size_of v) idx ≡ true = ground arith in
            let out' : ltb idx (length (contents v)) ≡ false = ground (arith, len) in
            rw (out, out') (w, refl, refl)
      ]

  -- For a well-formed vector: it is empty exactly if the list of its elements is.
  pub kupl_vector_empty-contents :
      (v : Vector A) → IsVector v → (kupl_vector_empty v ≡ true) ↔ (length (contents v) ≡ 0)
  unfolding kupl_vector_empty
  kupl_vector_empty-contents v w =
      let len = length-collect v.buffer v.capacity v.head (size_of v) in
      (
        λ e. let same : v.head ≡ v.tail = ground (arith, e) in omega (arith, len, w.heads),
        λ e.
            let same : v.head ≡ v.tail = omega (arith, len, w.heads, w.tails) in
            ground (arith, same),
      )

  -- For a well-formed vector whose head is not above its tail: the front is the first element
  -- and the back the last, and both fail if there is none.
  pub kupl_vector_ends-contents :
      (v : Vector A)
      → IsVector v
      → v.head ≤ v.tail
      → (kupl_vector_front v ≡ get_elem? (contents v) 0)
        × (kupl_vector_back v ≡ (
            if length (contents v) == 0
            then none
            else get_elem? (contents v) (length (contents v) - 1)))
  unfolding kupl_vector_front kupl_vector_back
  kupl_vector_ends-contents v w le =
      let len = length-collect v.buffer v.capacity v.head (size_of v) in
      let size : size_of v ≡ v.tail - v.head = omega (arith, w.heads, w.tails) in
      elim (ℕ_discrete v.head v.tail) [
        | yes e ↦
            let none_left : leb v.tail v.head ≡ true = ground (arith, e) in
            let empty : length (contents v) ≡ 0 = omega (arith, len, size, e) in
            let empty' : (length (contents v) == 0) ≡ true = ground (arith, empty) in
            rw (none_left, empty')
              (sym (get_elem?-past (contents v) 0 (omega (arith, empty))), refl)
        | no ne ↦
            let some_left : leb v.tail v.head ≡ false = ground (arith, ne, le) in
            let some' : (length (contents v) == 0) ≡ false = ground (arith, len, size, ne, le) in
            rw (some_left, some')
              (
                kupl_vector_get-contents v 0 w,
                kupl_vector_get-contents v (v.tail - v.head - 1) w
                    ∙ ap (λ n. get_elem? (contents v) (n - 1)) (sym (len ∙ size)),
              )
      ]
