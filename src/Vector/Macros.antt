-- ===== src/Vector/Macros.antt =====
-- The macros of src/tools/struct/kupl_vector.h, which the scheduler's queues use. They do not check
-- for null pointers, and the reads do not check that there is an element.
use kupl.Prelude.{
  ℕ, ◌+◌, ◌%◌, ◌≡◌, ◌≢◌, arith, ◌∷◌, Bool, true, false, ltb, leb, dec_lt, ◌==◌, if◌then◌else◌,
  update,
}
use kupl.Vector.{size_range, sub_size, Vector, kupl_vector_push_back}
use kupl.Vector.Refine.{IsVector, contents, size_of, size_popped, first_of}

flip : {B : Type 0} (a b : ℕ) (x y : B) → (if ltb a b then x else y) ≡ (if leb b a then y else x)
flip a b x y = elim (dec_lt a b) [ yes lt ↦ ground arith | no ge ↦ ground arith ]

module _ {A : Type 0} where
  unfoldable pub kupl_vector_push_back_macro : Vector A → A → Vector A × Bool
  kupl_vector_push_back_macro v elem =
      if ltb ((sub_size v.tail v.head + 1) % size_range) v.capacity
      then (let push_idx = v.tail % v.capacity in
          (
            record v { buffer = update v.buffer push_idx elem; tail = (v.tail + 1) % size_range },
            true,
          ))
      else (v, false)

  abbrev pub kupl_vector_front_macro : Vector A → A
  kupl_vector_front_macro v = v.buffer (v.head % v.capacity)

  abbrev pub kupl_vector_back_macro : Vector A → A
  kupl_vector_back_macro v = v.buffer (sub_size v.tail 1 % v.capacity)

  abbrev pub kupl_vector_empty_macro : Vector A → Bool
  kupl_vector_empty_macro v = v.head == v.tail

  abbrev pub kupl_vector_pop_front_macro : Vector A → Vector A
  kupl_vector_pop_front_macro v = record v { head = (v.head + 1) % size_range }

  -- The macro and the function push alike, on any vector.
  pub kupl_vector_push_back_macro_lem :
      (v : Vector A) (x : A) → kupl_vector_push_back_macro v x ≡ kupl_vector_push_back v x
  unfolding kupl_vector_push_back_macro kupl_vector_push_back
  kupl_vector_push_back_macro_lem v x =
      flip ((sub_size v.tail v.head + 1) % size_range) v.capacity _ _

  -- For a well-formed vector that is not empty: the front is the first element, popping leaves the rest, and
  -- the vector stays well-formed.
  pub kupl_vector_pop_front_macro-contents :
      (v : Vector A)
      → IsVector v
      → kupl_vector_empty_macro v ≡ false
      → IsVector (kupl_vector_pop_front_macro v)
        × (contents v ≡ kupl_vector_front_macro v ∷ contents (kupl_vector_pop_front_macro v))
  kupl_vector_pop_front_macro-contents v w h =
      let ne : v.head ≢ v.tail = λ e. ground (arith, h, e) in
      let less = size_popped v w ne in
      (
        record {
          divides = w.divides;
          fits = w.fits;
          heads = omega arith;
          tails = w.tails;
          room = omega (arith, less, w.room);
        },
        first_of v.buffer v.capacity v.head (size_of v) _ w.divides less,
      )
