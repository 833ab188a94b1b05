-- ===== src/Vector.antt =====
-- `kupl_vector_t` of src/tools/struct/kupl_vector.h and src/tools/struct/kupl_vector.cpp, a ring of
-- fixed capacity. `head` and `tail` are `size_t`s that only grow, and wrap around at 2^64.
-- The pointers are not null: the functions return KUPL_ERROR or 0 at once on a null pointer.
pub mod Slots
pub mod Refine
pub mod Create
pub mod Macros
pub mod Tests
use kupl.Prelude.{
  ℕ, zero, suc, ◌+◌, ◌-◌, ◌*◌, ◌/◌, ◌%◌, ◌^◌, Bool, true, false, ◌||◌, not, ltb, leb, ◌==◌,
  if◌then◌else◌, update, Option, none, some,
}

abbrev pub size_range : ℕ
size_range = 2 ^ 64

abbrev pub size_max : ℕ
size_max = 2 ^ 64 - 1

-- `a - b` on `size_t`.
abbrev pub sub_size : ℕ → ℕ → ℕ
sub_size a b = (a + size_range - b) % size_range

-- `buffer` is `data`, by slots of `elem_size` bytes.
pub record Vector (A : Type 0) : Type 0 where
  pub head : ℕ
  pub tail : ℕ
  pub capacity : ℕ
  pub elem_size : ℕ
  pub buffer : ℕ → A

-- `sizeof(kupl_vector_t)`: six words.
abbrev pub sizeof_vector : ℕ
sizeof_vector = 48

-- `while (actual_capacity < capacity) actual_capacity <<= 1;`, with fuel. `none`: the fuel ran out.
unfoldable pub grow : ℕ → ℕ → ℕ → Option ℕ
grow zero capacity actual_capacity = none
grow (suc fuel) capacity actual_capacity =
    let rest = grow fuel capacity (actual_capacity * 2 % size_range) in
    if ltb actual_capacity capacity then rest else some actual_capacity

abbrev pub empty_vector : {A : Type 0} → A → ℕ → ℕ → Vector A
empty_vector blank capacity elem_size = record {
  head = 0;
  tail = 0;
  capacity = capacity;
  elem_size = elem_size;
  buffer = λ i. blank;
}

-- What follows the loop. `none` is a null pointer; `kupl_calloc` says whether there is memory.
abbrev pub allocate : {A : Type 0} → (ℕ → Bool) → A → ℕ → ℕ → Option (Vector A)
allocate kupl_calloc blank elem_size actual_capacity =
    if ltb ((size_max - sizeof_vector) / actual_capacity) elem_size
    then none
    else if not (kupl_calloc (sizeof_vector + elem_size * actual_capacity))
    then none
    else some (empty_vector blank actual_capacity elem_size)

-- Sixty-four rounds; `blank` is a slot of zeroed bytes. `none`: the loop has not ended.
unfoldable pub kupl_vector_create :
    {A : Type 0} → (ℕ → Bool) → A → ℕ → ℕ → Option (Option (Vector A))
kupl_vector_create kupl_calloc blank capacity elem_size =
    if elem_size == 0 then some none else elim (grow 64 capacity 1) [
      | none ↦ none
      | some actual_capacity ↦ some (allocate kupl_calloc blank elem_size actual_capacity)
    ]

module _ {A : Type 0} where
  unfoldable pub kupl_vector_empty : Vector A → Bool
  kupl_vector_empty v = v.head == v.tail

  unfoldable pub kupl_vector_size : Vector A → ℕ
  kupl_vector_size v = sub_size v.tail v.head

  -- The vector, and whether the result is KUPL_OK.
  unfoldable pub kupl_vector_push_back : Vector A → A → Vector A × Bool
  kupl_vector_push_back v elem =
      if leb v.capacity ((sub_size v.tail v.head + 1) % size_range)
      then (v, false)
      else (let push_index = v.tail % v.capacity in
          (
            record v { buffer = update v.buffer push_index elem; tail = (v.tail + 1) % size_range },
            true,
          ))

  unfoldable pub kupl_vector_pop_front : Vector A → Vector A
  kupl_vector_pop_front v =
      if v.head == v.tail then v else (record v { head = (v.head + 1) % size_range })

  -- The element that is copied out; `none` is KUPL_ERROR.
  unfoldable pub kupl_vector_get : Vector A → ℕ → Option A
  unfolding kupl_vector_size
  kupl_vector_get v idx =
      if leb (kupl_vector_size v) idx
      then none
      else (let index = (v.head + idx) % size_range % v.capacity in some (v.buffer index))

  unfoldable pub kupl_vector_set : Vector A → ℕ → A → Vector A × Bool
  unfolding kupl_vector_size
  kupl_vector_set v idx elem =
      if leb (kupl_vector_size v) idx
      then (v, false)
      else (let index = (v.head + idx) % size_range % v.capacity in
          (record v { buffer = update v.buffer index elem }, true))

  unfoldable pub kupl_vector_front : Vector A → Option A
  unfolding kupl_vector_get
  kupl_vector_front v = if leb v.tail v.head then none else kupl_vector_get v 0

  unfoldable pub kupl_vector_back : Vector A → Option A
  unfolding kupl_vector_get
  kupl_vector_back v =
      if leb v.tail v.head
      then none
      else (let tail_index = v.tail - v.head - 1 in kupl_vector_get v tail_index)
