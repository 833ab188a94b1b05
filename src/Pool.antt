-- ===== src/Pool.antt =====
-- `kupl_pool_t` of src/tools/struct/kupl_pool.h: a ring as `kupl_vector_t` is, without checks.
pub mod Refine
pub mod Tests
use kupl.Prelude.{
  ℕ, zero, suc, ◌+◌, ◌%◌, Bool, ◌==◌, leb, if◌then◌else◌, update, List, [], ◌∷◌, Option, none, some,
}
use kupl.Vector.{size_range, sub_size, Vector, grow, allocate}

-- The fields are those of `kupl_vector_t`.
abbrev pub Pool : Type 0 → Type 0
Pool A = Vector A

-- `none`: the loop has not ended. `some none` is a null pointer.
unfoldable pub kupl_pool_create : {A : Type 0} → (ℕ → Bool) → A → ℕ → ℕ → Option (Option (Pool A))
kupl_pool_create kupl_calloc blank capacity elem_size = elim (grow 64 capacity 1) [
  | none ↦ none
  | some actual_capacity ↦ some (allocate kupl_calloc blank elem_size actual_capacity)
]

module _ {A : Type 0} where
  unfoldable pub kupl_pool_empty : Pool A → Bool
  kupl_pool_empty p = p.head == p.tail

  unfoldable pub kupl_pool_full : Pool A → Bool
  kupl_pool_full p = leb p.capacity ((sub_size p.tail p.head + 1) % size_range)

  unfoldable pub kupl_pool_put : Pool A → A → Pool A
  kupl_pool_put p elem =
      let push_idx = p.tail % p.capacity in
      record p { buffer = update p.buffer push_idx elem; tail = (p.tail + 1) % size_range }

  unfoldable pub kupl_pool_get : Pool A → Pool A × A
  kupl_pool_get p =
      let idx = p.head % p.capacity in (record p { head = (p.head + 1) % size_range }, p.buffer idx)

  abbrev called_first : A → Option (List A) → Option (List A)
  called_first elem none = none
  called_first elem (some rest) = some (elem ∷ rest)

  -- The loop, on fuel: the elements that `_clean` is called with, in order. `none`: the fuel ran out.
  unfoldable pub kupl_pool_cleanup_all : ℕ → Pool A → Option (List A)
  unfolding kupl_pool_empty kupl_pool_get
  kupl_pool_cleanup_all zero p = none
  kupl_pool_cleanup_all (suc fuel) p =
      let (p', elem) = kupl_pool_get p in
      let rest = kupl_pool_cleanup_all fuel p' in
      if kupl_pool_empty p then some [] else called_first elem rest
