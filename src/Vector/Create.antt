-- ===== src/Vector/Create.antt =====
-- `kupl_vector_create` of src/tools/struct/kupl_vector.cpp: how it rounds the capacity up.
use Prim.Native.Nat.{◌∣◌}
use native.Mathlib.Nat.{dvd-mul_right, dvd-mul_right_of_dvd}
use kupl.Prelude.{
  ℕ, zero, suc, ◌+◌, ◌-◌, ◌*◌, ◌/◌, ◌%◌, ◌^◌, ◌≤◌, ◌<◌, ◌≡◌, refl, subst, ◌≢◌, ◌⊎◌, inl, inr, arith,
  Bool, true, false, ltb, not, ◌==◌, if◌then◌else◌, Option, none, some, [], dec_lt,
}
use kupl.Vector.{
  size_range, size_max, sizeof_vector, Vector, grow, allocate, empty_vector, kupl_vector_create,
}
use kupl.Vector.Refine.{IsVector, contents}

power_pos : (j : ℕ) → 0 < 2 ^ j
power_pos zero = omega arith
power_pos (suc j) = omega (arith, power_pos j)

regroup : (a p q n : ℕ) → q ≡ 2 * p → a * q ≡ n → a * 2 * p ≡ n
regroup a p q n e h = grind arith

doubled : (a j : ℕ) → a * 2 ^ suc j ≡ 2 ^ 63 → (a * 2) * 2 ^ j ≡ 2 ^ 63
doubled a j e = regroup a (2 ^ j) (2 ^ suc j) (2 ^ 63) (omega arith) e

le_factor : (a p n : ℕ) → 0 < p → a * p ≡ n → a ≤ n
le_factor a p n h e = grind arith

-- A power of two up to 2^63.
abbrev pub IsPower : ℕ → ℕ → Type 0
IsPower a j = a * 2 ^ j ≡ 2 ^ 63

below : (a j : ℕ) → IsPower a j → a ≤ 2 ^ 63
below a j e = le_factor a (2 ^ j) (2 ^ 63) (power_pos j) e

unwrapped : (a j : ℕ) → IsPower a (suc j) → IsPower (a * 2 % size_range) j
unwrapped a j e =
    let small : a * 2 ≤ 2 ^ 63 = below (a * 2) j (doubled a j e) in
    let same : a * 2 % size_range ≡ a * 2 = omega arith in rw same (doubled a j e)

-- The loop ends within as many rounds as powers are left, at the first one that is enough.
grow-enough :
    (j a capacity : ℕ)
    → IsPower a j
    → capacity ≤ 2 ^ 63
    → (m i : ℕ) × (grow (suc j) capacity a ≡ some m)
      × IsPower m i
      × (capacity ≤ m)
      × ((m ≡ a) ⊎ (m < 2 * capacity))
unfolding grow
grow-enough zero a capacity p h = (a, 0, ground arith, p, omega arith, inl refl)
grow-enough (suc j) a capacity p h =
    let (m, i, e, q, le, bound) = grow-enough j (a * 2 % size_range) capacity (unwrapped a j p) h in
    elim (dec_lt a capacity) [
      | no ge ↦ (a, suc j, ground arith, p, omega arith, inl refl)
      | yes lt ↦
          let same : a * 2 % size_range ≡ a * 2 = omega (arith, below (a * 2) j (doubled a j p)) in
          (m, i, ground (arith, e), q, le, inr (omega (arith, same, bound)))
    ]

-- Above 2^63 the loop has no end: the shift turns 2^63 into 0.
grow-stuck_from :
    (fuel a capacity : ℕ)
    → 2 ^ 63 < capacity
    → (a ≡ 0) ⊎ ((j : ℕ) × IsPower a j)
    → grow fuel capacity a ≡ none
unfolding grow
grow-stuck_from zero a capacity h p = refl
grow-stuck_from (suc fuel) a capacity h (inl z) =
    let rest = grow-stuck_from fuel (a * 2 % size_range) capacity h (inl (omega arith)) in
    ground (arith, rest)
grow-stuck_from (suc fuel) a capacity h (inr (zero, p)) =
    let rest = grow-stuck_from fuel (a * 2 % size_range) capacity h (inl (omega arith)) in
    ground (arith, rest)
grow-stuck_from (suc fuel) a capacity h (inr (suc j, p)) =
    let rest = grow-stuck_from fuel (a * 2 % size_range) capacity h (inr (j, unwrapped a j p)) in
    let under : a < capacity = omega (arith, below a (suc j) p) in ground (arith, rest)

-- For a capacity above 2^63, the loop of `kupl_vector_create` does not end, whatever the
-- number of rounds.
pub grow-stuck : (fuel capacity : ℕ) → 2 ^ 63 < capacity → grow fuel capacity 1 ≡ none
grow-stuck fuel capacity h = grow-stuck_from fuel 1 capacity h (inr (63, refl))

positive : (m i : ℕ) → IsPower m i → 0 < m
positive zero i p = absurd (omega arith)
positive (suc m) i p = omega arith

two_guards :
    {B : Type 0} (b c : Bool) (y : Option B)
    → let out = if b then none else if c then none else y in (out ≡ none) ⊎ (out ≡ y)
two_guards true c y = inl refl
two_guards false true y = inl refl
two_guards false false y = inr refl

divides_range : (m i : ℕ) → IsPower m i → m ∣ size_range
divides_range m i p =
    subst (λ n. m ∣ n) (omega (arith, p)) (dvd-mul_right_of_dvd m (dvd-mul_right m (2 ^ i)) 2)

module _ {A : Type 0} where
  -- What a new vector satisfies.
  pub record IsNew (capacity : ℕ) (v : Vector A) : Type 0 where
    pub valid : IsVector v
    pub empty : contents v ≡ []
    pub enough : capacity ≤ v.capacity
    pub tight : (v.capacity ≡ 1) ⊎ (v.capacity < 2 * capacity)

  empty-IsNew :
      (blank : A) (capacity elem_size m i : ℕ)
      → IsPower m i
      → capacity ≤ m
      → (m ≡ 1) ⊎ (m < 2 * capacity)
      → IsNew capacity (empty_vector blank m elem_size)
  empty-IsNew blank capacity elem_size m i p le bound = record {
    valid = record {
      divides = divides_range m i p;
      fits = omega (arith, below m i p);
      heads = omega arith;
      tails = omega arith;
      room = omega (arith, positive m i p);
    };
    empty = refl;
    enough = le;
    tight = bound;
  }

  allocate-cases :
      (alloc : ℕ → Bool) (blank : A) (elem_size m : ℕ)
      → (allocate alloc blank elem_size m ≡ none)
        ⊎ (allocate alloc blank elem_size m ≡ some (empty_vector blank m elem_size))
  allocate-cases alloc blank elem_size m =
      two_guards (ltb ((size_max - sizeof_vector) / m) elem_size)
        (not (alloc (sizeof_vector + elem_size * m))) (some (empty_vector blank m elem_size))

  -- For an element size that is not 0 and a capacity up to 2^63, sixty-four rounds are enough
  -- for the result: a null pointer, or an empty well-formed vector with at least the capacity
  -- asked for, which is less than twice that or 1.
  pub kupl_vector_create-IsNew :
      (alloc : ℕ → Bool) (blank : A) (capacity elem_size : ℕ)
      → elem_size ≢ 0
      → capacity ≤ 2 ^ 63
      → (kupl_vector_create alloc blank capacity elem_size ≡ some none)
        ⊎ ((v : Vector A) × (kupl_vector_create alloc blank capacity elem_size ≡ some (some v))
            × IsNew capacity v)
  unfolding kupl_vector_create
  kupl_vector_create-IsNew alloc blank capacity elem_size ne h =
      let (m, i, e, p, le, bound) = grow-enough 63 1 capacity refl h in
      let sized : (elem_size == 0) ≡ false = ground (arith, ne) in
      elim (allocate-cases alloc blank elem_size m) [
        | inl null ↦ inl (rw (sized, e, null) refl)
        | inr new ↦ inr (
          empty_vector blank m elem_size,
          rw (sized, e, new) refl,
          empty-IsNew blank capacity elem_size m i p le bound,
        )
      ]
