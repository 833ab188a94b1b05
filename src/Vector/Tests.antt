-- ===== src/Vector/Tests.antt =====
-- A ring of four slots, and one that cannot be made.
use kupl.Prelude.{
  ltb, ℕ, ◌+◌, ◌^◌, ◌≡◌, refl, ◌⊎◌, arith, [], ◌∷◌, ◌++◌, length, none, some, Bool, true,
  if◌then◌else◌, ◌==◌,
}
use native.Mathlib.Nat.{dvd-mul_right}
use kupl.Vector.{Vector, grow, kupl_vector_create, kupl_vector_push_back}
use kupl.Vector.Refine.{IsVector, contents, kupl_vector_push_back-contents}
use kupl.Vector.Create.{IsNew, grow-stuck, kupl_vector_create-IsNew}

-- Slots 3 and 0 hold 30 and 40; the counters have gone round.
abbrev round : Vector ℕ
round = record {
  head = 7;
  tail = 9;
  capacity = 4;
  elem_size = 8;
  buffer = λ i. if i == 3 then 30 else if i == 0 then 40 else 0;
}

round-IsVector : IsVector round
round-IsVector = record {
  divides = dvd-mul_right 4 (2 ^ 62);
  fits = omega arith;
  heads = omega arith;
  tails = omega arith;
  room = omega arith;
}

round-contents : contents round ≡ 30 ∷ 40 ∷ []
round-contents = refl

kupl_vector_push_back-contents_example :
    let (v, ok) = kupl_vector_push_back round 50 in
    let free = ltb (length (contents round) + 1) 4 in
    IsVector v
    × (ok ≡ free)
    × (contents v ≡ (if free then contents round ++ (50 ∷ []) else contents round))
kupl_vector_push_back-contents_example = kupl_vector_push_back-contents round 50 round-IsVector

abbrev blank : ℕ
blank = 0

abbrev plenty : ℕ → Bool
plenty n = true

kupl_vector_create-IsNew_example :
    (kupl_vector_create plenty blank 3 8 ≡ some none)
    ⊎ ((v : Vector ℕ) × (kupl_vector_create plenty blank 3 8 ≡ some (some v)) × IsNew 3 v)
kupl_vector_create-IsNew_example =
    kupl_vector_create-IsNew plenty blank 3 8 (omega arith) (omega arith)

grow-stuck_example : grow 100 (2 ^ 63 + 1) 1 ≡ none
grow-stuck_example = grow-stuck 100 (2 ^ 63 + 1) (omega arith)
