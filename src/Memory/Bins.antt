-- ===== src/Memory/Bins.antt =====
-- The binary search of `kupl_get_bin_index` ends, at the last class that a size reaches.
use kupl.Prelude.{
  ℕ, zero, suc, ◌+◌, ◌-◌, ◌/◌, ◌≤◌, ◌<◌, arith, ◌&&◌, ltb, leb, inl, inr, List, [], ◌∷◌, get_or,
  length, Bool-cases, dec_lt,
}
use kupl.Memory.{g_memory_bin_size, mem_bins_total, bin_loop, bin_answer, kupl_get_bin_index}

abbrev pub IsAscending : List ℕ → ℕ → Type 0
IsAscending bins n = (i j : ℕ) → i ≤ j → j < n → get_or bins i 0 ≤ get_or bins j 0

abbrev IsChain : List ℕ → Type 0
IsChain [] = Unit
IsChain (a ∷ []) = Unit
IsChain (a ∷ b ∷ xs) = (a ≤ b) × IsChain (b ∷ xs)

chain-first :
    (a : ℕ) (xs : List ℕ) (j : ℕ) → IsChain (a ∷ xs) → j < suc (length xs) → a ≤ get_or (a ∷ xs) j 0
chain-first a xs zero c lt = omega arith
chain-first a [] (suc j) c lt = absurd (omega arith)
chain-first a (b ∷ xs) (suc j) c lt = omega (arith, chain-first b xs j c.1 (omega arith), c.0)

chain-IsAscending : (xs : List ℕ) → IsChain xs → IsAscending xs (length xs)
chain-IsAscending [] c i j le lt = absurd (omega arith)
chain-IsAscending (a ∷ xs) c zero j le lt = chain-first a xs j c (omega arith)
chain-IsAscending (a ∷ xs) c (suc i) zero le lt = absurd (omega arith)
chain-IsAscending (a ∷ []) c (suc i) (suc j) le lt = absurd (omega arith)
chain-IsAscending (a ∷ b ∷ xs) c (suc i) (suc j) le lt =
    chain-IsAscending (b ∷ xs) c.1 i j (omega arith) (omega arith)

pub memory_bins-IsAscending : IsAscending g_memory_bin_size mem_bins_total
memory_bins-IsAscending = chain-IsAscending g_memory_bin_size (omega arith)

module _ (size n : ℕ) (bins : List ℕ) (up : IsAscending bins n) where
  -- The class of the size is between `low` and `high`.
  abbrev IsBetween : ℕ × ℕ → Type 0
  IsBetween (low, high) =
      (low ≤ high)
      × (high < n)
      × (get_or bins low 0 ≤ size)
      × ((j : ℕ) → high < j → j < n → size < get_or bins j 0)

  loop_end :
      (fuel low high : ℕ)
      → high < low + fuel
      → IsBetween (low, high)
      → let out = bin_loop fuel size bins low high in IsBetween out × (out.1 ≤ out.0 + 1)
  unfolding bin_loop
  loop_end zero low high enough b = absurd (omega arith)
  loop_end (suc fuel) low high enough b = elim (Bool-cases (ltb 1 (high - low))) [
    | inr stop ↦ rw stop (b, ground arith)
    | inl more ↦ rw more (elim (Bool-cases (ltb size (get_or bins ((high + low) / 2) 0))) [
      | inl less ↦ rw less (
          loop_end fuel low ((high + low) / 2 - 1) (ground arith) (
            ground arith,
            ground arith,
            b.2,
            λ j gt lt. ground (arith, up ((high + low) / 2) j (omega arith) lt),
          ))
      | inr ge ↦ rw ge (
          loop_end fuel ((high + low) / 2) high (ground arith)
            (ground arith, b.1, ground arith, b.3))
    ])
  ]

  answer_between :
      (out : ℕ × ℕ)
      → IsBetween out
      → out.1 ≤ out.0 + 1
      → (bin_answer size bins out < n)
        × (get_or bins (bin_answer size bins out) 0 ≤ size)
        × ((j : ℕ) → bin_answer size bins out < j → j < n → size < get_or bins j 0)
  unfolding bin_answer
  answer_between (low, high) b last =
      elim (Bool-cases (ltb low high && leb (get_or bins high 0) size)) [
        | inl e ↦ rw e (b.1, ground arith, b.3)
        | inr e ↦ rw e (
          omega arith,
          b.2,
          λ j gt lt. elim (dec_lt high j) [
            | yes past ↦ b.3 j past lt
            | no here ↦ ground (arith, up high j)
          ],
        )
      ]

-- For ascending classes whose first is not above the size: the binary search gives the last
-- class that is not above the size.
pub kupl_get_bin_index-last :
    (size n : ℕ) (bins : List ℕ)
    → 0 < n
    → IsAscending bins n
    → get_or bins 0 0 ≤ size
    → (kupl_get_bin_index size bins n < n)
      × (get_or bins (kupl_get_bin_index size bins n) 0 ≤ size)
      × ((j : ℕ) → kupl_get_bin_index size bins n < j → j < n → size < get_or bins j 0)
unfolding kupl_get_bin_index
kupl_get_bin_index-last size n bins some_bin up first =
    let found =
      loop_end size n bins up n 0 (n - 1) (omega arith)
        (omega arith, omega arith, first, λ j gt lt. absurd (omega arith)) in
    answer_between size n bins up (bin_loop n size bins 0 (n - 1)) found.0 found.1
