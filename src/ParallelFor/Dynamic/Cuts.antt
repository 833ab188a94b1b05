-- ===== src/ParallelFor/Dynamic/Cuts.antt =====
-- Where `kupl_dynamic_policy_prepare_common` of src/mt/kupl_parallel_for.cpp puts the counters.
use native.Mathlib.Nat.{div-add-mod, mod-lt}
use kupl.Prelude.{
  ℕ, zero, suc, ◌+◌, ◌*◌, ◌/◌, ◌%◌, ◌≤◌, ◌<◌, min, ◌≡◌, refl, ◌∙◌, List, arith, length, length-set,
  get_or, get_or-set_self, get_or-set_ne, set, dec_lt, ℕ_discrete,
}
use kupl.Prelude.Int.{pos, ◌+ℤ◌, ◌*ℤ◌, ◌/ℤ◌, ◌%ℤ◌, int_laws, *-pos-parts, eq_of_parts}
use kupl.ParallelFor.Range.{AlignedIndex, Pf, kupl_min, kupl_calc_chunk_info}
use kupl.ParallelFor.Static.Piece.{min_pos}
use kupl.ParallelFor.Dynamic.{aligned_index, fill_index, kupl_dynamic_policy_prepare_common}

-- The first chunk of counter `j`, for `c` chunks and `n` threads.
abbrev pub cut : ℕ → ℕ → ℕ → ℕ
cut c n j = j * (c / n) + min (j * (c / n)) (c % n)

pub cut-grows : (c n j : ℕ) → cut c n j ≤ cut c n (suc j)
cut-grows c n j = grind arith

le_mul_pos : (n q : ℕ) → 0 < q → n ≤ n * q
le_mul_pos n q h = grind arith

mul_zero_of : (n q : ℕ) → q ≡ 0 → n * q ≡ 0
mul_zero_of n q e = rw e (omega arith)

-- With a chunk for every thread, the last counter ends at the last chunk.
pub cut_all : (c n : ℕ) → 0 < n → n ≤ c → cut c n n ≡ c
cut_all c n p h = elim (dec_lt 0 (c / n)) [
  | yes some_each ↦ omega (arith, div-add-mod c n, mod-lt c p, le_mul_pos n (c / n) some_each)
  | no none_each ↦
      absurd (omega (arith, div-add-mod c n, mod-lt c p, mul_zero_of n (c / n) (omega arith)))
]

product_pos : (a b : ℕ) → pos a *ℤ pos b ≡ pos (a * b)
product_pos a b = eq_of_parts _ _ (omega (arith, *-pos-parts (pos a) b))

cut_pos :
    (c n j : ℕ)
    → pos j *ℤ pos (c / n) +ℤ kupl_min (pos j *ℤ pos (c / n)) (pos (c % n)) ≡ pos (cut c n j)
cut_pos c n j = rw (product_pos j (c / n), min_pos (j * (c / n)) (c % n)) (omega int_laws)

suc_pos : (j : ℕ) → pos j +ℤ pos 1 ≡ pos (suc j)
suc_pos j = omega int_laws

pub aligned_index-cut :
    (c n j : ℕ)
    → aligned_index (pos c) n j ≡ record { value = pos (cut c n j); target = pos (cut c n (suc j)) }
unfolding aligned_index ◌/ℤ◌ ◌%ℤ◌
aligned_index-cut c n j = rw (suc_pos j, cut_pos c n j, cut_pos c n (suc j))

fill_index_before :
    (n i : ℕ) (entry : ℕ → AlignedIndex) (old : List AlignedIndex) (j : ℕ) (d : AlignedIndex)
    → j < i
    → get_or (fill_index n i entry old) j d ≡ get_or old j d
unfolding fill_index
fill_index_before zero i entry old j d h = refl
fill_index_before (suc n) i entry old j d h =
    fill_index_before n (suc i) entry (set old i (entry i)) j d (omega arith)
    ∙ get_or-set_ne old i j (entry i) d (omega arith)

fill_index_at :
    (n i : ℕ) (entry : ℕ → AlignedIndex) (old : List AlignedIndex) (j : ℕ) (d : AlignedIndex)
    → i ≤ j
    → j < i + n
    → i + n ≤ length old
    → get_or (fill_index n i entry old) j d ≡ entry j
unfolding fill_index
fill_index_at zero i entry old j d lo hi room = absurd (omega arith)
fill_index_at (suc n) i entry old j d lo hi room = elim (ℕ_discrete i j) [
  | yes e ↦ rw (← e) (
      fill_index_before n (suc i) entry (set old i (entry i)) i d (omega arith)
      ∙ get_or-set_self old i (entry i) d (omega arith))
  | no ne ↦
      fill_index_at n (suc i) entry (set old i (entry i)) j d (omega arith) (omega arith)
        (omega (arith, length-set old i (entry i)))
]

-- The counters that the policy starts from.
pub prepared :
    (pf : Pf) (c j : ℕ) (d : AlignedIndex)
    → (kupl_calc_chunk_info pf).total_chunks ≡ pos c
    → pf.num_threads ≤ length pf.chunk_index
    → j < pf.num_threads
    → get_or (kupl_dynamic_policy_prepare_common pf).chunk_index j d
      ≡ record { value = pos (cut c pf.num_threads j); target = pos (cut c pf.num_threads (suc j)) }
unfolding kupl_dynamic_policy_prepare_common kupl_calc_chunk_info
prepared pf c j d e room lt = rw e (
    fill_index_at pf.num_threads 0 (aligned_index (pos c) pf.num_threads) pf.chunk_index j d
      (omega arith) (omega arith) (omega arith)
    ∙ aligned_index-cut c pf.num_threads j)
