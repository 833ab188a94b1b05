-- ===== src/ParallelFor/Count.antt =====
-- How many chunks `kupl_calc_chunk_info` of src/mt/kupl_parallel_for.cpp cuts a range into.
use native.Mathlib.Nat.{div-add-mod, mod-lt}
use kupl.Prelude.{
  ℕ, zero, suc, ◌+◌, ◌-◌, ◌*◌, ◌/◌, ◌<◌, ◌≤◌, ◌≡◌, refl, ap, ◌≢◌, ◌↔◌, arith, dec_lt, if◌then◌else◌,
}
use kupl.Prelude.Int.{
  ℤ, pos, negsuc, pos_part, neg_part, ltb_ℤ, neg_ℤ, ◌+ℤ◌, ◌-ℤ◌, ◌*ℤ◌, ◌/ℤ◌, ◌<ℤ◌, int_laws,
  pos-*-parts, *-pos-parts, eq_of_parts,
}
use kupl.ParallelFor.Range.{Range, calc_chunk, kupl_divup}
use kupl.ParallelFor.Edge.{Before, edge, edge_parts}

-- What `kupl_check_range` accepts, one dimension at a time: the bound lies ahead of the start in
-- the direction of the step, and blocks are not empty.
pub record IsLoop (r : Range) : Type 0 where
  pub ahead : Before r.step r.upper r.lower
  pub moves : r.step ≢ pos 0
  pub blocks : pos 0 <ℤ r.blocksize

ceil_lt : (d c k : ℕ) → 0 < c → k < (d + c - 1) / c → k * c < d
ceil_lt d c k p h = let lt = mod-lt (d + c - 1) p in grind (arith, div-add-mod (d + c - 1) c)

mul_le : (a b c : ℕ) → a ≤ b → c * a ≤ c * b
mul_le a b c h = grind arith

lt_ceil : (d c k : ℕ) → 0 < c → k * c < d → k < (d + c - 1) / c
lt_ceil d c k p h = elim (dec_lt k ((d + c - 1) / c)) [
  | yes lt ↦ lt
  | no ge ↦ absurd (
      omega (
        arith,
        div-add-mod (d + c - 1) c,
        mod-lt (d + c - 1) p,
        mul_le ((d + c - 1) / c) k c (omega arith),
      ))
]

mul_pos : (a b : ℕ) → 0 < suc a * suc b
mul_pos a b = grind arith

sum_less_one : (d c : ℕ) → 0 < d → pos d +ℤ pos c -ℤ pos 1 ≡ pos (d + c - 1)
sum_less_one d c p = omega int_laws

pub divup_pos : (d c : ℕ) → 0 < d → kupl_divup (pos d) (pos c) ≡ pos ((d + c - 1) / c)
unfolding kupl_divup ◌/ℤ◌
divup_pos d c p = rw (sum_less_one d c p)

-- The count that both signs of the chunk size share.
abbrev chunk_count : ℤ → ℤ → ℤ → ℤ
chunk_count cs l u =
    if ltb_ℤ (pos 0) cs then kupl_divup (u -ℤ l) cs else kupl_divup (l -ℤ u) (neg_ℤ cs)

-- The chunks are those whose first iteration comes before the bound.
abbrev pub Counts : ℤ → ℤ → ℤ → ℤ → Type 0
Counts cs l u chunks = (n : ℕ) × (chunks ≡ pos n) × ((k : ℕ) → (k < n) ↔ Before cs u (edge l cs k))

pub distance :
    (l u : ℤ) → l <ℤ u → u -ℤ l ≡ pos (pos_part u + neg_part l - (pos_part l + neg_part u))
distance l u h = omega int_laws

chunk_count-Counts : (cs l u : ℤ) → Before cs u l → cs ≢ pos 0 → Counts cs l u (chunk_count cs l u)
chunk_count-Counts (pos zero) l u a m = absurd (m refl)
chunk_count-Counts (pos (suc c)) l u a m =
    let d : ℕ = pos_part u + neg_part l - (pos_part l + neg_part u) in
    (
      (d + suc c - 1) / suc c,
      ground (arith, distance l u a, divup_pos d (suc c)),
      λ k. (
        λ lt. omega (arith, ceil_lt d (suc c) k (omega arith) lt, edge_parts l (pos (suc c)) k),
        λ be. lt_ceil d (suc c) k (omega arith) (omega (arith, edge_parts l (pos (suc c)) k)),
      ),
    )
chunk_count-Counts (negsuc c) l u a m =
    let d : ℕ = pos_part l + neg_part u - (pos_part u + neg_part l) in
    (
      (d + suc c - 1) / suc c,
      ground (arith, distance u l a, divup_pos d (suc c)),
      λ k. (
        λ lt. omega (arith, ceil_lt d (suc c) k (omega arith) lt, edge_parts l (negsuc c) k),
        λ be. lt_ceil d (suc c) k (omega arith) (omega (arith, edge_parts l (negsuc c) k)),
      ),
    )

pos-*-pos : (a b : ℕ) → pos a *ℤ pos b ≡ pos (a * b)
pos-*-pos a b = omega (int_laws, pos-*-parts a (pos b))

negsuc-*-pos : (a b : ℕ) → negsuc a *ℤ pos (suc b) ≡ negsuc (suc a * suc b - 1)
negsuc-*-pos a b = eq_of_parts _ _ (omega (arith, *-pos-parts (negsuc a) (suc b), mul_pos a b))

pub Before-product :
    (s b u x : ℤ) → pos 0 <ℤ b → s ≢ pos 0 → Before s u x → Before (s *ℤ b) u x × ((s *ℤ b) ≢ pos 0)
Before-product s (pos zero) u x p m h = absurd (omega arith)
Before-product s (negsuc b) u x p m h = absurd (omega arith)
Before-product (pos zero) (pos (suc b)) u x p m h = absurd (m refl)
Before-product (pos (suc s)) (pos (suc b)) u x p m h =
    rw (pos-*-pos (suc s) (suc b)) (h, λ e. absurd (omega (arith, ap pos_part e, mul_pos s b)))
Before-product (negsuc s) (pos (suc b)) u x p m h = rw (negsuc-*-pos s b) (h, λ e. cc)

pub calc_chunk-Counts :
    (r : Range) → IsLoop r → Counts (calc_chunk r).chunksize r.lower r.upper (calc_chunk r).chunks
unfolding calc_chunk
calc_chunk-Counts r v =
    let (ahead, moves) =
      Before-product r.step r.blocksize r.upper r.lower v.blocks v.moves v.ahead in
    chunk_count-Counts (r.step *ℤ r.blocksize) r.lower r.upper ahead moves
