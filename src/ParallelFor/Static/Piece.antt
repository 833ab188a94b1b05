-- ===== src/ParallelFor/Static/Piece.antt =====
-- The two ends of a thread's piece under the static policy are edges of chunks.

use kupl.Prelude.{ℕ, suc, ◌+◌, ◌*◌, ◌/◌, ◌%◌, ◌<◌, ◌≤◌, ◌≡◌, refl, ap, ◌∙◌, ◌≢◌, ◌↔◌, arith, min}
use kupl.Prelude.Int.{
  ℤ, pos, pos_part, neg_part, ◌+ℤ◌, ◌*ℤ◌, ◌/ℤ◌, ◌%ℤ◌, +ℤ_parts, int_laws, pos-*-parts, *-pos-parts,
  eq_of_parts,
}
use kupl.ParallelFor.Range.{Range, Chunk, kupl_min}
use kupl.ParallelFor.Partition.{share}
use kupl.ParallelFor.Edge.{Visits-clip, Before, Visits, edge, edge_parts, clip}
use kupl.ParallelFor.Static.{static_piece}

pub min_pos : (a b : ℕ) → kupl_min (pos a) (pos b) ≡ pos (min a b)
min_pos a b = ground arith

suc_pos : (n : ℕ) → pos n +ℤ pos 1 ≡ pos (suc n)
suc_pos n = omega int_laws

triple_parts :
    (t b : ℕ) (s : ℤ)
    → (pos_part (pos t *ℤ s *ℤ pos b) ≡ t * pos_part s * b)
      × (neg_part (pos t *ℤ s *ℤ pos b) ≡ t * neg_part s * b)
triple_parts t b s = (
  (*-pos-parts (pos t *ℤ s) b).0 ∙ ap (λ p. p * b) (pos-*-parts t s).0,
  (*-pos-parts (pos t *ℤ s) b).1 ∙ ap (λ p. p * b) (pos-*-parts t s).1,
)

lower_edge : (l s : ℤ) (t b m : ℕ) → l +ℤ pos t *ℤ s *ℤ pos b +ℤ pos m *ℤ s ≡ edge l s (t * b + m)
lower_edge l s t b m =
    eq_of_parts _ _
      (omega (arith, +ℤ_parts, edge_parts l s (t * b + m), pos-*-parts m s, triple_parts t b s))

upper_edge :
    (l s : ℤ) (t b m : ℕ)
    → l +ℤ pos t *ℤ s *ℤ pos b +ℤ s *ℤ pos b +ℤ pos m *ℤ s ≡ edge l s (suc t * b + m)
upper_edge l s t b m = eq_of_parts _ _ (
    omega (
      arith,
      +ℤ_parts,
      edge_parts l s (suc t * b + m),
      pos-*-parts m s,
      *-pos-parts s b,
      triple_parts t b s,
    ))

-- Both ends of a piece are edges of chunks.
module _ (r : Range) (s : ℤ) (n tnum tid : ℕ) where
  abbrev piece : Range
  piece = static_piece r (record { chunksize = s; chunks = pos n }) (pos n) tid tnum

  lower-piece : piece.lower ≡ edge r.lower s (share n tnum tid)
  unfolding static_piece ◌/ℤ◌ ◌%ℤ◌
  lower-piece =
      rw (min_pos (n % tnum) tid) (lower_edge r.lower s tid (n / tnum) (min (n % tnum) tid))

  upper-piece : piece.upper ≡ clip s (edge r.lower s (share n tnum (suc tid))) r.upper
  unfolding static_piece ◌/ℤ◌ ◌%ℤ◌
  upper-piece = rw (
    suc_pos tid,
    min_pos (n % tnum) (suc tid),
    upper_edge r.lower s tid (n / tnum) (min (n % tnum) (suc tid)),
  )

  step-piece : piece.step ≡ r.step
  unfolding static_piece
  step-piece = refl

-- The iterations of a range from chunk edge `a` up to chunk edge `b`.
abbrev pub Between : Range → ℕ → ℕ → ℤ → Type 0
Between r a b x =
    (k : ℕ) × (x ≡ edge r.lower r.step k) × Before r.step r.upper x × (a ≤ k) × (k < b)

pub Visits-piece :
    (r : Range) (c : Chunk) (total : ℤ) (n tnum tid : ℕ) (x : ℤ)
    → r.step ≢ pos 0
    → c ≡ record { chunksize = r.step; chunks = pos n }
    → total ≡ pos n
    → Visits (static_piece r c total tid tnum) x
      ↔ Between r (share n tnum tid) (share n tnum (suc tid)) x
Visits-piece r c total n tnum tid x m ec et =
    rw
      (
        ec,
        et,
        lower-piece r r.step n tnum tid,
        upper-piece r r.step n tnum tid,
        step-piece r r.step n tnum tid,
      )
      (Visits-clip r.lower r.step r.upper (share n tnum tid) (share n tnum (suc tid)) x m)
