-- ===== src/ParallelFor/Dynamic/Pieces.antt =====
-- The piece of a range that a chunk's index stands for: `kupl_compute_chunk_range`.
use kupl.Prelude.{
  ℕ, zero, suc, ◌*◌, ◌/◌, ◌%◌, ◌≤◌, ◌<◌, ◌≡◌, refl, sym, ap, ap₂, subst, ◌∙◌, ◌≢◌, ◌↔◌, List,
  length, length-set, get_or, get_or-set_self, get_or-set_ne, set, arith, ℕ_discrete,
}
use kupl.Prelude.Int.{
  ℤ, pos, negsuc, pos_part, neg_part, ltb_ℤ, ◌+ℤ◌, ◌*ℤ◌, ◌/ℤ◌, ◌%ℤ◌, ◌<ℤ◌, +ℤ_parts, *-pos-parts,
  pos-*-parts, eq_of_parts,
}
use kupl.ParallelFor.Range.{Range, Pf, range_at, chunk_at, no_range, calc_chunk}
use kupl.ParallelFor.Digits.{digit}
use kupl.ParallelFor.Edge.{Before, Visits, Visits-clip, edge, edge_parts, clip}
use kupl.ParallelFor.Count.{IsLoop}
use kupl.ParallelFor.Static.Piece.{Between}
use kupl.ParallelFor.Dynamic.{chunk_piece, chunk_pieces}

module _ (pf : Pf) (base : ℕ → ℕ) where
  pieces_above :
      (n : ℕ) (ci : ℤ) (ranges : List Range) (d : ℕ)
      → n ≤ d
      → get_or (chunk_pieces pf n ci ranges) d no_range ≡ get_or ranges d no_range
  unfolding chunk_pieces
  pieces_above zero ci ranges d h = refl
  pieces_above (suc n) ci ranges d h =
      let c = chunk_at pf n in
      let p = chunk_piece (range_at pf.range n) c (ci %ℤ c.chunks) (get_or ranges n no_range) in
      pieces_above n (ci /ℤ c.chunks) (set ranges n p) d (omega arith)
      ∙ get_or-set_ne ranges n d p no_range (omega arith)

  -- What a chunk's piece is in dimension `d`: the chunk there is the index's digit.
  abbrev PieceAt : ℕ → ℕ → List Range → ℕ → List Range → Type 0
  PieceAt n m ranges d out =
      get_or out d no_range
      ≡ chunk_piece (range_at pf.range d) (chunk_at pf d) (pos (digit base n m d))
          (get_or ranges d no_range)

  digit_last : (n m : ℕ) → m % base n ≡ digit base (suc n) m n
  digit_last n m = ground arith

  digit_rest : (n m d : ℕ) → d ≢ n → digit base n (m / base n) d ≡ digit base (suc n) m d
  digit_rest n m d h = ground arith

  pub chunk_pieces-at :
      (n m : ℕ) (ranges : List Range) (d : ℕ)
      → ((e : ℕ) → e < n → (chunk_at pf e).chunks ≡ pos (base e))
      → n ≤ length ranges
      → d < n
      → PieceAt n m ranges d (chunk_pieces pf n (pos m) ranges)
  unfolding chunk_pieces ◌/ℤ◌ ◌%ℤ◌
  chunk_pieces-at zero m ranges d h room lt = absurd (omega arith)
  chunk_pieces-at (suc n) m ranges d h room lt =
      let p =
        chunk_piece (range_at pf.range n) (chunk_at pf n) (pos (m % base n))
          (get_or ranges n no_range) in
      rw (h n (omega arith)) (elim (ℕ_discrete d n) [
        | yes e ↦
            subst
              (λ k.
                PieceAt (suc n) m ranges k (chunk_pieces pf n (pos (m / base n)) (set ranges n p)))
              (sym e)
              (pieces_above n (pos (m / base n)) (set ranges n p) n (omega arith)
                ∙ get_or-set_self ranges n p no_range (omega arith)
                ∙ ap
                    (λ k.
                      chunk_piece (range_at pf.range n) (chunk_at pf n) (pos k)
                        (get_or ranges n no_range))
                    (digit_last n m))
        | no ne ↦
            chunk_pieces-at n (m / base n) (set ranges n p) d (λ e le. h e (omega arith))
              (omega (arith, length-set ranges n p)) (omega arith)
            ∙ ap₂ (λ k q. chunk_piece (range_at pf.range d) (chunk_at pf d) (pos k) q)
                (digit_rest n m d ne) (get_or-set_ne ranges n d p no_range (λ q. ne (sym q)))
      ])

pub pos_of : (b : ℤ) → pos 0 <ℤ b → b ≡ pos (pos_part b)
pos_of (pos n) h = refl
pos_of (negsuc n) h = absurd (omega arith)

mul_pos : (a b : ℕ) → 0 < a → 0 < b → 0 < a * b
mul_pos a b h k = grind arith

sign_product : (s : ℤ) (b : ℕ) → 0 < b → ltb_ℤ (pos 0) (s *ℤ pos b) ≡ ltb_ℤ (pos 0) s
sign_product (pos zero) b h = ground (arith, *-pos-parts (pos 0) b)
sign_product (pos (suc s)) b h = ground (arith, *-pos-parts (pos (suc s)) b, mul_pos (suc s) b)
sign_product (negsuc s) b h = ground (arith, *-pos-parts (negsuc s) b)

triple_parts :
    (k b : ℕ) (s : ℤ)
    → (pos_part (pos k *ℤ (s *ℤ pos b)) ≡ k * (pos_part s * b))
      × (neg_part (pos k *ℤ (s *ℤ pos b)) ≡ k * (neg_part s * b))
triple_parts k b s = (
  (pos-*-parts k (s *ℤ pos b)).0 ∙ ap (λ p. k * p) (*-pos-parts s b).0,
  (pos-*-parts k (s *ℤ pos b)).1 ∙ ap (λ p. k * p) (*-pos-parts s b).1,
)

pub lower_edge : (l s : ℤ) (b k : ℕ) → l +ℤ pos k *ℤ (s *ℤ pos b) ≡ edge l s (k * b)
lower_edge l s b k =
    eq_of_parts _ _ (omega (arith, +ℤ_parts, edge_parts l s (k * b), triple_parts k b s))

upper_edge : (l s : ℤ) (b k : ℕ) → l +ℤ pos k *ℤ (s *ℤ pos b) +ℤ s *ℤ pos b ≡ edge l s (suc k * b)
upper_edge l s b k =
    eq_of_parts _ _
      (omega (arith, +ℤ_parts, edge_parts l s (suc k * b), triple_parts k b s, *-pos-parts s b))

Visits-ends :
    (p : Range) (l s u x : ℤ)
    → p.lower ≡ l
    → p.upper ≡ u
    → p.step ≡ s
    → Visits p x ↔ ((j : ℕ) × (x ≡ edge l s j) × Before s u x)
Visits-ends p l s u x el eu es = rw (el, eu, es) (λ h. h, λ h. h)

-- A chunk covers the iterations of one block.
module _ (r : Range) (v : IsLoop r) where
  abbrev block : ℕ
  block = pos_part r.blocksize

  abbrev piece : ℕ → Range
  piece k = chunk_piece r (calc_chunk r) (pos k) r

  pub size : (calc_chunk r).chunksize ≡ r.step *ℤ pos block
  unfolding calc_chunk
  size = ap (λ b. r.step *ℤ b) (pos_of r.blocksize v.blocks)

  lower-piece : (k : ℕ) → (piece k).lower ≡ edge r.lower r.step (k * block)
  unfolding chunk_piece
  lower-piece k = rw size (lower_edge r.lower r.step block k)

  upper-piece :
      (k : ℕ) → (piece k).upper ≡ clip r.step (edge r.lower r.step (suc k * block)) r.upper
  unfolding chunk_piece
  upper-piece k =
      rw
        (
          size,
          sign_product r.step block (omega (arith, v.blocks)),
          upper_edge r.lower r.step block k,
        )
        refl

  step-piece : (k : ℕ) → (piece k).step ≡ r.step
  unfolding chunk_piece
  step-piece k = refl

  pub Visits-chunk_piece :
      (k : ℕ) (x : ℤ) → Visits (piece k) x ↔ Between r (k * block) (suc k * block) x
  Visits-chunk_piece k x =
      let ends =
        Visits-ends (piece k) (edge r.lower r.step (k * block)) r.step
          (clip r.step (edge r.lower r.step (suc k * block)) r.upper) x (lower-piece k)
          (upper-piece k) (step-piece k) in
      let clipped = Visits-clip r.lower r.step r.upper (k * block) (suc k * block) x v.moves in
      (λ h. clipped.0 (ends.0 h), λ h. ends.1 (clipped.1 h))
