-- ===== src/ParallelFor/Edge.antt =====
-- Where the iterations of a loop `for (x = lower; x != upper; x += step)` lie, for either sign of
-- the step: the arithmetic that the policies of src/mt/kupl_parallel_for.cpp share.
use kupl.Prelude.{
  ℕ, zero, suc, refl, sym, subst, ◌∙◌, ap, ◌-◌, ◌≤◌, ◌+◌, ◌*◌, ◌<◌, ◌≡◌, ◌≢◌, ◌↔◌, if◌then◌else◌,
  arith, dec_lt,
}
use kupl.Prelude.Int.{
  ℤ, pos, negsuc, pos_part, neg_part, ltb_ℤ, ◌+ℤ◌, ◌*ℤ◌, ◌<ℤ◌, +ℤ_parts, pos-*-parts, int_laws,
}
use kupl.ParallelFor.Range.{Range, kupl_min, kupl_max}

-- `x` comes before the bound `u`, going by steps of the sign of `s`.
abbrev pub Before : ℤ → ℤ → ℤ → Type 0
Before (pos s) u x = x <ℤ u
Before (negsuc s) u x = u <ℤ x

-- The `k`-th value from `l` by steps of `s`.
unfoldable pub edge : ℤ → ℤ → ℕ → ℤ
edge l s k = l +ℤ pos k *ℤ s

-- The loop body runs with the value `x`.
abbrev pub Visits : Range → ℤ → Type 0
Visits r x = (k : ℕ) × (x ≡ edge r.lower r.step k) × Before r.step r.upper x

-- The nearer of two bounds.
abbrev pub clip : ℤ → ℤ → ℤ → ℤ
clip s e u = if ltb_ℤ (pos 0) s then kupl_min e u else kupl_max e u

pub edge_parts :
    (l s : ℤ) (k : ℕ)
    → pos_part (edge l s k) + neg_part l + k * neg_part s
      ≡ neg_part (edge l s k) + pos_part l + k * pos_part s
unfolding edge
edge_parts l s k = omega (arith, +ℤ_parts l (pos k *ℤ s), pos-*-parts k s)

pub Before-clip :
    (s e u x : ℤ) → s ≢ pos 0 → Before s (clip s e u) x ↔ (Before s e x × Before s u x)
Before-clip (pos s) e u x h = (ground arith, ground arith)
Before-clip (negsuc s) e u x h = (ground arith, ground arith)

pub edge-edge : (l s : ℤ) (a b : ℕ) → edge (edge l s a) s b ≡ edge l s (a + b)
edge-edge l s a b = omega (int_laws, edge_parts)

lt_of_mul-lt : (a b s : ℕ) → b * s < a * s → b < a
lt_of_mul-lt a b s h = elim (dec_lt b a) [ yes p ↦ p | no n ↦ grind arith ]

mul_lt : (a b s : ℕ) → 0 < s → b < a → b * s < a * s
mul_lt a b s p h = grind arith

pub Before-edge : (l s : ℤ) (a b : ℕ) → s ≢ pos 0 → Before s (edge l s a) (edge l s b) ↔ (b < a)
Before-edge l (pos zero) a b h = absurd (h refl)
Before-edge l (pos (suc s)) a b h = (
  λ lt. lt_of_mul-lt a b (suc s) (omega (arith, edge_parts l (pos (suc s)))),
  λ lt. omega (arith, edge_parts l (pos (suc s)), mul_lt a b (suc s) (omega arith) lt),
)
Before-edge l (negsuc s) a b h = (
  λ lt. lt_of_mul-lt a b (suc s) (omega (arith, edge_parts l (negsuc s))),
  λ lt. omega (arith, edge_parts l (negsuc s), mul_lt a b (suc s) (omega arith) lt),
)

pub edge-injective : (l s : ℤ) (a b : ℕ) → s ≢ pos 0 → edge l s a ≡ edge l s b → a ≡ b
edge-injective l s a b h e = elim (dec_lt a b) [
  | yes lt ↦ absurd (omega (arith, crossed b a lt e))
  | no ge ↦ elim (dec_lt b a) [
    | yes lt ↦ absurd (omega (arith, crossed a b lt (sym e)))
    | no le ↦ omega arith
  ]
]
  where
    crossed : (c d : ℕ) → d < c → edge l s d ≡ edge l s c → c < c
    crossed c d lt q =
        (Before-edge l s c c h).0 (subst (Before s (edge l s c)) q ((Before-edge l s c d h).1 lt))

-- A piece that begins and ends at edges of a range visits the range's values between them.
pub Visits-clip :
    (l s u : ℤ) (a b : ℕ) (x : ℤ)
    → s ≢ pos 0
    → ((j : ℕ) × (x ≡ edge (edge l s a) s j) × Before s (clip s (edge l s b) u) x)
      ↔ ((k : ℕ) × (x ≡ edge l s k) × Before s u x × (a ≤ k) × (k < b))
Visits-clip l s u a b x m = (
  λ (j, e, be).
      let e' = e ∙ edge-edge l s a j in
      let (near, far) = (Before-clip s (edge l s b) u x m).0 be in
      (
        a + j,
        e',
        far,
        omega arith,
        (Before-edge l s b (a + j) m).0 (subst (Before s (edge l s b)) e' near),
      ),
  λ (k, e, be, lo, hi). (
    k - a,
    e ∙ ap (edge l s) (omega arith) ∙ sym (edge-edge l s a (k - a)),
    (Before-clip s (edge l s b) u x m).1
        (subst (Before s (edge l s b)) (sym e) ((Before-edge l s b k m).1 hi), be),
  ),
)
