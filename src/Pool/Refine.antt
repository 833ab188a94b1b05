-- ===== src/Pool/Refine.antt =====
-- The pool of src/tools/struct/kupl_pool.h is a queue.

use kupl.Prelude.{
  ℕ, zero, suc, ◌+◌, ◌%◌, ◌<◌, ◌≡◌, refl, sym, ap, ◌≢◌, arith, [], ◌∷◌, ◌++◌, length, some, false,
  ◌==◌, Bool-cases, inl, inr,
}
use kupl.Vector.{size_range}
use kupl.Vector.Slots.{collect}
use kupl.Vector.Refine.{IsVector, contents, size_of, pushed, size_popped, first_of}
use kupl.Pool.{
  Pool, kupl_pool_empty, kupl_pool_full, kupl_pool_put, kupl_pool_get, kupl_pool_cleanup_all,
}

module _ {A : Type 0} where
  not_full : (p : Pool A) → IsVector p → kupl_pool_full p ≡ false → size_of p + 1 < p.capacity
  unfolding kupl_pool_full
  not_full p w h =
      let small : (size_of p + 1) % size_range ≡ size_of p + 1 = omega (arith, w.room, w.fits) in
      ground (arith, h, small)

  -- For a well-formed pool that is not full: putting an element appends it, and the pool stays
  -- well-formed.
  pub kupl_pool_put-contents :
      (p : Pool A) (x : A)
      → IsVector p
      → kupl_pool_full p ≡ false
      → IsVector (kupl_pool_put p x) × (contents (kupl_pool_put p x) ≡ contents p ++ (x ∷ []))
  unfolding kupl_pool_put
  kupl_pool_put-contents p x w h = pushed p x w (not_full p w h)

  not_empty : (p : Pool A) → kupl_pool_empty p ≡ false → p.head ≢ p.tail
  unfolding kupl_pool_empty
  not_empty p h e = ground (arith, h, e)

  -- For a well-formed pool that is not empty: getting takes the first element off, and the pool
  -- stays well-formed.
  pub kupl_pool_get-contents :
      (p : Pool A)
      → IsVector p
      → kupl_pool_empty p ≡ false
      → let (p', x) = kupl_pool_get p in IsVector p' × (contents p ≡ x ∷ contents p')
  unfolding kupl_pool_get
  kupl_pool_get-contents p w h =
      let less = size_popped p w (not_empty p h) in
      (
        record {
          divides = w.divides;
          fits = w.fits;
          heads = omega arith;
          tails = w.tails;
          room = omega (arith, less, w.room);
        },
        first_of p.buffer p.capacity p.head (size_of p) _ w.divides less,
      )

  none_of : (d : ℕ → A) (c h n : ℕ) → n ≡ 0 → collect d c h n ≡ []
  none_of d c h zero e = refl
  none_of d c h (suc n) e = absurd (omega arith)

  -- For a well-formed pool and more fuel than it holds elements: the loop ends, and has called
  -- the cleaner with each element, in order.
  pub kupl_pool_cleanup_all-contents :
      (fuel : ℕ) (p : Pool A)
      → IsVector p
      → length (contents p) < fuel
      → kupl_pool_cleanup_all fuel p ≡ some (contents p)
  unfolding kupl_pool_cleanup_all kupl_pool_empty kupl_pool_get
  kupl_pool_cleanup_all-contents zero p w h = absurd (omega arith)
  kupl_pool_cleanup_all-contents (suc fuel) p w h = elim (Bool-cases (p.head == p.tail)) [
    | inl e ↦
        let same : p.head ≡ p.tail = ground (arith, e) in
        rw e (
          ap some
            (sym (none_of p.buffer p.capacity p.head (size_of p) (omega (arith, same, w.heads)))))
    | inr e ↦
        let (w', split) = kupl_pool_get-contents p w e in
        let rest =
          kupl_pool_cleanup_all-contents fuel (kupl_pool_get p).0 w'
            (omega (arith, ap length split)) in
        rw (e, rest) (ap some (sym split))
  ]
