-- ===== src/Memory/Normal/Invariant/Listed.antt =====
-- The free lists hold each free buffer once.
use kupl.Prelude.{
  ℕ, ◌+◌, ◌-◌, ◌≤◌, ◌<◌, ◌≡◌, ◌≢◌, refl, sym, ap, ◌∙◌, arith, ◌==◌, if◌then◌else◌, List, [], ◌∷◌,
  update, total, total_same, total_change, total_none, total_pred, ℕ_discrete, update_same,
}
use kupl.Memory.{mem_bins_total}
use kupl.Memory.Normal.{remove}
use kupl.Memory.Normal.Invariant.Shape.{update_ne}

abbrev pub count : ℕ → List ℕ → ℕ
count a [] = 0
count a (b ∷ bs) = (if a == b then 1 else 0) + count a bs

abbrev pub listed : (ℕ → List ℕ) → ℕ → ℕ
listed bins a = total mem_bins_total (λ i. count a (bins i))

-- Each address stands in the lists as often as `free` says.
abbrev pub AreListed : (ℕ → ℕ) → (ℕ → List ℕ) → Type 0
AreListed free bins = (a : ℕ) → listed bins a ≡ free a

count-remove_self : (a : ℕ) (xs : List ℕ) → count a (remove a xs) ≡ count a xs - 1
unfolding remove
count-remove_self a [] = refl
count-remove_self a (b ∷ bs) = ground (arith, count-remove_self a bs)

count-remove_ne : (a x : ℕ) (xs : List ℕ) → a ≢ x → count x (remove a xs) ≡ count x xs
unfolding remove
count-remove_ne a x [] ne = refl
count-remove_ne a x (b ∷ bs) ne = ground (arith, count-remove_ne a x bs ne)

module _ (free : ℕ → ℕ) (bins : ℕ → List ℕ) (w : AreListed free bins) (a : ℕ) where
  pub unlink-AreListed : free a ≤ 1 → AreListed (update free a 0) (λ i. remove a (bins i))
  unlink-AreListed once x = elim (ℕ_discrete a x) [
    | yes here ↦
        let out =
          total_same mem_bins_total (λ i. count a (remove a (bins i))) (λ i. count a (bins i) - 1)
            (λ i lt. count-remove_self a (bins i))
          ∙ total_pred mem_bins_total (λ i. count a (bins i)) (omega (arith, w a)) in
        rw (← here) (out ∙ sym (update_same free a 0))
    | no other ↦
        total_same mem_bins_total (λ i. count x (remove a (bins i))) (λ i. count x (bins i))
          (λ i lt. count-remove_ne a x (bins i) other)
        ∙ w x
        ∙ sym (update_ne free a x 0 other)
  ]

  listed-insert :
      (index x : ℕ)
      → index < mem_bins_total
      → listed (update bins index (a ∷ bins index)) x ≡ (if x == a then 1 else 0) + listed bins x
  listed-insert index x lt = omega (
    arith,
    total_change mem_bins_total (λ i. count x (update bins index (a ∷ bins index) i))
        (λ i. count x (bins i)) index lt
        (λ j lj ne. ap (count x) (update_ne bins index j (a ∷ bins index) ne)),
    ap (count x) (update_same bins index (a ∷ bins index)),
  )

  pub insert-AreListed :
      (index : ℕ)
      → index < mem_bins_total
      → free a ≡ 0
      → AreListed (update free a 1) (update bins index (a ∷ bins index))
  insert-AreListed index lt out x = elim (ℕ_discrete a x) [
    | yes here ↦
        rw (← here) (listed-insert index a lt ∙ sym (update_same free a 1 ∙ ground (arith, w a)))
    | no other ↦ listed-insert index x lt ∙ sym (update_ne free a x 1 other ∙ ground (arith, w x))
  ]

  -- What a list holds is free.
  pub listed_free : (index : ℕ) → index < mem_bins_total → count a (bins index) ≢ 0 → free a ≢ 0
  listed_free index lt some_a none_free =
      some_a (total_none mem_bins_total (λ i. count a (bins i)) index (w a ∙ none_free) lt)
