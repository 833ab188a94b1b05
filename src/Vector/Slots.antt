-- ===== src/Vector/Slots.antt =====
-- The slots of a ring, and the list that they hold.
use native.Mathlib.Nat.{div-add-mod, mod-mod_of_dvd, add-mod}
use Prim.Native.Nat.{◌∣◌}
use kupl.Prelude.{
  ℕ, zero, suc, ◌+◌, ◌*◌, ◌/◌, ◌%◌, ◌≤◌, ◌<◌, ◌≡◌, refl, sym, ap, ap₂, ◌∙◌, ◌≢◌, arith, List, [],
  ◌∷◌, ◌++◌, length, get_elem?, set, none, some, update, dec_lt,
}

-- What `n` slots hold, from position `h` on.
abbrev pub collect : {A : Type 0} → (ℕ → A) → ℕ → ℕ → ℕ → List A
collect d c h zero = []
collect d c h (suc n) = d (h % c) ∷ collect d c (suc h) n

module _ {A : Type 0} where
  pub collect-same :
      (d d' : ℕ → A) (c h h' n : ℕ)
      → ((i : ℕ) → i < n → d ((h + i) % c) ≡ d' ((h' + i) % c))
      → collect d c h n ≡ collect d' c h' n
  collect-same d d' c h h' zero e = refl
  collect-same d d' c h h' (suc n) e =
      ap₂ (λ x xs. x ∷ xs)
        (ap (λ k. d (k % c)) (omega arith) ∙ e 0 (omega arith) ∙ ap (λ k. d' (k % c)) (omega arith))
        (collect-same d d' c (suc h) (suc h') n (λ i lt.
          ap (λ k. d (k % c)) (omega arith)
          ∙ e (suc i) (omega arith)
          ∙ ap (λ k. d' (k % c)) (omega arith)))

  pub collect-snoc :
      (d : ℕ → A) (c h n : ℕ) → collect d c h (suc n) ≡ collect d c h n ++ (d ((h + n) % c) ∷ [])
  collect-snoc d c h zero = ap (λ k. d (k % c) ∷ []) (omega arith)
  collect-snoc d c h (suc n) =
      ap (λ xs. d (h % c) ∷ xs)
        (collect-snoc d c (suc h) n
          ∙ ap (λ k. collect d c (suc h) n ++ (d (k % c) ∷ [])) (omega arith))

  pub length-collect : (d : ℕ → A) (c h n : ℕ) → length (collect d c h n) ≡ n
  length-collect d c h zero = refl
  length-collect d c h (suc n) = ap suc (length-collect d c (suc h) n)

  pub get_elem?-collect :
      (d : ℕ → A) (c h n i : ℕ) → i < n → get_elem? (collect d c h n) i ≡ some (d ((h + i) % c))
  get_elem?-collect d c h zero i lt = absurd (omega arith)
  get_elem?-collect d c h (suc n) zero lt = ap (λ k. some (d (k % c))) (omega arith)
  get_elem?-collect d c h (suc n) (suc i) lt =
      get_elem?-collect d c (suc h) n i (omega arith) ∙ ap (λ k. some (d (k % c))) (omega arith)

  pub get_elem?-past : (xs : List A) (i : ℕ) → length xs ≤ i → get_elem? xs i ≡ none
  get_elem?-past [] i h = refl
  get_elem?-past (x ∷ xs) zero h = absurd (omega arith)
  get_elem?-past (x ∷ xs) (suc i) h = get_elem?-past xs i (omega arith)

mul_gap : (c q q' : ℕ) → q < q' → c * q + c ≤ c * q'
mul_gap c q q' h = grind arith

-- Positions less than a capacity apart have different slots.
pub slot_ne : (c x y : ℕ) → x < y → y < x + c → x % c ≢ y % c
slot_ne c x y lo hi e = elim (dec_lt (x / c) (y / c)) [
  | yes lt ↦ omega (arith, mul_gap c (x / c) (y / c) lt, div-add-mod x c, div-add-mod y c)
  | no ge ↦ elim (dec_lt (y / c) (x / c)) [
    | yes gt ↦ omega (arith, mul_gap c (y / c) (x / c) gt, div-add-mod x c, div-add-mod y c)
    | no le ↦
        let same : x / c ≡ y / c = omega arith in
        omega (arith, ap (λ q. c * q) same, div-add-mod x c, div-add-mod y c)
  ]
]

-- Wrapping at a multiple of the capacity changes no slot.
pub slot_wrap : (c w x i : ℕ) → c ∣ w → (x % w + i) % c ≡ (x + i) % c
slot_wrap c w x i h =
    add-mod (x % w) i c ∙ ap (λ k. (k + i % c) % c) (mod-mod_of_dvd c x h) ∙ sym (add-mod x i c)

module _ {A : Type 0} where
  update_hit : (d : ℕ → A) (k j : ℕ) (x : A) → k ≡ j → update d k x j ≡ x
  update_hit d k j x e = ground (arith, e)

  update_miss : (d : ℕ → A) (k j : ℕ) (x : A) → k ≢ j → update d k x j ≡ d j
  update_miss d k j x ne = ground (arith, ne)

  -- A write to the slot after the last leaves the elements.
  pub collect-update_ne :
      (d : ℕ → A) (c h n k : ℕ) (x : A)
      → ((i : ℕ) → i < n → k % c ≢ (h + i) % c)
      → collect (update d (k % c) x) c h n ≡ collect d c h n
  collect-update_ne d c h n k x ne =
      collect-same (update d (k % c) x) d c h h n
        (λ i lt. update_miss d (k % c) ((h + i) % c) x (ne i lt))

  -- A write to the slot of position `h + i` is a write to element `i`.
  pub collect-update :
      (d : ℕ → A) (c h n i : ℕ) (x : A)
      → n ≤ c
      → i < n
      → collect (update d ((h + i) % c) x) c h n ≡ set (collect d c h n) i x
  collect-update d c h zero i x room lt = absurd (omega arith)
  collect-update d c h (suc n) zero x room lt =
      ap₂ (λ y ys. y ∷ ys) (update_hit d ((h + 0) % c) (h % c) x (ap (λ k. k % c) (omega arith)))
        (collect-update_ne d c (suc h) n (h + 0) x
          (λ i li. slot_ne c (h + 0) (suc h + i) (omega arith) (omega arith)))
  collect-update d c h (suc n) (suc i) x room lt =
      ap₂ (λ y ys. y ∷ ys)
        (update_miss d ((h + suc i) % c) (h % c) x
          (λ e. slot_ne c h (h + suc i) (omega arith) (omega arith) (sym e)))
        (ap (λ k. collect (update d (k % c) x) c (suc h) n) (omega arith)
          ∙ collect-update d c (suc h) n i x (omega arith) (omega arith))

  -- A write to the slot after the last adds an element.
  pub collect-push :
      (d : ℕ → A) (c h n k : ℕ) (x : A)
      → n < c
      → k % c ≡ (h + n) % c
      → collect (update d (k % c) x) c h (suc n) ≡ collect d c h n ++ (x ∷ [])
  collect-push d c h n k x room e =
      collect-snoc (update d (k % c) x) c h n
      ∙ ap₂ (λ xs y. xs ++ (y ∷ []))
          (collect-update_ne d c h n k x
            (λ i lt q. slot_ne c (h + i) (h + n) (omega arith) (omega arith) (sym q ∙ e)))
          (update_hit d (k % c) ((h + n) % c) x e)
