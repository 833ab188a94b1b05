-- ===== src/Memory/Fast/Owners.antt =====
-- A freed buffer gets back to the executor that it was cut for, and to no other.
use kupl.Prelude.{
  ℕ, ◌==◌, ◌≡◌, refl, subst, arith, ◌&&◌, ltb, if_cases, List, [], ◌∷◌, ◌++◌, update,
}
use kupl.Prelude.Int.{pos, pos_part, ltb_ℤ}
use kupl.Memory.{kupl_fast_memory_other_queue_limit}
use kupl.Memory.Fast.{FastCache, FastDesc, FastPool, bins_of, with_bin, free_other, kupl_fast_free}

abbrev pub AllOf : (ℕ → FastDesc) → ℕ → List ℕ → Type 0
AllOf descs e [] = Unit
AllOf descs e (x ∷ xs) = ((descs x).eid ≡ e) × AllOf descs e xs

-- The buffers for others are all of the same executor.
abbrev pub OneOwner : (ℕ → FastDesc) → List ℕ → Type 0
OneOwner descs [] = Unit
OneOwner descs (x ∷ xs) = AllOf descs (descs x).eid xs

abbrev pub IsOwned : (ℕ → FastDesc) → ℕ → FastCache → Type 0
IsOwned descs e c = AllOf descs e c.self × AllOf descs e c.sync × OneOwner descs c.other

abbrev pub AreOwned : FastPool → Type 0
AreOwned p = (e i : ℕ) → IsOwned p.fast_descs e (p.fast_bins e i)

AllOf-append :
    (descs : ℕ → FastDesc) (e : ℕ) (xs ys : List ℕ)
    → AllOf descs e xs
    → AllOf descs e ys
    → AllOf descs e (xs ++ ys)
AllOf-append descs e [] ys h g = g
AllOf-append descs e (x ∷ xs) ys (a, h) g = (a, AllOf-append descs e xs ys h g)

with_bin-AreOwned :
    (p : FastPool) (e i : ℕ) (c : FastCache)
    → AreOwned p
    → IsOwned p.fast_descs e c
    → AreOwned (with_bin p e i c)
with_bin-AreOwned p e i c w h e' i' =
    if_cases (λ (f : ℕ → FastCache). IsOwned p.fast_descs e' (f i')) (e == e')
      (update (p.fast_bins e) i c) (p.fast_bins e')
      (λ here.
        let same : e ≡ e' = ground (arith, here) in
        subst (λ (x : ℕ). IsOwned p.fast_descs x (update (p.fast_bins e) i c i')) same
          (if_cases (IsOwned p.fast_descs e) (i == i') c (p.fast_bins e i') (λ at. h)
            (λ off. w e i')))
      (λ off. w e' i')

free_other-AreOwned :
    (p : FastPool) (ptr index : ℕ) (others : List ℕ)
    → AreOwned p
    → OneOwner p.fast_descs others
    → AreOwned (free_other p ptr (p.fast_descs ptr).eid index others)
unfolding free_other
free_other-AreOwned p ptr index [] w one =
    let (a, b, d) = w p.heap.mem.eid index in
    with_bin-AreOwned p p.heap.mem.eid index _ w (a, b, tt)
free_other-AreOwned p ptr index (head ∷ rest) w one =
    let me = p.heap.mem.eid in
    let c = bins_of p index in
    let owner = (p.fast_descs head).eid in
    let (a, b, d) = w me index in
    if_cases AreOwned
      ((p.fast_descs ptr).eid == owner && ltb c.other_count kupl_fast_memory_other_queue_limit) _ _
      (λ joins.
        let same : owner ≡ (p.fast_descs ptr).eid = ground (arith, joins) in
        with_bin-AreOwned p me index _ w
          (a, b, (same, subst (λ (e : ℕ). AllOf p.fast_descs e rest) same one)))
      (λ full.
        let q = with_bin p me index (record c { other = ptr ∷ []; other_count = 1 }) in
        let w' : AreOwned q = with_bin-AreOwned p me index _ w (a, b, tt) in
        let (a', b', d') = w' owner index in
        with_bin-AreOwned q owner index _ w' (
          a',
          AllOf-append p.fast_descs owner (head ∷ rest) (q.fast_bins owner index).sync (refl, one)
              b',
          d',
        ))

-- If the lists `self` and `sync` of each executor hold only its own buffers, and each list
-- `other` buffers of one executor, that is so after any buffer is freed.
pub kupl_fast_free-AreOwned :
    (p : FastPool) (ptr : ℕ) → AreOwned p → AreOwned (kupl_fast_free p ptr)
unfolding kupl_fast_free
kupl_fast_free-AreOwned p ptr w =
    let index = pos_part (p.fast_descs ptr).fast_bin_index in
    let c = bins_of p index in
    let (a, b, d) = w p.heap.mem.eid index in
    if_cases AreOwned (ltb_ℤ (p.fast_descs ptr).fast_bin_index (pos 0)) _ _ (λ large. w)
      (λ pooled.
        if_cases AreOwned ((p.fast_descs ptr).eid == p.heap.mem.eid) _ _
          (λ mine.
            let same : (p.fast_descs ptr).eid ≡ p.heap.mem.eid = ground (arith, mine) in
            with_bin-AreOwned p p.heap.mem.eid index _ w ((same, a), b, d))
          (λ foreign. free_other-AreOwned p ptr index c.other w d))
