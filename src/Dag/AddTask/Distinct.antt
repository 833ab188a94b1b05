-- ===== src/Dag/AddTask/Distinct.antt =====
-- What `dep_list_rm_dup` makes of dependencies: all different ones stay, and so do equal ones.
use kupl.Prelude.{
  ℕ, suc, ◌+◌, ◌≡◌, refl, sym, ap, ◌∙◌, arith, ◌==◌, Bool, true, false, not, ◌||◌, List, [], ◌∷◌,
  ◌++◌, length, set, bit_and, bit_or, Bool-cases, inl, inr,
}
use kupl.Dag.{Dep, type_all, kupl_task_dep_all_addr}
use kupl.Dag.AddTask.{type_value, find_same, rm_dup_step, rm_dup_from, dep_list_rm_dup}

-- No dependency of the list is on that address.
abbrev pub NotAt : ℕ → List Dep → Type 0
NotAt x [] = Unit
NotAt x (d ∷ ds) = ((d.base_addr == x) ≡ false) × NotAt x ds

-- Each dependency is on an address of its own, and none is on all.
abbrev pub AllDistinct : List Dep → List Dep → Type 0
AllDistinct before [] = Unit
AllDistinct before (d ∷ ds) =
    NotAt d.base_addr before
    × ((type_value d.type == type_value type_all || d.base_addr == kupl_task_dep_all_addr) ≡ false)
    × AllDistinct (before ++ (d ∷ [])) ds

set_behind :
    (before : List Dep) (d : Dep) (ds : List Dep) (new : Dep)
    → set (before ++ (d ∷ ds)) (length before) new ≡ (before ++ (new ∷ [])) ++ ds
set_behind [] d ds new = refl
set_behind (b ∷ before) d ds new = ap (λ l. b ∷ l) (set_behind before d ds new)

find_none :
    (before more : List Dep) (dep : Dep)
    → NotAt dep.base_addr before
    → find_same (before ++ more) (length before) dep ≡ (before ++ more, false)
unfolding find_same
find_none [] [] dep h = refl
find_none [] (m ∷ more) dep h = refl
find_none (b ∷ before) more dep (off, h) =
    rw off (ap (λ (out : List Dep × Bool). (b ∷ out.0, out.1)) (find_none before more dep h))

-- Whatever the filter says, a dependency without its like is put behind those before it.
step_new :
    (before more : List Dep) (m dep : Dep) (hash : ℕ)
    → find_same (before ++ (m ∷ more)) (length before) dep ≡ (before ++ (m ∷ more), false)
    → (hash' : ℕ) × (rm_dup_step dep hash (length before) (before ++ (m ∷ more))
        ≡ (hash', length before + 1, (before ++ (dep ∷ [])) ++ more))
unfolding rm_dup_step
step_new before more m dep hash none_same =
    elim (Bool-cases (not (bit_and hash dep.base_addr == dep.base_addr))) [
      | inl filtered ↦ (
        bit_or hash dep.base_addr,
        rw filtered (
            ap (λ l. (bit_or hash dep.base_addr, length before + 1, l))
              (set_behind before m more dep)),
      )
      | inr unsure ↦ (
        hash,
        rw (unsure, none_same)
            (ap (λ l. (hash, length before + 1, l)) (set_behind before m more dep)),
      )
    ]

length-snoc : (before : List Dep) (d : Dep) → length (before ++ (d ∷ [])) ≡ length before + 1
length-snoc [] d = refl
length-snoc (b ∷ before) d = ap suc (length-snoc before d) ∙ omega arith

snoc_append :
    (before : List Dep) (d : Dep) (ds : List Dep) → (before ++ (d ∷ [])) ++ ds ≡ before ++ (d ∷ ds)
snoc_append [] d ds = refl
snoc_append (b ∷ before) d ds = ap (λ l. b ∷ l) (snoc_append before d ds)

-- One of the same address and type is found, but is not taken for the same.
found_equal : (dep m : Dep) → find_same (dep ∷ m ∷ []) 1 dep ≡ (dep ∷ m ∷ [], false)
unfolding find_same
found_equal dep m =
    let same_addr : (dep.base_addr == dep.base_addr) ≡ true = ground arith in
    let same_type : (type_value dep.type == type_value dep.type) ≡ true = ground arith in
    rw (same_addr, same_type) refl

rm_dup_from-distinct :
    (deps before more : List Dep) (hash dep_cnt : ℕ)
    → length more ≡ length deps
    → AllDistinct before deps
    → rm_dup_from deps hash (length before) (before ++ more) dep_cnt ≡ (before ++ deps, dep_cnt)
unfolding rm_dup_from
rm_dup_from-distinct [] before [] hash dep_cnt l d = refl
rm_dup_from-distinct [] before (m ∷ more) hash dep_cnt l d = absurd (omega (arith, l))
rm_dup_from-distinct (dep ∷ deps) before [] hash dep_cnt l d = absurd (omega (arith, l))
rm_dup_from-distinct (dep ∷ deps) before (m ∷ more) hash dep_cnt l (off, single, d) =
    let (hash', step) = step_new before more m dep hash (find_none before (m ∷ more) dep off) in
    let rest =
      rm_dup_from-distinct deps (before ++ (dep ∷ [])) more hash' dep_cnt (omega (arith, l)) d in
    rw (single, step)
      (ap (λ c. rm_dup_from deps hash' c ((before ++ (dep ∷ [])) ++ more) dep_cnt)
          (sym (length-snoc before dep))
        ∙ rest
        ∙ ap (λ ds. (ds, dep_cnt)) (snoc_append before dep deps))

-- For dependencies on different addresses, none of them on all, and memory for as many:
-- removing duplicates copies them and keeps their number.
pub dep_list_rm_dup-distinct :
    (deps memory : List Dep)
    → length memory ≡ length deps
    → AllDistinct [] deps
    → dep_list_rm_dup deps memory ≡ (deps, length deps)
unfolding dep_list_rm_dup
dep_list_rm_dup-distinct deps memory l d = rm_dup_from-distinct deps [] memory 0 (length deps) l d

-- Twice.
pub dep_list_rm_dup-twice :
    (dep m1 m2 : Dep)
    → (type_value dep.type == type_value type_all || dep.base_addr == kupl_task_dep_all_addr)
      ≡ false
    → dep_list_rm_dup (dep ∷ dep ∷ []) (m1 ∷ m2 ∷ []) ≡ (dep ∷ dep ∷ [], 2)
unfolding dep_list_rm_dup rm_dup_from
dep_list_rm_dup-twice dep m1 m2 single =
    let (hash1, step1) = step_new [] (m2 ∷ []) m1 dep 0 (find_none [] (m1 ∷ m2 ∷ []) dep tt) in
    let (hash2, step2) = step_new (dep ∷ []) [] m2 dep hash1 (found_equal dep m2) in
    rw (single, step1, step2) refl
