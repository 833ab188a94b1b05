-- ===== src/Dag/Order.antt =====
-- Processing a dependency keeps the graph's promise: of two accesses that conflict, the task of the
-- later one waits for that of the earlier one.
use kupl.Prelude.{
  ℕ, ◌≡◌, refl, sym, ap, subst, arith, Bool, true, false, ◌==◌, if◌then◌else◌, List, [], ◌∷◌, some,
  inl, inr, ◌⊎◌, Bool-cases, if_cases, ==_iff,
}
use kupl.Dag.{
  Dep, DepType, type_in, type_out, type_inout, type_all, unknown, Nodes, Entry, Hash, Dag, find,
  put, kupl_task_dep_all_addr,
}
use kupl.Dag.Paths.{Among, Covered, Closed, Grows, Covered-Grows}
use kupl.Dag.Entries.{Access, writes, touches, writes_as, touches_as, Tracks, Tracks-Grows}

equal : (a b : ℕ) → (a == b) ≡ true → a ≡ b
equal a b = (==_iff a b).0

touched_as : (t : DepType) (b : Bool) → touches_as t b ≡ true → (b ≡ true) ⊎ (t ≡ type_all)
touched_as type_in b h = inl h
touched_as type_out b h = inl h
touched_as type_inout b h = inl h
touched_as type_all b h = inr refl
touched_as unknown b h = absurd (ground arith)

pub touched :
    (dep : Dep) (x : ℕ) → touches dep x ≡ true → (x ≡ dep.base_addr) ⊎ (dep.type ≡ type_all)
touched dep x h = elim (touched_as dep.type (x == dep.base_addr) h) [
  | inl same ↦ inl (equal x dep.base_addr same)
  | inr all ↦ inr all
]

touches_of : (t : DepType) (b : Bool) → writes_as t b ≡ true → touches_as t b ≡ true
touches_of type_in b h = absurd (ground arith)
touches_of type_out b h = h
touches_of type_inout b h = h
touches_of type_all b h = h
touches_of unknown b h = absurd (ground arith)

pub writes-touches : (dep : Dep) (x : ℕ) → writes dep x ≡ true → touches dep x ≡ true
writes-touches dep x = touches_of dep.type (x == dep.base_addr)

-- There is an address that both touch and one of them writes.
abbrev pub Conflict : Dep → Dep → Type 0
Conflict d d' =
    (x : ℕ) × (touches d x ≡ true)
    × (touches d' x ≡ true)
    × ((writes d x ≡ true) ⊎ (writes d' x ≡ true))

abbrev pub keys : Hash → List ℕ
keys [] = []
keys ((x, e) ∷ hash) = x ∷ keys hash

abbrev pub AllTracks : List Access → Nodes → Hash → Type 0
AllTracks past nodes [] = Unit
AllTracks past nodes ((x, e) ∷ hash) = Tracks past nodes x e × AllTracks past nodes hash

-- Each access, the newest first, comes after those before it that it conflicts with.
abbrev pub Ordered : Nodes → List Access → Type 0
Ordered nodes [] = Unit
Ordered nodes (b ∷ past) =
    ((a : Access) → Among a past → Conflict a.dep b.dep → Covered nodes a.task b.task)
    × Ordered nodes past

-- `KUPL_TASK_DEP_TYPE_ALL` comes with its address, as `dep_list_rm_dup` sees to.
abbrev pub IsDep : Dep → Type 0
IsDep dep = dep.type ≡ type_all → dep.base_addr ≡ kupl_task_dep_all_addr

pub record IsDag (past : List Access) (dag : Dag) : Type 0 where
  pub closed : Closed dag.nodes
  pub tracked : AllTracks past dag.nodes dag.hash
  pub known : (a : Access) → Among a past → Among a.dep.base_addr (keys dag.hash)
  pub deps : (a : Access) → Among a past → IsDep a.dep
  pub ordered : Ordered dag.nodes past

pub AllTracks-Grows :
    (past : List Access) (nodes nodes' : Nodes) (hash : Hash)
    → Grows nodes nodes'
    → AllTracks past nodes hash
    → AllTracks past nodes' hash
AllTracks-Grows past nodes nodes' [] g t = tt
AllTracks-Grows past nodes nodes' ((x, e) ∷ hash) g (t, ts) =
    (Tracks-Grows past nodes nodes' x e g t, AllTracks-Grows past nodes nodes' hash g ts)

pub Ordered-Grows :
    (nodes nodes' : Nodes) (past : List Access)
    → Grows nodes nodes'
    → Ordered nodes past
    → Ordered nodes' past
Ordered-Grows nodes nodes' [] g o = tt
Ordered-Grows nodes nodes' (b ∷ past) g (o, os) = (
  λ a m c. Covered-Grows nodes nodes' a.task b.task g (o a m c),
  Ordered-Grows nodes nodes' past g os,
)

pub find-Tracks :
    (past : List Access) (nodes : Nodes) (x : ℕ) (e : Entry) (hash : Hash)
    → AllTracks past nodes hash
    → find x hash ≡ some e
    → Tracks past nodes x e
find-Tracks past nodes x e [] t found = absurd (cc)
find-Tracks past nodes x e ((y, d) ∷ hash) (t, ts) found =
    pick (x == y) refl found (find-Tracks past nodes x e hash ts)
  where
    pick :
        (b : Bool)
        → (x == y) ≡ b
        → (if b then some d else find x hash) ≡ some e
        → (find x hash ≡ some e → Tracks past nodes x e)
        → Tracks past nodes x e
    pick true at is rest =
        let same : d ≡ e = cc in
        subst (λ (v : ℕ). Tracks past nodes v e) (sym (equal x y at))
          (subst (Tracks past nodes y) same t)
    pick false off is rest = rest is

pub find_known : (x : ℕ) (hash : Hash) → Among x (keys hash) → (e : Entry) × (find x hash ≡ some e)
find_known x [] m = absurd m
find_known x ((y, d) ∷ hash) m = elim (Bool-cases (x == y)) [
  | inl at ↦ (d, rw at refl)
  | inr off ↦ elim m [
    | inl same ↦ absurd (ground (arith, off, same))
    | inr rest ↦ let (e, found) = find_known x hash rest in (e, rw off found)
  ]
]

pub known_find : (x : ℕ) (hash : Hash) (e : Entry) → find x hash ≡ some e → Among x (keys hash)
known_find x [] e found = absurd (cc)
known_find x ((y, d) ∷ hash) e found = pick (x == y) refl found (known_find x hash e)
  where
    pick :
        (b : Bool)
        → (x == y) ≡ b
        → (if b then some d else find x hash) ≡ some e
        → (find x hash ≡ some e → Among x (keys hash))
        → Among x (y ∷ keys hash)
    pick true at is rest = inl (equal x y at)
    pick false off is rest = inr (rest is)

pub keys-put : (x : ℕ) (e : Entry) (hash : Hash) → keys (put x e hash) ≡ keys hash
keys-put x e [] = refl
keys-put x e ((y, d) ∷ hash) = elim (Bool-cases (x == y)) [
  | inl at ↦ rw at (ap (λ ks. y ∷ ks) (keys-put x e hash))
  | inr off ↦ rw off (ap (λ ks. y ∷ ks) (keys-put x e hash))
]

-- A new entry for one address, after an access to it.
pub put-Tracks :
    (past past' : List Access) (nodes nodes' : Nodes) (x : ℕ) (e : Entry) (hash : Hash)
    → ((y : ℕ) (d : Entry) → (x == y) ≡ false → Tracks past nodes y d → Tracks past' nodes' y d)
    → Tracks past' nodes' x e
    → AllTracks past nodes hash
    → AllTracks past' nodes' (put x e hash)
put-Tracks past past' nodes nodes' x e [] others t ts = tt
put-Tracks past past' nodes nodes' x e ((y, d) ∷ hash) others t (s, ts) =
    if_cases (AllTracks past' nodes') (x == y) ((y, e) ∷ put x e hash) ((y, d) ∷ put x e hash)
      (λ at. (
        subst (λ (v : ℕ). Tracks past' nodes' v e) (equal x y at) t,
        put-Tracks past past' nodes nodes' x e hash others t ts,
      ))
      (λ off. (others y d off s, put-Tracks past past' nodes nodes' x e hash others t ts))
