-- ===== src/Dag/Paths.antt =====
-- What an edge of the graph of tasks does, and the tasks that come before a task.
use kupl.Prelude.{
  ℕ, ◌+◌, ◌%◌, ◌^◌, ◌≡◌, refl, sym, ap, ◌∙◌, subst, arith, Bool, true, false, ◌==◌, if◌then◌else◌,
  List, [], ◌∷◌, Option, none, some, inl, inr, ◌⊎◌, Bool-cases, if_cases, update, ==_iff,
}
use kupl.Dag.{Gnode, Nodes, kupl_gnode_precede, new_successor, new_predecessor}

abbrev pub Among : {A : Type 0} → A → List A → Type 0
Among x [] = ⊥
Among x (y ∷ ys) = (x ≡ y) ⊎ Among x ys

-- A chain of successors leads from the first task to the second.
pub data Before (nodes : Nodes) : ℕ → ℕ → Type 0 where
  itself : (a : ℕ) → Before nodes a a
  through : (a b c : ℕ) → Among b (nodes a).successors → Before nodes b c → Before nodes a c

pub Before-trans :
    (nodes : Nodes) (a b c : ℕ) → Before nodes a b → Before nodes b c → Before nodes a c
Before-trans nodes a b c (itself _) q = q
Before-trans nodes a b c (through _ d _ e p) q = through a d c e (Before-trans nodes d b c p q)

-- A task that has run, or that has to before the other can.
abbrev pub Covered : Nodes → ℕ → ℕ → Type 0
Covered nodes a b = ((nodes a).finished ≡ true) ⊎ Before nodes a b

-- No task has run before one that it waits for.
abbrev pub Closed : Nodes → Type 0
Closed nodes =
    (u v : ℕ) → Among v (nodes u).successors → (nodes v).finished ≡ true → (nodes u).finished ≡ true

pub Before-finished :
    (nodes : Nodes) (a b : ℕ)
    → Closed nodes
    → Before nodes a b
    → (nodes b).finished ≡ true
    → (nodes a).finished ≡ true
Before-finished nodes a b closed (itself _) f = f
Before-finished nodes a b closed (through _ d _ e p) f =
    closed a d e (Before-finished nodes d b closed p f)

pub Covered-trans :
    (nodes : Nodes) (a b c : ℕ)
    → Closed nodes
    → Covered nodes a b
    → Covered nodes b c
    → Covered nodes a c
Covered-trans nodes a b c closed (inl f) q = inl f
Covered-trans nodes a b c closed (inr p) (inl f) = inl (Before-finished nodes a b closed p f)
Covered-trans nodes a b c closed (inr p) (inr q) = inr (Before-trans nodes a b c p q)

-- Edges and finished tasks stay.
pub record Grows (nodes nodes' : Nodes) : Type 0 where
  pub edges : (u v : ℕ) → Among v (nodes u).successors → Among v (nodes' u).successors
  pub runs : (u : ℕ) → (nodes u).finished ≡ true → (nodes' u).finished ≡ true

pub Grows-refl : (nodes : Nodes) → Grows nodes nodes
Grows-refl nodes = record { edges = λ u v e. e; runs = λ u f. f }

pub Grows-trans : (a b c : Nodes) → Grows a b → Grows b c → Grows a c
Grows-trans a b c g h = record {
  edges = λ u v e. h.edges u v (g.edges u v e);
  runs = λ u f. h.runs u (g.runs u f);
}

Before-Grows :
    (nodes nodes' : Nodes) (a b : ℕ) → Grows nodes nodes' → Before nodes a b → Before nodes' a b
Before-Grows nodes nodes' a b g (itself _) = itself a
Before-Grows nodes nodes' a b g (through _ d _ e p) =
    through a d b (g.edges a d e) (Before-Grows nodes nodes' d b g p)

pub Covered-Grows :
    (nodes nodes' : Nodes) (a b : ℕ) → Grows nodes nodes' → Covered nodes a b → Covered nodes' a b
Covered-Grows nodes nodes' a b g (inl f) = inl (g.runs a f)
Covered-Grows nodes nodes' a b g (inr p) = inr (Before-Grows nodes nodes' a b g p)

equal : (a b : ℕ) → (a == b) ≡ true → a ≡ b
equal a b = (==_iff a b).0

-- The nodes with an edge from `p` to `n`.
module _ (p n : ℕ) (nodes : Nodes) where
  abbrev pub linked : Nodes
  linked =
      let nodes1 = update nodes p (new_successor n (nodes p)) in
      update nodes1 n (new_predecessor (nodes1 n))

  -- What `linked` does to a field `f` that neither count of predecessors is.
  linked_field :
      {A : Type 0} (f : Gnode → A) (u : ℕ)
      → ((g : Gnode) → f (new_predecessor g) ≡ f g)
      → f (linked u) ≡ f (update nodes p (new_successor n (nodes p)) u)
  linked_field f u same = elim (Bool-cases (n == u)) [
    | inl at ↦ rw at (
        same (update nodes p (new_successor n (nodes p)) n)
        ∙ ap (λ v. f (update nodes p (new_successor n (nodes p)) v)) (equal n u at))
    | inr off ↦ rw off refl
  ]

  pub linked-successors :
      (u : ℕ)
      → (linked u).successors ≡ (if p == u then n ∷ (nodes u).successors else (nodes u).successors)
  linked-successors u =
      linked_field (λ g. g.successors) u (λ g. refl) ∙ elim (Bool-cases (p == u)) [
        | inl at ↦ rw at (ap (λ v. n ∷ (nodes v).successors) (equal p u at))
        | inr off ↦ rw off refl
      ]

  pub linked-finished : (u : ℕ) → (linked u).finished ≡ (nodes u).finished
  linked-finished u = linked_field (λ g. g.finished) u (λ g. refl) ∙ elim (Bool-cases (p == u)) [
    | inl at ↦ rw at (ap (λ v. (nodes v).finished) (equal p u at))
    | inr off ↦ rw off refl
  ]

  pub linked-n_predecessors :
      (u : ℕ)
      → (linked u).n_predecessors
        ≡ (if n == u then ((nodes u).n_predecessors + 1) % 2 ^ 32 else (nodes u).n_predecessors)
  linked-n_predecessors u = elim (Bool-cases (n == u)) [
    | inl at ↦
        rw at (
          ap (λ c. (c + 1) % 2 ^ 32) (before n ∙ ap (λ v. (nodes v).n_predecessors) (equal n u at)))
    | inr off ↦ rw off (before u)
  ]
    where
      before :
          (v : ℕ)
          → (update nodes p (new_successor n (nodes p)) v).n_predecessors ≡ (nodes v).n_predecessors
      before v = elim (Bool-cases (p == v)) [
        | inl at ↦ rw at (ap (λ w. (nodes w).n_predecessors) (equal p v at))
        | inr off ↦ rw off refl
      ]

-- What giving edges to `n` does.
pub record Links (n : ℕ) (nodes nodes' : Nodes) : Type 0 where
  pub grows : Grows nodes nodes'
  pub same : (u : ℕ) → (nodes' u).finished ≡ (nodes u).finished
  pub closed : Closed nodes → (nodes n).finished ≡ false → Closed nodes'

pub Links-refl : (n : ℕ) (nodes : Nodes) → Links n nodes nodes
Links-refl n nodes = record { grows = Grows-refl nodes; same = λ u. refl; closed = λ c f. c }

pub Links-trans : (n : ℕ) (a b c : Nodes) → Links n a b → Links n b c → Links n a c
Links-trans n a b c g h = record {
  grows = Grows-trans a b c g.grows h.grows;
  same = λ u. h.same u ∙ g.same u;
  closed = λ closed f. h.closed (g.closed closed f) (g.same n ∙ f);
}

module _ (p n : ℕ) (nodes : Nodes) where
  edge_back :
      (u v : ℕ) → Among v (linked p n nodes u).successors → (v ≡ n) ⊎ Among v (nodes u).successors
  edge_back u v e = split (p == u) (subst (Among v) (linked-successors p n nodes u) e)
    where
      split :
          (b : Bool)
          → Among v (if b then n ∷ (nodes u).successors else (nodes u).successors)
          → (v ≡ n) ⊎ Among v (nodes u).successors
      split true e = e
      split false e = inr e

  edge_kept : (u v : ℕ) → Among v (nodes u).successors → Among v (linked p n nodes u).successors
  edge_kept u v e = subst (Among v) (sym (linked-successors p n nodes u)) (either (p == u))
    where
      either : (b : Bool) → Among v (if b then n ∷ (nodes u).successors else (nodes u).successors)
      either true = inr e
      either false = e

  pub new_edge : Among n (linked p n nodes p).successors
  new_edge =
      let here : (p == p) ≡ true = ground arith in
      subst (Among n) (sym (linked-successors p n nodes p)) (rw here (inl refl))

  linked-Links : Links n nodes (linked p n nodes)
  linked-Links = record {
    grows = record { edges = edge_kept; runs = λ u f. linked-finished p n nodes u ∙ f };
    same = linked-finished p n nodes;
    closed = λ closed idle u v e f. elim (edge_back u v e) [
      | inl is_n ↦
          let run : true ≡ false =
            sym f ∙ linked-finished p n nodes v ∙ ap (λ w. (nodes w).finished) is_n ∙ idle in
          absurd (cc)
      | inr before ↦
          linked-finished p n nodes u ∙ closed u v before (sym (linked-finished p n nodes v) ∙ f)
    ];
  }

-- Covered by the last writer, or run if there is none.
abbrev pub CoveredBy : Nodes → ℕ → Option ℕ → Type 0
CoveredBy nodes a none = (nodes a).finished ≡ true
CoveredBy nodes a (some o) = Covered nodes a o

pub kupl_gnode_precede-Links :
    (o : Option ℕ) (n : ℕ) (nodes : Nodes) → Links n nodes (kupl_gnode_precede o n nodes).0
unfolding kupl_gnode_precede
kupl_gnode_precede-Links none n nodes = Links-refl n nodes
kupl_gnode_precede-Links (some p) n nodes =
    if_cases (λ (out : Nodes × ℕ). Links n nodes out.0) (nodes p).finished (nodes, 0)
      (linked p n nodes, 1) (λ run. Links-refl n nodes) (λ waits. linked-Links p n nodes)

pub kupl_gnode_precede-Covered :
    (o : Option ℕ) (n : ℕ) (nodes : Nodes) (a : ℕ)
    → Closed nodes
    → (nodes n).finished ≡ false
    → CoveredBy nodes a o
    → Covered (kupl_gnode_precede o n nodes).0 a n
unfolding kupl_gnode_precede
kupl_gnode_precede-Covered none n nodes a closed idle c = inl c
kupl_gnode_precede-Covered (some p) n nodes a closed idle c =
    let links = linked-Links p n nodes in
    if_cases (λ (out : Nodes × ℕ). Covered out.0 a n) (nodes p).finished (nodes, 0)
      (linked p n nodes, 1) (λ run. Covered-trans nodes a p n closed c (inl run))
      (λ waits.
        Covered-trans (linked p n nodes) a p n (links.closed closed idle)
          (Covered-Grows nodes (linked p n nodes) a p links.grows c)
          (inr (through p n n (new_edge p n nodes) (itself n))))
